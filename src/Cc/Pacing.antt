-- ===== src/Cc/Pacing.antt =====
-- The pacing fallback for controllers that publish no rate, cc/transport_pacing.c: the rate from the
-- window and the smoothed RTT, and the size of a batch from the rate. No pointer is null.
pub mod Quantum
pub mod Rate
use tcp_shift.Prelude.{
  ℕ, ◌+◌, ◌-◌, ◌*◌, ◌/◌, ◌%◌, ◌||◌, ◌&&◌, ltb, ◌==◌, ◌/=◌, if◌then◌else◌, u32_max, u32, u64,
}
use tcp_shift.Cc.{Transport, Policy}

abbrev pub nsec_per_sec : ℕ
nsec_per_sec = 1000000000

abbrev pub pre_srtt_base : ℕ
pre_srtt_base = 8000000

abbrev pub ss_percent : ℕ
ss_percent = 200

abbrev pub ca_percent : ℕ
ca_percent = 120

abbrev pub min_quantum_segs : ℕ
min_quantum_segs = 2

abbrev pub max_quantum_segs : ℕ
max_quantum_segs = 16

unfoldable pub scale_percent : ℕ → ℕ → ℕ
scale_percent value percent =
    if value == 0 || percent == 0
    then 0
    else let quotient = value / 100 in
      let remainder = value % 100 in
      let scaled = u64 (u64 (quotient * percent) + u64 (remainder * percent) / 100) in
      if scaled == 0 then 1 else scaled

-- The larger of the window and what is in flight.
unfoldable pub window_bytes : Transport → Policy → ℕ
window_bytes t policy =
    if ltb policy.cwnd_bytes t.inflight_bytes then t.inflight_bytes else policy.cwnd_bytes

unfoldable pub base_rate : ℕ → ℕ → ℕ
base_rate window smoothed_rtt_ns =
    if smoothed_rtt_ns /= 0
    then (let rate = u64 (window * nsec_per_sec) / smoothed_rtt_ns in if rate == 0 then 1 else rate)
    else u64 (window * pre_srtt_base)

unfoldable pub percent : Policy → ℕ
percent policy =
    if ltb policy.cwnd_bytes (policy.ssthresh_bytes / 2) then ss_percent else ca_percent

unfoldable pub window_rate : Transport → Policy → ℕ → ℕ
window_rate t policy smoothed_rtt_ns =
    if window_bytes t policy == 0
    then 0
    else scale_percent (base_rate (window_bytes t policy) smoothed_rtt_ns) (percent policy)

-- The rate shifted right by 10, in whole segments.
unfoldable pub target_segments : ℕ → ℕ → ℕ
target_segments rate mss_bytes = rate / 1024 / mss_bytes

unfoldable pub clamp_segments : ℕ → ℕ
clamp_segments target =
    let segments = if ltb u32_max target then u32_max else target in
    let raised = if ltb segments min_quantum_segs then min_quantum_segs else segments in
    if ltb max_quantum_segs raised then max_quantum_segs else raised

unfoldable pub quantum_bytes : ℕ → ℕ → ℕ
quantum_bytes rate mss_bytes =
    if rate == 0 || mss_bytes == 0
    then 0
    else let quantum = u64 (clamp_segments (target_segments rate mss_bytes) * mss_bytes) in
      if ltb u32_max quantum then u32_max else quantum

-- The policy after `tcp_shift_transport_pacing_apply_window_fallback`, which then returns 0.
unfoldable pub apply_window_fallback : Transport → ℕ → ℕ → Policy → Policy
apply_window_fallback t smoothed_rtt_ns rate_cap policy =
    if policy.pacing_rate_bytes_per_sec /= 0
    then policy
    else let rate = window_rate t policy smoothed_rtt_ns in
      record policy {
        pacing_rate_bytes_per_sec = if rate_cap /= 0 && ltb rate_cap rate then rate_cap else rate;
      }
