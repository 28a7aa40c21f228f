-- ===== src/Cc/Bbr.antt =====
-- The model of BBR, cc/bbr.c and cc/bbr_pacing.c: the filters of bandwidth and round trips, and the
-- arithmetic of its targets. The ten slots of the bandwidth filter are a function from their indices.
pub mod Filter
pub mod Policy
pub mod Product
pub mod Reach
pub mod Targets
use Prim.Native.Nat.{min, max}
use tcp_shift.Prelude.{
  ℕ, zero, suc, ◌+◌, ◌-◌, ◌*◌, ◌/◌, ◌%◌, Bool, true, false, not, ◌&&◌, ◌||◌, ltb, ◌==◌, ◌/=◌,
  if◌then◌else◌, u64, u64_max,
}

abbrev pub billion : ℕ
billion = 1000000000

unfoldable pub sat_add : ℕ → ℕ → ℕ
sat_add a b = if ltb (u64_max - a) b then u64_max else a + b

unfoldable pub sat_mul : ℕ → ℕ → ℕ
sat_mul a b = if a == 0 || b == 0 then 0 else if ltb (u64_max / b) a then u64_max else a * b

unfoldable pub scale_floor : ℕ → ℕ → ℕ → ℕ
scale_floor value numerator denominator =
    let whole = sat_mul (value / denominator) numerator in
    let remainder_product = u64 (value % denominator * numerator) in
    if denominator == 0
    then u64_max
    else if whole == u64_max
    then u64_max
    else sat_add whole (remainder_product / denominator)

unfoldable pub scale_ceil : ℕ → ℕ → ℕ → ℕ
scale_ceil value numerator denominator =
    let whole = sat_mul (value / denominator) numerator in
    let remainder_product = u64 (value % denominator * numerator) in
    let sum = sat_add whole (remainder_product / denominator) in
    if denominator == 0
    then u64_max
    else if whole == u64_max
    then u64_max
    else if sum == u64_max
    then u64_max
    else if remainder_product % denominator /= 0
    then sat_add sum 1
    else sum

unfoldable pub elapsed_gt : ℕ → ℕ → ℕ → Bool
elapsed_gt now_ns stamp_ns interval_ns = ltb stamp_ns now_ns && ltb interval_ns (now_ns - stamp_ns)

-- The quotient terms of `bdp_bytes`, and its cross term.
unfoldable pub bdp_whole : ℕ → ℕ → ℕ
bdp_whole bandwidth rtt_ns =
    let first = sat_mul (bandwidth / billion) rtt_ns in
    if first == u64_max
    then u64_max
    else sat_add first (sat_mul (bandwidth % billion) (rtt_ns / billion))

unfoldable pub bdp_cross : ℕ → ℕ → ℕ
bdp_cross bandwidth rtt_ns = u64 (bandwidth % billion * (rtt_ns % billion))

unfoldable pub bdp_bytes : ℕ → ℕ → ℕ
bdp_bytes bandwidth rtt_ns =
    let cross = bdp_cross bandwidth rtt_ns in
    let whole = bdp_whole bandwidth rtt_ns in
    let sum = sat_add whole (cross / billion) in
    if bandwidth == 0 || rtt_ns == 0
    then 0
    else if whole == u64_max
    then u64_max
    else if sum == u64_max
    then u64_max
    else if cross % billion /= 0
    then sat_add sum 1
    else sum

-- The gains 739/256 and 88/256, each with a margin of 99/100.
unfoldable pub startup_pacing_rate : ℕ → ℕ
startup_pacing_rate bandwidth = scale_floor bandwidth (739 * 99) (256 * 100)

unfoldable pub drain_pacing_rate : ℕ → ℕ
drain_pacing_rate bandwidth = scale_floor bandwidth (88 * 99) (256 * 100)

unfoldable pub minimum_cwnd : ℕ → ℕ → ℕ
minimum_cwnd mss_bytes cwnd_limit_bytes = min (mss_bytes * 4) cwnd_limit_bytes

unfoldable pub startup_cwnd_target : ℕ → ℕ → ℕ → ℕ → ℕ → ℕ
startup_cwnd_target bandwidth min_rtt_ns mss_bytes cwnd_limit_bytes initial_cwnd_bytes =
    let target =
      if bandwidth == 0 || min_rtt_ns == 0
      then initial_cwnd_bytes
      else scale_ceil (bdp_bytes bandwidth min_rtt_ns) 739 256 in
    if mss_bytes == 0 || cwnd_limit_bytes == 0
    then 0
    else min (max target (minimum_cwnd mss_bytes cwnd_limit_bytes)) cwnd_limit_bytes

unfoldable pub initial_pacing_rate : ℕ → ℕ → ℕ
initial_pacing_rate initial_cwnd_bytes smoothed_rtt_ns =
    let rtt_ns = if smoothed_rtt_ns /= 0 then smoothed_rtt_ns else 1000000 in
    let base = initial_cwnd_bytes * billion / rtt_ns in
    if initial_cwnd_bytes == 0 then 0 else startup_pacing_rate (if base == 0 then 1 else base)

-- `enum tcp_shift_bbr_mode`
pub data Mode : Type 0 where
  startup : Mode
  drain : Mode
  probe_bw : Mode
  probe_rtt : Mode

unfoldable pub is_startup : Mode → Bool
is_startup startup = true
is_startup drain = false
is_startup probe_bw = false
is_startup probe_rtt = false

unfoldable pub is_drain : Mode → Bool
is_drain startup = false
is_drain drain = true
is_drain probe_bw = false
is_drain probe_rtt = false

-- `struct tcp_shift_bbr_model`
pub record Bbr : Type 0 where
  pub max_bw : ℕ  -- uint64_t, as all numbers but the last three
  pub max_bw_filter : ℕ → ℕ
  pub min_rtt_ns : ℕ
  pub min_rtt_stamp_ns : ℕ
  pub probe_rtt_min_delay_ns : ℕ
  pub probe_rtt_min_stamp_ns : ℕ
  pub last_update_ns : ℕ
  pub valid_rate_samples : ℕ
  pub accepted_bw_samples : ℕ
  pub ignored_app_limited_bw_samples : ℕ
  pub valid_rtt_samples : ℕ
  pub next_round_delivered : ℕ
  pub full_bw : ℕ
  pub bw_filter_round : ℕ  -- uint32_t, as the next two
  pub round_count : ℕ
  pub full_bw_count : ℕ
  pub mode : Mode
  pub has_min_rtt : Bool
  pub has_probe_rtt_min : Bool
  pub has_update_time : Bool
  pub has_bw_filter_round : Bool
  pub probe_rtt_expired : Bool
  pub min_rtt_expired : Bool
  pub round_start : Bool
  pub full_bw_now : Bool
  pub full_bw_reached : Bool
