-- ===== src/Pacer/Flow.antt =====
-- The pacing clock of one flow: `struct tcp_shift_flow_pacer` and its functions, those of
-- runtime/pacer.c and the inline ones of runtime/pacer.h. Pointers are never null here, so the
-- guards on NULL have no counterpart; a return of -1 is `none` or `invalid`.
pub mod Spacing
pub mod Runs
pub mod Conformance
pub mod Deadline
use tcp_shift.Prelude.{
  ℕ, ◌+◌, ◌-◌, ◌*◌, ◌/◌, ◌%◌, Bool, true, false, ◌||◌, ◌&&◌, Option, none, some, ltb, leb, ◌==◌,
  ◌/=◌, if◌then◌else◌, u64, u64_max,
}

pub record FlowPacer : Type 0 where
  pub rate_bytes_per_sec : ℕ  -- uint64_t
  pub next_send_ns : ℕ  -- uint64_t
  pub max_catch_up_bytes : ℕ  -- uint32_t
  pub quantum_bytes : ℕ  -- uint32_t
  pub quantum_remaining_bytes : ℕ  -- uint32_t
  pub tx_events : ℕ  -- uint64_t
  pub tx_bytes : ℕ  -- uint64_t
  pub catch_up_clamps : ℕ  -- uint64_t
  pub quantum_grants : ℕ  -- uint64_t

abbrev pub nsec_per_sec : ℕ
nsec_per_sec = 1000000000

-- The quotient, rounded up by hand as the source does it.
unfoldable pub quotient_up : ℕ → ℕ → ℕ
quotient_up numerator rate =
    if numerator % rate /= 0 then u64 (numerator / rate + 1) else numerator / rate

unfoldable pub spacing_ns : ℕ → ℕ → ℕ
spacing_ns bytes rate =
    if bytes == 0 || rate == 0
    then 0
    else let spacing = quotient_up (u64 (bytes * nsec_per_sec)) rate in
      if spacing == 0 then 1 else spacing

unfoldable pub add_sat : ℕ → ℕ → ℕ
add_sat left right = if ltb (u64_max - left) right then u64_max else left + right

unfoldable pub init : ℕ → FlowPacer
init max_catch_up_bytes = record {
  rate_bytes_per_sec = 0;
  next_send_ns = 0;
  max_catch_up_bytes = max_catch_up_bytes;
  quantum_bytes = 0;
  quantum_remaining_bytes = 0;
  tx_events = 0;
  tx_bytes = 0;
  catch_up_clamps = 0;
  quantum_grants = 0;
}

unfoldable pub reset : FlowPacer → FlowPacer
unfolding init
reset flow = init flow.max_catch_up_bytes

unfoldable pub set_rate : FlowPacer → ℕ → FlowPacer
set_rate flow rate = record flow {
  rate_bytes_per_sec = rate;
  next_send_ns = if rate == 0 then 0 else flow.next_send_ns;
}

unfoldable pub set_quantum : FlowPacer → ℕ → FlowPacer
set_quantum flow quantum =
    if flow.quantum_bytes == quantum
    then flow
    else record flow { quantum_bytes = quantum; quantum_remaining_bytes = 0 }

unfoldable pub set_rate_quantum : FlowPacer → ℕ → ℕ → FlowPacer
unfolding set_rate
set_rate_quantum flow rate quantum =
    let rate_changed = flow.rate_bytes_per_sec /= rate in
    let rated = set_rate flow rate in
    let remaining =
      if rate_changed || rated.quantum_bytes /= quantum then 0 else rated.quantum_remaining_bytes in
    record rated { quantum_remaining_bytes = remaining; quantum_bytes = quantum }

-- The results 1, 0 (with `*deadline_ns`) and -1 of `segment_eligible`.
pub data Eligibility : Type 0 where
  eligible : Eligibility
  deferred : ℕ → Eligibility
  invalid : Eligibility

unfoldable pub segment_eligible : FlowPacer → ℕ → ℕ → Eligibility × FlowPacer
segment_eligible flow now_ns bytes =
    if now_ns == 0 || bytes == 0
    then (invalid, flow)
    else if flow.rate_bytes_per_sec == 0
    then (eligible, flow)
    else if leb bytes flow.quantum_remaining_bytes
    then (eligible, record flow { quantum_remaining_bytes = flow.quantum_remaining_bytes - bytes })
    else if flow.next_send_ns /= 0 && ltb now_ns flow.next_send_ns
    then (deferred flow.next_send_ns, record flow { quantum_remaining_bytes = 0 })
    else let allowance = if ltb flow.quantum_bytes bytes then bytes else flow.quantum_bytes in
      (
        eligible,
        record flow {
          quantum_remaining_bytes = allowance - bytes;
          quantum_grants = u64 (flow.quantum_grants + 1);
        },
      )

unfoldable pub deadline : FlowPacer → ℕ → ℕ
deadline flow now_ns =
    if flow.rate_bytes_per_sec == 0 || flow.next_send_ns == 0 || leb flow.next_send_ns now_ns
    then 0
    else flow.next_send_ns

-- The start of the next spacing, and whether stale credit was clamped.
unfoldable pub tx_base : FlowPacer → ℕ → ℕ × Bool
tx_base flow now_ns =
    let base = flow.next_send_ns in
    let catch_up = spacing_ns flow.max_catch_up_bytes flow.rate_bytes_per_sec in
    let floor = if ltb catch_up now_ns then now_ns - catch_up else 0 in
    if base == 0
    then (now_ns, false)
    else if ltb base now_ns
    then (if ltb base floor then (floor, true) else (base, false))
    else (base, false)

-- The clock and the counters after a noted send.
unfoldable pub advance : FlowPacer → ℕ → ℕ → FlowPacer
advance flow now_ns bytes =
    let (base, clamped) = tx_base flow now_ns in
    record flow {
      catch_up_clamps = if clamped then u64 (flow.catch_up_clamps + 1) else flow.catch_up_clamps;
      next_send_ns = add_sat base (spacing_ns bytes flow.rate_bytes_per_sec);
      tx_events = u64 (flow.tx_events + 1);
      tx_bytes = add_sat flow.tx_bytes bytes;
    }

unfoldable pub note_tx : FlowPacer → ℕ → ℕ → Option FlowPacer
note_tx flow now_ns bytes =
    if now_ns == 0 || bytes == 0
    then none
    else if flow.rate_bytes_per_sec == 0
    then some (record flow { next_send_ns = 0 })
    else if spacing_ns bytes flow.rate_bytes_per_sec == 0
    then none
    else some (advance flow now_ns bytes)
