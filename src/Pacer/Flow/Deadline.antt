-- ===== src/Pacer/Flow/Deadline.antt =====
-- When a deferred segment may go, and how far a late sender may catch up.
use tcp_shift.Prelude.{ℕ, ◌+◌, ◌≤◌, ◌<◌, ◌≡◌, some, arith, IsU32, u64_max}
use tcp_shift.Pacer.Flow.{
  FlowPacer, eligible, deferred, spacing_ns, add_sat, tx_base, advance, note_tx, segment_eligible,
}

-- A deferred segment is deferred to a later time, and is eligible at that time.
pub deferred_until_eligible :
    (f : FlowPacer) (now bytes d : ℕ)
    → (segment_eligible f now bytes).0 ≡ deferred d
    → (now < d) × ((segment_eligible (segment_eligible f now bytes).1 d bytes).0 ≡ eligible)
unfolding segment_eligible
deferred_until_eligible f now bytes d h = ground arith

-- However late a send of a 32-bit number of bytes on a flow with a rate is, the credit kept from the past is at most the configured catch-up: if the
-- clock does not reach its end, its new deadline is no earlier than the present less the spacing of
-- the catch-up bytes, plus the spacing of the bytes sent.
pub note_tx_catch_up :
    (f : FlowPacer) (now bytes : ℕ) {g : FlowPacer}
    → IsU32 bytes
    → note_tx f now bytes ≡ some g
    → g.next_send_ns < u64_max
    → 0 < f.rate_bytes_per_sec
    → now + spacing_ns bytes f.rate_bytes_per_sec
      ≤ g.next_send_ns + spacing_ns f.max_catch_up_bytes f.rate_bytes_per_sec
unfolding note_tx advance tx_base add_sat
note_tx_catch_up f now bytes hb h hm hr = ground arith
