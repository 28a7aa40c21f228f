-- ===== src/Evidence.antt =====
-- The loss evidence of BBRv3: lwip/bbr3_rack_evidence.c, a record for each delivery slot that tells
-- a loss of one transmission, and lwip/bbr3_loss_round.c in the child Round, which adds the losses
-- of a round up. Pointers are not null; flags hold 0 or 1 and are Booleans.
pub mod Once
pub mod Round
use tcp_shift.Prelude.{
  ℕ, ◌+◌, ◌-◌, ◌%◌, Bool, true, false, not, ◌&&◌, ◌||◌, ltb, leb, ◌==◌, ◌/=◌, if◌then◌else◌, u32,
}
use tcp_shift.Rack

-- `struct tcp_shift_bbr3_rack_attempt`
pub record Attempt : Type 0 where
  pub generation : ℕ  -- uint64_t
  pub tx_ns : ℕ  -- uint64_t
  pub delivered_at_tx : ℕ  -- uint64_t
  pub qualified_generation : ℕ  -- uint64_t
  pub revoked_generation : ℕ  -- uint64_t
  pub seq_start : ℕ  -- uint32_t
  pub prior_inflight_bytes : ℕ  -- uint32_t
  pub payload_bytes : ℕ  -- uint16_t
  pub delivered_bytes : ℕ  -- uint16_t
  pub retransmitted : Bool
  pub app_limited : Bool
  pub probe_sample : Bool

-- `struct tcp_shift_bbr3_rack_tx`
pub record Tx : Type 0 where
  pub generation : ℕ
  pub tx_ns : ℕ
  pub delivered_at_tx : ℕ
  pub seq_start : ℕ
  pub prior_inflight_bytes : ℕ
  pub payload_bytes : ℕ
  pub already_delivered_bytes : ℕ
  pub retransmitted : Bool
  pub app_limited : Bool
  pub probe_sample : Bool

-- `struct tcp_shift_bbr3_rack_loss`
pub record Loss : Type 0 where
  pub generation : ℕ
  pub tx_ns : ℕ
  pub delivered_at_tx : ℕ
  pub seq_start : ℕ
  pub tx_inflight_bytes : ℕ
  pub newly_lost_bytes : ℕ
  pub retransmitted : Bool
  pub app_limited : Bool
  pub probe_sample : Bool

unfoldable pub attempt_init : Attempt
attempt_init = record {
  generation = 0;
  tx_ns = 0;
  delivered_at_tx = 0;
  qualified_generation = 0;
  revoked_generation = 0;
  seq_start = 0;
  prior_inflight_bytes = 0;
  payload_bytes = 0;
  delivered_bytes = 0;
  retransmitted = false;
  app_limited = false;
  probe_sample = false;
}

-- The attempt, and whether the call returns 0.
unfoldable pub note_tx : Attempt → Tx → Attempt × Bool
note_tx a tx =
    if tx.generation == 0
      || (leb tx.generation a.generation
          || (tx.tx_ns == 0
              || (tx.payload_bytes == 0
                  || (leb tx.payload_bytes tx.already_delivered_bytes
                      || (ltb tx.prior_inflight_bytes tx.payload_bytes
                          || (a.generation /= 0 && ltb tx.tx_ns a.tx_ns))))))
    then (a, false)
    else (
      record a {
        generation = tx.generation;
        tx_ns = tx.tx_ns;
        delivered_at_tx = tx.delivered_at_tx;
        seq_start = tx.seq_start;
        prior_inflight_bytes = tx.prior_inflight_bytes;
        payload_bytes = tx.payload_bytes;
        delivered_bytes = tx.already_delivered_bytes;
        retransmitted = tx.retransmitted;
        app_limited = tx.app_limited;
        probe_sample = tx.probe_sample;
      },
      true,
    )

unfoldable pub note_delivery : Attempt → ℕ → Attempt × Bool
note_delivery a total =
    if a.generation == 0 || (ltb total a.delivered_bytes || ltb a.payload_bytes total)
    then (a, false)
    else (record a { delivered_bytes = total }, true)

-- The results -1, 0 and 1 of `qualify_loss`, the last with what it writes to `out`.
pub data Verdict : Type 0 where
  refused none_yet : Verdict
  lost : Loss → Verdict

abbrev pub segment : Attempt → Rack.Segment
segment a = record {
  xmit_ts_ns = a.tx_ns;
  seq_start = a.seq_start;
  end_seq = u32 (a.seq_start + a.payload_bytes);
  retransmitted = a.retransmitted;
  lost = false;
}

abbrev pub evidence : Attempt → Loss
evidence a = record {
  generation = a.generation;
  tx_ns = a.tx_ns;
  delivered_at_tx = a.delivered_at_tx;
  seq_start = a.seq_start;
  tx_inflight_bytes = a.prior_inflight_bytes;
  newly_lost_bytes = (a.payload_bytes - a.delivered_bytes) % 65536;
  retransmitted = a.retransmitted;
  app_limited = a.app_limited;
  probe_sample = a.probe_sample;
}

unfoldable pub qualify_loss : Attempt → Rack.State → ℕ → ℕ → Attempt × Rack.State × Verdict
qualify_loss a rack now in_recovery =
    if now == 0 || (a.generation == 0 || (ltb now a.tx_ns || ltb 1 in_recovery))
    then (a, rack, refused)
    else if a.qualified_generation == a.generation || leb a.payload_bytes a.delivered_bytes
    then (a, rack, none_yet)
    else let (rack', mature, _) = Rack.loss_remaining rack (segment a) now (in_recovery /= 0) in
      if mature
      then (record a { qualified_generation = a.generation }, rack', lost (evidence a))
      else (a, rack', none_yet)

-- The results -1, 0 and 1 of `undo_spurious`.
pub data Undo : Type 0 where
  invalid unmatched fresh : Undo

unfoldable pub undo_spurious : Attempt → ℕ → Attempt × Undo
undo_spurious a generation =
    if generation == 0
    then (a, invalid)
    else if generation /= a.qualified_generation || generation == a.revoked_generation
    then (a, unmatched)
    else (record a { revoked_generation = generation }, fresh)
