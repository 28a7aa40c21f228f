-- ===== src/Evidence/Round.antt =====
-- The accounting of a loss round, lwip/bbr3_loss_round.c, over the losses of the parent.
pub mod Totals
use tcp_shift.Prelude.{
  ℕ, ◌+◌, ◌-◌, ◌*◌, Bool, true, false, not, ◌&&◌, ◌||◌, Option, none, some, ltb, leb, ◌==◌, ◌/=◌,
  if◌then◌else◌, u32_max, u64_max, u32, u64,
}
use tcp_shift.Evidence.{Loss}

-- `struct tcp_shift_bbr3_loss_round`
pub record LossRound : Type 0 where
  pub delivered_start : ℕ  -- uint64_t
  pub newly_lost_bytes : ℕ  -- uint64_t
  pub snapshot_delivered_at_tx : ℕ  -- uint64_t
  pub last_generation : ℕ  -- uint64_t
  pub last_seq_start : ℕ  -- uint32_t
  pub snapshot_tx_inflight_bytes : ℕ  -- uint32_t
  pub event_count : ℕ  -- uint32_t
  pub active : Bool
  pub context_consistent : Bool
  pub all_probe_samples : Bool

-- `struct tcp_shift_bbr3_loss_round_result`
pub record RoundResult : Type 0 where
  pub delivered_start : ℕ
  pub delivered_end : ℕ
  pub newly_lost_bytes : ℕ
  pub events : ℕ
  pub tx_inflight_bytes : ℕ
  pub same_send_snapshot : Bool
  pub loss_fraction_valid : Bool
  pub qualified_probe_excess_loss : Bool

-- The round, and whether the call returns 0.
unfoldable pub start : LossRound → ℕ → LossRound × Bool
start r delivered_start = if r.active then (r, false) else (
  record {
    delivered_start = delivered_start;
    newly_lost_bytes = 0;
    snapshot_delivered_at_tx = 0;
    last_generation = 0;
    last_seq_start = 0;
    snapshot_tx_inflight_bytes = 0;
    event_count = 0;
    active = true;
    context_consistent = true;
    all_probe_samples = true;
  },
  true,
)

unfoldable pub unacceptable : LossRound → Loss → Bool
unacceptable r event =
    not r.active
    || (event.generation == 0
        || (event.newly_lost_bytes == 0
            || (event.tx_ns == 0
                || (ltb event.tx_inflight_bytes event.newly_lost_bytes
                    || ((event.generation == r.last_generation
                          && event.seq_start == r.last_seq_start)
                        || (r.event_count == u32_max
                            || ltb (u64_max - r.newly_lost_bytes) event.newly_lost_bytes))))))

-- The send snapshot is taken from the first loss, and compared with the later ones.
unfoldable pub compare_context : LossRound → Loss → LossRound
compare_context r event =
    if r.event_count == 0
    then record r {
      snapshot_delivered_at_tx = event.delivered_at_tx;
      snapshot_tx_inflight_bytes = event.tx_inflight_bytes;
    }
    else if r.snapshot_delivered_at_tx /= event.delivered_at_tx
        || r.snapshot_tx_inflight_bytes /= event.tx_inflight_bytes
    then record r { context_consistent = false }
    else r

unfoldable pub count_loss : LossRound → Loss → LossRound
count_loss r event = record r {
  all_probe_samples = if event.probe_sample then r.all_probe_samples else false;
  last_generation = event.generation;
  last_seq_start = event.seq_start;
  event_count = u32 (r.event_count + 1);
  newly_lost_bytes = u64 (r.newly_lost_bytes + event.newly_lost_bytes);
}

unfoldable pub add : LossRound → Loss → LossRound × Bool
add r event =
    if unacceptable r event then (r, false) else (count_loss (compare_context r event) event, true)

unfoldable pub ratio_valid : LossRound → Bool
ratio_valid r = r.event_count /= 0 && (r.context_consistent && r.snapshot_tx_inflight_bytes /= 0)

unfoldable pub excess : LossRound → Bool
excess r =
    ratio_valid r
    && (r.all_probe_samples
        && (ltb u32_max r.newly_lost_bytes
            || ltb (u64 (r.snapshot_tx_inflight_bytes * 2)) (u64 (r.newly_lost_bytes * 100))))

abbrev pub report : LossRound → ℕ → RoundResult
report r delivered_end = record {
  delivered_start = r.delivered_start;
  delivered_end = delivered_end;
  newly_lost_bytes = r.newly_lost_bytes;
  events = r.event_count;
  tx_inflight_bytes = if ratio_valid r then r.snapshot_tx_inflight_bytes else 0;
  same_send_snapshot = r.event_count /= 0 && r.context_consistent;
  loss_fraction_valid = ratio_valid r;
  qualified_probe_excess_loss = excess r;
}

-- The round, and the result if the call returns 0; the flag is an `unsigned`.
unfoldable pub finish : LossRound → ℕ → ℕ → LossRound × Option RoundResult
finish r delivered_end packet_timed_round_complete =
    if not r.active || (packet_timed_round_complete /= 1 || leb delivered_end r.delivered_start)
    then (r, none)
    else (record r { active = false }, some (report r delivered_end))
