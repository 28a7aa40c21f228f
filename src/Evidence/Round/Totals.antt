-- ===== src/Evidence/Round/Totals.antt =====
-- The result of a round against the list of the losses that it took.
use tcp_shift.Prelude.{
  ℕ, ◌+◌, ◌*◌, ◌≤◌, ◌<◌, ◌≡◌, refl, Bool, true, false, ◌&&◌, some, List, [], ◌∷◌, length, ltb, ◌==◌,
  not, ◌||◌, leb, arith, IsU32,
}
use tcp_shift.Evidence.{Loss}
use tcp_shift.Evidence.Round.{
  LossRound, RoundResult, start, unacceptable, compare_context, count_loss, add, ratio_valid,
  excess, finish, report,
}

-- Descriptions of a list of losses, the last one first.
unfoldable pub lost_bytes : List Loss → ℕ
lost_bytes [] = 0
lost_bytes (e ∷ es) = lost_bytes es + e.newly_lost_bytes

unfoldable pub first : Loss → List Loss → Loss
first e [] = e
first e (d ∷ ds) = first d ds

abbrev pub same_context : Loss → Loss → Bool
same_context e d =
    d.delivered_at_tx == e.delivered_at_tx && d.tx_inflight_bytes == e.tx_inflight_bytes

unfoldable pub all_like : Loss → List Loss → Bool
all_like d [] = true
all_like d (e ∷ es) = all_like d es && same_context e d

unfoldable pub all_probes : List Loss → Bool
all_probes [] = true
all_probes (e ∷ es) = all_probes es && e.probe_sample

-- The losses share the context of the first of them, which sent them all as probes, and lost more
-- than 2 percent of what was in flight then.
unfoldable pub is_excess : List Loss → Bool
is_excess [] = false
is_excess (e ∷ es) =
    all_like (first e es) (e ∷ es)
    && (all_probes (e ∷ es) && ltb ((first e es).tx_inflight_bytes * 2) (lost_bytes (e ∷ es) * 100))

-- A round started at a delivery count, and the losses it has taken; it stays as it is when it
-- refuses one.
pub data Collected (from : ℕ) : List Loss → LossRound → Type 0 where
  started : (r : LossRound) → (start r from).1 ≡ true → Collected from [] (start r from).0
  took :
      (es : List Loss) (r : LossRound)
      → Collected from es r
      → (e : Loss) → IsU32 e.tx_inflight_bytes
      → (add r e).1 ≡ true
      → Collected from (e ∷ es) (add r e).0
  turned_away :
      (es : List Loss) (r : LossRound)
      → Collected from es r
      → (e : Loss) → (add r e).1 ≡ false
      → Collected from es (add r e).0

-- The snapshot of a round is that of its first loss.
pub data Snapshot : List Loss → LossRound → Type 0 where
  no_loss : (r : LossRound) → r.event_count ≡ 0 → r.context_consistent ≡ true → Snapshot [] r
  of_first :
      (e : Loss) (es : List Loss) (r : LossRound)
      → 0 < r.event_count
      → r.snapshot_delivered_at_tx ≡ (first e es).delivered_at_tx
      → r.snapshot_tx_inflight_bytes ≡ (first e es).tx_inflight_bytes
      → 0 < r.snapshot_tx_inflight_bytes
      → IsU32 r.snapshot_tx_inflight_bytes
      → r.context_consistent ≡ all_like (first e es) (e ∷ es)
      → Snapshot (e ∷ es) r

pub record Holds (from : ℕ) (es : List Loss) (r : LossRound) : Type 0 where
  pub running : r.active ≡ true
  pub start_eq : r.delivered_start ≡ from
  pub bytes_eq : r.newly_lost_bytes ≡ lost_bytes es
  pub count_eq : r.event_count ≡ length es
  pub counts : r.event_count ≤ 4294967295
  pub probes_eq : r.all_probe_samples ≡ all_probes es
  pub snapshot : Snapshot es r

start-Holds : (from : ℕ) (r : LossRound) → (start r from).1 ≡ true → Holds from [] (start r from).0
unfolding start lost_bytes all_probes
start-Holds from r ok = record {
  running = ground arith;
  start_eq = ground arith;
  bytes_eq = ground arith;
  count_eq = ground arith;
  counts = ground arith;
  probes_eq = ground arith;
  snapshot = no_loss _ (ground arith) (ground arith);
}

add_accepts :
    (r : LossRound) (e : Loss)
    → (add r e).1 ≡ true
    → (unacceptable r e ≡ false) × ((add r e).0 ≡ count_loss (compare_context r e) e)
unfolding add
add_accepts r e ok = ground arith

add_refuses : (r : LossRound) (e : Loss) → (add r e).1 ≡ false → (add r e).0 ≡ r
unfolding add
add_refuses r e refused = ground arith

compare_first :
    (r : LossRound) (e : Loss)
    → r.event_count ≡ 0
    → r.context_consistent ≡ true
    → unacceptable r e ≡ false
    → IsU32 e.tx_inflight_bytes
    → Snapshot (e ∷ []) (count_loss (compare_context r e) e)
unfolding compare_context count_loss unacceptable first all_like
compare_first r e none_yet ok fits small =
    of_first e [] _ (ground arith) (ground arith) (ground arith) (ground arith) (ground arith)
      (ground arith)

compare_later :
    (r : LossRound) (n e : Loss) (es : List Loss)
    → Snapshot (e ∷ es) r
    → unacceptable r n ≡ false
    → r.event_count ≤ 4294967295
    → Snapshot (n ∷ e ∷ es) (count_loss (compare_context r n) n)
unfolding compare_context count_loss unacceptable first all_like
compare_later r n e es (of_first _ _ _ some_loss de ie pos small ce) fits counts =
    of_first n (e ∷ es) _ (ground arith) (ground arith) (ground arith) (ground arith) (ground arith)
      (ground arith)

compare-Snapshot :
    (from : ℕ) (es : List Loss) (r : LossRound) (e : Loss)
    → Holds from es r
    → Snapshot es r
    → unacceptable r e ≡ false
    → IsU32 e.tx_inflight_bytes
    → Snapshot (e ∷ es) (count_loss (compare_context r e) e)
compare-Snapshot from [] r e h (no_loss _ none_yet ok) fits small =
    compare_first r e none_yet ok fits small
compare-Snapshot from (d ∷ ds) r e h s fits small = compare_later r e d ds s fits h.counts

count_loss-Holds :
    (from : ℕ) (es : List Loss) (r : LossRound) (e : Loss)
    → Holds from es r
    → unacceptable r e ≡ false
    → IsU32 e.tx_inflight_bytes
    → Holds from (e ∷ es) (count_loss (compare_context r e) e)
unfolding compare_context count_loss unacceptable lost_bytes all_probes
count_loss-Holds from es r e h fits small = record {
  running = ground arith;
  start_eq = ground arith;
  bytes_eq = ground arith;
  count_eq = ground arith;
  counts = ground arith;
  probes_eq = ground arith;
  snapshot = compare-Snapshot from es r e h h.snapshot fits small;
}

Collected-Holds :
    (from : ℕ) (es : List Loss) (r : LossRound) → Collected from es r → Holds from es r
Collected-Holds from _ _ (started r ok) = start-Holds from r ok
Collected-Holds from _ _ (took es r before e small ok) =
    let (fits, out) = add_accepts r e ok in
    rw out (count_loss-Holds from es r e (Collected-Holds from es r before) fits small)
Collected-Holds from _ _ (turned_away es r before e refused) =
    rw (add_refuses r e refused) (Collected-Holds from es r before)

excess_lem :
    (es : List Loss) (r : LossRound)
    → Snapshot es r
    → r.newly_lost_bytes ≡ lost_bytes es
    → r.all_probe_samples ≡ all_probes es
    → excess r ≡ is_excess es
unfolding excess ratio_valid is_excess
excess_lem [] r (no_loss _ none_yet ok) bytes probes = ground arith
excess_lem (e ∷ es) r (of_first _ _ _ some_loss de ie pos small ce) bytes probes = ground arith

finish_closes :
    (r : LossRound) (delivered_end : ℕ)
    → r.active ≡ true
    → r.delivered_start < delivered_end
    → finish r delivered_end 1 ≡ (record r { active = false }, some (report r delivered_end))
unfolding finish
finish_closes r delivered_end running later =
    let open_round : (not r.active || leb delivered_end r.delivered_start) ≡ false = ground arith in
    rw open_round refl

-- For a round that took any losses of 32-bit flights, in any order and with any losses turned away
-- between: closing it at a later delivery count gives a result that holds the exact sum of the
-- bytes and the exact number of the losses taken, without overflow, and reports an excess exactly
-- when the losses all share the send context of the first, are all probes, and lost together more
-- than 2 percent of the bytes then in flight; the round is inactive after it.
pub finish-totals :
    (from delivered_end : ℕ) (es : List Loss) (r : LossRound)
    → Collected from es r
    → from < delivered_end
    → ((finish r delivered_end 1).0.active ≡ false)
      × (result : RoundResult) × ((finish r delivered_end 1).1 ≡ some result)
      × (result.newly_lost_bytes ≡ lost_bytes es)
      × (result.events ≡ length es)
      × (result.qualified_probe_excess_loss ≡ is_excess es)
finish-totals from delivered_end es r c later =
    let h = Collected-Holds from es r c in
    let exact = excess_lem es r h.snapshot h.bytes_eq h.probes_eq in
    rw (finish_closes r delivered_end h.running (omega (arith, h.start_eq, later)))
      (refl, report r delivered_end, refl, h.bytes_eq, h.count_eq, exact)
