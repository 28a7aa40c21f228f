-- ===== src/Tests/Losses.antt =====
-- The loss evidence and the loss rounds on small inputs.
use tcp_shift.Prelude.{◌≡◌, refl, true, false, some, List, [], ◌∷◌, arith, length}
use tcp_shift.Rack
use tcp_shift.Evidence.{Tx, Loss, attempt_init, note_tx, qualify_loss, undo_spurious}
use tcp_shift.Evidence.Once.{
  tx, qualify, undo, reports, none_left, narrow_tx, narrow_qualify, narrow_undo, InOrder,
  reports-InOrder, Call,
}
use tcp_shift.Evidence.Round.{LossRound, RoundResult, start, add, unacceptable, finish}
use tcp_shift.Evidence.Round.Totals.{Collected, started, took, lost_bytes, is_excess, finish-totals}

abbrev first_tx : Tx
first_tx = record {
  generation = 1;
  tx_ns = 100;
  delivered_at_tx = 5000;
  seq_start = 1000;
  prior_inflight_bytes = 8000;
  payload_bytes = 1000;
  already_delivered_bytes = 0;
  retransmitted = false;
  app_limited = false;
  probe_sample = true;
}

-- Something sent later has been delivered.
abbrev overtaken : Rack.State
overtaken = record (Rack.init) {
  rack_xmit_ts_ns = 200;
  rack_rtt_ns = 1000;
  min_rtt_ns = 1000;
  rack_end_seq = 3000;
}

abbrev calls : List Call
calls = tx first_tx ∷ qualify overtaken 90000 1 ∷ qualify overtaken 90001 1 ∷ undo 1 ∷ undo 1 ∷ []

-- One loss and one undo are told, of two calls each.
calls_told : length (reports attempt_init calls) ≡ 2
calls_told =
    unfold reports attempt_init note_tx qualify_loss undo_spurious Rack.init Rack.loss_remaining
      Rack.unjudged Rack.sent_after Rack.reo_wnd Rack.add_sat Rack.mul_sat in
    refl

reports-InOrder_example : InOrder 0 0 (reports attempt_init calls)
reports-InOrder_example = reports-InOrder calls (
    narrow_tx first_tx _ (omega arith) (
      narrow_qualify overtaken 90000 1 _
        (narrow_qualify overtaken 90001 1 _ (narrow_undo 1 _ (narrow_undo 1 _ none_left)))))

abbrev idle_round : LossRound
idle_round = record {
  delivered_start = 0;
  newly_lost_bytes = 0;
  snapshot_delivered_at_tx = 0;
  last_generation = 0;
  last_seq_start = 0;
  snapshot_tx_inflight_bytes = 0;
  event_count = 0;
  active = false;
  context_consistent = false;
  all_probe_samples = false;
}

abbrev first_loss : Loss
first_loss = record {
  generation = 1;
  tx_ns = 100;
  delivered_at_tx = 5000;
  seq_start = 1000;
  tx_inflight_bytes = 8000;
  newly_lost_bytes = 1000;
  retransmitted = false;
  app_limited = false;
  probe_sample = true;
}

abbrev one_loss : LossRound
one_loss = (add (start idle_round 5000).0 first_loss).0

collected : Collected 5000 (first_loss ∷ []) one_loss
unfolding add start unacceptable
collected = took [] _ (started idle_round refl) first_loss (omega arith) refl

finish-totals_example :
    ((finish one_loss 9000 1).0.active ≡ false)
    × (result : RoundResult) × ((finish one_loss 9000 1).1 ≡ some result)
    × (result.newly_lost_bytes ≡ lost_bytes (first_loss ∷ []))
    × (result.events ≡ length (first_loss ∷ []))
    × (result.qualified_probe_excess_loss ≡ is_excess (first_loss ∷ []))
finish-totals_example = finish-totals 5000 9000 (first_loss ∷ []) one_loss collected (omega arith)
