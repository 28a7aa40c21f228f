-- ===== src/Tests/Recovery.antt =====
-- Fast recovery on small inputs: lwip/prr.c and lwip/rack_tlp.c.
use Prim.Native.Nat.{min}
use tcp_shift.Prelude.{
  ℕ, ◌+◌, ◌-◌, ◌*◌, ◌≤◌, ◌<◌, ◌≡◌, ◌⊎◌, ◌↔◌, refl, Bool, true, false, none, some, List, [], ◌∷◌,
  arith, u64_max,
}
use tcp_shift.Prr
use tcp_shift.Prr.Quotient.{IsCeil, div_round_up_product-IsCeil}
use tcp_shift.Prr.Credit.{IsShare, Rebuilt, on_ack_rebuild, on_ack_proportional}
use tcp_shift.Prr.Episode.{Step, acked, sent, run, step, delivered, transmitted, complete-run}
use tcp_shift.Rack
use tcp_shift.Rack.Order.{sent_after_asymm, Delivered, note_delivered_lem}
use tcp_shift.Rack.Window.{recovery_exits, note_dsack-recovery_exits}
use tcp_shift.Rack.Loss.{loss_remaining_exact, calc_pto_ns_bounds}
use tcp_shift.Rack.Probe.{
  rtt_sample, ack, handle, handle_all, samples, answers, note_probe_sent_alone,
  note_probe_sent_answered,
}

div_round_up_product-IsCeil_example :
    IsCeil (10 * 7) 3 (Prr.div_round_up_product 10 7 3)
    ⊎ ((Prr.div_round_up_product 10 7 3 ≡ u64_max) × (u64_max * 3 < 10 * 7))
div_round_up_product-IsCeil_example =
    div_round_up_product-IsCeil 10 7 3 (omega arith) (omega arith) (omega arith) (omega arith)
      (omega arith)

-- A recovery entered with 20,000 bytes in flight, for a window of 10,000.
abbrev entered : Prr.Prr
entered = record {
  prr_delivered = 0;
  prr_out = 0;
  recover_fs = 20000;
  ssthresh = 10000;
  active = true;
}

abbrev full_ack : Prr.Ack
full_ack = record { delivered_data = 1000; inflight = 19000; smss = 1000; safe_ack = true }

abbrev low_ack : Prr.Ack
low_ack = record { delivered_data = 1000; inflight = 4000; smss = 1000; safe_ack = true }

abbrev after_ack : Prr.Prr
after_ack = record entered { prr_delivered = 1000 }

abbrev rebuilt : Prr.Grant
rebuilt = record { sndcnt = 2000; cwnd = 6000 }

on_ack_rebuild_example :
    (after_ack ≡ record entered {
      prr_delivered = min (entered.prr_delivered + low_ack.delivered_data) u64_max;
    })
    × Rebuilt after_ack low_ack rebuilt
on_ack_rebuild_example =
    on_ack_rebuild entered low_ack {prr' = after_ack} {g = rebuilt}
      (unfold Prr.on_ack Prr.deliver Prr.credit Prr.rebuild Prr.add_sat_u64 Prr.add_sat_u32 in refl)
      (omega arith) (omega arith) (omega arith) (omega arith)

on_ack_proportional_example : IsShare (1000 * 10000) 20000 0 500
on_ack_proportional_example =
    on_ack_proportional entered full_ack {prr' = after_ack}
      {g = record { sndcnt = 500; cwnd = 19500 }}
      (unfold Prr.on_ack Prr.deliver Prr.credit Prr.proportional Prr.div_round_up_product
          Prr.add_sat_u64 Prr.add_sat_u32 in
        refl)
      (omega arith) (omega arith) (omega arith) (omega arith) (omega arith) (omega arith)
      (omega arith)

abbrev after_send : Prr.Prr
after_send = record after_ack { prr_out = 500 }

abbrev recovery_steps : List Step
recovery_steps = acked full_ack ∷ sent 500 ∷ []

complete-run_example :
    (1000 ≡ min (delivered recovery_steps) u64_max)
    × (500 ≡ min (transmitted recovery_steps) u64_max)
    × (Prr.complete after_send ≡ some (Prr.reset after_send, 10000))
    × (Prr.on_ack (Prr.reset after_send) full_ack ≡ none)
    × (Prr.on_send (Prr.reset after_send) 500 ≡ none)
    × (Prr.complete (Prr.reset after_send) ≡ none)
complete-run_example =
    complete-run 20000 10000 recovery_steps full_ack 500 {prr = entered} {p = after_send}
      (unfold Prr.init in refl)
      (unfold run step Prr.on_ack Prr.on_send Prr.deliver Prr.credit Prr.proportional
          Prr.div_round_up_product Prr.add_sat_u64 Prr.add_sat_u32 in
        refl)

-- A state with a round trip of 40 milliseconds, reordering seen, and a segment sent at 100.
abbrev measured : Rack.State
measured = record {
  rack_xmit_ts_ns = 200;
  rack_ack_ts_ns = 40000200;
  rack_rtt_ns = 40000000;
  min_rtt_ns = 40000000;
  srtt_ns = 50000000;
  reo_wnd_ns = 0;
  rack_end_seq = 3000;
  fack = 3000;
  dsack_round_end_seq = 0;
  tlp_start_seq = 0;
  tlp_end_seq = 0;
  segs_sacked = 1;
  reo_wnd_mult = 1;
  reo_wnd_persist = 0;
  reordering_seen = true;
  dsack_round_active = false;
  tlp_is_retrans = false;
  rtt_sample_since_probe = true;
}

abbrev early_segment : Rack.Segment
early_segment = record {
  xmit_ts_ns = 100;
  seq_start = 1000;
  end_seq = 2000;
  retransmitted = false;
  lost = false;
}

abbrev low : ℕ
low = 5

abbrev high : ℕ
high = 4294967290

sent_after_asymm_example : Rack.sent_after 100 2000 200 3000 ≡ false
sent_after_asymm_example =
    sent_after_asymm 200 3000 100 2000 (omega arith) (omega arith) (unfold Rack.sent_after in refl)

note_delivered_lem_example :
    Delivered measured early_segment 60000000
      (Rack.note_delivered measured early_segment 60000000).0
      (Rack.note_delivered measured early_segment 60000000).1
note_delivered_lem_example =
    note_delivered_lem measured early_segment 60000000 (omega arith) (omega arith)

note_dsack-recovery_exits_example :
    (recovery_exits (Rack.note_dsack measured 5000) (4000 ∷ [])).reo_wnd_mult ≡ 2
note_dsack-recovery_exits_example =
    note_dsack-recovery_exits measured 5000 (4000 ∷ []) refl (omega arith)

abbrev judged : Rack.State × Bool × ℕ
judged = Rack.loss_remaining measured early_segment 1000 true

loss_remaining_exact_example :
    ((Rack.loss_remaining judged.0 early_segment 50000100 true).1 ≡ true)
    ↔ ((0 < judged.2) × (1000 + judged.2 ≤ 50000100))
loss_remaining_exact_example = loss_remaining_exact measured early_segment 1000 50000100 true (
    unfold Rack.loss_remaining Rack.unjudged Rack.sent_after Rack.reo_wnd Rack.add_sat
      Rack.mul_sat in
    refl)

calc_pto_ns_bounds_example :
    (1000 + Rack.calc_pto_ns (some measured) 1000 90000000 1 0 ≤ 90000000)
    × (Rack.calc_pto_ns (some measured) 1000 90000000 1 0
        ≡ min (Rack.pto_base (some measured) 1 0) (90000000 - 1000))
calc_pto_ns_bounds_example =
    calc_pto_ns_bounds (some measured) 1000 90000000 1 0 (omega arith) (omega arith)

note_probe_sent_alone_example :
    (samples (rtt_sample ∷ ack 3000 false false ∷ []) ≡ true)
    × (answers 3000 (rtt_sample ∷ ack 3000 false false ∷ []) ≡ true)
note_probe_sent_alone_example =
    note_probe_sent_alone measured 2000 3000 false (rtt_sample ∷ ack 3000 false false ∷ [])
      (λ e. absurd (omega arith))
      (unfold handle_all handle Rack.probe_allowed Rack.note_probe_sent Rack.note_rtt_sample
          Rack.process_ack Rack.seq_after_eq Rack.tlp_reset in
        refl)

abbrev probed : Rack.State
probed = record measured { tlp_start_seq = 2000; tlp_end_seq = 3000 }

-- An ACK up to a retransmitted probe does not end it, and one past it does.
note_probe_sent_answered_example :
    Rack.probe_allowed
      (Rack.process_ack
        (handle_all
          (Rack.note_probe_sent measured 2000 3000 true)
          (ack 3000 false false ∷ rtt_sample ∷ []))
        3500
        false
        false).0
    ≡ true
note_probe_sent_answered_example =
    note_probe_sent_answered measured 2000 3000 true (ack 3000 false false ∷ rtt_sample ∷ []) 3500
      false false refl (unfold Rack.seq_after in refl)
