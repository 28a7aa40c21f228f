-- ===== src/Tests/Hystart.antt =====
-- HyStart++ on small inputs.
use tcp_shift.Prelude.{ℕ, ◌≡◌, refl, true, false, [], ◌∷◌, arith}
use tcp_shift.Cc.{Transport, Ack}
use tcp_shift.Cc.Hystart.{
  Model, delay_threshold, hystart_add_sat, hystart_reset, new_round, note_rtt, test_delay, sample,
  advance, hystart_on_ack, is_slow_start,
}
use tcp_shift.Cc.Hystart.Phases.{InPhase, kept, after_acks, after_acks-InPhase}
use tcp_shift.Cc.Hystart.Changes.{Change, hystart_on_ack-Change}

abbrev pub path : Transport
path = record {
  mss_bytes = 1000;
  inflight_bytes = 4000;
  send_window_bytes = 60000;
  cwnd_limit_bytes = 50000;
}

abbrev pub ack_of : ℕ → Ack
ack_of rtt = record {
  acked_bytes = 1000;
  ack_time_ns = 1;
  smoothed_rtt_ns = 40000000;
  rate = record {
    delivery_rate_bytes_per_sec = 0;
    interval_ns = 0;
    send_interval_ns = 0;
    ack_interval_ns = 0;
    rtt_ns = rtt;
    prior_delivered_bytes = 0;
    delivered_total_bytes = 1000;
    delivered_bytes = 1000;
    prior_inflight_bytes = 0;
    valid = true;
    app_limited = false;
    retransmitted = false;
    rtt_valid = true;
  };
}

-- Seven samples in, in a round after one of 40 milliseconds.
abbrev delayed : Model
delayed = record {
  cwnd_q16 = 10;
  ssthresh_q16 = 1000;
  last_round_min_rtt_ns = 40000000;
  current_round_min_rtt_ns = 50000000;
  css_baseline_min_rtt_ns = 18446744073709551615;
  next_round_delivered = 90000;
  mss_bytes = 1000;
  sample_count = 7;
  css_rounds = 0;
  exit_events = 0;
  css_enter_events = 0;
  css_revert_events = 0;
  enabled = true;
  css = false;
  ack_css = false;
  exit_pending = false;
  initial_complete = false;
}

-- The eighth sample enters CSS.
enters_css : (kept delayed (hystart_on_ack delayed path (ack_of 50000000) 1)).css ≡ true
enters_css =
    unfold hystart_on_ack advance new_round sample note_rtt test_delay delay_threshold
      hystart_add_sat is_slow_start in
    refl

hystart_on_ack-Change_example :
    Change delayed (kept delayed (hystart_on_ack delayed path (ack_of 50000000) 1))
hystart_on_ack-Change_example =
    hystart_on_ack-Change delayed path (ack_of 50000000) 1 refl (omega arith) (omega arith)

after_acks-InPhase_example :
    InPhase (after_acks (hystart_reset delayed) ((path, ack_of 40000000, 1) ∷ []))
after_acks-InPhase_example = after_acks-InPhase delayed ((path, ack_of 40000000, 1) ∷ [])
