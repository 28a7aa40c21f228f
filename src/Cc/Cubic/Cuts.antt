-- ===== src/Cc/Cubic/Cuts.antt =====
-- How CUBIC begins, and what it does on a loss, an ECN mark and a timeout, cc/cubic.c.
use Prim.Native.Nat.{min, max}
use tcp_shift.Prelude.{
  ℕ, ◌+◌, ◌*◌, ◌/◌, Bool, true, false, ◌&&◌, ◌||◌, ltb, ◌==◌, if◌then◌else◌, u32, u64, u32_max,
}
use tcp_shift.Cc.{Transport, InitialWindows, Policy, Outcome}
use tcp_shift.Cc.Cubic.{
  Cubic, mul2_cap, q16_from_bytes, sync_mss, effective_min, normalize, publish, refused,
}

unfoldable pub beta_flight_bytes : Transport → ℕ → ℕ
beta_flight_bytes t floor_segments =
    let reduced = t.inflight_bytes * 7 / 10 in
    let floor = min (t.mss_bytes * floor_segments) t.cwnd_limit_bytes in
    min (max (min reduced u32_max) floor) t.cwnd_limit_bytes

-- The window to return to: that before the event, or less of it where it had not been reached again.
unfoldable pub new_w_max : Cubic → ℕ
new_w_max m =
    if m.fast_convergence && (m.has_w_max && ltb m.shared.cwnd_q16 m.w_max_q16)
    then u64 (m.shared.cwnd_q16 * 17) / 20
    else m.shared.cwnd_q16

-- The model after a loss or a mark, but for the count of events; the least window is in segments.
unfoldable pub cut : Cubic → Transport → ℕ → Cubic
cut m t floor_segments =
    let reduced = max (beta_flight_bytes t floor_segments) (effective_min m t) in
    record m {
      shared = record m.shared {
        ssthresh_q16 = q16_from_bytes reduced t.mss_bytes;
        cwnd_q16 = q16_from_bytes reduced t.mss_bytes;
      };
      w_max_q16 = new_w_max m;
      has_w_max = true;
      cwnd_prior_q16 = m.shared.cwnd_q16;
      epoch_active = false;
      app_limited_paused = false;
      app_limited_since_ns = 0;
      after_timeout = false;
      k_q10 = 0;
    }

unfoldable pub on_loss : Cubic → Transport → ℕ → Policy → Outcome Cubic
on_loss m t lost_bytes policy =
    if lost_bytes == 0 || refused m t
    then (m, policy, false)
    else let n = normalize (sync_mss m t.mss_bytes) t in
      publish (record (cut n t 2) { loss_events = u32 (n.loss_events + 1) }) t

unfoldable pub on_ecn : Cubic → Transport → Policy → Outcome Cubic
on_ecn m t policy =
    if refused m t
    then (m, policy, false)
    else let n = normalize (sync_mss m t.mss_bytes) t in
      publish (record (cut n t 1) { ecn_events = u32 (n.ecn_events + 1) }) t

-- The model after a timeout.
unfoldable pub collapse : Cubic → Transport → Cubic
collapse m t = record m {
  shared = record m.shared {
    ssthresh_q16 = q16_from_bytes (beta_flight_bytes t 2) t.mss_bytes;
    cwnd_q16 = q16_from_bytes (effective_min m t) t.mss_bytes;
  };
  cwnd_prior_q16 = m.shared.cwnd_q16;
  epoch_active = false;
  app_limited_paused = false;
  app_limited_since_ns = 0;
  after_timeout = true;
  k_q10 = 0;
  timeout_events = u32 (m.timeout_events + 1);
}

unfoldable pub on_timeout : Cubic → Transport → Policy → Outcome Cubic
on_timeout m t policy =
    if refused m t
    then (m, policy, false)
    else publish (collapse (normalize (sync_mss m t.mss_bytes) t) t) t

-- The model that `init` starts from.
unfoldable pub initial : Transport → InitialWindows → Cubic
initial t w = record {
  shared = record {
    cwnd_q16 = q16_from_bytes w.initial_cwnd_bytes t.mss_bytes;
    ssthresh_q16 = q16_from_bytes w.initial_ssthresh_bytes t.mss_bytes;
    last_round_min_rtt_ns = 0;
    current_round_min_rtt_ns = 0;
    css_baseline_min_rtt_ns = 0;
    next_round_delivered = 0;
    mss_bytes = t.mss_bytes;
    sample_count = 0;
    css_rounds = 0;
    exit_events = 0;
    css_enter_events = 0;
    css_revert_events = 0;
    enabled = false;
    css = false;
    ack_css = false;
    exit_pending = false;
    initial_complete = false;
  };
  w_max_q16 = 0;
  w_est_q16 = 0;
  cwnd_prior_q16 = 0;
  cwnd_epoch_q16 = 0;
  k_q10 = 0;
  epoch_start_ns = 0;
  last_ack_time_ns = 0;
  app_limited_since_ns = 0;
  last_target_q16 = 0;
  min_cwnd_bytes = w.min_cwnd_bytes;
  ack_events = 0;
  loss_events = 0;
  ecn_events = 0;
  timeout_events = 0;
  app_limited_acks = 0;
  has_w_max = false;
  epoch_active = false;
  app_limited_paused = false;
  after_timeout = false;
  fast_convergence = true;
  pacing_active = false;
}

unfoldable pub init_refused : Transport → InitialWindows → Bool
init_refused t w =
    t.mss_bytes == 0
    || (ltb t.cwnd_limit_bytes t.mss_bytes
        || (ltb w.initial_cwnd_bytes t.mss_bytes
            || (ltb w.min_cwnd_bytes t.mss_bytes
                || (ltb w.initial_cwnd_bytes w.min_cwnd_bytes
                    || (ltb w.initial_ssthresh_bytes (mul2_cap t.mss_bytes t.cwnd_limit_bytes)
                        || (ltb t.cwnd_limit_bytes w.initial_cwnd_bytes
                            || (ltb t.cwnd_limit_bytes w.initial_ssthresh_bytes
                                || ltb t.cwnd_limit_bytes w.min_cwnd_bytes)))))))

unfoldable pub init : Cubic → Transport → InitialWindows → Policy → Outcome Cubic
init m t w policy = if init_refused t w then (m, policy, false) else publish (initial t w) t
