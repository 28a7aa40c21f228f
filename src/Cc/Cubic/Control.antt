-- ===== src/Cc/Cubic/Control.antt =====
-- The controller over CUBIC and HyStart++, cc/cubic_controller.c: the callbacks that the
-- congestion-control boundary calls.
use Prim.Native.Nat.{min}
use tcp_shift.Prelude.{
  ℕ, ◌*◌, ◌/◌, Bool, true, false, ◌||◌, Option, none, some, ltb, ◌==◌, if◌then◌else◌, u32_max,
  codes,
}
use tcp_shift.Cc.{Transport, InitialWindows, Ack, Policy, Outcome, Ops}
use tcp_shift.Cc.Hystart.{Model, hystart_reset, hystart_disable, hystart_on_ack}
use tcp_shift.Cc.Cubic.{Cubic}
use tcp_shift.Cc.Cubic.Acks.{on_ack}
use tcp_shift.Cc.Cubic.Cuts.{init, on_loss, on_ecn, on_timeout}

unfoldable pub slow_start_credit : ℕ → ℕ → Bool → ℕ
slow_start_credit acked_bytes mss_bytes pacing_active =
    let limit = if ltb (u32_max / 8) mss_bytes then u32_max else mss_bytes * 8 in
    if acked_bytes == 0 || mss_bytes == 0
    then 0
    else if pacing_active
    then acked_bytes
    else min acked_bytes limit

unfoldable pub set_hystart_pacing : Cubic → Bool → Cubic
set_hystart_pacing m active = record m { pacing_active = active }

-- A change of HyStart++ over an outcome of 0, and none over another.
abbrev pub and_then : (Model → Model) → Outcome Cubic → Outcome Cubic
and_then f (m, policy, true) = (record m { shared = f m.shared }, policy, true)
and_then f (m, policy, false) = (m, policy, false)

unfoldable pub controller_init : Cubic → Transport → InitialWindows → Policy → Outcome Cubic
controller_init m t w policy = and_then hystart_reset (init m t w policy)

-- The ACK that the model sees: in slow start, with the bytes that may grow the window.
unfoldable pub growth_ack : Cubic → Transport → Ack → Ack
growth_ack m t ack =
    if ltb m.shared.cwnd_q16 m.shared.ssthresh_q16
    then record ack { acked_bytes = slow_start_credit ack.acked_bytes t.mss_bytes m.pacing_active }
    else ack

abbrev pub after_hystart : Option (Model × Bool) → Cubic → Transport → Ack → Policy → Outcome Cubic
after_hystart none m t ack policy = (m, policy, false)
after_hystart (some (h, _)) m t ack policy =
    let n = record m { shared = h } in
    on_ack n t (growth_ack n t ack) ack.ack_time_ns ack.smoothed_rtt_ns policy

unfoldable pub controller_on_ack : Cubic → Transport → Ack → Policy → Outcome Cubic
controller_on_ack m t ack policy =
    if ack.ack_time_ns == 0
    then (m, policy, false)
    else after_hystart (hystart_on_ack m.shared t ack ack.ack_time_ns) m t ack policy

unfoldable pub controller_on_loss : Cubic → Transport → ℕ → Policy → Outcome Cubic
controller_on_loss m t lost_bytes policy = and_then hystart_disable (on_loss m t lost_bytes policy)

unfoldable pub controller_on_ecn : Cubic → Transport → Policy → Outcome Cubic
controller_on_ecn m t policy = and_then hystart_disable (on_ecn m t policy)

unfoldable pub controller_on_timeout : Cubic → Transport → Policy → Outcome Cubic
controller_on_timeout m t policy = and_then hystart_disable (on_timeout m t policy)

-- The name is the text "cubic"; `size` is `sizeof(struct tcp_shift_cubic_model)`.
unfoldable pub cubic_ops : ℕ → Ops Cubic
cubic_ops size = record {
  name = some (codes "cubic");
  state_size = size;
  init = some controller_init;
  on_ack = some controller_on_ack;
  on_loss = some controller_on_loss;
  on_ecn = some controller_on_ecn;
  on_timeout = some controller_on_timeout;
}
