-- ===== src/Cc/Cubic/Served.antt =====
-- A connection under CUBIC: initialised once and then told of any events in any order, on a clock that
-- does not go back.
use tcp_shift.Prelude.{◌≤◌, ◌≡◌, true, false, arith, if_elim, ◌-◌, ◌⊎◌, inl, inr, Bool-cases}
use tcp_shift.Cc.{Transport, InitialWindows, Policy, Outcome}
use tcp_shift.Cc.Hystart.{hystart_reset}
use tcp_shift.Cc.Reno.Trace.{Event, transport}
use tcp_shift.Cc.Cubic.{Cubic}
use tcp_shift.Cc.Cubic.Acks.{elapsed}
use tcp_shift.Cc.Cubic.Cuts.{initial, init, init_refused}
use tcp_shift.Cc.Cubic.Control.{and_then, controller_init}
use tcp_shift.Cc.Cubic.Published.{Published, handle, handle-Published}
use tcp_shift.Cc.Cubic.Clock.{InTime, elapsed_exact}
use tcp_shift.Cc.Cubic.Serves.{Proper, and_then-Serves, reset-mss, handle-Serves, publish-Serves}

-- What a connection can come to, from an initialisation that returns 0.
pub data Reached : Cubic → Policy → Type 0 where
  begun :
      (m : Cubic) (t : Transport) (w : InitialWindows) (policy : Policy)
      → (controller_init m t w policy).2 ≡ true
      → Reached (controller_init m t w policy).0 (controller_init m t w policy).1
  moved :
      (m : Cubic) (policy : Policy)
      → Reached m policy
      → (e : Event) → Proper m e
      → Reached (handle m e policy).0 (handle m e policy).1

initial-InTime :
    (t : Transport) (w : InitialWindows) → init_refused t w ≡ false → InTime (initial t w)
unfolding initial init_refused
initial-InTime t w ok = ground arith

controller_init-InTime :
    (m : Cubic) (t : Transport) (w : InitialWindows) (policy : Policy)
    → (controller_init m t w policy).2 ≡ true
    → InTime (controller_init m t w policy).0
unfolding controller_init init
controller_init-InTime m t w policy =
    if_elim
      (λ (o : Outcome Cubic).
        (and_then hystart_reset o).2 ≡ true → InTime (and_then hystart_reset o).0)
      (init_refused t w) (λ _ ok. ground arith)
      (λ good _.
        (and_then-Serves hystart_reset _ reset-mss
          (publish-Serves _ t (initial-InTime t w good))).1)

Reached-InTime : (m : Cubic) (policy : Policy) → Reached m policy → InTime m
Reached-InTime _ _ (begun m t w policy ok) = controller_init-InTime m t w policy ok
Reached-InTime _ _ (moved m policy before e q) =
    (handle-Serves m e policy (Reached-InTime m policy before) q).1

-- The epoch's time at the last ACK, as the code computes it, is the true one.
abbrev pub Exact : Cubic → Type 0
Exact m =
    (m.epoch_active ≡ false)
    ⊎ ((m.epoch_start_ns ≤ m.last_ack_time_ns)
        × (elapsed m.last_ack_time_ns m.epoch_start_ns ≡ m.last_ack_time_ns - m.epoch_start_ns))

InTime-Exact : (m : Cubic) → InTime m → Exact m
InTime-Exact m p = elim (Bool-cases m.epoch_active) [
  | inl active ↦ inr (
    p.started active,
    elapsed_exact m.last_ack_time_ns m.epoch_start_ns p.narrow (p.started active),
  )
  | inr idle ↦ inl idle
]

-- After a successful initialisation and any events in any order, each with some bytes, on a path with
-- segments, at a 64-bit time no earlier than the last ACK and with an RTT estimate: the next such
-- event is accepted too, publishes windows in bounds, and leaves an epoch, if one is active, whose
-- start is no later than the last ACK, so that its elapsed time does not wrap.
pub Reached-serves :
    (m : Cubic) (policy : Policy)
    → Reached m policy
    → (e : Event) → Proper m e
    → ((handle m e policy).2 ≡ true)
      × Published (transport e) (handle m e policy)
      × Exact (handle m e policy).0
Reached-serves m policy before e q =
    let (ok, p) = handle-Serves m e policy (Reached-InTime m policy before) q in
    (ok, handle-Published m e policy ok, InTime-Exact _ p)
