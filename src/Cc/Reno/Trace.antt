-- ===== src/Cc/Reno/Trace.antt =====
-- A connection under Reno: its controller initialised once and then called for any events, in any
-- order, with any amounts.
use tcp_shift.Prelude.{ℕ, ◌≡◌, refl, true, arith}
use tcp_shift.Cc.{Transport, InitialWindows, Ack, Policy, Outcome}
use tcp_shift.Cc.Reno.{Reno, init, on_ack, on_loss, on_ecn, on_timeout, publish}
use tcp_shift.Cc.Reno.Bounds.{
  IsPath, InBounds, init-InBounds, grow-InBounds, shrink-InBounds, collapse-InBounds,
}

pub data Event : Type 0 where
  acked : Transport → Ack → Event
  lost : Transport → ℕ → Event
  marked : Transport → Event
  expired : Transport → Event

abbrev pub transport : Event → Transport
transport (acked t _) = t
transport (lost t _) = t
transport (marked t) = t
transport (expired t) = t

unfoldable pub handle : Reno → Event → Policy → Outcome Reno
handle s (acked t ack) policy = on_ack s t ack policy
handle s (lost t bytes) policy = on_loss s t bytes policy
handle s (marked t) policy = on_ecn s t policy
handle s (expired t) policy = on_timeout s t policy

-- What a connection with a segment size, a limit and initial windows can come to.
pub data Reached (mss limit : ℕ) (w : InitialWindows) : Reno → Policy → Type 0 where
  begun :
      (s : Reno) (t : Transport) (policy : Policy)
      → IsPath mss limit t
      → (init s t w policy).2 ≡ true
      → Reached mss limit w (init s t w policy).0 (init s t w policy).1
  moved :
      (s : Reno) (policy : Policy)
      → Reached mss limit w s policy
      → (e : Event) → IsPath mss limit (transport e)
      → Reached mss limit w (handle s e policy).0 (handle s e policy).1

-- The policy tells the windows of the state, and no rate.
pub record Publishes (s : Reno) (policy : Policy) : Type 0 where
  pub cwnd_eq : policy.cwnd_bytes ≡ s.cwnd_bytes
  pub ssthresh_eq : policy.ssthresh_bytes ≡ s.ssthresh_bytes
  pub rate_eq : policy.pacing_rate_bytes_per_sec ≡ 0

publish_lem : (s : Reno) (policy : Policy) → Publishes s (publish s policy)
unfolding publish
publish_lem s policy = record { cwnd_eq = refl; ssthresh_eq = refl; rate_eq = refl }

init-Publishes :
    (s : Reno) (t : Transport) (w : InitialWindows) (policy : Policy)
    → (init s t w policy).2 ≡ true
    → Publishes (init s t w policy).0 (init s t w policy).1
unfolding init
init-Publishes s t w policy ok = ground arith

handle-Publishes :
    (s : Reno) (e : Event) (policy : Policy) → Publishes (handle s e policy).0 (handle s e policy).1
unfolding handle on_ack on_loss on_ecn on_timeout
handle-Publishes s (acked t ack) policy = publish_lem _ policy
handle-Publishes s (lost t bytes) policy = publish_lem _ policy
handle-Publishes s (marked t) policy = publish_lem _ policy
handle-Publishes s (expired t) policy = publish_lem _ policy

handle-InBounds :
    (mss limit m : ℕ) (s : Reno) (e : Event) (policy : Policy)
    → IsPath mss limit (transport e)
    → InBounds mss limit m s
    → InBounds mss limit m (handle s e policy).0
unfolding handle on_ack on_loss on_ecn on_timeout
handle-InBounds mss limit m s (acked t ack) policy p b =
    grow-InBounds mss limit m s t p b ack.acked_bytes
handle-InBounds mss limit m s (lost t bytes) policy p b = shrink-InBounds mss limit m s t p b
handle-InBounds mss limit m s (marked t) policy p b = shrink-InBounds mss limit m s t p b
handle-InBounds mss limit m s (expired t) policy p b = collapse-InBounds mss limit m s t p b

-- Whatever ACKs, losses, ECN marks and timeouts a connection reports after a successful init, in
-- any order, on one segment size and one limit: its window stays at least a segment, at least the
-- configured minimum and within the limit, `ssthresh` stays at least two segments (or the limit,
-- if that is less) and within the limit, and the policy tells exactly those windows and no rate.
pub Reached-InBounds :
    (mss limit : ℕ) (w : InitialWindows) (s : Reno) (policy : Policy)
    → Reached mss limit w s policy
    → InBounds mss limit w.min_cwnd_bytes s × Publishes s policy
Reached-InBounds mss limit w _ _ (begun s t policy path ok) =
    (init-InBounds mss limit s t w policy path ok, init-Publishes s t w policy ok)
Reached-InBounds mss limit w _ _ (moved s policy before e path) = (
  handle-InBounds mss limit w.min_cwnd_bytes s e policy path
      (Reached-InBounds mss limit w s policy before).0,
  handle-Publishes s e policy,
)
