-- ===== src/Cc/Cubic/Serves.antt =====
-- That the CUBIC controller, cc/cubic_controller.c over cc/cubic.c, accepts what the transport properly
-- reports, and keeps its epoch's clock in order.
use mathlib.Core.Path.{subst}
use tcp_shift.Prelude.{
  ℕ, ◌≤◌, ◌<◌, ◌≡◌, refl, sym, ◌∙◌, Bool, true, false, not, ◌&&◌, ◌||◌, Option, some, ltb, ◌==◌,
  ◌/=◌, arith, if_elim, IsU64,
}
use tcp_shift.Cc.{Transport, Ack, Policy, Outcome}
use tcp_shift.Cc.Hystart.{
  Model, hystart_reset, hystart_disable, hystart_on_ack, advance, sample, test_css, test_delay,
  note_rtt, start_round, count_round, is_slow_start,
}
use tcp_shift.Cc.Reno.Trace.{Event, acked, lost, marked, expired}
use tcp_shift.Cc.Cubic.{Cubic, sync_mss, normalize, publish, refused}
use tcp_shift.Cc.Cubic.Acks.{on_ack, avoiding}
use tcp_shift.Cc.Cubic.Cuts.{on_loss, on_ecn, on_timeout}
use tcp_shift.Cc.Cubic.Control.{
  slow_start_credit, growth_ack, and_then, after_hystart, controller_on_ack, controller_on_loss,
  controller_on_ecn, controller_on_timeout,
}
use tcp_shift.Cc.Cubic.Published.{handle}
use tcp_shift.Cc.Cubic.Clock.{
  InTime, sync-InTime, normalize-InTime, cut-InTime, collapse-InTime, acknowledge-InTime,
  publish-InTime,
}

-- An event as the transport reports it to a connection in the state `m`: some bytes on a path with
-- segments, at a time of 64 bits that is not before the last ACK, with an RTT estimate.
pub data Proper (m : Cubic) : Event → Type 0 where
  ack_of :
      (t : Transport) (ack : Ack)
      → 0 < t.mss_bytes
      → t.mss_bytes ≤ t.cwnd_limit_bytes
      → 0 < ack.acked_bytes
      → 0 < ack.ack_time_ns
      → IsU64 ack.ack_time_ns
      → m.last_ack_time_ns ≤ ack.ack_time_ns
      → 0 < ack.smoothed_rtt_ns
      → Proper m (acked t ack)
  loss_of :
      (t : Transport) (bytes : ℕ)
      → 0 < t.mss_bytes
      → t.mss_bytes ≤ t.cwnd_limit_bytes
      → 0 < bytes
      → Proper m (lost t bytes)
  mark_of :
      (t : Transport) → 0 < t.mss_bytes → t.mss_bytes ≤ t.cwnd_limit_bytes → Proper m (marked t)
  timeout_of :
      (t : Transport) → 0 < t.mss_bytes → t.mss_bytes ≤ t.cwnd_limit_bytes → Proper m (expired t)

test_css-mss : (h : Model) → (test_css h).0.mss_bytes ≡ h.mss_bytes
unfolding test_css
test_css-mss h = ground arith

test_delay-mss : (h : Model) → (test_delay h).0.mss_bytes ≡ h.mss_bytes
unfolding test_delay
test_delay-mss h = ground arith

sample-mss : (h : Model) (ack : Ack) → (sample h ack).0.mss_bytes ≡ h.mss_bytes
unfolding sample note_rtt
sample-mss h ack = ground (arith, test_css-mss (note_rtt h ack), test_delay-mss (note_rtt h ack))

advance-mss : (h : Model) (t : Transport) (ack : Ack) → (advance h t ack).0.mss_bytes ≡ h.mss_bytes
unfolding advance start_round count_round
advance-mss h t ack =
    ground (arith, sample-mss h ack, sample-mss (start_round (count_round h) t ack) ack)

-- HyStart++ answers an ACK of any time but 0, and leaves the segment size.
abbrev Answers : Model → Option (Model × Bool) → Type 0
Answers h o = (r : Model × Bool) × (o ≡ some r) × (r.0.mss_bytes ≡ h.mss_bytes)

hystart_on_ack-Answers :
    (h : Model) (t : Transport) (ack : Ack) (now : ℕ)
    → 0 < now
    → 0 < t.mss_bytes
    → Answers h (hystart_on_ack h t ack now)
unfolding hystart_on_ack
hystart_on_ack-Answers h t ack now some_time some_mss =
    let noted : Model = record h { ack_css = h.css } in
    if_elim (Answers h) (now == 0 || t.mss_bytes == 0) (λ bad. ground arith)
      (λ _.
        if_elim (Answers h) (not h.enabled || (h.initial_complete || not (is_slow_start h)))
          (λ _. ((noted, false), refl, refl))
          (λ _.
            if_elim (Answers h) (h.mss_bytes /= t.mss_bytes) (λ _. ((noted, false), refl, refl))
              (λ _. (advance noted t ack, refl, advance-mss noted t ack))))

-- An outcome of 0 with the epoch's clock in order.
abbrev pub Serves : Outcome Cubic → Type 0
Serves o = (o.2 ≡ true) × InTime o.0

pub publish-Serves : (m : Cubic) (t : Transport) → InTime m → Serves (publish m t)
publish-Serves m t p = (unfold publish in refl, publish-InTime m p t)

sync-last : (m : Cubic) (mss : ℕ) → (sync_mss m mss).last_ack_time_ns ≡ m.last_ack_time_ns
unfolding sync_mss
sync-last m mss = ground arith

normalize-last : (m : Cubic) (t : Transport) → (normalize m t).last_ack_time_ns ≡ m.last_ack_time_ns
unfolding normalize
normalize-last m t = refl

module _ (m : Cubic) (p : InTime m) where
  count_loss-InTime : (n : ℕ) → InTime (record m { loss_events = n })
  count_loss-InTime n = ground arith

  count_ecn-InTime : (n : ℕ) → InTime (record m { ecn_events = n })
  count_ecn-InTime n = ground arith

  -- HyStart++ in its place.
  shared-InTime : (h : Model) → h.mss_bytes ≡ m.shared.mss_bytes → InTime (record m { shared = h })
  shared-InTime h e = ground arith

module _ (m : Cubic) (t : Transport) (p : InTime m) (pos : 0 < t.mss_bytes)
    (le : t.mss_bytes ≤ t.cwnd_limit_bytes) where
  not_refused : refused m t ≡ false
  unfolding refused
  not_refused = let some_mss = p.some_mss in ground arith

  ready : InTime (normalize (sync_mss m t.mss_bytes) t)
  ready = normalize-InTime _ (sync-InTime m p t.mss_bytes pos) t

  on_ack-Serves :
      (ack : Ack) (now srtt : ℕ) (policy : Policy)
      → 0 < ack.acked_bytes
      → m.last_ack_time_ns ≤ now
      → IsU64 now
      → 0 < srtt
      → Serves (on_ack m t ack now srtt policy)
  unfolding on_ack
  on_ack-Serves ack now srtt policy some_bytes order narrow some_rtt =
      let synced = sync_mss m t.mss_bytes in
      let n = normalize synced t in
      let good = not_refused in
      let last = sync-last m t.mss_bytes in
      let same : n.last_ack_time_ns ≡ m.last_ack_time_ns = normalize-last synced t ∙ last in
      if_elim Serves (ack.acked_bytes == 0 || refused m t) (λ bad. ground arith)
        (λ _.
          if_elim Serves (synced.ack_events /= 0 && ltb now synced.last_ack_time_ns)
            (λ bad. ground arith)
            (λ _.
              if_elim Serves (not ack.rate.app_limited && (avoiding n && srtt == 0))
                (λ bad. ground arith)
                (λ _. publish-Serves _ t (
                  acknowledge-InTime n ready t ack now srtt (subst (λ x. x ≤ now) (sym same) order)
                    narrow))))

  on_loss-Serves : (bytes : ℕ) (policy : Policy) → 0 < bytes → Serves (on_loss m t bytes policy)
  unfolding on_loss
  on_loss-Serves bytes policy some_bytes =
      let good = not_refused in
      let c = cut-InTime _ ready t 2 in
      if_elim Serves (bytes == 0 || refused m t) (λ bad. ground arith)
        (λ _. publish-Serves _ t (count_loss-InTime _ c _))

  on_ecn-Serves : (policy : Policy) → Serves (on_ecn m t policy)
  unfolding on_ecn
  on_ecn-Serves policy =
      let good = not_refused in
      let c = cut-InTime _ ready t 1 in
      if_elim Serves (refused m t) (λ bad. ground arith)
        (λ _. publish-Serves _ t (count_ecn-InTime _ c _))

  on_timeout-Serves : (policy : Policy) → Serves (on_timeout m t policy)
  unfolding on_timeout
  on_timeout-Serves policy =
      let good = not_refused in
      if_elim Serves (refused m t) (λ bad. ground arith)
        (λ _. publish-Serves _ t (collapse-InTime _ ready t))

-- HyStart++ over an outcome of 0.
pub and_then-Serves :
    (f : Model → Model) (o : Outcome Cubic)
    → ((h : Model) → (f h).mss_bytes ≡ h.mss_bytes)
    → Serves o
    → Serves (and_then f o)
and_then-Serves f (m, policy, true) same (e, p) =
    (refl, shared-InTime m p (f m.shared) (same m.shared))
and_then-Serves f (m, policy, false) same (e, p) = ground arith

disable-mss : (h : Model) → (hystart_disable h).mss_bytes ≡ h.mss_bytes
unfolding hystart_disable
disable-mss h = refl

pub reset-mss : (h : Model) → (hystart_reset h).mss_bytes ≡ h.mss_bytes
unfolding hystart_reset
reset-mss h = refl

growth_ack-bytes :
    (m : Cubic) (t : Transport) (ack : Ack)
    → 0 < t.mss_bytes
    → 0 < ack.acked_bytes
    → 0 < (growth_ack m t ack).acked_bytes
unfolding growth_ack slow_start_credit
growth_ack-bytes m t ack pos some_bytes = ground arith

controller_on_ack-Serves :
    (m : Cubic) (t : Transport) (ack : Ack) (policy : Policy)
    → InTime m
    → Proper m (acked t ack)
    → Serves (controller_on_ack m t ack policy)
unfolding controller_on_ack
controller_on_ack-Serves m t ack policy p (ack_of _ _ pos le bytes some_time narrow order rtt) =
    let (r, e, mss) = hystart_on_ack-Answers m.shared t ack ack.ack_time_ns some_time pos in
    let n : Cubic = record m { shared = r.0 } in
    let served : Serves (after_hystart (some r) m t ack policy) =
      on_ack-Serves n t (shared-InTime m p r.0 mss) pos le (growth_ack n t ack) ack.ack_time_ns
        ack.smoothed_rtt_ns policy (growth_ack-bytes n t ack pos bytes) order narrow rtt in
    if_elim Serves (ack.ack_time_ns == 0) (λ bad. ground arith)
      (λ _. subst (λ o. Serves (after_hystart o m t ack policy)) (sym e) served)

pub handle-Serves :
    (m : Cubic) (e : Event) (policy : Policy) → InTime m → Proper m e → Serves (handle m e policy)
unfolding handle controller_on_loss controller_on_ecn controller_on_timeout
handle-Serves m (acked t ack) policy p q = controller_on_ack-Serves m t ack policy p q
handle-Serves m (lost t bytes) policy p (loss_of _ _ pos le some_bytes) =
    and_then-Serves hystart_disable _ disable-mss
      (on_loss-Serves m t p pos le bytes policy some_bytes)
handle-Serves m (marked t) policy p (mark_of _ pos le) =
    and_then-Serves hystart_disable _ disable-mss (on_ecn-Serves m t p pos le policy)
handle-Serves m (expired t) policy p (timeout_of _ pos le) =
    and_then-Serves hystart_disable _ disable-mss (on_timeout-Serves m t p pos le policy)
