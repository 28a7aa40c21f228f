-- ===== src/Cc/Cubic/Published.antt =====
-- What CUBIC publishes, on every event that it accepts: the windows of cc/cubic.c held in bounds.
use native.Mathlib.Nat.{le-div_iff_mul-le, div-mul-le_self}
use mathlib.Core.Path.{subst}
use tcp_shift.Prelude.{
  ℕ, sym, ◌*◌, ◌/◌, ◌≤◌, ◌<◌, ◌≡◌, refl, Bool, true, false, not, ◌&&◌, ◌||◌, Option, none, some,
  ltb, ◌==◌, ◌/=◌, arith, if_elim, Bool-cases, inl, inr,
}
use tcp_shift.Cc.{Transport, InitialWindows, Ack, Policy, Outcome}
use tcp_shift.Cc.Hystart.{Model, hystart_reset, hystart_disable}
use tcp_shift.Cc.Reno.Trace.{Event, acked, lost, marked, expired, transport}
use tcp_shift.Cc.Cubic.{
  Cubic, q16_from_bytes, bytes_from_q16, effective_min, limit_q16, normalize, cwnd_of, ssthresh_of,
  raise_cwnd, raise_ssthresh, publish, refused, sync_mss,
}
use tcp_shift.Cc.Cubic.Acks.{on_ack, avoiding, acknowledge}
use tcp_shift.Cc.Cubic.Cuts.{init, initial, init_refused, on_loss, on_ecn, on_timeout}
use tcp_shift.Cc.Cubic.Control.{
  and_then, after_hystart, controller_init, controller_on_ack, controller_on_loss,
  controller_on_ecn, controller_on_timeout,
}

-- The windows of an outcome: in bytes at least a segment and the effective minimum and within the
-- limit, the threshold positive and within the limit, no rate, and the state's windows within the limit.
pub record Published (t : Transport) (o : Outcome Cubic) : Type 0 where
  pub cwnd_ge : effective_min o.0 t ≤ o.1.cwnd_bytes
  pub cwnd_ge_mss : t.mss_bytes ≤ o.1.cwnd_bytes
  pub cwnd_le : o.1.cwnd_bytes ≤ t.cwnd_limit_bytes
  pub ssthresh_pos : 0 < o.1.ssthresh_bytes
  pub ssthresh_le : o.1.ssthresh_bytes ≤ t.cwnd_limit_bytes
  pub rate_eq : o.1.pacing_rate_bytes_per_sec ≡ 0
  pub state_cwnd_le : o.0.shared.cwnd_q16 ≤ limit_q16 t
  pub state_ssthresh_le : o.0.shared.ssthresh_q16 ≤ limit_q16 t

div-monotone : (a b k : ℕ) → 0 < k → a ≤ b → a / k ≤ b / k
div-monotone a b k pos le =
    let down = div-mul-le_self a k in (le-div_iff_mul-le pos).1 (omega (arith, down))

q16-monotone : (a b mss : ℕ) → a ≤ b → q16_from_bytes a mss ≤ q16_from_bytes b mss
unfolding q16_from_bytes
q16-monotone a b mss le = elim (Bool-cases (mss == 0)) [
  | inl none_left ↦ rw (none_left) (omega arith)
  | inr some_left ↦
      rw (some_left) (div-monotone (a * 65536) (b * 65536) mss (ground arith) (omega arith))
]

bytes-le : (q mss limit : ℕ) → bytes_from_q16 q mss limit ≤ limit
unfolding bytes_from_q16
bytes-le q mss limit = ground arith

minimum-le : (m : Cubic) (t : Transport) → effective_min m t ≤ t.cwnd_limit_bytes
unfolding effective_min
minimum-le m t = ground arith

minimum-ge :
    (m : Cubic) (t : Transport) → t.mss_bytes ≤ t.cwnd_limit_bytes → t.mss_bytes ≤ effective_min m t
unfolding effective_min
minimum-ge m t le = ground arith

-- A state in the windows' limit, with a given minimum.
abbrev Limited : Cubic → Transport → ℕ → Type 0
Limited m t minimum =
    (m.shared.cwnd_q16 ≤ limit_q16 t)
    × (m.shared.ssthresh_q16 ≤ limit_q16 t)
    × (effective_min m t ≡ minimum)

normalize-Limited : (m : Cubic) (t : Transport) → Limited (normalize m t) t (effective_min m t)
unfolding normalize effective_min
normalize-Limited m t = ground arith

minimum_q16-le :
    (m : Cubic) (t : Transport) → q16_from_bytes (effective_min m t) t.mss_bytes ≤ limit_q16 t
unfolding limit_q16
minimum_q16-le m t =
    q16-monotone (effective_min m t) t.cwnd_limit_bytes t.mss_bytes (minimum-le m t)

raise_cwnd-Limited :
    (m : Cubic) (t : Transport) (minimum : ℕ)
    → Limited m t minimum
    → Limited (raise_cwnd m t) t minimum
unfolding raise_cwnd effective_min
raise_cwnd-Limited m t minimum (c, s, e) =
    let q = minimum_q16-le m t in
    if_elim (λ (n : Cubic). Limited n t minimum) (ltb (cwnd_of m t) (effective_min m t))
      (λ _. (q, s, e)) (λ _. (c, s, e))

raise_ssthresh-Limited :
    (m : Cubic) (t : Transport) (minimum : ℕ)
    → Limited m t minimum
    → Limited (raise_ssthresh m t) t minimum
unfolding raise_ssthresh effective_min
raise_ssthresh-Limited m t minimum (c, s, e) =
    let q = minimum_q16-le m t in
    if_elim (λ (n : Cubic). Limited n t minimum) (ssthresh_of m t == 0) (λ _. (c, q, e))
      (λ _. (c, s, e))

pub publish-Published :
    (m : Cubic) (t : Transport)
    → 0 < t.mss_bytes
    → t.mss_bytes ≤ t.cwnd_limit_bytes
    → Published t (publish m t)
unfolding publish cwnd_of ssthresh_of
publish-Published m t pos le =
    let n = normalize m t in
    let r = raise_ssthresh (raise_cwnd n t) t in
    let min_ge = minimum-ge n t le in
    let min_le = minimum-le n t in
    let c = bytes-le n.shared.cwnd_q16 t.mss_bytes t.cwnd_limit_bytes in
    let s = bytes-le n.shared.ssthresh_q16 t.mss_bytes t.cwnd_limit_bytes in
    let e : effective_min n t ≡ effective_min m t = (normalize-Limited m t).2 in
    let (cwnd, ssthresh, minimum) =
      raise_ssthresh-Limited (raise_cwnd n t) t (effective_min m t)
        (raise_cwnd-Limited n t (effective_min m t) (normalize-Limited m t)) in
    record {
      cwnd_ge = ground arith;
      cwnd_ge_mss = ground arith;
      cwnd_le = ground arith;
      ssthresh_pos = ground arith;
      ssthresh_le = ground arith;
      rate_eq = refl;
      state_cwnd_le = cwnd;
      state_ssthresh_le = ssthresh;
    }

-- What is published where an event is accepted.
abbrev Accepted : Transport → Outcome Cubic → Type 0
Accepted t o = o.2 ≡ true → Published t o

refused-false :
    (m : Cubic) (t : Transport)
    → refused m t ≡ false
    → (0 < t.mss_bytes) × (t.mss_bytes ≤ t.cwnd_limit_bytes)
unfolding refused
refused-false m t r = ground arith

published : (m k : Cubic) (t : Transport) → refused k t ≡ false → Accepted t (publish m t)
published m k t r ok = let (pos, le) = refused-false k t r in publish-Published m t pos le

turned_down : (m : Cubic) (t : Transport) (policy : Policy) → Accepted t (m, policy, false)
turned_down m t policy ok = ground arith

on_ack-Accepted :
    (m : Cubic) (t : Transport) (ack : Ack) (now_ns srtt_ns : ℕ) (policy : Policy)
    → Accepted t (on_ack m t ack now_ns srtt_ns policy)
unfolding on_ack
on_ack-Accepted m t ack now_ns srtt_ns policy =
    let synced = sync_mss m t.mss_bytes in
    let n = normalize synced t in
    if_elim (Accepted t) (ack.acked_bytes == 0 || refused m t) (λ _. turned_down m t policy)
      (λ good.
        if_elim (Accepted t) (synced.ack_events /= 0 && ltb now_ns synced.last_ack_time_ns)
          (λ _. turned_down synced t policy)
          (λ _.
            if_elim (Accepted t) (not ack.rate.app_limited && (avoiding n && srtt_ns == 0))
              (λ _. turned_down n t policy)
              (λ _. published (acknowledge n t ack now_ns srtt_ns) m t (ground arith))))

on_loss-Accepted :
    (m : Cubic) (t : Transport) (bytes : ℕ) (policy : Policy)
    → Accepted t (on_loss m t bytes policy)
unfolding on_loss
on_loss-Accepted m t bytes policy =
    if_elim (Accepted t) (bytes == 0 || refused m t) (λ _. turned_down m t policy)
      (λ good. published _ m t (ground arith))

on_ecn-Accepted : (m : Cubic) (t : Transport) (policy : Policy) → Accepted t (on_ecn m t policy)
unfolding on_ecn
on_ecn-Accepted m t policy =
    if_elim (Accepted t) (refused m t) (λ _. turned_down m t policy) (λ good. published _ m t good)

on_timeout-Accepted :
    (m : Cubic) (t : Transport) (policy : Policy) → Accepted t (on_timeout m t policy)
unfolding on_timeout
on_timeout-Accepted m t policy =
    if_elim (Accepted t) (refused m t) (λ _. turned_down m t policy) (λ good. published _ m t good)

init_refused-false :
    (t : Transport) (w : InitialWindows)
    → init_refused t w ≡ false
    → (0 < t.mss_bytes) × (t.mss_bytes ≤ t.cwnd_limit_bytes)
unfolding init_refused
init_refused-false t w r = ground arith

init-Accepted :
    (m : Cubic) (t : Transport) (w : InitialWindows) (policy : Policy)
    → Accepted t (init m t w policy)
unfolding init
init-Accepted m t w policy =
    if_elim (Accepted t) (init_refused t w) (λ _. turned_down m t policy)
      (λ good _.
        let (pos, le) = init_refused-false t w good in publish-Published (initial t w) t pos le)

-- HyStart++ turns flags over: the windows stay.
and_then-Accepted :
    (f : Model → Model) (t : Transport) (o : Outcome Cubic)
    → ((h : Model) → ((f h).cwnd_q16 ≡ h.cwnd_q16) × ((f h).ssthresh_q16 ≡ h.ssthresh_q16))
    → Accepted t o
    → Accepted t (and_then f o)
unfolding effective_min
and_then-Accepted f t (m, policy, true) same ok _ =
    let p = ok refl in
    let (c, s) = same m.shared in
    record {
      cwnd_ge = p.cwnd_ge;
      cwnd_ge_mss = p.cwnd_ge_mss;
      cwnd_le = p.cwnd_le;
      ssthresh_pos = p.ssthresh_pos;
      ssthresh_le = p.ssthresh_le;
      rate_eq = p.rate_eq;
      state_cwnd_le = subst (λ x. x ≤ limit_q16 t) (sym c) p.state_cwnd_le;
      state_ssthresh_le = subst (λ x. x ≤ limit_q16 t) (sym s) p.state_ssthresh_le;
    }
and_then-Accepted f t (m, policy, false) same ok e = turned_down m t policy e

after_hystart-Accepted :
    (r : Option (Model × Bool)) (m : Cubic) (t : Transport) (ack : Ack) (policy : Policy)
    → Accepted t (after_hystart r m t ack policy)
after_hystart-Accepted none m t ack policy = turned_down m t policy
after_hystart-Accepted (some (h, b)) m t ack policy = on_ack-Accepted _ t _ _ _ policy

-- One callback of the controller on the transport of an event.
unfoldable pub handle : Cubic → Event → Policy → Outcome Cubic
handle m (acked t ack) policy = controller_on_ack m t ack policy
handle m (lost t bytes) policy = controller_on_loss m t bytes policy
handle m (marked t) policy = controller_on_ecn m t policy
handle m (expired t) policy = controller_on_timeout m t policy

disable-keeps :
    (h : Model)
    → ((hystart_disable h).cwnd_q16 ≡ h.cwnd_q16)
      × ((hystart_disable h).ssthresh_q16 ≡ h.ssthresh_q16)
unfolding hystart_disable
disable-keeps h = (refl, refl)

reset-keeps :
    (h : Model)
    → ((hystart_reset h).cwnd_q16 ≡ h.cwnd_q16) × ((hystart_reset h).ssthresh_q16 ≡ h.ssthresh_q16)
unfolding hystart_reset
reset-keeps h = (refl, refl)

-- From any state whatever, if the initialisation returns 0, it publishes windows in bounds.
pub controller_init-Published :
    (m : Cubic) (t : Transport) (w : InitialWindows) (policy : Policy)
    → (controller_init m t w policy).2 ≡ true
    → Published t (controller_init m t w policy)
unfolding controller_init
controller_init-Published m t w policy =
    and_then-Accepted hystart_reset t (init m t w policy) reset-keeps (init-Accepted m t w policy)

-- From any state whatever, also one that no run leads to: if the callback for an ACK, a loss, an ECN
-- mark or a timeout returns 0, it publishes a window of at least a segment and the effective minimum
-- and within the limit, a positive threshold within the limit, and no rate; and both windows of the
-- state it leaves are within the limit.
pub handle-Published :
    (m : Cubic) (e : Event) (policy : Policy)
    → (handle m e policy).2 ≡ true
    → Published (transport e) (handle m e policy)
unfolding handle controller_on_ack controller_on_loss controller_on_ecn controller_on_timeout
handle-Published m (acked t ack) policy =
    if_elim (Accepted t) (ack.ack_time_ns == 0) (λ _. turned_down m t policy)
      (λ _. after_hystart-Accepted _ m t ack policy)
handle-Published m (lost t bytes) policy =
    and_then-Accepted hystart_disable t (on_loss m t bytes policy) disable-keeps
      (on_loss-Accepted m t bytes policy)
handle-Published m (marked t) policy =
    and_then-Accepted hystart_disable t (on_ecn m t policy) disable-keeps
      (on_ecn-Accepted m t policy)
handle-Published m (expired t) policy =
    and_then-Accepted hystart_disable t (on_timeout m t policy) disable-keeps
      (on_timeout-Accepted m t policy)
