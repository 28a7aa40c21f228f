-- ===== src/Cc/Cubic/Growth.antt =====
-- How far one ACK moves the window in congestion avoidance, cc/cubic.c.
use Prim.Native.Nat.{max}
use native.Mathlib.Nat.{div-le_of_le-mul}
use mathlib.Core.Path.{subst}
use tcp_shift.Prelude.{
  ℕ, ap, sym, ◌∙◌, ◌+◌, ◌-◌, ◌*◌, ◌/◌, ◌≤◌, ◌≡◌, refl, ltb, arith, if_elim, u64, IsU64,
}
use tcp_shift.Cc.{Transport}
use tcp_shift.Cc.Hystart.{Model}
use tcp_shift.Cc.Cubic.{Cubic, add_sat, limit_q16, cwnd_of}
use tcp_shift.Cc.Cubic.Curve.{time_q10, window_q16, open_epoch, start_epoch}
use tcp_shift.Cc.Cubic.Acks.{
  ratio_q16, update_w_est, elapsed, target, approach, follow, with_epoch, avoidance,
}

-- A step from the window `cwnd`: it does not fall, and rises to the estimate of Reno's window or by at
-- most half a segment; the estimate is within the limit.
pub record Steps (cwnd : ℕ) (t : Transport) (n : Cubic) : Type 0 where
  pub grows : cwnd ≤ n.shared.cwnd_q16
  pub at_most : n.shared.cwnd_q16 ≤ max n.w_est_q16 (cwnd + 32768)
  pub est_le : n.w_est_q16 ≤ limit_q16 t

target-lem :
    (m : Cubic) (t : Transport) (e s : ℕ)
    → IsU64 m.shared.cwnd_q16
    → m.shared.cwnd_q16 ≤ limit_q16 t
    → (m.shared.cwnd_q16 ≤ target m t e s)
      × (target m t e s ≤ m.shared.cwnd_q16 + m.shared.cwnd_q16 / 2)
unfolding target add_sat
target-lem m t e s narrow le = ground arith

-- A step towards a target at most half the window away.
approach-Steps :
    (m : Cubic) (t : Transport) (q : ℕ)
    → IsU64 (m.shared.cwnd_q16 + 32768)
    → m.w_est_q16 ≤ limit_q16 t
    → q ≤ m.shared.cwnd_q16 + m.shared.cwnd_q16 / 2
    → Steps m.shared.cwnd_q16 t (approach m q)
unfolding approach add_sat
approach-Steps m t q narrow est near =
    let cwnd = m.shared.cwnd_q16 in
    let half : u64 ((q - cwnd) * 65536) / cwnd ≤ 32768 = div-le_of_le-mul cwnd (omega arith) in
    ground arith

follow-Steps :
    (m : Cubic) (t : Transport) (e s : ℕ)
    → IsU64 (m.shared.cwnd_q16 + 32768)
    → m.shared.cwnd_q16 ≤ limit_q16 t
    → m.w_est_q16 ≤ limit_q16 t
    → Steps m.shared.cwnd_q16 t (follow m t e s)
unfolding follow
follow-Steps m t e s narrow le est =
    let (_, near) = target-lem m t e s (omega arith) le in
    if_elim (Steps m.shared.cwnd_q16 t) (ltb (window_q16 m e) m.w_est_q16) (λ _. ground arith)
      (λ _. approach-Steps m t (target m t e s) narrow est near)

follow-est : (m : Cubic) (t : Transport) (e s : ℕ) → (follow m t e s).w_est_q16 ≡ m.w_est_q16
unfolding follow approach
follow-est m t e s = ground arith

update_w_est-lem :
    (m : Cubic) (acked cwnd limit : ℕ)
    → ((update_w_est m acked cwnd limit).shared ≡ m.shared)
      × ((update_w_est m acked cwnd limit).w_est_q16 ≤ limit)
      × ((update_w_est m acked cwnd limit).w_est_q16 ≤ m.w_est_q16 + ratio_q16 acked cwnd)
unfolding update_w_est add_sat
update_w_est-lem m acked cwnd limit = (refl, ground arith, ground arith)

with_epoch-shared : (m : Cubic) (now : ℕ) → (with_epoch m now).shared ≡ m.shared
unfolding with_epoch start_epoch open_epoch
with_epoch-shared m now = ground arith

-- In congestion avoidance, with the window within the limit and 64 bits, whatever an ACK acknowledges
-- and whenever it comes: the window does not fall, and rises to the estimate of Reno's window or by at
-- most half a segment, and that estimate is within the limit and rises by at most the bytes
-- acknowledged over the window.
pub avoidance-Steps :
    (m : Cubic) (t : Transport) (acked now srtt : ℕ)
    → IsU64 (m.shared.cwnd_q16 + 32768)
    → m.shared.cwnd_q16 ≤ limit_q16 t
    → Steps m.shared.cwnd_q16 t (avoidance m t acked now srtt)
      × ((avoidance m t acked now srtt).w_est_q16
          ≤ (with_epoch m now).w_est_q16 + ratio_q16 acked (cwnd_of (with_epoch m now) t))
unfolding avoidance
avoidance-Steps m t acked now srtt narrow le =
    let e = with_epoch m now in
    let w = update_w_est e acked (cwnd_of e t) (limit_q16 t) in
    let at = time_q10 (elapsed now w.epoch_start_ns) in
    let (same, est, paid) = update_w_est-lem e acked (cwnd_of e t) (limit_q16 t) in
    let window : w.shared.cwnd_q16 ≡ m.shared.cwnd_q16 =
      ap (λ (h : Model). h.cwnd_q16) (same ∙ with_epoch-shared m now) in
    let steps =
      follow-Steps w t at srtt (subst (λ x. IsU64 (x + 32768)) (sym window) narrow)
        (subst (λ x. x ≤ limit_q16 t) (sym window) le) est in
    (
      subst (λ x. Steps x t (follow w t at srtt)) window steps,
      subst (λ x. x ≤ e.w_est_q16 + ratio_q16 acked (cwnd_of e t)) (sym (follow-est w t at srtt))
          paid,
    )
