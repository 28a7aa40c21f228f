-- ===== src/Rack/Loss.antt =====
-- When a segment is lost: the timer that is asked for fires exactly when the loss is due.
use tcp_shift.Prelude.{
  ℕ, ◌+◌, ◌-◌, ◌≤◌, ◌<◌, ◌≡◌, sym, ap, ◌∙◌, ◌↔◌, inl, inr, Bool, true, false, not, ◌||◌, Option,
  leb, if◌then◌else◌, u64_max, arith, Bool-cases,
}
use mathlib.Core.Path.{ap₂}
use Prim.Native.Nat.{min}
use tcp_shift.Rack.{
  State, Segment, sent_after, reo_wnd, unjudged, loss_remaining, add_sat, calc_pto_ns, pto_base,
}

-- Asking twice gives the same window, and moves only the stored window.
reo_wnd-again :
    (s : State) (in_recovery : Bool)
    → (reo_wnd (reo_wnd s in_recovery).0 in_recovery).1 ≡ (reo_wnd s in_recovery).1
unfolding reo_wnd
reo_wnd-again s in_recovery = ground arith

reo_wnd-keeps :
    (s : State) (in_recovery : Bool)
    → let t = (reo_wnd s in_recovery).0 in
      (t.rack_xmit_ts_ns ≡ s.rack_xmit_ts_ns)
      × (t.rack_end_seq ≡ s.rack_end_seq)
      × (t.rack_rtt_ns ≡ s.rack_rtt_ns)
unfolding reo_wnd
reo_wnd-keeps s in_recovery = ground arith

-- No loss can be found: RACK cannot judge the segment, or has seen nothing sent after it.
abbrev blocked : State → Segment → Bool
blocked s seg =
    unjudged s seg || not (sent_after s.rack_xmit_ts_ns s.rack_end_seq seg.xmit_ts_ns seg.end_seq)

abbrev deadline : State → Segment → Bool → ℕ
deadline s seg in_recovery =
    add_sat (add_sat seg.xmit_ts_ns s.rack_rtt_ns) (reo_wnd s in_recovery).1

loss_remaining-blocked :
    (s : State) (seg : Segment) (now : ℕ) (in_recovery : Bool)
    → blocked s seg ≡ true
    → loss_remaining s seg now in_recovery ≡ (s, false, 0)
unfolding loss_remaining
loss_remaining-blocked s seg now in_recovery b = ground arith

loss_remaining-open :
    (s : State) (seg : Segment) (now : ℕ) (in_recovery : Bool)
    → blocked s seg ≡ false
    → let dl = deadline s seg in_recovery in
      loss_remaining s seg now in_recovery
      ≡ ((reo_wnd s in_recovery).0, leb dl now, if leb dl now then 0 else dl - now)
unfolding loss_remaining
loss_remaining-open s seg now in_recovery b = ground arith

blocked-reo_wnd :
    (s : State) (seg : Segment) (in_recovery : Bool)
    → blocked (reo_wnd s in_recovery).0 seg ≡ blocked s seg
unfolding unjudged reo_wnd
blocked-reo_wnd s seg in_recovery = ground arith

deadline-reo_wnd :
    (s : State) (seg : Segment) (in_recovery : Bool)
    → deadline (reo_wnd s in_recovery).0 seg in_recovery ≡ deadline s seg in_recovery
deadline-reo_wnd s seg in_recovery =
    ap₂ (λ rtt wnd. add_sat (add_sat seg.xmit_ts_ns rtt) wnd) (reo_wnd-keeps s in_recovery).2
      (reo_wnd-again s in_recovery)

-- If a segment is not lost yet but will be, then it is lost from the moment on that the answer
-- names, asked of the state that the answer left, and not before; if the answer names no moment and
-- the segment is not lost, it is lost at no time while the state stays.
pub loss_remaining_exact :
    (s : State) (seg : Segment) (now later : ℕ) (in_recovery : Bool)
    → (loss_remaining s seg now in_recovery).1 ≡ false
    → let (t, _, remaining) = loss_remaining s seg now in_recovery in
      ((loss_remaining t seg later in_recovery).1 ≡ true)
      ↔ ((0 < remaining) × (now + remaining ≤ later))
loss_remaining_exact s seg now later in_recovery h = elim (Bool-cases (blocked s seg)) [
  | inl b ↦ rw (loss_remaining-blocked s seg now in_recovery b) (
      rw (loss_remaining-blocked s seg later in_recovery b)
        ((λ y. cc), (λ y. absurd (omega arith))))
  | inr o ↦
      let t = (reo_wnd s in_recovery).0 in
      let here = loss_remaining-open s seg now in_recovery o in
      let there =
        loss_remaining-open t seg later in_recovery (blocked-reo_wnd s seg in_recovery ∙ o) in
      let not_yet : leb (deadline s seg in_recovery) now ≡ false =
        sym (ap (λ (r : State × Bool × ℕ). r.1) here) ∙ h in
      rw here (
        rw there (
          rw (deadline-reo_wnd s seg in_recovery)
            (rw not_yet ((λ y. ground arith), (λ y. ground arith)))))
]

-- While the retransmission timeout lies ahead and before the end of the 64-bit clock, the probe timeout never passes it; it is the shorter
-- of the time to the retransmission timeout and the timeout that the round trip calls for.
pub calc_pto_ns_bounds :
    (state : Option State) (now rto flight max_ack_delay : ℕ)
    → now < rto
    → rto < u64_max
    → let pto = calc_pto_ns state now rto flight max_ack_delay in
      (now + pto ≤ rto) × (pto ≡ min (pto_base state flight max_ack_delay) (rto - now))
unfolding calc_pto_ns add_sat
calc_pto_ns_bounds state now rto flight max_ack_delay h k = ground arith
