-- ===== src/Cc/Hystart/Changes.antt =====
-- What an ACK must show for HyStart++ to change its phase.
use Prim.Native.Nat.{min, max}
use native.Mathlib.Nat.{le_trans}
use tcp_shift.Prelude.{
  ℕ, ◌+◌, ◌/◌, ◌≤◌, ◌<◌, ◌≡◌, refl, sym, ◌∙◌, Bool, true, false, not, ◌||◌, Option, ◌==◌, ◌/=◌,
  arith, if_elim, IsU64,
}
use tcp_shift.Cc.{Transport, Ack}
use tcp_shift.Cc.Hystart.{
  Model, delay_threshold, hystart_add_sat, start_round, new_round, note_rtt, test_css, test_delay,
  sample, count_round, last_round, advance, hystart_on_ack, is_slow_start,
}
use tcp_shift.Cc.Hystart.Phases.{kept}

-- The model `m` becomes `n`: the phase stays; or CSS is entered, at a round whose least RTT passes
-- that of the round before by an eighth of it, held between 4 and 16 milliseconds; or CSS is
-- reverted, at a round whose least RTT is below that at its entry; or the exit is asked for, as the
-- fifth CSS round ends.
pub data Change (m n : Model) : Type 0 where
  stays : n.css ≡ m.css → n.exit_pending ≡ false → Change m n
  enters :
      m.css ≡ false
      → n.css ≡ true
      → n.exit_pending ≡ false
      → 8 ≤ n.sample_count
      → n.last_round_min_rtt_ns + max 4000000 (min 16000000 (n.last_round_min_rtt_ns / 8))
        ≤ n.current_round_min_rtt_ns
      → n.css_baseline_min_rtt_ns ≡ n.current_round_min_rtt_ns
      → Change m n
  reverts :
      m.css ≡ true
      → n.css ≡ false
      → n.exit_pending ≡ false
      → 8 ≤ n.sample_count
      → n.current_round_min_rtt_ns < m.css_baseline_min_rtt_ns
      → Change m n
  exits : m.css ≡ true → n.css ≡ true → n.exit_pending ≡ true → m.css_rounds ≡ 4 → Change m n

test_delay-Change :
    (m : Model)
    → m.exit_pending ≡ false
    → m.css ≡ false
    → IsU64 m.current_round_min_rtt_ns
    → Change m (test_delay m).0
unfolding test_delay hystart_add_sat delay_threshold
test_delay-Change m e c le = grind (arith, stays, enters)

test_css-Change : (m : Model) → m.exit_pending ≡ false → m.css ≡ true → Change m (test_css m).0
unfolding test_css
test_css-Change m e c = grind (arith, stays, reverts)

-- A change counts from any model of the same phase and baseline.
Change-from :
    (m k n : Model)
    → k.css ≡ m.css
    → k.css_baseline_min_rtt_ns ≡ m.css_baseline_min_rtt_ns
    → k.exit_pending ≡ false
    → Change k n
    → (n.exit_pending ≡ false)
    → Change m n
Change-from m k n c b e (stays x y) o = stays (x ∙ c) y
Change-from m k n c b e (enters x y z u v w) o = enters (sym c ∙ x) y z u v w
Change-from m k n c b e (reverts x y z u v) o = reverts (sym c ∙ x) y z u (ground arith)
Change-from m k n c b e (exits x y z u) o = cc

-- The same for a model that also counts as many rounds.
same_phase :
    (m k n : Model)
    → k.css ≡ m.css
    → k.css_baseline_min_rtt_ns ≡ m.css_baseline_min_rtt_ns
    → k.css_rounds ≡ m.css_rounds
    → Change k n
    → Change m n
same_phase m k n c b r (stays x y) = stays (x ∙ c) y
same_phase m k n c b r (enters x y z u v w) = enters (sym c ∙ x) y z u v w
same_phase m k n c b r (reverts x y z u v) = reverts (sym c ∙ x) y z u (ground arith)
same_phase m k n c b r (exits x y z u) = exits (sym c ∙ x) y z (sym r ∙ u)

test_delay-exit : (m : Model) → (test_delay m).0.exit_pending ≡ m.exit_pending
unfolding test_delay
test_delay-exit m = ground arith

test_css-exit : (m : Model) → (test_css m).0.exit_pending ≡ m.exit_pending
unfolding test_css
test_css-exit m = ground arith

note_rtt-le :
    (m : Model) (ack : Ack) → (note_rtt m ack).current_round_min_rtt_ns ≤ m.current_round_min_rtt_ns
unfolding note_rtt
note_rtt-le m ack = ground arith

-- A model whose RTTs lie in 64 bits, with no exit pending.
abbrev Running : Model → Type 0
Running m = (m.exit_pending ≡ false) × IsU64 m.current_round_min_rtt_ns

-- A result with no exit pending.
abbrev Changed : Model → Model × Bool → Type 0
Changed m r = Change m r.0 × (r.0.exit_pending ≡ false)

sample-Changed : (m : Model) (ack : Ack) → Running m → Changed m (sample m ack)
unfolding sample
sample-Changed m ack (e, le) =
    let n = note_rtt m ack in
    let e' : n.exit_pending ≡ false = unfold note_rtt in e in
    if_elim (Changed m) (not ack.rate.rtt_valid || ack.rate.rtt_ns == 0) (λ _. (stays refl e, e))
      (λ _.
        if_elim (Changed m) n.css
          (λ c.
            let o = test_css-exit n ∙ e' in
            (
              Change-from m n (test_css n).0 (unfold note_rtt in refl) (unfold note_rtt in refl) e'
                  (test_css-Change n e' c) o,
              o,
            ))
          (λ c.
            let o = test_delay-exit n ∙ e' in
            (
              Change-from m n (test_delay n).0 (unfold note_rtt in refl) (unfold note_rtt in refl)
                  e' (test_delay-Change n e' c (le_trans (note_rtt-le m ack) le)) o,
              o,
            )))

started : Model → Transport → Ack → Model
started m t ack = start_round (count_round m) t ack

started-keeps :
    (m : Model) (t : Transport) (ack : Ack)
    → ((started m t ack).css ≡ m.css)
      × ((started m t ack).css_baseline_min_rtt_ns ≡ m.css_baseline_min_rtt_ns)
      × ((started m t ack).exit_pending ≡ m.exit_pending)
      × IsU64 (started m t ack).current_round_min_rtt_ns
unfolding started start_round count_round
started-keeps m t ack = ground arith

last_round-Change :
    (m : Model)
    → m.css_rounds < 5
    → last_round m ≡ true
    → Change m (record (count_round m) { exit_pending = true })
unfolding last_round count_round
last_round-Change m few l = exits (ground arith) (ground arith) refl (ground arith)

advance-Change :
    (m : Model) (t : Transport) (ack : Ack)
    → Running m
    → m.css_rounds < 5
    → Change m (advance m t ack).0
unfolding advance started
advance-Change m t ack run few =
    let P = λ (r : Model × Bool). Change m r.0 in
    if_elim P (new_round m ack)
      (λ _.
        if_elim P (last_round m) (λ l. last_round-Change m few l)
          (λ _.
            let (c, b, x, u) = started-keeps m t ack in
            let (change, o) = sample-Changed (started m t ack) ack (x ∙ run.0, u) in
            Change-from m (started m t ack) (sample (started m t ack) ack).0 c b (x ∙ run.0) change
              o))
      (λ _. (sample-Changed m ack run).0)

-- With no exit pending, fewer than five CSS rounds counted and a least RTT in 64 bits, an ACK, also
-- a refused one, leaves the phase as it is, or enters CSS, reverts it or asks for the exit, each only
-- on what `Change` demands.
pub hystart_on_ack-Change :
    (m : Model) (t : Transport) (ack : Ack) (now_ns : ℕ)
    → m.exit_pending ≡ false
    → m.css_rounds < 5
    → IsU64 m.current_round_min_rtt_ns
    → Change m (kept m (hystart_on_ack m t ack now_ns))
unfolding hystart_on_ack
hystart_on_ack-Change m t ack now_ns e few le =
    let P = λ (r : Option (Model × Bool)). Change m (kept m r) in
    let noted : Model = record m { ack_css = m.css } in
    if_elim P (now_ns == 0 || t.mss_bytes == 0) (λ _. stays refl e)
      (λ _.
        if_elim P (not m.enabled || (m.initial_complete || not (is_slow_start m)))
          (λ _. stays refl e)
          (λ _.
            if_elim P (m.mss_bytes /= t.mss_bytes) (λ _. stays refl e)
              (λ _.
                same_phase m noted (advance noted t ack).0 refl refl refl
                  (advance-Change noted t ack (e, le) few))))
