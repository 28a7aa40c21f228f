-- ===== src/Cc/Hystart/Phases.antt =====
-- The phases of HyStart++, over any ACKs.
use tcp_shift.Prelude.{
  ℕ, ◌+◌, ◌≤◌, ◌<◌, ◌≡◌, ◌⊎◌, Bool, true, false, not, ◌||◌, Option, none, some, List, [], ◌∷◌, ◌==◌,
  ◌/=◌, arith, if_elim, if◌then◌else◌, u32,
}
use tcp_shift.Cc.{Transport, Ack}
use tcp_shift.Cc.Hystart.{
  Model, delay_threshold, hystart_reset, start_round, new_round, note_rtt, test_css, test_delay,
  sample, count_round, last_round, advance, hystart_on_ack, is_slow_start,
}

-- What every ACK keeps: fewer than five CSS rounds are counted unless an exit is pending, none
-- outside CSS, and CSS has been entered once more often than reverted exactly while it lasts.
pub record InPhase (m : Model) : Type 0 where
  pub pending :
      (m.exit_pending ≡ true × (m.css ≡ true)) ⊎ (m.exit_pending ≡ false × (m.css_rounds < 5))
  pub outside : (m.css ≡ true) ⊎ (m.css_rounds ≡ 0)
  pub entered :
      m.css_enter_events ≡ (if m.css then u32 (m.css_revert_events + 1) else m.css_revert_events)
  pub narrow : m.css_revert_events < 4294967296

reset-InPhase : (m : Model) → InPhase (hystart_reset m)
unfolding hystart_reset
reset-InPhase m = ground arith

note_rtt-InPhase : (m : Model) (ack : Ack) → InPhase m → InPhase (note_rtt m ack)
unfolding note_rtt
note_rtt-InPhase m ack p = record {
  pending = p.pending;
  outside = p.outside;
  entered = p.entered;
  narrow = p.narrow;
}

test_css-InPhase :
    (m : Model) → m.css ≡ true → m.exit_pending ≡ false → InPhase m → InPhase (test_css m).0
unfolding test_css
test_css-InPhase m c e p = ground arith

test_delay-InPhase : (m : Model) → m.css ≡ false → InPhase m → InPhase (test_delay m).0
unfolding test_delay
test_delay-InPhase m c p = ground arith

sample-InPhase :
    (m : Model) (ack : Ack) → m.exit_pending ≡ false → InPhase m → InPhase (sample m ack).0
unfolding sample
sample-InPhase m ack e p =
    let n = note_rtt m ack in
    let q = note_rtt-InPhase m ack p in
    if_elim (λ (r : Model × Bool). InPhase r.0) (not ack.rate.rtt_valid || ack.rate.rtt_ns == 0)
      (λ _. p)
      (λ _.
        if_elim (λ (r : Model × Bool). InPhase r.0) n.css
          (λ c. test_css-InPhase n c (unfold note_rtt in e) q) (λ c. test_delay-InPhase n c q))

count_round-InPhase :
    (m : Model)
    → m.exit_pending ≡ false
    → last_round m ≡ false
    → InPhase m
    → InPhase (count_round m) × ((count_round m).exit_pending ≡ false)
unfolding count_round last_round
count_round-InPhase m e l p = ground arith

last_round-InPhase :
    (m : Model)
    → last_round m ≡ true
    → InPhase m
    → InPhase (record (count_round m) { exit_pending = true })
unfolding count_round last_round
last_round-InPhase m l p = ground arith

start_round-InPhase :
    (m : Model) (t : Transport) (ack : Ack) → InPhase m → InPhase (start_round m t ack)
unfolding start_round
start_round-InPhase m t ack p = record {
  pending = p.pending;
  outside = p.outside;
  entered = p.entered;
  narrow = p.narrow;
}

advance-InPhase :
    (m : Model) (t : Transport) (ack : Ack)
    → m.exit_pending ≡ false
    → InPhase m
    → InPhase (advance m t ack).0
unfolding advance
advance-InPhase m t ack e p =
    let P = λ (r : Model × Bool). InPhase r.0 in
    if_elim P (new_round m ack)
      (λ _.
        if_elim P (last_round m) (λ l. last_round-InPhase m l p)
          (λ l.
            let (counted, still) = count_round-InPhase m e l p in
            sample-InPhase (start_round (count_round m) t ack) ack (unfold start_round in still)
              (start_round-InPhase (count_round m) t ack counted)))
      (λ _. sample-InPhase m ack e p)

abbrev pub kept : Model → Option (Model × Bool) → Model
kept m none = m
kept m (some (n, _)) = n

noted-InPhase : (m : Model) → InPhase m → InPhase (record m { ack_css = m.css })
noted-InPhase m p = record {
  pending = p.pending;
  outside = p.outside;
  entered = p.entered;
  narrow = p.narrow;
}

hystart_on_ack-InPhase :
    (m : Model) (t : Transport) (ack : Ack) (now_ns : ℕ)
    → m.exit_pending ≡ false
    → InPhase m
    → InPhase (kept m (hystart_on_ack m t ack now_ns))
unfolding hystart_on_ack
hystart_on_ack-InPhase m t ack now_ns e p =
    let P = λ (r : Option (Model × Bool)). InPhase (kept m r) in
    let q = noted-InPhase m p in
    let noted : Model = record m { ack_css = m.css } in
    if_elim P (now_ns == 0 || t.mss_bytes == 0) (λ _. p)
      (λ _.
        if_elim P (not m.enabled || (m.initial_complete || not (is_slow_start m))) (λ _. q)
          (λ _.
            if_elim P (m.mss_bytes /= t.mss_bytes) (λ _. q) (λ _. advance-InPhase noted t ack e q)))

-- The model after ACKs, up to the one that asks for the exit.
unfoldable pub after_acks : Model → List (Transport × Ack × ℕ) → Model
after_acks m [] = m
after_acks m ((t, ack, now_ns) ∷ as') =
    let rest = after_acks (kept m (hystart_on_ack m t ack now_ns)) as' in
    if m.exit_pending then m else rest

acks_from : (m : Model) (as' : List (Transport × Ack × ℕ)) → InPhase m → InPhase (after_acks m as')
unfolding after_acks
acks_from m [] p = p
acks_from m ((t, ack, now_ns) ∷ as') p =
    if_elim InPhase m.exit_pending (λ _. p)
      (λ e.
        acks_from (kept m (hystart_on_ack m t ack now_ns)) as'
          (hystart_on_ack-InPhase m t ack now_ns e p))

-- From a reset, over any ACKs up to the first that asks for the exit from slow start: the exit is
-- asked for only in CSS; until then fewer than five CSS rounds are counted, and none outside CSS;
-- and CSS has been entered, in 32 bits, once more often than it was reverted exactly while it lasts.
pub after_acks-InPhase :
    (m : Model) (as' : List (Transport × Ack × ℕ)) → InPhase (after_acks (hystart_reset m) as')
after_acks-InPhase m as' = acks_from (hystart_reset m) as' (reset-InPhase m)

delay_threshold_bounds :
    (rtt : ℕ) → (4000000 ≤ delay_threshold rtt) × (delay_threshold rtt ≤ 16000000)
unfolding delay_threshold
delay_threshold_bounds rtt = ground arith
