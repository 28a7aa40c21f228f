-- ===== src/Pacer/Flow/Conformance.antt =====
-- What the clock of a flow promises its path: over any run of send attempts, the bytes let through
-- stay below the rate times the time passed, plus one quantum.
use mathlib.Core.Path.{subst}
use tcp_shift.Prelude.{
  ℕ, ◌+◌, ◌*◌, ◌≤◌, ◌<◌, ◌≡◌, sym, ap, ◌∙◌, ◌⊎◌, inl, inr, List, [], ◌∷◌, arith, IsU32, u64_max,
}
use tcp_shift.Pacer.Flow.{
  FlowPacer, Eligibility, eligible, deferred, nsec_per_sec, note_tx, segment_eligible,
  set_rate_quantum, init,
}
use tcp_shift.Pacer.Flow.Runs.{
  Run, sent, after, attempt, attempts, end_time, InOrder, Conforms, mul_mono, note_tx_lem,
  advance-clock, advance-keeps,
}

-- An offer is deferred, or taken from the credit at hand, or granted at or after the deadline with
-- at most one quantum of new credit.
data Offer (f g : FlowPacer) (burst now bytes : ℕ) : Eligibility → Type 0 where
  later : (d : ℕ) → g.quantum_remaining_bytes ≡ 0 → Offer f g burst now bytes (deferred d)
  credit :
      g.quantum_remaining_bytes + bytes ≡ f.quantum_remaining_bytes
      → Offer f g burst now bytes eligible
  grant :
      f.next_send_ns ≤ now
      → g.quantum_remaining_bytes + bytes ≤ burst
      → Offer f g burst now bytes eligible

segment_eligible-keeps :
    (f : FlowPacer) (now bytes : ℕ)
    → let g = (segment_eligible f now bytes).1 in
      (g.rate_bytes_per_sec ≡ f.rate_bytes_per_sec)
      × (g.quantum_bytes ≡ f.quantum_bytes)
      × (g.next_send_ns ≡ f.next_send_ns)
unfolding segment_eligible
segment_eligible-keeps f now bytes = ground arith

segment_eligible-Offer :
    (f : FlowPacer) (burst now bytes : ℕ)
    → 0 < now
    → 0 < bytes
    → bytes ≤ burst
    → f.quantum_bytes ≤ burst
    → 0 < f.rate_bytes_per_sec
    → let (verdict, g) = segment_eligible f now bytes in Offer f g burst now bytes verdict
unfolding segment_eligible
segment_eligible-Offer f burst now bytes hn hb hm hq hr = grind (arith, later, credit, grant)

-- What `Conforms` says of a clock.
abbrev OnTime : (rate start total next : ℕ) → Type 0
OnTime rate start total next =
    ((next ≡ 0) × (total ≡ 0))
    ⊎ ((next ≡ u64_max) ⊎ (start * rate + total * nsec_per_sec ≤ next * rate))

-- A send within the budget, noted on a clock that conforms to its own rate.
noted_at_rate :
    (burst start t b total : ℕ) (g : FlowPacer)
    → IsU32 burst
    → 0 < g.rate_bytes_per_sec
    → start ≤ t
    → 0 < t
    → 0 < b
    → b ≤ burst
    → g.quantum_bytes ≤ burst
    → OnTime g.rate_bytes_per_sec start total g.next_send_ns
    → (total + (g.quantum_remaining_bytes + b)) * nsec_per_sec + start * g.rate_bytes_per_sec
      ≤ t * g.rate_bytes_per_sec + burst * nsec_per_sec
    → Conforms g.rate_bytes_per_sec burst start t (sent g total b (note_tx g t b))
noted_at_rate burst start t b total g bounded go h1 h3 h5 h6 small clock budget =
    let keeps = advance-keeps g t b in
    rw (note_tx_lem g t b h3 h5 (omega arith) go) record {
      at_rate = keeps.0;
      small = omega (arith, keeps.1);
      clock = inr (advance-clock g t b start total h5 (omega arith) go h1 clock);
      budget = omega (arith, ap (λ (k : ℕ). k * nsec_per_sec) keeps.2);
    }

module _ (rate burst start : ℕ) (positive : 0 < rate) (bounded : IsU32 burst) where
  noted-Conforms :
      (t b total : ℕ) (g : FlowPacer)
      → start ≤ t
      → 0 < t
      → 0 < b
      → b ≤ burst
      → g.rate_bytes_per_sec ≡ rate
      → g.quantum_bytes ≤ burst
      → OnTime rate start total g.next_send_ns
      → (total + (g.quantum_remaining_bytes + b)) * nsec_per_sec + start * rate
        ≤ t * rate + burst * nsec_per_sec
      → Conforms rate burst start t (sent g total b (note_tx g t b))
  noted-Conforms t b total g h1 h3 h5 h6 at small clock budget =
      subst (λ k. Conforms k burst start t (sent g total b (note_tx g t b))) at
        (noted_at_rate burst start t b total g bounded (omega arith) h1 h3 h5 h6 small
          (subst (λ k. OnTime k start total g.next_send_ns) (sym at) clock)
          (omega (arith, budget, ap (λ (k : ℕ). start * k) at, ap (λ (k : ℕ). t * k) at)))

  after-Conforms :
      (now t b total : ℕ) (f g : FlowPacer) {verdict : Eligibility}
      → start ≤ now
      → now ≤ t
      → 0 < t
      → t < u64_max
      → 0 < b
      → b ≤ burst
      → Conforms rate burst start now (f, total)
      → g.rate_bytes_per_sec ≡ f.rate_bytes_per_sec
      → g.quantum_bytes ≡ f.quantum_bytes
      → g.next_send_ns ≡ f.next_send_ns
      → Offer f g burst t b verdict
      → Conforms rate burst start t (after verdict g total t b)
  after-Conforms now t b total f g h1 h2 h3 h4 h5 h6 c kr kq kn (later d none_left) = record {
    at_rate = kr ∙ c.at_rate;
    small = omega (arith, c.small);
    clock = rw kn c.clock;
    budget =
        omega (arith, c.budget, mul_mono now t rate h2, ap (λ (k : ℕ). k * nsec_per_sec) none_left);
  }
  after-Conforms now t b total f g h1 h2 h3 h4 h5 h6 c kr kq kn (credit taken) =
      noted-Conforms t b total g (omega arith) h3 h5 h6 (kr ∙ c.at_rate) (omega (arith, c.small))
        (rw kn c.clock) (rw taken (omega (arith, c.budget, mul_mono now t rate h2)))
  after-Conforms now t b total f g h1 h2 h3 h4 h5 h6 c kr kq kn (grant due within) =
      noted-Conforms t b total g (omega arith) h3 h5 h6 (kr ∙ c.at_rate) (omega (arith, c.small))
        (rw kn c.clock) (granted_budget c.clock)
    where
      granted_budget :
          OnTime rate start total f.next_send_ns
          → (total + (g.quantum_remaining_bytes + b)) * nsec_per_sec + start * rate
            ≤ t * rate + burst * nsec_per_sec
      granted_budget (inl (_, fresh)) = omega (arith, mul_mono start t rate (omega arith))
      granted_budget (inr (inl ended)) = absurd (omega arith)
      granted_budget (inr (inr ahead)) = omega (arith, mul_mono f.next_send_ns t rate due)

  attempt-Conforms :
      (now t b : ℕ) (r : Run)
      → start ≤ now
      → now ≤ t
      → 0 < t
      → t < u64_max
      → 0 < b
      → b ≤ burst
      → Conforms rate burst start now r
      → Conforms rate burst start t (attempt r (t, b))
  unfolding attempt
  attempt-Conforms now t b (f, total) h1 h2 h3 h4 h5 h6 c =
      let (kr, kq, kn) = segment_eligible-keeps f t b in
      after-Conforms now t b total f (segment_eligible f t b).1 h1 h2 h3 h4 h5 h6 c kr kq kn
        (segment_eligible-Offer f burst t b h3 h5 h6 c.small (omega (arith, c.at_rate)))

  attempts-Conforms :
      (now : ℕ) (r : Run) (as' : List (ℕ × ℕ))
      → start ≤ now
      → InOrder burst now as'
      → Conforms rate burst start now r
      → Conforms rate burst start (end_time now as') (attempts r as')
  unfolding attempts
  attempts-Conforms now r [] h o c = c
  attempts-Conforms now r ((t, b) ∷ as') h (o0, o1, o2, o3, o4, o) c =
      attempts-Conforms t (attempt r (t, b)) as' (omega arith) o
        (attempt-Conforms now t b r h o0 o1 o2 o3 o4 c)

-- A fresh flow that is given a rate above 0 and a quantum lets through, over any segments of at
-- least a byte offered in order of time before the end of the 64-bit clock, at most the bytes of the
-- elapsed time at that rate plus one burst, a 32-bit number that neither the quantum nor any segment
-- passes.
pub attempts_within_rate :
    (rate quantum burst start catch_up : ℕ) (offers : List (ℕ × ℕ))
    → 0 < rate
    → quantum ≤ burst
    → IsU32 burst
    → InOrder burst start offers
    → let flow = set_rate_quantum (init catch_up) rate quantum in
      (attempts (flow, 0) offers).1 * nsec_per_sec + start * rate
      ≤ end_time start offers * rate + burst * nsec_per_sec
unfolding set_rate_quantum init
attempts_within_rate rate quantum burst start catch_up offers hr hq hb o =
    let flow = set_rate_quantum (init catch_up) rate quantum in
    omega (
      arith,
      (attempts-Conforms rate burst start hr hb start (flow, 0) offers (omega arith) o
          (ground arith)).budget,
    )
