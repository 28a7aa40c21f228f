-- ===== src/Pacer/Flow/Runs.antt =====
-- Runs of send attempts on a flow, and what one noted send does to its clock.
use tcp_shift.Prelude.{
  ℕ, ◌+◌, ◌*◌, ◌≤◌, ◌<◌, ◌≡◌, refl, ap, ◌⊎◌, inl, inr, Option, none, some, List, [], ◌∷◌, arith,
  IsU32, u64_max,
}
use tcp_shift.Pacer.Flow.{
  FlowPacer, Eligibility, eligible, spacing_ns, add_sat, nsec_per_sec, tx_base, advance, note_tx,
  segment_eligible,
}
use tcp_shift.Pacer.Flow.Spacing.{spacing_ns-eq, spacing_ns-least}

-- A flow with the bytes that it was let to send.
abbrev pub Run : Type 0
Run = FlowPacer × ℕ

abbrev pub sent : FlowPacer → ℕ → ℕ → Option FlowPacer → Run
sent flow total bytes none = (flow, total)
sent flow total bytes (some flow') = (flow', total + bytes)

abbrev pub after : Eligibility → FlowPacer → ℕ → ℕ → ℕ → Run
after eligible flow total now_ns bytes = sent flow total bytes (note_tx flow now_ns bytes)
after _ flow total now_ns bytes = (flow, total)

-- One segment is offered: if it is eligible it is sent, and the send is noted.
unfoldable pub attempt : Run → ℕ × ℕ → Run
attempt (flow, total) (now_ns, bytes) =
    let (verdict, flow') = segment_eligible flow now_ns bytes in
    after verdict flow' total now_ns bytes

unfoldable pub attempts : Run → List (ℕ × ℕ) → Run
attempts r [] = r
attempts r (a ∷ as') = attempts (attempt r a) as'

-- The time of the last attempt.
abbrev pub end_time : ℕ → List (ℕ × ℕ) → ℕ
end_time t [] = t
end_time t (a ∷ as') = end_time a.0 as'

-- The times do not fall, and lie before the end of the 64-bit clock; segments have 1 to `burst`
-- bytes.
abbrev pub InOrder : ℕ → ℕ → List (ℕ × ℕ) → Type 0
InOrder burst t [] = Unit
InOrder burst t (a ∷ as') =
    (t ≤ a.0) × (0 < a.0) × (a.0 < u64_max) × (0 < a.1) × (a.1 ≤ burst) × InOrder burst a.0 as'

-- `total` bytes were let through since `start`, the last of them granted by `now`.
pub record Conforms (rate burst start now : ℕ) (r : Run) : Type 0 where
  pub at_rate : r.0.rate_bytes_per_sec ≡ rate
  pub small : r.0.quantum_bytes ≤ burst
  pub clock :
      ((r.0.next_send_ns ≡ 0) × (r.1 ≡ 0))
      ⊎ ((r.0.next_send_ns ≡ u64_max)
          ⊎ (start * rate + r.1 * nsec_per_sec ≤ r.0.next_send_ns * rate))
  pub budget :
      (r.1 + r.0.quantum_remaining_bytes) * nsec_per_sec + start * rate
      ≤ now * rate + burst * nsec_per_sec

-- The base of the next spacing is never before the old deadline, and is the present if there is
-- none.
pub tx_base-ge :
    (f : FlowPacer) (now : ℕ)
    → (f.next_send_ns ≤ (tx_base f now).0) × (f.next_send_ns ≡ 0 → (tx_base f now).0 ≡ now)
unfolding tx_base
tx_base-ge f now = ground arith

pub add_sat_cases :
    (a b : ℕ)
    → 0 < b
    → b ≤ u64_max
    → (add_sat a b ≡ u64_max) ⊎ ((add_sat a b ≡ a + b) × (a + b ≤ u64_max))
unfolding add_sat
add_sat_cases a b p h = ground arith

pub mul_mono : (a b c : ℕ) → a ≤ b → a * c ≤ b * c
mul_mono a b c h = grind arith

pub note_tx_lem :
    (f : FlowPacer) (now bytes : ℕ)
    → 0 < now
    → 0 < bytes
    → IsU32 bytes
    → 0 < f.rate_bytes_per_sec
    → note_tx f now bytes ≡ some (advance f now bytes)
unfolding note_tx
note_tx_lem f now bytes hn hb hu hr =
    ground (arith, spacing_ns-eq bytes f.rate_bytes_per_sec hb hu hr)

pub spacing_ns-small :
    (bytes rate : ℕ) → 0 < bytes → IsU32 bytes → 0 < rate → spacing_ns bytes rate ≤ u64_max
spacing_ns-small bytes rate hb hu hr = grind (arith, spacing_ns-least bytes rate hb hu hr)

-- The clock after a send: at its end, or ahead of the old one by the time of the bytes.
pub advance-clock :
    (f : FlowPacer) (now bytes start total : ℕ)
    → 0 < bytes
    → IsU32 bytes
    → 0 < f.rate_bytes_per_sec
    → start ≤ now
    → ((f.next_send_ns ≡ 0) × (total ≡ 0))
      ⊎ ((f.next_send_ns ≡ u64_max)
          ⊎ (start * f.rate_bytes_per_sec + total * nsec_per_sec
              ≤ f.next_send_ns * f.rate_bytes_per_sec))
    → let next = (advance f now bytes).next_send_ns in
      (next ≡ u64_max)
      ⊎ (start * f.rate_bytes_per_sec + (total + bytes) * nsec_per_sec
          ≤ next * f.rate_bytes_per_sec)
unfolding advance
advance-clock f now bytes start total hb hu hr hs h =
    let rate = f.rate_bytes_per_sec in
    let gap = spacing_ns bytes rate in
    let (base, _) = tx_base f now in
    let (old, fresh) = tx_base-ge f now in
    elim (add_sat_cases base gap (spacing_ns-eq bytes rate hb hu hr).1
      (spacing_ns-small bytes rate hb hu hr)) [
        | inl full ↦ inl full
        | inr (exact, fits) ↦ elim h [
          | inl (none_yet, zero_sent) ↦ inr (
              rw exact (
                omega (
                  arith,
                  (spacing_ns-least bytes rate hb hu hr).0,
                  mul_mono start base rate (omega (arith, fresh none_yet)),
                  ap (λ (t : ℕ). t * nsec_per_sec) zero_sent,
                )))
          | inr (inl ended) ↦ absurd (omega (arith, (spacing_ns-eq bytes rate hb hu hr).1))
          | inr (inr ahead) ↦ inr (
              rw exact (
                omega (
                  arith,
                  (spacing_ns-least bytes rate hb hu hr).0,
                  mul_mono f.next_send_ns base rate old,
                )))
        ]
      ]

pub advance-keeps :
    (f : FlowPacer) (now bytes : ℕ)
    → let g = advance f now bytes in
      (g.rate_bytes_per_sec ≡ f.rate_bytes_per_sec)
      × (g.quantum_bytes ≡ f.quantum_bytes)
      × (g.quantum_remaining_bytes ≡ f.quantum_remaining_bytes)
unfolding advance
advance-keeps f now bytes = (refl, refl, refl)
