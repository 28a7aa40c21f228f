-- ===== src/Cc/Observation.antt =====
-- The smoothed round-trip time, cc/observation.h and cc/observation.c.
use tcp_shift.Prelude.{
  ℕ, ◌+◌, ◌-◌, ◌*◌, ◌/◌, ◌%◌, ◌≤◌, ◌<◌, ◌≡◌, ◌⊎◌, refl, Option, none, some, leb, ◌==◌, ◌/=◌,
  if◌then◌else◌, arith, u64_max, List, [], ◌∷◌, inl, inr,
}

-- `struct tcp_shift_cc_srtt`
pub record Srtt : Type 0 where
  pub smoothed_rtt_ns : ℕ  -- uint64_t
  pub samples : ℕ  -- uint64_t

unfoldable pub srtt_init : Srtt
srtt_init = record { smoothed_rtt_ns = 0; samples = 0 }

-- The estimate after a sample.
unfoldable pub smoothed : Srtt → ℕ → ℕ
smoothed s sample =
    let delta = s.smoothed_rtt_ns - sample in
    if s.samples == 0
    then sample
    else if leb s.smoothed_rtt_ns sample
    then s.smoothed_rtt_ns + (sample - s.smoothed_rtt_ns) / 8
    else s.smoothed_rtt_ns - (if delta % 8 /= 0 then delta / 8 + 1 else delta / 8)

unfoldable pub srtt_update : Srtt → ℕ → Option Srtt
srtt_update s sample =
    if sample == 0
    then none
    else some (record {
      smoothed_rtt_ns = smoothed s sample;
      samples = if s.samples /= u64_max then s.samples + 1 else s.samples;
    })

-- After the first sample, the estimate moves to the weighted mean of seven parts of its own and one of
-- the sample, rounded down, whichever of the two is greater.
pub smoothed_mean :
    (s : Srtt) (sample : ℕ)
    → 0 < s.samples
    → smoothed s sample ≡ (s.smoothed_rtt_ns * 7 + sample) / 8
unfolding smoothed
smoothed_mean s sample some_samples = ground arith

-- A refused sample changes nothing.
abbrev pub updated : Srtt → Option Srtt → Srtt
updated s none = s
updated s (some t) = t

unfoldable pub after_samples : Srtt → List ℕ → Srtt
after_samples s [] = s
after_samples s (x ∷ xs) = after_samples (updated s (srtt_update s x)) xs

-- Samples from `low` to `high`.
pub data Within (low high : ℕ) : List ℕ → Type 0 where
  no_samples : Within low high []
  sample :
      (x : ℕ) (xs : List ℕ) → low ≤ x → x ≤ high → Within low high xs → Within low high (x ∷ xs)

-- An estimate that has seen samples is between the bounds.
abbrev pub Between : ℕ → ℕ → Srtt → Type 0
Between low high s = (s.samples ≡ 0) ⊎ ((low ≤ s.smoothed_rtt_ns) × (s.smoothed_rtt_ns ≤ high))

srtt_update-Between :
    (low high : ℕ) (s : Srtt) (x : ℕ)
    → low ≤ x
    → x ≤ high
    → Between low high s
    → Between low high (updated s (srtt_update s x))
unfolding srtt_update smoothed
srtt_update-Between low high s x ge le b = ground arith

after_samples-Between :
    (low high : ℕ) (s : Srtt) (xs : List ℕ)
    → Within low high xs
    → Between low high s
    → Between low high (after_samples s xs)
unfolding after_samples
after_samples-Between low high s [] w b = b
after_samples-Between low high s (x ∷ xs) (sample _ _ ge le w) b =
    after_samples-Between low high (updated s (srtt_update s x)) xs w
      (srtt_update-Between low high s x ge le b)

updated-samples : (s : Srtt) (x : ℕ) → 0 < x → 0 < (updated s (srtt_update s x)).samples
unfolding srtt_update
updated-samples s x pos = ground arith

kept_samples : (s : Srtt) (x : ℕ) → 0 < s.samples → 0 < (updated s (srtt_update s x)).samples
unfolding srtt_update
kept_samples s x pos = ground arith

after_samples-samples : (s : Srtt) (xs : List ℕ) → 0 < s.samples → 0 < (after_samples s xs).samples
unfolding after_samples
after_samples-samples s [] pos = pos
after_samples-samples s (x ∷ xs) pos =
    after_samples-samples (updated s (srtt_update s x)) xs (kept_samples s x pos)

-- From the start, over a first sample and any others that are all from `low` to `high` and not 0, the
-- estimate is from `low` to `high` too.
pub after_samples-within :
    (low high first : ℕ) (rest : List ℕ)
    → 0 < low
    → Within low high (first ∷ rest)
    → (low ≤ (after_samples srtt_init (first ∷ rest)).smoothed_rtt_ns)
      × ((after_samples srtt_init (first ∷ rest)).smoothed_rtt_ns ≤ high)
after_samples-within low high first rest pos (sample _ _ ge le w) =
    let b =
      after_samples-Between low high srtt_init (first ∷ rest) (sample first rest ge le w)
        (inl (unfold srtt_init in refl)) in
    let some_samples : 0 < (after_samples srtt_init (first ∷ rest)).samples =
      unfold after_samples in
      after_samples-samples _ rest (updated-samples srtt_init first (omega arith)) in
    elim b [ inl none_left ↦ ground arith | inr between ↦ between ]
