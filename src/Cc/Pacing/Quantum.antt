-- ===== src/Cc/Pacing/Quantum.antt =====
-- The size of a pacing batch, against its description in whole segments.
use tcp_shift.Prelude.{ℕ, ◌+◌, ◌*◌, ◌/◌, ◌≤◌, ◌<◌, ◌≡◌, ◌⊎◌, inl, inr, refl, arith}
use native.Mathlib.Nat.{div-add-mod', mod-lt, le_trans, mul-le-mul_right}
use tcp_shift.Cc.Pacing.{target_segments, clamp_segments, quantum_bytes}

-- The segments of a quantum: the whole segments of the target, held between 2 and 16.
pub record Segments (target mss k : ℕ) : Type 0 where
  pub at_least : 2 ≤ k
  pub at_most : k ≤ 16
  pub no_more : (k ≡ 2) ⊎ (k * mss ≤ target)
  pub no_fewer : (k ≡ 16) ⊎ (target < (k + 1) * mss)

target_segments_lem :
    (rate mss : ℕ)
    → 0 < mss
    → target_segments rate mss * mss ≤ rate / 1024
      × (rate / 1024 < (target_segments rate mss + 1) * mss)
unfolding target_segments
target_segments_lem rate mss h =
    grind (arith, div-add-mod' (rate / 1024) mss, mod-lt (rate / 1024) h)

clamp_segments_lem :
    (n : ℕ)
    → 2 ≤ clamp_segments n
      × (clamp_segments n ≤ 16)
      × ((clamp_segments n ≡ 2) ⊎ (clamp_segments n ≤ n))
      × ((clamp_segments n ≡ 16) ⊎ (n ≤ clamp_segments n))
unfolding clamp_segments
clamp_segments_lem n = ground arith

quantum_bytes-eq :
    (rate mss k : ℕ)
    → 0 < rate
    → 0 < mss
    → mss * 16 ≤ 4294967295
    → k ≡ clamp_segments (target_segments rate mss)
    → quantum_bytes rate mss ≡ k * mss
unfolding quantum_bytes
quantum_bytes-eq rate mss k hr hm fits e =
    let lem = clamp_segments_lem (target_segments rate mss) in
    let le = mul-le-mul_right mss lem.1 in ground (arith, le, lem)

add_le : {a b : ℕ} → a ≤ b → a + 1 ≤ b + 1
add_le h = omega arith

-- For a rate and a segment size above 0 whose sixteenfold fits 32 bits, the quantum is a whole
-- number of segments: the most that fit in the rate shifted right by 10, held between 2 and 16.
pub quantum_bytes-Segments :
    (rate mss : ℕ)
    → 0 < rate
    → 0 < mss
    → mss * 16 ≤ 4294967295
    → (k : ℕ) × (quantum_bytes rate mss ≡ k * mss) × Segments (rate / 1024) mss k
quantum_bytes-Segments rate mss hr hm fits =
    let clamped = clamp_segments_lem (target_segments rate mss) in
    let target = target_segments_lem rate mss hm in
    (
      clamp_segments (target_segments rate mss),
      quantum_bytes-eq rate mss _ hr hm fits refl,
      record {
        at_least = clamped.0;
        at_most = clamped.1;
        no_more = elim clamped.2 [
          | inl two ↦ inl two
          | inr le ↦ inr (le_trans (mul-le-mul_right mss le) target.0)
        ];
        no_fewer = elim clamped.3 [
          | inl all ↦ inl all
          | inr le ↦ inr (le_trans target.1 (mul-le-mul_right mss (add_le le)))
        ];
      },
    )
