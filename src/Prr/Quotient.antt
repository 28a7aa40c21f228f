-- ===== src/Prr/Quotient.antt =====
-- The two-part product agrees with the quotient that RFC 9937 asks for, over unbounded numbers.
use native.Mathlib.Nat.{div-add-mod', mod-lt, div-le_self}
use tcp_shift.Prelude.{
  ℕ, ◌+◌, ◌*◌, ◌/◌, ◌%◌, ◌≤◌, ◌<◌, ◌≡◌, refl, ap, ◌⊎◌, inl, inr, ◌/=◌, ◌==◌, ltb, arith, IsU32,
  IsU64, u64, u32_max, u64_max, Bool-cases, if◌then◌else◌, if_elim,
}
use tcp_shift.Prr.{div_round_up_product, add_sat_u64}

-- `q` is the quotient of `n` by `d`, rounded up.
abbrev pub IsCeil : ℕ → ℕ → ℕ → Type 0
IsCeil n d q = (n ≤ q * d) × (q * d < n + d)

-- The quotient and the remainder of `n`, joined, are the quotient rounded up.
round_up : (n d : ℕ) → 0 < d → IsCeil n d (n / d + (if n % d /= 0 then 1 else 0))
round_up n d h = elim (Bool-cases (n % d /= 0)) [
  | inl e ↦ rw e (ground (arith, div-add-mod' n d, mod-lt n h))
  | inr e ↦ rw e (ground (arith, div-add-mod' n d, mod-lt n h))
]

pub add_sat_u64-cases :
    (a b : ℕ)
    → b ≤ u64_max
    → a ≤ u64_max
    → ((add_sat_u64 a b ≡ u64_max) × (u64_max < a + b)) ⊎ (add_sat_u64 a b ≡ a + b)
unfolding add_sat_u64
add_sat_u64-cases a b h k = ground arith

mul_bound : (a b m n : ℕ) → a ≤ m → b ≤ n → a * b ≤ m * n
mul_bound a b m n h k = grind arith

module _ (value m d : ℕ) (hv : IsU64 value) (hm : IsU32 m) (hd : IsU32 d) (pm : 0 < m)
    (pd : 0 < d) where
  -- The scaled remainder, as the source computes it.
  scaled : ℕ
  scaled =
      let product = u64 (value % d * m) in u64 (product / d + (if product % d /= 0 then 1 else 0))

  scaled-IsCeil : IsCeil (value % d * m) d scaled × (scaled ≤ value % d * m + 1)
  unfolding scaled
  scaled-IsCeil =
      let n = value % d * m in
      let small = mul_bound (value % d) m u32_max u32_max (omega (arith, mod-lt value pd)) hm in
      let n_eq : u64 n ≡ n = omega (arith, small) in
      let up = n / d + (if n % d /= 0 then 1 else 0) in
      let up_le : up ≤ n + 1 = ground (arith, div-le_self n d) in
      let up_eq : u64 up ≡ up = omega (arith, small, up_le) in
      rw (n_eq, up_eq) (round_up n d pd, up_le)

  joined-IsCeil : IsCeil (value * m) d (value / d * m + scaled)
  joined-IsCeil = omega (arith, scaled-IsCeil, ap (λ (t : ℕ). t * m) (div-add-mod' value d))

  over : u64_max < value / d * m + scaled → u64_max * d < value * m
  over h = omega (
    arith,
    joined-IsCeil,
    mul_bound (u64_max + 1) d (value / d * m + scaled) d (omega arith) (omega arith),
  )

  -- The quotient itself is beyond the range.
  over_large : u64_max / m < value / d → u64_max * d < value * m
  over_large h =
      let past : u64_max < value / d * m = omega (
        arith,
        div-add-mod' u64_max m,
        mod-lt u64_max pm,
        mul_bound (u64_max / m + 1) m (value / d) m (omega arith) (omega arith),
      ) in
      over (omega (arith, past))

  no_wrap : value / d ≤ u64_max / m → u64 (value / d * m) ≡ value / d * m
  no_wrap h =
      omega (arith, div-add-mod' u64_max m, mul_bound (value / d) m (u64_max / m) m h (omega arith))

  scaled-small : scaled ≤ u64_max
  unfolding scaled
  scaled-small = omega arith

  sum-small : value / d ≤ u64_max / m → value / d * m ≤ u64_max
  sum-small h =
      omega (arith, div-add-mod' u64_max m, mul_bound (value / d) m (u64_max / m) m h (omega arith))

-- For 32-bit factors, dividing first loses nothing: unless it saturates, the result is the least
-- integer that is at least `value * multiplier / divisor`, and it saturates only if that exceeds
-- the 64-bit range.
pub div_round_up_product-IsCeil :
    (value multiplier divisor : ℕ)
    → IsU64 value
    → IsU32 multiplier
    → IsU32 divisor
    → 0 < multiplier
    → 0 < divisor
    → IsCeil (value * multiplier) divisor (div_round_up_product value multiplier divisor)
      ⊎ ((div_round_up_product value multiplier divisor ≡ u64_max)
          × (u64_max * divisor < value * multiplier))
unfolding div_round_up_product scaled
div_round_up_product-IsCeil value m d hv hm hd pm pd =
    let P = λ (r : ℕ). IsCeil (value * m) d r ⊎ ((r ≡ u64_max) × (u64_max * d < value * m)) in
    let whole = value / d * m in
    let part = scaled value m d hv hm hd pm pd in
    if_elim P (d == 0) (λ z. absurd (ground arith))
      (λ _.
        if_elim P (ltb (u64_max / m) (value / d))
          (λ large. inr (refl, over_large value m d hv hm hd pm pd (ground arith)))
          (λ fine.
            let bounded : value / d ≤ u64_max / m = ground arith in
            let small = sum-small value m d hv hm hd pm pd bounded in
            rw (no_wrap value m d hv hm hd pm pd bounded)
              (elim (add_sat_u64-cases whole part (scaled-small value m d hv hm hd pm pd) small) [
                | inl (full, past) ↦ inr (full, over value m d hv hm hd pm pd past)
                | inr exact ↦ inl (rw exact (joined-IsCeil value m d hv hm hd pm pd))
              ])))
