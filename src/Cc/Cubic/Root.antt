-- ===== src/Cc/Cubic/Root.antt =====
-- The cube root of cc/cubic.c, exact over 64 bits, and the saturating cube.
use Prim.Native.Nat.{min}
use native.Mathlib.Nat.{
  le-div_iff_mul-le, div-lt_iff_lt-mul, mul-le-mul_left, mul-le-mul_right, le_trans,
}
use mathlib.Core.Path.{subst}
use tcp_shift.Prelude.{
  ℕ, zero, suc, ◌+◌, ◌-◌, ◌*◌, ◌/◌, ◌≤◌, ◌<◌, ◌≡◌, inl, inr, ltb, leb, arith, u64, ◌^◌, if_elim,
  Bool-cases, IsU64, u32_max, u64_max,
}
use tcp_shift.Cc.Cubic.Curve.{cube_leq, root_between, cuberoot_floor, cube_sat}

abbrev pub cube : ℕ → ℕ
cube v = v * v * v

-- The two tests of `cube_leq` on a positive number, told of products.
data Compared (v limit : ℕ) : Type 0 where
  over_square : limit / v < v → limit < v * v → Compared v limit
  over_cube :
      v ≤ limit / v → v * v ≤ limit → limit / (v * v) < v → limit < v * (v * v) → Compared v limit
  within :
      v ≤ limit / v → v * v ≤ limit → v ≤ limit / (v * v) → v * (v * v) ≤ limit → Compared v limit

square-pos : (v : ℕ) → 0 < v → 0 < v * v
square-pos zero pos = elim pos [ ]
square-pos (suc v) pos = grind arith

compared : (v limit : ℕ) → 0 < v → Compared v limit
compared v limit pos = elim (Bool-cases (ltb (limit / v) v)) [
  | inl a ↦ let a' : limit / v < v = ground arith in over_square a' ((div-lt_iff_lt-mul pos).0 a')
  | inr b ↦
      let b' : v ≤ limit / v = ground arith in
      let sq = (le-div_iff_mul-le pos).0 b' in
      elim (Bool-cases (ltb (limit / (v * v)) v)) [
        | inl c ↦
            let c' : limit / (v * v) < v = ground arith in
            over_cube b' sq c' ((div-lt_iff_lt-mul (square-pos v pos)).0 c')
        | inr d ↦
            let d' : v ≤ limit / (v * v) = ground arith in
            within b' sq d' ((le-div_iff_mul-le (square-pos v pos)).0 d')
      ]
]

cube_assoc : (v : ℕ) → v * (v * v) ≡ cube v
cube_assoc v = grind arith

cube_leq_positive : (v limit : ℕ) → IsU64 limit → 0 < v → cube_leq v limit ≡ leb (cube v) limit
unfolding cube_leq
cube_leq_positive v limit le pos = elim (compared v limit pos) [
  | over_square a sq ↦
      let more = mul-le-mul_left (v * v) pos in let e = cube_assoc v in ground arith
  | over_cube b sq c cu ↦
      let e = cube_assoc v in
      let small : u64 (v * v) ≡ v * v = omega arith in rw (small) (ground arith)
  | within b sq d cu ↦
      let e = cube_assoc v in
      let small : u64 (v * v) ≡ v * v = omega arith in rw (small) (ground arith)
]

-- The test of one cube against a limit, without the cube: exact over 64 bits.
cube_leq_lem : (v limit : ℕ) → IsU64 limit → cube_leq v limit ≡ leb (cube v) limit
cube_leq_lem zero limit le = unfold cube_leq in ground arith
cube_leq_lem (suc n) limit le = cube_leq_positive (suc n) limit le (omega arith)

-- `r` is the cube root of `value`, rounded down.
pub record IsRoot (value r : ℕ) : Type 0 where
  pub below : cube r ≤ value
  pub above : value < cube (r + 1)

-- Enough fuel for an interval: one round halves it.
root_between-IsRoot :
    (fuel value low high : ℕ)
    → IsU64 value
    → low ≤ high
    → high - low < 2 ^ fuel
    → cube low ≤ value
    → value < cube (high + 1)
    → IsRoot value (root_between fuel value low high)
unfolding root_between
root_between-IsRoot zero value low high le order few below above =
    let same : high ≡ low = omega arith in
    record { below = below; above = subst (λ x. value < cube (x + 1)) same above }
root_between-IsRoot (suc fuel) value low high le order few below above =
    let middle = low + (high - low + 1) / 2 in
    let test = cube_leq_lem middle value le in
    let pow : 2 ^ suc fuel ≡ 2 ^ fuel * 2 = grind arith in
    if_elim (IsRoot value) (ltb low high)
      (λ wide. elim (Bool-cases (cube_leq middle value)) [
        | inl fits ↦ rw (fits) (
            root_between-IsRoot fuel value middle high le (ground arith) (ground arith)
              (ground arith) above)
        | inr not_fits ↦
            let over : value < cube middle = ground arith in
            let same : middle ≡ middle - 1 + 1 = ground arith in
            rw (not_fits) (
              root_between-IsRoot fuel value low (middle - 1) le (ground arith) (ground arith) below
                (subst (λ x. value < cube x) same over))
      ])
      (λ done.
        let same : high ≡ low = ground arith in
        record { below = below; above = subst (λ x. value < cube (x + 1)) same above })

-- For any 64-bit number the binary search ends, and gives the cube root rounded down: its cube is at
-- most the number, and the cube of the next number is more.
pub cuberoot_floor-IsRoot : (value : ℕ) → IsU64 value → IsRoot value (cuberoot_floor value)
unfolding cuberoot_floor
cuberoot_floor-IsRoot value le =
    root_between-IsRoot 32 value 0 u32_max le (omega arith) (omega arith) (omega arith)
      (omega arith)

cube_sat_positive : (v : ℕ) → 0 < v → cube_sat v ≡ min (cube v) u64_max
unfolding cube_sat
cube_sat_positive v pos = elim (compared v u64_max pos) [
  | over_square a sq ↦
      let more = mul-le-mul_left (v * v) pos in let e = cube_assoc v in ground arith
  | over_cube b sq c cu ↦ let e = cube_assoc v in ground arith
  | within b sq d cu ↦ let e = cube_assoc v in ground arith
]

-- The saturating cube is the cube, held to 64 bits.
pub cube_sat_lem : (v : ℕ) → cube_sat v ≡ min (cube v) u64_max
cube_sat_lem zero = unfold cube_sat in ground arith
cube_sat_lem (suc n) = cube_sat_positive (suc n) (omega arith)

pub cube_le : (a b : ℕ) → a ≤ b → cube a ≤ cube b
cube_le a b le =
    let first = mul-le-mul_left a le in
    let second = mul-le-mul_right b le in
    let third = mul-le-mul_left (b * b) le in
    let fourth = mul-le-mul_right a (le_trans first second) in le_trans fourth third
