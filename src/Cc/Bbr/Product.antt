-- ===== src/Cc/Bbr/Product.antt =====
-- The bandwidth-delay product of cc/bbr.c against the product of unbounded numbers.
use Prim.Native.Nat.{min}
use native.Mathlib.Nat.{
  le-div_iff_mul-le, div-lt_iff_lt-mul, div-add-mod', mod-lt, add-mul-div_right,
  add-mul-mod_self_right, mul-le-mul_left, mul-le-mul_right, le_trans,
}
use tcp_shift.Prelude.{
  ℕ, zero, suc, ◌+◌, ◌*◌, ◌/◌, ◌%◌, ◌≤◌, ◌<◌, ◌≡◌, inl, inr, ap, sym, ◌∙◌, true, ◌||◌, ltb, ◌==◌,
  ◌/=◌, arith, if_elim, Bool-cases, if◌then◌else◌, u64_max,
}
use tcp_shift.Cc.Bbr.{billion, sat_add, sat_mul, bdp_whole, bdp_cross, bdp_bytes}

-- The quotient rounded up.
unfoldable pub ceil : ℕ → ℕ → ℕ
ceil n d = n / d + (if n % d /= 0 then 1 else 0)

sat_add-min : (a b : ℕ) → a ≤ u64_max → sat_add a b ≡ min (a + b) u64_max
unfolding sat_add
sat_add-min a b le = ground arith

sat_mul_positive : (a b : ℕ) → 0 < a → 0 < b → sat_mul a b ≡ min (a * b) u64_max
unfolding sat_mul
sat_mul_positive a b pa pb = elim (Bool-cases (ltb (u64_max / b) a)) [
  | inl over ↦
      let past = (div-lt_iff_lt-mul {x = u64_max} {y = a} pb).0 (ground arith) in
      ground (arith, past)
  | inr within ↦
      let fits = (le-div_iff_mul-le {x = a} {y = u64_max} pb).0 (ground arith) in
      ground (arith, fits)
]

sat_mul-min : (a b : ℕ) → sat_mul a b ≡ min (a * b) u64_max
sat_mul-min zero b = unfold sat_mul in ground arith
sat_mul-min (suc a) zero = unfold sat_mul in ground arith
sat_mul-min (suc a) (suc b) = sat_mul_positive (suc a) (suc b) (omega arith) (omega arith)

-- The terms of the product, by the second and the rest of both factors.
terms : ℕ → ℕ → ℕ
terms bw rtt = bw / billion * rtt + bw % billion * (rtt / billion)

split_product :
    (bw rtt q r s t d : ℕ)
    → q * d + r ≡ bw
    → s * d + t ≡ rtt
    → bw * rtt ≡ r * t + (q * rtt + r * s) * d
split_product bw rtt q r s t d e f =
    let g = ap (λ x. x * rtt) e in let h = ap (λ x. r * x) f in grind arith

product_lem : (bw rtt : ℕ) → bw * rtt ≡ bw % billion * (rtt % billion) + terms bw rtt * billion
unfolding terms
product_lem bw rtt =
    split_product bw rtt (bw / billion) (bw % billion) (rtt / billion) (rtt % billion) billion
      (div-add-mod' bw billion) (div-add-mod' rtt billion)

bdp_whole-min : (bw rtt : ℕ) → bdp_whole bw rtt ≡ min (terms bw rtt) u64_max
unfolding bdp_whole terms
bdp_whole-min bw rtt =
    let a = sat_mul-min (bw / billion) rtt in
    let b = sat_mul-min (bw % billion) (rtt / billion) in
    let le : sat_mul (bw / billion) rtt ≤ u64_max = ground arith in
    let c = sat_add-min (sat_mul (bw / billion) rtt) (sat_mul (bw % billion) (rtt / billion)) le in
    ground arith

lt_le : (a b : ℕ) → a < b → a ≤ b
lt_le a b h = omega arith

bdp_cross-eq : (bw rtt : ℕ) → bdp_cross bw rtt ≡ bw % billion * (rtt % billion)
unfolding bdp_cross
bdp_cross-eq bw rtt =
    let r : bw % billion < billion = mod-lt bw (omega arith) in
    let s : rtt % billion < billion = mod-lt rtt (omega arith) in
    let first = mul-le-mul_right (rtt % billion) (lt_le _ _ r) in
    let second = mul-le-mul_left billion (lt_le _ _ s) in
    let small = le_trans first second in omega (arith, small)

-- The rounding of the whole quotient is that of its cross term.
ceil_shift : (c a d : ℕ) → 0 < d → ceil (c + a * d) d ≡ a + ceil c d
unfolding ceil
ceil_shift c a d pos =
    let same_rest = add-mul-mod_self_right c a d in
    let quotient = add-mul-div_right c a pos in ground (arith, same_rest, quotient)

-- The last steps of `bdp_bytes`, for any terms.
rounded :
    (whole a c : ℕ)
    → whole ≡ min a u64_max
    → (if whole == u64_max
        then u64_max
        else if sat_add whole (c / billion) == u64_max
        then u64_max
        else if c % billion /= 0
        then sat_add (sat_add whole (c / billion)) 1
        else sat_add whole (c / billion))
      ≡ min (a + ceil c billion) u64_max
unfolding ceil sat_add
rounded whole a c e = ground arith

in_parts : (bw rtt : ℕ) → terms bw rtt + ceil (bdp_cross bw rtt) billion ≡ ceil (bw * rtt) billion
in_parts bw rtt =
    rw (bdp_cross-eq bw rtt, product_lem bw rtt)
      (sym (ceil_shift (bw % billion * (rtt % billion)) (terms bw rtt) billion (omega arith)))

ceil_zero : (bw rtt : ℕ) → (bw == 0 || rtt == 0) ≡ true → ceil (bw * rtt) billion ≡ 0
unfolding ceil
ceil_zero zero rtt e = ground arith
ceil_zero (suc bw) zero e = ground arith
ceil_zero (suc bw) (suc rtt) e = ground arith

-- For any bandwidth and round-trip time, the product computed in parts is the exact product of the
-- unbounded numbers over a billion, rounded up, and held to 64 bits where it exceeds them.
pub bdp_bytes-exact : (bw rtt : ℕ) → bdp_bytes bw rtt ≡ min (ceil (bw * rtt) billion) u64_max
unfolding bdp_bytes
bdp_bytes-exact bw rtt =
    if_elim (λ x. x ≡ min (ceil (bw * rtt) billion) u64_max) (bw == 0 || rtt == 0)
      (λ none_left. let z = ceil_zero bw rtt none_left in ground arith)
      (λ _.
        rounded (bdp_whole bw rtt) (terms bw rtt) (bdp_cross bw rtt) (bdp_whole-min bw rtt)
        ∙ ap (λ x. min x u64_max) (in_parts bw rtt))
