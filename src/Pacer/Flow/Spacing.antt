-- ===== src/Pacer/Flow/Spacing.antt =====
-- The spacing between two sends is the exact quotient of bytes by rate, rounded up.
use native.Mathlib.Nat.{div-add-mod', div-le_self, mod-lt}
use tcp_shift.Prelude.{
  ℕ, zero, suc, ◌+◌, ◌*◌, ◌/◌, ◌%◌, ◌≤◌, ◌<◌, ◌≡◌, ◌/=◌, inl, inr, arith, IsU32, u64, u64_max,
  Bool-cases,
}
use tcp_shift.Pacer.Flow.{spacing_ns, quotient_up, nsec_per_sec}

pos_of_mul : (a b : ℕ) → 0 < a * b → 0 < a
pos_of_mul zero b h = omega arith
pos_of_mul (suc a) b h = omega arith

quotient_up_lem :
    (n d : ℕ) → 0 < d → n < u64_max → (n ≤ quotient_up n d * d) × (quotient_up n d * d < n + d)
unfolding quotient_up
quotient_up_lem n d hd hn = elim (Bool-cases (n % d /= 0)) [
  | inl e ↦
      let no_wrap : u64 (n / d + 1) ≡ n / d + 1 = omega (arith, div-le_self n d) in
      rw (e, no_wrap) (ground (arith, div-add-mod' n d, mod-lt n hd))
  | inr e ↦ rw e (ground (arith, div-add-mod' n d, mod-lt n hd))
]

pub spacing_ns-eq :
    (bytes rate : ℕ)
    → 0 < bytes
    → IsU32 bytes
    → 0 < rate
    → (spacing_ns bytes rate ≡ quotient_up (bytes * nsec_per_sec) rate)
      × (0 < spacing_ns bytes rate)
unfolding spacing_ns
spacing_ns-eq bytes rate hb hs hr =
    let n_eq : u64 (bytes * nsec_per_sec) ≡ bytes * nsec_per_sec = omega arith in
    let n = bytes * nsec_per_sec in
    let (lo, hi) = quotient_up_lem n rate hr (omega arith) in
    let some_time : 0 < quotient_up n rate = pos_of_mul (quotient_up n rate) rate (omega arith) in
    rw n_eq (ground arith)

-- For a rate above 0 and 1 to 2 ^ 32 - 1 bytes, the spacing is the least number of nanoseconds in
-- which `rate` lets `bytes` bytes through: at the
-- rate, the spacing covers the bytes, and a nanosecond less does not.
pub spacing_ns-least :
    (bytes rate : ℕ)
    → 0 < bytes
    → IsU32 bytes
    → 0 < rate
    → (bytes * nsec_per_sec ≤ spacing_ns bytes rate * rate)
      × (spacing_ns bytes rate * rate < bytes * nsec_per_sec + rate)
spacing_ns-least bytes rate hb hs hr =
    rw ((spacing_ns-eq bytes rate hb hs hr).0)
      (quotient_up_lem (bytes * nsec_per_sec) rate hr (omega arith))
