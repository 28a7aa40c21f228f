-- ===== src/Prelude/Words.antt =====
-- The limits of the C integer types, and the saturating arithmetic that the components write out
-- for themselves.
use Prim.Native.Nat.{ℕ, ◌≤◌, ◌%◌}

-- UINT32_MAX, UINT64_MAX and SIZE_MAX
abbrev pub u32_max : ℕ
u32_max = 4294967295

abbrev pub u64_max : ℕ
u64_max = 18446744073709551615

-- What an operation on a wrapping type leaves.
abbrev pub u32 : ℕ → ℕ
u32 n = n % 4294967296

abbrev pub u64 : ℕ → ℕ
u64 n = n % 18446744073709551616

abbrev pub IsU32 : ℕ → Type 0
IsU32 n = n ≤ u32_max

abbrev pub IsU64 : ℕ → Type 0
IsU64 n = n ≤ u64_max
