-- ===== src/Cc/Registry.antt =====
-- The lookup of built-in controllers by name, at the end of cc/reno.c. A name is its bytes before
-- the zero that ends it, `none` for a null pointer.
pub mod Names
use tcp_shift.Prelude.{
  ℕ, Bool, true, false, ◌==◌, if◌then◌else◌, Option, none, some, List, [], ◌∷◌, codes,
}

-- The operations that the lookup answers with: `tcp_shift_reno_ops` or `tcp_shift_cubic_ops`.
pub data Builtin : Type 0 where
  reno cubic : Builtin

-- The loop, with its last comparison.
unfoldable pub text_equal : List ℕ → List ℕ → Bool
text_equal [] [] = true
text_equal [] (y ∷ ys) = 0 == y
text_equal (x ∷ xs) [] = x == 0
text_equal (x ∷ xs) (y ∷ ys) = if x == y then text_equal xs ys else false

unfoldable pub name_equal : Option (List ℕ) → Option (List ℕ) → Bool
name_equal (some left) (some right) = text_equal left right
name_equal _ _ = false

unfoldable pub find_ops : Option (List ℕ) → Option Builtin
find_ops name =
    if name_equal name (some (codes "reno"))
    then some reno
    else if name_equal name (some (codes "cubic"))
    then some cubic
    else none

unfoldable pub default_ops : Builtin
default_ops = reno
