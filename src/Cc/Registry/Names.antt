-- ===== src/Cc/Registry/Names.antt =====
-- The name comparison decides equality of texts, and so each built-in has one name.
use tcp_shift.Prelude.{
  ℕ, ◌<◌, ◌≡◌, ◌≢◌, ◌⊎◌, inl, inr, refl, true, false, ◌==◌, ==_iff, none, some, List, [], ◌∷◌,
  codes, arith, Bool-cases,
}
use tcp_shift.Cc.Registry.{reno, cubic, text_equal, name_equal, find_ops}

-- Bytes of a text: none of them is zero.
pub data IsText : List ℕ → Type 0 where
  ended : IsText []
  byte : (c : ℕ) (cs : List ℕ) → 0 < c → IsText cs → IsText (c ∷ cs)

text_equal_refl : (xs : List ℕ) → text_equal xs xs ≡ true
unfolding text_equal
text_equal_refl [] = refl
text_equal_refl (x ∷ xs) = let rest = text_equal_refl xs in ground arith

text_equal_sound : (xs ys : List ℕ) → IsText xs → IsText ys → text_equal xs ys ≡ true → xs ≡ ys
unfolding text_equal
text_equal_sound [] [] a b e = refl
text_equal_sound [] (y ∷ ys) a (byte _ _ h _) e = ground arith
text_equal_sound (x ∷ xs) [] (byte _ _ h _) b e = ground arith
text_equal_sound (x ∷ xs) (y ∷ ys) (byte _ _ _ a) (byte _ _ _ b) e = elim (Bool-cases (x == y)) [
  | inl same ↦
      let rest = text_equal_sound xs ys a b (ground arith) in let head = (==_iff x y).0 same in cc
  | inr other ↦ ground arith
]

reno-IsText : IsText (codes "reno")
reno-IsText =
    byte _ _ (omega arith)
      (byte _ _ (omega arith) (byte _ _ (omega arith) (byte _ _ (omega arith) ended)))

cubic-IsText : IsText (codes "cubic")
cubic-IsText = byte _ _ (omega arith) (
    byte _ _ (omega arith)
      (byte _ _ (omega arith) (byte _ _ (omega arith) (byte _ _ (omega arith) ended))))

not_equal : (name other : List ℕ) → text_equal name other ≡ false → name ≢ other
not_equal name other e same =
    let yes : text_equal name other ≡ true = rw same (text_equal_refl other) in ground arith

find_later :
    (name : List ℕ)
    → IsText name
    → text_equal name (codes "reno") ≡ false
    → (find_ops (some name) ≡ some reno × (name ≡ codes "reno"))
      ⊎ ((find_ops (some name) ≡ some cubic × (name ≡ codes "cubic"))
          ⊎ (find_ops (some name) ≡ none × (name ≢ codes "reno") × (name ≢ codes "cubic")))
unfolding find_ops name_equal
find_later name text e = elim (Bool-cases (text_equal name (codes "cubic"))) [
  | inl same ↦
      let text_eq = text_equal_sound name _ text cubic-IsText same in
      inr (inl (rw (e, same) refl, text_eq))
  | inr other ↦ inr (inr (rw (e, other) refl, not_equal name _ e, not_equal name _ other))
]

-- The lookup of a text answers Reno for "reno" and CUBIC for "cubic", and for those only.
pub find_ops_exact :
    (name : List ℕ)
    → IsText name
    → (find_ops (some name) ≡ some reno × (name ≡ codes "reno"))
      ⊎ ((find_ops (some name) ≡ some cubic × (name ≡ codes "cubic"))
          ⊎ (find_ops (some name) ≡ none × (name ≢ codes "reno") × (name ≢ codes "cubic")))
unfolding find_ops name_equal
find_ops_exact name text = elim (Bool-cases (text_equal name (codes "reno"))) [
  | inl same ↦ let e = text_equal_sound name _ text reno-IsText same in inl (rw same refl, e)
  | inr other ↦ find_later name text other
]
