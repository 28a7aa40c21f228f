-- ===== src/Service/Quoting.antt =====
-- Texts written in quotes, as service_config.c reads them back.
use tcp_shift.Prelude.{
  ℕ, zero, suc, ◌-◌, ◌≤◌, ◌<◌, ◌≡◌, ◌⊎◌, refl, ap, ◌∙◌, true, false, some, ◌==◌, if◌then◌else◌,
  List, [], ◌∷◌, length, arith,
}
use tcp_shift.Service.{escape, strip_from, strip_comment, emit, unescape, unclose, parse_string}

-- A byte as it is written: with an escape where it has one.
unfoldable pub written : ℕ → List ℕ → List ℕ
written c rest =
    if c == 92
    then 92 ∷ 92 ∷ rest
    else if c == 34
    then 92 ∷ 34 ∷ rest
    else if c == 10
    then 92 ∷ 110 ∷ rest
    else if c == 13
    then 92 ∷ 114 ∷ rest
    else if c == 9
    then 92 ∷ 116 ∷ rest
    else c ∷ rest

unfoldable pub written_all : List ℕ → List ℕ → List ℕ
written_all [] rest = rest
written_all (c ∷ cs) rest = written c (written_all cs rest)

-- A text in quotes, before a rest.
unfoldable pub quote : List ℕ → List ℕ → List ℕ
quote text rest = 34 ∷ written_all text (34 ∷ rest)

-- Bytes that can be written: no control codes but a tab, a line feed and a carriage return.
pub data Printable : List ℕ → Type 0 where
  ended : Printable []
  byte :
      (c : ℕ) (cs : List ℕ)
      → (32 ≤ c) ⊎ ((c ≡ 9) ⊎ ((c ≡ 10) ⊎ (c ≡ 13)))
      → Printable cs
      → Printable (c ∷ cs)

strip_from-written :
    (c : ℕ) (rest : List ℕ)
    → strip_from true false (written c rest) ≡ written c (strip_from true false rest)
unfolding written strip_from
strip_from-written c rest = ground arith

strip_from-written_all :
    (cs rest : List ℕ)
    → strip_from true false (written_all cs rest) ≡ written_all cs (strip_from true false rest)
unfolding written_all
strip_from-written_all [] rest = refl
strip_from-written_all (c ∷ cs) rest =
    strip_from-written c (written_all cs rest) ∙ ap (written c) (strip_from-written_all cs rest)

strip_comment-quote : (text rest : List ℕ) → strip_comment (quote text (35 ∷ rest)) ≡ quote text []
unfolding strip_comment quote strip_from
strip_comment-quote text rest = ap (λ xs. 34 ∷ xs) (strip_from-written_all text (34 ∷ 35 ∷ rest))

unclose_step : (c : ℕ) (xs ys : List ℕ) → unclose xs ≡ some ys → unclose (c ∷ xs) ≡ some (c ∷ ys)
unfolding unclose
unclose_step c [] ys e = ground arith
unclose_step c (x ∷ xs) ys e = ap (emit c) e

unclose-written :
    (c : ℕ) (xs ys : List ℕ) → unclose xs ≡ some ys → unclose (written c xs) ≡ some (written c ys)
unfolding written
unclose-written c xs ys e =
    let one = unclose_step c xs ys e in
    let two = λ (d : ℕ). unclose_step 92 (d ∷ xs) (d ∷ ys) (unclose_step d xs ys e) in
    ground (arith, two 92, two 34, two 110, two 114, two 116)

unclose-written_all : (cs : List ℕ) → unclose (written_all cs (34 ∷ [])) ≡ some (written_all cs [])
unfolding written_all
unclose-written_all [] = unfold unclose in refl
unclose-written_all (c ∷ cs) = unclose-written c _ _ (unclose-written_all cs)

-- A byte that can be written is read back.
unescape-written :
    (c room : ℕ) (xs : List ℕ)
    → (32 ≤ c) ⊎ ((c ≡ 9) ⊎ ((c ≡ 10) ⊎ (c ≡ 13)))
    → unescape false (suc room) (written c xs) ≡ emit c (unescape false room xs)
unfolding written unescape escape
unescape-written c room xs ok = ground arith

unescape-written_all :
    (cs : List ℕ) (room : ℕ)
    → Printable cs
    → length cs ≤ room
    → unescape false room (written_all cs []) ≡ some cs
unfolding written_all
unescape-written_all [] room p le = unfold unescape in refl
unescape-written_all (c ∷ cs) zero p le = ground arith
unescape-written_all (c ∷ cs) (suc room) (byte _ _ ok p) le =
    unescape-written c room (written_all cs []) ok
    ∙ ap (emit c) (unescape-written_all cs room p (omega arith))

-- Any text of printable bytes that leaves room for the zero, written in quotes with escapes and followed
-- by any comment, is read back as it was: the comment is stripped at the quote's end and nowhere else,
-- and the quotes and escapes are undone.
pub parse_string-quote :
    (text comment : List ℕ) (size : ℕ)
    → Printable text
    → length text < size
    → parse_string (strip_comment (quote text (35 ∷ comment))) size ≡ some text
parse_string-quote text comment size p fits = rw (strip_comment-quote text comment) (
    unfold parse_string quote in
    rw (unclose-written_all text) (unescape-written_all text (size - 1) p (omega arith)))
