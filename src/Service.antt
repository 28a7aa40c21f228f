-- ===== src/Service.antt =====
-- The configuration file of the service, service_config.c: the texts of a line. A text is its bytes
-- before the zero that ends it; a return of -1 is `none`. `Fields` has the values of keys, `File` the
-- lines of a file and the checks over the whole.
pub mod Fields
pub mod File
pub mod Quoting
pub mod Forward
pub mod Accepted
use tcp_shift.Prelude.{
  ℕ, zero, suc, ◌+◌, ◌-◌, ◌≤◌, Bool, true, false, not, ◌&&◌, ◌||◌, Option, none, some, ltb, leb,
  ◌==◌, if◌then◌else◌, List, [], ◌∷◌, ◌++◌, length, codes,
}

-- What the C library answers. A failing call is `none`; `strtoul` answers with the number and the text
-- behind it.
pub record Library : Type 0 where
  pub isspace : ℕ → Bool
  pub isalnum : ℕ → Bool
  pub strtoul : List ℕ → Option (ℕ × List ℕ)
  pub inet_pton : ℕ → List ℕ → Option (List ℕ)  -- the first argument is 4 or 6
  pub inet_ntop : ℕ → List ℕ → ℕ → Option (List ℕ)
  pub decimal : ℕ → List ℕ  -- %lu of snprintf

-- strcmp of two texts, as a test for 0.
unfoldable pub same_text : List ℕ → List ℕ → Bool
same_text [] [] = true
same_text [] (y ∷ ys) = false
same_text (x ∷ xs) [] = false
same_text (x ∷ xs) (y ∷ ys) = if x == y then same_text xs ys else false

-- strchr: the texts before and behind the first such byte.
unfoldable pub split_first : ℕ → List ℕ → Option (List ℕ × List ℕ)
split_first c [] = none
split_first c (x ∷ xs) =
    let rest = split_first c xs in
    if x == c then some ([], xs) else elim rest [ none ↦ none | some (a, b) ↦ some (x ∷ a, b) ]

-- strrchr: those before and behind the last one.
unfoldable pub split_last : ℕ → List ℕ → Option (List ℕ × List ℕ)
split_last c [] = none
split_last c (x ∷ xs) = elim (split_last c xs) [
  | some (a, b) ↦ some (x ∷ a, b)
  | none ↦ if x == c then some ([], xs) else none
]

unfoldable pub trim_left : Library → List ℕ → List ℕ
trim_left l [] = []
trim_left l (x ∷ xs) = let rest = trim_left l xs in if l.isspace x then rest else x ∷ xs

unfoldable pub trim_right : Library → List ℕ → List ℕ
trim_right l [] = []
trim_right l (x ∷ xs) = elim (trim_right l xs) [
  | [] ↦ if l.isspace x then [] else x ∷ []
  | y ∷ ys ↦ x ∷ y ∷ ys
]

unfoldable pub trim : Library → List ℕ → List ℕ
trim l text = trim_right l (trim_left l text)

-- The loop of `strip_comment`, with `quoted` and `escaped`.
unfoldable pub strip_from : Bool → Bool → List ℕ → List ℕ
strip_from quoted escaped [] = []
strip_from true true (c ∷ cs) = c ∷ strip_from true false cs
strip_from true false (c ∷ cs) =
    c
    ∷ (if c == 92
        then strip_from true true cs
        else if c == 34
        then strip_from false false cs
        else strip_from true false cs)
strip_from false escaped (c ∷ cs) =
    if c == 34
    then c ∷ strip_from true escaped cs
    else if c == 35
    then []
    else c ∷ strip_from false escaped cs

unfoldable pub strip_comment : List ℕ → List ℕ
strip_comment text = strip_from false false text

-- The byte that an escape stands for.
unfoldable pub escape : ℕ → Option ℕ
escape c =
    if c == 92
    then some 92
    else if c == 34
    then some 34
    else if c == 110
    then some 10
    else if c == 114
    then some 13
    else if c == 116
    then some 9
    else none

-- A byte put out, if there is room for it and for the zero behind.
abbrev pub emit : ℕ → Option (List ℕ) → Option (List ℕ)
emit c none = none
emit c (some cs) = some (c ∷ cs)

-- The loop of `parse_string` over the bytes between the quotes; `room` is what the buffer still takes.
unfoldable pub unescape : Bool → ℕ → List ℕ → Option (List ℕ)
unescape false room [] = some []
unescape true room [] = none
unescape false zero (c ∷ cs) = if c == 92 then unescape true zero cs else none
unescape false (suc room) (c ∷ cs) =
    if c == 92
    then unescape true (suc room) cs
    else if c == 34 || ltb c 32
    then none
    else emit c (unescape false room cs)
unescape true zero (c ∷ cs) = none
unescape true (suc room) (c ∷ cs) = elim (escape c) [
  | none ↦ none
  | some d ↦ emit d (unescape false room cs)
]

-- What stands before a closing quote.
unfoldable pub unclose : List ℕ → Option (List ℕ)
unclose [] = none
unclose (c ∷ []) = if c == 34 then some [] else none
unclose (c ∷ d ∷ cs) = emit c (unclose (d ∷ cs))

abbrev pub unescape_all : ℕ → Option (List ℕ) → Option (List ℕ)
unescape_all room none = none
unescape_all room (some cs) = unescape false room cs

unfoldable pub parse_string : List ℕ → ℕ → Option (List ℕ)
parse_string [] output_size = none
parse_string (c ∷ cs) output_size =
    if c == 34 then unescape_all (output_size - 1) (unclose cs) else none
