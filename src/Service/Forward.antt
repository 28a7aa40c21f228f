-- ===== src/Service/Forward.antt =====
-- The tables of a configuration file that service_config.c accepts.
use tcp_shift.Prelude.{
  not_stopped, some-inj, ℕ, ◌+◌, ◌≡◌, refl, sym, ap, ◌∙◌, Bool, true, false, ◌||◌, Option, none,
  some, ltb, ◌==◌, if◌then◌else◌, List, [], ◌∷◌, length, codes, arith,
}
use tcp_shift.Service.{Library, same_text, split_first, trim}
use tcp_shift.Service.Fields.{and_then, parse_unsigned}
use tcp_shift.Service.File.{
  ServiceConfig, Reading, no_reading, text_once, assign_forward, set_version, set_cc,
  set_firewall_backend, set_tun_name, set_tun_host, set_tun_guest, assign, read_assignment,
  read_text, line_text, unless_zero, read_line, read_lines, finalize_config, config_load,
}
use tcp_shift.Service.Accepted.{and_then-some, Valid, finalize_config-Valid}

abbrev pub is_table : Library → List ℕ → Bool
is_table l line = same_text (line_text l line) (codes "[[forward]]")

-- The lines that begin the table.
abbrev pub tables : Library → List (List ℕ) → ℕ
tables l [] = 0
tables l (line ∷ lines) = (if is_table l line then 1 else 0) + tables l lines

abbrev seen : Reading → ℕ
seen r = if r.have_forward then 1 else 0

-- A reading that ends with as many tables as it has seen.
abbrev Keeps : Reading → Option Reading → Type 0
Keeps r o = (r' : Reading) → o ≡ some r' → r'.have_forward ≡ r.have_forward

and_then-Keeps {ℓ} :
    {A : Type ℓ} (r : Reading) (o : Option A) (f : A → Option Reading)
    → ((a : A) → Keeps r (f a))
    → Keeps r (and_then o f)
and_then-Keeps r none f k r' e = ground arith
and_then-Keeps r (some a) f k r' e = k a r' e

some-Keeps : (r q : Reading) → q.have_forward ≡ r.have_forward → Keeps r (some q)
some-Keeps r q same r' e = ap (λ (x : Reading). x.have_forward) (sym (some-inj q r' e)) ∙ same

none-Keeps : (r : Reading) → Keeps r none
none-Keeps r r' e = ground arith

if-Keeps :
    (r : Reading) (t : Bool) (a b : Option Reading)
    → Keeps r a
    → Keeps r b
    → Keeps r (if t then a else b)
if-Keeps r true a b x y = x
if-Keeps r false a b x y = y

assign_forward-Keeps : (r : Reading) (key value : List ℕ) → Keeps r (assign_forward r key value)
unfolding assign_forward
assign_forward-Keeps r key value =
    if-Keeps r (same_text key (codes "listen")) _ _
      (and_then-Keeps r (text_once r.have_listen value 128) _ (λ text. some-Keeps r _ refl))
      (if-Keeps r (same_text key (codes "backend")) _ _
        (and_then-Keeps r (text_once r.have_backend value 128) _ (λ text. some-Keeps r _ refl))
        (none-Keeps r))

assign-Keeps : (l : Library) (r : Reading) (key value : List ℕ) → Keeps r (assign l r key value)
unfolding assign set_version set_cc set_firewall_backend set_tun_name set_tun_host set_tun_guest
assign-Keeps l r key value =
    if-Keeps r (same_text key (codes "version")) _ _
      (if-Keeps r r.have_version _ _ (none-Keeps r)
        (and_then-Keeps r (parse_unsigned l value 4294967295) _ (λ n. some-Keeps r _ refl)))
      (if-Keeps r (same_text key (codes "cc")) _ _
        (and_then-Keeps r (text_once r.have_cc value 16) _ (λ text. some-Keeps r _ refl))
        (if-Keeps r (same_text key (codes "firewall_backend")) _ _
          (and_then-Keeps r (text_once r.have_firewall_backend value 16) _
            (λ text. if-Keeps r _ _ _ (some-Keeps r _ refl) (none-Keeps r)))
          (if-Keeps r (same_text key (codes "tun_name")) _ _
            (and_then-Keeps r (text_once r.have_tun_name value 16) _ (λ text. some-Keeps r _ refl))
            (if-Keeps r (same_text key (codes "tun_host_address")) _ _
              (and_then-Keeps r (text_once r.have_tun_host value 64) _
                (λ text. some-Keeps r _ refl))
              (if-Keeps r (same_text key (codes "tun_guest_address")) _ _
                (and_then-Keeps r (text_once r.have_tun_guest value 64) _
                  (λ text. some-Keeps r _ refl))
                (none-Keeps r))))))

read_assignment-Keeps :
    (l : Library) (r : Reading) (key value : List ℕ) → Keeps r (read_assignment l r key value)
unfolding read_assignment
read_assignment-Keeps l r key value =
    if-Keeps r (length key == 0 || length value == 0) _ _ (none-Keeps r)
      (if-Keeps r r.in_forward _ _ (assign_forward-Keeps r key value) (assign-Keeps l r key value))

same_seen : (r r' : Reading) → r'.have_forward ≡ r.have_forward → seen r + 0 ≡ seen r'
same_seen r r' e = ground arith

-- A text that begins the table, and one that does not.
counted :
    (r : Reading) (t : Bool) (b : Option Reading)
    → Keeps r b
    → (r' : Reading)
    → (if t
        then (if r.have_forward
            then none
            else some (record r { have_forward = true; in_forward = true }))
        else b)
      ≡ some r'
    → seen r + (if t then 1 else 0) ≡ seen r'
counted r true b k r' e =
    let (fresh, f) = not_stopped r.have_forward _ r' e in
    let now : true ≡ r'.have_forward = ap (λ (x : Reading). x.have_forward) (some-inj _ r' f) in
    ground arith
counted r false b k r' e = same_seen r r' (k r' e)

-- A line counts the table that it begins.
read_text-seen :
    (l : Library) (r : Reading) (text : List ℕ) (r' : Reading)
    → read_text l r text ≡ some r'
    → seen r + (if same_text text (codes "[[forward]]") then 1 else 0) ≡ seen r'
unfolding read_text
read_text-seen l r [] r' e =
    unfold same_text in
    same_seen r r' (ap (λ (x : Reading). x.have_forward) (sym (some-inj r r' e)))
read_text-seen l r (c ∷ cs) r' e =
    counted r (same_text (c ∷ cs) (codes "[[forward]]")) _
      (if-Keeps r (c == 91) _ _ (none-Keeps r) (
        and_then-Keeps r (split_first 61 (c ∷ cs)) _
          (λ (p : List ℕ × List ℕ). read_assignment-Keeps l r (trim l p.0) (trim l p.1))))
      r' e

unless_zero-some :
    (o : Option (List ℕ × List ℕ)) (x : Option Reading) (r : Reading)
    → unless_zero o x ≡ some r
    → x ≡ some r
unless_zero-some none x r e = e
unless_zero-some (some _) x r e = ground arith

read_line-seen :
    (l : Library) (total : ℕ) (r : Reading) (line : List ℕ) (r' : Reading)
    → read_line l total r line ≡ some r'
    → seen r + (if is_table l line then 1 else 0) ≡ seen r'
unfolding read_line
read_line-seen l total r line r' e =
    let (_, f) = not_stopped (ltb 1048576 total) _ r' e in
    read_text-seen l r (line_text l line) r' (unless_zero-some (split_first 0 line) _ r' f)

read_lines-seen :
    (l : Library) (total : ℕ) (r : Reading) (lines : List (List ℕ)) (r' : Reading)
    → read_lines l total r lines ≡ some r'
    → seen r + tables l lines ≡ seen r'
unfolding read_lines
read_lines-seen l total r [] r' e =
    same_seen r r' (ap (λ (x : Reading). x.have_forward) (sym (some-inj r r' e)))
read_lines-seen l total r (line ∷ lines) r' e =
    let count = total + length line in
    let (q, first, rest) = and_then-some (read_line l count r line) _ r' e in
    let one = read_line-seen l count r line q first in
    let more = read_lines-seen l count q lines r' rest in omega (arith, one, more)

-- Whatever the C library answers, a file whose lines are accepted has exactly one line that begins the
-- table of the forward, and gives a configuration of version 1 with valid names, ports from 1 to 65535,
-- an IP version of 4 or 6, and two different ends of the tunnel.
pub config_load-Valid :
    (l : Library) (lines : List (List ℕ)) (c : ServiceConfig)
    → config_load l lines ≡ some c
    → Valid l c × (tables l lines ≡ 1)
unfolding config_load
config_load-Valid l lines c e =
    let (r, is_read, f) = and_then-some (read_lines l 0 no_reading lines) (finalize_config l) c e in
    let (valid, forward) = finalize_config-Valid l r c f in
    let count = read_lines-seen l 0 no_reading lines r is_read in (valid, ground arith)
