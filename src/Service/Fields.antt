-- ===== src/Service/Fields.antt =====
-- The values of the configuration's keys, service_config.c: numbers, names and addresses.
use tcp_shift.Prelude.{
  ℕ, ◌-◌, ◌*◌, ◌/◌, ◌%◌, ◌^◌, Bool, true, false, not, ◌&&◌, ◌||◌, Option, none, some, ltb, leb,
  ◌==◌, if◌then◌else◌, List, [], ◌∷◌, ◌++◌, length, codes,
}
use tcp_shift.Service.{Library, same_text, split_first, split_last}

abbrev pub address_max : ℕ
address_max = 64

-- A chain of calls that stops at the first failure.
abbrev pub and_then {ℓ κ} : {A : Type ℓ} {B : Type κ} → Option A → (A → Option B) → Option B
and_then none f = none
and_then (some a) f = f a

abbrev pub is_digit : ℕ → Bool
is_digit c = leb 48 c && leb c 57

abbrev pub whole_number : ℕ → ℕ × List ℕ → Option ℕ
whole_number maximum (n, []) = if ltb maximum n then none else some n
whole_number maximum (n, c ∷ cs) = none

unfoldable pub parse_unsigned : Library → List ℕ → ℕ → Option ℕ
parse_unsigned l [] maximum = none
parse_unsigned l (c ∷ cs) maximum =
    if is_digit c then and_then (l.strtoul (c ∷ cs)) (whole_number maximum) else none

-- An address and a port, still as texts.
pub record Parts : Type 0 where
  pub version : ℕ
  pub raw : List ℕ
  pub port_text : List ℕ

abbrev pub fits_address : Parts → Option Parts
fits_address p = if length p.raw == 0 || leb address_max (length p.raw) then none else some p

-- The two texts at the closing bracket.
abbrev pub bracketed : List ℕ × List ℕ → Option Parts
bracketed (raw, []) = none
bracketed (raw, c ∷ []) = none
bracketed (raw, c ∷ d ∷ ds) =
    if c == 58 then fits_address (record { version = 6; raw = raw; port_text = d ∷ ds }) else none

-- The two texts at the first colon, which has to be the only one.
abbrev pub no_more : Option (List ℕ × List ℕ) → Parts → Option Parts
no_more (some _) p = none
no_more none p = fits_address p

abbrev pub only_colon : List ℕ × List ℕ → Option Parts
only_colon (raw, port) =
    no_more (split_first 58 port) (record { version = 4; raw = raw; port_text = port })

unfoldable pub endpoint_parts : List ℕ → Option Parts
endpoint_parts [] = none
endpoint_parts (c ∷ cs) =
    if c == 91
    then and_then (split_first 93 cs) bracketed
    else and_then (split_first 58 (c ∷ cs)) only_colon

unfoldable pub all_zero : List ℕ → Bool
all_zero [] = true
all_zero (b ∷ bs) = if b == 0 then all_zero bs else false

-- An endpoint: the version of its address, the address as inet_ntop writes it, and the port.
pub record Endpoint : Type 0 where
  pub ip_version : ℕ
  pub address : List ℕ
  pub port : ℕ

unfoldable pub endpoint_address : Library → Parts → ℕ → List ℕ → Option Endpoint
endpoint_address l p port packed =
    if all_zero packed
    then none
    else and_then (l.inet_ntop p.version packed address_max)
        (λ address. some (record { ip_version = p.version; address = address; port = port }))

unfoldable pub endpoint_port : Library → Parts → ℕ → Option Endpoint
endpoint_port l p port =
    if port == 0 then none else and_then (l.inet_pton p.version p.raw) (endpoint_address l p port)

unfoldable pub parse_endpoint : Library → List ℕ → Option Endpoint
parse_endpoint l text =
    and_then (endpoint_parts text)
      (λ p. and_then (parse_unsigned l p.port_text 65535) (endpoint_port l p))

unfoldable pub every_byte : (ℕ → Bool) → List ℕ → Bool
every_byte f [] = true
every_byte f (c ∷ cs) = if f c then every_byte f cs else false

unfoldable pub valid_cc : List ℕ → Bool
valid_cc name =
    not (length name == 0)
    && (ltb (length name) 16
        && every_byte (λ c. leb 97 c && leb c 122 || (is_digit c || (c == 95 || c == 45))) name)

unfoldable pub valid_firewall_backend : List ℕ → Bool
valid_firewall_backend name =
    same_text name (codes "auto")
    || (same_text name (codes "nftables")
        || (same_text name (codes "iptables") || same_text name (codes "none")))

unfoldable pub valid_tun_name : Library → List ℕ → Bool
valid_tun_name l name =
    ltb (length name) 16 && every_byte (λ c. l.isalnum c || (c == 95 || (c == 45 || c == 46))) name

-- An address with its prefix: the address, the two together, and the mask.
pub record Cidr : Type 0 where
  pub address : List ℕ
  pub cidr : List ℕ
  pub netmask : List ℕ

-- The bytes of a mask in network order.
unfoldable pub mask_bytes : ℕ → List ℕ
mask_bytes prefix =
    let mask = if prefix == 0 then 0 else 4294967295 * 2 ^ (32 - prefix) % 4294967296 in
    mask / 16777216 ∷ mask / 65536 % 256 ∷ mask / 256 % 256 ∷ mask % 256 ∷ []

unfoldable pub cidr_mask : Library → ℕ → ℕ → Option (List ℕ)
cidr_mask l version prefix =
    if version == 4 then l.inet_ntop 4 (mask_bytes prefix) address_max else some []

unfoldable pub cidr_with : Library → ℕ → ℕ → List ℕ → Option Cidr
cidr_with l version prefix address =
    let cidr = address ++ (47 ∷ l.decimal prefix) in
    if leb address_max (length cidr)
    then none
    else and_then (cidr_mask l version prefix)
        (λ netmask. some (record { address = address; cidr = cidr; netmask = netmask }))

abbrev pub cidr_parts : Library → ℕ → List ℕ × List ℕ → Option Cidr
cidr_parts l version ([], prefix_text) = none
cidr_parts l version (c ∷ cs, prefix_text) =
    and_then (parse_unsigned l prefix_text (if version == 4 then 32 else 128)) (λ prefix.
      and_then (l.inet_pton version (c ∷ cs))
        (λ packed. and_then (l.inet_ntop version packed address_max) (cidr_with l version prefix)))

unfoldable pub parse_cidr : Library → List ℕ → ℕ → Option Cidr
parse_cidr l text version =
    if leb address_max (length text)
    then none
    else and_then (split_last 47 text) (cidr_parts l version)

unfoldable pub canonical_ip : Library → List ℕ → ℕ → Option (List ℕ)
canonical_ip l text version =
    and_then (l.inet_pton version text) (λ packed. l.inet_ntop version packed address_max)

abbrev pub same_packed : Option (List ℕ) → Option (List ℕ) → Bool
same_packed (some a) (some b) = same_text a b
same_packed _ _ = false

unfoldable pub same_ip : Library → List ℕ → List ℕ → ℕ → Bool
same_ip l left right version = same_packed (l.inet_pton version left) (l.inet_pton version right)
