-- ===== src/Service/Accepted.antt =====
-- What a configuration that service_config.c accepts satisfies.
use mathlib.Core.Path.{subst}
use tcp_shift.Prelude.{
  passed, not_stopped, some-inj, ℕ, ◌≤◌, ◌<◌, ◌≡◌, ◌⊎◌, inl, inr, refl, true, false, ◌&&◌, Option,
  none, some, ◌==◌, if◌then◌else◌, List, [], ◌∷◌, codes, arith, Bool-cases,
}
use tcp_shift.Service.{Library, same_text, split_first}
use tcp_shift.Service.Fields.{
  and_then, is_digit, whole_number, parse_unsigned, Parts, fits_address, bracketed, no_more,
  only_colon, endpoint_parts, all_zero, Endpoint, endpoint_address, endpoint_port, parse_endpoint,
  valid_cc, valid_firewall_backend, valid_tun_name, Cidr, parse_cidr, canonical_ip, same_ip,
  address_max,
}
use tcp_shift.Service.File.{
  ServiceConfig, Reading, loopback, complete, host_text, guest_text, finish_config,
  config_addresses, finalize_config,
}

-- What a chain has come by.
pub and_then-some {ℓ κ} :
    {A : Type ℓ} {B : Type κ} (o : Option A) (f : A → Option B) (b : B)
    → and_then o f ≡ some b
    → (a : A) × (o ≡ some a) × (f a ≡ some b)
and_then-some none f b e = ground arith
and_then-some (some a) f b e = (a, refl, e)

whole_number-le :
    (maximum : ℕ) (p : ℕ × List ℕ) (n : ℕ) → whole_number maximum p ≡ some n → n ≤ maximum
whole_number-le maximum (m, []) n e = ground arith
whole_number-le maximum (m, c ∷ cs) n e = ground arith

parse_unsigned-le :
    (l : Library) (text : List ℕ) (maximum n : ℕ)
    → parse_unsigned l text maximum ≡ some n
    → n ≤ maximum
unfolding parse_unsigned
parse_unsigned-le l [] maximum n e = ground arith
parse_unsigned-le l (c ∷ cs) maximum n e =
    let (_, f) = passed (is_digit c) _ n e in
    let (p, _, g) = and_then-some (l.strtoul (c ∷ cs)) (whole_number maximum) n f in
    whole_number-le maximum p n g

-- A version of the Internet protocol.
abbrev pub IsVersion : ℕ → Type 0
IsVersion v = (v ≡ 4) ⊎ (v ≡ 6)

fits_address-Version :
    (q p : Parts) → fits_address q ≡ some p → IsVersion q.version → IsVersion p.version
fits_address-Version q p e v =
    let (_, f) = not_stopped _ (some q) p e in
    subst (λ (x : Parts). IsVersion x.version) (some-inj q p f) v

bracketed-Version : (t : List ℕ × List ℕ) (p : Parts) → bracketed t ≡ some p → IsVersion p.version
bracketed-Version (raw, []) p e = ground arith
bracketed-Version (raw, c ∷ []) p e = ground arith
bracketed-Version (raw, c ∷ d ∷ ds) p e =
    let (_, f) = passed (c == 58) _ p e in
    fits_address-Version (record { version = 6; raw = raw; port_text = d ∷ ds }) p f (inr refl)

no_more-Version :
    (o : Option (List ℕ × List ℕ)) (q p : Parts)
    → no_more o q ≡ some p
    → IsVersion q.version
    → IsVersion p.version
no_more-Version none q p e v = fits_address-Version q p e v
no_more-Version (some _) q p e v = ground arith

only_colon-Version : (t : List ℕ × List ℕ) (p : Parts) → only_colon t ≡ some p → IsVersion p.version
only_colon-Version (raw, port) p e =
    no_more-Version (split_first 58 port) (record { version = 4; raw = raw; port_text = port }) p e
      (inl refl)

endpoint_parts-Version :
    (text : List ℕ) (p : Parts) → endpoint_parts text ≡ some p → IsVersion p.version
unfolding endpoint_parts
endpoint_parts-Version [] p e = ground arith
endpoint_parts-Version (c ∷ cs) p e = elim (Bool-cases (c == 91)) [
  | inl bracket ↦
      let f : and_then (split_first 93 cs) bracketed ≡ some p = ground arith in
      let (t, _, g) = and_then-some (split_first 93 cs) bracketed p f in bracketed-Version t p g
  | inr colon ↦
      let f : and_then (split_first 58 (c ∷ cs)) only_colon ≡ some p = ground arith in
      let (t, _, g) = and_then-some (split_first 58 (c ∷ cs)) only_colon p f in
      only_colon-Version t p g
]

-- An endpoint with a port and a version of the protocol.
pub record Sane (e : Endpoint) : Type 0 where
  pub version_ok : IsVersion e.ip_version
  pub port_pos : 0 < e.port
  pub port_le : e.port ≤ 65535

endpoint_address-Sane :
    (l : Library) (p : Parts) (port : ℕ) (packed : List ℕ) (e : Endpoint)
    → IsVersion p.version
    → 0 < port
    → port ≤ 65535
    → endpoint_address l p port packed ≡ some e
    → Sane e
unfolding endpoint_address
endpoint_address-Sane l p port packed e v pos le q =
    let (_, f) = not_stopped (all_zero packed) _ e q in
    let (address, _, g) = and_then-some (l.inet_ntop p.version packed address_max) _ e f in
    subst Sane (some-inj _ e g) (record { version_ok = v; port_pos = pos; port_le = le })

parse_endpoint-Sane :
    (l : Library) (text : List ℕ) (e : Endpoint) → parse_endpoint l text ≡ some e → Sane e
unfolding parse_endpoint endpoint_port
parse_endpoint-Sane l text e q =
    let (p, is_parts, f) = and_then-some (endpoint_parts text) _ e q in
    let (port, is_port, g) = and_then-some (parse_unsigned l p.port_text 65535) _ e f in
    let (some_port, h) = not_stopped (port == 0) _ e g in
    let (packed, _, k) = and_then-some (l.inet_pton p.version p.raw) _ e h in
    endpoint_address-Sane l p port packed e (endpoint_parts-Version text p is_parts) (ground arith)
      (parse_unsigned-le l p.port_text 65535 port is_port) k

-- A configuration that the service can start from: version 1, valid names, ports within 16 bits and not
-- 0, a version of the Internet protocol, and two different ends of the tunnel.
pub record Valid (l : Library) (c : ServiceConfig) : Type 0 where
  pub version_eq : c.version ≡ 1
  pub cc_ok : valid_cc c.cc ≡ true
  pub firewall_ok : valid_firewall_backend c.firewall_backend ≡ true
  pub tun_ok : valid_tun_name l c.tun_name ≡ true
  pub ip_version_ok : IsVersion c.ip_version
  pub public_pos : 0 < c.public_port
  pub public_le : c.public_port ≤ 65535
  pub backend_pos : 0 < c.backend_port
  pub backend_le : c.backend_port ≤ 65535
  pub ends_differ : same_ip l c.tun_host_address c.tun_guest_address c.ip_version ≡ false

-- The checks before any address, apart.
record Checked (l : Library) (r : Reading) (firewall : List ℕ) : Type 0 where
  version_eq : r.config.version ≡ 1
  cc_ok : valid_cc r.config.cc ≡ true
  firewall_ok : valid_firewall_backend firewall ≡ true
  tun_ok : valid_tun_name l r.config.tun_name ≡ true
  forward_there : r.have_forward ≡ true

complete-Checked :
    (l : Library) (r : Reading) (firewall : List ℕ)
    → complete l r firewall ≡ true
    → Checked l r firewall
unfolding complete
complete-Checked l r firewall e = ground arith

finish_config-Valid :
    (l : Library) (r : Reading) (firewall : List ℕ) (front back : Endpoint) (host : Cidr)
    (guest : List ℕ) (c : ServiceConfig)
    → Checked l r firewall
    → Sane front
    → Sane back
    → finish_config l r firewall front back host guest ≡ some c
    → Valid l c
unfolding finish_config
finish_config-Valid l r firewall front back host guest c k f b e =
    let (differ, g) = not_stopped (same_ip l host.address guest front.ip_version) _ c e in
    subst (Valid l) (some-inj _ c g) (record {
      version_eq = k.version_eq;
      cc_ok = k.cc_ok;
      firewall_ok = k.firewall_ok;
      tun_ok = k.tun_ok;
      ip_version_ok = f.version_ok;
      public_pos = f.port_pos;
      public_le = f.port_le;
      backend_pos = b.port_pos;
      backend_le = b.port_le;
      ends_differ = differ;
    })

config_addresses-Valid :
    (l : Library) (r : Reading) (firewall : List ℕ) (front back : Endpoint) (c : ServiceConfig)
    → Checked l r firewall
    → Sane front
    → Sane back
    → config_addresses l r firewall front back ≡ some c
    → Valid l c
unfolding config_addresses
config_addresses-Valid l r firewall front back c k f b e =
    let (_, e1) = passed (back.ip_version == 4 && same_text back.address loopback) _ c e in
    let (host, _, e2) =
      and_then-some (parse_cidr l (host_text r front.ip_version) front.ip_version) _ c e1 in
    let (guest, _, e3) =
      and_then-some (canonical_ip l (guest_text r front.ip_version) front.ip_version) _ c e2 in
    finish_config-Valid l r firewall front back host guest c k f b e3

abbrev firewall_of : Reading → List ℕ
firewall_of r = if r.have_firewall_backend then r.config.firewall_backend else codes "auto"

pub finalize_config-Valid :
    (l : Library) (r : Reading) (c : ServiceConfig)
    → finalize_config l r ≡ some c
    → Valid l c × (r.have_forward ≡ true)
unfolding finalize_config
finalize_config-Valid l r c e =
    let (ok, e1) = passed (complete l r (firewall_of r)) _ c e in
    let k = complete-Checked l r (firewall_of r) ok in
    let (front, is_front, e2) = and_then-some (parse_endpoint l r.listen) _ c e1 in
    let (back, is_back, e3) = and_then-some (parse_endpoint l r.backend) _ c e2 in
    (
      config_addresses-Valid l r (firewall_of r) front back c k
          (parse_endpoint-Sane l r.listen front is_front)
          (parse_endpoint-Sane l r.backend back is_back) e3,
      k.forward_there,
    )
