-- ===== src/Tests/Service.antt =====
-- The configuration file on a small input, with a small C library.
use tcp_shift.Prelude.{
  ℕ, ◌+◌, ◌-◌, ◌*◌, ◌/◌, ◌%◌, ◌≡◌, refl, ◌&&◌, ◌||◌, Option, none, some, inl, inr, leb, ltb, ◌==◌,
  if◌then◌else◌, List, [], ◌∷◌, codes, arith,
}
use tcp_shift.Service.{
  Library, same_text, split_first, split_last, trim_left, trim_right, trim, strip_from,
  strip_comment, escape, unescape, unclose, parse_string,
}
use tcp_shift.Service.Fields.{
  parse_unsigned, endpoint_parts, all_zero, endpoint_address, endpoint_port, parse_endpoint,
  every_byte, valid_cc, valid_firewall_backend, valid_tun_name, mask_bytes, cidr_mask, cidr_with,
  parse_cidr, canonical_ip, same_ip,
}
use tcp_shift.Service.File.{
  ServiceConfig, text_once, assign_forward, set_version, set_cc, set_firewall_backend, set_tun_name,
  set_tun_host, set_tun_guest, assign, read_assignment, read_text, line_text, read_line, read_lines,
  complete, host_text, guest_text, finish_config, config_addresses, finalize_config, config_load,
}
use tcp_shift.Service.Quoting.{ended, byte, quote, parse_string-quote}
use tcp_shift.Service.Accepted.{Valid}
use tcp_shift.Service.Forward.{tables, config_load-Valid}

-- Decimal digits read from the left.
abbrev digits_from : ℕ → List ℕ → ℕ × List ℕ
digits_from n [] = (n, [])
digits_from n (c ∷ cs) =
    if leb 48 c && leb c 57 then digits_from (n * 10 + (c - 48)) cs else (n, c ∷ cs)

-- A packed address is its text behind a 1.
abbrev unpack : List ℕ → Option (List ℕ)
unpack [] = none
unpack (c ∷ cs) = some cs

abbrev small_library : Library
small_library = record {
  isspace = λ c. c == 32 || c == 10;
  isalnum = λ c. leb 97 c && leb c 122;
  strtoul = λ text. some (digits_from 0 text);
  inet_pton = λ version text. some (1 ∷ text);
  inet_ntop = λ version packed size. unpack packed;
  decimal = λ n. if ltb n 10 then (48 + n) ∷ [] else (48 + n / 10) ∷ (48 + n % 10) ∷ [];
}

abbrev small_file : List (List ℕ)
small_file =
    codes "version = 1 # the first"
    ∷ codes "cc = \"reno\""
    ∷ codes "[[forward]]"
    ∷ codes "listen = \"1.2.3.4:80\""
    ∷ codes "backend = \"127.0.0.1:8080\""
    ∷ []

abbrev loaded : ServiceConfig
loaded = record {
  version = 1;
  ip_version = 4;
  cc = codes "reno";
  firewall_backend = codes "auto";
  tun_name = [];
  tun_host_address = codes "198.18.0.1";
  tun_host_cidr = codes "198.18.0.1/30";
  tun_guest_address = codes "198.18.0.2";
  tun_netmask = 255 ∷ 255 ∷ 252 ∷ [];
  public_address = codes "1.2.3.4";
  public_port = 80;
  backend_port = 8080;
}

loads : config_load small_library small_file ≡ some loaded
loads =
    unfold config_load read_lines read_line read_text line_text read_assignment assign
      assign_forward text_once set_version set_cc set_firewall_backend set_tun_name set_tun_host
      set_tun_guest same_text split_first split_last trim trim_left trim_right strip_comment
      strip_from parse_string unclose unescape escape parse_unsigned finalize_config complete
      valid_cc valid_firewall_backend valid_tun_name every_byte parse_endpoint endpoint_parts
      endpoint_port endpoint_address all_zero config_addresses host_text guest_text parse_cidr
      cidr_with cidr_mask mask_bytes canonical_ip finish_config same_ip in
    refl

config_load-Valid_example : Valid small_library loaded × (tables small_library small_file ≡ 1)
config_load-Valid_example = config_load-Valid small_library small_file loaded loads

parse_string-quote_example :
    parse_string (strip_comment (quote (34 ∷ 35 ∷ 9 ∷ []) (35 ∷ codes " a tab"))) 128
    ≡ some (34 ∷ 35 ∷ 9 ∷ [])
parse_string-quote_example =
    parse_string-quote (34 ∷ 35 ∷ 9 ∷ []) (codes " a tab") 128
      (byte 34 _ (inl (omega arith))
        (byte 35 _ (inl (omega arith)) (byte 9 _ (inr (inl refl)) ended)))
      (omega arith)
