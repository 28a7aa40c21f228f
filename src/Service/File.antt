-- ===== src/Service/File.antt =====
-- The lines of the configuration file, and the checks over the whole, service_config.c. What is copied
-- into the configuration before a failure is lost, since the file's reader then clears it.
use tcp_shift.Prelude.{
  ℕ, ◌+◌, Bool, true, false, ◌&&◌, ◌||◌, Option, none, some, ltb, leb, ◌==◌, if◌then◌else◌, List,
  [], ◌∷◌, length, codes,
}
use tcp_shift.Service.{Library, same_text, split_first, trim, strip_comment, parse_string}
use tcp_shift.Service.Fields.{
  and_then, parse_unsigned, Endpoint, parse_endpoint, valid_cc, valid_firewall_backend,
  valid_tun_name, Cidr, parse_cidr, canonical_ip, same_ip,
}

-- `struct tcp_shift_service_config`
pub record ServiceConfig : Type 0 where
  pub version : ℕ
  pub ip_version : ℕ
  pub cc : List ℕ
  pub firewall_backend : List ℕ
  pub tun_name : List ℕ
  pub tun_host_address : List ℕ
  pub tun_host_cidr : List ℕ
  pub tun_guest_address : List ℕ
  pub tun_netmask : List ℕ
  pub public_address : List ℕ
  pub public_port : ℕ
  pub backend_port : ℕ

-- `struct tcp_shift_service_parse_state`, and the configuration read so far.
pub record Reading : Type 0 where
  pub config : ServiceConfig
  pub have_version : Bool
  pub have_cc : Bool
  pub have_firewall_backend : Bool
  pub have_tun_name : Bool
  pub have_tun_host : Bool
  pub have_tun_guest : Bool
  pub have_forward : Bool
  pub have_listen : Bool
  pub have_backend : Bool
  pub in_forward : Bool
  pub listen : List ℕ
  pub backend : List ℕ

abbrev pub no_reading : Reading
no_reading = record {
  config = record {
    version = 0;
    ip_version = 0;
    cc = [];
    firewall_backend = [];
    tun_name = [];
    tun_host_address = [];
    tun_host_cidr = [];
    tun_guest_address = [];
    tun_netmask = [];
    public_address = [];
    public_port = 0;
    backend_port = 0;
  };
  have_version = false;
  have_cc = false;
  have_firewall_backend = false;
  have_tun_name = false;
  have_tun_host = false;
  have_tun_guest = false;
  have_forward = false;
  have_listen = false;
  have_backend = false;
  in_forward = false;
  listen = [];
  backend = [];
}

-- A text of a key that is not there yet, within its buffer.
unfoldable pub text_once : Bool → List ℕ → ℕ → Option (List ℕ)
text_once have value size =
    if have
    then none
    else and_then (parse_string value 128)
        (λ text. if leb size (length text) then none else some text)

unfoldable pub assign_forward : Reading → List ℕ → List ℕ → Option Reading
assign_forward r key value =
    if same_text key (codes "listen")
    then and_then (text_once r.have_listen value 128)
        (λ text. some (record r { listen = text; have_listen = true }))
    else if same_text key (codes "backend")
    then and_then (text_once r.have_backend value 128)
        (λ text. some (record r { backend = text; have_backend = true }))
    else none

unfoldable pub set_version : Reading → ℕ → Reading
set_version r n = record r { config = record r.config { version = n }; have_version = true }

unfoldable pub set_cc : Reading → List ℕ → Reading
set_cc r text = record r { config = record r.config { cc = text }; have_cc = true }

-- The backend is tested at once.
unfoldable pub set_firewall_backend : Reading → List ℕ → Option Reading
set_firewall_backend r text =
    if valid_firewall_backend text
    then some (record r {
      config = record r.config { firewall_backend = text };
      have_firewall_backend = true;
    })
    else none

unfoldable pub set_tun_name : Reading → List ℕ → Reading
set_tun_name r text = record r {
  config = record r.config { tun_name = text };
  have_tun_name = true;
}

unfoldable pub set_tun_host : Reading → List ℕ → Reading
set_tun_host r text = record r {
  config = record r.config { tun_host_cidr = text };
  have_tun_host = true;
}

unfoldable pub set_tun_guest : Reading → List ℕ → Reading
set_tun_guest r text = record r {
  config = record r.config { tun_guest_address = text };
  have_tun_guest = true;
}

-- A key outside the table.
unfoldable pub assign : Library → Reading → List ℕ → List ℕ → Option Reading
assign l r key value =
    if same_text key (codes "version")
    then (if r.have_version
        then none
        else and_then (parse_unsigned l value 4294967295) (λ n. some (set_version r n)))
    else if same_text key (codes "cc")
    then and_then (text_once r.have_cc value 16) (λ text. some (set_cc r text))
    else if same_text key (codes "firewall_backend")
    then and_then (text_once r.have_firewall_backend value 16) (set_firewall_backend r)
    else if same_text key (codes "tun_name")
    then and_then (text_once r.have_tun_name value 16) (λ text. some (set_tun_name r text))
    else if same_text key (codes "tun_host_address")
    then and_then (text_once r.have_tun_host value 64) (λ text. some (set_tun_host r text))
    else if same_text key (codes "tun_guest_address")
    then and_then (text_once r.have_tun_guest value 64) (λ text. some (set_tun_guest r text))
    else none

-- The texts of a key and a value, trimmed.
unfoldable pub read_assignment : Library → Reading → List ℕ → List ℕ → Option Reading
read_assignment l r key value =
    if length key == 0 || length value == 0
    then none
    else if r.in_forward
    then assign_forward r key value
    else assign l r key value

-- A line without its comment and the space around it.
unfoldable pub read_text : Library → Reading → List ℕ → Option Reading
read_text l r [] = some r
read_text l r (c ∷ cs) =
    if same_text (c ∷ cs) (codes "[[forward]]")
    then (if r.have_forward
        then none
        else some (record r { have_forward = true; in_forward = true }))
    else if c == 91
    then none
    else and_then (split_first 61 (c ∷ cs))
        (λ (p : List ℕ × List ℕ). read_assignment l r (trim l p.0) (trim l p.1))

unfoldable pub line_text : Library → List ℕ → List ℕ
line_text l line = trim l (strip_comment line)

-- A line with a zero in it is refused.
abbrev pub unless_zero : Option (List ℕ × List ℕ) → Option Reading → Option Reading
unless_zero (some _) o = none
unless_zero none o = o

-- A line as getline gives it, `total` bytes into the file with it.
unfoldable pub read_line : Library → ℕ → Reading → List ℕ → Option Reading
read_line l total r line =
    if ltb 1048576 total
    then none
    else unless_zero (split_first 0 line) (read_text l r (line_text l line))

unfoldable pub read_lines : Library → ℕ → Reading → List (List ℕ) → Option Reading
read_lines l total r [] = some r
read_lines l total r (line ∷ lines) =
    let count = total + length line in
    and_then (read_line l count r line) (λ r'. read_lines l count r' lines)

abbrev pub loopback : List ℕ
loopback = codes "127.0.0.1"

-- The checks of `finalize_config` before any address.
unfoldable pub complete : Library → Reading → List ℕ → Bool
complete l r firewall_backend =
    r.have_version
    && (r.config.version == 1
        && (r.have_cc
            && (valid_firewall_backend firewall_backend
                && (r.have_forward
                    && (r.have_listen
                        && (r.have_backend
                            && (valid_cc r.config.cc && valid_tun_name l r.config.tun_name)))))))

-- The addresses of the two ends of the tunnel, given or default ones.
unfoldable pub host_text : Reading → ℕ → List ℕ
host_text r version =
    if r.have_tun_host
    then r.config.tun_host_cidr
    else if version == 4
    then codes "198.18.0.1/30"
    else codes "fd00:198:18::1/126"

unfoldable pub guest_text : Reading → ℕ → List ℕ
guest_text r version =
    if r.have_tun_guest
    then r.config.tun_guest_address
    else if version == 4
    then codes "198.18.0.2"
    else codes "fd00:198:18::2"

unfoldable pub finish_config :
    Library → Reading → List ℕ → Endpoint → Endpoint → Cidr → List ℕ → Option ServiceConfig
finish_config l r firewall_backend front back host guest =
    if same_ip l host.address guest front.ip_version
    then none
    else some (record r.config {
      ip_version = front.ip_version;
      firewall_backend = firewall_backend;
      tun_host_address = host.address;
      tun_host_cidr = host.cidr;
      tun_guest_address = guest;
      tun_netmask = host.netmask;
      public_address = front.address;
      public_port = front.port;
      backend_port = back.port;
    })

unfoldable pub config_addresses :
    Library → Reading → List ℕ → Endpoint → Endpoint → Option ServiceConfig
config_addresses l r firewall_backend front back =
    if back.ip_version == 4 && same_text back.address loopback
    then and_then (parse_cidr l (host_text r front.ip_version) front.ip_version) (λ host.
      and_then (canonical_ip l (guest_text r front.ip_version) front.ip_version)
        (finish_config l r firewall_backend front back host))
    else none

unfoldable pub finalize_config : Library → Reading → Option ServiceConfig
finalize_config l r =
    let firewall_backend =
      if r.have_firewall_backend then r.config.firewall_backend else codes "auto" in
    if complete l r firewall_backend
    then and_then (parse_endpoint l r.listen) (λ front.
      and_then (parse_endpoint l r.backend) (config_addresses l r firewall_backend front))
    else none

-- The lines of a file that opens and reads without an error.
unfoldable pub config_load : Library → List (List ℕ) → Option ServiceConfig
config_load l lines = and_then (read_lines l 0 no_reading lines) (finalize_config l)
