-- ===== src/Upstream/Bypass.antt =====
-- `Bypass` of tools/saiai-cli/src/upstream_proxy.rs: the hosts that are reached without the proxy.
pub mod Laws
use saiai_client.Prelude.{
  ℕ, zero, suc, ◌+◌, ◌*◌, ◌^◌, Bool, true, false, not, ◌&&◌, ◌||◌, Option, none, some, List, [],
  ◌∷◌, ◌++◌, Text, codes, text_eq, strip_prefix, trim, starts_with, ends_with, contains,
  trim_start_while, to_ascii_lowercase, eq_ignore_ascii_case, is_empty, any, split, length, ltb,
  leb, ◌==◌, if◌then◌else◌,
}
use saiai_client.Upstream.Str.{split_once, rsplit_once, parse_uint, as_bytes}
use saiai_client.Upstream.Ip.{IpAddr, v4, is_ipv4, parse_ip}
use saiai_client.Upstream.Glob.{glob_matches}
use saiai_client.Upstream.Network.{ip_in_network}
use saiai_client.Upstream.Endpoint.{normalize_host}

pub data BypassRule : Type 0 where
  everything : BypassRule
  simple_hostnames : BypassRule
  glob : Text → BypassRule
  domain : Text → BypassRule
  network : IpAddr → ℕ → BypassRule

pub record BypassEntry : Type 0 where
  pub rule : BypassRule
  pub port : Option ℕ

pub record Bypass : Type 0 where
  pub rules : List BypassEntry
  pub subdomains : Bool

abbrev pub default_bypass : Bypass
default_bypass = record { rules = []; subdomains = false }

abbrev with_port : Text → Text → Option (Text × Option ℕ)
with_port host port = elim (parse_uint 0xffff port) [ none ↦ none | some n ↦ some (host, some n) ]

-- What stands behind the bracket
abbrev port_tail : Text → Text → Option (Text × Option ℕ)
port_tail host [] = some (host, none)
port_tail host (c ∷ tail) = elim (strip_prefix (c ∷ tail) (codes ":")) [
  | none ↦ none
  | some port ↦ with_port host port
]

abbrev unbracketed_port : Text → Option (Text × Text) → Option (Text × Option ℕ)
unbracketed_port entry none = some (entry, none)
unbracketed_port entry (some (host, port)) =
    if contains b':' host then some (entry, none) else with_port host port

unfoldable pub split_entry_port : Text → Option (Text × Option ℕ)
split_entry_port entry = elim (strip_prefix entry (codes "[")) [
  | some rest ↦ elim (split_once b']' rest) [ none ↦ none | some parts ↦ port_tail parts.0 parts.1 ]
  | none ↦ unbracketed_port entry (rsplit_once b':' entry)
]

abbrev pub octet_values : List Text → Option (List ℕ)
octet_values [] = some []
octet_values (part ∷ parts) = elim (parse_uint 255 part) [
  | none ↦ none
  | some n ↦ elim (octet_values parts) [ none ↦ none | some ns ↦ some (n ∷ ns) ]
]

-- The first octets of four, the others zero
abbrev pub padded : ℕ → List ℕ → ℕ
padded zero ns = 0
padded (suc k) [] = 0
padded (suc k) (n ∷ ns) = n * 256 ^ k + padded k ns

-- `169.254/16`: an abbreviated IPv4 address is read only with a prefix.
abbrev pub abbreviated : Text → Option IpAddr
abbreviated address = elim (octet_values (split b'.' address)) [
  | none ↦ none
  | some octets ↦
      (if is_empty octets || ltb 4 (length octets) then none else some (v4 (padded 4 octets)))
]

abbrev pub address_of : Text → Option ℕ → Option IpAddr
address_of address prefix = elim (parse_ip address) [
  | some ip ↦ some ip
  | none ↦ elim prefix [ none ↦ none | some n ↦ abbreviated address ]
]

abbrev pub width_of : IpAddr → ℕ
width_of ip = if is_ipv4 ip then 32 else 128

abbrev pub network_of : Option IpAddr → Option ℕ → Option BypassRule
network_of none prefix = none
network_of (some ip) none = some (network ip (width_of ip))
network_of (some ip) (some prefix) =
    if leb prefix (width_of ip) then some (network ip prefix) else none

unfoldable pub parse_network : Text → Option BypassRule
parse_network entry = elim (split_once b'/' entry) [
  | none ↦ network_of (address_of entry none) none
  | some parts ↦ elim (parse_uint 255 parts.1) [
    | none ↦ none
    | some prefix ↦ network_of (address_of parts.0 (some prefix)) (some prefix)
  ]
]

abbrev pub without_scheme : Text → Text
without_scheme entry = elim (strip_prefix entry (codes "http://")) [
  | some rest ↦ rest
  | none ↦ elim (strip_prefix entry (codes "https://")) [ some rest ↦ rest | none ↦ entry ]
]

unfoldable pub rule_of : Text → BypassRule
rule_of entry =
    if text_eq entry (codes "*")
    then everything
    else if eq_ignore_ascii_case entry (codes "<local>")
    then simple_hostnames
    else elim (parse_network entry) [
      | some rule ↦ rule
      | none ↦
          (if contains b'*' entry
            then glob (to_ascii_lowercase entry)
            else domain (normalize_host entry))
    ]

-- The rule of one entry; an empty entry and one with a malformed port are skipped.
unfoldable pub entry_rule : Text → Option BypassEntry
entry_rule raw =
    let entry = without_scheme (trim raw) in
    if is_empty entry then none else elim (split_entry_port entry) [
      | none ↦ none
      | some parts ↦ some (record { rule = rule_of parts.0; port = parts.1 })
    ]

unfoldable pub entry_rules : List Text → List BypassEntry
entry_rules [] = []
entry_rules (raw ∷ entries) = elim (entry_rule raw) [
  | none ↦ entry_rules entries
  | some entry ↦ entry ∷ entry_rules entries
]

unfoldable pub parse_bypass : List Text → Bool → Bypass
parse_bypass entries subdomains = record { rules = entry_rules entries; subdomains = subdomains }

unfoldable pub rule_matches : Bool → Text → Option IpAddr → BypassRule → Bool
rule_matches subdomains host ip everything = true
rule_matches subdomains host none simple_hostnames = not (contains b'.' host)
rule_matches subdomains host (some address) simple_hostnames = false
rule_matches subdomains host ip (glob pattern) = glob_matches (as_bytes pattern) (as_bytes host)
rule_matches subdomains host ip (domain name) =
    let bare = trim_start_while (λ c. c == b'.') name in
    text_eq host bare
    || ((subdomains || starts_with name (codes ".")) && ends_with host (codes "." ++ bare))
rule_matches subdomains host none (network at prefix) = false
rule_matches subdomains host (some address) (network at prefix) = ip_in_network address at prefix

abbrev pub port_matches : Option ℕ → ℕ → Bool
port_matches none port = true
port_matches (some only) port = only == port

unfoldable pub bypass_matches : Bypass → Text → ℕ → Bool
bypass_matches bypass host port =
    any
      (λ entry.
        port_matches entry.port port
        && rule_matches bypass.subdomains (normalize_host host) (parse_ip (normalize_host host))
            entry.rule)
      bypass.rules
