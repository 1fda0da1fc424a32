-- ===== src/Upstream/Endpoint.antt =====
-- `Endpoint`, `Route` and `Mode` of tools/saiai-cli/src/upstream_proxy.rs. The url crate is a
-- parameter: what it reads from a text is a `Url`.
pub mod Percent
use saiai_client.Prelude.{
  ℕ, Bool, true, false, not, ◌&&◌, ◌||◌, Option, none, some, List, ◌++◌, Text, codes, text_eq, trim,
  starts_with, ends_with, contains, trim_start_while, trim_end_while, to_ascii_lowercase, is_empty,
  ◌==◌, if◌then◌else◌,
}
use saiai_client.Prelude.Result.{Result, err, ok, ◌>>=◌}
use saiai_client.Upstream.Str.{contains_text, decimal}
use saiai_client.Upstream.Ip.{IpAddr, parse_ip, to_canonical, is_loopback, is_unspecified, ip_eq}
use saiai_client.Upstream.Endpoint.Percent.{percent_decode}

-- What the url crate reports of a parsed URL; `host` is what its kind of host prints, and
-- `username` and `password` are the bytes between the separators.
pub record Url : Type 0 where
  pub scheme : Text
  pub host : Option Text
  pub path : Text
  pub query : Option Text
  pub username : List ℕ
  pub password : Option (List ℕ)
  pub port_or_known_default : Option ℕ

pub record Endpoint : Type 0 where
  pub host : Text
  pub port : ℕ
  pub username : List ℕ
  pub password : Option (List ℕ)

pub record SocketAddr : Type 0 where
  pub ip : IpAddr
  pub port : ℕ

pub data Route : Type 0 where
  direct_route : Route
  proxy : Endpoint → Route

pub data Mode : Type 0 where
  system : Mode
  direct_mode : Mode
  fixed : Endpoint → Mode

unfoldable pub host_port : Text → ℕ → Text
host_port host port =
    if contains b':' host
    then codes "[" ++ host ++ codes "]:" ++ decimal port
    else host ++ codes ":" ++ decimal port

unfoldable pub normalize_host : Text → Text
normalize_host host = to_ascii_lowercase (
    trim_end_while (λ c. c == b'.')
      (trim_end_while (λ c. c == b']') (trim_start_while (λ c. c == b'[') (trim host))))

abbrev pub local_name : Text → Bool
local_name host = text_eq host (codes "localhost") || ends_with host (codes ".localhost")

unfoldable pub is_listener : Endpoint → Option SocketAddr → Bool
is_listener endpoint none = false
is_listener endpoint (some listen) =
    endpoint.port == listen.port
    && (local_name (normalize_host endpoint.host)
        || elim (parse_ip (normalize_host endpoint.host)) [
          | none ↦ false
          | some address ↦
              is_loopback (to_canonical address)
              || (is_unspecified (to_canonical address) || ip_eq (to_canonical address) listen.ip)
        ])

unfoldable pub is_loopback_target : Text → Bool
is_loopback_target host =
    local_name (normalize_host host) || elim (parse_ip (normalize_host host)) [
      | none ↦ false
      | some address ↦ is_loopback (to_canonical address)
    ]

-- `match url.scheme()`
abbrev pub check_scheme : Text → Result Text (Unit {0})
check_scheme scheme =
    if text_eq scheme (codes "http")
    then ok tt
    else if text_eq scheme (codes "https")
    then err (codes "is an https:// proxy; only http:// proxies are supported")
    else if starts_with scheme (codes "socks")
    then err (codes "is a SOCKS proxy; only http:// proxies are supported")
    else err (codes "is not an http:// proxy URL")

abbrev pub required_host : Option Text → Result Text Text
required_host none = err (codes "has no proxy host")
required_host (some host) = ok host

abbrev pub no_path_or_query : Text → Option Text → Result Text (Unit {0})
no_path_or_query path none =
    if is_empty path || text_eq path (codes "/")
    then ok tt
    else err (codes "must not contain a path or query")
no_path_or_query path (some query) = err (codes "must not contain a path or query")

abbrev pub decode : List ℕ → Result Text (List ℕ)
decode part = elim (percent_decode part) [
  | none ↦ err (codes "has invalid credential encoding")
  | some bytes ↦ ok bytes
]

abbrev pub decode_option : Option (List ℕ) → Result Text (Option (List ℕ))
decode_option none = ok none
decode_option (some part) = decode part >>= (λ bytes. ok (some bytes))

abbrev pub port_or_80 : Option ℕ → ℕ
port_or_80 none = 80
port_or_80 (some port) = port

abbrev pub endpoint_of : Url → Result Text Endpoint
endpoint_of url = check_scheme url.scheme >>= (λ scheme_ok. required_host url.host >>= (λ host.
    no_path_or_query url.path url.query >>= (λ path_ok. decode url.username >>= (λ username.
      decode_option url.password >>= (λ password. ok (record {
        host = host;
        port = port_or_80 url.port_or_known_default;
        username = username;
        password = password;
      }))))))

abbrev pub with_scheme : Text → Text
with_scheme value = if contains_text (codes "://") value then value else codes "http://" ++ value

module _ (url_parse : Text → Option Url) where
  unfoldable pub parse_endpoint : Text → Result Text Endpoint
  parse_endpoint value = elim (url_parse (with_scheme (trim value))) [
    | none ↦ err (codes "is not a valid proxy URL")
    | some url ↦ endpoint_of url
  ]

  unfoldable pub parse_mode : Text → Result Text Mode
  parse_mode value =
      let name = to_ascii_lowercase (trim value) in
      if is_empty name || text_eq name (codes "system")
      then ok system
      else if text_eq name (codes "direct") || text_eq name (codes "none")
      then ok direct_mode
      else parse_endpoint value >>= (λ endpoint. ok (fixed endpoint))

unfoldable pub has_credentials : Endpoint → Bool
has_credentials endpoint =
    not (is_empty endpoint.username) || elim endpoint.password [ none ↦ false | some word ↦ true ]
