-- ===== src/Upstream/Platform/Scutil.antt =====
-- `macos_policy` of tools/saiai-cli/src/upstream_proxy.rs. The hash map is the list of its
-- insertions, the last first.
use saiai_client.Prelude.{
  ℕ, Bool, true, false, ◌||◌, Option, none, some, List, [], ◌∷◌, ◌++◌, Text, codes, text_eq, trim,
  starts_with, is_empty, if◌then◌else◌,
}
use saiai_client.Prelude.Result.{Result, err, ok, ◌>>=◌}
use saiai_client.Upstream.Str.{split_once_at, lines, parse_uint}
use saiai_client.Upstream.Endpoint.{Url, Endpoint, SocketAddr, parse_endpoint, host_port}
use saiai_client.Upstream.Bypass.{Bypass, simple_hostnames, parse_bypass}
use saiai_client.Upstream.Policy.{Policy, direct, static, unavailable, in_context, unless_listener}

pub record Scan : Type 0 where
  pub values : List (Text × Text)
  pub exceptions : List Text
  pub in_exceptions : Bool

abbrev pub exception_line : Scan → Text → Scan
exception_line scan line =
    if text_eq line (codes "}")
    then record scan { in_exceptions = false }
    else elim (split_once_at (codes " : ") line) [
      | none ↦ scan
      | some parts ↦ record scan { exceptions = scan.exceptions ++ trim parts.1 ∷ [] }
    ]

abbrev pub value_line : Scan → Text × Text → Scan
value_line scan (key, value) =
    if text_eq key (codes "ExceptionsList")
    then record scan { in_exceptions = starts_with (trim value) (codes "<array>") }
    else record scan { values = (trim key, trim value) ∷ scan.values }

-- One line of the loop, trimmed
unfoldable pub scan_line : Scan → Text → Scan
scan_line scan line =
    if scan.in_exceptions
    then exception_line scan line
    else elim (split_once_at (codes " : ") line) [
      | none ↦ scan
      | some parts ↦ value_line scan parts
    ]

unfoldable pub scan_lines : Scan → List Text → Scan
scan_lines scan [] = scan
scan_lines scan (line ∷ rest) = scan_lines (scan_line scan (trim line)) rest

abbrev pub no_scan : Scan
no_scan = record { values = []; exceptions = []; in_exceptions = false }

unfoldable pub value_at : List (Text × Text) → Text → Option Text
value_at [] key = none
value_at ((name, value) ∷ values) key = elim (text_eq name key) [
  | true ↦ some value
  | false ↦ value_at values key
]

abbrev pub enabled : List (Text × Text) → Text → Bool
enabled values key = elim (value_at values key) [
  | none ↦ false
  | some value ↦ text_eq value (codes "1")
]

-- `.filter(|host| !host.is_empty()).with_context(…)?`
abbrev pub required_value : Text → Option Text → Result Text Text
required_value prefix none = err (prefix ++ codes " proxy has no host")
required_value prefix (some host) =
    if is_empty host then err (prefix ++ codes " proxy has no host") else ok host

abbrev pub port_of : Option Text → ℕ
port_of none = 80
port_of (some text) = elim (parse_uint 0xffff text) [ none ↦ 80 | some port ↦ port ]

abbrev pub excluding_simple : Bool → Bypass → Bypass
excluding_simple true bypass = record bypass {
  rules = bypass.rules ++ (record { rule = simple_hostnames; port = none }) ∷ [];
}
excluding_simple false bypass = bypass

abbrev pub macos_error : Text → Policy
macos_error error = unavailable (codes "macOS system proxy: " ++ error)

module _ (url_parse : Text → Option Url) (listen : Option SocketAddr) where
  -- The closure `endpoint`
  unfoldable pub scutil_endpoint : List (Text × Text) → Text → Result Text (Option Endpoint)
  scutil_endpoint values prefix =
      if enabled values (prefix ++ codes "Enable")
      then required_value prefix (value_at values (prefix ++ codes "Proxy")) >>= (λ host.
        in_context (prefix ++ codes " proxy") (
          parse_endpoint url_parse
            (host_port host (port_of (value_at values (prefix ++ codes "Port")))))
        >>= (λ endpoint. ok (unless_listener listen endpoint)))
      else ok none

  -- The match on the two endpoints
  unfoldable pub scutil_policy :
      Scan → Result Text (Option Endpoint) → Result Text (Option Endpoint) → Policy
  scutil_policy scan (err error) http = macos_error error
  scutil_policy scan (ok https) (err error) = macos_error error
  scutil_policy scan (ok none) (ok none) =
      if enabled scan.values (codes "SOCKSEnable")
      then unavailable
          (codes "macOS system proxy is a SOCKS proxy; only HTTP proxies are supported")
      else direct
  scutil_policy scan (ok https) (ok http) = static (record {
    http = http;
    https = https;
    http_error = none;
    https_error = none;
    bypass =
        excluding_simple (enabled scan.values (codes "ExcludeSimpleHostnames"))
          (parse_bypass scan.exceptions true);
  })

  -- What follows the loop
  abbrev pub scanned_policy : Scan → Policy
  scanned_policy scan =
      if enabled scan.values (codes "ProxyAutoConfigEnable")
        || enabled scan.values (codes "ProxyAutoDiscoveryEnable")
      then direct
      else scutil_policy scan (scutil_endpoint scan.values (codes "HTTPS"))
          (scutil_endpoint scan.values (codes "HTTP"))

  unfoldable pub macos_policy : Text → Policy
  macos_policy scutil = scanned_policy (scan_lines no_scan (lines scutil))
