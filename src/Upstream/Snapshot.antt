-- ===== src/Upstream/Snapshot.antt =====
-- Snapshots of the policy in tools/saiai-cli/src/upstream_proxy.rs, the routes that they give.
pub mod Routes
pub mod Direct
use saiai_client.Prelude.{
  ℕ, suc, ◌+◌, Bool, true, false, ◌&&◌, ◌||◌, Option, none, some, List, [], ◌∷◌, ◌++◌, Text, codes,
  trim, is_empty, eq_ignore_ascii_case, ltb, ◌==◌, if◌then◌else◌,
}
use saiai_client.Prelude.Result.{Result, err, ok, ◌>>=◌}
use saiai_client.Upstream.Str.{split_any, split_once}
use saiai_client.Upstream.Endpoint.{
  Url, Endpoint, SocketAddr, Route, direct_route, proxy, is_listener, is_loopback_target,
  parse_endpoint,
}
use saiai_client.Upstream.Policy.{
  StaticProxies, Policy, direct, static, windows_auto, unavailable, static_route,
}

pub record Snapshot : Type 0 where
  pub generation : ℕ
  pub policy : Policy
  pub listen : Option SocketAddr

abbrev pub not_available {ℓ} : {A : Type ℓ} → Result Text A → Result Text A
not_available (err message) = err (codes "upstream proxy unavailable: " ++ message)
not_available (ok a) = ok a

abbrev pub policy_route : Policy → Bool → Text → ℕ → Result Text Route
policy_route direct https host port = ok direct_route
policy_route (static proxies) https host port = not_available (static_route proxies https host port)
policy_route (windows_auto auto_detect config_url fallback) https host port =
    not_available (static_route fallback https host port)
policy_route (unavailable message) https host port = not_available (err message)

-- `route_blocking` where the platform is not Windows
unfoldable pub route_blocking : Snapshot → Bool → Text → ℕ → Result Text Route
route_blocking snapshot https host port =
    if is_loopback_target host
    then ok direct_route
    else policy_route snapshot.policy https host port

-- ERROR_AUTODETECTION_FAILED
abbrev pub autodetection_failed : ℕ
autodetection_failed = 12180

abbrev is_list_separator : ℕ → Bool
is_list_separator c = c == b';' || c == b' '

module _ (url_parse : Text → Option Url) where
  abbrev endpoint_or_none : Text → Option Endpoint
  endpoint_or_none value = elim (parse_endpoint url_parse value) [
    | err error ↦ none
    | ok e ↦ some e
  ]

  -- The closure of `find_map`
  abbrev listed : Text → Option Endpoint
  listed entry = elim (split_once b'=' entry) [
    | none ↦ endpoint_or_none entry
    | some parts ↦
        (if eq_ignore_ascii_case parts.0 (codes "socks") then none else endpoint_or_none parts.1)
  ]

  unfoldable pub first_listed : List Text → Option Endpoint
  first_listed [] = none
  first_listed (raw ∷ entries) =
      let rest = first_listed entries in
      if is_empty (trim raw)
      then rest
      else elim (listed (trim raw)) [ none ↦ rest | some endpoint ↦ some endpoint ]

  unfoldable pub first_proxy : Text → Option Endpoint
  first_proxy list = first_listed (split_any is_list_separator list)

  -- What a list of proxies from the configuration script means
  abbrev pub pac_endpoint : Option SocketAddr → Option Endpoint → Result Text Route
  pac_endpoint listen none = err (codes "proxy auto-configuration returned no usable HTTP proxy")
  pac_endpoint listen (some endpoint) =
      if is_listener endpoint listen
      then err (codes "proxy auto-configuration returned this SAIAI proxy itself")
      else ok (proxy endpoint)

  -- `show` prints an error code.
  unfoldable pub pac_decision :
      (ℕ → Text)
      → Result ℕ (Option Text)
      → Bool
      → StaticProxies
      → Option SocketAddr
      → Bool
      → Text
      → ℕ
      → Result Text Route × Bool
  pac_decision show (ok none) has_script fallback listen https host port = (ok direct_route, false)
  pac_decision show (ok (some list)) has_script fallback listen https host port =
      (pac_endpoint listen (first_proxy list), false)
  pac_decision show (err code) true fallback listen https host port = (
    err (codes "proxy auto-configuration failed (WinHTTP error " ++ show code ++ codes ")"),
    false,
  )
  pac_decision show (err code) false fallback listen https host port =
      if code == autodetection_failed then (static_route fallback https host port, true) else (
        err (codes "proxy auto-configuration failed (WinHTTP error " ++ show code ++ codes ")"),
        false,
      )
