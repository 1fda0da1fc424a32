-- ===== src/Upstream/Platform.antt =====
-- The operating system's proxy settings in tools/saiai-cli/src/upstream_proxy.rs, and the policy
-- that they and the environment give together.
pub mod Scutil
pub mod Listener
pub mod NoLoop
use saiai_client.Prelude.{
  ℕ, Bool, true, false, not, ◌&&◌, ◌||◌, Option, none, some, List, [], ◌∷◌, ◌++◌, Text, codes,
  text_eq, trim, is_empty, is_some, to_ascii_lowercase, ◌==◌, if◌then◌else◌,
}
use saiai_client.Prelude.Result.{Result, err, ok, ◌>>=◌}
use saiai_client.Upstream.Str.{split_any, split_once}
use saiai_client.Upstream.Endpoint.{
  Url, Endpoint, SocketAddr, Mode, system, direct_mode, fixed, is_listener, parse_endpoint,
}
use saiai_client.Upstream.Bypass.{parse_bypass}
use saiai_client.Upstream.Policy.{
  StaticProxies, Policy, direct, static, windows_auto, unavailable, EnvProxies, in_context,
  text_or_empty, unless_listener, system_policy, fixed_policy,
}
use saiai_client.Upstream.Platform.Scutil.{macos_policy}

pub data OsProxy : Type 0 where
  no_os_proxy : OsProxy
  windows : Bool → Option Text → Option Text → Option Text → OsProxy
  mac_os : Text → OsProxy
  unreadable : Text → OsProxy

pub record Inputs : Type 0 where
  pub mode : Result Text Mode
  pub env : EnvProxies
  pub os : OsProxy

-- The local variables of the loop over the entries of `ProxyServer`
pub record Slots : Type 0 where
  pub all : Option Endpoint
  pub http : Option Endpoint
  pub https : Option Endpoint
  pub socks : Bool

abbrev pub no_slots : Slots
no_slots = record { all = none; http = none; https = none; socks = false }

-- `if !endpoint.is_listener(listen) && slot.is_none()`
abbrev pub fill : Option Endpoint → Option Endpoint → Option Endpoint
fill (some old) endpoint = some old
fill none endpoint = endpoint

abbrev pub or_else : Option Endpoint → Option Endpoint → Option Endpoint
or_else (some own) all = some own
or_else none all = all

abbrev pub is_separator : ℕ → Bool
is_separator c = c == b';' || (c == b' ' || (c == b'\t' || (c == b'\r' || c == b'\n')))

abbrev pub socks_error : Bool → Option Endpoint → Option Text
socks_error socks (some endpoint) = none
socks_error true none = some (codes "Windows SOCKS proxy is not supported; only HTTP proxies are")
socks_error false none = none

-- What the loop leaves
unfoldable pub slot_proxies : Option Text → Slots → Result Text StaticProxies
slot_proxies bypass slots =
    let https = or_else slots.https slots.all in
    let http = or_else slots.http slots.all in
    if slots.socks && (not (is_some https) && not (is_some http))
    then err (codes "is a SOCKS proxy; only HTTP proxies are supported")
    else ok (record {
      http = http;
      https = https;
      http_error = socks_error slots.socks http;
      https_error = socks_error slots.socks https;
      bypass = parse_bypass (split_any (λ c. c == b';' || c == b' ') (text_or_empty bypass)) false;
    })

module _ (url_parse : Text → Option Url) (listen : Option SocketAddr) where
  abbrev pub server_entry : Text → Result Text (Option Endpoint)
  server_entry value =
      in_context (codes "ProxyServer entry") (parse_endpoint url_parse value)
      >>= (λ endpoint. ok (unless_listener listen endpoint))

  abbrev pub named_entry : Slots → Text → Text → Result Text Slots
  named_entry slots scheme value =
      if text_eq scheme (codes "http")
      then server_entry value >>= (λ e. ok (record slots { http = fill slots.http e }))
      else if text_eq scheme (codes "https")
      then server_entry value >>= (λ e. ok (record slots { https = fill slots.https e }))
      else if text_eq scheme (codes "socks")
      then ok (record slots { socks = true })
      else ok slots

  abbrev pub split_entry : Slots → Text → Option (Text × Text) → Result Text Slots
  split_entry slots entry none =
      server_entry entry >>= (λ e. ok (record slots { all = fill slots.all e }))
  split_entry slots entry (some parts) =
      named_entry slots (to_ascii_lowercase (trim parts.0)) parts.1

  -- One entry of the loop
  unfoldable pub add_entry : Slots → Text → Result Text Slots
  add_entry slots entry =
      if is_empty (trim entry) then ok slots else split_entry slots entry (split_once b'=' entry)

  unfoldable pub add_entries : Slots → List Text → Result Text Slots
  add_entries slots [] = ok slots
  add_entries slots (entry ∷ entries) =
      add_entry slots entry >>= (λ slots'. add_entries slots' entries)

  unfoldable pub windows_static_proxies : Option Text → Option Text → Result Text StaticProxies
  windows_static_proxies server bypass =
      add_entries no_slots (split_any is_separator (text_or_empty server)) >>= slot_proxies bypass

  abbrev pub windows_policy : Bool → Option Text → Result Text StaticProxies → Policy
  windows_policy auto_detect config_url (err error) = unavailable (codes "Windows proxy " ++ error)
  windows_policy auto_detect config_url (ok fallback) =
      if auto_detect || is_some config_url
      then windows_auto auto_detect config_url fallback
      else static fallback

  unfoldable pub os_policy : OsProxy → Policy
  os_policy no_os_proxy = direct
  os_policy (unreadable error) = unavailable (codes "failed to read the system proxy: " ++ error)
  os_policy (windows auto_detect config_url server bypass) =
      windows_policy auto_detect config_url (windows_static_proxies server bypass)
  os_policy (mac_os scutil) = macos_policy url_parse listen scutil

  abbrev pub mode_policy : Mode → EnvProxies → OsProxy → Policy
  mode_policy direct_mode env os = direct
  mode_policy (fixed endpoint) env os = fixed_policy url_parse listen endpoint
  mode_policy system env os = system_policy url_parse listen env (os_policy os)

  unfoldable pub policy_from_inputs : Inputs → Policy
  policy_from_inputs inputs = elim inputs.mode [
    | err error ↦ unavailable error
    | ok mode ↦ mode_policy mode inputs.env inputs.os
  ]
