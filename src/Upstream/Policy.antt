-- ===== src/Upstream/Policy.antt =====
-- The policies of tools/saiai-cli/src/upstream_proxy.rs and how the environment gives one. What is
-- only printed, the description beside a policy, is left out.
use saiai_client.Prelude.{
  ℕ, Bool, true, Option, none, some, List, [], ◌∷◌, ◌++◌, Text, codes, trim, is_empty, split,
  if◌then◌else◌,
}
use saiai_client.Prelude.Result.{Result, err, ok, ◌>>=◌}
use saiai_client.Upstream.Endpoint.{
  Url, Endpoint, SocketAddr, Route, direct_route, proxy, is_listener, parse_endpoint,
}
use saiai_client.Upstream.Bypass.{Bypass, default_bypass, parse_bypass, bypass_matches}

pub record StaticProxies : Type 0 where
  pub http : Option Endpoint
  pub https : Option Endpoint
  pub http_error : Option Text
  pub https_error : Option Text
  pub bypass : Bypass

abbrev pub endpoint_route : Option Endpoint → Option Text → Result Text Route
endpoint_route (some endpoint) error = ok (proxy endpoint)
endpoint_route none (some error) = err error
endpoint_route none none = ok direct_route

-- `StaticProxies::route`
unfoldable pub static_route : StaticProxies → Bool → Text → ℕ → Result Text Route
static_route proxies https host port =
    if bypass_matches proxies.bypass host port
    then ok direct_route
    else if https
    then endpoint_route proxies.https proxies.https_error
    else endpoint_route proxies.http proxies.http_error

pub data Policy : Type 0 where
  direct : Policy
  static : StaticProxies → Policy
  windows_auto : Bool → Option Text → StaticProxies → Policy
  unavailable : Text → Policy

-- A variable with its name
abbrev pub Variable : Type 0
Variable = Option (Text × Text)

pub record EnvProxies : Type 0 where
  pub https : Variable
  pub http : Variable
  pub all : Variable
  pub no_proxy : Option Text

abbrev pub set_value : Option Text → Option Text
set_value none = none
set_value (some value) = if is_empty (trim value) then none else some value

unfoldable pub first_set : (Text → Option Text) → List Text → Variable
first_set lookup [] = none
first_set lookup (name ∷ names) = elim (set_value (lookup name)) [
  | some value ↦ some (name, value)
  | none ↦ first_set lookup names
]

abbrev pub value_of : Variable → Option Text
value_of none = none
value_of (some (name, value)) = some value

-- `EnvProxies::from_lookup`
unfoldable pub from_lookup : (Text → Option Text) → EnvProxies
from_lookup lookup = record {
  https = first_set lookup (codes "https_proxy" ∷ codes "HTTPS_PROXY" ∷ []);
  http = first_set lookup (codes "http_proxy" ∷ codes "HTTP_PROXY" ∷ []);
  all = first_set lookup (codes "all_proxy" ∷ codes "ALL_PROXY" ∷ []);
  no_proxy = value_of (first_set lookup (codes "no_proxy" ∷ codes "NO_PROXY" ∷ []));
}

-- `with_context`, printed with `{:#}`
abbrev pub in_context {ℓ} : {A : Type ℓ} → Text → Result Text A → Result Text A
in_context context (err error) = err (context ++ codes ": " ++ error)
in_context context (ok a) = ok a

-- `unwrap_or_default` of a text
abbrev pub text_or_empty : Option Text → Text
text_or_empty none = []
text_or_empty (some text) = text

-- An endpoint that is the listener itself is dropped.
abbrev pub unless_listener : Option SocketAddr → Endpoint → Option Endpoint
unless_listener listen endpoint = if is_listener endpoint listen then none else some endpoint

abbrev pub ok_of {ℓ} : {A : Type ℓ} → Result Text (Option A) → Option A
ok_of (err error) = none
ok_of (ok o) = o

abbrev pub err_of {ℓ} : {A : Type ℓ} → Result Text A → Option Text
err_of (err error) = some error
err_of (ok a) = none

module _ (url_parse : Text → Option Url) (listen : Option SocketAddr) where
  unfoldable pub parse_env : Variable → Result Text (Option Endpoint)
  parse_env none = ok none
  parse_env (some (name, value)) =
      in_context (name ++ codes " in the SAIAI environment") (parse_endpoint url_parse value)
      >>= (λ endpoint. ok (unless_listener listen endpoint))

  abbrev pub own_or_all : Variable → Option Endpoint → Result Text (Option Endpoint)
  own_or_all all (some endpoint) = ok (some endpoint)
  own_or_all all none = parse_env all

  -- The closure `scheme`
  unfoldable pub scheme_proxy : EnvProxies → Variable → Result Text (Option Endpoint)
  scheme_proxy env own = parse_env own >>= own_or_all env.all

  -- What the environment says of the two schemes; nothing when it names no proxy
  unfoldable pub env_policy :
      Option Text → Result Text (Option Endpoint) → Result Text (Option Endpoint) → Option Policy
  env_policy no_proxy (ok none) (ok none) = none
  env_policy no_proxy (err message) (err other) = some (unavailable message)
  env_policy no_proxy https http = some (
      static (record {
        http = ok_of http;
        https = ok_of https;
        http_error = err_of http;
        https_error = err_of https;
        bypass = parse_bypass (split b',' (text_or_empty no_proxy)) true;
      }))

  -- `system_policy`, where `os` is what `os_policy` gives
  unfoldable pub system_policy : EnvProxies → Policy → Policy
  system_policy env os =
      elim (env_policy env.no_proxy (scheme_proxy env env.https) (scheme_proxy env env.http)) [
        | none ↦ os
        | some policy ↦ policy
      ]

  -- `Mode::Fixed`
  unfoldable pub fixed_policy : Endpoint → Policy
  fixed_policy endpoint =
      if is_listener endpoint listen
      then unavailable (codes "the configured upstream proxy is this SAIAI proxy itself")
      else static (record {
        http = some endpoint;
        https = some endpoint;
        http_error = none;
        https_error = none;
        bypass = default_bypass;
      })
