-- ===== src/Upstream/Snapshot/Direct.antt =====
-- When a connection goes directly although SAIAI follows the system's proxy.
use saiai_client.Prelude.{
  ℕ, ◌≡◌, refl, Bool, true, false, Bool-cases, ◌⊎◌, inl, inr, Option, none, some, ◌++◌, Text, codes,
  split, if◌then◌else◌,
}
use saiai_client.Prelude.Result.{Result, err, ok, ◌>>=◌}
use saiai_client.Upstream.Endpoint.{
  Url, Endpoint, SocketAddr, direct_route, is_listener, is_loopback_target, parse_endpoint,
}
use saiai_client.Upstream.Bypass.{parse_bypass, bypass_matches}
use saiai_client.Upstream.Policy.{
  StaticProxies, Policy, EnvProxies, Variable, in_context, unless_listener, text_or_empty,
  parse_env, own_or_all, scheme_proxy, env_policy, system_policy, static_route, endpoint_route,
  ok_of, err_of,
}
use saiai_client.Upstream.Snapshot.{not_available, policy_route, route_blocking}

-- Why a connection goes without the proxy that the environment names for its scheme
abbrev pub configured : Bool → EnvProxies → Variable
configured https env = if https then env.https else env.http

module _ (url_parse : Text → Option Url) (listen : Option SocketAddr) where
  -- The variable is not set, or names the listener.
  abbrev pub Unused : Variable → Type 0
  Unused none = Unit
  Unused (some (name, value)) =
      (e : Endpoint) × (parse_endpoint url_parse value ≡ ok e) × (is_listener e listen ≡ true)

  parse_env-Unused : (v : Variable) → parse_env url_parse listen v ≡ ok none → Unused v
  unfolding parse_env
  parse_env-Unused none h = tt
  parse_env-Unused (some (name, value)) h = of_parsed (parse_endpoint url_parse value) refl h
    where
      of_parsed :
          (r : Result Text Endpoint)
          → parse_endpoint url_parse value ≡ r
          → (in_context (name ++ codes " in the SAIAI environment") r
              >>= (λ endpoint. ok (unless_listener listen endpoint)))
            ≡ ok none
          → (e : Endpoint) × (parse_endpoint url_parse value ≡ ok e) × (is_listener e listen ≡ true)
      of_parsed (err error) e k = cc
      of_parsed (ok endpoint) e k = elim (Bool-cases (is_listener endpoint listen)) [
        | inl same ↦ (endpoint, e, same)
        | inr other ↦ cc (k, other)
      ]

  own_or_all-Unused :
      (own all : Variable) (r : Result Text (Option Endpoint))
      → parse_env url_parse listen own ≡ r
      → (r >>= own_or_all url_parse listen all) ≡ ok none
      → Unused own × Unused all
  own_or_all-Unused own all (err error) e k = cc
  own_or_all-Unused own all (ok (some endpoint)) e k = cc
  own_or_all-Unused own all (ok none) e k = (parse_env-Unused own e, parse_env-Unused all k)

  scheme_proxy-Unused :
      (env : EnvProxies) (own : Variable)
      → scheme_proxy url_parse listen env own ≡ ok none
      → Unused own × Unused env.all
  unfolding scheme_proxy
  scheme_proxy-Unused env own h =
      own_or_all-Unused own env.all (parse_env url_parse listen own) refl h

  endpoint_route-direct :
      (r : Result Text (Option Endpoint))
      → not_available (endpoint_route (ok_of r) (err_of r)) ≡ ok direct_route
      → r ≡ ok none
  endpoint_route-direct (err error) h = cc
  endpoint_route-direct (ok none) h = refl
  endpoint_route-direct (ok (some endpoint)) h = cc

  -- The proxies that the environment gives
  abbrev env_proxies :
      Option Text → Result Text (Option Endpoint) → Result Text (Option Endpoint) → StaticProxies
  env_proxies no_proxy https http = record {
    http = ok_of http;
    https = ok_of https;
    http_error = err_of http;
    https_error = err_of https;
    bypass = parse_bypass (split b',' (text_or_empty no_proxy)) true;
  }

  abbrev pub choose {ℓ} : {A : Type ℓ} → Bool → A → A → A
  choose https a b = if https then a else b

  static_route-direct :
      (no_proxy : Option Text) (https http : Result Text (Option Endpoint)) (secure : Bool)
      (host : Text) (port : ℕ)
      → not_available (static_route (env_proxies no_proxy https http) secure host port)
        ≡ ok direct_route
      → (bypass_matches (parse_bypass (split b',' (text_or_empty no_proxy)) true) host port ≡ true)
        ⊎ ((if secure then https else http) ≡ ok none)
  unfolding static_route
  static_route-direct no_proxy https http true host port h =
      elim (Bool-cases
        (bypass_matches (parse_bypass (split b',' (text_or_empty no_proxy)) true) host port)) [
          | inl skipped ↦ inl skipped
          | inr other ↦ inr (endpoint_route-direct https (rw (static_route, other) at h))
        ]
  static_route-direct no_proxy https http false host port h =
      elim (Bool-cases
        (bypass_matches (parse_bypass (split b',' (text_or_empty no_proxy)) true) host port)) [
          | inl skipped ↦ inl skipped
          | inr other ↦ inr (endpoint_route-direct http (rw (static_route, other) at h))
        ]

  env_route-direct :
      (no_proxy : Option Text) (https http : Result Text (Option Endpoint)) (secure : Bool)
      (host : Text) (port : ℕ) (os : Policy)
      → policy_route
          (elim (env_policy url_parse listen no_proxy https http) [
            | none ↦ os
            | some policy ↦ policy
          ])
          secure
          host
          port
        ≡ ok direct_route
      → (bypass_matches (parse_bypass (split b',' (text_or_empty no_proxy)) true) host port ≡ true)
        ⊎ ((if secure then https else http) ≡ ok none)
  unfolding env_policy
  env_route-direct no_proxy (ok none) (ok none) true host port os h = inr refl
  env_route-direct no_proxy (ok none) (ok none) false host port os h = inr refl
  env_route-direct no_proxy (err e) (err f) secure host port os h = cc
  env_route-direct no_proxy (err e) (ok p) secure host port os h =
      static_route-direct no_proxy (err e) (ok p) secure host port h
  env_route-direct no_proxy (ok (some p)) (err f) secure host port os h =
      static_route-direct no_proxy (ok (some p)) (err f) secure host port h
  env_route-direct no_proxy (ok none) (err f) secure host port os h =
      static_route-direct no_proxy (ok none) (err f) secure host port h
  env_route-direct no_proxy (ok (some p)) (ok q) secure host port os h =
      static_route-direct no_proxy (ok (some p)) (ok q) secure host port h
  env_route-direct no_proxy (ok none) (ok (some q)) secure host port os h =
      static_route-direct no_proxy (ok none) (ok (some q)) secure host port h

  of_scheme :
      (env : EnvProxies) (https : Bool)
      → (if https
          then scheme_proxy url_parse listen env env.https
          else scheme_proxy url_parse listen env env.http)
        ≡ ok none
      → Unused (configured https env) × Unused env.all
  of_scheme env true h = scheme_proxy-Unused env env.https h
  of_scheme env false h = scheme_proxy-Unused env env.http h

  -- In system mode a route is direct only if the target is a loopback name or address, NO_PROXY
  -- skips it, or the variable of its scheme and ALL_PROXY are each unset or name the listener.
  pub system_policy-direct :
      (env : EnvProxies) (os : Policy) (generation : ℕ) (https : Bool) (host : Text) (port : ℕ)
      → route_blocking
          (record {
            generation = generation;
            policy = system_policy url_parse listen env os;
            listen = listen;
          })
          https
          host
          port
        ≡ ok direct_route
      → (is_loopback_target host ≡ true)
        ⊎ ((bypass_matches (parse_bypass (split b',' (text_or_empty env.no_proxy)) true) host port
              ≡ true)
            ⊎ (Unused (configured https env) × Unused env.all))
  unfolding route_blocking system_policy
  system_policy-direct env os generation https host port h =
      elim (Bool-cases (is_loopback_target host)) [
        | inl local ↦ inl local
        | inr remote ↦
            elim (env_route-direct env.no_proxy _ _ https host port os
              (rw (route_blocking, remote) at h)) [
                | inl skipped ↦ inr (inl skipped)
                | inr unset ↦ inr (inr (of_scheme env https unset))
              ]
      ]
