-- ===== src/Upstream/Platform/Listener.antt =====
-- No route of a policy leads back to the listener.
use saiai_client.Prelude.{◌≡◌, false, Bool-cases, inl, inr, Option, none, some, ◌++◌, Text, codes}
use saiai_client.Prelude.Result.{Result, err, ok, ◌>>=◌}
use saiai_client.Upstream.Endpoint.{Url, Endpoint, SocketAddr, is_listener, parse_endpoint}
use saiai_client.Upstream.Policy.{
  StaticProxies, Policy, direct, static, windows_auto, unavailable, EnvProxies, Variable,
  in_context, unless_listener, parse_env, own_or_all, scheme_proxy, env_policy, system_policy,
  fixed_policy, ok_of,
}
use saiai_client.Upstream.Platform.{fill, or_else}

module _ (listen : Option SocketAddr) where
  -- No listener here
  abbrev pub Avoids : Option Endpoint → Type 0
  Avoids none = Unit
  Avoids (some endpoint) = is_listener endpoint listen ≡ false

  abbrev pub AvoidsBoth : StaticProxies → Type 0
  AvoidsBoth proxies = Avoids proxies.http × Avoids proxies.https

  abbrev pub PolicyAvoids : Policy → Type 0
  PolicyAvoids direct = Unit
  PolicyAvoids (static proxies) = AvoidsBoth proxies
  PolicyAvoids (windows_auto auto_detect config_url fallback) = AvoidsBoth fallback
  PolicyAvoids (unavailable message) = Unit

  -- A result avoids the listener where there is one.
  abbrev pub ResultAvoids : Result Text (Option Endpoint) → Type 0
  ResultAvoids (err error) = Unit
  ResultAvoids (ok o) = Avoids o

  unless_listener-Avoids : (endpoint : Endpoint) → Avoids (unless_listener listen endpoint)
  unless_listener-Avoids endpoint = elim (Bool-cases (is_listener endpoint listen)) [
    | inl same ↦ rw same tt
    | inr other ↦ rw (other) other
  ]

  pub checked-ResultAvoids :
      (parsed : Result Text Endpoint)
      → ResultAvoids (parsed >>= (λ endpoint. ok (unless_listener listen endpoint)))
  checked-ResultAvoids (err error) = tt
  checked-ResultAvoids (ok endpoint) = unless_listener-Avoids endpoint

  ok_of-Avoids : (r : Result Text (Option Endpoint)) → ResultAvoids r → Avoids (ok_of r)
  ok_of-Avoids (err error) h = tt
  ok_of-Avoids (ok o) h = h

  pub fill-Avoids : (old new : Option Endpoint) → Avoids old → Avoids new → Avoids (fill old new)
  fill-Avoids none new h k = k
  fill-Avoids (some e) new h k = h

  pub or_else-Avoids :
      (own all : Option Endpoint) → Avoids own → Avoids all → Avoids (or_else own all)
  or_else-Avoids none all h k = k
  or_else-Avoids (some e) all h k = h

  module _ (url_parse : Text → Option Url) where
    parse_env-ResultAvoids : (v : Variable) → ResultAvoids (parse_env url_parse listen v)
    unfolding parse_env
    parse_env-ResultAvoids none = tt
    parse_env-ResultAvoids (some (name, value)) =
        checked-ResultAvoids
          (in_context (name ++ codes " in the SAIAI environment") (parse_endpoint url_parse value))

    own_or_all-ResultAvoids :
        (all : Variable) (own : Result Text (Option Endpoint))
        → ResultAvoids own
        → ResultAvoids (own >>= own_or_all url_parse listen all)
    own_or_all-ResultAvoids all (err error) h = tt
    own_or_all-ResultAvoids all (ok none) h = parse_env-ResultAvoids all
    own_or_all-ResultAvoids all (ok (some endpoint)) h = h

    scheme_proxy-ResultAvoids :
        (env : EnvProxies) (own : Variable) → ResultAvoids (scheme_proxy url_parse listen env own)
    unfolding scheme_proxy
    scheme_proxy-ResultAvoids env own =
        own_or_all-ResultAvoids env.all (parse_env url_parse listen own)
          (parse_env-ResultAvoids own)

    -- The two results of a policy: a policy of the environment, or none, avoids the listener.
    abbrev pub SomePolicyAvoids : Option Policy → Type 0
    SomePolicyAvoids none = Unit
    SomePolicyAvoids (some policy) = PolicyAvoids policy

    env_policy-Avoids :
        (no_proxy : Option Text) (https http : Result Text (Option Endpoint))
        → ResultAvoids https
        → ResultAvoids http
        → SomePolicyAvoids (env_policy url_parse listen no_proxy https http)
    unfolding env_policy
    env_policy-Avoids no_proxy (err e) (err f) h k = tt
    env_policy-Avoids no_proxy (err e) (ok p) h k = (k, tt)
    env_policy-Avoids no_proxy (ok none) (ok none) h k = tt
    env_policy-Avoids no_proxy (ok none) (ok (some p)) h k = (k, h)
    env_policy-Avoids no_proxy (ok none) (err f) h k = (tt, h)
    env_policy-Avoids no_proxy (ok (some p)) (ok q) h k = (k, h)
    env_policy-Avoids no_proxy (ok (some p)) (err f) h k = (tt, h)

    or_os-Avoids :
        (env : Option Policy) (os : Policy)
        → SomePolicyAvoids env
        → PolicyAvoids os
        → PolicyAvoids (elim env [ none ↦ os | some policy ↦ policy ])
    or_os-Avoids none os h k = k
    or_os-Avoids (some policy) os h k = h

    pub system_policy-Avoids :
        (env : EnvProxies) (os : Policy)
        → PolicyAvoids os
        → PolicyAvoids (system_policy url_parse listen env os)
    unfolding system_policy
    system_policy-Avoids env os h =
        or_os-Avoids
          (env_policy url_parse listen env.no_proxy (scheme_proxy url_parse listen env env.https)
            (scheme_proxy url_parse listen env env.http))
          os
          (env_policy-Avoids env.no_proxy _ _ (scheme_proxy-ResultAvoids env env.https)
            (scheme_proxy-ResultAvoids env env.http))
          h

    pub fixed_policy-Avoids :
        (endpoint : Endpoint) → PolicyAvoids (fixed_policy url_parse listen endpoint)
    unfolding fixed_policy
    fixed_policy-Avoids endpoint = elim (Bool-cases (is_listener endpoint listen)) [
      | inl same ↦ rw (fixed_policy, same) tt
      | inr other ↦ rw (fixed_policy, other) (other, other)
    ]
