-- ===== src/Upstream/Snapshot/Routes.antt =====
-- Where the routes of a snapshot lead: never back to the listener.
use saiai_client.Prelude.{
  ℕ, ◌≡◌, Bool, true, false, Bool-cases, inl, inr, Option, none, some, Text, ◌==◌, if◌then◌else◌,
}
use saiai_client.Prelude.Result.{Result, err, ok}
use saiai_client.Upstream.Endpoint.{
  Url, Endpoint, SocketAddr, Route, direct_route, proxy, is_listener, is_loopback_target,
}
use saiai_client.Upstream.Bypass.{bypass_matches}
use saiai_client.Upstream.Policy.{
  StaticProxies, Policy, direct, static, windows_auto, unavailable, static_route, endpoint_route,
}
use saiai_client.Upstream.Platform.Listener.{Avoids, AvoidsBoth, PolicyAvoids}
use saiai_client.Upstream.Snapshot.{
  Snapshot, not_available, policy_route, route_blocking, pac_decision, pac_endpoint, first_proxy,
  autodetection_failed,
}

module _ (listen : Option SocketAddr) where
  -- The route, if it has a proxy, has one that is not the listener.
  abbrev pub RouteAvoids : Result Text Route → Type 0
  RouteAvoids (err message) = Unit
  RouteAvoids (ok direct_route) = Unit
  RouteAvoids (ok (proxy endpoint)) = is_listener endpoint listen ≡ false

  if-RouteAvoids :
      (b : Bool) (x y : Result Text Route)
      → RouteAvoids x
      → RouteAvoids y
      → RouteAvoids (if b then x else y)
  if-RouteAvoids true x y h k = h
  if-RouteAvoids false x y h k = k

  endpoint_route-RouteAvoids :
      (endpoint : Option Endpoint) (error : Option Text)
      → Avoids listen endpoint
      → RouteAvoids (endpoint_route endpoint error)
  endpoint_route-RouteAvoids (some endpoint) error h = h
  endpoint_route-RouteAvoids none (some error) h = tt
  endpoint_route-RouteAvoids none none h = tt

  static_route-RouteAvoids :
      (proxies : StaticProxies) (https : Bool) (host : Text) (port : ℕ)
      → AvoidsBoth listen proxies
      → RouteAvoids (static_route proxies https host port)
  unfolding static_route
  static_route-RouteAvoids proxies https host port (to_http, to_https) =
      if-RouteAvoids (bypass_matches proxies.bypass host port) _ _ tt (
        if-RouteAvoids https _ _
          (endpoint_route-RouteAvoids proxies.https proxies.https_error to_https)
          (endpoint_route-RouteAvoids proxies.http proxies.http_error to_http))

  not_available-RouteAvoids :
      (r : Result Text Route) → RouteAvoids r → RouteAvoids (not_available r)
  not_available-RouteAvoids (err message) h = tt
  not_available-RouteAvoids (ok route) h = h

  policy_route-RouteAvoids :
      (policy : Policy) (https : Bool) (host : Text) (port : ℕ)
      → PolicyAvoids listen policy
      → RouteAvoids (policy_route policy https host port)
  policy_route-RouteAvoids direct https host port h = tt
  policy_route-RouteAvoids (static proxies) https host port h =
      not_available-RouteAvoids _ (static_route-RouteAvoids proxies https host port h)
  policy_route-RouteAvoids (windows_auto auto_detect config_url fallback) https host port h =
      not_available-RouteAvoids _ (static_route-RouteAvoids fallback https host port h)
  policy_route-RouteAvoids (unavailable message) https host port h = tt

  pub route_blocking-RouteAvoids :
      (snapshot : Snapshot) (https : Bool) (host : Text) (port : ℕ)
      → PolicyAvoids listen snapshot.policy
      → RouteAvoids (route_blocking snapshot https host port)
  unfolding route_blocking
  route_blocking-RouteAvoids snapshot https host port h =
      if-RouteAvoids (is_loopback_target host) _ _ tt
        (policy_route-RouteAvoids snapshot.policy https host port h)

  pac_endpoint-RouteAvoids :
      (url_parse : Text → Option Url) (found : Option Endpoint)
      → RouteAvoids (pac_endpoint url_parse listen found)
  pac_endpoint-RouteAvoids url_parse none = tt
  pac_endpoint-RouteAvoids url_parse (some endpoint) =
      elim (Bool-cases (is_listener endpoint listen)) [
        | inl same ↦ rw same tt
        | inr other ↦ rw (other) other
      ]

  -- Automatic configuration never gives a route through the listener, when the fallback has none.
  pub pac_decision-RouteAvoids :
      (url_parse : Text → Option Url) (show : ℕ → Text) (outcome : Result ℕ (Option Text))
      (has_script : Bool) (fallback : StaticProxies) (https : Bool) (host : Text) (port : ℕ)
      → AvoidsBoth listen fallback
      → RouteAvoids
          (pac_decision url_parse show outcome has_script fallback listen https host port).0
  unfolding pac_decision
  pac_decision-RouteAvoids url_parse show (ok none) has_script fallback https host port h = tt
  pac_decision-RouteAvoids url_parse show (ok (some list)) has_script fallback https host port h =
      pac_endpoint-RouteAvoids url_parse (first_proxy url_parse list)
  pac_decision-RouteAvoids url_parse show (err code) true fallback https host port h = tt
  pac_decision-RouteAvoids url_parse show (err code) false fallback https host port h =
      elim (Bool-cases (code == autodetection_failed)) [
        | inl same ↦ rw (pac_decision, same) (static_route-RouteAvoids fallback https host port h)
        | inr other ↦ rw (pac_decision, other) tt
      ]
