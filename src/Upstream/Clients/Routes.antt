-- ===== src/Upstream/Clients/Routes.antt =====
-- The routes after any number of re-readings, from `UpstreamProxy::new` on.
use saiai_client.Prelude.{ℕ, Bool, true, false, Option, none, some, List, [], ◌∷◌, Text}
use saiai_client.Upstream.Endpoint.{Url, SocketAddr}
use saiai_client.Upstream.Platform.{Inputs}
use saiai_client.Upstream.Platform.Listener.{PolicyAvoids}
use saiai_client.Upstream.Platform.NoLoop.{policy_from_inputs-Avoids}
use saiai_client.Upstream.Same.{inputs_eq}
use saiai_client.Upstream.Snapshot.{route_blocking}
use saiai_client.Upstream.Snapshot.Routes.{RouteAvoids, route_blocking-RouteAvoids}
use saiai_client.Upstream.Clients.{
  Published, unresolved, publish, publish_unless, publish_after, publish_all,
}

module _ (url_parse : Text → Option Url) (listen : Option SocketAddr) where
  publish_unless-Avoids :
      (same : Bool) (state : Published) (inputs : Inputs)
      → PolicyAvoids listen state.current.policy
      → PolicyAvoids listen (publish_unless url_parse listen same state inputs).1.current.policy
  publish_unless-Avoids true state inputs h = h
  publish_unless-Avoids false state inputs h = policy_from_inputs-Avoids url_parse listen inputs

  publish_after-Avoids :
      (last : Option Inputs) (state : Published) (inputs : Inputs)
      → PolicyAvoids listen state.current.policy
      → PolicyAvoids listen (publish_after url_parse listen last state inputs).1.current.policy
  publish_after-Avoids none state inputs h = policy_from_inputs-Avoids url_parse listen inputs
  publish_after-Avoids (some last) state inputs h =
      publish_unless-Avoids (inputs_eq last inputs) state inputs h

  publish_all-Avoids :
      (state : Published) (readings : List Inputs)
      → PolicyAvoids listen state.current.policy
      → PolicyAvoids listen (publish_all url_parse listen state readings).current.policy
  unfolding publish
  publish_all-Avoids state [] h = h
  publish_all-Avoids state (inputs ∷ readings) h =
      publish_all-Avoids (publish url_parse listen state inputs).1 readings
        (publish_after-Avoids state.last_inputs state inputs h)

  -- After any readings of the configuration from the start, no route of the current snapshot has a
  -- proxy that is the listener itself, whatever the mode, the environment and the system settings say.
  pub publish_all-RouteAvoids :
      (readings : List Inputs) (https : Bool) (host : Text) (port : ℕ)
      → RouteAvoids listen (
          route_blocking
            (publish_all url_parse listen (unresolved listen) readings).current
            https
            host
            port)
  publish_all-RouteAvoids readings https host port =
      route_blocking-RouteAvoids listen
        (publish_all url_parse listen (unresolved listen) readings).current https host port
        (publish_all-Avoids (unresolved listen) readings tt)
