-- ===== src/Upstream/Clients.antt =====
-- `UpstreamProxy::publish` and `HttpClients::client` of tools/saiai-cli/src/upstream_proxy.rs. What
-- the locks guard is passed on.
pub mod Laws
pub mod Routes
use saiai_client.Prelude.{
  ℕ, zero, suc, ◌+◌, Bool, true, false, ◌&&◌, Option, none, some, List, [], ◌∷◌, Text, codes, ltb,
  ◌==◌, if◌then◌else◌,
}
use saiai_client.Prelude.Result.{Result, err, ok}
use saiai_client.Upstream.Endpoint.{Url, SocketAddr, Route}
use saiai_client.Upstream.Policy.{unavailable}
use saiai_client.Upstream.Platform.{Inputs, policy_from_inputs}
use saiai_client.Upstream.Snapshot.{Snapshot}
use saiai_client.Upstream.Same.{inputs_eq, route_eq}

-- The two locks of `UpstreamProxy`
pub record Published : Type 0 where
  pub current : Snapshot
  pub last_inputs : Option Inputs

-- The state before the first reading
abbrev pub unresolved : Option SocketAddr → Published
unresolved listen = record {
  current = record {
    generation = 0;
    policy = unavailable (codes "not resolved yet");
    listen = listen;
  };
  last_inputs = none;
}

module _ (url_parse : Text → Option Url) (listen : Option SocketAddr) where
  abbrev new_snapshot : Published → Inputs → Published
  new_snapshot state inputs = record {
    current = record {
      generation = state.current.generation + 1;
      policy = policy_from_inputs url_parse listen inputs;
      listen = listen;
    };
    last_inputs = some inputs;
  }

  abbrev pub publish_unless : Bool → Published → Inputs → Bool × Published
  publish_unless same state inputs =
      if same then (false, state) else (true, new_snapshot state inputs)

  abbrev pub publish_after : Option Inputs → Published → Inputs → Bool × Published
  publish_after none state inputs = (true, new_snapshot state inputs)
  publish_after (some last) state inputs = publish_unless (inputs_eq last inputs) state inputs

  -- `publish`: whether a snapshot was published, and the state
  unfoldable pub publish : Published → Inputs → Bool × Published
  publish state inputs = publish_after state.last_inputs state inputs

  -- Several readings, one after the other
  abbrev pub publish_all : Published → List Inputs → Published
  publish_all state [] = state
  publish_all state (inputs ∷ later) = publish_all (publish state inputs).1 later

-- `HttpClients::cache`, and the client that is built for a request of some generation and route.
module _ {C : Type 0} where
  unfoldable pub cached : List (Route × C) → Route → Option C
  cached [] route = none
  cached ((r, c) ∷ entries) route = elim (route_eq r route) [
    | true ↦ some c
    | false ↦ cached entries route
  ]

pub record Cache (C : Type 0) : Type 0 where
  pub generation : ℕ
  pub clients : List (Route × C)

module _ {C : Type 0} (build : ℕ → Route → Result Text C) where
  -- `if generation > cache.0`
  abbrev pub current_cache : Cache C → ℕ → Cache C
  current_cache cache generation =
      if ltb cache.generation generation
      then record { generation = generation; clients = [] }
      else cache

  abbrev pub insert_client : Cache C → ℕ → Route → C → Cache C
  insert_client cache generation route c =
      if generation == cache.generation
      then record cache { clients = (route, c) ∷ cache.clients }
      else cache

  abbrev pub keep_built : Cache C → ℕ → Route → Result Text C → Result Text C × Cache C
  keep_built cache generation route (err error) = (err error, cache)
  keep_built cache generation route (ok c) = (ok c, insert_client cache generation route c)

  abbrev pub found_or_built : Cache C → ℕ → Route → Option C → Result Text C × Cache C
  found_or_built cache generation route (some c) = (ok c, cache)
  found_or_built cache generation route none =
      keep_built cache generation route (build generation route)

  abbrev pub in_current : Cache C → ℕ → Route → Result Text C × Cache C
  in_current cache generation route =
      if generation == cache.generation
      then found_or_built cache generation route (cached cache.clients route)
      else keep_built cache generation route (build generation route)

  unfoldable pub client : Cache C → ℕ → Route → Result Text C × Cache C
  client cache generation route = in_current (current_cache cache generation) generation route
