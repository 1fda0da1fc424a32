-- ===== src/Upstream/Clients/Laws.antt =====
-- The published policy is that of the last reading, and a cached client is one of its generation
-- and its route.
use mathlib.Core.Option.{some-injective}
use mathlib.Core.Path.{subst}
use saiai_client.Prelude.{
  ℕ, ◌+◌, ◌≤◌, ◌≡◌, refl, sym, Bool, true, false, Bool-cases, inl, inr, Option, none, some, List,
  [], ◌∷◌, ◌++◌, Text, All, ◌==◌, ==_iff, arith, if◌then◌else◌,
}
use saiai_client.Prelude.Result.{Result, err, ok}
use saiai_client.Upstream.Endpoint.{Url, SocketAddr, Route}
use saiai_client.Upstream.Platform.{Inputs, policy_from_inputs}
use saiai_client.Upstream.Same.{inputs_eq, inputs_eq-Sound, route_eq, route_eq-Sound}
use saiai_client.Upstream.Clients.{
  Published, publish, publish_all, publish_unless, publish_after, cached, Cache, client,
  current_cache, in_current, found_or_built, keep_built, insert_client,
}

module _ (url_parse : Text → Option Url) (listen : Option SocketAddr) where
  -- The snapshot holds what the last reading, if there was one, means.
  abbrev CurrentOf : Published → Option Inputs → Type 0
  CurrentOf state none = Unit
  CurrentOf state (some last) = state.current.policy ≡ policy_from_inputs url_parse listen last

  abbrev IsCurrent : Published → Type 0
  IsCurrent state = CurrentOf state state.last_inputs

  -- What a published reading leaves: its own policy, under the next number if it differs from the
  -- reading before.
  abbrev Publishes : Published → Inputs → Bool × Published → Type 0
  Publishes state inputs (changed, state') =
      (state'.last_inputs ≡ some inputs)
      × (state'.current.policy ≡ policy_from_inputs url_parse listen inputs)
      × (state'.current.generation ≡ state.current.generation + (if changed then 1 else 0))

  publish_unless-Publishes :
      (same : Bool) (state : Published) (inputs last : Inputs)
      → (same ≡ true → last ≡ inputs)
      → state.last_inputs ≡ some last
      → CurrentOf state (some last)
      → Publishes state inputs (publish_unless url_parse listen same state inputs)
  publish_unless-Publishes true state inputs last h e c =
      (cc (e, h refl), cc (c, h refl), omega arith)
  publish_unless-Publishes false state inputs last h e c = (refl, refl, refl)

  publish_after-Publishes :
      (last : Option Inputs) (state : Published) (inputs : Inputs)
      → state.last_inputs ≡ last
      → CurrentOf state last
      → Publishes state inputs (publish_after url_parse listen last state inputs)
  publish_after-Publishes none state inputs e c = (refl, refl, refl)
  publish_after-Publishes (some last) state inputs e c =
      publish_unless-Publishes (inputs_eq last inputs) state inputs last
        (inputs_eq-Sound last inputs) e c

  pub publish-Publishes :
      (state : Published) (inputs : Inputs)
      → IsCurrent state
      → Publishes state inputs (publish url_parse listen state inputs)
  unfolding publish
  publish-Publishes state inputs c = publish_after-Publishes state.last_inputs state inputs refl c

  publish-IsCurrent :
      (state : Published) (inputs : Inputs)
      → IsCurrent state
      → IsCurrent (publish url_parse listen state inputs).1
  publish-IsCurrent state inputs c =
      let (last, policy, generation) = publish-Publishes state inputs c in
      subst (λ (o : Option Inputs). CurrentOf (publish url_parse listen state inputs).1 o)
        (sym last) policy

  -- After any readings, from a state whose policy is that of its last reading, the current policy is
  -- that of the last reading.
  pub publish_all-last :
      (state : Published) (readings : List Inputs) (last : Inputs)
      → IsCurrent state
      → (publish_all url_parse listen state (readings ++ last ∷ [])).current.policy
        ≡ policy_from_inputs url_parse listen last
  publish_all-last state [] last c = (publish-Publishes state last c).1
  publish_all-last state (inputs ∷ readings) last c =
      publish_all-last (publish url_parse listen state inputs).1 readings last
        (publish-IsCurrent state inputs c)

-- `From g r c`: the client was built for a request of that generation and route.
module _ {C : Type 0} (build : ℕ → Route → Result Text C) (From : ℕ → Route → C → Type 0) where
  abbrev pub IsBuilt : Cache C → Type 0
  IsBuilt cache = All (λ (entry : Route × C). From cache.generation entry.0 entry.1) cache.clients

  abbrev pub BuildsFor : Type 0
  BuildsFor = (g : ℕ) (r : Route) (c : C) → build g r ≡ ok c → From g r c

  -- What a request gets, and the cache that it leaves
  abbrev pub Served : ℕ → Route → Cache C → Result Text C × Cache C → Type 0
  Served g r cache served =
      IsBuilt served.1
      × (cache.generation ≤ served.1.generation)
      × ((c : C) → served.0 ≡ ok c → From g r c)

  cached-From :
      (g : ℕ) (entries : List (Route × C)) (route : Route) (c : C)
      → All (λ (entry : Route × C). From g entry.0 entry.1) entries
      → cached entries route ≡ some c
      → From g route c
  unfolding cached
  cached-From g [] route c h e = cc
  cached-From g ((r, d) ∷ entries) route c (here, later) e = elim (Bool-cases (route_eq r route)) [
    | inl same ↦
        subst (λ (x : C). From g route x) (some-injective d c (rw (cached, same) at e))
          (subst (λ (x : Route). From g x d) (route_eq-Sound r route same) here)
    | inr other ↦ cached-From g entries route c later (rw (cached, other) at e)
  ]

  current_cache-IsBuilt :
      (cache : Cache C) (g : ℕ)
      → IsBuilt cache
      → IsBuilt (current_cache build cache g)
        × (cache.generation ≤ (current_cache build cache g).generation)
  current_cache-IsBuilt cache g h = ground (arith, h)

  insert_client-IsBuilt :
      (cache : Cache C) (g : ℕ) (route : Route) (c : C)
      → IsBuilt cache
      → From g route c
      → IsBuilt (insert_client build cache g route c)
        × (cache.generation ≤ (insert_client build cache g route c).generation)
  insert_client-IsBuilt cache g route c h f = elim (Bool-cases (g == cache.generation)) [
    | inl same ↦
        rw same (
          (subst (λ (x : ℕ). From x route c) ((==_iff g cache.generation).0 same) f, h),
          omega arith,
        )
    | inr other ↦ rw other (h, omega arith)
  ]

  keep_built-Served :
      (cache : Cache C) (g : ℕ) (route : Route) (result : Result Text C)
      → IsBuilt cache
      → ((c : C) → result ≡ ok c → From g route c)
      → Served g route cache (keep_built build cache g route result)
  keep_built-Served cache g route (err error) h f = (h, omega arith, λ c e. cc)
  keep_built-Served cache g route (ok c) h f =
      let (kept, grows) = insert_client-IsBuilt cache g route c h (f c refl) in (kept, grows, f)

  found_or_built-Served :
      (cache : Cache C) (g : ℕ) (route : Route) (found : Option C)
      → IsBuilt cache
      → BuildsFor
      → ((c : C) → found ≡ some c → From g route c)
      → Served g route cache (found_or_built build cache g route found)
  found_or_built-Served cache g route none h b f =
      keep_built-Served cache g route (build g route) h (λ c e. b g route c e)
  found_or_built-Served cache g route (some c) h b f = (h, omega arith, λ d e. f d (cc e))

  in_current-Served :
      (cache : Cache C) (g : ℕ) (route : Route)
      → IsBuilt cache
      → BuildsFor
      → Served g route cache (in_current build cache g route)
  in_current-Served cache g route h b = elim (Bool-cases (g == cache.generation)) [
    | inl same ↦ rw same (
        found_or_built-Served cache g route (cached cache.clients route) h b (λ c e.
          subst (λ (x : ℕ). From x route c) (sym ((==_iff g cache.generation).0 same))
            (cached-From cache.generation cache.clients route c h e)))
    | inr other ↦
        rw other (keep_built-Served cache g route (build g route) h (λ c e. b g route c e))
  ]

  -- If each cached client was built for its route and the generation of the cache, a request gets a
  -- client that was built for its own generation and route, the cache stays so, and its generation
  -- never falls.
  pub client-Served :
      (cache : Cache C) (g : ℕ) (route : Route)
      → IsBuilt cache
      → BuildsFor
      → Served g route cache (client build cache g route)
  unfolding client
  client-Served cache g route h b =
      let (kept, grows) = current_cache-IsBuilt cache g h in
      let (built, more, good) = in_current-Served (current_cache build cache g) g route kept b in
      (built, omega (arith, grows, more), good)
