-- ===== src/Core/Setup/Unchanged.antt =====
-- A setup that fails changes nothing that stood before.
use saiai_client.Prelude.{
  ℕ, ◌≡◌, ◌≢◌, refl, Bool, true, false, Bool-cases, inl, inr, Option, none, some, arith,
}
use saiai_client.Prelude.Result.{Result, ok, err}
use saiai_client.Core.Error.{Error, FilePath}
use saiai_client.Core.Fs.{Node, Entries, under, lookup}
use saiai_client.Core.Config.{ConfigV2}
use saiai_client.Core.Prog.{World, lift, continue, outcome_of, ◌>>=◌}
use saiai_client.Core.Prog.Keeps.{SameTree, Keeps, Keeps-bind, Keeps-pure, Keeps-raise, Keeps-if}
use saiai_client.Core.Prog.OnError.{
  Ensures, Ensures-pure, Ensures-bind_ensures, KeepsOnErr, KeepsOnErr-bind, KeepsOnErr-undone_by,
  continue-KeepsOnErr,
}
use saiai_client.Core.Sys.{symlink_metadata, system_call, tree, node_at}
use saiai_client.Core.Sys.Keeps.{Stands}
use saiai_client.Core.Files.{path_present_no_follow}
use saiai_client.Core.Files.Keeps.{Avoids, Keeps-path_present_no_follow}
use saiai_client.Core.Paths.{AppPaths}
use saiai_client.Core.Artifacts.{ProductSetupArtifacts, artifacts_product, validate_artifacts}
use saiai_client.Core.Load.{ManagedRootPresence, any_root, inspect_roots}
use saiai_client.Core.Load.Keeps.{Keeps-load_config_optional_strict, Keeps-inspect_roots}
use saiai_client.Core.Transaction.Keeps.{
  Keeps-acquire_transaction_lock, Keeps-roots_are_clean_for_first_setup,
  Keeps-cleanup_new_transaction_state_root, Keeps-failed_setup_root_cleanup,
}
use saiai_client.Core.Setup.{
  SetupRequest, refuse_dirty, admit_setup, with_root_cleanup, setup_locked, install, setup_product,
}
use saiai_client.Core.Setup.Keeps.{KeepsOnErr-install}
use saiai_client.Core.Env.{Env}

-- A root that was absent does not hold `q`.
record RootsSafe (paths : AppPaths) (before : ManagedRootPresence) (q : FilePath) : Type 0 where
  config_safe : before.config ≡ false → under paths.config_dir q ≡ false
  data_safe : before.app_data ≡ false → under paths.data_dir q ≡ false
  state_safe : before.state ≡ false → under paths.state_dir q ≡ false

module _ {q : FilePath} {n : Node} {n₀ : ℕ} (e : Env) (before : ManagedRootPresence)
    (safe : RootsSafe e.paths before q) where
  Keeps-refuse_dirty : (clean : Bool) → Keeps (Stands q n n₀) (refuse_dirty e before clean)
  Keeps-refuse_dirty true = Keeps-pure tt
  Keeps-refuse_dirty false =
      Keeps-bind _ _
        (Keeps-cleanup_new_transaction_state_root e.paths before safe.config_safe safe.data_safe
          safe.state_safe)
        λ _. Keeps-raise _

  Keeps-admit_setup : (o : Option ConfigV2) → Keeps (Stands q n n₀) (admit_setup e before o)
  unfolding admit_setup
  Keeps-admit_setup (some config) = Keeps-pure tt
  Keeps-admit_setup none = Keeps-if (any_root before) _ _ (Keeps-refuse_dirty false) (
      Keeps-bind _ _ (Keeps-roots_are_clean_for_first_setup e.paths)
        λ clean. Keeps-refuse_dirty clean)

  module _ (avoids : Avoids e.uuid n₀ q) (request : SetupRequest)
      (artifacts : ProductSetupArtifacts) where
    KeepsOnErr-guarded :
        (o : Option ConfigV2)
        → KeepsOnErr (Stands q n n₀) (
            with_root_cleanup e before o
              (install e request artifacts (artifacts_product artifacts) o))
    KeepsOnErr-guarded (some config) = KeepsOnErr-install e avoids request artifacts _ (some config)
    KeepsOnErr-guarded none =
        KeepsOnErr-undone_by _ _ (KeepsOnErr-install e avoids request artifacts _ none) (
          Keeps-failed_setup_root_cleanup e.paths before safe.config_safe safe.data_safe
            safe.state_safe)

    KeepsOnErr-setup_locked : KeepsOnErr (Stands q n n₀) (setup_locked e request artifacts before)
    KeepsOnErr-setup_locked = KeepsOnErr-bind _ _ (Keeps-acquire_transaction_lock e.paths) λ _.
        KeepsOnErr-bind _ _ (Keeps-load_config_optional_strict e)
          λ o. KeepsOnErr-bind _ _ (Keeps-admit_setup o) λ _. KeepsOnErr-guarded o

module _ (fs : Entries) where
  absent_at :
      (p : FilePath) (w : World) (b : Bool)
      → w.entries ≡ fs
      → (path_present_no_follow p w).0 ≡ ok b
      → b ≡ false
      → node_at p fs ≡ none
  unfolding path_present_no_follow symlink_metadata system_call tree ◌>>=◌ outcome_of lift
  absent_at p w b s h k = ground arith

  absent :
      (p : FilePath)
      → Ensures (SameTree fs) (path_present_no_follow p) (λ b. b ≡ false → node_at p fs ≡ none)
  absent p = record { at = λ w b s h k. absent_at p w b s.same h k }

  abbrev RootsAbsent : AppPaths → ManagedRootPresence → Type 0
  RootsAbsent paths r =
      (r.config ≡ false → node_at paths.config_dir fs ≡ none)
      × (r.app_data ≡ false → node_at paths.data_dir fs ≡ none)
      × (r.state ≡ false → node_at paths.state_dir fs ≡ none)

  inspect_roots-absent : (e : Env) → Ensures (SameTree fs) (inspect_roots e) (RootsAbsent e.paths)
  unfolding inspect_roots
  inspect_roots-absent e =
      Ensures-bind_ensures _ _ _ _ (Keeps-path_present_no_follow _) (absent _) λ c hc.
        Ensures-bind_ensures _ _ _ _ (Keeps-path_present_no_follow _) (absent _) λ d hd.
          Ensures-bind_ensures _ _ _ _ (Keeps-path_present_no_follow _) (absent _)
            λ s hs. Ensures-pure _ _ (hc, hd, hs)

-- A root that holds the path stands.
abbrev pub Supports : Entries → FilePath → FilePath → Type 0
Supports fs q root = under root q ≡ true → node_at root fs ≢ none

apart_from_absent :
    (fs : Entries) (q root : FilePath)
    → Supports fs q root
    → node_at root fs ≡ none
    → under root q ≡ false
apart_from_absent fs q root h k = elim (Bool-cases (under root q)) [
  | inl holds ↦ absurd (h holds k)
  | inr apart ↦ apart
]

module _ {q : FilePath} {n : Node} (e : Env) (request : SetupRequest)
    (artifacts : ProductSetupArtifacts) (w : World) (x : Error)
    (stands : lookup q w.entries ≡ some n) (avoids : Avoids e.uuid w.issued q)
    (config_stands : Supports w.entries q e.paths.config_dir)
    (data_stands : Supports w.entries q e.paths.data_dir)
    (state_stands : Supports w.entries q e.paths.state_dir) where
  start : Stands q n w.issued w.entries w.issued
  start = record { here = stands; drawn = ground arith }

  roots_safe : (r : ManagedRootPresence) → (inspect_roots e w).0 ≡ ok r → RootsSafe e.paths r q
  roots_safe r h =
      let (c, d, s) = (inspect_roots-absent w.entries e).at w r (record { same = refl }) h in
      record {
        config_safe = λ new. apart_from_absent w.entries q _ config_stands (c new);
        data_safe = λ new. apart_from_absent w.entries q _ data_stands (d new);
        state_safe = λ new. apart_from_absent w.entries q _ state_stands (s new);
      }

  after_roots :
      ((inspect_roots e >>= setup_locked e request artifacts) w).0 ≡ err x
      → Stands q n w.issued
          ((inspect_roots e >>= setup_locked e request artifacts) w).1.entries
          ((inspect_roots e >>= setup_locked e request artifacts) w).1.issued
  unfolding ◌>>=◌
  after_roots =
      continue-KeepsOnErr {P = Stands q n w.issued} (inspect_roots e w).0
        (setup_locked e request artifacts) (inspect_roots e w).1 x
        (λ r h. KeepsOnErr-setup_locked e r (roots_safe r h) avoids request artifacts)
        ((Keeps-inspect_roots {P = Stands q n w.issued} e).at w start)

  after_check :
      (v : Result Error (Unit {0}))
      → (continue v (λ _. inspect_roots e >>= setup_locked e request artifacts) w).0 ≡ err x
      → Stands q n w.issued
          (continue v (λ _. inspect_roots e >>= setup_locked e request artifacts) w).1.entries
          (continue v (λ _. inspect_roots e >>= setup_locked e request artifacts) w).1.issued
  after_check (ok u) h = after_roots h
  after_check (err y) h = start

-- Let a node stand at a path that names none of the identifiers still to be drawn, and let each
-- of the three managed roots that holds the path stand too. If the setup fails, at whatever step
-- and whichever system calls fail, the same node stands at the path afterwards, a file with the
-- same contents.
pub setup_product-unchanged :
    (q : FilePath) (n : Node) (e : Env) (request : SetupRequest) (artifacts : ProductSetupArtifacts)
    (w : World) (x : Error)
    → lookup q w.entries ≡ some n
    → Avoids e.uuid w.issued q
    → Supports w.entries q e.paths.config_dir
    → Supports w.entries q e.paths.data_dir
    → Supports w.entries q e.paths.state_dir
    → (setup_product e request artifacts w).0 ≡ err x
    → lookup q (setup_product e request artifacts w).1.entries ≡ some n
unfolding setup_product lift ◌>>=◌
setup_product-unchanged q n e request artifacts w x stands avoids c d s h =
    (after_check e request artifacts w x stands avoids c d s (validate_artifacts e.crates artifacts)
      h).here
