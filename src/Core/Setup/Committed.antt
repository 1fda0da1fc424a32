-- ===== src/Core/Setup/Committed.antt =====
-- What a setup that returns has committed.
use saiai_client.Prelude.{
  ℕ, ◌≡◌, refl, false, Option, none, some, List, [], ◌∷◌, ◌++◌, Text, codes, arith, text_eq,
  text_eq_refl, text_eq_iff,
}
use saiai_client.Prelude.Result.{ok}
use saiai_client.Core.Error.{FilePath}
use saiai_client.Core.Refs.{Product, claude, codex}
use saiai_client.Core.Fs.{Node, file, Entries, under, lookup}
use saiai_client.Core.Fs.Laws.{under-below, path_eq-of_not_under}
use saiai_client.Core.Config.{
  ProductConfig, ConfigV2, product, get, new_config, insert_product, replace_base_url, insert,
}
use saiai_client.Core.Prog.{World}
use saiai_client.Core.Prog.Keeps.{Keeps, Keeps-bind, Keeps-pure, Keeps-if, Keeps-best_effort}
use saiai_client.Core.Prog.Triple.{
  Triple, Triple-known, Triple-lift, Triple-of_Keeps, Triple-undone_by, Triple-bind, Anything,
  Keeps-Anything,
}
use saiai_client.Core.Sys.Keeps.{Stands}
use saiai_client.Core.Files.Writes.{atomic_write_private-Stands}
use saiai_client.Core.Paths.{config_file}
use saiai_client.Core.Paths.Disjoint.{AreDisjoint}
use saiai_client.Core.Artifacts.{ProductSetupArtifacts, artifacts_product}
use saiai_client.Core.Store.Keeps.{Keeps-delete_credential}
use saiai_client.Core.Status.{
  SetupStatus, ProductSetupStatus, committed_status_after_product_setup,
  status_from_committed_config,
}
use saiai_client.Core.Load.{ManagedRootPresence, serialize_config}
use saiai_client.Core.Transaction.Cleanup.{Keeps-cleanup_generation, Keeps-cleanup_staging}
use saiai_client.Core.Setup.{
  SetupRequest, next_config, drop_previous, after_commit, commit_config, publish, install,
  with_root_cleanup, setup_product,
}
use saiai_client.Core.Setup.Total.{after_commit-returns}
use saiai_client.Core.Env.{Env}

-- Below two directories of which none holds the other there is nothing in common.
apart-below : (p q s : FilePath) → under p q ≡ false → under q p ≡ false → under p (q ++ s) ≡ false
unfolding under
apart-below [] q s h k = cc
apart-below (c ∷ p) [] s h k = cc
apart-below (c ∷ p) (d ∷ q) s h k =
    ground (arith, apart-below p q s, text_eq_refl c, text_eq_iff c d)

module _ {q : FilePath} {n : Node} {n₀ : ℕ} (e : Env)
    (data_apart : under e.paths.data_dir q ≡ false)
    (state_apart : under e.paths.state_dir q ≡ false) where
  Keeps-drop_previous :
      (o : Option ProductConfig) (reference generation : Text)
      → Keeps (Stands q n n₀) (drop_previous e o reference generation)
  Keeps-drop_previous none reference generation = Keeps-pure tt
  Keeps-drop_previous (some old) reference generation =
      Keeps-bind _ _
        (Keeps-if (text_eq old.credential_ref reference) _ _ (Keeps-pure tt) (
          Keeps-best_effort _ (
            Keeps-delete_credential e old.credential_ref (
              path_eq-of_not_under _ q
                (under-below _ _ q (under-below e.paths.data_dir _ q data_apart))))))
        λ _.
          Keeps-if (text_eq old.active_generation generation) _ _ (Keeps-pure tt)
            (Keeps-cleanup_generation e.paths data_apart state_apart old.active_generation)

  Keeps-after_commit :
      (o : Option ProductConfig) (reference generation : Text) (s : SetupStatus)
      → Keeps (Stands q n n₀) (after_commit e o reference generation s)
  unfolding after_commit
  Keeps-after_commit o reference generation s =
      Keeps-bind _ _ (Keeps-drop_previous o reference generation)
        λ _. Keeps-bind _ _ (Keeps-cleanup_staging e.paths data_apart state_apart) λ _. Keeps-pure s

-- The receipt reports the configuration that config.json holds, which has the requested Gateway and
-- an entry for the product.
pub record IsCommitted (e : Env) (request : SetupRequest) (p : Product) (status : SetupStatus)
    (fs : Entries) (issued : ℕ) : Type 0 where
  pub config : ConfigV2
  pub bytes : List ℕ
  pub entry : ProductConfig
  pub reported : status.config ≡ some config
  pub gateway : config.base_url ≡ request.base_url
  pub configured : product config p ≡ some entry
  pub serialized : serialize_config e config ≡ ok bytes
  pub written : lookup (config_file e.paths) fs ≡ some (file bytes)

next_config_lem :
    (o : Option ConfigV2) (url : Text) (p : Product) (entry : ProductConfig)
    → ((next_config o url p entry).base_url ≡ url)
      × (product (next_config o url p entry) p ≡ some entry)
unfolding next_config new_config insert_product replace_base_url get insert
next_config_lem none url claude entry = (refl, refl)
next_config_lem none url codex entry = (refl, refl)
next_config_lem (some c) url claude entry = (refl, refl)
next_config_lem (some c) url codex entry = (refl, refl)

module _ (e : Env) (request : SetupRequest) (artifacts : ProductSetupArtifacts)
    (disjoint : AreDisjoint e.paths) where
  data_apart : under e.paths.data_dir (config_file e.paths) ≡ false
  data_apart =
      apart-below e.paths.data_dir e.paths.config_dir _ disjoint.data_config disjoint.config_data

  state_apart : under e.paths.state_dir (config_file e.paths) ≡ false
  state_apart =
      apart-below e.paths.state_dir e.paths.config_dir _ disjoint.state_config disjoint.config_state

  commit_config-Stands :
      (reference secret : Text) (bytes : List ℕ) (final_generation : FilePath)
      → Triple Anything
          (commit_config e reference secret bytes final_generation)
          (λ u. Stands (config_file e.paths) (file bytes) 0)
  unfolding commit_config
  commit_config-Stands reference secret bytes final_generation = Triple-undone_by _ _ _ (
      Triple-bind _ _ (λ u. Anything) _ (Triple-of_Keeps _ (Keeps-Anything _))
        λ u.
          Triple-undone_by _ _ _
            (atomic_write_private-Stands e.uuid e.paths.config_dir (codes "config.json") bytes))

  after_commit-IsCommitted :
      (config : ConfigV2) (bytes : List ℕ) (entry : ProductConfig) (p : Product)
      (o : Option ProductConfig) (reference generation : Text) (s : SetupStatus)
      → s.config ≡ some config
      → config.base_url ≡ request.base_url
      → product config p ≡ some entry
      → serialize_config e config ≡ ok bytes
      → Triple
          (Stands (config_file e.paths) (file bytes) 0)
          (after_commit e o reference generation s)
          (IsCommitted e request p)
  after_commit-IsCommitted config bytes entry p o reference generation s reported gateway configured
        serialized =
      record {
        at = λ w t stands h. record {
          config = config;
          bytes = bytes;
          entry = entry;
          reported = cc (after_commit-returns e o reference generation s w);
          gateway = gateway;
          configured = configured;
          serialized = serialized;
          written =
              ((Keeps-after_commit e data_apart state_apart o reference generation s).at w
                stands).here;
        };
      }

  publish-IsCommitted :
      (config : ConfigV2) (entry : ProductConfig) (p : Product) (previous : Option ConfigV2)
      (before : List ProductSetupStatus) (generation reference : Text)
      → config.base_url ≡ request.base_url
      → product config p ≡ some entry
      → Triple Anything
          (publish e config request artifacts p previous before generation reference)
          (IsCommitted e request p)
  unfolding publish committed_status_after_product_setup status_from_committed_config
  publish-IsCommitted config entry p previous before generation reference gateway configured =
      Triple-bind _ _ (λ bytes fs issued. serialize_config e config ≡ ok bytes) _
        (Triple-lift _ _ λ bytes h. h)
        λ bytes. record {
          at = Triple-known _ _ λ serialized.
              Triple-bind _ _ (λ u. Anything) _ (Triple-of_Keeps _ (Keeps-Anything _))
                λ _.
                  Triple-bind _ _ (λ u. Anything) _ (Triple-of_Keeps _ (Keeps-Anything _))
                    λ _.
                      Triple-bind _ _ (λ u. Anything) _ (Triple-of_Keeps _ (Keeps-Anything _))
                        λ _.
                          Triple-bind _ _ (λ u. Anything) _ (Triple-of_Keeps _ (Keeps-Anything _))
                            λ stage.
                              Triple-bind _ _ (λ u. Anything) _
                                (Triple-of_Keeps _ (Keeps-Anything _))
                                λ _.
                                  Triple-bind _ _ _ _
                                    (commit_config-Stands reference request.credential bytes _)
                                    λ _.
                                      after_commit-IsCommitted config bytes entry p _ reference
                                        generation _ refl gateway configured serialized;
        }

  install-IsCommitted :
      (p : Product) (previous : Option ConfigV2)
      → Triple Anything (install e request artifacts p previous) (IsCommitted e request p)
  unfolding install
  install-IsCommitted p previous =
      Triple-bind _ _ (λ u. Anything) _ (Triple-of_Keeps _ (Keeps-Anything _))
        λ _.
          Triple-bind _ _ (λ u. Anything) _ (Triple-of_Keeps _ (Keeps-Anything _))
            λ before.
              Triple-bind _ _ (λ u. Anything) _ (Triple-of_Keeps _ (Keeps-Anything _))
                λ id.
                  Triple-bind _ _ (λ u. Anything) _ (Triple-of_Keeps _ (Keeps-Anything _))
                    λ generation.
                      Triple-bind _ _ (λ u. Anything) _ (Triple-of_Keeps _ (Keeps-Anything _))
                        λ reference.
                          let entry : ProductConfig = record {
                            credential_ref = reference;
                            active_generation = generation;
                          } in
                          let (gateway, configured) =
                            next_config_lem previous request.base_url p entry in
                          publish-IsCommitted (next_config previous request.base_url p entry) entry
                            p previous before generation reference gateway configured

  guarded-IsCommitted :
      (before : ManagedRootPresence) (p : Product) (previous : Option ConfigV2)
      → Triple Anything
          (with_root_cleanup e before previous (install e request artifacts p previous))
          (IsCommitted e request p)
  guarded-IsCommitted before p (some config) = install-IsCommitted p (some config)
  guarded-IsCommitted before p none = Triple-undone_by _ _ _ (install-IsCommitted p none)

  setup_product-Triple :
      Triple Anything
        (setup_product e request artifacts)
        (IsCommitted e request (artifacts_product artifacts))
  unfolding setup_product
  setup_product-Triple =
      Triple-bind _ _ (λ u. Anything) _ (Triple-of_Keeps _ (Keeps-Anything _))
        λ _.
          Triple-bind _ _ (λ u. Anything) _ (Triple-of_Keeps _ (Keeps-Anything _))
            λ before.
              Triple-bind _ _ (λ u. Anything) _ (Triple-of_Keeps _ (Keeps-Anything _))
                λ _.
                  Triple-bind _ _ (λ u. Anything) _ (Triple-of_Keeps _ (Keeps-Anything _))
                    λ previous.
                      Triple-bind _ _ (λ u. Anything) _ (Triple-of_Keeps _ (Keeps-Anything _))
                        λ _. guarded-IsCommitted before (artifacts_product artifacts) previous

-- If a setup returns a receipt, then config.json holds the serialised form of the configuration that
-- the receipt reports, also after the cleanups; that configuration has the requested Gateway and an
-- entry for the product. The three application directories must be disjoint.
pub setup_product-IsCommitted :
    (e : Env) (request : SetupRequest) (artifacts : ProductSetupArtifacts) (w : World)
    (status : SetupStatus)
    → AreDisjoint e.paths
    → (setup_product e request artifacts w).0 ≡ ok status
    → IsCommitted e request
        (artifacts_product artifacts)
        status
        (setup_product e request artifacts w).1.entries
        (setup_product e request artifacts w).1.issued
setup_product-IsCommitted e request artifacts w status disjoint h =
    (setup_product-Triple e request artifacts disjoint).at w status (record {}) h
