-- ===== src/Core/Setup.antt =====
-- `setup_product_with_fault` of tools/saiai-core/src/setup.rs with `SetupFault::None`. A guard whose
-- `drop` cleans up is an `undone_by` around the code up to the guard's commit; what follows a commit
-- never fails.
pub mod Keeps
pub mod Total
pub mod Unchanged
pub mod Committed
pub mod Refines
use saiai_client.Prelude.{
  ℕ, Bool, true, false, not, ◌||◌, Option, none, some, List, [], ◌∷◌, ◌++◌, Text, codes, text_eq,
  map, if◌then◌else◌,
}
use saiai_client.Prelude.Result.{Result, ok, err, ok_or}
use saiai_client.Core.Error.{Error, FilePath, Outcome, invalid_config, invalid_credential_ref}
use saiai_client.Core.Refs.{
  Product, all_products, directory_name, credential_ref, generation_ref, credential_prefix,
  generation_prefix,
}
use saiai_client.Core.Fs.{join}
use saiai_client.Core.Config.{
  ProductConfig, ConfigV2, product, new_config, insert_product, replace_base_url,
  validate_shared_base_url,
}
use saiai_client.Core.Prog.{Prog, pure, raise, lift, best_effort, undone_by, ◌>>=◌, ◌>>◌}
use saiai_client.Core.Sys.{remove_dir_all, new_v4}
use saiai_client.Core.Files.{
  Action, ensure_private_dir, atomic_write_private, promote_new_directory,
}
use saiai_client.Core.Paths.{config_file, generation_dir}
use saiai_client.Core.Artifacts.{ProductSetupArtifacts, validate_artifacts, artifacts_product}
use saiai_client.Core.Home.{home_in, write_product_home, validate_product_home}
use saiai_client.Core.Store.{save, delete_credential}
use saiai_client.Core.Status.{
  ProductSetupStatus, SetupStatus, unconfigured_product_status,
  committed_status_after_product_setup,
}
use saiai_client.Core.Load.{
  ManagedRootPresence, any_root, inspect_roots, load_config_optional_strict, serialize_config,
  diagnose_configured_products,
}
use saiai_client.Core.Transaction.{
  acquire_transaction_lock, roots_are_clean_for_first_setup, cleanup_new_transaction_state_root,
  failed_setup_root_cleanup, create_stage, cleanup_generation, cleanup_staging,
}
use saiai_client.Core.Env.{Env}

pub record SetupRequest : Type 0 where
  pub base_url : Text
  pub credential : Text

abbrev pub missing_config_requires_full_revoke : Error
missing_config_requires_full_revoke =
    invalid_config
      "V2-owned roots already exist without config.json; run `saiai revoke --all` before setup"

unfoldable pub next_config : Option ConfigV2 → Text → Product → ProductConfig → ConfigV2
next_config none url p entry = new_config url p entry
next_config (some config) url p entry = insert_product (replace_base_url config url) p entry

abbrev pub previous_entry : Option ConfigV2 → Product → Option ProductConfig
previous_entry none p = none
previous_entry (some config) p = product config p

module _ (e : Env) where
  abbrev pub refuse_dirty : ManagedRootPresence → Bool → Action (Unit {0})
  refuse_dirty before true = pure tt
  refuse_dirty before false = do
    cleanup_new_transaction_state_root e.paths before
    raise missing_config_requires_full_revoke

  -- `roots_before.any() || !roots_are_clean_for_first_setup(…)?`
  unfoldable pub admit_setup : ManagedRootPresence → Option ConfigV2 → Action (Unit {0})
  admit_setup before (some config) = pure tt
  admit_setup before none =
      if any_root before
      then refuse_dirty before false
      else (do clean ← roots_are_clean_for_first_setup e.paths; refuse_dirty before clean)

  abbrev pub check_gateway : Option ConfigV2 → Product → Text → Outcome (Unit {0})
  check_gateway none p url = ok tt
  check_gateway (some config) p url = validate_shared_base_url config p url

  abbrev pub diagnosed_before : Option ConfigV2 → Action (List ProductSetupStatus)
  diagnosed_before none = pure (map unconfigured_product_status all_products)
  diagnosed_before (some config) = diagnose_configured_products e config

  unfoldable pub stage_product :
      ProductSetupArtifacts → Product → FilePath → FilePath → Action (Unit {0})
  stage_product artifacts p stage final_generation =
      undone_by
        (do
          ensure_private_dir (join stage (codes "clients"))
          write_product_home e (home_in stage p) artifacts
          validate_product_home e (home_in stage p) p
          promote_new_directory stage final_generation)
        (best_effort {F = Error} (remove_dir_all stage))

  unfoldable pub commit_config : Text → Text → List ℕ → FilePath → Action (Unit {0})
  commit_config reference secret bytes final_generation =
      undone_by
        (do
          save e reference secret
          undone_by (atomic_write_private e.uuid (config_file e.paths) bytes)
              (best_effort {F = Error} (delete_credential e reference)))
        (best_effort {F = Error} (remove_dir_all final_generation))

  abbrev pub drop_old_credential : Text → Text → Action (Unit {0})
  drop_old_credential old fresh =
      if text_eq old fresh then pure tt else best_effort (delete_credential e old)

  abbrev pub drop_old_generation : Text → Text → Action (Unit {0})
  drop_old_generation old fresh =
      if text_eq old fresh then pure tt else cleanup_generation e.paths old

  abbrev pub drop_previous : Option ProductConfig → Text → Text → Action (Unit {0})
  drop_previous none reference generation = pure tt
  drop_previous (some previous) reference generation = do
    drop_old_credential previous.credential_ref reference
    drop_old_generation previous.active_generation generation

  unfoldable pub after_commit :
      Option ProductConfig → Text → Text → SetupStatus → Action SetupStatus
  after_commit previous reference generation status = do
    drop_previous previous reference generation
    cleanup_staging e.paths
    pure status

  -- From the new configuration to the receipt
  unfoldable pub publish :
      ConfigV2
      → SetupRequest
      → ProductSetupArtifacts
      → Product
      → Option ConfigV2
      → List ProductSetupStatus
      → Text
      → Text
      → Action SetupStatus
  publish config request artifacts p previous before generation reference = do
    bytes ← lift (serialize_config e config)
    ensure_private_dir e.paths.config_dir
    ensure_private_dir e.paths.data_dir
    ensure_private_dir e.paths.state_dir
    stage ← create_stage e.paths e.uuid
    stage_product artifacts p stage (generation_dir e.paths generation)
    commit_config reference request.credential bytes (generation_dir e.paths generation)
    after_commit (previous_entry previous p) reference generation
        (committed_status_after_product_setup e.paths config p before)

  unfoldable pub install :
      SetupRequest → ProductSetupArtifacts → Product → Option ConfigV2 → Action SetupStatus
  install request artifacts p previous = do
    lift (check_gateway previous p request.base_url)
    before ← diagnosed_before previous
    id ← new_v4 e.uuid
    generation ← lift (
        ok_or (generation_ref (generation_prefix p ++ id))
          (invalid_config "generation must use 1-64 portable path-safe ASCII characters"))
    reference ← lift (
        ok_or (credential_ref (credential_prefix p ++ id))
          (invalid_credential_ref "not a portable identifier"))
    publish
        (next_config previous request.base_url p
          (record { credential_ref = reference; active_generation = generation }))
        request artifacts p previous before generation reference

  -- The cleanup of new roots is armed only for a first setup.
  abbrev pub with_root_cleanup :
      ManagedRootPresence → Option ConfigV2 → Action SetupStatus → Action SetupStatus
  with_root_cleanup before (some config) body = body
  with_root_cleanup before none body = undone_by body (failed_setup_root_cleanup e.paths before)

  abbrev pub setup_locked :
      SetupRequest → ProductSetupArtifacts → ManagedRootPresence → Action SetupStatus
  setup_locked request artifacts before = do
    acquire_transaction_lock e.paths
    previous ← load_config_optional_strict e
    admit_setup before previous
    with_root_cleanup before previous
        (install request artifacts (artifacts_product artifacts) previous)

  unfoldable pub setup_product : SetupRequest → ProductSetupArtifacts → Action SetupStatus
  setup_product request artifacts = do
    lift (validate_artifacts e.crates artifacts)
    before ← inspect_roots e
    setup_locked request artifacts before
