-- ===== src/Core/Revoke/Full.antt =====
-- `revoke` and the full revocation of tools/saiai-core/src/setup.rs: revoke_all,
-- remove_all_roots_with_lock, acquire_all_existing_generation_leases, product_for_lease_path.
use saiai_client.Prelude.{
  Bool, true, false, Option, none, some, List, [], ◌∷◌, ◌++◌, Text, codes, text_eq, strip_suffix,
  if◌then◌else◌,
}
use saiai_client.Prelude.Result.{Result, ok, err}
use saiai_client.Core.Error.{
  Error, Outcome, FilePath, IoKind, not_found, already_exists, other, io, product_busy,
  installation_busy,
}
use saiai_client.Core.Refs.{Product, claude, codex, generated_identifier_suffix, generation_prefix}
use saiai_client.Core.Fs.{Node, join}
use saiai_client.Core.Config.{ProductConfig, ConfigV2, product}
use saiai_client.Core.Prog.{pure, lift, outcome_of, ◌>>=◌, ◌>>◌}
use saiai_client.Core.Sys.{symlink_metadata, read_dir}
use saiai_client.Core.Files.{
  Action, is_dir, is_file, path_present_no_follow, ensure_no_managed_symlinks, remove_dir_if_exists,
}
use saiai_client.Core.Paths.{leases_dir}
use saiai_client.Core.Lease.{
  ExclusiveLeaseProbe, acquired, missing, busy, try_acquire_existing_path,
}
use saiai_client.Core.Status.{uninitialized_status}
use saiai_client.Core.Load.{load_config_optional_strict}
use saiai_client.Core.Transaction.{acquire_transaction_lock}
use saiai_client.Core.Revoke.Resources.{sorted_names}
use saiai_client.Core.Revoke.{
  RevokeTarget, one_product, all_targets, RevokeReport, push_if, nothing_removed, revoke_product,
}
use saiai_client.Core.Env.{Env}

abbrev is_active : Text → Option ProductConfig → Bool
is_active generation none = false
is_active generation (some entry) = text_eq entry.active_generation generation

abbrev configured_for : Option ConfigV2 → Text → Option Product
configured_for none generation = none
configured_for (some config) generation =
    if is_active generation (product config claude)
    then some claude
    else if is_active generation (product config codex)
    then some codex
    else none

abbrev generated_for : Text → Option Product
generated_for generation =
    if generated_identifier_suffix generation (generation_prefix claude)
    then some claude
    else if generated_identifier_suffix generation (generation_prefix codex)
    then some codex
    else none

abbrev or_generated : Option Product → Text → Option Product
or_generated (some p) generation = some p
or_generated none generation = generated_for generation

abbrev product_of_generation : Option ConfigV2 → Option Text → Option Product
product_of_generation config none = none
product_of_generation config (some generation) =
    or_generated (configured_for config generation) generation

-- By the name of the lease file
unfoldable pub product_for_lease_path : Option ConfigV2 → Text → Option Product
product_for_lease_path config name =
    product_of_generation config (strip_suffix name (codes ".lock"))

abbrev busy_error : Option Product → Error
busy_error (some p) = product_busy p
busy_error none = installation_busy

-- Whether leases can live below the path
abbrev lease_root : FilePath → Result IoKind Node → Outcome Bool
lease_root p (ok n) = ok (is_dir n)
lease_root p (err not_found) = ok false
lease_root p (err already_exists) = err (io "inspect generation leases" p already_exists)
lease_root p (err other) = err (io "inspect generation leases" p other)

abbrev lease_names_of : FilePath → Result IoKind (List Text) → Outcome (List Text)
lease_names_of directory (ok names) = ok (sorted_names names)
lease_names_of directory (err not_found) = ok []
lease_names_of directory (err already_exists) =
    err (io "list generation leases" directory already_exists)
lease_names_of directory (err other) = err (io "list generation leases" directory other)

-- Whether the entry is a regular file
abbrev lease_entry : FilePath → Result IoKind Node → Outcome Bool
lease_entry p (ok n) = ok (is_file n)
lease_entry p (err not_found) = ok false
lease_entry p (err already_exists) = err (io "inspect generation lease" p already_exists)
lease_entry p (err other) = err (io "inspect generation lease" p other)

abbrev taken :
    Option ConfigV2 → Text → List FilePath → ExclusiveLeaseProbe → Outcome (List FilePath)
taken config name leases (acquired lease) = ok (leases ++ lease ∷ [])
taken config name leases missing = ok leases
taken config name leases busy = err (busy_error (product_for_lease_path config name))

abbrev read_config : Result Error (Option ConfigV2) → Option ConfigV2
read_config (ok config) = config
read_config (err e) = none

module _ (e : Env) where
  abbrev take_lease : Option ConfigV2 → Text → List FilePath → Bool → Action (List FilePath)
  take_lease config name leases false = pure leases
  take_lease config name leases true = do
    probe ← try_acquire_existing_path e.paths (join (leases_dir e.paths) name)
    lift (taken config name leases probe)

  unfoldable pub take_leases : Option ConfigV2 → List Text → List FilePath → Action (List FilePath)
  take_leases config [] leases = pure leases
  take_leases config (name ∷ names) leases = do
    r ← outcome_of (symlink_metadata (join (leases_dir e.paths) name))
    regular ← lift (lease_entry (join (leases_dir e.paths) name) r)
    more ← take_lease config name leases regular
    take_leases config names more

  abbrev list_and_take : Option ConfigV2 → Bool → Action (List FilePath)
  list_and_take config false = pure []
  list_and_take config true = do
    ensure_no_managed_symlinks e.paths.state_dir (leases_dir e.paths)
    r ← outcome_of (read_dir (leases_dir e.paths))
    names ← lift (lease_names_of (leases_dir e.paths) r)
    take_leases config names []

  abbrev inspect_leases_dir : Option ConfigV2 → Bool → Action (List FilePath)
  inspect_leases_dir config false = pure []
  inspect_leases_dir config true = do
    r ← outcome_of (symlink_metadata (leases_dir e.paths))
    usable ← lift (lease_root (leases_dir e.paths) r)
    list_and_take config usable

  unfoldable pub acquire_all_existing_generation_leases : Option ConfigV2 → Action (List FilePath)
  acquire_all_existing_generation_leases config = do
    r ← outcome_of (symlink_metadata e.paths.state_dir)
    usable ← lift (lease_root e.paths.state_dir r)
    inspect_leases_dir config usable

  unfoldable pub remove_all_roots_with_lock : RevokeTarget → Action RevokeReport
  remove_all_roots_with_lock target = do
    r ← outcome_of (load_config_optional_strict e)
    leases ← acquire_all_existing_generation_leases (read_config r)
    config_gone ← remove_dir_if_exists e.paths.config_dir
    data_gone ← remove_dir_if_exists e.paths.data_dir
    state_gone ← remove_dir_if_exists e.paths.state_dir
    pure (record {
      target = target;
      removed_paths =
          push_if state_gone e.paths.state_dir
            (push_if data_gone e.paths.data_dir (push_if config_gone e.paths.config_dir []));
      status = uninitialized_status;
    })

  -- The disjunction of the three tests stops at the first that holds.
  abbrev any_present : Action Bool
  any_present = do
    c ← path_present_no_follow e.paths.config_dir
    if c then pure true else (do
      d ← path_present_no_follow e.paths.data_dir
      if d then pure true else path_present_no_follow e.paths.state_dir)

  unfoldable pub revoke_all : RevokeTarget → Action RevokeReport
  revoke_all target = do
    present ← any_present
    if present
        then (do acquire_transaction_lock e.paths; remove_all_roots_with_lock target)
        else pure (nothing_removed e target)

  unfoldable pub revoke : RevokeTarget → Action RevokeReport
  revoke all_targets = revoke_all all_targets
  revoke (one_product p) = revoke_product e p
