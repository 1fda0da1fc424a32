-- ===== src/Core/Revoke.antt =====
-- Revocation of tools/saiai-core/src/setup.rs with `RevokeFault::None`.
pub mod Resources
pub mod Quarantine
pub mod Own
pub mod Spares
pub mod Kept
pub mod Apart
pub mod Total
pub mod Full
use saiai_client.Prelude.{
  ℕ, Bool, true, false, not, ◌&&◌, ◌||◌, Option, none, some, List, [], ◌∷◌, ◌++◌, Text, codes,
  is_empty, is_some, if◌then◌else◌,
}
use saiai_client.Prelude.Result.{Result, ok, err, is_ok}
use saiai_client.Core.Error.{
  Error, Outcome, FilePath, IoKind, not_found, already_exists, other, io, product_busy,
}
use saiai_client.Core.Refs.{Product}
use saiai_client.Core.Fs.{Node}
use saiai_client.Core.Config.{ConfigV2, is_empty_entries, remove_product}
use saiai_client.Core.Prog.{Prog, pure, raise, lift, outcome_of, best_effort, ◌>>=◌, ◌>>◌}
use saiai_client.Core.Sys.{symlink_metadata, read_dir, remove_file, remove_dir, new_v4}
use saiai_client.Core.Files.{
  Action, is_dir, is_file, reject_symlink_if_present, atomic_write_private, remove_dir_if_exists,
}
use saiai_client.Core.Paths.{
  config_file, credentials_dir, generations_dir, runtime_dir, logs_dir, leases_dir,
  generation_staging_dir, transaction_lock_file,
}
use saiai_client.Core.Lease.{
  ExclusiveLeaseProbe, acquired, missing, busy, try_acquire_existing, release_and_remove,
}
use saiai_client.Core.Status.{
  ProductSetupStatus, SetupStatus, uninitialized_status, committed_status_after_product_revoke,
}
use saiai_client.Core.Load.{
  ManagedRootPresence, any_root, inspect_roots, load_config_optional_strict, serialize_config,
}
use saiai_client.Core.Transaction.{
  acquire_transaction_lock, transaction_state_root_contains_only_lock,
}
use saiai_client.Core.Setup.{previous_entry, diagnosed_before}
use saiai_client.Core.Revoke.Resources.{ProductResources, discover_product_resources}
use saiai_client.Core.Revoke.Quarantine.{
  RevokeQuarantine, new_quarantine, rollback, drop_armed, move_path, purge,
}
use saiai_client.Core.Env.{Env}

pub data RevokeTarget : Type 0 where
  one_product : Product → RevokeTarget
  all_targets : RevokeTarget

pub record RevokeReport : Type 0 where
  pub target : RevokeTarget
  pub removed_paths : List FilePath
  pub status : SetupStatus

pub data ProductConfigCommit : Type 0 where
  no_commit : ProductConfigCommit
  replace : List ℕ → ProductConfigCommit
  remove_last : ProductConfigCommit

abbrev pub or_no : Result Error Bool → Bool
or_no (ok b) = b
or_no (err e) = false

abbrev pub push_if : Bool → FilePath → List FilePath → List FilePath
push_if b p removed = if b then removed ++ p ∷ [] else removed

abbrev pub removed_config_file : FilePath → Result IoKind (Unit {0}) → Result Error Bool
removed_config_file p (ok u) = ok true
removed_config_file p (err not_found) = ok false
removed_config_file p (err already_exists) = err (io "remove final product config" p already_exists)
removed_config_file p (err other) = err (io "remove final product config" p other)

unfoldable pub remove_config_file_for_product_commit : FilePath → Action Bool
remove_config_file_for_product_commit p = do
  reject_symlink_if_present p
  r ← outcome_of (remove_file p)
  lift (removed_config_file p r)

abbrev pub remove_if_file : FilePath → Result IoKind Node → Action Bool
remove_if_file p (err k) = pure false
remove_if_file p (ok n) =
    if is_file n then (do r ← outcome_of (remove_file p); pure (is_ok r)) else pure false

unfoldable pub remove_regular_file : FilePath → Action Bool
remove_regular_file p = do r ← outcome_of (symlink_metadata p); remove_if_file p r

abbrev pub remove_if_listed : FilePath → Result IoKind (List Text) → Action Bool
remove_if_listed p (err k) = pure false
remove_if_listed p (ok names) =
    if is_empty names then (do r ← outcome_of (remove_dir p); pure (is_ok r)) else pure false

abbrev pub remove_if_directory : FilePath → Result IoKind Node → Action Bool
remove_if_directory p (err k) = pure false
remove_if_directory p (ok n) =
    if is_dir n then (do r ← outcome_of (read_dir p); remove_if_listed p r) else pure false

unfoldable pub remove_empty_real_directory : FilePath → Action Bool
remove_empty_real_directory p = do r ← outcome_of (symlink_metadata p); remove_if_directory p r

unfoldable pub prune_directories : List FilePath → List FilePath → Action (List FilePath)
prune_directories [] removed = pure removed
prune_directories (p ∷ ps) removed = do
  gone ← remove_empty_real_directory p
  prune_directories ps (push_if gone p removed)

unfoldable pub remove_previous : List FilePath → List FilePath → Action (List FilePath)
remove_previous [] removed = pure removed
remove_previous (q ∷ qs) removed = do
  gone ← remove_dir_if_exists q
  remove_previous qs (push_if gone q removed)

unfoldable pub release_leases : List FilePath → List FilePath → Action (List FilePath)
release_leases [] removed = pure removed
release_leases (lease ∷ leases) removed = do
  r ← outcome_of (release_and_remove lease)
  release_leases leases (push_if (or_no r) lease removed)

module _ (e : Env) where
  abbrev pub prune_lock : Bool → List FilePath → Action (List FilePath)
  prune_lock false removed = pure removed
  prune_lock true removed = do
    gone ← remove_regular_file (transaction_lock_file e.paths)
    pure (push_if gone (transaction_lock_file e.paths) removed)

  abbrev pub shared_dirs : List FilePath
  shared_dirs =
      generation_staging_dir e.paths
      ∷ credentials_dir e.paths
      ∷ generations_dir e.paths
      ∷ runtime_dir e.paths
      ∷ logs_dir e.paths
      ∷ leases_dir e.paths
      ∷ []

  abbrev pub root_dirs : List FilePath
  root_dirs = e.paths.config_dir ∷ e.paths.data_dir ∷ e.paths.state_dir ∷ []

  unfoldable pub prune_empty_shared_dirs : List FilePath → Action (List FilePath)
  prune_empty_shared_dirs removed = do
    pruned ← prune_directories shared_dirs removed
    only ← outcome_of (transaction_state_root_contains_only_lock e.paths)
    unlocked ← prune_lock (or_no only) pruned
    prune_directories root_dirs unlocked

  -- The probes of the generations' leases
  abbrev pub probed : Product → List FilePath → ExclusiveLeaseProbe → Outcome (List FilePath)
  probed p leases (acquired lease) = ok (leases ++ lease ∷ [])
  probed p leases missing = ok leases
  probed p leases busy = err (product_busy p)

  unfoldable pub acquire_leases : Product → List Text → List FilePath → Action (List FilePath)
  acquire_leases p [] leases = pure leases
  acquire_leases p (generation ∷ generations) leases = do
    probe ← try_acquire_existing e.paths generation
    more ← lift (probed p leases probe)
    acquire_leases p generations more

  abbrev pub moved_on : Result Error Bool → FilePath → List FilePath → Result Error (List FilePath)
  moved_on (err why) path removed = err why
  moved_on (ok moved) path removed = ok (push_if moved path removed)

  -- The loop over the removal paths; it stops at an error.
  abbrev pub MovedAll : Type 0
  MovedAll = Result Error (List FilePath) × RevokeQuarantine

  abbrev pub continue_moves :
      Result Error (List FilePath)
      → RevokeQuarantine
      → (List FilePath → Action MovedAll)
      → Action MovedAll
  continue_moves (err why) state next = pure (err why, state)
  continue_moves (ok more) state next = next more

  unfoldable pub move_all :
      Product → Text → RevokeQuarantine → List FilePath → List FilePath → Action MovedAll
  move_all p id state [] removed = pure (ok removed, state)
  move_all p id state (path ∷ paths) removed = do
    r ← move_path p id state path
    continue_moves (moved_on r.0 path removed) r.1 (λ more. move_all p id r.1 paths more)

  unfoldable pub commit_revocation : ProductConfigCommit → Action Bool
  commit_revocation no_commit = pure false
  commit_revocation (replace bytes) = do
    atomic_write_private e.uuid (config_file e.paths) bytes
    pure false
  commit_revocation remove_last = remove_config_file_for_product_commit (config_file e.paths)

  abbrev pub rolled_back : Error → Result Error (Unit {0}) → Error
  rolled_back why (ok u) = why
  rolled_back why (err e) = e

  -- `quarantine.rollback()?; return Err(error);` and the drop of the quarantine
  abbrev pub roll_back_and_fail : RevokeQuarantine → Error → Action RevokeReport
  roll_back_and_fail state why = do r ← rollback state; drop_armed r.1; raise (rolled_back why r.0)

  -- What follows the commit of the configuration
  unfoldable pub after_revocation :
      Product
      → SetupStatus
      → RevokeQuarantine
      → List FilePath
      → List FilePath
      → Bool
      → Action RevokeReport
  after_revocation p status state leases removed removed_config = do
    purge state.roots
    released ← release_leases leases (push_if removed_config (config_file e.paths) removed)
    pruned ← prune_empty_shared_dirs released
    pure (record { target = one_product p; removed_paths = pruned; status = status })

  abbrev pub committed :
      Product
      → SetupStatus
      → RevokeQuarantine
      → List FilePath
      → List FilePath
      → Result Error Bool
      → Action RevokeReport
  committed p status state leases removed (err why) = roll_back_and_fail state why
  committed p status state leases removed (ok removed_config) =
      after_revocation p status state leases removed removed_config

  abbrev pub commit_moved :
      Product → SetupStatus → List FilePath → ProductConfigCommit → MovedAll → Action RevokeReport
  commit_moved p status leases config_commit (err why, state) = do drop_armed state; raise why
  commit_moved p status leases config_commit (ok removed, state) = do
    r ← outcome_of (commit_revocation config_commit)
    committed p status state leases removed r

  -- From the discovered resources on
  unfoldable pub remove_resources :
      Product → SetupStatus → ProductConfigCommit → ProductResources → Action RevokeReport
  remove_resources p status config_commit resources = do
    leases ← acquire_leases p resources.generations []
    removed ← remove_previous resources.previous_quarantines []
    id ← new_v4 e.uuid
    moved ← move_all p id new_quarantine resources.removal_paths removed
    commit_moved p status leases config_commit moved

  abbrev pub replaced : Outcome (List ℕ) → Outcome ProductConfigCommit
  replaced (err why) = err why
  replaced (ok bytes) = ok (replace bytes)

  -- How the configuration without the product is committed
  abbrev pub commit_of : Bool → Option ConfigV2 → Outcome ProductConfigCommit
  commit_of false config = ok no_commit
  commit_of true none = ok no_commit
  commit_of true (some config) =
      if is_empty_entries config.products
      then ok remove_last
      else replaced (serialize_config e config)

  abbrev pub without_product : Product → Option ConfigV2 → Option ConfigV2
  without_product p none = none
  without_product p (some config) = some (remove_product config p).1

  abbrev pub remaining_after : ProductConfigCommit → Option ConfigV2 → Option ConfigV2
  remaining_after remove_last config = none
  remaining_after no_commit config = config
  remaining_after (replace bytes) config = config

  -- Under the transaction lock, with the configuration that was read
  unfoldable pub revoke_configured :
      Product → Option ConfigV2 → List ProductSetupStatus → Action RevokeReport
  revoke_configured p config before = do
    config_commit ← lift (commit_of (is_some (previous_entry config p)) (without_product p config))
    resources ← discover_product_resources e p (previous_entry config p) (without_product p config)
    remove_resources p
        (committed_status_after_product_revoke
          (remaining_after config_commit (without_product p config)) before)
        config_commit resources

  abbrev pub nothing_removed : RevokeTarget → RevokeReport
  nothing_removed target = record {
    target = target;
    removed_paths = [];
    status = uninitialized_status;
  }

  unfoldable pub revoke_product : Product → Action RevokeReport
  revoke_product p = do
    roots ← inspect_roots e
    if any_root roots
        then (do
          acquire_transaction_lock e.paths
          config ← load_config_optional_strict e
          before ← diagnosed_before e config
          revoke_configured p config before)
        else pure (nothing_removed (one_product p))
