-- ===== src/Core/Transaction.antt =====
-- The parts of a setup transaction of tools/saiai-core/src/setup.rs: its lock, its checks of the
-- managed roots, and the cleanups that may not fail.
pub mod Keeps
pub mod Cleanup
use saiai_client.Prelude.{
  ℕ, Bool, true, false, not, ◌&&◌, ◌||◌, List, [], ◌∷◌, Text, codes, text_eq, all, is_empty,
  if◌then◌else◌,
}
use saiai_client.Prelude.Result.{Result, ok, err, is_ok}
use saiai_client.Core.Error.{
  Error, FilePath, IoKind, not_found, already_exists, other, io, invalid_config,
}
use saiai_client.Core.Fs.{Node, join}
use saiai_client.Core.Prog.{Prog, pure, raise, lift, outcome_of, best_effort, map_err, ◌>>=◌, ◌>>◌}
use saiai_client.Core.Sys.{
  symlink_metadata, read_dir, create_dir_all, system_call, open_or_create, remove_dir, no_change,
  new_v4,
}
use saiai_client.Core.Files.{
  is_file, Action, is_symlink, is_dir, parent_of, path_present_no_follow, ensure_private_dir,
  reject_symlink_if_present, ensure_no_managed_symlinks, remove_dir_if_exists,
}
use saiai_client.Core.Paths.{
  AppPaths, transaction_lock_file, generations_dir, generation_staging_dir, generation_dir,
  generation_runtime_dir, generation_logs_dir,
}
use saiai_client.Core.Lease.{
  ExclusiveLeaseProbe, acquired, missing, busy, validate_opened_lock_file, try_acquire_existing,
  release_and_remove,
}
use saiai_client.Core.Load.{ManagedRootPresence}

unfoldable pub open_private_lock_file : FilePath → Action (Unit {0})
open_private_lock_file p = do
  parent_dir ← lift (parent_of "lock file" p)
  ensure_private_dir parent_dir
  reject_symlink_if_present p
  map_err (io "open transaction lock" p) (open_or_create p)
  validate_opened_lock_file p
  map_err (io "set private lock permissions" p) (no_change p)
  validate_opened_lock_file p

-- What the path of the held lock shows; where it shows nothing, the source would try again.
abbrev pub current_lock : FilePath → Result IoKind Node → Result Error (Unit {0})
current_lock p (ok n) =
    if is_file n then ok tt else err (io "inspect current setup transaction lock" p other)
current_lock p (err k) = err (io "inspect current setup transaction lock" p k)

module _ (paths : AppPaths) where
  -- `TransactionLock::acquire`. No other process acts in the tree meanwhile, so the path shows the
  -- file that was opened, and the loop that waits for this ends in its first round.
  unfoldable pub acquire_transaction_lock : Action (Unit {0})
  acquire_transaction_lock = do
    stable_parent ← lift (parent_of "state_dir" paths.state_dir)
    map_err (io "create setup transaction lock parent" stable_parent) (create_dir_all stable_parent)
    map_err (io "open setup transaction lock parent" stable_parent) system_call
    map_err (io "lock setup transaction parent" stable_parent) system_call
    open_private_lock_file (transaction_lock_file paths)
    map_err (io "lock setup transaction" (transaction_lock_file paths)) system_call
    map_err (io "inspect setup transaction lock" (transaction_lock_file paths)) system_call
    r ← outcome_of (symlink_metadata (transaction_lock_file paths))
    lift (current_lock (transaction_lock_file paths) r)

  abbrev only_lock : Result IoKind Node → Action Bool
  only_lock (ok n) = if is_symlink n || not (is_dir n) then pure false else (do
    names ← map_err (io "list transaction state root" paths.state_dir) (read_dir paths.state_dir)
    pure (all (λ name. text_eq name (codes "transaction.lock")) names))
  only_lock (err not_found) = pure true
  only_lock (err already_exists) =
      raise (io "inspect transaction state root" paths.state_dir already_exists)
  only_lock (err other) = raise (io "inspect transaction state root" paths.state_dir other)

  unfoldable pub transaction_state_root_contains_only_lock : Action Bool
  transaction_state_root_contains_only_lock = do
    r ← outcome_of (symlink_metadata paths.state_dir)
    only_lock r

  unfoldable pub roots_are_clean_for_first_setup : Action Bool
  roots_are_clean_for_first_setup = do
    c ← path_present_no_follow paths.config_dir
    if c then pure false else (do
      d ← path_present_no_follow paths.data_dir
      if d then pure false else transaction_state_root_contains_only_lock)

  -- `unwrap_or(false)`
  abbrev or_false : Result Error Bool → Bool
  or_false (ok b) = b
  or_false (err e) = false

  unfoldable pub cleanup_new_transaction_state_root : ManagedRootPresence → Action (Unit {0})
  cleanup_new_transaction_state_root before = if before.state then pure tt else (do
    r ← outcome_of transaction_state_root_contains_only_lock
    if or_false r then best_effort (remove_dir_if_exists paths.state_dir) else pure tt)

  abbrev remove_new_root : Bool → FilePath → Action (Unit {0})
  remove_new_root existed root =
      if existed then pure tt else best_effort (remove_dir_if_exists root)

  -- `FailedSetupRootCleanup::drop`
  unfoldable pub failed_setup_root_cleanup : ManagedRootPresence → Action (Unit {0})
  failed_setup_root_cleanup before = do
    remove_new_root before.config paths.config_dir
    remove_new_root before.app_data paths.data_dir
    remove_new_root before.state paths.state_dir

  -- `SetupStage::create`
  unfoldable pub create_stage : (ℕ → Text) → Action FilePath
  create_stage uuid = do
    ensure_private_dir (generations_dir paths)
    ensure_private_dir (generation_staging_dir paths)
    id ← new_v4 uuid
    ensure_private_dir (join (generation_staging_dir paths) id)
    pure (join (generation_staging_dir paths) id)

  abbrev pub remove_managed : FilePath → FilePath → Action (Unit {0})
  remove_managed root p = do
    r ← outcome_of (ensure_no_managed_symlinks root p)
    if is_ok r then best_effort (remove_dir_if_exists p) else pure tt

  abbrev pub remove_generation_paths : Text → Action (Unit {0})
  remove_generation_paths generation = do
    remove_managed paths.data_dir (generation_dir paths generation)
    remove_managed paths.state_dir (generation_runtime_dir paths generation)
    remove_managed paths.state_dir (generation_logs_dir paths generation)

  abbrev pub cleanup_probed : Text → Result Error ExclusiveLeaseProbe → Action (Unit {0})
  cleanup_probed generation (ok (acquired lease)) = do
    remove_generation_paths generation
    best_effort (release_and_remove lease)
  cleanup_probed generation (ok missing) = remove_generation_paths generation
  cleanup_probed generation (ok busy) = pure tt
  cleanup_probed generation (err e) = pure tt

  unfoldable pub cleanup_generation : Text → Action (Unit {0})
  cleanup_generation generation = do
    probe ← outcome_of (try_acquire_existing paths generation)
    cleanup_probed generation probe

  abbrev pub remove_if_listed_empty : Result IoKind (List Text) → Action (Unit {0})
  remove_if_listed_empty (ok names) =
      if is_empty names then best_effort (remove_dir (generation_staging_dir paths)) else pure tt
  remove_if_listed_empty (err k) = pure tt

  unfoldable pub cleanup_staging : Action (Unit {0})
  cleanup_staging = do
    r ← outcome_of (read_dir (generation_staging_dir paths))
    remove_if_listed_empty r
