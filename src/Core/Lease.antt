-- ===== src/Core/Lease.antt =====
-- Generation leases of tools/saiai-core/src/lease.rs. A launched client holds a shared lock on the
-- lease file of its generation; this process holds its own locks for the length of a transaction.
pub mod Keeps
use saiai_client.Prelude.{ℕ, Bool, true, false, not, List, [], ◌∷◌, Text, any, if◌then◌else◌}
use saiai_client.Prelude.Result.{Result, ok, err, refuse_if}
use saiai_client.Core.Error.{Error, FilePath, IoKind, not_found, already_exists, other, io}
use saiai_client.Core.Fs.{Node, file, dir, link, path_eq}
use saiai_client.Core.Prog.{World, Prog, pure, raise, lift, outcome_of, map_err, ◌>>=◌, ◌>>◌}
use saiai_client.Core.Sys.{Sys, symlink_metadata, system_call, remove_file}
use saiai_client.Core.Files.{Action, ensure_no_managed_symlinks, is_file}
use saiai_client.Core.Paths.{AppPaths, generation_lease_file}

pub data ExclusiveLeaseProbe : Type 0 where
  acquired : FilePath → ExclusiveLeaseProbe
  missing busy : ExclusiveLeaseProbe

-- `opened_lock_is_current` after its `fstat`: a file at the path is the one that was opened, since
-- no other process acts in the tree meanwhile.
abbrev pub lock_is_current : FilePath → Result IoKind Node → Result Error Bool
lock_is_current p (ok n) = ok (is_file n)
lock_is_current p (err not_found) = ok false
lock_is_current p (err already_exists) = err (io "inspect current lock path" p already_exists)
lock_is_current p (err other) = err (io "inspect current lock path" p other)

-- `invalid_opened_lock`; InvalidData is one of the other kinds.
abbrev pub refuse_stale_lock : FilePath → Bool → Result Error (Unit {0})
refuse_stale_lock p current = refuse_if (not current) (io "inspect opened lock" p other)

-- The opened file is a regular one: O_NOFOLLOW refuses a link, and a directory cannot be opened
-- for writing. Of its two `fstat`s the model keeps that they may fail.
unfoldable pub validate_opened_lock_file : FilePath → Action (Unit {0})
validate_opened_lock_file p = do
  map_err (io "inspect opened lock" p) system_call
  map_err (io "inspect opened lock" p) system_call
  r ← outcome_of (symlink_metadata p)
  current ← lift (lock_is_current p r)
  lift (refuse_stale_lock p current)

-- Opening an existing file for reading and writing; O_NOFOLLOW refuses a link.
abbrev pub openable : Result IoKind Node → Result IoKind (Unit {0})
openable (ok (file b)) = ok tt
openable (ok dir) = err other
openable (ok link) = err other
openable (err k) = err k

unfoldable pub open_existing : FilePath → Sys (Unit {0})
open_existing p = do r ← outcome_of (symlink_metadata p); lift (openable r)

-- flock: contended exactly while another process holds the file.
unfoldable pub contended : FilePath → Sys Bool
contended p w = (ok (any (path_eq p) w.held), w)

unfoldable pub probe_opened : FilePath → Action ExclusiveLeaseProbe
probe_opened p = do
  validate_opened_lock_file p
  map_err (io "inspect generation lease" p) system_call
  locked ← map_err (io "inspect generation lease" p) (contended p)
  if locked then pure busy else (do validate_opened_lock_file p; pure (acquired p))

abbrev pub probe_open : FilePath → Result IoKind (Unit {0}) → Action ExclusiveLeaseProbe
probe_open p (ok u) = probe_opened p
probe_open p (err not_found) = pure missing
probe_open p (err already_exists) = raise (io "open existing generation lease" p already_exists)
probe_open p (err other) = raise (io "open existing generation lease" p other)

module _ (paths : AppPaths) where
  unfoldable pub try_acquire_existing_path : FilePath → Action ExclusiveLeaseProbe
  try_acquire_existing_path p = do
    ensure_no_managed_symlinks paths.state_dir p
    opened ← outcome_of (open_existing p)
    probe_open p opened

  unfoldable pub try_acquire_existing : Text → Action ExclusiveLeaseProbe
  try_acquire_existing generation =
      try_acquire_existing_path (generation_lease_file paths generation)

abbrev pub remove_lease : FilePath → Result IoKind Node → Action Bool
remove_lease p (ok n) =
    if is_file n
    then (do map_err (io "remove generation lease" p) (remove_file p); pure true)
    else raise (io "remove generation lease" p other)
remove_lease p (err not_found) = pure false
remove_lease p (err already_exists) = raise (io "inspect generation lease" p already_exists)
remove_lease p (err other) = raise (io "inspect generation lease" p other)

-- `release_and_remove`
unfoldable pub release_and_remove : FilePath → Action Bool
release_and_remove p = do r ← outcome_of (symlink_metadata p); remove_lease p r
