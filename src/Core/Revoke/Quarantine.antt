-- ===== src/Core/Revoke/Quarantine.antt =====
-- `RevokeQuarantine` of tools/saiai-core/src/setup.rs: paths that a revocation has moved aside and
-- moves back when it fails. Errors are values here, since the state outlives them.
pub mod Keeps
use saiai_client.Prelude.{
  ℕ, Bool, true, false, not, ◌&&◌, ◌||◌, Option, none, some, List, [], ◌∷◌, ◌++◌, Text, codes,
  is_empty, reverse, if◌then◌else◌,
}
use saiai_client.Prelude.Result.{Result, ok, err, is_ok}
use saiai_client.Core.Error.{Error, FilePath, IoKind, already_exists, other, io, invalid_app_path}
use saiai_client.Core.Refs.{Product, quarantine_prefix}
use saiai_client.Core.Fs.{join}
use saiai_client.Core.Prog.{Prog, pure, raise, lift, outcome_of, best_effort, ◌>>=◌, ◌>>◌}
use saiai_client.Core.Sys.{read_dir, rename, remove_dir, parent, file_name}
use saiai_client.Core.Files.{
  Action, path_present_no_follow, ensure_private_dir, remove_dir_if_exists,
}
use saiai_client.Core.Revoke.Resources.{insert_path}

pub record QuarantinedPath : Type 0 where
  pub original : FilePath
  pub quarantined : FilePath

pub record RevokeQuarantine : Type 0 where
  pub entries : List QuarantinedPath
  pub roots : List FilePath

abbrev pub new_quarantine : RevokeQuarantine
new_quarantine = record { entries = []; roots = [] }

-- Whether the restoring of an entry failed, and whether the entry is kept
pub record Restored : Type 0 where
  pub failed : Bool
  pub kept : Bool

abbrev pub restored : Bool → Bool → Restored
restored failed kept = record { failed = failed; kept = kept }

abbrev pub renamed : Result IoKind (Unit {0}) → Restored
renamed (ok u) = restored false false
renamed (err k) = restored true true

abbrev pub restore_present : QuarantinedPath → Bool → Bool → Action Restored
restore_present entry false original_present = pure (restored (not original_present) false)
restore_present entry true true = pure (restored true true)
restore_present entry true false = do
  r ← outcome_of (rename entry.quarantined entry.original)
  pure (renamed r)

abbrev pub restore_inspected : QuarantinedPath → Bool → Result Error Bool → Action Restored
restore_inspected entry quarantined_present (err e) = pure (restored true quarantined_present)
restore_inspected entry quarantined_present (ok original_present) =
    restore_present entry quarantined_present original_present

abbrev pub restore_quarantined : QuarantinedPath → Result Error Bool → Action Restored
restore_quarantined entry (err e) = pure (restored true true)
restore_quarantined entry (ok quarantined_present) = do
  o ← outcome_of (path_present_no_follow entry.original)
  restore_inspected entry quarantined_present o

-- One round of the loop of `rollback`
unfoldable pub restore_entry : QuarantinedPath → Action Restored
restore_entry entry = do
  q ← outcome_of (path_present_no_follow entry.quarantined)
  restore_quarantined entry q

abbrev pub keep_failed :
    QuarantinedPath → Restored → Bool × List QuarantinedPath → Bool × List QuarantinedPath
keep_failed entry r (failed, kept) = (r.failed || failed, if r.kept then entry ∷ kept else kept)

-- The loop: whether any entry failed, and the entries that are kept
unfoldable pub restore_all : List QuarantinedPath → Action (Bool × List QuarantinedPath)
restore_all [] = pure (false, [])
restore_all (entry ∷ entries) = do
  r ← restore_entry entry
  rest ← restore_all entries
  pure (keep_failed entry r rest)

abbrev pub removed_root : Result IoKind (List Text) → FilePath → Action Bool
removed_root (err k) root = pure false
removed_root (ok names) root =
    if is_empty names then (do r ← outcome_of (remove_dir root); pure (is_ok r)) else pure false

-- `self.roots.retain(…)`
unfoldable pub retain_roots : List FilePath → Action (List FilePath)
retain_roots [] = pure []
retain_roots (root ∷ roots) = do
  listed ← outcome_of (read_dir root)
  gone ← removed_root listed root
  rest ← retain_roots roots
  pure (if gone then rest else root ∷ rest)

abbrev pub first_original : List QuarantinedPath → FilePath
first_original [] = codes "revoke quarantine" ∷ []
first_original (entry ∷ entries) = entry.original

abbrev pub rollback_result : Bool → List QuarantinedPath → Result Error (Unit {0})
rollback_result false entries = ok tt
rollback_result true entries = err (io "restore revoked paths" (first_original entries) other)

unfoldable pub rollback : RevokeQuarantine → Action (Result Error (Unit {0}) × RevokeQuarantine)
rollback state = do
  r ← restore_all (reverse state.entries)
  roots ← retain_roots state.roots
  pure (rollback_result r.0 (reverse r.1), record { entries = reverse r.1; roots = roots })

-- `drop` while the rollback is armed
unfoldable pub drop_armed : RevokeQuarantine → Action (Unit {0})
drop_armed state = best_effort (rollback state)

abbrev pub Moved : Type 0
Moved = Result Error Bool × RevokeQuarantine

abbrev pub or_failure : Result Error (Unit {0}) × RevokeQuarantine → Error → Moved
or_failure (err e, state) why = (err e, state)
or_failure (ok u, state) why = (err why, state)

-- `self.rollback()?; return Err(…)`
abbrev pub roll_back_with : RevokeQuarantine → Error → Action Moved
roll_back_with state why = do r ← rollback state; pure (or_failure r why)

abbrev pub moved_to :
    RevokeQuarantine → FilePath → FilePath → Result IoKind (Unit {0}) → Action Moved
moved_to state original destination (err k) =
    roll_back_with state (io "quarantine revoked path" original k)
moved_to state original destination (ok u) = pure (
  ok true,
  record state {
    entries = state.entries ++ (record { original = original; quarantined = destination }) ∷ [];
  },
)

abbrev pub move_unless : RevokeQuarantine → FilePath → FilePath → Result Error Bool → Action Moved
move_unless state original destination (err e) = pure (err e, state)
move_unless state original destination (ok true) =
    roll_back_with state (io "quarantine revoked path" destination already_exists)
move_unless state original destination (ok false) = do
  r ← outcome_of (rename original destination)
  moved_to state original destination r

abbrev pub move_into : RevokeQuarantine → FilePath → FilePath → Option Text → Action Moved
move_into state original root none =
    pure (err (invalid_app_path "revoke path" original "path has no file name"), state)
move_into state original root (some name) = do
  present ← outcome_of (path_present_no_follow (join root name))
  move_unless state original (join root name) present

abbrev pub move_prepared :
    RevokeQuarantine → FilePath → FilePath → Result Error (Unit {0}) → Action Moved
move_prepared state original root (err e) = pure (err e, state)
move_prepared state original root (ok u) =
    move_into (record state { roots = insert_path root state.roots }) original root
      (file_name original)

abbrev pub move_from : Product → Text → RevokeQuarantine → FilePath → Option FilePath → Action Moved
move_from p id state original none =
    pure (err (invalid_app_path "revoke path" original "path has no parent directory"), state)
move_from p id state original (some directory) = do
  r ← outcome_of (ensure_private_dir (join directory (quarantine_prefix p ++ id)))
  move_prepared state original (join directory (quarantine_prefix p ++ id)) r

abbrev pub move_if_present :
    Product → Text → RevokeQuarantine → FilePath → Result Error Bool → Action Moved
move_if_present p id state original (err e) = pure (err e, state)
move_if_present p id state original (ok false) = pure (ok false, state)
move_if_present p id state original (ok true) = move_from p id state original (parent original)

unfoldable pub move_path : Product → Text → RevokeQuarantine → FilePath → Action Moved
move_path p id state original = do
  present ← outcome_of (path_present_no_follow original)
  move_if_present p id state original present

-- `commit_and_purge_best_effort(false)`
unfoldable pub purge : List FilePath → Action (Unit {0})
purge [] = pure tt
purge (root ∷ roots) = do best_effort (remove_dir_if_exists root); purge roots
