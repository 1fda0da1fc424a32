-- ===== src/Core/Lease/Keeps.antt =====
-- Probing a lease only looks, and releasing one removes its file alone.
use saiai_client.Prelude.{ℕ, ◌≡◌, true, false}
use saiai_client.Prelude.Result.{Result, ok, err}
use saiai_client.Core.Error.{FilePath, IoKind, not_found, already_exists, other}
use saiai_client.Core.Fs.{Node, path_eq}
use saiai_client.Core.Prog.Keeps.{
  Invariant, Keeps, Keeps-bind, Keeps-pure, Keeps-raise, Keeps-if, Keeps-map_err, Keeps-outcome_of,
  keeps_rules,
}
use saiai_client.Core.Sys.Keeps.{
  Stands, sys_reads, Keeps-symlink_metadata, Keeps-system_call, Keeps-remove_file,
}
use saiai_client.Core.Files.{is_file}
use saiai_client.Core.Files.Keeps.{Keeps-ensure_no_managed_symlinks}
use saiai_client.Core.Paths.{AppPaths}
use saiai_client.Core.Lease.{
  validate_opened_lock_file, open_existing, contended, probe_opened, probe_open,
  try_acquire_existing_path, remove_lease, release_and_remove,
}

module _ {P : Invariant} where
  pub Keeps-validate_opened_lock_file : (p : FilePath) → Keeps P (validate_opened_lock_file p)
  unfolding validate_opened_lock_file
  Keeps-validate_opened_lock_file p = search sys_reads

  pub Keeps-open_existing : (p : FilePath) → Keeps P (open_existing p)
  unfolding open_existing
  Keeps-open_existing p = search sys_reads

  pub Keeps-contended : (p : FilePath) → Keeps P (contended p)
  unfolding contended
  Keeps-contended p = record { at = λ w h. h }

  Keeps-probe_opened : (p : FilePath) → Keeps P (probe_opened p)
  unfolding probe_opened
  Keeps-probe_opened p =
      search (keeps_rules, Keeps-validate_opened_lock_file, Keeps-system_call, Keeps-contended)
        depth 10

  Keeps-probe_open : (p : FilePath) (r : Result IoKind Unit) → Keeps P (probe_open p r)
  Keeps-probe_open p (ok u) = Keeps-probe_opened p
  Keeps-probe_open p (err not_found) = Keeps-pure _
  Keeps-probe_open p (err already_exists) = Keeps-raise _
  Keeps-probe_open p (err other) = Keeps-raise _

  pub Keeps-try_acquire_existing_path :
      (paths : AppPaths) (p : FilePath) → Keeps P (try_acquire_existing_path paths p)
  unfolding try_acquire_existing_path
  Keeps-try_acquire_existing_path paths p =
      search (keeps_rules, Keeps-ensure_no_managed_symlinks, Keeps-open_existing, Keeps-probe_open)

module _ {q : FilePath} {n : Node} {n₀ : ℕ} where
  Keeps-remove_lease :
      (p : FilePath) (r : Result IoKind Node)
      → path_eq p q ≡ false
      → Keeps (Stands q n n₀) (remove_lease p r)
  Keeps-remove_lease p (ok m) h =
      Keeps-if (is_file m) _ _
        (Keeps-bind _ _ (Keeps-map_err _ _ (Keeps-remove_file p h)) λ _. Keeps-pure true)
        (Keeps-raise _)
  Keeps-remove_lease p (err not_found) h = Keeps-pure _
  Keeps-remove_lease p (err already_exists) h = Keeps-raise _
  Keeps-remove_lease p (err other) h = Keeps-raise _

  pub Keeps-release_and_remove :
      (p : FilePath) → path_eq p q ≡ false → Keeps (Stands q n n₀) (release_and_remove p)
  unfolding release_and_remove
  Keeps-release_and_remove p h =
      Keeps-bind _ _ (Keeps-outcome_of _ (Keeps-symlink_metadata p)) λ r. Keeps-remove_lease p r h
