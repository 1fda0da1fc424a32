-- ===== src/Core/Transaction/Cleanup.antt =====
-- The cleanups after a commit touch nothing outside the data and state directories.
use saiai_client.Prelude.{ℕ, ◌≡◌, refl, ap, ◌∙◌, false, Text, List, ◌++◌, is_empty}
use saiai_client.Prelude.Result.{Result, ok, err, is_ok}
use saiai_client.Core.Error.{Error, FilePath, IoKind, not_found, already_exists, other}
use saiai_client.Core.Fs.{Node, under, path_eq}
use saiai_client.Core.Fs.Laws.{under-below, path_eq-of_not_under}
use saiai_client.Core.Prog.{World, Prog, outcome_of}
use saiai_client.Core.Prog.OnError.{Ensures, Ensures-pure, Ensures-bind, Ensures-if, Ensures-raise}
use saiai_client.Core.Prog.Triple.{Anything, Keeps-Anything}
use saiai_client.Core.Prog.Keeps.{
  Keeps, Keeps-bind_result, Keeps-bind, Keeps-pure, Keeps-if, Keeps-outcome_of, Keeps-best_effort,
}
use saiai_client.Core.Sys.Keeps.{Stands, Keeps-read_dir, Keeps-remove_dir}
use saiai_client.Core.Files.Keeps.{Keeps-ensure_no_managed_symlinks, Keeps-remove_dir_if_exists}
use saiai_client.Core.Paths.{AppPaths, generation_lease_file}
use saiai_client.Core.Lease.{
  try_acquire_existing, probe_open, probe_opened, try_acquire_existing_path, ExclusiveLeaseProbe,
  acquired, missing, busy,
}
use saiai_client.Core.Lease.Keeps.{Keeps-try_acquire_existing_path, Keeps-release_and_remove}
use saiai_client.Core.Transaction.{
  cleanup_probed, cleanup_generation, remove_managed, remove_generation_paths, cleanup_staging,
  remove_if_listed_empty,
}

below : (p a b q : FilePath) → under p q ≡ false → under ((p ++ a) ++ b) q ≡ false
below p a b q h = under-below (p ++ a) b q (under-below p a q h)

-- A probe acquires the lease that it was asked for.
abbrev AcquiresOnly : FilePath → ExclusiveLeaseProbe → Type 0
AcquiresOnly p (acquired lease) = lease ≡ p
AcquiresOnly p missing = Unit
AcquiresOnly p busy = Unit

probe_open-AcquiresOnly :
    (p : FilePath) (r : Result IoKind (Unit {0}))
    → Ensures Anything (probe_open p r) (AcquiresOnly p)
unfolding probe_opened
probe_open-AcquiresOnly p (ok u) = Ensures-bind _ _ _ (Keeps-Anything _) λ _.
    Ensures-bind _ _ _ (Keeps-Anything _) λ _. Ensures-bind _ _ _ (Keeps-Anything _) λ locked.
      Ensures-if locked _ _ _ (Ensures-pure busy _ tt)
        (Ensures-bind _ _ _ (Keeps-Anything _) λ _. Ensures-pure (acquired p) _ refl)
probe_open-AcquiresOnly p (err not_found) = Ensures-pure missing _ tt
probe_open-AcquiresOnly p (err already_exists) = Ensures-raise _ _
probe_open-AcquiresOnly p (err other) = Ensures-raise _ _

probe-AcquiresOnly :
    (paths : AppPaths) (p : FilePath)
    → Ensures Anything (try_acquire_existing_path paths p) (AcquiresOnly p)
unfolding try_acquire_existing_path
probe-AcquiresOnly paths p =
    Ensures-bind _ _ _ (Keeps-Anything _)
      λ _. Ensures-bind _ _ _ (Keeps-Anything _) λ r. probe_open-AcquiresOnly p r

outcome_of-same :
    {A : Type 0} (m : Prog Error A) (w : World) (r : Result Error A)
    → (outcome_of {F = Error} m w).0 ≡ ok r
    → (m w).0 ≡ r
unfolding outcome_of
outcome_of-same m w r h = cc

module _ {q : FilePath} {n : Node} {n₀ : ℕ} (paths : AppPaths)
    (data_apart : under paths.data_dir q ≡ false)
    (state_apart : under paths.state_dir q ≡ false) where
  Keeps-remove_managed :
      (root p : FilePath) → under p q ≡ false → Keeps (Stands q n n₀) (remove_managed paths root p)
  Keeps-remove_managed root p h =
      Keeps-bind _ _ (Keeps-outcome_of _ (Keeps-ensure_no_managed_symlinks root p)) λ r.
        Keeps-if (is_ok r) _ _ (Keeps-best_effort _ (Keeps-remove_dir_if_exists p h))
          (Keeps-pure tt)

  pub Keeps-remove_generation_paths :
      (generation : Text) → Keeps (Stands q n n₀) (remove_generation_paths paths generation)
  Keeps-remove_generation_paths generation =
      Keeps-bind _ _ (Keeps-remove_managed _ _ (below paths.data_dir _ _ q data_apart)) λ _.
        Keeps-bind _ _ (Keeps-remove_managed _ _ (below paths.state_dir _ _ q state_apart))
          λ _. Keeps-remove_managed _ _ (below paths.state_dir _ _ q state_apart)

  Keeps-remove_if_listed_empty :
      (r : Result IoKind (List Text)) → Keeps (Stands q n n₀) (remove_if_listed_empty paths r)
  Keeps-remove_if_listed_empty (ok names) =
      Keeps-if (is_empty names) _ _
        (Keeps-best_effort _
          (Keeps-remove_dir _ (path_eq-of_not_under _ q (below paths.data_dir _ _ q data_apart))))
        (Keeps-pure tt)
  Keeps-remove_if_listed_empty (err k) = Keeps-pure tt

  pub Keeps-cleanup_staging : Keeps (Stands q n n₀) (cleanup_staging paths)
  unfolding cleanup_staging
  Keeps-cleanup_staging =
      Keeps-bind _ _ (Keeps-outcome_of _ (Keeps-read_dir _)) λ r. Keeps-remove_if_listed_empty r

  Keeps-cleanup_probed :
      (generation : Text) (r : Result Error ExclusiveLeaseProbe)
      → ((probe : ExclusiveLeaseProbe)
          → r ≡ ok probe
          → AcquiresOnly (generation_lease_file paths generation) probe)
      → Keeps (Stands q n n₀) (cleanup_probed paths generation r)
  Keeps-cleanup_probed generation (ok (acquired lease)) h =
      Keeps-bind _ _ (Keeps-remove_generation_paths generation) λ _. Keeps-best_effort _ (
        Keeps-release_and_remove lease (
          ap (λ p. path_eq p q) (h (acquired lease) refl)
          ∙ path_eq-of_not_under _ q (below paths.state_dir _ _ q state_apart)))
  Keeps-cleanup_probed generation (ok missing) h = Keeps-remove_generation_paths generation
  Keeps-cleanup_probed generation (ok busy) h = Keeps-pure tt
  Keeps-cleanup_probed generation (err x) h = Keeps-pure tt

  pub Keeps-cleanup_generation :
      (generation : Text) → Keeps (Stands q n n₀) (cleanup_generation paths generation)
  unfolding cleanup_generation try_acquire_existing
  Keeps-cleanup_generation generation =
      Keeps-bind_result _ _ (Keeps-outcome_of _ (Keeps-try_acquire_existing_path paths _)) λ r ran.
        Keeps-cleanup_probed generation r λ probe e.
          (probe-AcquiresOnly paths (generation_lease_file paths generation)).at ran.before probe
            (record {}) (outcome_of-same _ ran.before r ran.result ∙ e)
