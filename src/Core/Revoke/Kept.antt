-- ===== src/Core/Revoke/Kept.antt =====
-- A revocation keeps what stands elsewhere, whether it returns or fails.
use saiai_client.Prelude.{
  ℕ, ◌≡◌, Bool, true, false, Option, List, [], ◌∷◌, ◌++◌, Text, All, is_empty,
}
use mathlib.Core.Path.{subst}
use saiai_client.Prelude.Result.{Result, ok, err}
use saiai_client.Core.Error.{Error, FilePath, IoKind, not_found, already_exists, other}
use saiai_client.Core.Refs.{Product}
use saiai_client.Core.Fs.{Node, path_eq}
use saiai_client.Core.Config.{ProductConfig}
use saiai_client.Core.Prog.Keeps.{
  Invariant, Keeps, Keeps-pure, Keeps-raise, Keeps-lift, Keeps-bind, Keeps-if, Keeps-outcome_of,
  Keeps-map_err,
}
use saiai_client.Core.Prog.Yields.{
  Yields, Yields-pure, Yields-raise, Yields-bind, Yields-then, Yields-if, Yields-lift,
}
use saiai_client.Core.Sys.Keeps.{
  Stands, Keeps-read_dir, Keeps-symlink_metadata, Keeps-system_call, Keeps-remove_file,
  Keeps-remove_dir,
}
use saiai_client.Core.Files.{is_dir, is_file}
use saiai_client.Core.Files.Keeps.{
  Avoids, Keeps-ensure_no_managed_symlinks, Keeps-reject_symlink_if_present,
  Keeps-remove_dir_if_exists, Keeps-atomic_write_private,
}
use saiai_client.Core.Fs.Laws.{path_eq-of_not_under}
use saiai_client.Core.Paths.{config_file, transaction_lock_file, generation_lease_file}
use saiai_client.Core.Lease.{
  ExclusiveLeaseProbe, acquired, missing, busy, probe_opened, probe_open, try_acquire_existing_path,
  try_acquire_existing,
}
use saiai_client.Core.Lease.Keeps.{
  Keeps-validate_opened_lock_file, Keeps-open_existing, Keeps-contended, Keeps-release_and_remove,
}
use saiai_client.Core.Status.{SetupStatus}
use saiai_client.Core.Transaction.Keeps.{Keeps-transaction_state_root}
use saiai_client.Core.Revoke.Quarantine.{RevokeQuarantine}
use saiai_client.Core.Revoke.Quarantine.Keeps.{
  StateSpares, RootSpares, rollback-Yields, Keeps-drop_armed, Keeps-purge,
}
use saiai_client.Core.Revoke.{
  ProductConfigCommit, no_commit, replace, remove_last, or_no, push_if,
  remove_config_file_for_product_commit, remove_if_file, remove_regular_file, remove_if_listed,
  remove_if_directory, remove_empty_real_directory, prune_directories, remove_previous,
  release_leases, prune_lock, shared_dirs, root_dirs, prune_empty_shared_dirs, probed,
  acquire_leases, commit_revocation, roll_back_and_fail, after_revocation, committed, commit_moved,
}
use saiai_client.Core.Env.{Env}
use saiai_client.Core.Revoke.Spares.{GenerationApart, Elsewhere}

-- An acquired lease is not at the path.
abbrev ProbeSpares : FilePath → ExclusiveLeaseProbe → Type 0
ProbeSpares q (acquired lease) = path_eq lease q ≡ false
ProbeSpares q missing = Unit
ProbeSpares q busy = Unit

abbrev pub LeasesSpare : FilePath → List FilePath → Type 0
LeasesSpare q leases = All (λ (l : FilePath). path_eq l q ≡ false) leases

LeasesSpare-append :
    (q : FilePath) (leases : List FilePath) (lease : FilePath)
    → LeasesSpare q leases
    → path_eq lease q ≡ false
    → LeasesSpare q (leases ++ lease ∷ [])
LeasesSpare-append q [] lease h k = (k, tt)
LeasesSpare-append q (l ∷ leases) lease (h, hs) k = (h, LeasesSpare-append q leases lease hs k)

probed-Spares :
    (q : FilePath) (e : Env) (p : Product) (leases more : List FilePath)
    (probe : ExclusiveLeaseProbe)
    → LeasesSpare q leases
    → ProbeSpares q probe
    → probed e p leases probe ≡ ok more
    → LeasesSpare q more
probed-Spares q e p leases more (acquired lease) h k e' =
    subst (LeasesSpare q) (cc e') (LeasesSpare-append q leases lease h k)
probed-Spares q e p leases more missing h k e' = subst (LeasesSpare q) (cc e') h
probed-Spares q e p leases more busy h k e' = cc

module _ {P : Invariant} (q : FilePath) where
  probe_opened-Yields :
      (p : FilePath) → path_eq p q ≡ false → Yields P (probe_opened p) (ProbeSpares q)
  unfolding probe_opened
  probe_opened-Yields p h = Yields-then _ _ _ (Keeps-validate_opened_lock_file p) λ _.
      Yields-then _ _ _ (Keeps-map_err _ _ Keeps-system_call) λ _.
        Yields-then _ _ _ (Keeps-map_err _ _ (Keeps-contended p)) λ locked.
          Yields-if locked _ _ _ (Yields-pure _ _ tt)
            (Yields-then _ _ _ (Keeps-validate_opened_lock_file p) λ _. Yields-pure _ _ h)

  probe_open-Yields :
      (p : FilePath) (r : Result IoKind Unit)
      → path_eq p q ≡ false
      → Yields P (probe_open p r) (ProbeSpares q)
  probe_open-Yields p (ok u) h = probe_opened-Yields p h
  probe_open-Yields p (err not_found) h = Yields-pure _ _ tt
  probe_open-Yields p (err already_exists) h = Yields-raise _ _
  probe_open-Yields p (err other) h = Yields-raise _ _

module _ {q : FilePath} {n : Node} {n₀ : ℕ} (e : Env) where
  probe-Yields :
      (g : Text)
      → GenerationApart e q g
      → Yields (Stands q n n₀) (try_acquire_existing e.paths g) (ProbeSpares q)
  unfolding try_acquire_existing try_acquire_existing_path
  probe-Yields g (d, r, l, h) = Yields-then _ _ _ (Keeps-ensure_no_managed_symlinks _ _) λ _.
      Yields-then _ _ _ (Keeps-outcome_of _ (Keeps-open_existing _))
        λ opened. probe_open-Yields q (generation_lease_file e.paths g) opened h

  pub acquire_leases-Yields :
      (p : Product) (gs : List Text) (leases : List FilePath)
      → All (GenerationApart e q) gs
      → LeasesSpare q leases
      → Yields (Stands q n n₀) (acquire_leases e p gs leases) (LeasesSpare q)
  unfolding acquire_leases
  acquire_leases-Yields p [] leases h k = Yields-pure _ _ k
  acquire_leases-Yields p (g ∷ gs) leases (h, hs) k =
      Yields-bind _ _ _ _ (probe-Yields g h) λ probe kp.
        Yields-bind _ _ _ _
          (Yields-lift (probed e p leases probe) (LeasesSpare q)
            (λ more r. probed-Spares q e p leases more probe k kp r))
          λ more km. acquire_leases-Yields p gs more hs km

  pub Keeps-remove_previous :
      (qs removed : List FilePath)
      → All (RootSpares q) qs
      → Keeps (Stands q n n₀) (remove_previous qs removed)
  unfolding remove_previous
  Keeps-remove_previous [] removed h = Keeps-pure _
  Keeps-remove_previous (d ∷ ds) removed (h, hs) =
      Keeps-bind _ _ (Keeps-remove_dir_if_exists d h)
        λ gone. Keeps-remove_previous ds (push_if gone d removed) hs

  Keeps-release_leases :
      (leases removed : List FilePath)
      → LeasesSpare q leases
      → Keeps (Stands q n n₀) (release_leases leases removed)
  unfolding release_leases
  Keeps-release_leases [] removed h = Keeps-pure _
  Keeps-release_leases (l ∷ leases) removed (h, hs) =
      Keeps-bind _ _ (Keeps-outcome_of _ (Keeps-release_and_remove l h))
        λ r. Keeps-release_leases leases (push_if (or_no r) l removed) hs

  Keeps-remove_if_listed :
      (d : FilePath) (r : Result IoKind (List Text))
      → path_eq d q ≡ false
      → Keeps (Stands q n n₀) (remove_if_listed d r)
  Keeps-remove_if_listed d (err k) h = Keeps-pure _
  Keeps-remove_if_listed d (ok names) h =
      Keeps-if (is_empty names) _ _
        (Keeps-bind _ _ (Keeps-outcome_of _ (Keeps-remove_dir d h)) λ r. Keeps-pure _)
        (Keeps-pure _)

  Keeps-remove_if_directory :
      (d : FilePath) (r : Result IoKind Node)
      → path_eq d q ≡ false
      → Keeps (Stands q n n₀) (remove_if_directory d r)
  Keeps-remove_if_directory d (err k) h = Keeps-pure _
  Keeps-remove_if_directory d (ok m) h =
      Keeps-if (is_dir m) _ _
        (Keeps-bind _ _ (Keeps-outcome_of _ (Keeps-read_dir d)) λ r. Keeps-remove_if_listed d r h)
        (Keeps-pure _)

  Keeps-prune_directories :
      (ds removed : List FilePath)
      → LeasesSpare q ds
      → Keeps (Stands q n n₀) (prune_directories ds removed)
  unfolding prune_directories remove_empty_real_directory
  Keeps-prune_directories [] removed h = Keeps-pure _
  Keeps-prune_directories (d ∷ ds) removed (h, hs) =
      Keeps-bind _ _
        (Keeps-bind _ _ (Keeps-outcome_of _ (Keeps-symlink_metadata d))
          λ r. Keeps-remove_if_directory d r h)
        λ gone. Keeps-prune_directories ds (push_if gone d removed) hs

  Keeps-remove_if_file :
      (p : FilePath) (r : Result IoKind Node)
      → path_eq p q ≡ false
      → Keeps (Stands q n n₀) (remove_if_file p r)
  Keeps-remove_if_file p (err k) h = Keeps-pure _
  Keeps-remove_if_file p (ok m) h =
      Keeps-if (is_file m) _ _
        (Keeps-bind _ _ (Keeps-outcome_of _ (Keeps-remove_file p h)) λ r. Keeps-pure _)
        (Keeps-pure _)

  module _ (p : Product) (entry : Option ProductConfig) (apart : Elsewhere e p entry q) where
    Keeps-prune_lock :
        (b : Bool) (removed : List FilePath) → Keeps (Stands q n n₀) (prune_lock e b removed)
    unfolding remove_regular_file
    Keeps-prune_lock false removed = Keeps-pure _
    Keeps-prune_lock true removed =
        Keeps-bind _ _
          (Keeps-bind _ _ (Keeps-outcome_of _ (Keeps-symlink_metadata _))
            λ r. Keeps-remove_if_file (transaction_lock_file e.paths) r apart.lock_apart)
          λ gone. Keeps-pure _

    Keeps-prune_empty_shared_dirs :
        (removed : List FilePath) → Keeps (Stands q n n₀) (prune_empty_shared_dirs e removed)
    unfolding prune_empty_shared_dirs
    Keeps-prune_empty_shared_dirs removed =
        Keeps-bind _ _ (Keeps-prune_directories (shared_dirs e) removed apart.shared_apart)
          λ pruned.
            Keeps-bind _ _ (Keeps-outcome_of _ (Keeps-transaction_state_root e.paths)) λ only.
              Keeps-bind _ _ (Keeps-prune_lock (or_no only) pruned)
                λ unlocked. Keeps-prune_directories (root_dirs e) unlocked apart.roots_apart

    Keeps-commit_revocation :
        (c : ProductConfigCommit)
        → Avoids e.uuid n₀ q
        → Keeps (Stands q n n₀) (commit_revocation e c)
    unfolding commit_revocation remove_config_file_for_product_commit
    Keeps-commit_revocation no_commit avoids = Keeps-pure _
    Keeps-commit_revocation (replace bytes) avoids =
        Keeps-bind _ _
          (Keeps-atomic_write_private e.uuid (config_file e.paths) bytes avoids apart.config_apart)
          λ _. Keeps-pure _
    Keeps-commit_revocation remove_last avoids =
        Keeps-bind _ _ (Keeps-reject_symlink_if_present _) λ _.
          Keeps-bind _ _
            (Keeps-outcome_of _ (
              Keeps-remove_file _
                (path_eq-of_not_under (config_file e.paths) q apart.config_apart)))
            λ r. Keeps-lift _

    Keeps-roll_back_and_fail :
        (state : RevokeQuarantine) (why : Error)
        → StateSpares q state
        → Keeps (Stands q n n₀) (roll_back_and_fail e state why)
    Keeps-roll_back_and_fail state why h =
        (Yields-bind _ _ _ (λ _. Unit {0}) (rollback-Yields state h)
          λ r k. Yields-then _ _ _ (Keeps-drop_armed r.1 k) λ _. Yields-raise _ _).keeps

    Keeps-after_revocation :
        (status : SetupStatus) (state : RevokeQuarantine) (leases removed : List FilePath)
        (b : Bool)
        → StateSpares q state
        → LeasesSpare q leases
        → Keeps (Stands q n n₀) (after_revocation e p status state leases removed b)
    unfolding after_revocation
    Keeps-after_revocation status state leases removed b (es, rs) h =
        Keeps-bind _ _ (Keeps-purge state.roots rs) λ _.
          Keeps-bind _ _ (Keeps-release_leases leases _ h) λ released.
            Keeps-bind _ _ (Keeps-prune_empty_shared_dirs released) λ pruned. Keeps-pure _

    Keeps-committed :
        (status : SetupStatus) (state : RevokeQuarantine) (leases removed : List FilePath)
        (r : Result Error Bool)
        → StateSpares q state
        → LeasesSpare q leases
        → Keeps (Stands q n n₀) (committed e p status state leases removed r)
    Keeps-committed status state leases removed (err why) h k = Keeps-roll_back_and_fail state why h
    Keeps-committed status state leases removed (ok b) h k =
        Keeps-after_revocation status state leases removed b h k

    pub Keeps-commit_moved :
        (status : SetupStatus) (leases : List FilePath) (c : ProductConfigCommit)
        (result : Result Error (List FilePath)) (state : RevokeQuarantine)
        → Avoids e.uuid n₀ q
        → StateSpares q state
        → LeasesSpare q leases
        → Keeps (Stands q n n₀) (commit_moved e p status leases c (result, state))
    Keeps-commit_moved status leases c (err why) state avoids h k =
        Keeps-bind _ _ (Keeps-drop_armed state h) λ _. Keeps-raise _
    Keeps-commit_moved status leases c (ok removed) state avoids h k =
        Keeps-bind _ _ (Keeps-outcome_of _ (Keeps-commit_revocation c avoids))
          λ r. Keeps-committed status state leases removed r h k
