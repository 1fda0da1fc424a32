-- ===== src/Core/Transaction/Keeps.antt =====
-- What the lock, the checks and the cleanups of a transaction leave alone.
use saiai_client.Prelude.{ℕ, ◌+◌, ◌≤◌, arith, ◌≡◌, refl, Bool, false, Text}
use saiai_client.Prelude.Result.{Result, ok, err}
use saiai_client.Core.Error.{FilePath, IoKind, not_found, already_exists, other}
use saiai_client.Core.Fs.{Node, under, join}
use saiai_client.Core.Prog.{◌>>=◌}
use saiai_client.Core.Prog.Keeps.{
  Invariant, Keeps, Keeps-bind, Keeps-pure, Keeps-raise, Keeps-if, Keeps-if_else, Keeps-map_err,
  Keeps-outcome_of, Keeps-best_effort, keeps_rules,
}
use saiai_client.Core.Prog.OnError.{Ensures, Ensures-pure, Ensures-bind}
use saiai_client.Core.Sys.{new_v4}
use saiai_client.Core.Files.{Action}
use saiai_client.Core.Sys.Keeps.{
  Stands, Keeps-new_v4, Keeps-symlink_metadata, Keeps-system_call, Keeps-read_dir,
  Keeps-create_dir_all, Keeps-open_or_create,
}
use saiai_client.Core.Files.Keeps.{
  Keeps-path_present_no_follow, Keeps-ensure_private_dir, Keeps-reject_symlink_if_present,
  Keeps-remove_dir_if_exists,
}
use saiai_client.Core.Lease.Keeps.{Keeps-validate_opened_lock_file}
use saiai_client.Core.Paths.{AppPaths, generation_staging_dir}
use saiai_client.Core.Load.{ManagedRootPresence}
use saiai_client.Core.Transaction.{
  open_private_lock_file, acquire_transaction_lock, only_lock,
  transaction_state_root_contains_only_lock, roots_are_clean_for_first_setup,
  cleanup_new_transaction_state_root, failed_setup_root_cleanup, remove_new_root, create_stage,
  or_false,
}

module _ {P : Invariant} (paths : AppPaths) where
  Keeps-only_lock : (r : Result IoKind Node) → Keeps P (only_lock paths r)
  Keeps-only_lock (ok n) =
      Keeps-if _ _ _ (Keeps-pure _)
        (Keeps-bind _ _ (Keeps-map_err _ _ (Keeps-read_dir _)) λ names. Keeps-pure _)
  Keeps-only_lock (err not_found) = Keeps-pure _
  Keeps-only_lock (err already_exists) = Keeps-raise _
  Keeps-only_lock (err other) = Keeps-raise _

  pub Keeps-transaction_state_root : Keeps P (transaction_state_root_contains_only_lock paths)
  unfolding transaction_state_root_contains_only_lock
  Keeps-transaction_state_root =
      Keeps-bind _ _ (Keeps-outcome_of _ (Keeps-symlink_metadata _)) λ r. Keeps-only_lock r

  pub Keeps-roots_are_clean_for_first_setup : Keeps P (roots_are_clean_for_first_setup paths)
  unfolding roots_are_clean_for_first_setup
  Keeps-roots_are_clean_for_first_setup =
      search (keeps_rules, Keeps-path_present_no_follow, Keeps-transaction_state_root) depth 10

module _ {q : FilePath} {n : Node} {n₀ : ℕ} where
  Keeps-open_private_lock_file : (p : FilePath) → Keeps (Stands q n n₀) (open_private_lock_file p)
  unfolding open_private_lock_file
  Keeps-open_private_lock_file p =
      search
        (
          keeps_rules, Keeps-ensure_private_dir, Keeps-reject_symlink_if_present,
          Keeps-open_or_create, Keeps-validate_opened_lock_file, Keeps-system_call,
        )
        depth 14

  Ensures-fresh {ℓ} :
      {A : Type ℓ} (uuid : ℕ → Text) (f : Text → Action A) (Q : A → Type 0)
      → ((k : ℕ) → n₀ ≤ k → Ensures (Stands q n n₀) (f (uuid k)) Q)
      → Ensures (Stands q n n₀) (new_v4 uuid >>= f) Q
  unfolding new_v4 ◌>>=◌
  Ensures-fresh uuid f Q h = record {
    at = λ w a s.
        (h w.issued s.drawn).at (record w { issued = w.issued + 1 }) a
          (record { here = s.here; drawn = ground (arith, s.drawn) });
  }

  module _ (paths : AppPaths) where
    pub Keeps-acquire_transaction_lock : Keeps (Stands q n n₀) (acquire_transaction_lock paths)
    unfolding acquire_transaction_lock
    Keeps-acquire_transaction_lock =
        search
          (
            keeps_rules, Keeps-create_dir_all, Keeps-system_call, Keeps-open_private_lock_file,
            Keeps-symlink_metadata,
          )
          depth 16

    -- A root that was there before is not removed, and none of the others holds `q`.
    Keeps-remove_new_root :
        (existed : Bool) (root : FilePath)
        → (existed ≡ false → under root q ≡ false)
        → Keeps (Stands q n n₀) (remove_new_root paths existed root)
    Keeps-remove_new_root existed root h =
        Keeps-if_else existed _ _ (Keeps-pure tt)
          λ new. Keeps-best_effort _ (Keeps-remove_dir_if_exists root (h new))

    module _ (before : ManagedRootPresence)
        (config_safe : before.config ≡ false → under paths.config_dir q ≡ false)
        (data_safe : before.app_data ≡ false → under paths.data_dir q ≡ false)
        (state_safe : before.state ≡ false → under paths.state_dir q ≡ false) where
      pub Keeps-failed_setup_root_cleanup :
          Keeps (Stands q n n₀) (failed_setup_root_cleanup paths before)
      unfolding failed_setup_root_cleanup
      Keeps-failed_setup_root_cleanup =
          Keeps-bind _ _ (Keeps-remove_new_root before.config paths.config_dir config_safe) λ _.
            Keeps-bind _ _ (Keeps-remove_new_root before.app_data paths.data_dir data_safe)
              λ _. Keeps-remove_new_root before.state paths.state_dir state_safe

      pub Keeps-cleanup_new_transaction_state_root :
          Keeps (Stands q n n₀) (cleanup_new_transaction_state_root paths before)
      unfolding cleanup_new_transaction_state_root
      Keeps-cleanup_new_transaction_state_root =
          Keeps-if_else before.state _ _ (Keeps-pure tt) λ new.
            Keeps-bind _ _ (Keeps-outcome_of _ (Keeps-transaction_state_root paths)) λ r.
              Keeps-if (or_false paths r) _ _
                (Keeps-best_effort _ (Keeps-remove_dir_if_exists paths.state_dir (state_safe new)))
                (Keeps-pure tt)

    pub Keeps-create_stage : (uuid : ℕ → Text) → Keeps (Stands q n n₀) (create_stage paths uuid)
    unfolding create_stage
    Keeps-create_stage uuid = search (keeps_rules, Keeps-ensure_private_dir, Keeps-new_v4) depth 10

    -- The staging directory carries an identifier that was not drawn before.
    pub create_stage-fresh :
        (uuid : ℕ → Text)
        → Ensures
            (Stands q n n₀)
            (create_stage paths uuid)
            (λ s. (k : ℕ) × (n₀ ≤ k × s ≡ join (generation_staging_dir paths) (uuid k)))
    unfolding create_stage
    create_stage-fresh uuid = Ensures-bind _ _ _ (Keeps-ensure_private_dir _) λ _.
        Ensures-bind _ _ _ (Keeps-ensure_private_dir _) λ _. Ensures-fresh uuid _ _ λ k new.
          Ensures-bind _ _ _ (Keeps-ensure_private_dir _) λ _. Ensures-pure _ _ (k, (new, refl))
