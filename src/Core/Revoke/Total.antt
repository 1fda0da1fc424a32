-- ===== src/Core/Revoke/Total.antt =====
-- Once a revocation has committed its configuration, it returns.
use saiai_client.Prelude.{◌≡◌, refl, Bool, true, false, List, [], ◌∷◌, Text}
use saiai_client.Prelude.Result.{Result, ok, err}
use saiai_client.Core.Error.{Error, FilePath, IoKind}
use saiai_client.Core.Refs.{Product}
use saiai_client.Core.Fs.{Node}
use saiai_client.Core.Prog.{World}
use saiai_client.Core.Prog.Keeps.{Invariant}
use saiai_client.Core.Prog.Yields.{Yields, Yields-pure, Yields-then}
use saiai_client.Core.Prog.OnError.{
  NeverFails, NeverFails-pure, NeverFails-if, NeverFails-best_effort, NeverFails-bind,
  NeverFails-outcome_of, total_rules,
}
use saiai_client.Core.Status.{SetupStatus}
use saiai_client.Core.Revoke.Quarantine.{RevokeQuarantine, purge}
use saiai_client.Core.Revoke.{
  RevokeReport, one_product, remove_if_file, remove_regular_file, remove_if_listed,
  remove_if_directory, remove_empty_real_directory, prune_directories, release_leases, prune_lock,
  prune_empty_shared_dirs, after_revocation,
}
use saiai_client.Core.Env.{Env}

NeverFails-purge : (roots : List FilePath) → NeverFails (purge roots)
unfolding purge
NeverFails-purge [] = NeverFails-pure tt
NeverFails-purge (root ∷ roots) =
    NeverFails-bind _ _ (NeverFails-best_effort _) λ _. NeverFails-purge roots

NeverFails-release_leases :
    (leases removed : List FilePath) → NeverFails (release_leases leases removed)
unfolding release_leases
NeverFails-release_leases [] removed = NeverFails-pure _
NeverFails-release_leases (lease ∷ leases) removed =
    NeverFails-bind _ _ (NeverFails-outcome_of _) λ r. NeverFails-release_leases leases _

NeverFails-remove_if_file :
    (p : FilePath) (r : Result IoKind Node) → NeverFails (remove_if_file p r)
NeverFails-remove_if_file p (ok n) = search total_rules depth 8
NeverFails-remove_if_file p (err k) = NeverFails-pure _

NeverFails-remove_if_listed :
    (p : FilePath) (r : Result IoKind (List Text)) → NeverFails (remove_if_listed p r)
NeverFails-remove_if_listed p (ok names) = search total_rules depth 8
NeverFails-remove_if_listed p (err k) = NeverFails-pure _

NeverFails-remove_if_directory :
    (p : FilePath) (r : Result IoKind Node) → NeverFails (remove_if_directory p r)
NeverFails-remove_if_directory p (ok n) =
    NeverFails-if _ _ _
      (NeverFails-bind _ _ (NeverFails-outcome_of _) λ r. NeverFails-remove_if_listed p r)
      (NeverFails-pure _)
NeverFails-remove_if_directory p (err k) = NeverFails-pure _

NeverFails-prune_directories :
    (ds removed : List FilePath) → NeverFails (prune_directories ds removed)
unfolding prune_directories remove_empty_real_directory
NeverFails-prune_directories [] removed = NeverFails-pure _
NeverFails-prune_directories (d ∷ ds) removed =
    NeverFails-bind _ _
      (NeverFails-bind _ _ (NeverFails-outcome_of _) λ r. NeverFails-remove_if_directory d r)
      λ gone. NeverFails-prune_directories ds _

module _ (e : Env) where
  NeverFails-prune_lock : (b : Bool) (removed : List FilePath) → NeverFails (prune_lock e b removed)
  unfolding remove_regular_file
  NeverFails-prune_lock false removed = NeverFails-pure _
  NeverFails-prune_lock true removed =
      NeverFails-bind _ _
        (NeverFails-bind _ _ (NeverFails-outcome_of _) λ r. NeverFails-remove_if_file _ r)
        λ gone. NeverFails-pure _

  NeverFails-prune_empty_shared_dirs :
      (removed : List FilePath) → NeverFails (prune_empty_shared_dirs e removed)
  unfolding prune_empty_shared_dirs
  NeverFails-prune_empty_shared_dirs removed =
      NeverFails-bind _ _ (NeverFails-prune_directories _ _) λ pruned.
        NeverFails-bind _ _ (NeverFails-outcome_of _) λ only.
          NeverFails-bind _ _ (NeverFails-prune_lock _ _)
            λ unlocked. NeverFails-prune_directories _ _

  module _ (p : Product) (status : SetupStatus) (state : RevokeQuarantine)
      (leases removed : List FilePath) (b : Bool) where
    NeverFails-after_revocation : NeverFails (after_revocation e p status state leases removed b)
    unfolding after_revocation
    NeverFails-after_revocation = NeverFails-bind _ _ (NeverFails-purge _) λ _.
        NeverFails-bind _ _ (NeverFails-release_leases _ _) λ released.
          NeverFails-bind _ _ (NeverFails-prune_empty_shared_dirs _) λ pruned. NeverFails-pure _

    abbrev Anything : Invariant
    Anything = λ entries issued. Unit {0}

    after_revocation-Yields :
        Yields Anything
          (after_revocation e p status state leases removed b)
          (λ (r : RevokeReport). (r.target ≡ one_product p) × (r.status ≡ status))
    unfolding after_revocation
    after_revocation-Yields =
        Yields-then _ _ _ (record { at = λ w h. tt })
          λ _.
            Yields-then _ _ _ (record { at = λ w h. tt })
              λ released.
                Yields-then _ _ _ (record { at = λ w h. tt }) λ pruned. Yields-pure _ _ (refl, refl)

-- An answer that reports the product and the status
abbrev pub Reports : Product → SetupStatus → Result Error RevokeReport → Type 0
Reports p status (err x) = ⊥
Reports p status (ok r) = (r.target ≡ one_product p) × (r.status ≡ status)

-- After the commit of the configuration a revocation returns, whatever the purge, the release of
-- the leases and the pruning meet, and its report names the product and has the status that was
-- computed before the commit.
pub after_revocation-Reports :
    (e : Env) (p : Product) (status : SetupStatus) (state : RevokeQuarantine)
    (leases removed : List FilePath) (b : Bool) (w : World)
    → Reports p status (after_revocation e p status state leases removed b w).0
after_revocation-Reports e p status state leases removed b w =
    answered (after_revocation e p status state leases removed b w).0 refl
  where
    answered :
        (r : Result Error RevokeReport)
        → (after_revocation e p status state leases removed b w).0 ≡ r
        → Reports p status r
    answered (ok report) h =
        (after_revocation-Yields e p status state leases removed b).ensures.at w report tt h
    answered (err x) h = (NeverFails-after_revocation e p status state leases removed b).at w x h
