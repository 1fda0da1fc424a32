-- ===== src/Core/Setup/Total.antt =====
-- What follows the commit of a configuration does not fail.
use saiai_client.Prelude.{◌≡◌, refl, Option, none, some, List, Text, text_eq}
use saiai_client.Prelude.Result.{Result, ok, err}
use saiai_client.Core.Error.{Error, IoKind}
use saiai_client.Core.Prog.{World, pure, continue, ◌>>=◌, ◌>>◌}
use saiai_client.Core.Files.{Action}
use saiai_client.Core.Prog.OnError.{
  NeverFails, NeverFails-pure, NeverFails-if, NeverFails-best_effort, NeverFails-bind,
  NeverFails-outcome_of, total_rules,
}
use saiai_client.Core.Config.{ProductConfig}
use saiai_client.Core.Paths.{AppPaths}
use saiai_client.Core.Lease.{ExclusiveLeaseProbe, acquired, missing, busy}
use saiai_client.Core.Status.{SetupStatus}
use saiai_client.Core.Transaction.{
  remove_generation_paths, cleanup_probed, cleanup_generation, cleanup_staging,
  remove_if_listed_empty,
}
use saiai_client.Core.Setup.{drop_previous, after_commit}
use saiai_client.Core.Env.{Env}

module _ (paths : AppPaths) where
  NeverFails-remove_generation_paths : (g : Text) → NeverFails (remove_generation_paths paths g)
  NeverFails-remove_generation_paths g = search total_rules depth 12

  NeverFails-cleanup_probed :
      (g : Text) (r : Result Error ExclusiveLeaseProbe) → NeverFails (cleanup_probed paths g r)
  NeverFails-cleanup_probed g (ok (acquired lease)) =
      NeverFails-bind _ _ (NeverFails-remove_generation_paths g) λ _. NeverFails-best_effort _
  NeverFails-cleanup_probed g (ok missing) = NeverFails-remove_generation_paths g
  NeverFails-cleanup_probed g (ok busy) = NeverFails-pure _
  NeverFails-cleanup_probed g (err x) = NeverFails-pure _

  NeverFails-cleanup_generation : (g : Text) → NeverFails (cleanup_generation paths g)
  unfolding cleanup_generation
  NeverFails-cleanup_generation g =
      NeverFails-bind _ _ (NeverFails-outcome_of _) λ probe. NeverFails-cleanup_probed g probe

  NeverFails-remove_if_listed_empty :
      (r : Result IoKind (List Text)) → NeverFails (remove_if_listed_empty paths r)
  NeverFails-remove_if_listed_empty (ok names) = search total_rules
  NeverFails-remove_if_listed_empty (err k) = NeverFails-pure _

  NeverFails-cleanup_staging : NeverFails (cleanup_staging paths)
  unfolding cleanup_staging
  NeverFails-cleanup_staging =
      NeverFails-bind _ _ (NeverFails-outcome_of _) λ r. NeverFails-remove_if_listed_empty r

result_continued :
    (k : Action SetupStatus) (r : Result Error SetupStatus) (a : Result Error (Unit {0}))
    (w : World)
    → ((x : Error) → ¬ a ≡ err x)
    → ((v : World) → (k v).0 ≡ r)
    → (continue a (λ _. k) w).0 ≡ r
result_continued k r (ok u) w h i = i w
result_continued k r (err x) w h i = absurd (h x refl)

module _ (e : Env) where
  NeverFails-drop_previous :
      (o : Option ProductConfig) (r g : Text) → NeverFails (drop_previous e o r g)
  NeverFails-drop_previous none r g = NeverFails-pure _
  NeverFails-drop_previous (some old) r g =
      NeverFails-bind _ _
        (NeverFails-if (text_eq old.credential_ref r) _ _ (NeverFails-pure _)
          (NeverFails-best_effort _))
        λ _.
          NeverFails-if (text_eq old.active_generation g) _ _ (NeverFails-pure _)
            (NeverFails-cleanup_generation e.paths _)

  result_behind :
      (m : Action (Unit {0})) (k : Action SetupStatus) (r : Result Error SetupStatus)
      → NeverFails m
      → ((w : World) → (k w).0 ≡ r)
      → (w : World) → ((m >> k) w).0 ≡ r
  unfolding ◌>>=◌
  result_behind m k r h i w = result_continued k r (m w).0 (m w).1 (λ x. h.at w x) i

  -- Once the configuration is committed, the setup returns its receipt, whether or not the old
  -- credential, the old generation and the staging directory can be removed.
  pub after_commit-returns :
      (o : Option ProductConfig) (reference generation : Text) (s : SetupStatus) (w : World)
      → (after_commit e o reference generation s w).0 ≡ ok s
  unfolding after_commit pure
  after_commit-returns o reference generation s =
      result_behind _ _ (ok s) (NeverFails-drop_previous o reference generation)
        (result_behind _ _ (ok s) (NeverFails-cleanup_staging e.paths) (λ w. refl))

pub NeverFails-after_commit :
    (e : Env) (o : Option ProductConfig) (r g : Text) (s : SetupStatus)
    → NeverFails (after_commit e o r g s)
NeverFails-after_commit e o r g s = record { at = λ w x h. cc (after_commit-returns e o r g s w) }
