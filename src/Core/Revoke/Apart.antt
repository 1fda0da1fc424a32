-- ===== src/Core/Revoke/Apart.antt =====
-- The revocation of one product keeps what stands elsewhere, from the reading of the configuration on.
use saiai_client.Prelude.{
  ℕ, ◌≤◌, ◌≡◌, ◌≢◌, false, Option, some, List, [], ◌∷◌, ◌++◌, Text, All, arith, append-nil,
}
use mathlib.Core.Path.{subst}
use saiai_client.Prelude.Result.{Result, ok, err}
use saiai_client.Core.Error.{Error, FilePath}
use saiai_client.Core.Refs.{Product, quarantine_prefix}
use saiai_client.Core.Fs.{Node, lookup, under, join}
use saiai_client.Core.Config.{ProductConfig, ConfigV2}
use saiai_client.Core.Prog.{World, ◌>>=◌}
use saiai_client.Core.Prog.Keeps.{Keeps, Keeps-lift, Keeps-bind}
use saiai_client.Core.Prog.Yields.{Yields, Yields-pure, Yields-bind, Yields-of_Keeps}
use saiai_client.Core.Sys.Keeps.{Stands}
use saiai_client.Core.Files.{Action}
use saiai_client.Core.Files.Keeps.{Avoids, not_under_of_All, Keeps-fresh}
use saiai_client.Core.Status.{ProductSetupStatus, SetupStatus}
use saiai_client.Core.Setup.{previous_entry}
use saiai_client.Core.Revoke.Resources.{ProductResources}
use saiai_client.Core.Revoke.Quarantine.{RevokeQuarantine, new_quarantine}
use saiai_client.Core.Revoke.Quarantine.Keeps.{StateSpares, RootSpares, move_path-Yields}
use saiai_client.Core.Revoke.{
  ProductConfigCommit, moved_on, MovedAll, continue_moves, move_all, commit_moved, remove_resources,
  without_product, revoke_configured,
}
use saiai_client.Core.Env.{Env}
use saiai_client.Core.Revoke.Spares.{GenerationApart, Elsewhere, discover-Yields}
use saiai_client.Core.Revoke.Kept.{
  LeasesSpare, acquire_leases-Yields, Keeps-remove_previous, Keeps-commit_moved,
}

fresh_quarantine :
    (q : FilePath) (e : Env) (p : Product) (n₀ k : ℕ)
    → Avoids e.uuid n₀ q
    → n₀ ≤ k
    → (directory : FilePath) → under (join directory (quarantine_prefix p ++ e.uuid k)) q ≡ false
fresh_quarantine q e p n₀ k avoids h directory =
    not_under_of_All directory (quarantine_prefix p ++ e.uuid k) [] q (
      subst (λ t. All (λ c. c ≢ quarantine_prefix p ++ t) q) (append-nil (e.uuid k))
        (avoids k h (quarantine_prefix p) []))

module _ {q : FilePath} {n : Node} {n₀ : ℕ} (e : Env) (p : Product) where
  module _ (id : Text)
      (fresh : (directory : FilePath)
        → under (join directory (quarantine_prefix p ++ id)) q ≡ false) where
    continue_moves-Yields :
        (m : Result Error (List FilePath)) (state : RevokeQuarantine)
        (next : List FilePath → Action (MovedAll e))
        → StateSpares q state
        → ((more : List FilePath) → Yields (Stands q n n₀) (next more) (λ r. StateSpares q r.1))
        → Yields (Stands q n n₀) (continue_moves e m state next) (λ r. StateSpares q r.1)
    continue_moves-Yields (err why) state next k h = Yields-pure _ _ k
    continue_moves-Yields (ok more) state next k h = h more

    move_all-Yields :
        (paths removed : List FilePath) (state : RevokeQuarantine)
        → All (RootSpares q) paths
        → StateSpares q state
        → Yields (Stands q n n₀) (move_all e p id state paths removed) (λ r. StateSpares q r.1)
    unfolding move_all
    move_all-Yields [] removed state h s = Yields-pure _ _ s
    move_all-Yields (path ∷ paths) removed state (h, hs) s =
        Yields-bind _ _ _ _ (move_path-Yields p id fresh state path s h) λ r k.
          continue_moves-Yields (moved_on e r.0 path removed) r.1 _ k
            λ more. move_all-Yields paths more r.1 hs k

  module _ (entry : Option ProductConfig) (apart : Elsewhere e p entry q)
      (avoids : Avoids e.uuid n₀ q) where
    Keeps-move_and_commit :
        (k : ℕ) (status : SetupStatus) (leases removed paths : List FilePath)
        (c : ProductConfigCommit)
        → n₀ ≤ k
        → All (RootSpares q) paths
        → LeasesSpare q leases
        → Keeps (Stands q n n₀) (do
          moved ← move_all e p (e.uuid k) new_quarantine paths removed
          commit_moved e p status leases c moved)
    Keeps-move_and_commit k status leases removed paths c h hp hl =
        (Yields-bind _ _ _ (λ _. Unit {0})
          (move_all-Yields (e.uuid k) (fresh_quarantine q e p n₀ k avoids h) paths removed
            new_quarantine hp (tt, tt))
          λ moved s.
            Yields-of_Keeps _ (
              Keeps-commit_moved e p entry apart status leases c moved.0 moved.1 avoids s hl)).keeps

    Keeps-remove_resources :
        (status : SetupStatus) (c : ProductConfigCommit) (resources : ProductResources)
        → All (GenerationApart e q) resources.generations
        → All (RootSpares q) resources.removal_paths
        → All (RootSpares q) resources.previous_quarantines
        → Keeps (Stands q n n₀) (remove_resources e p status c resources)
    unfolding remove_resources
    Keeps-remove_resources status c resources hg hp hq =
        (Yields-bind _ _ _ (λ _. Unit {0})
          (acquire_leases-Yields e p resources.generations [] hg tt)
          λ leases hl. Yields-of_Keeps _ (
            Keeps-bind _ _ (Keeps-remove_previous e _ _ hq) λ removed.
              Keeps-fresh e.uuid _
                λ k h. Keeps-move_and_commit k status leases removed _ c h hp hl)).keeps

  Keeps-revoke_configured :
      (config : Option ConfigV2) (before : List ProductSetupStatus)
      → Elsewhere e p (previous_entry config p) q
      → Avoids e.uuid n₀ q
      → Keeps (Stands q n n₀) (revoke_configured e p config before)
  unfolding revoke_configured
  Keeps-revoke_configured config before apart avoids = Keeps-bind _ _ (Keeps-lift _) λ c.
      (Yields-bind _ _ _ (λ _. Unit {0})
        (discover-Yields e p (previous_entry config p) (without_product e p config) q apart)
        λ resources (hg, hp, hq). Yields-of_Keeps _ (
          Keeps-remove_resources (previous_entry config p) apart avoids _ c resources hg hp
            hq)).keeps

-- Let a node stand at a path. Let the path be in no place of a credential or a generation whose
-- reference has the product's prefix or is the configured one, and in no earlier quarantine of the
-- product; let it be neither config.json nor below it, nor the transaction lock, nor one of the
-- shared directories and the managed roots, which a revocation may prune; and let it name none of
-- the identifiers still to be drawn. Take the part of the revocation of the product that follows
-- the reading of the configuration and the diagnosis, under the lock. Whether it returns or fails,
-- at whatever step and whichever system calls fail, the same node stands at the path afterwards, a
-- file with the same contents.
pub revoke_configured-spares :
    (q : FilePath) (n : Node) (e : Env) (p : Product) (config : Option ConfigV2)
    (before : List ProductSetupStatus) (w : World)
    → lookup q w.entries ≡ some n
    → Avoids e.uuid w.issued q
    → Elsewhere e p (previous_entry config p) q
    → lookup q (revoke_configured e p config before w).1.entries ≡ some n
revoke_configured-spares q n e p config before w stands avoids apart =
    ((Keeps-revoke_configured e p config before apart avoids).at w
      (record { here = stands; drawn = omega arith })).here
