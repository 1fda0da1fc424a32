-- ===== src/Core/Setup/Keeps.antt =====
-- A setup that fails, at whatever step, leaves the installation as it was.
use saiai_client.Prelude.{
  ℕ, ◌≤◌, ◌≡◌, ◌≢◌, ap, sym, ◌∙◌, false, Option, none, some, List, [], ◌++◌, Text, codes, All,
  append_assoc, append-nil, arith,
}
use mathlib.Core.Path.{subst}
use saiai_client.Prelude.Result.{Result, ok, ok_or}
use saiai_client.Core.Error.{Error, FilePath}
use saiai_client.Core.Fs.{Node, under, join}
use saiai_client.Core.Fs.Laws.{path_eq-of_not_under, under-below}
use saiai_client.Core.Refs.{
  Product, credential_ref, generation_ref, credential_prefix, generation_prefix,
}
use saiai_client.Core.Config.{ConfigV2}
use saiai_client.Core.Prog.Keeps.{
  Keeps, Keeps-bind, Keeps-pure, Keeps-lift, Keeps-undone_by, Keeps-best_effort,
}
use saiai_client.Core.Prog.OnError.{
  KeepsOnErr, KeepsOnErr-bind, KeepsOnErr-bind_total, KeepsOnErr-bind_ensures, KeepsOnErr-undone_by,
  Ensures,
}
use saiai_client.Core.Prog.{lift}
use saiai_client.Core.Sys.Keeps.{Stands, Keeps-remove_dir_all}
use saiai_client.Core.Files.Keeps.{
  Avoids, not_under_of_All, Keeps-ensure_private_dir, Keeps-promote_new_directory,
}
use saiai_client.Core.Files.OnError.{KeepsOnErr-fresh, KeepsOnErr-atomic_write_private}
use saiai_client.Core.Paths.{
  generation_dir, generations_dir, generation_staging_dir, credentials_dir, config_file,
}
use saiai_client.Core.Artifacts.{ProductSetupArtifacts}
use saiai_client.Core.Home.{home_in}
use saiai_client.Core.Home.Keeps.{Keeps-write_product_home, Keeps-validate_product_home}
use saiai_client.Core.Status.{ProductSetupStatus}
use saiai_client.Core.Store.{credential_path}
use saiai_client.Core.Store.Keeps.{Keeps-save, Keeps-delete_credential}
use saiai_client.Core.Load.Keeps.{Keeps-diagnose_configured_products}
use saiai_client.Core.Transaction.Keeps.{Keeps-create_stage, create_stage-fresh}
use saiai_client.Core.Setup.{
  SetupRequest, diagnosed_before, stage_product, commit_config, publish, install,
}
use saiai_client.Core.Setup.Total.{NeverFails-after_commit}
use saiai_client.Core.Env.{Env}

-- The names that a setup derives from a fresh identifier are not on the path.
fresh_generation :
    (uuid : ℕ → Text) (n₀ k : ℕ) (q : FilePath) (p : Product)
    → Avoids uuid n₀ q
    → n₀ ≤ k
    → All (λ c. c ≢ generation_prefix p ++ uuid k) q
fresh_generation uuid n₀ k q p avoids h =
    subst (λ t. All (λ c. c ≢ generation_prefix p ++ t) q) (append-nil (uuid k))
      (avoids k h (generation_prefix p) [])

fresh_credential :
    (uuid : ℕ → Text) (n₀ k : ℕ) (q : FilePath) (p : Product)
    → Avoids uuid n₀ q
    → n₀ ≤ k
    → All (λ c. c ≢ (credential_prefix p ++ uuid k) ++ codes ".key") q
fresh_credential uuid n₀ k q p avoids h =
    subst (λ t. All (λ c. c ≢ t) q)
      (sym (append_assoc (credential_prefix p) (uuid k) (codes ".key")))
      (avoids k h (credential_prefix p) (codes ".key"))

fresh_stage :
    (uuid : ℕ → Text) (n₀ k : ℕ) (q : FilePath)
    → Avoids uuid n₀ q
    → n₀ ≤ k
    → All (λ c. c ≢ uuid k) q
fresh_stage uuid n₀ k q avoids h =
    subst (λ t. All (λ c. c ≢ t) q) (append-nil (uuid k)) (avoids k h [] [])

-- A reference that is accepted is the text itself.
generation_ref-same : (t : Text) (g : Text) (x : Error) → ok_or (generation_ref t) x ≡ ok g → g ≡ t
unfolding generation_ref
generation_ref-same t g x h = ground arith

credential_ref-same : (t : Text) (g : Text) (x : Error) → ok_or (credential_ref t) x ≡ ok g → g ≡ t
unfolding credential_ref
credential_ref-same t g x h = ground arith

module _ (q : FilePath) {n₀ : ℕ} (e : Env) (avoids : Avoids e.uuid n₀ q) where
  stage_apart :
      (stage : FilePath) (k : ℕ)
      → n₀ ≤ k
      → stage ≡ join (generation_staging_dir e.paths) (e.uuid k)
      → under stage q ≡ false
  stage_apart stage k new h =
      ap (λ s. under s q) h
      ∙ not_under_of_All (generation_staging_dir e.paths) (e.uuid k) [] q
          (fresh_stage e.uuid n₀ k q avoids new)

  generation_apart :
      (p : Product) (k : ℕ) (g : Text)
      → n₀ ≤ k
      → g ≡ generation_prefix p ++ e.uuid k
      → under (generation_dir e.paths g) q ≡ false
  generation_apart p k g new h =
      ap (λ t. under (generation_dir e.paths t) q) h
      ∙ not_under_of_All (generations_dir e.paths) (generation_prefix p ++ e.uuid k) [] q
          (fresh_generation e.uuid n₀ k q p avoids new)

  credential_apart :
      (p : Product) (k : ℕ) (r : Text)
      → n₀ ≤ k
      → r ≡ credential_prefix p ++ e.uuid k
      → under (credential_path e r) q ≡ false
  credential_apart p k r new h =
      ap (λ t. under (credential_path e t) q) h
      ∙ not_under_of_All (credentials_dir e.paths)
          ((credential_prefix p ++ e.uuid k) ++ codes ".key") [] q
          (fresh_credential e.uuid n₀ k q p avoids new)

module _ {q : FilePath} {n : Node} {n₀ : ℕ} (e : Env) (avoids : Avoids e.uuid n₀ q) where
  Keeps-stage_product :
      (artifacts : ProductSetupArtifacts) (p : Product) (stage final_generation : FilePath)
      → under stage q ≡ false
      → under final_generation q ≡ false
      → Keeps (Stands q n n₀) (stage_product e artifacts p stage final_generation)
  unfolding stage_product
  Keeps-stage_product artifacts p stage final_generation h k =
      Keeps-undone_by _ _
        (Keeps-bind _ _ (Keeps-ensure_private_dir _) λ _.
          Keeps-bind _ _
            (Keeps-write_product_home e avoids (home_in stage p) artifacts
              (under-below _ _ q (under-below stage _ q h)))
            λ _.
              Keeps-bind _ _ (Keeps-validate_product_home e (home_in stage p) p)
                λ _. Keeps-promote_new_directory stage final_generation h k)
        (Keeps-best_effort _ (Keeps-remove_dir_all stage h))

  KeepsOnErr-commit_config :
      (reference secret : Text) (bytes : List ℕ) (final_generation : FilePath)
      → under (credential_path e reference) q ≡ false
      → under final_generation q ≡ false
      → KeepsOnErr (Stands q n n₀) (commit_config e reference secret bytes final_generation)
  unfolding commit_config
  KeepsOnErr-commit_config reference secret bytes final_generation h k =
      KeepsOnErr-undone_by _ _
        (KeepsOnErr-bind _ _ (Keeps-save e reference secret avoids h) λ _.
          KeepsOnErr-undone_by _ _
            (KeepsOnErr-atomic_write_private e.uuid (config_file e.paths) bytes avoids)
            (Keeps-best_effort _
              (Keeps-delete_credential e reference (path_eq-of_not_under _ q h))))
        (Keeps-best_effort _ (Keeps-remove_dir_all final_generation k))

  Keeps-diagnosed_before : (o : Option ConfigV2) → Keeps (Stands q n n₀) (diagnosed_before e o)
  Keeps-diagnosed_before none = Keeps-pure _
  Keeps-diagnosed_before (some c) = Keeps-diagnose_configured_products e c

  lift-Ensures :
      {A : Type 0} (r : Result Error A) (Q : A → Type 0)
      → ((a : A) → r ≡ ok a → Q a)
      → Ensures (Stands q n n₀) (lift r) Q
  unfolding lift
  lift-Ensures r Q h = record { at = λ w a _ f. h a f }

  KeepsOnErr-publish :
      (config : ConfigV2) (request : SetupRequest) (artifacts : ProductSetupArtifacts) (p : Product)
      (o : Option ConfigV2) (before : List ProductSetupStatus) (generation reference : Text)
      → under (generation_dir e.paths generation) q ≡ false
      → under (credential_path e reference) q ≡ false
      → KeepsOnErr
          (Stands q n n₀)
          (publish e config request artifacts p o before generation reference)
  unfolding publish
  KeepsOnErr-publish config request artifacts p o before generation reference h k =
      KeepsOnErr-bind _ _ (Keeps-lift _) λ bytes.
        KeepsOnErr-bind _ _ (Keeps-ensure_private_dir _) λ _.
          KeepsOnErr-bind _ _ (Keeps-ensure_private_dir _) λ _.
            KeepsOnErr-bind _ _ (Keeps-ensure_private_dir _) λ _.
              KeepsOnErr-bind_ensures _ _ _ (Keeps-create_stage e.paths e.uuid)
                (create_stage-fresh e.paths e.uuid)
                λ stage (i, (new, is_fresh)).
                  KeepsOnErr-bind _ _
                    (Keeps-stage_product artifacts p stage _
                      (stage_apart q e avoids stage i new is_fresh) h)
                    λ _.
                      KeepsOnErr-bind_total _ _
                        (KeepsOnErr-commit_config reference request.credential bytes _ k h)
                        λ _. NeverFails-after_commit e _ reference generation _

  pub KeepsOnErr-install :
      (request : SetupRequest) (artifacts : ProductSetupArtifacts) (p : Product)
      (o : Option ConfigV2)
      → KeepsOnErr (Stands q n n₀) (install e request artifacts p o)
  unfolding install
  KeepsOnErr-install request artifacts p o = KeepsOnErr-bind _ _ (Keeps-lift _) λ _.
      KeepsOnErr-bind _ _ (Keeps-diagnosed_before o) λ before. KeepsOnErr-fresh e.uuid _ λ k new.
        KeepsOnErr-bind_ensures _ _ (λ g. g ≡ generation_prefix p ++ e.uuid k) (Keeps-lift _)
          (lift-Ensures _ _ λ g h. generation_ref-same _ g _ h)
          λ g g_is.
            KeepsOnErr-bind_ensures _ _ (λ r. r ≡ credential_prefix p ++ e.uuid k) (Keeps-lift _)
              (lift-Ensures _ _ λ r h. credential_ref-same _ r _ h)
              λ r r_is.
                KeepsOnErr-publish _ request artifacts p o before g r
                  (generation_apart q e avoids p k g new g_is)
                  (credential_apart q e avoids p k r new r_is)
