-- ===== src/Core/Home/Keeps.antt =====
-- What reading and writing a client home leaves alone.
use saiai_client.Prelude.{ℕ, ◌≡◌, false, List, [], ◌∷◌, Text}
use saiai_client.Core.Error.{FilePath}
use saiai_client.Core.Refs.{Product, claude, codex}
use saiai_client.Core.Fs.{Node, under, join}
use saiai_client.Core.Fs.Laws.{under-below}
use saiai_client.Core.Prog.Keeps.{Invariant, Keeps, Keeps-bind, Keeps-pure, keeps_rules}
use saiai_client.Core.Sys.Keeps.{Stands, Keeps-read}
use saiai_client.Core.Files.Keeps.{
  Avoids, Keeps-reject_symlink_if_present, Keeps-ensure_private_dir, Keeps-atomic_write_private,
}
use saiai_client.Core.Artifacts.{ProductSetupArtifacts, artifact_files}
use saiai_client.Core.Home.{
  read_managed, read_optional, read_utf8, write_files, write_product_home, read_artifacts,
  validate_product_home, product_marker_filename, product_marker,
}
use saiai_client.Core.Env.{Env}

module _ {P : Invariant} where
  Keeps-read_managed : (p : FilePath) → Keeps P (read_managed p)
  unfolding read_managed
  Keeps-read_managed p = search (keeps_rules, Keeps-reject_symlink_if_present, Keeps-read)

  pub Keeps-read_optional : (p : FilePath) → Keeps P (read_optional p)
  unfolding read_optional
  Keeps-read_optional p = search (keeps_rules, Keeps-reject_symlink_if_present, Keeps-read)

  Keeps-read_utf8 : (e : Env) (p : FilePath) → Keeps P (read_utf8 e p)
  unfolding read_utf8
  Keeps-read_utf8 e p = search (keeps_rules, Keeps-read_managed)

  Keeps-read_artifacts :
      (e : Env) (home : FilePath) (p : Product) → Keeps P (read_artifacts e home p)
  unfolding read_artifacts
  Keeps-read_artifacts e home claude =
      search (keeps_rules, Keeps-read_managed, Keeps-read_utf8) depth 12
  Keeps-read_artifacts e home codex = search (keeps_rules, Keeps-read_utf8)

  pub Keeps-validate_product_home :
      (e : Env) (home : FilePath) (p : Product) → Keeps P (validate_product_home e home p)
  unfolding validate_product_home
  Keeps-validate_product_home e home p =
      search
        (keeps_rules, Keeps-reject_symlink_if_present, Keeps-read_managed, Keeps-read_artifacts)
        depth 12

module _ {q : FilePath} {n : Node} {n₀ : ℕ} (e : Env) (avoids : Avoids e.uuid n₀ q) where
  Keeps-write_files :
      (root : FilePath) (files : List (Text × List ℕ))
      → under root q ≡ false
      → Keeps (Stands q n n₀) (write_files e root files)
  unfolding write_files
  Keeps-write_files root [] h = Keeps-pure tt
  Keeps-write_files root ((name, contents) ∷ rest) h =
      Keeps-bind _ _
        (Keeps-atomic_write_private e.uuid (join root name) contents avoids
          (under-below root _ q h))
        λ _. Keeps-write_files root rest h

  pub Keeps-write_product_home :
      (root : FilePath) (artifacts : ProductSetupArtifacts)
      → under root q ≡ false
      → Keeps (Stands q n n₀) (write_product_home e root artifacts)
  unfolding write_product_home
  Keeps-write_product_home root artifacts h = Keeps-bind _ _ (Keeps-ensure_private_dir root) λ _.
      Keeps-bind _ _ (Keeps-write_files root (artifact_files e.utf8 artifacts) h) λ _.
        Keeps-atomic_write_private e.uuid (join root product_marker_filename) product_marker avoids
          (under-below root _ q h)
