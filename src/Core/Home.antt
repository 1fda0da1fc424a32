-- ===== src/Core/Home.antt =====
-- The client homes that setup.rs writes and checks.
pub mod Keeps
use saiai_client.Prelude.{ℕ, not, Option, none, some, List, [], ◌∷◌, ◌++◌, Text, codes, text_eq}
use saiai_client.Prelude.Result.{Result, ok, err, ok_or, refuse_if}
use saiai_client.Core.Error.{
  Error, FilePath, IoKind, not_found, already_exists, other, io, invalid_artifact,
}
use saiai_client.Core.Fs.{join}
use saiai_client.Core.Refs.{Product, claude, codex, directory_name}
use saiai_client.Core.Prog.{Prog, pure, lift, outcome_of, map_err, ◌>>=◌, ◌>>◌}
use saiai_client.Core.Sys.{read}
use saiai_client.Core.Files.{
  Action, ensure_private_dir, atomic_write_private, reject_symlink_if_present,
}
use saiai_client.Core.Artifacts.{
  ProductSetupArtifacts, claude_artifacts, codex_artifacts, validate_artifacts, artifact_files,
}
use saiai_client.Core.Env.{Env}

abbrev pub product_marker_filename : Text
product_marker_filename = codes ".saiai-managed-v2"

abbrev pub product_marker : List ℕ
product_marker = codes "saiai-managed-client-home-v2" ++ 10 ∷ []

abbrev pub home_in : FilePath → Product → FilePath
home_in root product = join (join root (codes "clients")) (directory_name product)

unfoldable pub read_managed : FilePath → Action (List ℕ)
read_managed p = do reject_symlink_if_present p; map_err (io "read file" p) (read p)

abbrev pub optional : FilePath → Result IoKind (List ℕ) → Result Error (Option (List ℕ))
optional p (ok b) = ok (some b)
optional p (err not_found) = ok none
optional p (err already_exists) = err (io "read file" p already_exists)
optional p (err other) = err (io "read file" p other)

unfoldable pub read_optional : FilePath → Action (Option (List ℕ))
read_optional p = do reject_symlink_if_present p; r ← outcome_of (read p); lift (optional p r)

module _ (e : Env) where
  unfoldable pub read_utf8 : FilePath → Action Text
  read_utf8 p = do
    bytes ← read_managed p
    lift (ok_or (e.from_utf8 bytes) (invalid_artifact "managed client file" "not UTF-8"))

  unfoldable pub write_files : FilePath → List (Text × List ℕ) → Action (Unit {0})
  write_files root [] = pure tt
  write_files root ((name, contents) ∷ rest) = do
    atomic_write_private e.uuid (join root name) contents
    write_files root rest

  -- `write_claude_home` and `write_codex_home`
  unfoldable pub write_product_home : FilePath → ProductSetupArtifacts → Action (Unit {0})
  write_product_home root artifacts = do
    ensure_private_dir root
    write_files root (artifact_files e.utf8 artifacts)
    atomic_write_private e.uuid (join root product_marker_filename) product_marker

  unfoldable pub read_artifacts : FilePath → Product → Action ProductSetupArtifacts
  read_artifacts home claude = do
    settings ← read_managed (join home (codes "settings.json"))
    state ← read_managed (join home (codes ".claude.json"))
    certificate ← read_utf8 (join home (codes "saiai-ca.crt"))
    key ← read_utf8 (join home (codes "saiai-ca.key"))
    pure (claude_artifacts settings state certificate key)
  read_artifacts home codex = do
    toml ← read_utf8 (join home (codes "config.toml"))
    pure (codex_artifacts toml)

  unfoldable pub validate_product_home : FilePath → Product → Action (Unit {0})
  validate_product_home home product = do
    reject_symlink_if_present home
    marker ← read_managed (join home product_marker_filename)
    lift (
        refuse_if (not (text_eq marker product_marker))
          (invalid_artifact ".saiai-managed-v2" "managed marker is missing or invalid"))
    artifacts ← read_artifacts home product
    lift (validate_artifacts e.crates artifacts)
