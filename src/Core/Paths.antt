-- ===== src/Core/Paths.antt =====
-- `AppPaths` of tools/saiai-core/src/paths.rs on Unix.
pub mod Disjoint
use saiai_client.Prelude.{
  Bool, true, false, ◌||◌, List, [], ◌∷◌, ◌++◌, Text, String, codes, is_empty, if◌then◌else◌,
}
use saiai_client.Prelude.Result.{Result, ok, err, ◌>>=◌, ◌>>◌, refuse_if}
use saiai_client.Core.Error.{Error, Outcome, FilePath, invalid_app_path}
use saiai_client.Core.Refs.{Product, directory_name}
use saiai_client.Core.Fs.{under, join}

pub record AppPaths : Type 0 where
  pub config_dir : FilePath
  pub data_dir : FilePath
  pub state_dir : FilePath

-- `Path::components`, which has no prefixes on Unix
pub data Component : Type 0 where
  root_dir cur_dir parent_dir : Component
  normal : Text → Component

abbrev pub is_absolute : List Component → Bool
is_absolute (root_dir ∷ rest) = true
is_absolute (cur_dir ∷ rest) = false
is_absolute (parent_dir ∷ rest) = false
is_absolute (normal c ∷ rest) = false
is_absolute [] = false

-- The path as an error shows it; a path of the model starts at the root.
abbrev pub original_path : List Component → FilePath
original_path [] = []
original_path (root_dir ∷ rest) = original_path rest
original_path (cur_dir ∷ rest) = codes "." ∷ original_path rest
original_path (parent_dir ∷ rest) = codes ".." ∷ original_path rest
original_path (normal c ∷ rest) = c ∷ original_path rest

-- The loop of `normalize_app_dir`
unfoldable pub normalize_components :
    String → FilePath → FilePath → List Component → Outcome FilePath
normalize_components field original done [] = ok done
normalize_components field original done (parent_dir ∷ rest) =
    err (invalid_app_path field original "path must not contain parent-directory components")
normalize_components field original done (cur_dir ∷ rest) =
    normalize_components field original done rest
normalize_components field original done (root_dir ∷ rest) =
    normalize_components field original done rest
normalize_components field original done (normal c ∷ rest) =
    normalize_components field original (done ++ c ∷ []) rest

abbrev pub not_absolute : List Component → Bool
not_absolute path = if is_absolute path then false else true

unfoldable pub normalize_app_dir : String → List Component → Outcome FilePath
normalize_app_dir field path = do
  refuse_if (not_absolute path)
      (invalid_app_path field (original_path path) "path must be absolute")
  normalized ← normalize_components field (original_path path) [] path
  refuse_if (is_empty normalized)
      (invalid_app_path field (original_path path) "path must not be a filesystem root")
  ok normalized

unfoldable pub app_dirs_overlap : FilePath → FilePath → Bool
app_dirs_overlap left right = under right left || under left right

abbrev pub nested : String → FilePath → Error
nested field path =
    invalid_app_path field path "config, data, and state paths must not be equal or nested"

-- The pairs in the order of the two loops.
unfoldable pub from_app_dirs : List Component → List Component → List Component → Outcome AppPaths
from_app_dirs config data_path state = do
  c ← normalize_app_dir "config_dir" config
  d ← normalize_app_dir "data_dir" data_path
  s ← normalize_app_dir "state_dir" state
  refuse_if (app_dirs_overlap c d) (nested "config_dir" c)
  refuse_if (app_dirs_overlap c s) (nested "config_dir" c)
  refuse_if (app_dirs_overlap d s) (nested "data_dir" d)
  ok (record { config_dir = c; data_dir = d; state_dir = s })

module _ (p : AppPaths) where
  abbrev pub config_file : FilePath
  config_file = join p.config_dir (codes "config.json")

  abbrev pub credentials_dir : FilePath
  credentials_dir = join p.data_dir (codes "credentials")

  abbrev pub generations_dir : FilePath
  generations_dir = join p.data_dir (codes "generations")

  abbrev pub generation_dir : Text → FilePath
  generation_dir generation = join generations_dir generation

  abbrev pub generation_clients_dir : Text → FilePath
  generation_clients_dir generation = join (generation_dir generation) (codes "clients")

  abbrev pub generation_client_home : Text → Product → FilePath
  generation_client_home generation product =
      join (generation_clients_dir generation) (directory_name product)

  abbrev pub runtime_dir : FilePath
  runtime_dir = join p.state_dir (codes "runtime")

  abbrev pub generation_runtime_dir : Text → FilePath
  generation_runtime_dir generation = join runtime_dir generation

  abbrev pub logs_dir : FilePath
  logs_dir = join p.state_dir (codes "logs")

  abbrev pub leases_dir : FilePath
  leases_dir = join p.state_dir (codes "leases")

  abbrev pub generation_lease_file : Text → FilePath
  generation_lease_file generation = join leases_dir (generation ++ codes ".lock")

  abbrev pub generation_logs_dir : Text → FilePath
  generation_logs_dir generation = join logs_dir generation

  abbrev pub generation_staging_dir : FilePath
  generation_staging_dir = join generations_dir (codes ".staging")

  abbrev pub transaction_lock_file : FilePath
  transaction_lock_file = join p.state_dir (codes "transaction.lock")
