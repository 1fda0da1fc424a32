-- ===== src/Core/Revoke/Resources.antt =====
-- `discover_product_resources` of tools/saiai-core/src/setup.rs: what a revocation of one product
-- removes. The ordered maps and sets of the source are sorted lists.
use saiai_client.Prelude.{
  Bool, true, false, ◌&&◌, ◌||◌, Option, none, some, List, [], ◌∷◌, Text, text_eq, ltb, ◌==◌,
  to_ascii_lowercase, eq_ignore_ascii_case, String, if◌then◌else◌,
}
use saiai_client.Prelude.Result.{Result, ok, err}
use saiai_client.Core.Error.{Error, FilePath, IoKind, not_found, already_exists, other, io}
use saiai_client.Core.Refs.{
  Product, claude, codex, generated_credential_reference, generated_generation_reference,
  generation_directory, lease_file, generated_revoke_quarantine_name,
}
use saiai_client.Core.Fs.{path_eq, join}
use saiai_client.Core.Config.{ProductConfig, ConfigV2, product}
use saiai_client.Core.Prog.{pure, lift, outcome_of, ◌>>=◌, ◌>>◌}
use saiai_client.Core.Sys.{read_dir}
use saiai_client.Core.Files.{Action, ensure_no_managed_symlinks}
use saiai_client.Core.Paths.{
  credentials_dir, generations_dir, runtime_dir, logs_dir, leases_dir, generation_dir,
  generation_runtime_dir, generation_logs_dir,
}
use saiai_client.Core.Store.{credential_path}
use saiai_client.Core.Env.{Env}

abbrev pub text_lt : Text → Text → Bool
text_lt [] [] = false
text_lt [] (d ∷ t) = true
text_lt (c ∷ s) [] = false
text_lt (c ∷ s) (d ∷ t) = ltb c d || (c == d && text_lt s t)

abbrev pub path_lt : FilePath → FilePath → Bool
path_lt [] [] = false
path_lt [] (d ∷ t) = true
path_lt (c ∷ s) [] = false
path_lt (c ∷ s) (d ∷ t) = text_lt c d || (text_eq c d && path_lt s t)

-- `BTreeSet<PathBuf>::insert`
abbrev pub insert_path : FilePath → List FilePath → List FilePath
insert_path p [] = p ∷ []
insert_path p (x ∷ xs) =
    let rest = insert_path p xs in
    if path_eq p x then x ∷ xs else if path_lt p x then p ∷ x ∷ xs else x ∷ rest

abbrev insert_name : Text → List Text → List Text
insert_name c [] = c ∷ []
insert_name c (d ∷ names) =
    let rest = insert_name c names in if text_lt d c then d ∷ rest else c ∷ d ∷ names

abbrev pub sorted_names : List Text → List Text
sorted_names [] = []
sorted_names (c ∷ names) = insert_name c (sorted_names names)

-- `BTreeMap::insert` under the reference in lower case
abbrev pub insert_reference : Text → List Text → List Text
insert_reference r [] = r ∷ []
insert_reference r (x ∷ xs) =
    let rest = insert_reference r xs in
    let key = to_ascii_lowercase r in
    if text_eq key (to_ascii_lowercase x)
    then r ∷ xs
    else if text_lt key (to_ascii_lowercase x)
    then r ∷ x ∷ xs
    else x ∷ rest

abbrev listed_names : FilePath → String → Result IoKind (List Text) → Result Error (List Text)
listed_names directory operation (ok names) = ok (sorted_names names)
listed_names directory operation (err not_found) = ok []
listed_names directory operation (err already_exists) = err (io operation directory already_exists)
listed_names directory operation (err other) = err (io operation directory other)

-- The names in the directory, in order
unfoldable pub list_managed_directory : FilePath → FilePath → String → Action (List Text)
list_managed_directory root directory operation = do
  ensure_no_managed_symlinks root directory
  r ← outcome_of (read_dir directory)
  lift (listed_names directory operation r)

abbrev pub other_product : Product → Product
other_product claude = codex
other_product codex = claude

-- What the other product's entry of the remaining configuration names
abbrev pub protected_by : (ProductConfig → Text) → Option ProductConfig → Option Text
protected_by field none = none
protected_by field (some entry) = some (field entry)

abbrev pub remaining_entry : Product → Option ConfigV2 → Option ProductConfig
remaining_entry p none = none
remaining_entry p (some config) = product config (other_product p)

abbrev pub is_protected : Option Text → Text → Bool
is_protected none reference = false
is_protected (some name) reference = eq_ignore_ascii_case name reference

abbrev pub add_found : Option Text → Option Text → List Text → List Text
add_found protected none references = references
add_found protected (some r) references =
    if is_protected protected r then references else insert_reference r references

-- The loop over a directory
unfoldable pub collect : (Text → Option Text) → Option Text → List Text → List Text → List Text
collect recognise protected [] references = references
collect recognise protected (name ∷ names) references =
    collect recognise protected names (add_found protected (recognise name) references)

abbrev pub selected_reference : Option Text → List Text
selected_reference none = []
selected_reference (some r) = r ∷ []

unfoldable pub quarantines_in : Product → FilePath → List Text → List FilePath → List FilePath
quarantines_in p directory [] found = found
quarantines_in p directory (name ∷ names) found = quarantines_in p directory names (
    if generated_revoke_quarantine_name p name
    then insert_path (join directory name) found
    else found)

pub record ProductResources : Type 0 where
  pub generations : List Text
  pub removal_paths : List FilePath
  pub previous_quarantines : List FilePath

-- What the listings hold, in the order in which they are read
pub record Listings : Type 0 where
  pub stored : List Text
  pub generation_names : List Text
  pub runtime_names : List Text
  pub log_names : List Text
  pub lease_names : List Text

module _ (e : Env) (p : Product) (selected : Option ProductConfig)
    (remaining : Option ConfigV2) where
  abbrev pub credentials_of : List Text → List Text
  credentials_of stored =
      collect (generated_credential_reference p)
        (protected_by (λ entry. entry.credential_ref) (remaining_entry p remaining)) stored
        (selected_reference (protected_by (λ entry. entry.credential_ref) selected))

  abbrev pub generations_of : Listings → List Text
  generations_of l =
      let protected =
        protected_by (λ entry. entry.active_generation) (remaining_entry p remaining) in
      let in_directory =
        λ (name : Text). generated_generation_reference p name generation_directory in
      collect (λ name. generated_generation_reference p name lease_file) protected l.lease_names
        (collect in_directory protected l.log_names (
          collect in_directory protected l.runtime_names (
            collect in_directory protected l.generation_names
              (selected_reference (protected_by (λ entry. entry.active_generation) selected)))))

  unfoldable pub insert_credentials : List Text → List FilePath → List FilePath
  insert_credentials [] found = found
  insert_credentials (r ∷ rs) found =
      insert_credentials rs (insert_path (credential_path e r) found)

  unfoldable pub insert_generations : List Text → List FilePath → List FilePath
  insert_generations [] found = found
  insert_generations (g ∷ gs) found = insert_generations gs (
      insert_path (generation_logs_dir e.paths g) (
        insert_path (generation_runtime_dir e.paths g)
          (insert_path (generation_dir e.paths g) found)))

  -- The checks that stand before each insertion
  unfoldable pub check_credentials : List Text → Action (Unit {0})
  check_credentials [] = pure tt
  check_credentials (r ∷ rs) = do
    ensure_no_managed_symlinks e.paths.data_dir (credentials_dir e.paths)
    check_credentials rs

  unfoldable pub check_generations : List Text → Action (Unit {0})
  check_generations [] = pure tt
  check_generations (g ∷ gs) = do
    ensure_no_managed_symlinks e.paths.data_dir (generations_dir e.paths)
    ensure_no_managed_symlinks e.paths.state_dir (runtime_dir e.paths)
    ensure_no_managed_symlinks e.paths.state_dir (logs_dir e.paths)
    check_generations gs

  unfoldable pub resources_of : Listings → Listings → ProductResources
  resources_of l q = record {
    generations = generations_of l;
    removal_paths =
        insert_generations (generations_of l) (insert_credentials (credentials_of l.stored) []);
    previous_quarantines = quarantines_in p (logs_dir e.paths) q.log_names (
        quarantines_in p (runtime_dir e.paths) q.runtime_names (
          quarantines_in p (generations_dir e.paths) q.generation_names
            (quarantines_in p (credentials_dir e.paths) q.stored [])));
  }

  abbrev pub list_generations : Action Listings
  list_generations = do
    stored ←
        list_managed_directory e.paths.data_dir (credentials_dir e.paths) "list stored credentials"
    generations ←
        list_managed_directory e.paths.data_dir (generations_dir e.paths) "list product generations"
    runtime ←
        list_managed_directory e.paths.state_dir (runtime_dir e.paths) "list product generations"
    logs ← list_managed_directory e.paths.state_dir (logs_dir e.paths) "list product generations"
    leases ←
        list_managed_directory e.paths.state_dir (leases_dir e.paths) "list product generations"
    pure (record {
      stored = stored;
      generation_names = generations;
      runtime_names = runtime;
      log_names = logs;
      lease_names = leases;
    })

  abbrev pub list_quarantines : Action Listings
  list_quarantines = do
    stored ←
        list_managed_directory e.paths.data_dir (credentials_dir e.paths) "list revoke quarantine"
    generations ←
        list_managed_directory e.paths.data_dir (generations_dir e.paths) "list revoke quarantine"
    runtime ←
        list_managed_directory e.paths.state_dir (runtime_dir e.paths) "list revoke quarantine"
    logs ← list_managed_directory e.paths.state_dir (logs_dir e.paths) "list revoke quarantine"
    pure (record {
      stored = stored;
      generation_names = generations;
      runtime_names = runtime;
      log_names = logs;
      lease_names = [];
    })

  unfoldable pub discover_product_resources : Action ProductResources
  discover_product_resources = do
    l ← list_generations
    q ← list_quarantines
    check_credentials (credentials_of l.stored)
    check_generations (generations_of l)
    pure (resources_of l q)
