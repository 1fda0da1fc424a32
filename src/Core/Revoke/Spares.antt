-- ===== src/Core/Revoke/Spares.antt =====
-- Which paths a revocation of one product leaves alone, whether it returns or fails.
use saiai_client.Prelude.{
  ◌≡◌, refl, true, false, ◌⊎◌, inl, inr, Option, none, some, List, [], ◌∷◌, Text, All, String,
}
use saiai_client.Core.Error.{FilePath}
use saiai_client.Core.Refs.{
  Product, generated_identifier_suffix, credential_prefix, generation_prefix,
  generated_generation_reference, generation_directory, lease_file, GeneratedEntryKind,
  generated_revoke_quarantine_name,
}
use saiai_client.Core.Fs.{under, path_eq, join}
use saiai_client.Core.Config.{ProductConfig, ConfigV2}
use saiai_client.Core.Prog.Keeps.{
  Invariant, Keeps, Keeps-pure, Keeps-lift, Keeps-bind, Keeps-outcome_of,
}
use saiai_client.Core.Prog.Yields.{Yields, Yields-pure, Yields-then}
use saiai_client.Core.Sys.Keeps.{Keeps-read_dir}
use saiai_client.Core.Files.Keeps.{Keeps-ensure_no_managed_symlinks}
use saiai_client.Core.Paths.{
  config_file, transaction_lock_file, credentials_dir, generations_dir, runtime_dir, logs_dir,
  generation_dir, generation_runtime_dir, generation_logs_dir, generation_lease_file,
}
use saiai_client.Core.Store.{credential_path}
use saiai_client.Core.Revoke.Resources.{
  ProductResources, Listings, protected_by, list_managed_directory, credentials_of, generations_of,
  insert_credentials, insert_generations, resources_of, check_credentials, check_generations,
  discover_product_resources, selected_reference, list_generations, list_quarantines,
}
use saiai_client.Core.Revoke.Own.{
  collect-All, insert_path-All, quarantines_in-All, credential-Own, generation-Own,
}
use saiai_client.Core.Revoke.Quarantine.Keeps.{RootSpares}
use saiai_client.Core.Revoke.{shared_dirs, root_dirs}
use saiai_client.Core.Env.{Env}

-- A reference is the product's if it carries the product's prefix or is the configured one.
abbrev pub IsOwn : (Product → Text) → Product → Option Text → Text → Type 0
IsOwn prefix p configured r =
    (generated_identifier_suffix r (prefix p) ≡ true) ⊎ (configured ≡ some r)

abbrev pub credential_of : Option ProductConfig → Option Text
credential_of entry = protected_by (λ c. c.credential_ref) entry

abbrev pub generation_of : Option ProductConfig → Option Text
generation_of entry = protected_by (λ c. c.active_generation) entry

-- The path is in none of the places that a generation takes, and is not its lease file.
abbrev pub GenerationApart : Env → FilePath → Text → Type 0
GenerationApart e q g =
    (under (generation_dir e.paths g) q ≡ false)
    × (under (generation_runtime_dir e.paths g) q ≡ false)
    × (under (generation_logs_dir e.paths g) q ≡ false)
    × (path_eq (generation_lease_file e.paths g) q ≡ false)

abbrev pub QuarantineApart : Env → FilePath → Text → Type 0
QuarantineApart e q name =
    (under (join (credentials_dir e.paths) name) q ≡ false)
    × (under (join (generations_dir e.paths) name) q ≡ false)
    × (under (join (runtime_dir e.paths) name) q ≡ false)
    × (under (join (logs_dir e.paths) name) q ≡ false)

-- The path is none that a revocation of the product may remove or replace.
pub record Elsewhere (e : Env) (p : Product) (entry : Option ProductConfig) (q : FilePath)
    : Type 0 where
  pub credential_apart :
      (r : Text)
      → IsOwn credential_prefix p (credential_of entry) r
      → under (credential_path e r) q ≡ false
  pub generation_apart :
      (g : Text) → IsOwn generation_prefix p (generation_of entry) g → GenerationApart e q g
  pub quarantine_apart :
      (name : Text) → generated_revoke_quarantine_name p name ≡ true → QuarantineApart e q name
  pub config_apart : under (config_file e.paths) q ≡ false
  pub lock_apart : path_eq (transaction_lock_file e.paths) q ≡ false
  pub shared_apart : All (λ (d : FilePath). path_eq d q ≡ false) (shared_dirs e)
  pub roots_apart : All (λ (d : FilePath). path_eq d q ≡ false) (root_dirs e)

selected-All :
    (P : Text → Type 0) (o : Option Text)
    → ((r : Text) → o ≡ some r → P r)
    → All P (selected_reference o)
selected-All P none h = tt
selected-All P (some r) h = (h r refl, tt)

module _ {P : Invariant} where
  Keeps-list_managed_directory :
      (root directory : FilePath) (operation : String)
      → Keeps P (list_managed_directory root directory operation)
  unfolding list_managed_directory
  Keeps-list_managed_directory root directory operation =
      Keeps-bind _ _ (Keeps-ensure_no_managed_symlinks root directory)
        λ _. Keeps-bind _ _ (Keeps-outcome_of _ (Keeps-read_dir directory)) λ r. Keeps-lift _

module _ (e : Env) (p : Product) (entry : Option ProductConfig) (remaining : Option ConfigV2)
    (q : FilePath) (apart : Elsewhere e p entry q) where
  credentials-Own :
      (names : List Text)
      → All
          (λ (r : Text). under (credential_path e r) q ≡ false)
          (credentials_of e p entry remaining names)
  credentials-Own names =
      collect-All _ _ _ names _
        (λ name r h. apart.credential_apart r (inl (credential-Own p name r h)))
        (selected-All _ (credential_of entry) (λ r h. apart.credential_apart r (inr h)))

  own_generation :
      (kind : GeneratedEntryKind) (name g : Text)
      → generated_generation_reference p name kind ≡ some g
      → GenerationApart e q g
  own_generation kind name g h = apart.generation_apart g (inl (generation-Own p kind name g h))

  generations-Own :
      (l : Listings) → All (GenerationApart e q) (generations_of e p entry remaining l)
  generations-Own l = collect-All _ _ _ l.lease_names _ (own_generation lease_file) (
      collect-All _ _ _ l.log_names _ (own_generation generation_directory) (
        collect-All _ _ _ l.runtime_names _ (own_generation generation_directory) (
          collect-All _ _ _ l.generation_names _ (own_generation generation_directory)
            (selected-All _ (generation_of entry) (λ g h. apart.generation_apart g (inr h))))))

  insert_credentials-Spares :
      (rs : List Text) (found : List FilePath)
      → All (λ (r : Text). under (credential_path e r) q ≡ false) rs
      → All (RootSpares q) found
      → All (RootSpares q) (insert_credentials e p entry remaining rs found)
  unfolding insert_credentials
  insert_credentials-Spares [] found h k = k
  insert_credentials-Spares (r ∷ rs) found (h, hs) k =
      insert_credentials-Spares rs _ hs
        (insert_path-All (RootSpares q) (credential_path e r) found h k)

  insert_generations-Spares :
      (gs : List Text) (found : List FilePath)
      → All (GenerationApart e q) gs
      → All (RootSpares q) found
      → All (RootSpares q) (insert_generations e p entry remaining gs found)
  unfolding insert_generations
  insert_generations-Spares [] found h k = k
  insert_generations-Spares (g ∷ gs) found ((d, r, l, lease), hs) k =
      insert_generations-Spares gs _ hs (
        insert_path-All (RootSpares q) _ _ l
          (insert_path-All (RootSpares q) _ _ r (insert_path-All (RootSpares q) _ _ d k)))

  -- What is discovered may be removed without touching the path.
  abbrev pub ResourcesSpare : ProductResources → Type 0
  ResourcesSpare r =
      All (GenerationApart e q) r.generations
      × All (RootSpares q) r.removal_paths
      × All (RootSpares q) r.previous_quarantines

  resources_of-Spare : (l m : Listings) → ResourcesSpare (resources_of e p entry remaining l m)
  unfolding resources_of
  resources_of-Spare l m = (
    generations-Own l,
    insert_generations-Spares _ _ (generations-Own l)
        (insert_credentials-Spares _ _ (credentials-Own l.stored) tt),
    quarantines_in-All (RootSpares q) p _ m.log_names _
        (λ name h. (apart.quarantine_apart name h).3)
        (quarantines_in-All (RootSpares q) p _ m.runtime_names _
          (λ name h. (apart.quarantine_apart name h).2)
          (quarantines_in-All (RootSpares q) p _ m.generation_names _
            (λ name h. (apart.quarantine_apart name h).1)
            (quarantines_in-All (RootSpares q) p _ m.stored _
              (λ name h. (apart.quarantine_apart name h).0) tt))),
  )

  module _ {P : Invariant} where
    Keeps-check_credentials : (rs : List Text) → Keeps P (check_credentials e p entry remaining rs)
    unfolding check_credentials
    Keeps-check_credentials [] = Keeps-pure tt
    Keeps-check_credentials (r ∷ rs) =
        Keeps-bind _ _ (Keeps-ensure_no_managed_symlinks _ _) λ _. Keeps-check_credentials rs

    Keeps-check_generations : (gs : List Text) → Keeps P (check_generations e p entry remaining gs)
    unfolding check_generations
    Keeps-check_generations [] = Keeps-pure tt
    Keeps-check_generations (g ∷ gs) = Keeps-bind _ _ (Keeps-ensure_no_managed_symlinks _ _) λ _.
        Keeps-bind _ _ (Keeps-ensure_no_managed_symlinks _ _)
          λ _. Keeps-bind _ _ (Keeps-ensure_no_managed_symlinks _ _) λ _. Keeps-check_generations gs

    Keeps-list_generations : Keeps P (list_generations e p entry remaining)
    Keeps-list_generations = Keeps-bind _ _ (Keeps-list_managed_directory _ _ _) λ _.
        Keeps-bind _ _ (Keeps-list_managed_directory _ _ _) λ _.
          Keeps-bind _ _ (Keeps-list_managed_directory _ _ _) λ _.
            Keeps-bind _ _ (Keeps-list_managed_directory _ _ _)
              λ _. Keeps-bind _ _ (Keeps-list_managed_directory _ _ _) λ _. Keeps-pure _

    Keeps-list_quarantines : Keeps P (list_quarantines e p entry remaining)
    Keeps-list_quarantines = Keeps-bind _ _ (Keeps-list_managed_directory _ _ _) λ _.
        Keeps-bind _ _ (Keeps-list_managed_directory _ _ _) λ _.
          Keeps-bind _ _ (Keeps-list_managed_directory _ _ _)
            λ _. Keeps-bind _ _ (Keeps-list_managed_directory _ _ _) λ _. Keeps-pure _

    pub discover-Yields : Yields P (discover_product_resources e p entry remaining) ResourcesSpare
    unfolding discover_product_resources
    discover-Yields = Yields-then _ _ _ Keeps-list_generations λ l.
        Yields-then _ _ _ Keeps-list_quarantines λ m.
          Yields-then _ _ _ (Keeps-check_credentials _) λ _.
            Yields-then _ _ _ (Keeps-check_generations _)
              λ _. Yields-pure _ _ (resources_of-Spare l m)
