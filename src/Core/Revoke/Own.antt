-- ===== src/Core/Revoke/Own.antt =====
-- What the discovery of a product's resources finds is the product's own.
use saiai_client.Prelude.{
  ◌≡◌, refl, Bool, true, false, Bool-cases, inl, inr, Option, none, some, List, [], ◌∷◌, Text,
  codes, All, to_ascii_lowercase, text_eq, strip_suffix, arith, if◌then◌else◌,
}
use saiai_client.Core.Error.{FilePath}
use saiai_client.Core.Fs.{path_eq, join}
use saiai_client.Core.Refs.{
  Product, credential_ref, generation_ref, generated_identifier_suffix,
  generated_credential_reference, generated_generation_reference, generation_stem,
  GeneratedEntryKind, credential_prefix, generation_prefix, generated_revoke_quarantine_name,
}
use saiai_client.Core.Revoke.Resources.{
  insert_path, insert_reference, is_protected, add_found, collect, quarantines_in, text_lt, path_lt,
}

module _ (P : Text → Type 0) where
  if-All : (b : Bool) (xs ys : List Text) → All P xs → All P ys → All P (if b then xs else ys)
  if-All true xs ys h k = h
  if-All false xs ys h k = k

  insert_reference-All :
      (r : Text) (xs : List Text) → P r → All P xs → All P (insert_reference r xs)
  insert_reference-All r [] h k = (h, tt)
  insert_reference-All r (x ∷ xs) h (k, ks) =
      if-All (text_eq (to_ascii_lowercase r) (to_ascii_lowercase x)) _ _ (h, ks)
        (if-All (text_lt (to_ascii_lowercase r) (to_ascii_lowercase x)) _ _ (h, (k, ks))
          (k, insert_reference-All r xs h ks))

  add_found-All :
      (protected found : Option Text) (xs : List Text)
      → ((r : Text) → found ≡ some r → P r)
      → All P xs
      → All P (add_found protected found xs)
  add_found-All protected none xs h k = k
  add_found-All protected (some r) xs h k =
      if-All (is_protected protected r) _ _ k (insert_reference-All r xs (h r refl) k)

  pub collect-All :
      (recognise : Text → Option Text) (protected : Option Text) (names xs : List Text)
      → ((name r : Text) → recognise name ≡ some r → P r)
      → All P xs
      → All P (collect recognise protected names xs)
  unfolding collect
  collect-All recognise protected [] xs h k = k
  collect-All recognise protected (name ∷ names) xs h k =
      collect-All recognise protected names (add_found protected (recognise name) xs) h
        (add_found-All protected (recognise name) xs (λ r. h name r) k)

module _ (P : FilePath → Type 0) where
  if-AllPaths :
      (b : Bool) (xs ys : List FilePath) → All P xs → All P ys → All P (if b then xs else ys)
  if-AllPaths true xs ys h k = h
  if-AllPaths false xs ys h k = k

  pub insert_path-All :
      (p : FilePath) (xs : List FilePath) → P p → All P xs → All P (insert_path p xs)
  insert_path-All p [] h k = (h, tt)
  insert_path-All p (x ∷ xs) h (k, ks) =
      if-AllPaths (path_eq p x) _ _ (k, ks)
        (if-AllPaths (path_lt p x) _ _ (h, (k, ks)) (k, insert_path-All p xs h ks))

  pub quarantines_in-All :
      (p : Product) (directory : FilePath) (names : List Text) (xs : List FilePath)
      → ((name : Text) → generated_revoke_quarantine_name p name ≡ true → P (join directory name))
      → All P xs
      → All P (quarantines_in p directory names xs)
  unfolding quarantines_in
  quarantines_in-All p directory [] xs h k = k
  quarantines_in-All p directory (name ∷ names) xs h k =
      quarantines_in-All p directory names _ h (kept (generated_revoke_quarantine_name p name) refl)
    where
      kept :
          (b : Bool)
          → generated_revoke_quarantine_name p name ≡ b
          → All P (if b then insert_path (join directory name) xs else xs)
      kept true e = insert_path-All (join directory name) xs (h name e) k
      kept false e = k

-- A recognised reference carries the product's prefix.
recognised :
    (accept : Text → Option Text) (prefix : Text)
    → ((t r : Text) → accept t ≡ some r → r ≡ t)
    → (stem : Option Text) (r : Text)
    → elim stem [
      | none ↦ none
      | some reference ↦
          (if generated_identifier_suffix reference prefix then accept reference else none)
    ]
      ≡ some r
    → generated_identifier_suffix r prefix ≡ true
recognised accept prefix same none r h = cc
recognised accept prefix same (some t) r h =
    elim (Bool-cases (generated_identifier_suffix t prefix)) [
      | inl own ↦ let accepted : accept t ≡ some r = rw own at h in cc (same t r accepted, own)
      | inr other ↦ cc (rw other at h)
    ]

credential_ref-id : (t r : Text) → credential_ref t ≡ some r → r ≡ t
unfolding credential_ref
credential_ref-id t r h = ground arith

generation_ref-id : (t r : Text) → generation_ref t ≡ some r → r ≡ t
unfolding generation_ref
generation_ref-id t r h = ground arith

pub credential-Own :
    (p : Product) (name r : Text)
    → generated_credential_reference p name ≡ some r
    → generated_identifier_suffix r (credential_prefix p) ≡ true
unfolding generated_credential_reference
credential-Own p name r h =
    recognised credential_ref (credential_prefix p) credential_ref-id
      (strip_suffix name (codes ".key")) r h

pub generation-Own :
    (p : Product) (kind : GeneratedEntryKind) (name r : Text)
    → generated_generation_reference p name kind ≡ some r
    → generated_identifier_suffix r (generation_prefix p) ≡ true
unfolding generated_generation_reference
generation-Own p kind name r h =
    recognised generation_ref (generation_prefix p) generation_ref-id (generation_stem kind name) r
      h
