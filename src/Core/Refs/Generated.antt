-- ===== src/Core/Refs/Generated.antt =====
-- The names that setup generates, and the scan of setup.rs that recognises them.
use saiai_client.Prelude.{
  ◌≡◌, ◌≢◌, refl, true, false, ◌||◌, some, [], ◌∷◌, ◌++◌, Text, codes, all, byte_len, ends_with,
  is_ascii_hexdigit, strip_prefix, arith, strip_prefix-append, strip_suffix-append,
  strip_prefix-eq-some, Option-cases, inl, inr,
}
use saiai_client.Core.Refs.{
  Product, claude, codex, reference_char, credential_ref, generation_ref,
  is_portable_reference_component, generated_identifier_suffix, credential_prefix,
  generation_prefix, generated_credential_reference, generated_generation_reference,
  generation_directory, lease_file,
}

-- What `Uuid::new_v4().simple()` renders: 32 hexadecimal digits.
pub record IsIdentifier (s : Text) : Type 0 where
  pub size : byte_len s ≡ 32
  pub digits : all is_ascii_hexdigit s ≡ true

hex-reference : (s : Text) → all is_ascii_hexdigit s ≡ true → all reference_char s ≡ true
hex-reference [] h = refl
hex-reference (c ∷ s) h = ground (arith, hex-reference s)

hex-ends_with :
    (s : Text)
    → all is_ascii_hexdigit s ≡ true
    → (ends_with s (codes ".") || ends_with s (codes " ")) ≡ false
hex-ends_with [] h = refl
hex-ends_with (c ∷ s) h = ground (arith, hex-ends_with s)

generated_identifier_suffix-append :
    (prefix s : Text) → IsIdentifier s → generated_identifier_suffix (prefix ++ s) prefix ≡ true
unfolding generated_identifier_suffix
generated_identifier_suffix-append prefix s i =
    rw (strip_prefix-append prefix s, generated_identifier_suffix)
      (ground (arith, i.size, i.digits))

-- The references that setup makes from a fresh identifier are always accepted.
pub generated_credential_ref :
    (p : Product) (s : Text)
    → IsIdentifier s
    → credential_ref (credential_prefix p ++ s) ≡ some (credential_prefix p ++ s)
unfolding credential_ref is_portable_reference_component
generated_credential_ref claude s i =
    ground (arith, i.size, hex-reference s i.digits, hex-ends_with s i.digits)
generated_credential_ref codex s i =
    ground (arith, i.size, hex-reference s i.digits, hex-ends_with s i.digits)

pub generated_generation_ref :
    (p : Product) (s : Text)
    → IsIdentifier s
    → generation_ref (generation_prefix p ++ s) ≡ some (generation_prefix p ++ s)
unfolding generation_ref is_portable_reference_component
generated_generation_ref claude s i =
    ground (arith, i.size, hex-reference s i.digits, hex-ends_with s i.digits)
generated_generation_ref codex s i =
    ground (arith, i.size, hex-reference s i.digits, hex-ends_with s i.digits)

-- The file that stores a generated credential is recognised, and gives back its reference.
pub recognise-credential :
    (p : Product) (s : Text)
    → IsIdentifier s
    → generated_credential_reference p ((credential_prefix p ++ s) ++ codes ".key")
      ≡ some (credential_prefix p ++ s)
unfolding generated_credential_reference
recognise-credential p s i =
    rw
      (
        strip_suffix-append (credential_prefix p ++ s) (codes ".key"),
        generated_credential_reference,
        generated_identifier_suffix-append (credential_prefix p) s i,
      )
      (generated_credential_ref p s i)

pub recognise-generation :
    (p : Product) (s : Text)
    → IsIdentifier s
    → generated_generation_reference p (generation_prefix p ++ s) generation_directory
      ≡ some (generation_prefix p ++ s)
unfolding generated_generation_reference
recognise-generation p s i =
    rw (generated_identifier_suffix-append (generation_prefix p) s i)
      (generated_generation_ref p s i)

pub recognise-lease :
    (p : Product) (s : Text)
    → IsIdentifier s
    → generated_generation_reference p ((generation_prefix p ++ s) ++ codes ".lock") lease_file
      ≡ some (generation_prefix p ++ s)
unfolding generated_generation_reference
recognise-lease p s i =
    rw
      (
        strip_suffix-append (generation_prefix p ++ s) (codes ".lock"),
        generated_generation_reference,
        generated_identifier_suffix-append (generation_prefix p) s i,
      )
      (generated_generation_ref p s i)

-- What setup writes for a fresh identifier, the scan finds again: the credential file, the
-- generation directory and the lease file each give back the reference that setup committed.
pub recognise_generated :
    (p : Product) (s : Text)
    → IsIdentifier s
    → (generated_credential_reference p ((credential_prefix p ++ s) ++ codes ".key")
        ≡ some (credential_prefix p ++ s))
      × (generated_generation_reference p (generation_prefix p ++ s) generation_directory
          ≡ some (generation_prefix p ++ s))
      × (generated_generation_reference p ((generation_prefix p ++ s) ++ codes ".lock") lease_file
          ≡ some (generation_prefix p ++ s))
recognise_generated p s i =
    (recognise-credential p s i, recognise-generation p s i, recognise-lease p s i)

suffix_of :
    (v prefix : Text) → generated_identifier_suffix v prefix ≡ true → (r : Text) × (v ≡ prefix ++ r)
unfolding generated_identifier_suffix
suffix_of v prefix h = elim (Option-cases (strip_prefix v prefix)) [
  | inl gone ↦ cc (rw (gone, generated_identifier_suffix) at h)
  | inr (r, e) ↦ (r, strip_prefix-eq-some v prefix r e)
]

-- A name generated for one product is never taken for a name of the other.
pub credential_names_disjoint :
    (p q : Product) (v : Text)
    → p ≢ q
    → generated_identifier_suffix v (credential_prefix p) ≡ true
    → generated_identifier_suffix v (credential_prefix q) ≡ false
unfolding generated_identifier_suffix
credential_names_disjoint claude codex v n h =
    let (r, e) = suffix_of v (credential_prefix claude) h in rw e refl
credential_names_disjoint codex claude v n h =
    let (r, e) = suffix_of v (credential_prefix codex) h in rw e refl
credential_names_disjoint claude claude v n h = absurd (n refl)
credential_names_disjoint codex codex v n h = absurd (n refl)

pub generation_names_disjoint :
    (p q : Product) (v : Text)
    → p ≢ q
    → generated_identifier_suffix v (generation_prefix p) ≡ true
    → generated_identifier_suffix v (generation_prefix q) ≡ false
unfolding generated_identifier_suffix
generation_names_disjoint claude codex v n h =
    let (r, e) = suffix_of v (generation_prefix claude) h in rw e refl
generation_names_disjoint codex claude v n h =
    let (r, e) = suffix_of v (generation_prefix codex) h in rw e refl
generation_names_disjoint claude claude v n h = absurd (n refl)
generation_names_disjoint codex codex v n h = absurd (n refl)
