-- ===== src/Core/Refs.antt =====
-- The path-safe references of tools/saiai-core/src/config.rs, credentials.rs and fsutil.rs, and
-- the generated names that setup.rs recognises.
pub mod Accepts
pub mod Generated
use saiai_client.Prelude.{
  ℕ, ◌<◌, Bool, true, false, not, ◌&&◌, ◌||◌, Option, none, some, List, [], ◌∷◌, ◌++◌, Text, String,
  codes, text_eq, any, all, length, leb, ltb, ◌==◌, is_ascii_alphanumeric, is_ascii_hexdigit,
  to_ascii_uppercase, strip_prefix, strip_suffix, ends_with, before, byte_len, if◌then◌else◌,
}

pub data Product : Type 0 where
  claude codex : Product

unfoldable pub product_eq : Product → Product → Bool
product_eq claude claude = true
product_eq codex codex = true
product_eq claude codex = false
product_eq codex claude = false

abbrev pub all_products : List Product
all_products = claude ∷ codex ∷ []

abbrev pub directory_name : Product → Text
directory_name claude = codes "claude"
directory_name codex = codes "codex"

abbrev pub reserved_basenames : List Text
reserved_basenames =
    codes "CON"
    ∷ codes "PRN"
    ∷ codes "AUX"
    ∷ codes "NUL"
    ∷ codes "CLOCK$"
    ∷ codes "COM1"
    ∷ codes "COM2"
    ∷ codes "COM3"
    ∷ codes "COM4"
    ∷ codes "COM5"
    ∷ codes "COM6"
    ∷ codes "COM7"
    ∷ codes "COM8"
    ∷ codes "COM9"
    ∷ codes "LPT1"
    ∷ codes "LPT2"
    ∷ codes "LPT3"
    ∷ codes "LPT4"
    ∷ codes "LPT5"
    ∷ codes "LPT6"
    ∷ codes "LPT7"
    ∷ codes "LPT8"
    ∷ codes "LPT9"
    ∷ []

unfoldable pub is_portable_reference_component : Text → Bool
is_portable_reference_component value =
    if ends_with value (codes ".") || ends_with value (codes " ")
    then false
    else not (any (text_eq (to_ascii_uppercase (before b'.' value))) reserved_basenames)

abbrev pub reference_char : ℕ → Bool
reference_char c = is_ascii_alphanumeric c || (c == b'-' || (c == b'_' || c == b'.'))

-- `chars.next().is_some_and(…)` and `chars.all(…)` on what is left
abbrev pub valid_start : Text → Bool
valid_start [] = false
valid_start (c ∷ s) = is_ascii_alphanumeric c

abbrev pub valid_rest : Text → Bool
valid_rest [] = true
valid_rest (c ∷ s) = all reference_char s

abbrev pub valid_length : Text → Bool
valid_length value = not (text_eq value []) && leb (byte_len value) 64

-- `CredentialRef::new`, the accepted text or none
unfoldable pub credential_ref : Text → Option Text
credential_ref value =
    if not (valid_length value)
      || (not (valid_start value)
          || (not (valid_rest value) || not (is_portable_reference_component value)))
    then none
    else some value

-- `GenerationRef::new`
unfoldable pub generation_ref : Text → Option Text
generation_ref value =
    if not (valid_length value)
      || (not (valid_start value)
          || (not (valid_rest value)
              || ((text_eq value (codes ".") || text_eq value (codes ".."))
                  || not (is_portable_reference_component value))))
    then none
    else some value

pub data GeneratedEntryKind : Type 0 where
  generation_directory lease_file : GeneratedEntryKind

unfoldable pub generated_identifier_suffix : Text → Text → Bool
generated_identifier_suffix value prefix = elim (strip_prefix value prefix) [
  | none ↦ false
  | some suffix ↦ byte_len suffix == 32 && all is_ascii_hexdigit suffix
]

abbrev pub credential_prefix : Product → Text
credential_prefix p = directory_name p ++ codes "-"

abbrev pub generation_prefix : Product → Text
generation_prefix p = codes "gen-" ++ (directory_name p ++ codes "-")

abbrev pub quarantine_prefix : Product → Text
quarantine_prefix p = codes ".saiai-revoke-" ++ (directory_name p ++ codes "-")

unfoldable pub generated_credential_reference : Product → Text → Option Text
generated_credential_reference p filename = elim (strip_suffix filename (codes ".key")) [
  | none ↦ none
  | some reference ↦
      if generated_identifier_suffix reference (credential_prefix p)
      then credential_ref reference
      else none
]

abbrev pub generation_stem : GeneratedEntryKind → Text → Option Text
generation_stem generation_directory filename = some filename
generation_stem lease_file filename = strip_suffix filename (codes ".lock")

unfoldable pub generated_generation_reference : Product → Text → GeneratedEntryKind → Option Text
generated_generation_reference p filename kind = elim (generation_stem kind filename) [
  | none ↦ none
  | some reference ↦
      if generated_identifier_suffix reference (generation_prefix p)
      then generation_ref reference
      else none
]

unfoldable pub generated_revoke_quarantine_name : Product → Text → Bool
generated_revoke_quarantine_name p filename =
    generated_identifier_suffix filename (quarantine_prefix p)
