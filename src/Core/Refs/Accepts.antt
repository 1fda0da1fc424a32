-- ===== src/Core/Refs/Accepts.antt =====
-- Which references are accepted.
use saiai_client.Prelude.{
  ℕ, ◌≤◌, ◌≡◌, ◌≢◌, refl, sym, true, some, [], ◌∷◌, Text, all, All, byte_len, arith,
}
use saiai_client.Core.Refs.{
  reference_char, valid_start, valid_rest, valid_length, credential_ref, generation_ref,
  is_portable_reference_component,
}

-- The two constructors accept the same texts: the extra test for "." and ".." is redundant.
generation_ref-eq-credential_ref : (v : Text) → generation_ref v ≡ credential_ref v
unfolding generation_ref credential_ref
generation_ref-eq-credential_ref [] = refl
generation_ref-eq-credential_ref (c ∷ s) = ground arith

-- A character that a path component may hold without leaving its directory.
abbrev pub IsPathSafe : ℕ → Type 0
IsPathSafe c = (c ≢ b'/') × (c ≢ b'\\') × (c ≢ 0) × (c ≤ 127)

all-IsPathSafe : (s : Text) → all reference_char s ≡ true → All IsPathSafe s
all-IsPathSafe [] h = tt
all-IsPathSafe (c ∷ s) h = ground (arith, all-IsPathSafe s)

credential_ref_guards :
    (v r : Text)
    → credential_ref v ≡ some r
    → (v ≡ r)
      × (valid_length v ≡ true)
      × (valid_start v ≡ true)
      × (valid_rest v ≡ true)
      × (is_portable_reference_component v ≡ true)
unfolding credential_ref
credential_ref_guards v r h = ground arith

reference_bounds :
    (v : Text)
    → valid_length v ≡ true
    → valid_start v ≡ true
    → valid_rest v ≡ true
    → (1 ≤ byte_len v) × (byte_len v ≤ 64) × All IsPathSafe v
reference_bounds [] l st re = cc
reference_bounds (c ∷ s) l st re = (ground arith, ground arith, (ground arith, all-IsPathSafe s re))

-- An accepted reference is the given text, between 1 and 64 bytes long, holds ASCII without a path
-- separator or a null, begins with a letter or a digit, and so is neither "." nor "..".
pub credential_ref_sound :
    (v r : Text)
    → credential_ref v ≡ some r
    → (r ≡ v)
      × (1 ≤ byte_len r)
      × (byte_len r ≤ 64)
      × All IsPathSafe r
      × (valid_start r ≡ true)
      × (is_portable_reference_component r ≡ true)
unfolding credential_ref
credential_ref_sound v r h =
    let (same, l, st, re, po) = credential_ref_guards v r h in
    let (low, high, safe) = reference_bounds v l st re in
    (sym same, rw (← same) low, rw (← same) high, rw (← same) safe, rw (← same) st, rw (← same) po)
