-- ===== src/Core/Gateway/Overlap.antt =====
-- What a Gateway URL that `reject_credential_url_component` lets through keeps apart from the key.
use saiai_client.Prelude.{
  ℕ, ◌≡◌, ◌≢◌, Bool, false, ◌||◌, Option, none, some, List, [], ◌∷◌, Text, any, All, text_eq_iff,
  split, eq_ignore_ascii_case, arith, to_ascii_lowercase,
}
use saiai_client.Core.Gateway.{
  UrlView, has_credential_component, path_value_eq, opt_any, without_slash,
}
use saiai_client.Core.Gateway.Decode.{percent_decode, percent_decoded_eq_iff}

-- Neither the text itself nor its percent-decoding is the secret.
abbrev pub Hides : List ℕ → List ℕ → Type 0
Hides bytes value = (value ≢ bytes) × (percent_decode value ≢ bytes)

abbrev pub OptAll {ℓ κ} : {A : Type ℓ} → (A → Type κ) → Option A → Type κ
OptAll P none = Unit
OptAll P (some a) = P a

abbrev pub LabelDiffers : Text → Text → Type 0
LabelDiffers secret label = to_ascii_lowercase label ≢ to_ascii_lowercase secret

path_value_eq-Hides : (bytes value : List ℕ) → path_value_eq value bytes ≡ false → Hides bytes value
unfolding path_value_eq
path_value_eq-Hides bytes value h = (
  λ e. ground (arith, (text_eq_iff value bytes).1 e),
  λ e. ground (arith, (percent_decoded_eq_iff value bytes).1 e),
)

segments-Hide :
    (bytes : List ℕ) (segments : List Text)
    → any (λ segment. path_value_eq segment bytes) segments ≡ false
    → All (Hides bytes) segments
segments-Hide bytes [] h = tt
segments-Hide bytes (s ∷ rest) h =
    (path_value_eq-Hides bytes s (ground arith), segments-Hide bytes rest (ground arith))

labels-differ :
    (secret : Text) (labels : List Text)
    → any (λ label. eq_ignore_ascii_case label secret) labels ≡ false
    → All (LabelDiffers secret) labels
labels-differ secret [] h = tt
labels-differ secret (l ∷ rest) h = (
  λ e. ground (arith, (text_eq_iff (to_ascii_lowercase l) (to_ascii_lowercase secret)).1 e),
  labels-differ secret rest (ground arith),
)

OptAll-of_any {ℓ κ} :
    {A : Type ℓ} (P : A → Type κ) (p : A → Bool) (o : Option A)
    → ((a : A) → p a ≡ false → P a)
    → opt_any p o ≡ false
    → OptAll P o
OptAll-of_any P p none h e = tt
OptAll-of_any P p (some a) h e = h a e

accepted_parts :
    (a b c d : Bool)
    → (a || (b || (c || d))) ≡ false
    → (a ≡ false) × (b ≡ false) × (c ≡ false) × (d ≡ false)
accepted_parts a b c d h = ground arith

-- When the URL is let through, no host label is the key in any letter case, and neither a path
-- segment nor the whole path, with or without its first slash, is the key or percent-decodes to it.
pub has_credential_component_sound :
    (url : UrlView) (secret : Text) (bytes : List ℕ)
    → has_credential_component url secret bytes ≡ false
    → OptAll (λ host. All (LabelDiffers secret) (split b'.' host)) url.host_str
      × OptAll (All (Hides bytes)) url.path_segments
      × Hides bytes url.path
      × Hides bytes (without_slash url.path)
unfolding has_credential_component
has_credential_component_sound url secret bytes h =
    let (a, b, c, d) = accepted_parts _ _ _ _ h in
    (
      OptAll-of_any (λ host. All (LabelDiffers secret) (split b'.' host)) _ url.host_str
          (λ host. labels-differ secret (split b'.' host)) a,
      OptAll-of_any (All (Hides bytes)) _ url.path_segments (segments-Hide bytes) b,
      path_value_eq-Hides bytes url.path c,
      path_value_eq-Hides bytes (without_slash url.path) d,
    )
