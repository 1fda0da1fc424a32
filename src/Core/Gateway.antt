-- ===== src/Core/Gateway.antt =====
-- `GatewayUrl` of tools/saiai-core/src/config.rs, over the components that the url crate reports.
pub mod Decode
pub mod Overlap
pub mod Parse
pub mod Stable
use saiai_client.Prelude.{
  ℕ, zero, suc, ◌+◌, ◌-◌, ◌*◌, ◌<◌, Bool, true, false, not, ◌&&◌, ◌||◌, Option, none, some, List,
  [], ◌∷◌, Text, codes, text_eq, any, length, get_elem?, ltb, leb, ◌==◌, in_range, split,
  strip_prefix, eq_ignore_ascii_case, if◌then◌else◌,
}

unfoldable pub hex_value : ℕ → Option ℕ
hex_value v =
    if in_range b'0' b'9' v
    then some (v - b'0')
    else if in_range b'a' b'f' v
    then some (v - b'a' + 10)
    else if in_range b'A' b'F' v
    then some (v - b'A' + 10)
    else none

-- `bytes[i]`, which the loop reads below the length only
abbrev pub byte_at : List ℕ → ℕ → ℕ
byte_at bytes i = elim (get_elem? bytes i) [ none ↦ 0 | some c ↦ c ]

-- `match (high, low)`; both digits are below 16, so `(high << 4) | low` is their sum.
abbrev pub pair_value : Option ℕ → Option ℕ → ℕ → ℕ × ℕ
pair_value (some high) (some low) plain = (high * 16 + low, 3)
pair_value (some high) none plain = (plain, 1)
pair_value none low plain = (plain, 1)

unfoldable pub decoded_at : List ℕ → ℕ → ℕ × ℕ
decoded_at bytes i =
    if byte_at bytes i == b'%' && ltb (i + 2) (length bytes)
    then pair_value (hex_value (byte_at bytes (i + 1))) (hex_value (byte_at bytes (i + 2)))
        (byte_at bytes i)
    else (byte_at bytes i, 1)

-- The loop of `percent_decoded_eq`; `none` means that the fuel ran out.
unfoldable pub percent_loop : ℕ → List ℕ → List ℕ → ℕ → ℕ → Option Bool
percent_loop zero bytes expected i j = none
percent_loop (suc fuel) bytes expected i j =
    let d : ℕ × ℕ = decoded_at bytes i in
    let rest = percent_loop fuel bytes expected (i + d.1) (j + 1) in
    if ltb i (length bytes)
    then elim (get_elem? expected j) [
      | none ↦ some false
      | some want ↦ if want == d.0 then rest else some false
    ]
    else some (j == length expected)

unfoldable pub percent_decoded_eq : List ℕ → List ℕ → Bool
percent_decoded_eq value expected = elim (percent_loop (suc (length value)) value expected 0 0) [
  | none ↦ false
  | some b ↦ b
]

unfoldable pub path_value_eq : List ℕ → List ℕ → Bool
path_value_eq value expected = text_eq value expected || percent_decoded_eq value expected

-- What `reject_credential_url_component` reads of a `Url`; all parts are ASCII.
pub record UrlView : Type 0 where
  pub host_str : Option Text
  pub path_segments : Option (List Text)
  pub path : Text

abbrev pub opt_any {ℓ} : {A : Type ℓ} → (A → Bool) → Option A → Bool
opt_any p none = false
opt_any p (some a) = p a

abbrev pub without_slash : Text → Text
without_slash path = elim (strip_prefix path (codes "/")) [ none ↦ path | some r ↦ r ]

-- `reject_credential_url_component`: true when the URL is refused. `secret` is the credential's
-- text, and `bytes` its bytes.
unfoldable pub has_credential_component : UrlView → Text → List ℕ → Bool
has_credential_component url secret bytes =
    opt_any (λ host. any (λ label. eq_ignore_ascii_case label secret) (split b'.' host))
      url.host_str
    || (opt_any (any (λ segment. path_value_eq segment bytes)) url.path_segments
        || (path_value_eq url.path bytes || path_value_eq (without_slash url.path) bytes))
