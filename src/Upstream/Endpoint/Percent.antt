-- ===== src/Upstream/Endpoint/Percent.antt =====
-- `percent_decode` of tools/saiai-cli/src/upstream_proxy.rs, on bytes.
pub mod Laws
use saiai_client.Prelude.{
  ℕ, zero, suc, ◌+◌, ◌-◌, ◌*◌, Bool, true, false, ◌&&◌, ◌||◌, Option, none, some, List, [], ◌∷◌,
  length, is_ascii_digit, in_range, ltb, ◌==◌, if◌then◌else◌,
}

-- `str::from_utf8` returns: what may stand behind a first byte is the Unicode standard's table of
-- well-formed sequences.
abbrev continues : ℕ → Bool
continues b = in_range 0x80 0xbf b

abbrev second_of_three : ℕ → ℕ → Bool
second_of_three a b =
    if a == 0xe0
    then in_range 0xa0 0xbf b
    else if a == 0xed
    then in_range 0x80 0x9f b
    else continues b

abbrev second_of_four : ℕ → ℕ → Bool
second_of_four a b =
    if a == 0xf0
    then in_range 0x90 0xbf b
    else if a == 0xf4
    then in_range 0x80 0x8f b
    else continues b

abbrev kept_if {ℓ} : {A : Type ℓ} → Bool → A → Option A
kept_if b a = if b then some a else none

-- What is behind one character
abbrev behind_char : List ℕ → Option (List ℕ)
behind_char [] = none
behind_char (a ∷ []) = kept_if (ltb a 0x80) []
behind_char (a ∷ b ∷ []) =
    if ltb a 0x80 then some (b ∷ []) else kept_if (in_range 0xc2 0xdf a && continues b) []
behind_char (a ∷ b ∷ c ∷ []) =
    if ltb a 0x80
    then some (b ∷ c ∷ [])
    else if in_range 0xc2 0xdf a
    then kept_if (continues b) (c ∷ [])
    else kept_if (in_range 0xe0 0xef a && (second_of_three a b && continues c)) []
behind_char (a ∷ b ∷ c ∷ d ∷ rest) =
    if ltb a 0x80
    then some (b ∷ c ∷ d ∷ rest)
    else if in_range 0xc2 0xdf a
    then kept_if (continues b) (c ∷ d ∷ rest)
    else if in_range 0xe0 0xef a
    then kept_if (second_of_three a b && continues c) (d ∷ rest)
    else kept_if (in_range 0xf0 0xf4 a && (second_of_four a b && (continues c && continues d))) rest

abbrev utf8_from : ℕ → List ℕ → Bool
utf8_from zero bytes = false
utf8_from (suc fuel) [] = true
utf8_from (suc fuel) (b ∷ bytes) = elim (behind_char (b ∷ bytes)) [
  | none ↦ false
  | some rest ↦ utf8_from fuel rest
]

abbrev pub is_utf8 : List ℕ → Bool
is_utf8 bytes = utf8_from (suc (length bytes)) bytes

-- `char::to_digit(16)`
abbrev pub digit_value : ℕ → Option ℕ
digit_value c =
    if is_ascii_digit c
    then some (c - 48)
    else if in_range 97 102 c
    then some (c - 87)
    else if in_range 65 70 c
    then some (c - 55)
    else none

-- `u8::from_str_radix(hex, 16)` on two bytes, which may be a plus sign and a digit.
abbrev pub two_digits : Option ℕ → Option ℕ → Option ℕ
two_digits none lo = none
two_digits (some h) none = none
two_digits (some h) (some l) = some (h * 16 + l)

abbrev pub from_hex : ℕ → ℕ → Option ℕ
from_hex hi lo = if hi == b'+' then digit_value lo else two_digits (digit_value hi) (digit_value lo)

-- One round of the loop on the bytes from the index on: what is pushed, and the bytes from the
-- next index on.
abbrev pub decode_one : ℕ → List ℕ → Option (ℕ × List ℕ)
decode_one b rest = if b == b'%' then escaped rest else some (b, rest)
  where
    escaped : List ℕ → Option (ℕ × List ℕ)
    escaped [] = none
    escaped (c ∷ []) = none
    escaped (c ∷ d ∷ bytes) = elim (from_hex c d) [ none ↦ none | some e ↦ some (e, bytes) ]

abbrev pub push_byte : ℕ → Option (List ℕ) → Option (List ℕ)
push_byte b none = none
push_byte b (some decoded) = some (b ∷ decoded)

unfoldable pub decode_bytes : ℕ → List ℕ → Option (List ℕ)
decode_bytes zero bytes = none
decode_bytes (suc fuel) [] = some []
decode_bytes (suc fuel) (b ∷ bytes) = elim (decode_one b bytes) [
  | none ↦ none
  | some r ↦ push_byte r.0 (decode_bytes fuel r.1)
]

unfoldable pub percent_decode : List ℕ → Option (List ℕ)
percent_decode value = elim (decode_bytes (suc (length value)) value) [
  | none ↦ none
  | some decoded ↦ (if is_utf8 decoded then some decoded else none)
]
