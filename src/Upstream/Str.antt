-- ===== src/Upstream/Str.antt =====
-- Operations of Rust's `str` and of its integers that the upstream proxy calls, on code points.
use saiai_client.Prelude.{
  ℕ, zero, suc, ◌+◌, ◌-◌, ◌*◌, ◌/◌, ◌%◌, ◌++◌, ltb, Bool, true, false, ◌&&◌, Option, none, some,
  List, [], ◌∷◌, Text, codes, strip_prefix, strip_suffix, split, is_ascii_digit, leb, ◌==◌,
  if◌then◌else◌, all,
}

abbrev pub split_once : ℕ → Text → Option (Text × Text)
split_once d [] = none
split_once d (c ∷ s) =
    let rest = split_once d s in
    if c == d then some ([], s) else elim rest [ none ↦ none | some r ↦ some (c ∷ r.0, r.1) ]

abbrev pub rsplit_once : ℕ → Text → Option (Text × Text)
rsplit_once d [] = none
rsplit_once d (c ∷ s) = elim (rsplit_once d s) [
  | none ↦ (if c == d then some ([], s) else none)
  | some r ↦ some (c ∷ r.0, r.1)
]

-- `split_once` on a text
abbrev pub split_once_at : Text → Text → Option (Text × Text)
split_once_at d [] = none
split_once_at d (c ∷ s) =
    let rest = split_once_at d s in
    elim (strip_prefix (c ∷ s) d) [
      | some behind ↦ some ([], behind)
      | none ↦ elim rest [ none ↦ none | some r ↦ some (c ∷ r.0, r.1) ]
    ]

abbrev pub contains_text : Text → Text → Bool
contains_text d s = elim (split_once_at d s) [ none ↦ false | some r ↦ true ]

-- `split` on a set of characters: there is always at least one part.
abbrev pub split_any : (ℕ → Bool) → Text → List Text
split_any p [] = [] ∷ []
split_any p (c ∷ s) =
    let rest = split_any p s in
    if p c then [] ∷ rest else elim rest [ [] ↦ (c ∷ []) ∷ [] | part ∷ parts ↦ (c ∷ part) ∷ parts ]

abbrev without_return : Text → Text
without_return s = elim (strip_suffix s (codes "\r")) [ none ↦ s | some r ↦ r ]

-- `lines`: nothing behind the last line feed is no line.
abbrev pub lines_of : List Text → List Text
lines_of [] = []
lines_of ([] ∷ []) = []
lines_of ((c ∷ s) ∷ []) = (c ∷ s) ∷ []
lines_of (s ∷ t ∷ rest) = without_return s ∷ lines_of (t ∷ rest)

abbrev pub lines : Text → List Text
lines s = lines_of (split b'\n' s)

abbrev pub digits_value : ℕ → Text → ℕ
digits_value n [] = n
digits_value n (c ∷ s) = digits_value (n * 10 + (c - 48)) s

abbrev parse_digits : ℕ → Text → Option ℕ
parse_digits limit [] = none
parse_digits limit (c ∷ s) =
    if all is_ascii_digit (c ∷ s) && leb (digits_value 0 (c ∷ s)) limit
    then some (digits_value 0 (c ∷ s))
    else none

-- `parse::<uN>()` for the greatest number of the type: one plus sign may stand in front.
abbrev pub parse_uint : ℕ → Text → Option ℕ
parse_uint limit [] = none
parse_uint limit (c ∷ s) = if c == b'+' then parse_digits limit s else parse_digits limit (c ∷ s)

-- UTF-8
abbrev char_bytes : ℕ → List ℕ
char_bytes c =
    if ltb c 0x80
    then c ∷ []
    else if ltb c 0x800
    then (0xc0 + c / 64) ∷ (0x80 + c % 64) ∷ []
    else if ltb c 0x10000
    then (0xe0 + c / 4096) ∷ (0x80 + c / 64 % 64) ∷ (0x80 + c % 64) ∷ []
    else (0xf0 + c / 262144) ∷ (0x80 + c / 4096 % 64) ∷ (0x80 + c / 64 % 64) ∷ (0x80 + c % 64) ∷ []

abbrev pub as_bytes : Text → List ℕ
as_bytes [] = []
as_bytes (c ∷ s) = char_bytes c ++ as_bytes s

-- `to_string` of a number
abbrev decimal_from : ℕ → ℕ → Text
decimal_from zero n = []
decimal_from (suc fuel) n =
    if ltb n 10 then (48 + n) ∷ [] else decimal_from fuel (n / 10) ++ (48 + n % 10) ∷ []

abbrev pub decimal : ℕ → Text
decimal n = decimal_from (suc n) n
