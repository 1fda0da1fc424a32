-- ===== src/Prelude/Chars.antt =====
-- Text as the list of its code points, with the operations of Rust's `str` and `char` that the
-- program calls.
use Prim.Native.Nat.{ℕ, ◌+◌, ◌-◌}
use Prim.Native.Char.{code}
use Prim.Native.String.{String}
use mathlib.Core.Bool.{Bool, true, false, ◌&&◌, ◌||◌}
use mathlib.Core.List.{List, [], ◌∷◌}
use mathlib.Core.Option.{Option, none, some}
use saiai_client.Prelude.Tests.{◌==◌, ltb, in_range, if◌then◌else◌}

abbrev pub Text : Type 0
Text = List ℕ

abbrev pub codes : String → Text
codes String.[] = []
codes (String.◌∷◌ c s) = code c ∷ codes s

abbrev pub text_eq : Text → Text → Bool
text_eq [] [] = true
text_eq [] (d ∷ t) = false
text_eq (c ∷ s) [] = false
text_eq (c ∷ s) (d ∷ t) = c == d && text_eq s t

-- char::is_ascii_digit and its kin
abbrev pub is_ascii_digit : ℕ → Bool
is_ascii_digit c = in_range 48 57 c

abbrev pub is_ascii_alphabetic : ℕ → Bool
is_ascii_alphabetic c = in_range 65 90 c || in_range 97 122 c

abbrev pub is_ascii_alphanumeric : ℕ → Bool
is_ascii_alphanumeric c = is_ascii_digit c || is_ascii_alphabetic c

abbrev pub is_ascii_hexdigit : ℕ → Bool
is_ascii_hexdigit c = is_ascii_digit c || (in_range 65 70 c || in_range 97 102 c)

-- char::is_whitespace: the White_Space property
abbrev pub is_whitespace : ℕ → Bool
is_whitespace c =
    in_range 9 13 c
    || (c == 32
        || (c == 0x85
            || (c == 0xa0
                || (c == 0x1680
                    || (in_range 0x2000 0x200a c
                        || (c == 0x2028
                            || (c == 0x2029 || (c == 0x202f || (c == 0x205f || c == 0x3000)))))))))

-- char::is_control: the category Cc
abbrev pub is_control : ℕ → Bool
is_control c = ltb c 32 || in_range 127 159 c

abbrev pub to_lower : ℕ → ℕ
to_lower c = if in_range 65 90 c then c + 32 else c

abbrev pub to_upper : ℕ → ℕ
to_upper c = if in_range 97 122 c then c - 32 else c

abbrev pub to_ascii_lowercase : Text → Text
to_ascii_lowercase [] = []
to_ascii_lowercase (c ∷ s) = to_lower c ∷ to_ascii_lowercase s

abbrev pub to_ascii_uppercase : Text → Text
to_ascii_uppercase [] = []
to_ascii_uppercase (c ∷ s) = to_upper c ∷ to_ascii_uppercase s

abbrev pub eq_ignore_ascii_case : Text → Text → Bool
eq_ignore_ascii_case s t = text_eq (to_ascii_lowercase s) (to_ascii_lowercase t)

-- The bytes of a code point in UTF-8, and `str::len`, which counts bytes.
abbrev pub utf8_width : ℕ → ℕ
utf8_width c = if ltb c 0x80 then 1 else if ltb c 0x800 then 2 else if ltb c 0x10000 then 3 else 4

abbrev pub byte_len : Text → ℕ
byte_len [] = 0
byte_len (c ∷ s) = utf8_width c + byte_len s

abbrev pub strip_prefix : Text → Text → Option Text
strip_prefix s [] = some s
strip_prefix [] (d ∷ p) = none
strip_prefix (c ∷ s) (d ∷ p) = if c == d then strip_prefix s p else none

abbrev pub starts_with : Text → Text → Bool
starts_with s [] = true
starts_with [] (d ∷ p) = false
starts_with (c ∷ s) (d ∷ p) = c == d && starts_with s p

abbrev pub ends_with : Text → Text → Bool
ends_with [] t = text_eq [] t
ends_with (c ∷ s) t = text_eq (c ∷ s) t || ends_with s t

-- The part before the suffix, if the text ends with it.
abbrev pub strip_suffix : Text → Text → Option Text
strip_suffix [] t = if text_eq [] t then some [] else none
strip_suffix (c ∷ s) t =
    if text_eq (c ∷ s) t
    then some []
    else elim (strip_suffix s t) [ none ↦ none | some r ↦ some (c ∷ r) ]

abbrev pub trim_start_while : (ℕ → Bool) → Text → Text
trim_start_while p [] = []
trim_start_while p (c ∷ s) = let rest = trim_start_while p s in if p c then rest else c ∷ s

abbrev pub trim_end_while : (ℕ → Bool) → Text → Text
trim_end_while p [] = []
trim_end_while p (c ∷ s) = elim (trim_end_while p s) [
  | [] ↦ (if p c then [] else c ∷ [])
  | d ∷ r ↦ c ∷ d ∷ r
]

abbrev pub trim : Text → Text
trim s = trim_end_while is_whitespace (trim_start_while is_whitespace s)

-- `split` on one character: there is always at least one part.
abbrev pub split : ℕ → Text → List Text
split d [] = [] ∷ []
split d (c ∷ s) =
    let rest = split d s in
    if c == d
    then [] ∷ rest
    else elim rest [ [] ↦ (c ∷ []) ∷ [] | part ∷ parts ↦ (c ∷ part) ∷ parts ]

-- `split(d).next()`
abbrev pub before : ℕ → Text → Text
before d [] = []
before d (c ∷ s) = let rest = before d s in if c == d then [] else c ∷ rest

abbrev pub contains : ℕ → Text → Bool
contains d [] = false
contains d (c ∷ s) = c == d || contains d s
