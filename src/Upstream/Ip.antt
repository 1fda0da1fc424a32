-- ===== src/Upstream/Ip.antt =====
-- `std::net::IpAddr`: an address is the number that `u32::from` or `u128::from` reads from it.
use saiai_client.Prelude.{
  ℕ, zero, suc, ◌+◌, ◌-◌, ◌*◌, ◌/◌, ◌%◌, ◌^◌, Bool, true, false, ◌&&◌, ◌||◌, Option, none, some,
  List, [], ◌∷◌, ◌++◌, Text, codes, strip_prefix, is_ascii_digit, in_range, ltb, ◌==◌,
  if◌then◌else◌, length, is_empty,
}

pub data IpAddr : Type 0 where
  v4 : ℕ → IpAddr
  v6 : ℕ → IpAddr

abbrev pub ip_eq : IpAddr → IpAddr → Bool
ip_eq (v4 a) (v4 b) = a == b
ip_eq (v6 a) (v6 b) = a == b
ip_eq (v4 a) (v6 b) = false
ip_eq (v6 a) (v4 b) = false

abbrev pub is_ipv4 : IpAddr → Bool
is_ipv4 (v4 a) = true
is_ipv4 (v6 a) = false

-- `::ffff:a.b.c.d` is the address a.b.c.d.
abbrev pub to_canonical : IpAddr → IpAddr
to_canonical (v4 a) = v4 a
to_canonical (v6 a) = if a / 2 ^ 32 == 0xffff then v4 (a % 2 ^ 32) else v6 a

abbrev pub is_loopback : IpAddr → Bool
is_loopback (v4 a) = a / 2 ^ 24 == 127
is_loopback (v6 a) = a == 1

abbrev pub is_unspecified : IpAddr → Bool
is_unspecified (v4 a) = a == 0
is_unspecified (v6 a) = a == 0

-- The digits in front, as a number, how many they are, and what is behind them
abbrev hex_digit : ℕ → Option ℕ
hex_digit c =
    if is_ascii_digit c
    then some (c - 48)
    else if in_range 97 102 c
    then some (c - 87)
    else if in_range 65 70 c
    then some (c - 55)
    else none

abbrev digit_of : ℕ → ℕ → Option ℕ
digit_of radix c = elim (hex_digit c) [
  | none ↦ none
  | some d ↦ (if ltb d radix then some d else none)
]

abbrev digit_run : ℕ → ℕ → ℕ → Text → ℕ × ℕ × Text
digit_run radix value count [] = (value, count, [])
digit_run radix value count (c ∷ s) = elim (digit_of radix c) [
  | none ↦ (value, count, c ∷ s)
  | some d ↦ digit_run radix (value * radix + d) (suc count) s
]

abbrev number_of : ℕ → ℕ → Bool → ℕ × ℕ × Text → Option (ℕ × Text)
number_of limit max_digits leading_zero (value, count, rest) =
    if count == 0 || (ltb max_digits count || (ltb limit value || (leading_zero && ltb 1 count)))
    then none
    else some (value, rest)

abbrev read_octet : Text → Option (ℕ × Text)
read_octet s =
    number_of 255 3 (elim (strip_prefix s (codes "0")) [ none ↦ false | some r ↦ true ])
      (digit_run 10 0 0 s)

abbrev octets : ℕ → Text → Option (ℕ × Text)
octets zero s = some (0, s)
octets (suc n) s = elim (strip_prefix s (codes ".")) [
  | none ↦ none
  | some s' ↦ elim (read_octet s') [
    | none ↦ none
    | some r ↦ elim (octets n r.1) [
      | none ↦ none
      | some tail ↦ some (r.0 * 256 ^ n + tail.0, tail.1)
    ]
  ]
]

abbrev read_ipv4 : Text → Option (ℕ × Text)
read_ipv4 s = octets 4 (b'.' ∷ s)

abbrev separated : Bool → Text → Option Text
separated true s = some s
separated false s = strip_prefix s (codes ":")

abbrev with_group : ℕ → List ℕ × Bool × Text → List ℕ × Bool × Text
with_group g (tail, ipv4, rest) = (g ∷ tail, ipv4, rest)

-- `read_groups`: the groups, whether an IPv4 address ended them, and the rest
abbrev groups : ℕ → Bool → Text → List ℕ × Bool × Text
groups zero first s = ([], false, s)
groups (suc left) first s = elim (separated first s) [
  | none ↦ ([], false, s)
  | some s' ↦ elim (if ltb 0 left then read_ipv4 s' else none) [
    | some v ↦ (v.0 / 2 ^ 16 ∷ v.0 % 2 ^ 16 ∷ [], true, v.1)
    | none ↦ elim (number_of 0xffff 4 false (digit_run 16 0 0 s')) [
      | none ↦ ([], false, s)
      | some g ↦ with_group g.0 (groups left false g.1)
    ]
  ]
]

abbrev groups_value : ℕ → List ℕ → ℕ
groups_value n [] = n
groups_value n (g ∷ gs) = groups_value (n * 2 ^ 16 + g) gs

abbrev zeros : ℕ → List ℕ
zeros zero = []
zeros (suc n) = 0 ∷ zeros n

abbrev around_gap : List ℕ → List ℕ × Bool × Text → ℕ × Text
around_gap head (tail, ipv4, rest) =
    (groups_value 0 (head ++ zeros (8 - (length head + length tail)) ++ tail), rest)

abbrev behind_head : List ℕ × Bool × Text → Option (ℕ × Text)
behind_head (head, ipv4, rest) =
    if length head == 8
    then some (groups_value 0 head, rest)
    else if ipv4
    then none
    else elim (strip_prefix rest (codes "::")) [
      | none ↦ none
      | some tail ↦ some (around_gap head (groups (8 - suc (length head)) true tail))
    ]

abbrev read_ipv6 : Text → Option (ℕ × Text)
read_ipv6 s = behind_head (groups 8 true s)

abbrev all_read : (ℕ → IpAddr) → ℕ × Text → Option IpAddr
all_read kind (value, rest) = if is_empty rest then some (kind value) else none

-- `parse::<IpAddr>().ok()`
abbrev pub parse_ip : Text → Option IpAddr
parse_ip s = elim (read_ipv4 s) [
  | some r ↦ all_read v4 r
  | none ↦ elim (read_ipv6 s) [ none ↦ none | some r ↦ all_read v6 r ]
]
