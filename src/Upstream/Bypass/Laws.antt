-- ===== src/Upstream/Bypass/Laws.antt =====
-- Which hosts a rule covers, and that no rule has a prefix longer than its address.
use saiai_client.Prelude.{
  ℕ, ◌≤◌, ◌≡◌, refl, ap, ◌↔◌, Bool, true, false, ◌&&◌, ◌||◌, Bool-cases, ◌⊎◌, inl, inr, Option,
  none, some, List, [], ◌∷◌, ◌++◌, Text, codes, text_eq, text_eq_iff, text_eq_refl, ends_with,
  starts_with, trim_start_while, is_empty, trim, contains, eq_ignore_ascii_case, to_ascii_lowercase,
  All, leb, ◌==◌, arith, if◌then◌else◌,
}
use saiai_client.Upstream.Str.{split_once, parse_uint}
use saiai_client.Upstream.Ip.{IpAddr}
use saiai_client.Upstream.Endpoint.{normalize_host}
use saiai_client.Upstream.Bypass.{
  BypassRule, everything, simple_hostnames, glob, domain, network, BypassEntry, width_of,
  network_of, address_of, parse_network, rule_of, entry_rule, entry_rules, parse_bypass,
  rule_matches, split_entry_port, without_scheme,
}

ends_with-append : (front t : Text) → ends_with (front ++ t) t ≡ true
ends_with-append [] [] = refl
ends_with-append [] (d ∷ t) = rw (text_eq_refl (d ∷ t)) refl
ends_with-append (c ∷ front) t = ground (arith, ends_with-append front t)

ends_with-front : (s t : Text) → ends_with s t ≡ true → (front : Text) × (s ≡ front ++ t)
ends_with-front [] t h = ([], (text_eq_iff [] t).0 h)
ends_with-front (c ∷ s) t h = elim (Bool-cases (text_eq (c ∷ s) t)) [
  | inl same ↦ ([], (text_eq_iff (c ∷ s) t).0 same)
  | inr other ↦
      let (front, e) = ends_with-front s t (rw (other) at h) in
      (c ∷ front, ap (λ (r : Text). c ∷ r) e)
]

abbrev pub bare : Text → Text
bare name = trim_start_while (λ c. c == b'.') name

-- The host is below the domain.
abbrev pub IsBelow : Text → Text → Type 0
IsBelow host domain_name = (front : Text) × (host ≡ front ++ b'.' ∷ domain_name)

domain_test :
    (host name : Text) (below : Bool)
    → ((text_eq host name || (below && ends_with host (codes "." ++ name))) ≡ true)
      ↔ ((host ≡ name) ⊎ ((below ≡ true) × IsBelow host name))
domain_test host name below = (λ h. to below (Bool-cases (text_eq host name)) h, λ h. from h)
  where
    to :
        (b : Bool)
        → ((text_eq host name ≡ true) ⊎ (text_eq host name ≡ false))
        → (text_eq host name || (b && ends_with host (codes "." ++ name))) ≡ true
        → (host ≡ name) ⊎ ((b ≡ true) × IsBelow host name)
    to b (inl same) h = inl ((text_eq_iff host name).0 same)
    to true (inr other) h = inr (refl, ends_with-front host (codes "." ++ name) (rw (other) at h))
    to false (inr other) h = absurd (cc (other, h))

    from :
        (host ≡ name) ⊎ ((below ≡ true) × IsBelow host name)
        → (text_eq host name || (below && ends_with host (codes "." ++ name))) ≡ true
    from (inl same) = rw ((text_eq_iff host name).1 same) refl
    from (inr (below_ok, (front, e))) =
        let ends : ends_with host (codes "." ++ name) ≡ true =
          rw e (ends_with-append front (codes "." ++ name)) in
        ground (arith, below_ok, ends)

-- A domain rule covers a host exactly if it is the domain, or below it where the list covers
-- subdomains or the rule begins with a dot; leading dots of the rule do not count.
pub domain_rule :
    (subdomains : Bool) (host name : Text) (ip : Option IpAddr)
    → (rule_matches subdomains host ip (domain name) ≡ true) ↔ (
        (host ≡ bare name)
        ⊎ (((subdomains || starts_with name (codes ".")) ≡ true) × IsBelow host (bare name)))
unfolding rule_matches
domain_rule subdomains host name ip =
    domain_test host (bare name) (subdomains || starts_with name (codes "."))

-- A prefix is no longer than the address.
abbrev pub IsInWidth : BypassRule → Type 0
IsInWidth everything = Unit
IsInWidth simple_hostnames = Unit
IsInWidth (glob pattern) = Unit
IsInWidth (domain name) = Unit
IsInWidth (network ip prefix) = prefix ≤ width_of ip

abbrev IsInWidthOption : Option BypassRule → Type 0
IsInWidthOption none = Unit
IsInWidthOption (some rule) = IsInWidth rule

network_of-IsInWidth :
    (ip : Option IpAddr) (prefix : Option ℕ) → IsInWidthOption (network_of ip prefix)
network_of-IsInWidth none prefix = tt
network_of-IsInWidth (some ip) none = omega arith
network_of-IsInWidth (some ip) (some prefix) = elim (Bool-cases (leb prefix (width_of ip))) [
  | inl fits ↦ rw fits (ground (arith, fits))
  | inr long ↦ rw long tt
]

parse_network-IsInWidth : (entry : Text) → IsInWidthOption (parse_network entry)
unfolding parse_network
parse_network-IsInWidth entry = of_parts (split_once b'/' entry)
  where
    of_prefix :
        (address : Text) (prefix : Option ℕ)
        → IsInWidthOption (elim prefix [
          | none ↦ none
          | some n ↦ network_of (address_of address (some n)) (some n)
        ])
    of_prefix address none = tt
    of_prefix address (some n) = network_of-IsInWidth (address_of address (some n)) (some n)

    of_parts :
        (parts : Option (Text × Text))
        → IsInWidthOption (elim parts [
          | none ↦ network_of (address_of entry none) none
          | some p ↦ elim (parse_uint 255 p.1) [
            | none ↦ none
            | some prefix ↦ network_of (address_of p.0 (some prefix)) (some prefix)
          ]
        ])
    of_parts none = network_of-IsInWidth (address_of entry none) none
    of_parts (some p) = of_prefix p.0 (parse_uint 255 p.1)

rule_of-IsInWidth : (entry : Text) → IsInWidth (rule_of entry)
unfolding rule_of
rule_of-IsInWidth entry = if-IsInWidth (text_eq entry (codes "*")) _ _ tt (
    if-IsInWidth (eq_ignore_ascii_case entry (codes "<local>")) _ _ tt
      (of_network (parse_network entry) (parse_network-IsInWidth entry)))
  where
    if-IsInWidth :
        (b : Bool) (x y : BypassRule) → IsInWidth x → IsInWidth y → IsInWidth (if b then x else y)
    if-IsInWidth true x y h k = h
    if-IsInWidth false x y h k = k

    of_network :
        (found : Option BypassRule)
        → IsInWidthOption found
        → IsInWidth (elim found [
          | some rule ↦ rule
          | none ↦
              (if contains b'*' entry
                then glob (to_ascii_lowercase entry)
                else domain (normalize_host entry))
        ])
    of_network none h = if-IsInWidth (contains b'*' entry) _ _ tt tt
    of_network (some rule) h = h

abbrev EntryIsInWidth : Option BypassEntry → Type 0
EntryIsInWidth none = Unit
EntryIsInWidth (some entry) = IsInWidth entry.rule

entry_rule-IsInWidth : (raw : Text) → EntryIsInWidth (entry_rule raw)
unfolding entry_rule
entry_rule-IsInWidth raw =
    skipped (is_empty (without_scheme (trim raw))) (split_entry_port (without_scheme (trim raw)))
  where
    of_parts :
        (parts : Option (Text × Option ℕ))
        → EntryIsInWidth
            (elim parts [ none ↦ none | some p ↦ some (record { rule = rule_of p.0; port = p.1 }) ])
    of_parts none = tt
    of_parts (some p) = rule_of-IsInWidth p.0

    skipped :
        (b : Bool) (parts : Option (Text × Option ℕ))
        → EntryIsInWidth (
            if b then none else elim parts [
              | none ↦ none
              | some p ↦ some (record { rule = rule_of p.0; port = p.1 })
            ])
    skipped true parts = tt
    skipped false parts = of_parts parts

pub entry_rules-IsInWidth :
    (entries : List Text)
    → All (λ (entry : BypassEntry). IsInWidth entry.rule) (entry_rules entries)
unfolding entry_rules
entry_rules-IsInWidth [] = tt
entry_rules-IsInWidth (raw ∷ entries) =
    with_entry (entry_rule raw) (entry_rule-IsInWidth raw) (entry_rules-IsInWidth entries)
  where
    with_entry :
        (found : Option BypassEntry)
        → EntryIsInWidth found
        → All (λ (entry : BypassEntry). IsInWidth entry.rule) (entry_rules entries)
        → All
            (λ (entry : BypassEntry). IsInWidth entry.rule)
            (elim found [ none ↦ entry_rules entries | some entry ↦ entry ∷ entry_rules entries ])
    with_entry none h k = k
    with_entry (some entry) h k = (h, k)

-- No network rule that is read from a bypass list has a prefix longer than its address, so that
-- the shift of the mask cannot underflow.
pub parse_bypass-IsInWidth :
    (entries : List Text) (subdomains : Bool)
    → All (λ (entry : BypassEntry). IsInWidth entry.rule) (parse_bypass entries subdomains).rules
unfolding parse_bypass
parse_bypass-IsInWidth entries subdomains = entry_rules-IsInWidth entries
