-- ===== src/Core/Config/Laws.antt =====
-- What the configuration's checks establish, and what its updates keep.
use saiai_client.Prelude.{
  ◌⊎◌, inl, inr, Bool, not, ◌&&◌, text_eq, is_some, ◌≡◌, ◌≢◌, ◌↔◌, refl, true, false, Option, none,
  some, Text, text_eq_iff, text_eq_refl, arith, if◌then◌else◌, to_ascii_lowercase,
}
use saiai_client.Prelude.Result.{err, ok}
use saiai_client.Core.Error.{Error, Outcome}
use saiai_client.Core.Refs.{Product, claude, codex}
use saiai_client.Core.Config.{
  ProductConfig, ConfigV2, ConfigV2Wire, get, is_empty_entries, product, check_pair, from_wire,
  config_schema_version, validate_shared_base_url,
}

abbrev pub other : Product → Product
other claude = codex
other codex = claude

-- Two references that differ in more than letter case.
abbrev pub Apart : Text → Text → Type 0
Apart a b = to_ascii_lowercase a ≢ to_ascii_lowercase b

abbrev pub AreApart : Option ProductConfig → Option ProductConfig → Type 0
AreApart (some a) (some b) =
    Apart a.credential_ref b.credential_ref × Apart a.active_generation b.active_generation
AreApart (some a) none = Unit
AreApart none b = Unit

-- Some product is configured, and two products share neither credential nor generation.
pub record IsValid (c : ConfigV2) : Type 0 where
  pub configured : is_empty_entries c.products ≡ false
  pub apart : AreApart (product c claude) (product c codex)

check_pair_sound : (a b : Option ProductConfig) → check_pair a b ≡ ok tt → AreApart a b
check_pair_sound (some a) (some b) h = (
  λ e. ground (
    arith,
    (text_eq_iff (to_ascii_lowercase a.credential_ref) (to_ascii_lowercase b.credential_ref)).1 e,
  ),
  λ e. ground (
    arith,
    (text_eq_iff (to_ascii_lowercase a.active_generation)
          (to_ascii_lowercase b.active_generation)).1
        e,
  ),
)
check_pair_sound (some a) none h = tt
check_pair_sound none b h = tt

check_pair_complete : (a b : Option ProductConfig) → AreApart a b → check_pair a b ≡ ok tt
check_pair_complete (some a) (some b) (h, k) =
    let credentials =
      text_eq_iff (to_ascii_lowercase a.credential_ref) (to_ascii_lowercase b.credential_ref) in
    let generations =
      text_eq_iff (to_ascii_lowercase a.active_generation)
        (to_ascii_lowercase b.active_generation) in
    ground (arith, credentials, generations)
check_pair_complete (some a) none h = refl
check_pair_complete none b h = refl

from_wire_guards :
    (w : ConfigV2Wire) (c : ConfigV2)
    → from_wire w ≡ ok c
    → (w.schema_version ≡ config_schema_version)
      × (is_empty_entries w.products ≡ false)
      × (check_pair (get w.products claude) (get w.products codex) ≡ ok tt)
      × (w.base_url ≡ c.base_url)
      × (w.products ≡ c.products)
unfolding from_wire
from_wire_guards w c h = (ground arith, ground arith, ground arith, ground arith, ground arith)

-- What is read from disk is a valid configuration of schema version 2 with the fields that were
-- written there.
pub from_wire_sound :
    (w : ConfigV2Wire) (c : ConfigV2)
    → from_wire w ≡ ok c
    → (w.schema_version ≡ config_schema_version)
      × (w.base_url ≡ c.base_url)
      × (w.products ≡ c.products)
      × IsValid c
from_wire_sound w c h =
    let (version, nonempty, pair, url, same) = from_wire_guards w c h in
    (
      version,
      url,
      same,
      record {
        configured = rw (← same) nonempty;
        apart = rw (← same) (check_pair_sound (get w.products claude) (get w.products codex) pair);
      },
    )

-- A valid configuration passes the checks of a deserialization.
pub from_wire_complete :
    (c : ConfigV2)
    → IsValid c
    → from_wire (record {
      schema_version = config_schema_version;
      base_url = c.base_url;
      products = c.products;
    })
      ≡ ok c
unfolding from_wire
from_wire_complete c v =
    let pair = check_pair_complete (product c claude) (product c codex) v.apart in
    ground (arith, v.configured)

passes_iff :
    (configured : Bool) (old new : Text) (e : Error) (r : Outcome (Unit {0}))
    → r ≡ (if configured && not (text_eq old new) then err e else ok tt)
    → (r ≡ ok tt) ↔ ((configured ≡ false) ⊎ (old ≡ new))
passes_iff false old new e r i = (λ h. inl refl, λ h. i)
passes_iff true old new e r i =
    (λ h. inr (ground (arith, text_eq_iff old new)), λ h. ground (arith, i, h, text_eq_refl old))

-- The gateway check passes exactly when the other product is not configured or the URL stays.
pub validate_shared_base_url_iff :
    (c : ConfigV2) (p : Product) (url : Text)
    → (validate_shared_base_url c p url ≡ ok tt)
      ↔ ((is_some (product c (other p)) ≡ false) ⊎ (c.base_url ≡ url))
unfolding validate_shared_base_url get
validate_shared_base_url_iff c claude url =
    passes_iff (is_some (product c codex)) c.base_url url _ _ refl
validate_shared_base_url_iff c codex url =
    passes_iff (is_some (product c claude)) c.base_url url _ _ refl
