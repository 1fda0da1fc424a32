-- ===== src/Core/Config.antt =====
-- The committed configuration of tools/saiai-core/src/config.rs, with the checks of its
-- deserializer and the gateway check of setup.rs.
pub mod Wire
pub mod Laws
use saiai_client.Prelude.{
  is_some, ℕ, Bool, true, false, not, ◌&&◌, ◌||◌, Option, none, some, List, [], ◌∷◌, Text, text_eq,
  filter, eq_ignore_ascii_case, ◌==◌, if◌then◌else◌,
}
use saiai_client.Prelude.Result.{Result, ok, err, ◌>>=◌, ◌>>◌, refuse_if, ok_or}
use saiai_client.Core.Refs.{Product, claude, codex, product_eq, all_products}
use saiai_client.Core.Error.{
  Error, Outcome, invalid_config, product_not_configured, shared_gateway_mismatch,
}

abbrev pub config_schema_version : ℕ
config_schema_version = 2

pub record ProductConfig : Type 0 where
  pub credential_ref : Text
  pub active_generation : Text

pub record ProductEntries : Type 0 where
  pub claude_entry : Option ProductConfig
  pub codex_entry : Option ProductConfig

unfoldable pub get : ProductEntries → Product → Option ProductConfig
get e claude = e.claude_entry
get e codex = e.codex_entry

unfoldable pub is_empty_entries : ProductEntries → Bool
is_empty_entries e = not (is_some e.claude_entry) && not (is_some e.codex_entry)

unfoldable pub configured_products : ProductEntries → List Product
unfolding get
configured_products e = filter (λ p. is_some (get e p)) all_products

unfoldable pub insert : ProductEntries → Product → ProductConfig → ProductEntries
insert e claude config = record e { claude_entry = some config }
insert e codex config = record e { codex_entry = some config }

-- `take` leaves `None` behind and hands the old entry out.
unfoldable pub remove : ProductEntries → Product → Option ProductConfig × ProductEntries
remove e claude = (e.claude_entry, record e { claude_entry = none })
remove e codex = (e.codex_entry, record e { codex_entry = none })

-- A `ConfigV2` always has schema version 2. A `GatewayUrl` is its `as_str`: two URLs are equal
-- exactly if their texts are.
pub record ConfigV2 : Type 0 where
  pub base_url : Text
  pub products : ProductEntries

abbrev pub product : ConfigV2 → Product → Option ProductConfig
product c p = get c.products p

abbrev pub no_entries : ProductEntries
no_entries = record { claude_entry = none; codex_entry = none }

unfoldable pub new_config : Text → Product → ProductConfig → ConfigV2
new_config url p config = record { base_url = url; products = insert no_entries p config }

unfoldable pub insert_product : ConfigV2 → Product → ProductConfig → ConfigV2
insert_product c p config = record c { products = insert c.products p config }

unfoldable pub replace_base_url : ConfigV2 → Text → ConfigV2
replace_base_url c url = record c { base_url = url }

unfoldable pub remove_product : ConfigV2 → Product → Option ProductConfig × ConfigV2
remove_product c p = let (old, rest) = remove c.products p in (old, record c { products = rest })

-- `ConfigV2Wire`, with its fields read (Config/Wire) and the checks still to come
pub record ConfigV2Wire : Type 0 where
  pub schema_version : ℕ
  pub base_url : Text
  pub products : ProductEntries

abbrev pub check_pair : Option ProductConfig → Option ProductConfig → Outcome (Unit {0})
check_pair (some a) (some b) = do
  refuse_if (eq_ignore_ascii_case a.credential_ref b.credential_ref)
      (invalid_config "Claude and Codex must not share a credential_ref")
  refuse_if (eq_ignore_ascii_case a.active_generation b.active_generation)
      (invalid_config "Claude and Codex must not share an active_generation")
check_pair (some a) none = ok tt
check_pair none b = ok tt

-- `ConfigV2::deserialize` after `ConfigV2Wire::deserialize`
unfoldable pub from_wire : ConfigV2Wire → Outcome ConfigV2
from_wire wire = do
  refuse_if (not (wire.schema_version == config_schema_version))
      (invalid_config "unsupported schema_version")
  refuse_if (is_empty_entries wire.products)
      (invalid_config "products must contain at least one configured product")
  check_pair (get wire.products claude) (get wire.products codex)
  ok (record { base_url = wire.base_url; products = wire.products })

unfoldable pub configured_product : ConfigV2 → Product → Outcome ProductConfig
configured_product c p = ok_or (product c p) (product_not_configured p)

abbrev pub other_products : Product → List Product
other_products p = filter (λ other. not (product_eq other p)) all_products

unfoldable pub check_others : ConfigV2 → Product → Text → List Product → Outcome (Unit {0})
check_others c p url [] = ok tt
check_others c p url (other ∷ rest) =
    if is_some (product c other) && not (text_eq c.base_url url)
    then err (shared_gateway_mismatch p other)
    else check_others c p url rest

-- `validate_shared_base_url`
unfoldable pub validate_shared_base_url : ConfigV2 → Product → Text → Outcome (Unit {0})
unfolding check_others product_eq
validate_shared_base_url c p url = check_others c p url (other_products p)
