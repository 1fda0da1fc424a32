-- ===== src/Core/Config/Wire.antt =====
-- What serde_json reads and writes for `ConfigV2` of tools/saiai-core/src/config.rs: the texts of
-- config.json, and the `Deserialize` and `Serialize` implementations between them and the types.
use saiai_client.Prelude.{ℕ, Option, none, some, Text}
use saiai_client.Prelude.Result.{ok, err, ◌>>=◌, ok_or}
use saiai_client.Core.Error.{Error, Outcome, invalid_config}
use saiai_client.Core.Refs.{credential_ref, generation_ref}
use saiai_client.Core.Gateway.Parse.{UrlCrate, parse}
use saiai_client.Core.Config.{
  ProductConfig, ConfigV2, ConfigV2Wire, config_schema_version, from_wire,
}

pub record ProductText : Type 0 where
  pub credential_text : Text
  pub generation_text : Text

pub record ConfigText : Type 0 where
  pub schema_version : ℕ
  pub url_text : Text
  pub claude_text : Option ProductText
  pub codex_text : Option ProductText

-- serde_json's error has a text only.
abbrev pub parse_error : Error
parse_error = invalid_config "parse error"

-- `CredentialRef::deserialize`
abbrev pub read_credential_ref : Text → Outcome Text
read_credential_ref t = ok_or (credential_ref t) parse_error

-- `GenerationRef::deserialize`
abbrev pub read_generation_ref : Text → Outcome Text
read_generation_ref t = ok_or (generation_ref t) parse_error

-- `ProductConfig::deserialize`
unfoldable pub read_product : ProductText → Outcome ProductConfig
read_product t = do
  reference ← read_credential_ref t.credential_text
  generation ← read_generation_ref t.generation_text
  ok (record { credential_ref = reference; active_generation = generation })

abbrev pub read_present : Outcome ProductConfig → Outcome (Option ProductConfig)
read_present (ok entry) = ok (some entry)
read_present (err e) = err e

abbrev pub read_entry : Option ProductText → Outcome (Option ProductConfig)
read_entry none = ok none
read_entry (some t) = read_present (read_product t)

-- A `GatewayUrl` of the model is its `as_str`.
abbrev pub gateway_text : (u : UrlCrate) → Outcome u.Url → Outcome Text
gateway_text u (ok url) = ok (u.as_str url)
gateway_text u (err e) = err parse_error

-- `GatewayUrl::deserialize`
abbrev pub read_gateway : UrlCrate → Text → Outcome Text
read_gateway u t = gateway_text u (parse u t)

-- `ConfigV2Wire::deserialize`
unfoldable pub read_wire : UrlCrate → ConfigText → Outcome ConfigV2Wire
read_wire u t = do
  url ← read_gateway u t.url_text
  claude ← read_entry t.claude_text
  codex ← read_entry t.codex_text
  ok (record {
    schema_version = t.schema_version;
    base_url = url;
    products = record { claude_entry = claude; codex_entry = codex };
  })

-- `ConfigV2::deserialize`
unfoldable pub read_text : UrlCrate → ConfigText → Outcome ConfigV2
read_text u t = do wire ← read_wire u t; from_wire wire

abbrev pub product_text : Option ProductConfig → Option ProductText
product_text none = none
product_text (some entry) =
    some
      (record { credential_text = entry.credential_ref; generation_text = entry.active_generation })

-- `Serialize` of the three fields, each reference and the URL by its `as_str`
abbrev pub write_text : ConfigV2 → ConfigText
write_text c = record {
  schema_version = config_schema_version;
  url_text = c.base_url;
  claude_text = product_text c.products.claude_entry;
  codex_text = product_text c.products.codex_entry;
}
