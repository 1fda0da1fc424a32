-- ===== src/Core/Load/Reread.antt =====
-- What a transaction writes to config.json is what the next one reads.
use saiai_client.Prelude.{
  ◌≡◌, refl, sym, ◌∙◌, ap, Bool, true, false, Option, none, some, List, ℕ, Text, byte_len, ltb,
  if◌then◌else◌,
}
use mathlib.Core.Path.{subst}
use saiai_client.Prelude.Result.{ok, err}
use saiai_client.Core.Error.{Error, invalid_gateway_url}
use saiai_client.Core.Refs.{credential_ref, generation_ref}
use saiai_client.Core.Gateway.Parse.{UrlCrate, parse, max_gateway_url_bytes}
use saiai_client.Core.Gateway.Stable.{UrlLaws, parse-as_str}
use saiai_client.Core.Config.{ProductConfig, ConfigV2}
use saiai_client.Core.Config.Laws.{IsValid, from_wire_complete}
use saiai_client.Core.Config.Wire.{
  parse_error, read_product, read_entry, ConfigText, gateway_text, read_wire, read_text,
  product_text, write_text,
}
use saiai_client.Core.Load.{parse_config}
use saiai_client.Core.Env.{Env}

-- The references of an entry are accepted, as those of a `CredentialRef` and a `GenerationRef` are.
abbrev pub AreAccepted : Option ProductConfig → Type 0
AreAccepted none = Unit
AreAccepted (some entry) =
    (credential_ref entry.credential_ref ≡ some entry.credential_ref)
    × (generation_ref entry.active_generation ≡ some entry.active_generation)

read_entry-product_text :
    (o : Option ProductConfig) → AreAccepted o → read_entry (product_text o) ≡ ok o
unfolding read_product
read_entry-product_text none h = refl
read_entry-product_text (some entry) (c, g) = rw (c, g) refl

read_text-accepted :
    (u : UrlCrate) (c : ConfigV2)
    → IsValid c
    → AreAccepted c.products.claude_entry
    → AreAccepted c.products.codex_entry
    → gateway_text u (parse u c.base_url) ≡ ok c.base_url
    → read_text u (write_text c) ≡ ok c
unfolding read_text read_wire
read_text-accepted u c v h k g =
    rw
      (
        g,
        read_entry-product_text c.products.claude_entry h,
        read_entry-product_text c.products.codex_entry k,
      )
      (from_wire_complete c v)

read_text-refused :
    (u : UrlCrate) (c : ConfigV2) (x : Error)
    → gateway_text u (parse u c.base_url) ≡ err x
    → read_text u (write_text c) ≡ err x
unfolding read_text read_wire
read_text-refused u c x g = rw g refl

parse_config-text :
    (e : Env) (t : ConfigText) (bytes : List ℕ)
    → e.from_json bytes ≡ some t
    → parse_config e bytes ≡ read_text e.url_crate t
unfolding parse_config
parse_config-text e t bytes h = rw (parse_config, h) refl

read_text-by_length :
    (u : UrlCrate) (c : ConfigV2) (url : u.Url) (x : Error) (b : Bool)
    → IsValid c
    → AreAccepted c.products.claude_entry
    → AreAccepted c.products.codex_entry
    → c.base_url ≡ u.as_str url
    → parse u c.base_url ≡ (if b then err x else ok url)
    → read_text u (write_text c) ≡ (if b then err parse_error else ok c)
read_text-by_length u c url x true v h k same parsed =
    read_text-refused u c parse_error (rw parsed refl)
read_text-by_length u c url x false v h k same parsed =
    read_text-accepted u c v h k (rw parsed (ap ok (sym same)))

-- Let a configuration be valid, with accepted references and a Gateway URL that was parsed, let the
-- url crate obey its documented laws, and let the JSON crate read the bytes of config.json as the
-- texts that were written. Then the configuration is read back unchanged if the text of its Gateway
-- URL has at most 4096 bytes, and is refused as invalid otherwise.
pub parse_config-write_text :
    (e : Env) (laws : UrlLaws e.url_crate) (c : ConfigV2) (bytes : List ℕ) (input : Text)
    (url : e.url_crate.Url)
    → parse e.url_crate input ≡ ok url
    → c.base_url ≡ e.url_crate.as_str url
    → IsValid c
    → AreAccepted c.products.claude_entry
    → AreAccepted c.products.codex_entry
    → e.from_json bytes ≡ some (write_text c)
    → parse_config e bytes
      ≡ (if ltb max_gateway_url_bytes (byte_len c.base_url) then err parse_error else ok c)
parse_config-write_text e laws c bytes input url h same v claude codex json =
    let (_, _, again) = parse-as_str e.url_crate laws input url h in
    parse_config-text e (write_text c) bytes json
    ∙ read_text-by_length e.url_crate c url (invalid_gateway_url "URL exceeds the 4096-byte limit")
        (ltb max_gateway_url_bytes (byte_len c.base_url)) v claude codex same
        (subst
          (λ t. parse e.url_crate t ≡ (
            if ltb max_gateway_url_bytes (byte_len t)
            then err (invalid_gateway_url "URL exceeds the 4096-byte limit")
            else ok url))
          (sym same) again)
