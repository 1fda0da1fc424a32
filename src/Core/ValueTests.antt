-- ===== src/Core/ValueTests.antt =====
-- The theorems on values at inputs that meet their conditions.
use saiai_client.Prelude.{
  is_empty, ◌⊎◌, ◌≤◌, ◌≡◌, ◌↔◌, refl, true, false, none, some, List, [], ◌∷◌, ◌++◌, Text, codes,
  All, any, byte_len, is_whitespace, is_control, is_some, trim, split, text_eq,
}
use saiai_client.Prelude.Result.{ok}
use saiai_client.Core.Refs.{
  claude, codex, generated_identifier_suffix, generation_prefix, credential_prefix,
  generated_credential_reference, generated_generation_reference, generation_directory, lease_file,
  is_portable_reference_component, valid_start,
}
use saiai_client.Core.Refs.Accepts.{credential_ref_sound, IsPathSafe}
use saiai_client.Core.Refs.Generated.{recognise_generated, generation_names_disjoint}
use saiai_client.Core.Credential.{secret_string, secret_string_iff, max_secret_bytes}
use saiai_client.Core.Gateway.{percent_loop, percent_decoded_eq, UrlView, without_slash}
use saiai_client.Core.Gateway.Decode.{percent_decode, percent_loop_total, percent_decoded_eq_iff}
use saiai_client.Core.Gateway.Overlap.{has_credential_component_sound, Hides, OptAll, LabelDiffers}
use saiai_client.Core.Gateway.Parse.{
  check_input, check_url, UrlCrate, parse, parse_sound, IsPlainUrl, normalized_path,
  max_gateway_url_bytes,
}
use saiai_client.Core.Config.{
  ProductConfig, ConfigV2, remove_product, validate_shared_base_url, config_schema_version, product,
}
use saiai_client.Core.Config.Laws.{IsValid, from_wire_sound, validate_shared_base_url_iff, other}
use saiai_client.Core.Paths.{generation_client_home, root_dir, cur_dir, normal}
use saiai_client.Core.Paths.Disjoint.{AreDisjoint, from_app_dirs-AreDisjoint}
use saiai_client.Core.Status.{
  SetupStatus, ProductSetupStatus, ProductSetupState, SetupState,
  committed_status_after_product_setup, committed_status_after_product_revoke,
}
use saiai_client.Core.Status.Receipts.{
  ready_at, not_configured, status_for, IsDiagnosis, setup_receipt, setup_receipt_state,
  revoke_receipt,
}
use saiai_client.Core.Env.{Env}
use saiai_client.Core.Config.Wire.{write_text}
use saiai_client.Core.Load.{parse_config}
use saiai_client.Core.Load.Reread.{parse_config-write_text}
use saiai_client.Core.Gateway.Stable.{
  UrlLaws, HasNormalPath, without_slashes, or_root, parse-as_str,
}
use saiai_client.Core.Example.{
  env, ToyUrl, root, page, page_with_slash, toy_text, toy_path, toy_parse, toy_set_path, toy_url,
}
use saiai_client.Core.Runs.{run_code}
use saiai_client.Core.Example.{old_identifier, new_identifier, old_entry, old_wire, gateway, paths}

abbrev old_config : ConfigV2
old_config = record { base_url = gateway; products = old_wire.products }

from_wire_sound_example :
    (old_wire.schema_version ≡ config_schema_version)
    × (old_wire.base_url ≡ old_config.base_url)
    × (old_wire.products ≡ old_config.products)
    × IsValid old_config
unfolding run_code
from_wire_sound_example = from_wire_sound old_wire old_config refl

abbrev new_entry : ProductConfig
new_entry = record {
  credential_ref = codes "claude-" ++ new_identifier;
  active_generation = codes "gen-claude-" ++ new_identifier;
}

abbrev both : ConfigV2
both = record {
  base_url = gateway;
  products = record { claude_entry = some new_entry; codex_entry = some old_entry };
}

both-IsValid : IsValid both
unfolding run_code
both-IsValid = record { configured = refl; apart = (λ e. cc, λ e. cc) }

validate_shared_base_url_iff_example :
    (validate_shared_base_url both claude (codes "https://h") ≡ ok tt)
    ↔ ((is_some (product both (other claude)) ≡ false) ⊎ (both.base_url ≡ codes "https://h"))
validate_shared_base_url_iff_example = validate_shared_base_url_iff both claude (codes "https://h")

credential_ref_sound_example :
    (old_entry.credential_ref ≡ old_entry.credential_ref)
    × (1 ≤ byte_len old_entry.credential_ref)
    × (byte_len old_entry.credential_ref ≤ 64)
    × All IsPathSafe old_entry.credential_ref
    × (valid_start old_entry.credential_ref ≡ true)
    × (is_portable_reference_component old_entry.credential_ref ≡ true)
unfolding run_code
credential_ref_sound_example =
    credential_ref_sound old_entry.credential_ref old_entry.credential_ref refl

recognise_generated_example :
    (generated_credential_reference codex
        ((credential_prefix codex ++ old_identifier) ++ codes ".key")
      ≡ some (credential_prefix codex ++ old_identifier))
    × (generated_generation_reference codex
          (generation_prefix codex ++ old_identifier)
          generation_directory
        ≡ some (generation_prefix codex ++ old_identifier))
    × (generated_generation_reference codex
          ((generation_prefix codex ++ old_identifier) ++ codes ".lock")
          lease_file
        ≡ some (generation_prefix codex ++ old_identifier))
recognise_generated_example =
    recognise_generated codex old_identifier (record { size = refl; digits = refl })

generation_names_disjoint_example :
    generated_identifier_suffix old_entry.active_generation (generation_prefix claude) ≡ false
unfolding run_code
generation_names_disjoint_example =
    generation_names_disjoint codex claude old_entry.active_generation (λ e. cc) refl

secret_string_iff_example : (secret_string (codes "sk-1") ≡ ok (codes "sk-1")) ↔ (
    (codes "sk-1" ≡ codes "sk-1")
    × (1 ≤ byte_len (codes "sk-1"))
    × (byte_len (codes "sk-1") ≤ max_secret_bytes)
    × (trim (codes "sk-1") ≡ codes "sk-1")
    × (any is_control (codes "sk-1") ≡ false))
secret_string_iff_example = secret_string_iff (codes "sk-1") (codes "sk-1")

percent_loop_total_example :
    percent_loop 6 (codes "%6Bey") (codes "key") 0 0
    ≡ some (text_eq (percent_decode (codes "%6Bey")) (codes "key"))
percent_loop_total_example = percent_loop_total (codes "%6Bey") (codes "key")

percent_decoded_eq_iff_example :
    (percent_decoded_eq (codes "%6Bey") (codes "key") ≡ true)
    ↔ (percent_decode (codes "%6Bey") ≡ codes "key")
percent_decoded_eq_iff_example = percent_decoded_eq_iff (codes "%6Bey") (codes "key")

abbrev view : UrlView
view = record {
  host_str = some (codes "api.host");
  path_segments = some (codes "v1" ∷ []);
  path = codes "/v1";
}

has_credential_component_sound_example :
    OptAll (λ host. All (LabelDiffers (codes "key")) (split b'.' host)) view.host_str
    × OptAll (All (Hides (codes "key"))) view.path_segments
    × Hides (codes "key") view.path
    × Hides (codes "key") (without_slash view.path)
unfolding run_code
has_credential_component_sound_example =
    has_credential_component_sound view (codes "key") (codes "key") refl

-- A url crate whose URLs are their paths
abbrev one_url : UrlCrate
one_url = record {
  Url = Text;
  parse_url = λ t. some (codes "/v1/");
  scheme = λ u. codes "https";
  host_str = λ u. some (codes "g");
  username = λ u. [];
  password = λ u. none;
  query = λ u. none;
  fragment = λ u. none;
  path = λ u. u;
  set_path = λ p u. p;
  as_str = λ u. codes "https://g" ++ u;
}

parse_sound_example :
    (raw : Text) × (one_url.parse_url (codes "https://g/v1/") ≡ some raw)
    × IsPlainUrl one_url raw
    × (codes "/v1" ≡ normalized_path raw)
    × (1 ≤ byte_len (codes "https://g/v1/"))
    × (byte_len (codes "https://g/v1/") ≤ max_gateway_url_bytes)
    × (any is_whitespace (codes "https://g/v1/") ≡ false)
unfolding normalized_path parse check_input check_url
parse_sound_example = parse_sound one_url (codes "https://g/v1/") (codes "/v1") refl

from_app_dirs-AreDisjoint_example : AreDisjoint paths
unfolding run_code
from_app_dirs-AreDisjoint_example =
    from_app_dirs-AreDisjoint (root_dir ∷ normal (codes "c") ∷ [])
      (root_dir ∷ normal (codes "d") ∷ []) (root_dir ∷ cur_dir ∷ normal (codes "s") ∷ []) paths refl

abbrev before_claude : ProductSetupStatus
before_claude = record {
  product = claude;
  state = ProductSetupState.broken;
  home = none;
  credential_present = false;
  issues = [];
}

abbrev before_codex : ProductSetupStatus
before_codex = record {
  product = codex;
  state = ProductSetupState.ready;
  home = none;
  credential_present = true;
  issues = [];
}

abbrev diagnosis : List ProductSetupStatus
diagnosis = before_claude ∷ before_codex ∷ []

diagnosis-IsDiagnosis : IsDiagnosis diagnosis before_claude before_codex
diagnosis-IsDiagnosis = record { shape = refl; first = refl; second = refl }

setup_receipt_example :
    ((committed_status_after_product_setup paths both codex diagnosis).config ≡ some both)
    × (status_for codex (committed_status_after_product_setup paths both codex diagnosis)
        ≡ some (ready_at (generation_client_home paths old_entry.active_generation codex) codex))
    × (status_for claude (committed_status_after_product_setup paths both codex diagnosis)
        ≡ some before_claude)
    × ((committed_status_after_product_setup paths both codex diagnosis).issues ≡ [])
unfolding run_code
setup_receipt_example =
    setup_receipt paths both codex old_entry diagnosis before_claude before_codex
      diagnosis-IsDiagnosis refl

setup_receipt_state_example :
    (committed_status_after_product_setup paths both codex diagnosis).state ≡ SetupState.broken
unfolding run_code
setup_receipt_state_example =
    setup_receipt_state paths both codex diagnosis before_claude before_codex diagnosis-IsDiagnosis

abbrev receipt_without_claude : SetupStatus
receipt_without_claude =
    committed_status_after_product_revoke (some (remove_product both claude).1) diagnosis

revoke_receipt_example :
    (receipt_without_claude.config ≡ some old_config)
    × (status_for claude receipt_without_claude ≡ some (not_configured claude))
    × (status_for codex receipt_without_claude ≡ some before_codex)
    × (receipt_without_claude.state ≡ SetupState.ready)
    × (receipt_without_claude.issues ≡ [])
unfolding run_code
revoke_receipt_example =
    revoke_receipt both claude old_entry diagnosis before_claude before_codex diagnosis-IsDiagnosis
      refl

toy_url-UrlLaws : UrlLaws toy_url
toy_url-UrlLaws = record {
  spelled = λ url p. toy_spelled url;
  solid = λ url p. toy_solid url;
  reparsed = λ url p. toy_reparsed url;
  same_scheme = λ t url. refl;
  same_host = λ t url. refl;
  same_username = λ t url. refl;
  same_password = λ t url. refl;
  same_query = λ t url. refl;
  same_fragment = λ t url. refl;
  same_path = λ url p. toy_same url;
  trimmed_path = λ url p. toy_trimmed url;
}
  where
    toy_spelled : (url : ToyUrl) → is_empty (toy_text url) ≡ false
    toy_spelled root = refl
    toy_spelled page = refl
    toy_spelled page_with_slash = refl

    toy_solid : (url : ToyUrl) → any is_whitespace (toy_text url) ≡ false
    toy_solid root = refl
    toy_solid page = refl
    toy_solid page_with_slash = refl

    toy_reparsed : (url : ToyUrl) → toy_parse (toy_text url) ≡ some url
    toy_reparsed root = refl
    toy_reparsed page = refl
    toy_reparsed page_with_slash = refl

    toy_same : (url : ToyUrl) → toy_set_path (toy_path url) url ≡ url
    toy_same root = refl
    toy_same page = refl
    toy_same page_with_slash = refl

    toy_trimmed :
        (url : ToyUrl)
        → toy_path (toy_set_path (without_slashes (toy_path url)) url)
          ≡ or_root (without_slashes (toy_path url))
    toy_trimmed root = refl
    toy_trimmed page = refl
    toy_trimmed page_with_slash = refl

parse-as_str_example :
    IsPlainUrl toy_url page
    × HasNormalPath (codes "/p")
    × (parse toy_url (codes "https://g/p") ≡ ok page)
unfolding run_code
parse-as_str_example = parse-as_str toy_url toy_url-UrlLaws (codes "https://g/p/") page refl

-- The JSON crate hands back what was written.
abbrev reading_env : Env
reading_env = record env { from_json = λ b. some (write_text both) }

parse_config-write_text_example : parse_config reading_env (1 ∷ []) ≡ ok both
unfolding run_code
parse_config-write_text_example =
    parse_config-write_text reading_env toy_url-UrlLaws both (1 ∷ []) (codes "https://g") root refl
      refl both-IsValid (refl, refl) (refl, refl) refl
