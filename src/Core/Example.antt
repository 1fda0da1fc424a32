-- ===== src/Core/Example.antt =====
-- An installation that the tests run, with small stand-ins for the crates.
use saiai_client.Prelude.{
  ℕ, zero, suc, Bool, true, false, ◌||◌, if◌then◌else◌, text_eq, Option, none, some, List, [], ◌∷◌,
  ◌++◌, Text, codes,
}
use saiai_client.Prelude.Result.{ok}
use saiai_client.Core.Error.{FilePath}
use saiai_client.Core.Fs.{file, dir, Entries}
use saiai_client.Core.Config.{ProductConfig, ConfigV2Wire}
use saiai_client.Core.Config.Wire.{ConfigText}
use saiai_client.Core.Gateway.Parse.{UrlCrate}
use saiai_client.Core.Prog.{World}
use saiai_client.Core.Paths.{AppPaths}
use saiai_client.Core.Artifacts.{Crates, ProductSetupArtifacts, codex_artifacts}
use saiai_client.Core.Setup.{SetupRequest}
use saiai_client.Core.Env.{Env}

abbrev pub old_identifier : Text
old_identifier = codes "0123456789abcdef0123456789abcdef"

-- The identifiers to come
abbrev pub new_identifier : Text
new_identifier = codes "fedcba9876543210fedcba9876543210"

abbrev pub old_entry : ProductConfig
old_entry = record {
  credential_ref = codes "codex-" ++ old_identifier;
  active_generation = codes "gen-codex-" ++ old_identifier;
}

abbrev pub gateway : Text
gateway = codes "https://g/"

abbrev pub old_wire : ConfigV2Wire
old_wire = record {
  schema_version = 2;
  base_url = gateway;
  products = record { claude_entry = none; codex_entry = some old_entry };
}

abbrev pub old_text : ConfigText
old_text = record {
  schema_version = 2;
  url_text = gateway;
  claude_text = none;
  codex_text = some (record {
    credential_text = codes "codex-" ++ old_identifier;
    generation_text = codes "gen-codex-" ++ old_identifier;
  });
}

-- A url crate with three URLs
pub data ToyUrl : Type 0 where
  root page page_with_slash : ToyUrl

abbrev pub toy_text : ToyUrl → Text
toy_text root = codes "https://g/"
toy_text page = codes "https://g/p"
toy_text page_with_slash = codes "https://g/p/"

abbrev pub toy_path : ToyUrl → Text
toy_path root = codes "/"
toy_path page = codes "/p"
toy_path page_with_slash = codes "/p/"

abbrev pub toy_parse : Text → Option ToyUrl
toy_parse t =
    if text_eq t (codes "https://g") || text_eq t (codes "https://g/")
    then some root
    else if text_eq t (codes "https://g/p")
    then some page
    else if text_eq t (codes "https://g/p/")
    then some page_with_slash
    else none

abbrev pub toy_set_path : Text → ToyUrl → ToyUrl
toy_set_path t url =
    if text_eq t (codes "/p")
    then page
    else if text_eq t (codes "/p/")
    then page_with_slash
    else root

abbrev pub toy_url : UrlCrate
toy_url = record {
  Url = ToyUrl;
  parse_url = toy_parse;
  scheme = λ u. codes "https";
  host_str = λ u. some (codes "g");
  username = λ u. [];
  password = λ u. none;
  query = λ u. none;
  fragment = λ u. none;
  path = toy_path;
  set_path = toy_set_path;
  as_str = toy_text;
}

abbrev pub paths : AppPaths
paths = record {
  config_dir = codes "c" ∷ [];
  data_dir = codes "d" ∷ [];
  state_dir = codes "s" ∷ [];
}

abbrev pub crates : Crates
crates = record {
  json_is_object = λ b. some true;
  toml_parses = λ t. true;
  ca_params = λ t. none;
  key_pair = λ t. none;
  pem_block = λ t. none;
  x509 = λ t. none;
  issues_leaf = λ c k. false;
}

abbrev pub env : Env
env = record {
  paths = paths;
  crates = crates;
  uuid = λ k. new_identifier;
  to_json = λ w. ok (1 ∷ []);
  from_json = λ b. some old_text;
  url_crate = toy_url;
  utf8 = λ t. t;
  from_utf8 = λ b. some b;
  url_view = λ t. record { host_str = some (codes "g"); path_segments = none; path = codes "/" };
}

abbrev pub config_path : FilePath
config_path = codes "c" ∷ codes "config.json" ∷ []

abbrev pub installed : Entries
installed =
    (codes "c" ∷ [], dir)
    ∷ (config_path, file (0 ∷ []))
    ∷ (codes "d" ∷ [], dir)
    ∷ (codes "d" ∷ codes "credentials" ∷ [], dir)
    ∷ (
      codes "d" ∷ codes "credentials" ∷ ((codes "codex-" ++ old_identifier) ++ codes ".key") ∷ [],
      file (codes "old"),
    )
    ∷ (codes "s" ∷ [], dir)
    ∷ []

abbrev pub world_with : List Bool → World
world_with trouble = record { entries = installed; issued = 0; trouble = trouble; held = [] }

abbrev pub request : SetupRequest
request = record { base_url = gateway; credential = codes "secret" }

abbrev pub artifacts : ProductSetupArtifacts
artifacts = codex_artifacts (codes "x = 1")

-- `n` calls that succeed, and one that fails
abbrev pub fails_after : ℕ → List Bool
fails_after zero = true ∷ []
fails_after (suc n) = false ∷ fails_after n
