-- ===== src/Core/Load.antt =====
-- Reading and diagnosing the committed state: the reading half of tools/saiai-core/src/setup.rs.
pub mod Reread
pub mod Keeps
use saiai_client.Prelude.{
  ℕ, Bool, true, false, not, ◌&&◌, ◌||◌, Option, none, some, List, [], ◌∷◌, ◌++◌, Text, String, any,
  map, is_empty, if◌then◌else◌,
}
use saiai_client.Prelude.Result.{Result, ok, err, ok_or, is_ok}
use saiai_client.Core.Error.{Error, Outcome, FilePath, IoKind, is_not_found, invalid_config}
use saiai_client.Core.Refs.{Product, claude, codex, all_products}
use saiai_client.Core.Fs.{Node}
use saiai_client.Core.Config.Wire.{parse_error, read_text, write_text}
use saiai_client.Core.Config.{
  ProductConfig, ConfigV2, product, configured_product, validate_shared_base_url,
}
use saiai_client.Core.Gateway.{has_credential_component}
use saiai_client.Core.Prog.{Prog, pure, raise, lift, outcome_of, ◌>>=◌, ◌>>◌}
use saiai_client.Core.Sys.{symlink_metadata}
use saiai_client.Core.Files.{Action, is_dir, path_present_no_follow, ensure_no_managed_symlinks}
use saiai_client.Core.Paths.{AppPaths, config_file, generation_dir, generation_client_home}
use saiai_client.Core.Home.{read_optional, validate_product_home}
use saiai_client.Core.Store.{credential_path, load}
use saiai_client.Core.Status.{
  SetupIssue, SetupIssueCode, credential_missing, credential_invalid, generation_missing,
  unsafe_managed_path, product_invalid, config_missing, config_invalid, ProductSetupStatus,
  SetupStatus, unconfigured_product_status, uninitialized_status, unreadable_config_status,
  status_from_committed_config, ProductSetupState,
}
use saiai_client.Core.Env.{Env}

pub record ManagedRootPresence : Type 0 where
  pub config : Bool
  pub app_data : Bool
  pub state : Bool

unfoldable pub any_root : ManagedRootPresence → Bool
any_root r = r.config || (r.app_data || r.state)

abbrev pub unsafe_gateway_credential_message : String
unsafe_gateway_credential_message =
    "the Gateway URL contains a stored API key; run `saiai revoke --all` to reset this V2 state"

abbrev pub issue : SetupIssueCode → String → SetupIssue
issue code message = record { code = code; message = message }

-- The first `match` of `diagnose_product`
abbrev pub credential_issues : Result Error Text → List SetupIssue
credential_issues (ok secret) = []
credential_issues (err e) =
    if is_not_found e
    then issue credential_missing "the {product} credential referenced by config.json is missing"
      ∷ []
    else issue credential_invalid "the stored {product} credential is invalid" ∷ []

abbrev pub is_credential_issue : SetupIssueCode → Bool
is_credential_issue credential_missing = true
is_credential_issue credential_invalid = true
is_credential_issue config_missing = false
is_credential_issue config_invalid = false
is_credential_issue generation_missing = false
is_credential_issue unsafe_managed_path = false
is_credential_issue product_invalid = false

abbrev pub is_dir_result : Result IoKind Node → Bool
is_dir_result (ok n) = is_dir n
is_dir_result (err k) = false

module _ (e : Env) where
  unfoldable pub inspect_roots : Action ManagedRootPresence
  inspect_roots = do
    c ← path_present_no_follow e.paths.config_dir
    d ← path_present_no_follow e.paths.data_dir
    s ← path_present_no_follow e.paths.state_dir
    pure (record { config = c; app_data = d; state = s })

  unfoldable pub read_config_optional : Action (Option (List ℕ))
  read_config_optional = do
    ensure_no_managed_symlinks e.paths.config_dir (config_file e.paths)
    read_optional (config_file e.paths)

  unfoldable pub parse_config : List ℕ → Outcome ConfigV2
  parse_config bytes = elim (e.from_json bytes) [
    | none ↦ err parse_error
    | some t ↦ read_text e.url_crate t
  ]

  unfoldable pub serialize_config : ConfigV2 → Outcome (List ℕ)
  serialize_config config = e.to_json (write_text config)

  unfoldable pub load_configured_credential : ProductConfig → Action Text
  load_configured_credential config = do
    ensure_no_managed_symlinks e.paths.data_dir (credential_path e config.credential_ref)
    load e config.credential_ref

  abbrev pub refuse_overlap : ConfigV2 → Result Error Text → Outcome (Unit {0})
  refuse_overlap config (err error) = ok tt
  refuse_overlap config (ok secret) =
      if has_credential_component (e.url_view config.base_url) secret (e.utf8 secret)
      then err (invalid_config unsafe_gateway_credential_message)
      else ok tt

  abbrev pub check_overlap : ConfigV2 → Option ProductConfig → Action (Unit {0})
  check_overlap config none = pure tt
  check_overlap config (some entry) = do
    r ← outcome_of (load_configured_credential entry)
    lift (refuse_overlap config r)

  unfoldable pub reject_gateway_credential_overlap : ConfigV2 → Action (Unit {0})
  reject_gateway_credential_overlap config = do
    check_overlap config (product config claude)
    check_overlap config (product config codex)

  abbrev pub strict : Option (List ℕ) → Action (Option ConfigV2)
  strict none = pure none
  strict (some bytes) = do
    config ← lift (parse_config bytes)
    reject_gateway_credential_overlap config
    pure (some config)

  unfoldable pub load_config_optional_strict : Action (Option ConfigV2)
  load_config_optional_strict = do bytes ← read_config_optional; strict bytes

  unfoldable pub load_config : Action ConfigV2
  load_config = do
    found ← read_config_optional
    bytes ←
        lift (ok_or found (invalid_config "setup is not complete because config.json is missing"))
    config ← lift (parse_config bytes)
    reject_gateway_credential_overlap config
    pure config

  unfoldable pub load_credential : Product → Action Text
  load_credential p = do
    config ← load_config
    entry ← lift (configured_product config p)
    load_configured_credential entry

  unfoldable pub client_home : Product → Action FilePath
  client_home p = do
    config ← load_config
    entry ← lift (configured_product config p)
    pure (generation_client_home e.paths entry.active_generation p)

  -- The second `match` of `diagnose_product`
  abbrev pub home_issues : Product → FilePath → Bool → Action (List SetupIssue)
  home_issues p home false =
      pure (issue generation_missing "the configured {product} generation is missing" ∷ [])
  home_issues p home true = do
    r ←
        outcome_of
          (do ensure_no_managed_symlinks e.paths.data_dir home; validate_product_home e home p)
    pure (
        if is_ok r
        then []
        else issue product_invalid "the configured {product} client state is invalid" ∷ [])

  abbrev pub generation_issues :
      Product → FilePath → FilePath → Result Error (Unit {0}) → Action (List SetupIssue)
  generation_issues p generation home (err error) =
      pure (issue unsafe_managed_path "the {product} generation uses an unsafe V2-owned path" ∷ [])
  generation_issues p generation home (ok u) = do
    shown ← outcome_of (symlink_metadata generation)
    home_issues p home (is_dir_result shown)

  abbrev pub diagnosed : Product → FilePath → List SetupIssue → Bool → ProductSetupStatus
  diagnosed p home issues credential_present = record {
    product = p;
    state = if is_empty issues then ProductSetupState.ready else ProductSetupState.broken;
    home = some home;
    credential_present = credential_present;
    issues = issues;
  }

  abbrev pub diagnose_entry : Product → Option ProductConfig → Action ProductSetupStatus
  diagnose_entry p none = pure (unconfigured_product_status p)
  diagnose_entry p (some entry) = do
    credential ← outcome_of (load_configured_credential entry)
    safe ← outcome_of (
        ensure_no_managed_symlinks e.paths.data_dir
          (generation_dir e.paths entry.active_generation))
    more ←
        generation_issues p (generation_dir e.paths entry.active_generation)
          (generation_client_home e.paths entry.active_generation p) safe
    pure (
        diagnosed p (generation_client_home e.paths entry.active_generation p)
          (credential_issues credential ++ more)
          (not (any (λ i. is_credential_issue i.code) (credential_issues credential))))

  unfoldable pub diagnose_product : ConfigV2 → Product → Action ProductSetupStatus
  diagnose_product config p = diagnose_entry p (product config p)

  unfoldable pub diagnose_configured_products : ConfigV2 → Action (List ProductSetupStatus)
  diagnose_configured_products config = do
    a ← diagnose_product config claude
    b ← diagnose_product config codex
    pure (a ∷ b ∷ [])

  abbrev pub checked_status : ConfigV2 → Result Error (Unit {0}) → Action SetupStatus
  checked_status config (err error) =
      pure (unreadable_config_status (issue config_invalid unsafe_gateway_credential_message))
  checked_status config (ok u) = do
    products ← diagnose_configured_products config
    pure (status_from_committed_config config products)

  abbrev pub parsed_status : Outcome ConfigV2 → Action SetupStatus
  parsed_status (err error) = pure (
      unreadable_config_status (
        issue config_invalid
          "config.json is invalid or uses an unsupported schema; older V2 state is not migrated, so run `saiai revoke --all` to reset it"))
  parsed_status (ok config) = do
    r ← outcome_of (reject_gateway_credential_overlap config)
    checked_status config r

  abbrev pub status_of : Bool → Option (List ℕ) → Action SetupStatus
  status_of any_state none =
      if any_state
      then pure (
          unreadable_config_status (
            issue config_missing
              "V2-owned files exist, but config.json is missing; run `saiai revoke --all` to reset them"))
      else pure uninitialized_status
  status_of any_state (some bytes) = parsed_status (parse_config bytes)

  -- `||` looks at the next root only if those before it are absent.
  unfoldable pub any_root_present : Action Bool
  any_root_present = do
    c ← path_present_no_follow e.paths.config_dir
    if c then pure true else (do
      d ← path_present_no_follow e.paths.data_dir
      if d then pure true else path_present_no_follow e.paths.state_dir)

  unfoldable pub setup_status_locked : Action SetupStatus
  setup_status_locked = do
    any_state ← any_root_present
    config_bytes ← read_config_optional
    status_of any_state config_bytes
