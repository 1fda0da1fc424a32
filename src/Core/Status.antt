-- ===== src/Core/Status.antt =====
-- The status types of tools/saiai-core/src/model.rs, and the receipts of setup.rs. A message is the
-- text with `{product}` where the source formats the product of the entry.
pub mod Receipts
use saiai_client.Prelude.{
  is_some, Bool, true, false, not, ◌&&◌, Option, none, some, List, [], ◌∷◌, ◌++◌, String, map, any,
  find, is_empty, if◌then◌else◌,
}
use saiai_client.Core.Error.{FilePath}
use saiai_client.Core.Refs.{Product, claude, codex, product_eq, all_products}
use saiai_client.Core.Config.{ProductConfig, ConfigV2, product}
use saiai_client.Core.Paths.{AppPaths, generation_client_home}

pub data SetupState : Type 0 where
  uninitialized ready broken : SetupState

pub data ProductSetupState : Type 0 where
  unconfigured ready broken : ProductSetupState

pub data SetupIssueCode : Type 0 where
  config_missing config_invalid credential_missing credential_invalid generation_missing
        unsafe_managed_path product_invalid :
      SetupIssueCode

pub record SetupIssue : Type 0 where
  pub code : SetupIssueCode
  pub message : String

pub record ProductSetupStatus : Type 0 where
  pub product : Product
  pub state : ProductSetupState
  pub home : Option FilePath
  pub credential_present : Bool
  pub issues : List SetupIssue

pub record SetupStatus : Type 0 where
  pub state : SetupState
  pub config : Option ConfigV2
  pub products : List ProductSetupStatus
  pub issues : List SetupIssue

abbrev pub is_broken : ProductSetupState → Bool
is_broken unconfigured = false
is_broken ready = false
is_broken broken = true

unfoldable pub unconfigured_product_status : Product → ProductSetupStatus
unconfigured_product_status p = record {
  product = p;
  state = unconfigured;
  home = none;
  credential_present = false;
  issues = [];
}

abbrev pub home_of : AppPaths → Product → Option ProductConfig → Option FilePath
home_of paths p none = none
home_of paths p (some c) = some (generation_client_home paths c.active_generation p)

-- `ready_product_status`: the caller has just put the product into the configuration.
unfoldable pub ready_product_status : AppPaths → ConfigV2 → Product → ProductSetupStatus
ready_product_status paths config p = record {
  product = p;
  state = ready;
  home = home_of paths p (product config p);
  credential_present = true;
  issues = [];
}

abbrev pub lost_diagnostics : Product → ProductSetupStatus
lost_diagnostics p = record {
  product = p;
  state = broken;
  home = none;
  credential_present = false;
  issues =
      record {
        code = config_invalid;
        message =
            "the committed {product} status could not preserve its pre-transaction diagnostics";
      }
      ∷ [];
}

abbrev pub or_lost : Product → Option ProductSetupStatus → ProductSetupStatus
or_lost p none = lost_diagnostics p
or_lost p (some s) = s

unfoldable pub preserved_product_status :
    ConfigV2 → Product → List ProductSetupStatus → ProductSetupStatus
preserved_product_status config p diagnosed_before =
    if is_some (product config p)
    then or_lost p (find (λ s. product_eq s.product p) diagnosed_before)
    else unconfigured_product_status p

abbrev pub all_issues : List ProductSetupStatus → List SetupIssue
all_issues [] = []
all_issues (s ∷ rest) = s.issues ++ all_issues rest

unfoldable pub status_from_committed_config : ConfigV2 → List ProductSetupStatus → SetupStatus
status_from_committed_config config products = record {
  state = if any (λ s. is_broken s.state) products then broken else ready;
  config = some config;
  products = products;
  issues = all_issues products;
}

unfoldable pub uninitialized_status : SetupStatus
uninitialized_status = record {
  state = uninitialized;
  config = none;
  products = map unconfigured_product_status all_products;
  issues = [];
}

abbrev pub unreadable_product : SetupIssue → Product → ProductSetupStatus
unreadable_product issue p = record {
  product = p;
  state = broken;
  home = none;
  credential_present = false;
  issues = issue ∷ [];
}

unfoldable pub unreadable_config_status : SetupIssue → SetupStatus
unreadable_config_status issue = record {
  state = broken;
  config = none;
  products = map (unreadable_product issue) all_products;
  issues = issue ∷ [];
}

unfoldable pub committed_status_after_product_setup :
    AppPaths → ConfigV2 → Product → List ProductSetupStatus → SetupStatus
committed_status_after_product_setup paths config selected diagnosed_before =
    status_from_committed_config config (
      map
        (λ p.
          if product_eq p selected
          then ready_product_status paths config p
          else preserved_product_status config p diagnosed_before)
        all_products)

unfoldable pub committed_status_after_product_revoke :
    Option ConfigV2 → List ProductSetupStatus → SetupStatus
committed_status_after_product_revoke none diagnosed_before = uninitialized_status
committed_status_after_product_revoke (some config) diagnosed_before =
    status_from_committed_config config
      (map (λ p. preserved_product_status config p diagnosed_before) all_products)
