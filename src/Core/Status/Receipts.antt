-- ===== src/Core/Status/Receipts.antt =====
-- What the receipt of a committed transaction reports.
use saiai_client.Prelude.{
  append-nil, is_some, ◌≡◌, refl, ◌&&◌, Option, none, some, true, false, List, [], ◌∷◌, find, arith,
  if◌then◌else◌,
}
use saiai_client.Core.Refs.{Product, claude, codex, product_eq}
use saiai_client.Core.Error.{FilePath}
use saiai_client.Core.Config.{ProductConfig, ConfigV2, product, get, remove, remove_product}
use saiai_client.Core.Config.Laws.{other}
use saiai_client.Core.Paths.{AppPaths, generation_client_home}
use saiai_client.Core.Status.{
  SetupState, ProductSetupState, ProductSetupStatus, SetupStatus, is_broken,
  unconfigured_product_status, ready_product_status, preserved_product_status,
  status_from_committed_config, or_lost, committed_status_after_product_setup,
  committed_status_after_product_revoke,
}

-- The entry of a product in a status.
unfoldable pub status_for : Product → SetupStatus → Option ProductSetupStatus
status_for p s = find (λ t. product_eq t.product p) s.products

-- The diagnosis lists each product once, in the order of `Product::ALL`.
pub record IsDiagnosis (before : List ProductSetupStatus) (a b : ProductSetupStatus) : Type 0 where
  pub shape : before ≡ a ∷ b ∷ []
  pub first : a.product ≡ claude
  pub second : b.product ≡ codex

abbrev pub entry_of : Product → ProductSetupStatus → ProductSetupStatus → ProductSetupStatus
entry_of claude a b = a
entry_of codex a b = b

-- The entries that a receipt may list for a product, written out
abbrev pub ready_at : FilePath → Product → ProductSetupStatus
ready_at home p = record {
  product = p;
  state = ProductSetupState.ready;
  home = some home;
  credential_present = true;
  issues = [];
}

abbrev pub not_configured : Product → ProductSetupStatus
not_configured p = record {
  product = p;
  state = ProductSetupState.unconfigured;
  home = none;
  credential_present = false;
  issues = [];
}

-- What a receipt lists for a product that the transaction did not touch, given its diagnosis
abbrev pub kept_entry : Option ProductConfig → Product → ProductSetupStatus → ProductSetupStatus
kept_entry (some entry) p diagnosis = diagnosis
kept_entry none p diagnosis = not_configured p

kept_if_configured :
    (o : Option ProductConfig) (p : Product) (before : List ProductSetupStatus)
    (a b : ProductSetupStatus)
    → IsDiagnosis before a b
    → (if is_some o
        then or_lost p (find (λ s. product_eq s.product p) before)
        else unconfigured_product_status p)
      ≡ kept_entry o p (entry_of p a b)
unfolding product_eq unconfigured_product_status
kept_if_configured none p before a b d = refl
kept_if_configured (some entry) claude before a b d = ground (arith, d.shape, d.first, d.second)
kept_if_configured (some entry) codex before a b d = ground (arith, d.shape, d.first, d.second)

kept_entry-product :
    (o : Option ProductConfig) (p : Product) (before : List ProductSetupStatus)
    (a b : ProductSetupStatus)
    → IsDiagnosis before a b
    → (kept_entry o p (entry_of p a b)).product ≡ p
kept_entry-product none p before a b d = refl
kept_entry-product (some entry) claude before a b d = d.first
kept_entry-product (some entry) codex before a b d = d.second

preserved-kept :
    (config : ConfigV2) (p : Product) (before : List ProductSetupStatus) (a b : ProductSetupStatus)
    → IsDiagnosis before a b
    → preserved_product_status config p before ≡ kept_entry (product config p) p (entry_of p a b)
unfolding preserved_product_status
preserved-kept config p before a b d = kept_if_configured (product config p) p before a b d

-- Let the diagnosis before list each product once, in order, and let the new configuration have an
-- entry for the product that is set up. The receipt reports that configuration and lists the
-- product as ready, with its credential, without issues, and at the home in the generation of that
-- entry. The other product is listed with its diagnosis from before if it is configured, else as
-- unconfigured, without home, credential and issues. The issues of the receipt are those that the
-- other product is listed with.
pub setup_receipt :
    (paths : AppPaths) (config : ConfigV2) (selected : Product) (entry : ProductConfig)
    (before : List ProductSetupStatus) (a b : ProductSetupStatus)
    → IsDiagnosis before a b
    → product config selected ≡ some entry
    → ((committed_status_after_product_setup paths config selected before).config ≡ some config)
      × (status_for selected (committed_status_after_product_setup paths config selected before)
          ≡ some
              (ready_at (generation_client_home paths entry.active_generation selected) selected))
      × (status_for
            (other selected)
            (committed_status_after_product_setup paths config selected before)
          ≡ some (
              kept_entry
                (product config (other selected))
                (other selected)
                (entry_of (other selected) a b)))
      × ((committed_status_after_product_setup paths config selected before).issues
          ≡ (kept_entry
              (product config (other selected))
              (other selected)
              (entry_of (other selected) a b)).issues)
unfolding status_for committed_status_after_product_setup status_from_committed_config product_eq
    preserved_product_status ready_product_status unconfigured_product_status
setup_receipt paths config claude entry before a b d h =
    let kept = preserved-kept config codex before a b d in
    let listed = kept_entry-product (product config codex) codex before a b d in
    (
      refl,
      ground (arith, h),
      ground (arith, kept, listed),
      ground (arith, kept, append-nil (kept_entry (product config codex) codex b).issues),
    )
setup_receipt paths config codex entry before a b d h =
    let kept = preserved-kept config claude before a b d in
    let listed = kept_entry-product (product config claude) claude before a b d in
    (
      refl,
      ground (arith, h, kept, listed),
      ground (arith, kept, listed),
      ground (arith, kept, append-nil (kept_entry (product config claude) claude a).issues),
    )

-- Let the diagnosis before list each product once, in order. The receipt calls the whole
-- installation broken exactly if the other product is configured and its diagnosis was broken.
pub setup_receipt_state :
    (paths : AppPaths) (config : ConfigV2) (selected : Product) (before : List ProductSetupStatus)
    (a b : ProductSetupStatus)
    → IsDiagnosis before a b
    → (committed_status_after_product_setup paths config selected before).state ≡ (
        if product_eq selected claude
        then if is_some (product config codex) && is_broken b.state
          then SetupState.broken
          else SetupState.ready
        else if is_some (product config claude) && is_broken a.state
        then SetupState.broken
        else SetupState.ready)
unfolding committed_status_after_product_setup status_from_committed_config product_eq
    preserved_product_status ready_product_status unconfigured_product_status
setup_receipt_state paths config claude before a b d = ground (arith, d.shape, d.first, d.second)
setup_receipt_state paths config codex before a b d = ground (arith, d.shape, d.first, d.second)

-- What remains of a configuration without a product, when the other product is configured
abbrev pub with_only : Product → ConfigV2 → ProductConfig → ConfigV2
with_only claude config entry = record {
  base_url = config.base_url;
  products = record { claude_entry = some entry; codex_entry = none };
}
with_only codex config entry = record {
  base_url = config.base_url;
  products = record { claude_entry = none; codex_entry = some entry };
}

-- Let the diagnosis before list each product once, in order, and let the other product be
-- configured. The receipt of a revocation, which is built from the configuration without the
-- revoked product, reports a configuration with the same Gateway and the other product's entry
-- only. It lists the revoked product as unconfigured, without home, credential and issues, whatever
-- its diagnosis was, and the other with its diagnosis from before. The receipt is broken exactly
-- if that diagnosis is, and its issues are those of that diagnosis.
pub revoke_receipt :
    (config : ConfigV2) (p : Product) (entry : ProductConfig) (before : List ProductSetupStatus)
    (a b : ProductSetupStatus)
    → IsDiagnosis before a b
    → product config (other p) ≡ some entry
    → let r = committed_status_after_product_revoke (some (remove_product config p).1) before in
      (r.config ≡ some (with_only (other p) config entry))
      × (status_for p r ≡ some (not_configured p))
      × (status_for (other p) r ≡ some (entry_of (other p) a b))
      × (r.state ≡ (
          if is_broken (entry_of (other p) a b).state then SetupState.broken else SetupState.ready))
      × (r.issues ≡ (entry_of (other p) a b).issues)
unfolding status_for committed_status_after_product_revoke status_from_committed_config product_eq
    preserved_product_status unconfigured_product_status remove_product remove get
revoke_receipt config claude entry before a b d h =
    let kept = preserved-kept (remove_product config claude).1 codex before a b d in
    (
      ground (arith, h),
      refl,
      ground (arith, kept, h, d.second),
      ground (arith, kept, h),
      ground (arith, kept, h, append-nil b.issues),
    )
revoke_receipt config codex entry before a b d h =
    let kept = preserved-kept (remove_product config codex).1 claude before a b d in
    (
      ground (arith, h),
      ground (arith, kept, h, d.first),
      ground (arith, kept, h, d.first),
      ground (arith, kept, h),
      ground (arith, kept, h, append-nil a.issues),
    )
