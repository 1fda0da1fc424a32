-- ===== src/Core/Load/Keeps.antt =====
-- Reading and diagnosing change nothing.
use saiai_client.Prelude.{◌≡◌, refl, ℕ, Bool, true, false, Option, none, some, List}
use saiai_client.Prelude.Result.{Result, ok, err}
use saiai_client.Core.Error.{Error, FilePath}
use saiai_client.Core.Refs.{Product, claude, codex}
use saiai_client.Core.Config.{ProductConfig, ConfigV2, product}
use saiai_client.Core.Prog.{World}
use saiai_client.Core.Prog.Keeps.{
  SameTree, Invariant, Keeps, Keeps-bind, Keeps-pure, Keeps-lift, Keeps-if, Keeps-outcome_of,
  keeps_rules,
}
use saiai_client.Core.Sys.Keeps.{Keeps-symlink_metadata}
use saiai_client.Core.Files.Keeps.{Keeps-path_present_no_follow, Keeps-ensure_no_managed_symlinks}
use saiai_client.Core.Home.Keeps.{Keeps-read_optional, Keeps-validate_product_home}
use saiai_client.Core.Store.Keeps.{Keeps-load}
use saiai_client.Core.Load.{
  inspect_roots, read_config_optional, load_configured_credential, check_overlap,
  reject_gateway_credential_overlap, strict, load_config_optional_strict, parse_config, home_issues,
  generation_issues, diagnose_entry, diagnose_product, diagnose_configured_products,
  setup_status_locked, any_root_present, status_of, parsed_status, checked_status,
}
use saiai_client.Core.Env.{Env}

module _ {P : Invariant} (e : Env) where
  pub Keeps-inspect_roots : Keeps P (inspect_roots e)
  unfolding inspect_roots
  Keeps-inspect_roots = search (keeps_rules, Keeps-path_present_no_follow) depth 10

  Keeps-read_config_optional : Keeps P (read_config_optional e)
  unfolding read_config_optional
  Keeps-read_config_optional =
      search (keeps_rules, Keeps-ensure_no_managed_symlinks, Keeps-read_optional)

  Keeps-load_configured_credential : (c : ProductConfig) → Keeps P (load_configured_credential e c)
  unfolding load_configured_credential
  Keeps-load_configured_credential c =
      search (keeps_rules, Keeps-ensure_no_managed_symlinks, Keeps-load)

  Keeps-check_overlap : (c : ConfigV2) (o : Option ProductConfig) → Keeps P (check_overlap e c o)
  Keeps-check_overlap c none = Keeps-pure tt
  Keeps-check_overlap c (some entry) =
      Keeps-bind _ _ (Keeps-outcome_of _ (Keeps-load_configured_credential entry)) λ r. Keeps-lift _

  Keeps-reject_gateway_credential_overlap :
      (c : ConfigV2) → Keeps P (reject_gateway_credential_overlap e c)
  unfolding reject_gateway_credential_overlap
  Keeps-reject_gateway_credential_overlap c =
      Keeps-bind _ _ (Keeps-check_overlap c (product c claude))
        λ _. Keeps-check_overlap c (product c codex)

  Keeps-strict : (o : Option (List ℕ)) → Keeps P (strict e o)
  Keeps-strict none = Keeps-pure none
  Keeps-strict (some bytes) =
      Keeps-bind _ _ (Keeps-lift _)
        λ c. Keeps-bind _ _ (Keeps-reject_gateway_credential_overlap c) λ _. Keeps-pure _

  pub Keeps-load_config_optional_strict : Keeps P (load_config_optional_strict e)
  unfolding load_config_optional_strict
  Keeps-load_config_optional_strict =
      Keeps-bind _ _ Keeps-read_config_optional λ bytes. Keeps-strict bytes

  Keeps-home_issues : (p : Product) (home : FilePath) (b : Bool) → Keeps P (home_issues e p home b)
  Keeps-home_issues p home false = Keeps-pure _
  Keeps-home_issues p home true =
      search (keeps_rules, Keeps-ensure_no_managed_symlinks, Keeps-validate_product_home)

  Keeps-generation_issues :
      (p : Product) (generation home : FilePath) (r : Result Error Unit)
      → Keeps P (generation_issues e p generation home r)
  Keeps-generation_issues p generation home (err x) = Keeps-pure _
  Keeps-generation_issues p generation home (ok u) =
      Keeps-bind _ _ (Keeps-outcome_of _ (Keeps-symlink_metadata generation))
        λ shown. Keeps-home_issues p home _

  Keeps-diagnose_entry : (p : Product) (o : Option ProductConfig) → Keeps P (diagnose_entry e p o)
  Keeps-diagnose_entry p none = Keeps-pure _
  Keeps-diagnose_entry p (some entry) =
      Keeps-bind _ _ (Keeps-outcome_of _ (Keeps-load_configured_credential entry)) λ credential.
        Keeps-bind _ _ (Keeps-outcome_of _ (Keeps-ensure_no_managed_symlinks _ _))
          λ safe. Keeps-bind _ _ (Keeps-generation_issues p _ _ safe) λ more. Keeps-pure _

  Keeps-diagnose_product : (c : ConfigV2) (p : Product) → Keeps P (diagnose_product e c p)
  unfolding diagnose_product
  Keeps-diagnose_product c p = Keeps-diagnose_entry p (product c p)

  pub Keeps-diagnose_configured_products :
      (c : ConfigV2) → Keeps P (diagnose_configured_products e c)
  unfolding diagnose_configured_products
  Keeps-diagnose_configured_products c = search (keeps_rules, Keeps-diagnose_product)

  Keeps-any_root_present : Keeps P (any_root_present e)
  unfolding any_root_present
  Keeps-any_root_present = search (keeps_rules, Keeps-path_present_no_follow) depth 10

  Keeps-checked_status : (c : ConfigV2) (r : Result Error Unit) → Keeps P (checked_status e c r)
  Keeps-checked_status c (err x) = Keeps-pure _
  Keeps-checked_status c (ok u) =
      Keeps-bind _ _ (Keeps-diagnose_configured_products c) λ products. Keeps-pure _

  Keeps-parsed_status : (r : Result Error ConfigV2) → Keeps P (parsed_status e r)
  Keeps-parsed_status (err x) = Keeps-pure _
  Keeps-parsed_status (ok c) =
      Keeps-bind _ _ (Keeps-outcome_of _ (Keeps-reject_gateway_credential_overlap c))
        λ r. Keeps-checked_status c r

  Keeps-status_of : (b : Bool) (o : Option (List ℕ)) → Keeps P (status_of e b o)
  Keeps-status_of b none = Keeps-if b _ _ (Keeps-pure _) (Keeps-pure _)
  Keeps-status_of b (some bytes) = Keeps-parsed_status (parse_config e bytes)

  Keeps-setup_status_locked : Keeps P (setup_status_locked e)
  unfolding setup_status_locked
  Keeps-setup_status_locked =
      Keeps-bind _ _ Keeps-any_root_present
        λ b. Keeps-bind _ _ Keeps-read_config_optional λ o. Keeps-status_of b o

-- The diagnosis leaves the file tree as it is, whatever it finds and whichever system calls fail.
pub setup_status_locked-unchanged :
    (e : Env) (w : World) → (setup_status_locked e w).1.entries ≡ w.entries
setup_status_locked-unchanged e w =
    ((Keeps-setup_status_locked {P = SameTree w.entries} e).at w (record { same = refl })).same
