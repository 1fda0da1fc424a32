-- ===== src/Core/Runs.antt =====
-- The definitions that a run of a setup unfolds.
use saiai_client.Core.Refs.{
  product_eq, is_portable_reference_component, credential_ref, generation_ref,
  generated_identifier_suffix, generated_credential_reference, generated_generation_reference,
  generated_revoke_quarantine_name,
}
use saiai_client.Core.Gateway.{
  hex_value, decoded_at, percent_loop, percent_decoded_eq, path_value_eq, has_credential_component,
}
use saiai_client.Core.Credential.{secret_string}
use saiai_client.Core.Config.Wire.{read_product, read_wire, read_text}
use saiai_client.Core.Gateway.Parse.{normalized_path, check_input, check_url, parse}
use saiai_client.Core.Config.{
  get, is_empty_entries, configured_products, insert, remove, new_config, insert_product,
  replace_base_url, remove_product, from_wire, configured_product, check_others,
  validate_shared_base_url,
}
use saiai_client.Core.Fs.{
  path_eq, strip_path, under, lookup, put, delete, delete_tree, relocate, move, children,
}
use saiai_client.Core.Prog.{pure, raise, lift, outcome_of, best_effort, undone_by, ◌>>=◌, map_err}
use saiai_client.Core.Sys.{
  system_call, tree, set_tree, symlink_metadata, read, read_dir, make_dirs, create_dir_all,
  create_new, write_all, rename, remove_file, remove_dir, remove_dir_all, new_v4, open_or_create,
}
use saiai_client.Core.Files.{
  path_present_no_follow, reject_symlink_if_present, validate_directory_if_present,
  ensure_private_dir, inspect_managed_component, inspect_components, ensure_no_managed_symlinks,
  write_and_replace, atomic_write_private, removal_kind, remove_dir_if_exists,
  promote_new_directory,
}
use saiai_client.Core.Paths.{
  normalize_components, normalize_app_dir, app_dirs_overlap, from_app_dirs,
}
use saiai_client.Core.Artifacts.{
  artifacts_product, validate_json_object, validate_ca_pair, validate_artifacts, artifact_files,
}
use saiai_client.Core.Lease.{
  validate_opened_lock_file, open_existing, contended, probe_opened, try_acquire_existing_path,
  try_acquire_existing, release_and_remove,
}
use saiai_client.Core.Store.{save, load, delete_credential}
use saiai_client.Core.Home.{
  read_managed, read_optional, read_utf8, write_files, write_product_home, read_artifacts,
  validate_product_home,
}
use saiai_client.Core.Status.{
  unconfigured_product_status, ready_product_status, preserved_product_status,
  status_from_committed_config, uninitialized_status, unreadable_config_status,
  committed_status_after_product_setup, committed_status_after_product_revoke,
}
use saiai_client.Core.Load.{
  any_root, inspect_roots, read_config_optional, parse_config, serialize_config,
  load_configured_credential, reject_gateway_credential_overlap, load_config_optional_strict,
  load_config, load_credential, client_home, diagnose_product, diagnose_configured_products,
  any_root_present, setup_status_locked,
}
use saiai_client.Core.Transaction.{
  open_private_lock_file, acquire_transaction_lock, transaction_state_root_contains_only_lock,
  roots_are_clean_for_first_setup, cleanup_new_transaction_state_root, failed_setup_root_cleanup,
  create_stage, cleanup_generation, cleanup_staging,
}
use saiai_client.Core.Setup.{
  next_config, admit_setup, stage_product, commit_config, after_commit, publish, install,
  setup_product,
}
use saiai_client.Core.Error.{is_not_found}

-- Unfold this to run the code.
unfoldable pub run_code : Unit {0}
unfolding product_eq is_portable_reference_component credential_ref generation_ref
    generated_identifier_suffix generated_credential_reference generated_generation_reference
    generated_revoke_quarantine_name hex_value decoded_at percent_loop percent_decoded_eq
    path_value_eq has_credential_component secret_string get is_empty_entries configured_products
    insert remove new_config insert_product replace_base_url remove_product from_wire read_product
    read_wire read_text normalized_path check_input check_url parse configured_product check_others
    validate_shared_base_url path_eq strip_path under lookup put delete delete_tree relocate move
    children pure raise lift outcome_of best_effort undone_by ◌>>=◌ map_err system_call tree
    set_tree symlink_metadata read read_dir make_dirs create_dir_all create_new write_all rename
    remove_file remove_dir remove_dir_all new_v4 open_or_create path_present_no_follow
    reject_symlink_if_present validate_directory_if_present ensure_private_dir
    inspect_managed_component inspect_components ensure_no_managed_symlinks write_and_replace
    atomic_write_private removal_kind remove_dir_if_exists promote_new_directory
    normalize_components normalize_app_dir app_dirs_overlap from_app_dirs artifacts_product
    validate_json_object validate_ca_pair validate_artifacts artifact_files
    validate_opened_lock_file open_existing contended probe_opened try_acquire_existing_path
    try_acquire_existing release_and_remove save load delete_credential read_managed read_optional
    read_utf8 write_files write_product_home read_artifacts validate_product_home
    unconfigured_product_status ready_product_status preserved_product_status
    status_from_committed_config uninitialized_status unreadable_config_status
    committed_status_after_product_setup committed_status_after_product_revoke any_root
    inspect_roots read_config_optional parse_config serialize_config load_configured_credential
    reject_gateway_credential_overlap load_config_optional_strict load_config load_credential
    client_home diagnose_product diagnose_configured_products any_root_present setup_status_locked
    open_private_lock_file acquire_transaction_lock transaction_state_root_contains_only_lock
    roots_are_clean_for_first_setup cleanup_new_transaction_state_root failed_setup_root_cleanup
    create_stage cleanup_generation cleanup_staging next_config admit_setup stage_product
    commit_config after_commit publish install setup_product is_not_found
run_code = tt
