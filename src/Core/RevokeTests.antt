-- ===== src/Core/RevokeTests.antt =====
-- A revocation in a small installation whose data root also holds a file of the user.
use saiai_client.Prelude.{◌++◌, ◌≡◌, refl, none, some, [], ◌∷◌, codes, arith}
use saiai_client.Core.Refs.{claude, codex}
use saiai_client.Core.Error.{FilePath}
use saiai_client.Core.Fs.{file, lookup}
use saiai_client.Core.Config.{ConfigV2}
use saiai_client.Core.Prog.{World}
use saiai_client.Core.Files.Keeps.{Avoids}
use saiai_client.Core.Setup.{previous_entry}
use saiai_client.Prelude.{true}
use saiai_client.Core.Status.{uninitialized_status}
use saiai_client.Core.Revoke.{revoke_configured, after_revocation}
use saiai_client.Core.Revoke.Quarantine.{new_quarantine}
use saiai_client.Core.Revoke.Total.{Reports, after_revocation-Reports}
use saiai_client.Core.Revoke.Spares.{Elsewhere}
use saiai_client.Core.Revoke.Apart.{revoke_configured-spares}
use saiai_client.Core.Runs.{run_code}
use saiai_client.Core.Revoke.{all_targets}
use saiai_client.Core.Revoke.Full.{
  product_for_lease_path, take_leases, acquire_all_existing_generation_leases,
  remove_all_roots_with_lock, revoke_all, revoke,
}
use saiai_client.Core.RunTests.{shorter-differs}
use saiai_client.Core.Example.{
  env, gateway, world_with, fails_after, new_identifier, old_entry, installed,
}
use saiai_client.Core.Store.{credential_path}
use saiai_client.Core.Example.{config_path}
use saiai_client.Core.Revoke.{
  remove_config_file_for_product_commit, remove_regular_file, remove_empty_real_directory,
  prune_directories, remove_previous, release_leases, prune_empty_shared_dirs, acquire_leases,
  move_all, commit_revocation, remove_resources,
}
use saiai_client.Core.Revoke.Resources.{
  list_managed_directory, collect, quarantines_in, insert_credentials, insert_generations,
  check_credentials, check_generations, resources_of, discover_product_resources,
}
use saiai_client.Core.Revoke.Quarantine.{
  restore_entry, restore_all, retain_roots, rollback, drop_armed, move_path, purge,
}

abbrev notes : FilePath
notes = codes "d" ∷ codes "notes" ∷ []

abbrev config : ConfigV2
config = record {
  base_url = gateway;
  products = record { claude_entry = none; codex_entry = some old_entry };
}

abbrev crowded : World
crowded = record (world_with (fails_after 30)) { entries = (notes, file (7 ∷ [])) ∷ installed }

notes-Avoids : Avoids env.uuid 0 notes
notes-Avoids k h before after = (
  shorter-differs (codes "d") before new_identifier after (omega arith),
  (shorter-differs (codes "notes") before new_identifier after (omega arith), tt),
)

notes-Elsewhere : Elsewhere env codex (previous_entry (some config) codex) notes
unfolding run_code
notes-Elsewhere = record {
  credential_apart = λ r h. refl;
  generation_apart = λ g h. (refl, refl, refl, refl);
  quarantine_apart = λ name h. (refl, refl, refl, refl);
  config_apart = refl;
  lock_apart = refl;
  shared_apart = (refl, (refl, (refl, (refl, (refl, (refl, tt))))));
  roots_apart = (refl, (refl, (refl, tt)));
}

revoke_configured-spares_example :
    lookup notes (revoke_configured env codex (some config) [] crowded).1.entries
    ≡ some (file (7 ∷ []))
unfolding run_code
revoke_configured-spares_example =
    revoke_configured-spares notes (file (7 ∷ [])) env codex (some config) [] crowded refl
      notes-Avoids notes-Elsewhere

after_revocation-Reports_example :
    Reports codex uninitialized_status
      (after_revocation env codex uninitialized_status new_quarantine [] [] true crowded).0
after_revocation-Reports_example =
    after_revocation-Reports env codex uninitialized_status new_quarantine [] [] true crowded

-- Without trouble the revocation of the only product removes its credential, the configuration and
-- the directory that this leaves empty.
revocation_tests :
    (lookup config_path (revoke_configured env codex (some config) [] (world_with [])).1.entries
      ≡ none)
    × (lookup
          (credential_path env old_entry.credential_ref)
          (revoke_configured env codex (some config) [] (world_with [])).1.entries
        ≡ none)
    × (lookup
          (codes "c" ∷ [])
          (revoke_configured env codex (some config) [] (world_with [])).1.entries
        ≡ none)
unfolding run_code remove_config_file_for_product_commit remove_regular_file
    remove_empty_real_directory prune_directories remove_previous release_leases
    prune_empty_shared_dirs acquire_leases move_all commit_revocation after_revocation
    remove_resources revoke_configured list_managed_directory collect quarantines_in
    insert_credentials insert_generations check_credentials check_generations resources_of
    discover_product_resources restore_entry restore_all retain_roots rollback drop_armed move_path
    purge
revocation_tests = (refl, refl, refl)

abbrev revoked_fully : World
revoked_fully = (revoke env all_targets (world_with [])).1

-- Without trouble a full revocation removes the three roots.
full_revocation_tests :
    (lookup (codes "c" ∷ []) revoked_fully.entries ≡ none)
    × (lookup (codes "d" ∷ []) revoked_fully.entries ≡ none)
    × (lookup (codes "s" ∷ []) revoked_fully.entries ≡ none)
    × (lookup (credential_path env old_entry.credential_ref) revoked_fully.entries ≡ none)
unfolding run_code revoke revoke_all remove_all_roots_with_lock
    acquire_all_existing_generation_leases take_leases
full_revocation_tests = (refl, refl, refl, refl)

-- A lease file is attributed by the configuration first, then by the prefix of its name.
lease_owner_tests :
    (product_for_lease_path (some config) (old_entry.active_generation ++ codes ".lock")
      ≡ some codex)
    × (product_for_lease_path none ((codes "gen-claude-" ++ new_identifier) ++ codes ".lock")
        ≡ some claude)
    × (product_for_lease_path (some config) (codes "other.lock") ≡ none)
    × (product_for_lease_path (some config) (codes "gen-codex-1") ≡ none)
unfolding run_code product_for_lease_path
lease_owner_tests = (refl, refl, refl, refl)
