-- ===== src/Core/RunTests.antt =====
-- Runs of the model on small inputs, and each theorem at an input that meets its conditions.
use saiai_client.Prelude.{
  length-append, ℕ, ◌<◌, ◌≡◌, ◌≢◌, refl, ap, none, some, [], ◌∷◌, ◌++◌, Text, codes, length, arith,
}
use saiai_client.Core.Error.{io, other}
use saiai_client.Prelude.Result.{ok}
use saiai_client.Core.Fs.{file, lookup}
use saiai_client.Core.Status.{uninitialized_status}
use saiai_client.Core.Paths.{generation_staging_dir}
use saiai_client.Core.Store.{credential_path}
use saiai_client.Core.Prog.{World}
use saiai_client.Core.Files.{atomic_write_private}
use saiai_client.Core.Files.Keeps.{Avoids}
use saiai_client.Core.Files.OnError.{atomic_write_private-unchanged}
use saiai_client.Core.Load.{setup_status_locked}
use saiai_client.Core.Load.Keeps.{setup_status_locked-unchanged}
use saiai_client.Core.Setup.{setup_product, after_commit}
use saiai_client.Core.Setup.Refines.{ConfigStep, setup_product-ConfigStep}
use saiai_client.Core.Setup.Unchanged.{setup_product-unchanged}
use saiai_client.Core.Setup.Total.{after_commit-returns}
use saiai_client.Core.Refs.{codex}
use saiai_client.Core.Config.{ProductConfig}
use saiai_client.Core.Status.{SetupStatus, committed_status_after_product_setup}
use saiai_client.Core.Paths.Disjoint.{AreDisjoint}
use saiai_client.Core.Files.Writes.{atomic_write_private-writes}
use saiai_client.Core.Setup.Committed.{setup_product-IsCommitted, IsCommitted}
use saiai_client.Core.Runs.{run_code}
use saiai_client.Core.Example.{
  env, request, artifacts, world_with, fails_after, config_path, new_identifier, old_entry,
}

-- A name that is shorter than an identifier does not contain it.
pub shorter-differs : (c before u after : Text) → length c < length u → c ≢ before ++ (u ++ after)
shorter-differs c before u after h e =
    let lengths = ap length e in
    omega (arith, lengths, length-append before (u ++ after), length-append u after)

config_path-Avoids : (n : ℕ) → Avoids env.uuid n config_path
config_path-Avoids n k h before after = (
  shorter-differs (codes "c") before new_identifier after (omega arith),
  (shorter-differs (codes "config.json") before new_identifier after (omega arith), tt),
)

abbrev interrupted : World
interrupted = world_with (fails_after 127)

setup_product-unchanged_example :
    lookup config_path (setup_product env request artifacts interrupted).1.entries
    ≡ some (file (0 ∷ []))
unfolding run_code
setup_product-unchanged_example =
    setup_product-unchanged config_path (file (0 ∷ [])) env request artifacts interrupted
      (io "atomically replace file" config_path other) refl (config_path-Avoids 0) (λ _ e. cc)
      (λ _ e. cc) (λ _ e. cc) refl

setup_status_locked-unchanged_example :
    (setup_status_locked env interrupted).1.entries ≡ interrupted.entries
setup_status_locked-unchanged_example = setup_status_locked-unchanged env interrupted

abbrev no_room : World
no_room = world_with (fails_after 5)

atomic_write_private-unchanged_example :
    lookup config_path (atomic_write_private env.uuid config_path (1 ∷ []) no_room).1.entries
    ≡ some (file (0 ∷ []))
unfolding run_code
atomic_write_private-unchanged_example =
    atomic_write_private-unchanged config_path (file (0 ∷ [])) env.uuid config_path (1 ∷ []) no_room
      (io "write temporary file" (codes "c" ∷ (codes ".config.json.tmp-" ++ new_identifier) ∷ [])
        other)
      refl (config_path-Avoids 0) refl

after_commit-returns_example :
    (after_commit env
      (some old_entry)
      (codes "codex-1")
      (codes "gen-codex-1")
      uninitialized_status
      interrupted).0
    ≡ ok uninitialized_status
after_commit-returns_example =
    after_commit-returns env (some old_entry) (codes "codex-1") (codes "gen-codex-1")
      uninitialized_status interrupted

-- The same setup without trouble commits the new configuration, deletes the old credential and
-- leaves no staging directory.
abbrev committed : World
committed = (setup_product env request artifacts (world_with [])).1

setup_tests :
    (lookup config_path committed.entries ≡ some (file (1 ∷ [])))
    × (lookup (credential_path env old_entry.credential_ref) committed.entries ≡ none)
    × (lookup (credential_path env (codes "codex-" ++ new_identifier)) committed.entries
        ≡ some (file (codes "secret")))
    × (lookup (generation_staging_dir env.paths) committed.entries ≡ none)
unfolding run_code
setup_tests = (refl, refl, refl, refl)

abbrev calm : World
calm = world_with []

abbrev fresh_entry : ProductConfig
fresh_entry = record {
  credential_ref = codes "codex-" ++ new_identifier;
  active_generation = codes "gen-codex-" ++ new_identifier;
}

abbrev receipt : SetupStatus
receipt =
    committed_status_after_product_setup env.paths
      (record {
        base_url = request.base_url;
        products = record { claude_entry = none; codex_entry = some fresh_entry };
      })
      codex []

paths-AreDisjoint : AreDisjoint env.paths
unfolding run_code
paths-AreDisjoint = record {
  config_named = refl;
  data_named = refl;
  state_named = refl;
  config_data = refl;
  data_config = refl;
  config_state = refl;
  state_config = refl;
  data_state = refl;
  state_data = refl;
}

setup_product-IsCommitted_example :
    IsCommitted env request codex receipt
      (setup_product env request artifacts calm).1.entries
      (setup_product env request artifacts calm).1.issued
unfolding run_code
setup_product-IsCommitted_example =
    setup_product-IsCommitted env request artifacts calm receipt paths-AreDisjoint refl

atomic_write_private-writes_example :
    lookup config_path (atomic_write_private env.uuid config_path (1 ∷ []) calm).1.entries
    ≡ some (file (1 ∷ []))
unfolding run_code
atomic_write_private-writes_example =
    atomic_write_private-writes env.uuid (codes "c" ∷ []) (codes "config.json") (1 ∷ []) calm refl

setup_product-ConfigStep_example :
    ConfigStep env request codex
      (lookup config_path interrupted.entries)
      (setup_product env request artifacts interrupted).0
      (lookup config_path (setup_product env request artifacts interrupted).1.entries)
unfolding run_code
setup_product-ConfigStep_example =
    setup_product-ConfigStep env request artifacts interrupted (file (0 ∷ [])) refl
      (config_path-Avoids 0) (λ _ e. cc) (λ _ e. cc) (λ _ e. cc) paths-AreDisjoint
