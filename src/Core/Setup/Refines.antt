-- ===== src/Core/Setup/Refines.antt =====
-- What a setup does to config.json, as a step of one file that is replaced whole or not at all.
use saiai_client.Prelude.{◌≡◌, refl, sym, ◌∙◌, Option, some, List, ℕ}
use mathlib.Core.Path.{subst}
use saiai_client.Prelude.Result.{Result, ok, err}
use saiai_client.Core.Error.{Error}
use saiai_client.Core.Fs.{Node, file, lookup}
use saiai_client.Core.Refs.{Product}
use saiai_client.Core.Config.{ProductConfig, ConfigV2, product}
use saiai_client.Core.Paths.{config_file}
use saiai_client.Core.Paths.Disjoint.{AreDisjoint}
use saiai_client.Core.Prog.{World}
use saiai_client.Core.Files.Keeps.{Avoids}
use saiai_client.Core.Status.{SetupStatus}
use saiai_client.Core.Load.{serialize_config}
use saiai_client.Core.Artifacts.{ProductSetupArtifacts, artifacts_product}
use saiai_client.Core.Setup.{SetupRequest, setup_product}
use saiai_client.Core.Setup.Unchanged.{Supports, setup_product-unchanged}
use saiai_client.Core.Setup.Committed.{setup_product-IsCommitted}
use saiai_client.Core.Env.{Env}

-- The file before, the answer, and the file after
pub data ConfigStep (e : Env) (request : SetupRequest) (p : Product)
    : Option Node → Result Error SetupStatus → Option Node → Type 0 where
  refused : (before : Option Node) (x : Error) → ConfigStep e request p before (err x) before
  replaced_by :
      (before : Option Node) (status : SetupStatus) (config : ConfigV2) (bytes : List ℕ)
      (entry : ProductConfig)
      → status.config ≡ some config
      → config.base_url ≡ request.base_url
      → product config p ≡ some entry
      → serialize_config e config ≡ ok bytes
      → ConfigStep e request p before (ok status) (some (file bytes))

-- Let config.json exist, let its path name none of the identifiers still to be drawn, and let the
-- application directories be disjoint and each that holds config.json stand. Then a setup is, on
-- config.json, one of two steps: it answers with an error and the file is as before, or it answers
-- with a receipt and the file is the serialised configuration of the receipt, which has the
-- requested Gateway and an entry for the product.
pub setup_product-ConfigStep :
    (e : Env) (request : SetupRequest) (artifacts : ProductSetupArtifacts) (w : World) (n : Node)
    → lookup (config_file e.paths) w.entries ≡ some n
    → Avoids e.uuid w.issued (config_file e.paths)
    → Supports w.entries (config_file e.paths) e.paths.config_dir
    → Supports w.entries (config_file e.paths) e.paths.data_dir
    → Supports w.entries (config_file e.paths) e.paths.state_dir
    → AreDisjoint e.paths
    → ConfigStep e request
        (artifacts_product artifacts)
        (lookup (config_file e.paths) w.entries)
        (setup_product e request artifacts w).0
        (lookup (config_file e.paths) (setup_product e request artifacts w).1.entries)
setup_product-ConfigStep e request artifacts w n stands avoids c d s disjoint =
    step (setup_product e request artifacts w).0 refl
  where
    step :
        (r : Result Error SetupStatus)
        → (setup_product e request artifacts w).0 ≡ r
        → ConfigStep e request
            (artifacts_product artifacts)
            (lookup (config_file e.paths) w.entries)
            r
            (lookup (config_file e.paths) (setup_product e request artifacts w).1.entries)
    step (err x) h =
        subst
          (λ after.
            ConfigStep e request (artifacts_product artifacts)
              (lookup (config_file e.paths) w.entries) (err x) after)
          (stands
            ∙ sym (
                setup_product-unchanged (config_file e.paths) n e request artifacts w x stands
                  avoids c d s h))
          (refused (lookup (config_file e.paths) w.entries) x)
    step (ok status) h =
        let done = setup_product-IsCommitted e request artifacts w status disjoint h in
        subst
          (λ after.
            ConfigStep e request (artifacts_product artifacts)
              (lookup (config_file e.paths) w.entries) (ok status) after)
          (sym done.written)
          (replaced_by (lookup (config_file e.paths) w.entries) status done.config done.bytes
            done.entry done.reported done.gateway done.configured done.serialized)
