-- ===== src/Core/Error.antt =====
-- tools/saiai-core/src/error.rs. Messages are texts; a path is the list of its components.
use saiai_client.Prelude.{ℕ, Bool, true, false, List, Text, String}
use saiai_client.Prelude.Result.{Result}
use saiai_client.Core.Refs.{Product}

abbrev pub FilePath : Type 0
FilePath = List Text

-- io::ErrorKind, as far as the code tells kinds apart
pub data IoKind : Type 0 where
  not_found already_exists other : IoKind

pub data Error : Type 0 where
  path_discovery : String → Error
  invalid_app_path : String → FilePath → String → Error
  invalid_gateway_url : String → Error
  invalid_credential_ref : String → Error
  invalid_credential : String → Error
  invalid_config : String → Error
  product_not_configured : Product → Error
  shared_gateway_mismatch : Product → Product → Error
  product_busy : Product → Error
  installation_busy : Error
  invalid_artifact : String → String → Error
  bootstrap_client : Error
  bootstrap_transport : Error
  bootstrap_http : ℕ → String → Error
  bootstrap_response_too_large : Error
  invalid_bootstrap_response : String → Error
  incompatible_gateway : String → Error
  io : String → FilePath → IoKind → Error

-- `Error::is_not_found`
unfoldable pub is_not_found : Error → Bool
is_not_found (io operation path not_found) = true
is_not_found _ = false

-- `crate::Result`
abbrev pub Outcome {ℓ} : Type ℓ → Type ℓ
Outcome A = Result Error A
