-- ===== src/Core/Artifacts.antt =====
-- tools/saiai-core/src/artifacts.rs, over what serde_json, toml_edit, rcgen and x509-parser report.
use saiai_client.Prelude.{
  ℕ, Bool, not, ◌||◌, Option, List, [], ◌∷◌, Text, String, codes, text_eq, all, trim, ◌==◌,
  is_empty, in_range,
}
use saiai_client.Prelude.Result.{◌>>=◌, ◌>>◌, refuse_if, ok_or}
use saiai_client.Core.Error.{Outcome, invalid_artifact}
use saiai_client.Core.Refs.{Product, claude, codex}

-- The fields of a parsed certificate that the check reads.
pub record Certificate : Type 0 where
  pub subject : List ℕ
  pub issuer : List ℕ
  pub valid_now : Bool
  pub signature_verifies : Bool
  pub public_key : List ℕ

pub record Crates : Type 0 where
  -- serde_json::from_slice, as whether the value is an object
  pub json_is_object : List ℕ → Option Bool
  pub toml_parses : Text → Bool
  -- CertificateParams::from_ca_cert_pem, as whether `is_ca` is `Ca`
  pub ca_params : Text → Option Bool
  -- KeyPair::from_pem, as its public key
  pub key_pair : Text → Option (List ℕ)
  -- parse_x509_pem: the remainder and the label
  pub pem_block : Text → Option (Text × Text)
  pub x509 : Text → Option Certificate
  -- The certificate and the key sign a leaf that is thrown away.
  pub issues_leaf : Text → Text → Bool

-- u8::is_ascii_whitespace
abbrev pub is_ascii_whitespace : ℕ → Bool
is_ascii_whitespace c = c == 32 || (in_range 9 10 c || in_range 12 13 c)

pub data ProductSetupArtifacts : Type 0 where
  claude_artifacts :
      (settings_json state_json : List ℕ) (ca_certificate ca_private_key : Text)
      → ProductSetupArtifacts
  codex_artifacts : (config_toml : Text) → ProductSetupArtifacts

-- `ProductSetupArtifacts::product`
unfoldable pub artifacts_product : ProductSetupArtifacts → Product
artifacts_product (claude_artifacts s t c k) = claude
artifacts_product (codex_artifacts t) = codex

module _ (x : Crates) where
  unfoldable pub validate_json_object : String → List ℕ → Outcome (Unit {0})
  validate_json_object name contents = do
    object ← ok_or (x.json_is_object contents) (invalid_artifact name "parse error")
    refuse_if (not object) (invalid_artifact name "top-level value must be an object")

  unfoldable pub validate_ca_pair : Text → Text → Outcome (Unit {0})
  validate_ca_pair certificate key = do
    is_ca ← ok_or (x.ca_params certificate) (invalid_artifact "saiai-ca.crt" "parse error")
    refuse_if (not is_ca) (invalid_artifact "saiai-ca.crt" "certificate is not a CA")
    private_key ← ok_or (x.key_pair key) (invalid_artifact "saiai-ca.key" "parse error")
    block ← ok_or (x.pem_block certificate) (invalid_artifact "saiai-ca.crt" "parse error")
    refuse_if (not (all is_ascii_whitespace block.0) || not (text_eq block.1 (codes "CERTIFICATE")))
        (invalid_artifact "saiai-ca.crt" "expected exactly one CERTIFICATE PEM block")
    parsed ← ok_or (x.x509 certificate) (invalid_artifact "saiai-ca.crt" "parse error")
    refuse_if (not (text_eq parsed.subject parsed.issuer))
        (invalid_artifact "saiai-ca.crt" "installation CA must be self-issued")
    refuse_if (not parsed.valid_now)
        (invalid_artifact "saiai-ca.crt" "certificate is not currently valid")
    refuse_if (not parsed.signature_verifies) (invalid_artifact "saiai-ca.crt" "bad signature")
    refuse_if (not (text_eq parsed.public_key private_key))
        (invalid_artifact "saiai-ca.key" "private key does not match the CA certificate")
    refuse_if (not (x.issues_leaf certificate key)) (invalid_artifact "saiai-ca.key" "cannot issue")

  -- `validate` of the two kinds of artifacts
  unfoldable pub validate_artifacts : ProductSetupArtifacts → Outcome (Unit {0})
  validate_artifacts (claude_artifacts settings state certificate key) = do
    validate_json_object "settings.json" settings
    validate_json_object ".claude.json" state
    validate_ca_pair certificate key
  validate_artifacts (codex_artifacts toml) = do
    refuse_if (is_empty (trim toml)) (invalid_artifact "config.toml" "document is empty")
    refuse_if (not (x.toml_parses toml)) (invalid_artifact "config.toml" "parse error")

-- `files`, in the order of the source; `bytes` are the bytes of a text.
unfoldable pub artifact_files : (Text → List ℕ) → ProductSetupArtifacts → List (Text × List ℕ)
artifact_files bytes (claude_artifacts settings state certificate key) =
    (codes "settings.json", settings)
    ∷ (codes ".claude.json", state)
    ∷ (codes "saiai-ca.crt", bytes certificate)
    ∷ (codes "saiai-ca.key", bytes key)
    ∷ []
artifact_files bytes (codex_artifacts toml) = (codes "config.toml", bytes toml) ∷ []
