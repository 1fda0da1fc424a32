-- ===== src/Core/Credential.antt =====
-- `SecretString` of tools/saiai-core/src/credentials.rs.
use saiai_client.Prelude.{
  ℕ, ◌≤◌, ◌≡◌, ◌↔◌, false, not, Text, [], ◌∷◌, text_eq, text_eq_iff, any, byte_len, ltb, is_control,
  trim, arith,
}
use saiai_client.Prelude.Result.{ok, ◌>>◌, refuse_if}
use saiai_client.Core.Error.{Outcome, invalid_credential}

abbrev pub max_secret_bytes : ℕ
max_secret_bytes = 16384

unfoldable pub secret_string : Text → Outcome Text
secret_string value = do
  refuse_if (text_eq value []) (invalid_credential "credential is empty")
  refuse_if (ltb max_secret_bytes (byte_len value))
      (invalid_credential "credential exceeds the 16384-byte limit")
  refuse_if (not (text_eq (trim value) value))
      (invalid_credential "leading or trailing whitespace is not allowed")
  refuse_if (any is_control value) (invalid_credential "control characters are not allowed")
  ok value

-- A credential is accepted, unchanged, exactly if it has 1 to 16384 bytes, no white space at its
-- ends and no control character.
pub secret_string_iff :
    (value s : Text)
    → (secret_string value ≡ ok s) ↔ (
        (s ≡ value)
        × (1 ≤ byte_len value)
        × (byte_len value ≤ max_secret_bytes)
        × (trim value ≡ value)
        × (any is_control value ≡ false))
unfolding secret_string
secret_string_iff [] s = (λ h. cc, λ (_, low, _, _, _). absurd (omega (arith, low)))
secret_string_iff (c ∷ v) s = (
  λ h. ground (arith, text_eq_iff (trim (c ∷ v)) (c ∷ v)),
  λ (same, low, high, trimmed, plain).
      ground (arith, text_eq_iff (trim (c ∷ v)) (c ∷ v), same, low, high, trimmed, plain),
)
