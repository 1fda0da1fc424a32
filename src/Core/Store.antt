-- ===== src/Core/Store.antt =====
-- `FileCredentialStore` of tools/saiai-core/src/credentials.rs.
pub mod Keeps
use saiai_client.Prelude.{ℕ, Option, none, some, List, [], ◌∷◌, ◌++◌, Text, codes}
use saiai_client.Prelude.Result.{Result, ok, err, ok_or}
use saiai_client.Core.Error.{
  Error, FilePath, IoKind, not_found, already_exists, other, io, invalid_credential,
}
use saiai_client.Core.Fs.{join}
use saiai_client.Core.Prog.{Prog, pure, raise, lift, outcome_of, map_err, ◌>>=◌, ◌>>◌}
use saiai_client.Core.Sys.{read, remove_file}
use saiai_client.Core.Files.{
  Action, ensure_private_dir, atomic_write_private, reject_symlink_if_present,
}
use saiai_client.Core.Credential.{secret_string}
use saiai_client.Core.Paths.{credentials_dir}
use saiai_client.Core.Env.{Env}

abbrev pub credential_path : Env → Text → FilePath
credential_path e reference = join (credentials_dir e.paths) (reference ++ codes ".key")

unfoldable pub save : Env → Text → Text → Action (Unit {0})
save e reference secret = do
  ensure_private_dir (credentials_dir e.paths)
  atomic_write_private e.uuid (credential_path e reference) (e.utf8 secret)

unfoldable pub load : Env → Text → Action Text
load e reference = do
  reject_symlink_if_present (credentials_dir e.paths)
  reject_symlink_if_present (credential_path e reference)
  bytes ←
      map_err (io "read credential" (credential_path e reference))
        (read (credential_path e reference))
  value ← lift (ok_or (e.from_utf8 bytes) (invalid_credential "credential file is not UTF-8"))
  lift (secret_string value)

abbrev pub deleted : FilePath → Result IoKind (Unit {0}) → Result Error (Unit {0})
deleted p (ok u) = ok tt
deleted p (err not_found) = ok tt
deleted p (err already_exists) = err (io "delete credential" p already_exists)
deleted p (err other) = err (io "delete credential" p other)

unfoldable pub delete_credential : Env → Text → Action (Unit {0})
delete_credential e reference = do
  reject_symlink_if_present (credentials_dir e.paths)
  r ← outcome_of (remove_file (credential_path e reference))
  lift (deleted (credential_path e reference) r)
