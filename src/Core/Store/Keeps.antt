-- ===== src/Core/Store/Keeps.antt =====
-- What the credential store leaves alone.
use saiai_client.Prelude.{ℕ, ◌≡◌, false, Text}
use saiai_client.Core.Error.{FilePath}
use saiai_client.Core.Fs.{Node, path_eq, under}
use saiai_client.Core.Prog.Keeps.{Invariant, Keeps, Keeps-bind, keeps_rules}
use saiai_client.Core.Sys.Keeps.{Stands, Keeps-read, Keeps-remove_file}
use saiai_client.Core.Files.Keeps.{
  Avoids, Keeps-reject_symlink_if_present, Keeps-ensure_private_dir, Keeps-atomic_write_private,
}
use saiai_client.Core.Store.{credential_path, save, load, delete_credential}
use saiai_client.Core.Env.{Env}

pub Keeps-load : {P : Invariant} (e : Env) (reference : Text) → Keeps P (load e reference)
unfolding load
Keeps-load e reference = search (keeps_rules, Keeps-reject_symlink_if_present, Keeps-read) depth 10

module _ {q : FilePath} {n : Node} {n₀ : ℕ} (e : Env) (reference : Text) where
  pub Keeps-save :
      (secret : Text)
      → Avoids e.uuid n₀ q
      → under (credential_path e reference) q ≡ false
      → Keeps (Stands q n n₀) (save e reference secret)
  unfolding save
  Keeps-save secret avoids h =
      Keeps-bind _ _ (Keeps-ensure_private_dir _) λ _.
        Keeps-atomic_write_private e.uuid (credential_path e reference) (e.utf8 secret) avoids h

  pub Keeps-delete_credential :
      path_eq (credential_path e reference) q ≡ false
      → Keeps (Stands q n n₀) (delete_credential e reference)
  unfolding delete_credential
  Keeps-delete_credential h = search (
    keeps_rules,
    Keeps-reject_symlink_if_present,
    Keeps-remove_file (credential_path e reference) h,
  )
