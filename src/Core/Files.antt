-- ===== src/Core/Files.antt =====
-- tools/saiai-core/src/fsutil.rs on Unix, where no metadata is a reparse point.
pub mod Keeps
pub mod OnError
pub mod Writes
use saiai_client.Prelude.{
  ℕ, Bool, true, false, not, ◌&&◌, ◌||◌, Option, none, some, List, [], ◌∷◌, ◌++◌, Text, codes,
  is_empty, String, if◌then◌else◌,
}
use saiai_client.Prelude.Result.{Result, ok, err, ok_or}
use saiai_client.Core.Error.{
  Error, FilePath, IoKind, not_found, already_exists, other, io, invalid_app_path,
}
use saiai_client.Core.Fs.{Node, file, dir, link, strip_path}
use saiai_client.Core.Prog.{
  Prog, pure, raise, lift, outcome_of, best_effort, undone_by, map_err, ◌>>=◌, ◌>>◌,
}
use saiai_client.Core.Sys.{
  symlink_metadata, create_dir_all, no_change, create_new, write_all, rename, remove_file,
  remove_dir, remove_dir_all, new_v4, parent, file_name,
}

-- The operations of the core.
abbrev pub Action {ℓ} : Type ℓ → Type ℓ
Action A = Prog Error A

abbrev pub symlink_error : FilePath → Error
symlink_error p = io "validate managed path" p other

abbrev pub is_symlink : Node → Bool
is_symlink link = true
is_symlink dir = false
is_symlink (file b) = false

abbrev pub is_dir : Node → Bool
is_dir dir = true
is_dir link = false
is_dir (file b) = false

abbrev pub is_file : Node → Bool
is_file (file b) = true
is_file dir = false
is_file link = false

-- Each `match fs::symlink_metadata(path)` is a function of its result.
abbrev pub presence : FilePath → Result IoKind Node → Result Error Bool
presence p (ok n) = ok true
presence p (err not_found) = ok false
presence p (err already_exists) = err (io "inspect managed path presence" p already_exists)
presence p (err other) = err (io "inspect managed path presence" p other)

unfoldable pub path_present_no_follow : FilePath → Action Bool
path_present_no_follow p = do r ← outcome_of (symlink_metadata p); lift (presence p r)

abbrev pub no_symlink : FilePath → Result IoKind Node → Result Error (Unit {0})
no_symlink p (ok n) = if is_symlink n then err (symlink_error p) else ok tt
no_symlink p (err not_found) = ok tt
no_symlink p (err already_exists) = err (io "inspect managed path" p already_exists)
no_symlink p (err other) = err (io "inspect managed path" p other)

unfoldable pub reject_symlink_if_present : FilePath → Action (Unit {0})
reject_symlink_if_present p = do r ← outcome_of (symlink_metadata p); lift (no_symlink p r)

abbrev pub directory_if_present : FilePath → Result IoKind Node → Result Error (Unit {0})
directory_if_present p (ok n) =
    if is_symlink n
    then err (symlink_error p)
    else if is_dir n
    then ok tt
    else err (io "validate managed directory" p other)
directory_if_present p (err not_found) = ok tt
directory_if_present p (err already_exists) = err (io "inspect managed directory" p already_exists)
directory_if_present p (err other) = err (io "inspect managed directory" p other)

unfoldable pub validate_directory_if_present : FilePath → Action (Unit {0})
validate_directory_if_present p = do
  r ← outcome_of (symlink_metadata p)
  lift (directory_if_present p r)

unfoldable pub ensure_private_dir : FilePath → Action (Unit {0})
ensure_private_dir p = do
  validate_directory_if_present p
  map_err (io "create directory" p) (create_dir_all p)
  validate_directory_if_present p
  map_err (io "set directory permissions" p) (no_change p)

abbrev pub component : FilePath → Bool → Result IoKind Node → Result Error Bool
component p must_be_directory (ok n) =
    if is_symlink n
    then err (symlink_error p)
    else if must_be_directory && not (is_dir n)
    then err (io "validate managed path" p other)
    else ok true
component p must_be_directory (err not_found) = ok false
component p must_be_directory (err already_exists) =
    err (io "inspect managed path" p already_exists)
component p must_be_directory (err other) = err (io "inspect managed path" p other)

unfoldable pub inspect_managed_component : FilePath → Bool → Action Bool
inspect_managed_component p must_be_directory = do
  r ← outcome_of (symlink_metadata p)
  lift (component p must_be_directory r)

-- The loop over the components: it stops at the first one that does not exist.
unfoldable pub inspect_components : FilePath → FilePath → Action (Unit {0})
inspect_components current [] = pure tt
inspect_components current (c ∷ rest) = do
  present ← inspect_managed_component (current ++ c ∷ []) (not (is_empty rest))
  if present then inspect_components (current ++ c ∷ []) rest else pure tt

abbrev pub relative_to : FilePath → FilePath → Result Error FilePath
relative_to root target =
    ok_or (strip_path root target)
      (invalid_app_path "managed path" target "path is outside its V2-owned root")

unfoldable pub ensure_no_managed_symlinks : FilePath → FilePath → Action (Unit {0})
ensure_no_managed_symlinks root target = do
  components ← lift (relative_to root target)
  present ← inspect_managed_component root (not (is_empty components))
  inspect_components root components

abbrev pub parent_of : String → FilePath → Result Error FilePath
parent_of field p = ok_or (parent p) (invalid_app_path field p "path has no parent directory")

abbrev pub name_or_file : Option Text → Text
name_or_file none = codes "file"
name_or_file (some name) = name

-- `.{file_name}.tmp-{uuid}`
abbrev pub temporary_name : Text → Text → Text
temporary_name name id = codes "." ++ (name ++ (codes ".tmp-" ++ id))

-- Up to the rename, a failure removes the temporary file again.
unfoldable pub write_and_replace : FilePath → FilePath → List ℕ → Action (Unit {0})
write_and_replace temporary p contents =
    undone_by
      (do
        map_err (io "create temporary file" temporary) (create_new temporary)
        map_err (io "write temporary file" temporary) (write_all temporary contents)
        map_err (io "sync temporary file" temporary) (no_change temporary)
        map_err (io "set private file permissions" temporary) (no_change temporary)
        map_err (io "atomically replace file" p) (rename temporary p))
      (best_effort {F = Error} (remove_file temporary))

module _ (uuid : ℕ → Text) where
  unfoldable pub atomic_write_private : FilePath → List ℕ → Action (Unit {0})
  atomic_write_private p contents = do
    parent_dir ← lift (parent_of "file" p)
    ensure_private_dir parent_dir
    id ← new_v4 uuid
    write_and_replace (parent_dir ++ temporary_name (name_or_file (file_name p)) id ∷ []) p contents
    best_effort (no_change parent_dir)

-- `removal_kind` and the calls that it selects; a link is never followed.
pub data RemovalKind : Type 0 where
  file_or_file_link directory_link directory_tree : RemovalKind

unfoldable pub removal_kind : Bool → Bool → RemovalKind
removal_kind true true = directory_link
removal_kind true false = file_or_file_link
removal_kind false false = file_or_file_link
removal_kind false true = directory_tree

abbrev pub removal : RemovalKind → FilePath → Action (Unit {0})
removal file_or_file_link p = map_err (io "remove path" p) (remove_file p)
removal directory_link p = map_err (io "remove directory link" p) (remove_dir p)
removal directory_tree p = map_err (io "remove directory" p) (remove_dir_all p)

abbrev pub remove_present : FilePath → Result IoKind Node → Action Bool
remove_present p (ok n) = do removal (removal_kind (is_symlink n) (is_dir n)) p; pure true
remove_present p (err not_found) = pure false
remove_present p (err already_exists) = raise (io "inspect path" p already_exists)
remove_present p (err other) = raise (io "inspect path" p other)

unfoldable pub remove_dir_if_exists : FilePath → Action Bool
remove_dir_if_exists p = do r ← outcome_of (symlink_metadata p); remove_present p r

unfoldable pub promote_new_directory : FilePath → FilePath → Action (Unit {0})
promote_new_directory source destination = do
  present ← path_present_no_follow destination
  if present then raise (io "promote staged directory" destination already_exists) else (do
    parent_dir ← lift (parent_of "directory" destination)
    ensure_private_dir parent_dir
    map_err (io "promote staged directory" destination) (rename source destination)
    best_effort (no_change parent_dir))
