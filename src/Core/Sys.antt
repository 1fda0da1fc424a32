-- ===== src/Core/Sys.antt =====
-- The calls of std::fs and uuid that the core makes, on the file tree. Modes, owners and what lies
-- behind a symbolic link are not part of the tree. A call that is in trouble changes nothing.
pub mod Keeps
use saiai_client.Prelude.{
  ℕ, zero, suc, ◌+◌, Bool, true, false, ◌&&◌, ◌||◌, not, Option, none, some, List, [], ◌∷◌, ◌++◌,
  Text, is_empty, any, if◌then◌else◌,
}
use saiai_client.Prelude.Result.{Result, ok, err}
use saiai_client.Core.Error.{FilePath, IoKind, not_found, already_exists, other}
use saiai_client.Core.Fs.{
  Node, file, dir, link, Entries, path_eq, under, lookup, put, delete, delete_tree, move, children,
}
use saiai_client.Core.Prog.{World, Prog, pure, raise, lift, ◌>>=◌, ◌>>◌}

abbrev pub Sys {κ} : Type κ → Type κ
Sys A = Prog IoKind A

abbrev pub spent : List Bool → Result IoKind (Unit {0}) × List Bool
spent [] = (ok tt, [])
spent (true ∷ t) = (err other, t)
spent (false ∷ t) = (ok tt, t)

-- Every system call may fail for a reason outside the tree.
unfoldable pub system_call : Sys (Unit {0})
system_call w = let (r, t) = spent w.trouble in (r, record w { trouble = t })

unfoldable pub tree : Sys Entries
tree w = (ok w.entries, w)

unfoldable pub set_tree : Entries → Sys (Unit {0})
set_tree fs w = (ok tt, record w { entries = fs })

-- The file system's root is a directory.
abbrev pub node_at : FilePath → Entries → Option Node
node_at [] fs = some dir
node_at (c ∷ p) fs = lookup (c ∷ p) fs

abbrev pub found : Option Node → Result IoKind Node
found none = err not_found
found (some n) = ok n

unfoldable pub symlink_metadata : FilePath → Sys Node
symlink_metadata p = do system_call; fs ← tree; lift (found (node_at p fs))

abbrev pub contents_of : Option Node → Result IoKind (List ℕ)
contents_of none = err not_found
contents_of (some (file b)) = ok b
contents_of (some dir) = err other
contents_of (some link) = err other

unfoldable pub read : FilePath → Sys (List ℕ)
read p = do system_call; fs ← tree; lift (contents_of (node_at p fs))

abbrev pub names_of : Option Node → List Text → Result IoKind (List Text)
names_of none names = err not_found
names_of (some dir) names = ok names
names_of (some (file b)) names = err other
names_of (some link) names = err other

unfoldable pub read_dir : FilePath → Sys (List Text)
read_dir p = do system_call; fs ← tree; lift (names_of (node_at p fs) (children p fs))

-- Make the directories `p`, `p/c`, … that are missing.
abbrev pub mkdir_over : Option Node → FilePath → Entries → Option Entries
mkdir_over none p fs = some (put p dir fs)
mkdir_over (some dir) p fs = some fs
mkdir_over (some link) p fs = some fs
mkdir_over (some (file b)) p fs = none

unfoldable pub make_dirs : FilePath → FilePath → Entries → Option Entries
make_dirs p [] fs = some fs
make_dirs p (c ∷ rest) fs = elim (mkdir_over (lookup (p ++ c ∷ []) fs) (p ++ c ∷ []) fs) [
  | none ↦ none
  | some fs' ↦ make_dirs (p ++ c ∷ []) rest fs'
]

abbrev pub changed_tree : Option Entries → Sys (Unit {0})
changed_tree none = raise other
changed_tree (some fs) = set_tree fs

unfoldable pub create_dir_all : FilePath → Sys (Unit {0})
create_dir_all p = do system_call; fs ← tree; changed_tree (make_dirs [] p fs)

abbrev pub parent : FilePath → Option FilePath
parent [] = none
parent (c ∷ []) = some []
parent (c ∷ d ∷ p) = elim (parent (d ∷ p)) [ none ↦ none | some q ↦ some (c ∷ q) ]

abbrev pub file_name : FilePath → Option Text
file_name [] = none
file_name (c ∷ []) = some c
file_name (c ∷ d ∷ p) = file_name (d ∷ p)

abbrev pub open_over : Option Node → FilePath → Entries → Sys (Unit {0})
open_over none p fs = set_tree (put p (file []) fs)
open_over (some n) p fs = raise already_exists

-- `OpenOptions::new().write(true).create_new(true).open(p)`
unfoldable pub create_new : FilePath → Sys (Unit {0})
create_new p = do system_call; fs ← tree; open_over (node_at p fs) p fs

-- `write_all` to a file that was just created at `p`
unfoldable pub write_all : FilePath → List ℕ → Sys (Unit {0})
write_all p contents = do system_call; fs ← tree; set_tree (put p (file contents) fs)

abbrev pub is_dir_node : Option Node → Bool
is_dir_node (some dir) = true
is_dir_node (some link) = false
is_dir_node (some (file b)) = false
is_dir_node none = false

-- rename(2): a directory replaces nothing but an empty directory, and a file no directory.
abbrev pub rename_allowed : Option Node → Option Node → Bool → Bool
rename_allowed from none empty = true
rename_allowed from (some n) empty =
    if is_dir_node from then is_dir_node (some n) && empty else not (is_dir_node (some n))

abbrev pub rename_over : Option Node → FilePath → FilePath → Entries → Sys (Unit {0})
rename_over none from to fs = raise not_found
rename_over (some n) from to fs =
    if rename_allowed (some n) (node_at to fs) (is_empty (children to fs))
    then set_tree (move from to fs)
    else raise other

unfoldable pub rename : FilePath → FilePath → Sys (Unit {0})
rename from to = do system_call; fs ← tree; rename_over (node_at from fs) from to fs

abbrev pub remove_file_over : Option Node → FilePath → Entries → Sys (Unit {0})
remove_file_over none p fs = raise not_found
remove_file_over (some dir) p fs = raise other
remove_file_over (some (file b)) p fs = set_tree (delete p fs)
remove_file_over (some link) p fs = set_tree (delete p fs)

unfoldable pub remove_file : FilePath → Sys (Unit {0})
remove_file p = do system_call; fs ← tree; remove_file_over (node_at p fs) p fs

abbrev pub remove_dir_over : Option Node → FilePath → Entries → Sys (Unit {0})
remove_dir_over none p fs = raise not_found
remove_dir_over (some (file b)) p fs = raise other
remove_dir_over (some link) p fs = raise other
remove_dir_over (some dir) p fs =
    if is_empty (children p fs) then set_tree (delete p fs) else raise other

unfoldable pub remove_dir : FilePath → Sys (Unit {0})
remove_dir p = do system_call; fs ← tree; remove_dir_over (node_at p fs) p fs

abbrev pub remove_tree_over : Option Node → FilePath → Entries → Sys (Unit {0})
remove_tree_over none p fs = raise not_found
remove_tree_over (some (file b)) p fs = raise other
remove_tree_over (some link) p fs = set_tree (delete p fs)
remove_tree_over (some dir) p fs = set_tree (delete_tree p fs)

unfoldable pub remove_dir_all : FilePath → Sys (Unit {0})
remove_dir_all p = do system_call; fs ← tree; remove_tree_over (node_at p fs) p fs

-- `set_permissions`, `sync_all` and opening a directory change nothing that the tree shows.
abbrev pub no_change : FilePath → Sys (Unit {0})
no_change p = system_call

-- `Uuid::new_v4().simple().to_string()`, over the rendering of the identifiers
unfoldable pub new_v4 {ℓ} : {E : Type ℓ} → (ℕ → Text) → Prog E Text
new_v4 uuid w = (ok (uuid w.issued), record w { issued = w.issued + 1 })

abbrev pub open_or_create_over : Option Node → FilePath → Entries → Sys (Unit {0})
open_or_create_over none p fs = set_tree (put p (file []) fs)
open_or_create_over (some (file b)) p fs = pure tt
open_or_create_over (some dir) p fs = raise other
open_or_create_over (some link) p fs = raise other

-- `OpenOptions::new().read(true).write(true).create(true)` with O_NOFOLLOW
unfoldable pub open_or_create : FilePath → Sys (Unit {0})
open_or_create p = do system_call; fs ← tree; open_or_create_over (node_at p fs) p fs
