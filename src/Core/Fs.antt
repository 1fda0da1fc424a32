-- ===== src/Core/Fs.antt =====
-- A file tree as std::fs shows it: what stands at each path, with the path as its components.
pub mod Laws
use saiai_client.Prelude.{
  ℕ, Bool, true, false, not, ◌&&◌, Option, none, some, List, [], ◌∷◌, ◌++◌, Text, text_eq, filter,
  if◌then◌else◌,
}
use saiai_client.Core.Error.{FilePath}

pub data Node : Type 0 where
  file : List ℕ → Node
  dir link : Node

abbrev pub Entries : Type 0
Entries = List (FilePath × Node)

unfoldable pub path_eq : FilePath → FilePath → Bool
path_eq [] [] = true
path_eq [] (d ∷ q) = false
path_eq (c ∷ p) [] = false
path_eq (c ∷ p) (d ∷ q) = text_eq c d && path_eq p q

-- `q.strip_prefix(p)`
unfoldable pub strip_path : FilePath → FilePath → Option FilePath
strip_path [] q = some q
strip_path (c ∷ p) [] = none
strip_path (c ∷ p) (d ∷ q) = if text_eq c d then strip_path p q else none

-- `q.starts_with(p)`: q is p or lies below it.
unfoldable pub under : FilePath → FilePath → Bool
under [] q = true
under (c ∷ p) [] = false
under (c ∷ p) (d ∷ q) = text_eq c d && under p q

abbrev pub join : FilePath → Text → FilePath
join p name = p ++ name ∷ []

unfoldable pub lookup : FilePath → Entries → Option Node
lookup p [] = none
lookup p ((q, n) ∷ fs) = if path_eq q p then some n else lookup p fs

unfoldable pub put : FilePath → Node → Entries → Entries
put p n [] = (p, n) ∷ []
put p n ((q, m) ∷ fs) = if path_eq q p then (q, n) ∷ fs else (q, m) ∷ put p n fs

unfoldable pub delete : FilePath → Entries → Entries
delete p fs = filter (λ e. not (path_eq e.0 p)) fs

unfoldable pub delete_tree : FilePath → Entries → Entries
delete_tree p fs = filter (λ e. not (under p e.0)) fs

abbrev pub relocated : FilePath → FilePath → Option FilePath → FilePath
relocated to p none = p
relocated to p (some rest) = to ++ rest

unfoldable pub relocate : FilePath → FilePath → Entries → Entries
relocate from to [] = []
relocate from to ((p, n) ∷ fs) = (relocated to p (strip_path from p), n) ∷ relocate from to fs

-- A rename takes the tree below along, and replaces what stands at the destination.
unfoldable pub move : FilePath → FilePath → Entries → Entries
move from to fs = relocate from to (delete_tree to fs)

-- The names in a directory.
unfoldable pub children : FilePath → Entries → List Text
children p [] = []
children p ((q, n) ∷ fs) =
    let rest = children p fs in
    elim (strip_path p q) [
      | none ↦ rest
      | some [] ↦ rest
      | some (name ∷ []) ↦ name ∷ rest
      | some (name ∷ d ∷ r) ↦ rest
    ]
