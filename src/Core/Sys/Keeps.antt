-- ===== src/Core/Sys/Keeps.antt =====
-- What each system call leaves alone.
use saiai_client.Prelude.{
  ℕ, ◌≤◌, ◌≡◌, refl, ◌∙◌, Bool, true, false, Option, none, some, List, [], ◌∷◌, ◌++◌, Text, arith,
  if◌then◌else◌, is_empty, Option-cases, Bool-cases, inl, inr,
}
use saiai_client.Core.Error.{FilePath, IoKind, other}
use saiai_client.Core.Fs.{
  Node, file, dir, link, Entries, path_eq, under, lookup, put, delete, move, children,
}
use saiai_client.Core.Fs.Laws.{
  path_eq_iff, path_eq-of_not_under, lookup-put, lookup-delete, lookup-delete_tree,
  lookup-move_other,
}
use saiai_client.Core.Prog.{World, pure, raise, ◌>>=◌}
use saiai_client.Core.Prog.Keeps.{
  Invariant, Keeps, Keeps-raise, Keeps-lift, Keeps-bind, keeps_rules,
}
use saiai_client.Core.Sys.{
  Sys, system_call, tree, set_tree, node_at, symlink_metadata, read, read_dir, mkdir_over,
  make_dirs, rename_allowed, changed_tree, create_dir_all, open_over, create_new, write_all,
  rename_over, rename, remove_file_over, remove_file, remove_dir_over, remove_dir, remove_tree_over,
  remove_dir_all, new_v4, open_or_create_over, open_or_create,
}

-- Calls that only look.
module _ {P : Invariant} where
  pub Keeps-system_call : Keeps P system_call
  unfolding system_call
  Keeps-system_call = record { at = λ w h. h }

  pub Keeps-tree : Keeps P tree
  unfolding tree
  Keeps-tree = record { at = λ w h. h }

  pub Keeps-symlink_metadata : (p : FilePath) → Keeps P (symlink_metadata p)
  unfolding symlink_metadata
  Keeps-symlink_metadata p = search (Keeps-bind, Keeps-system_call, Keeps-tree, Keeps-lift)

  pub Keeps-read : (p : FilePath) → Keeps P (read p)
  unfolding read
  Keeps-read p = search (Keeps-bind, Keeps-system_call, Keeps-tree, Keeps-lift)

  pub Keeps-read_dir : (p : FilePath) → Keeps P (read_dir p)
  unfolding read_dir
  Keeps-read_dir p = search (Keeps-bind, Keeps-system_call, Keeps-tree, Keeps-lift)

-- The node stands at the path, and the identifiers that were drawn so far are at least `n₀`.
pub record Stands (q : FilePath) (n : Node) (n₀ : ℕ) (fs : Entries) (issued : ℕ) : Type 0 where
  pub here : lookup q fs ≡ some n
  pub drawn : n₀ ≤ issued

pub put-Stands :
    (p q : FilePath) (m : Node) (fs : Entries) {n : Node}
    → path_eq p q ≡ false
    → lookup q fs ≡ some n
    → lookup q (put p m fs) ≡ some n
put-Stands p q m fs h k = ground (arith, lookup-put p q m fs)

-- Writing at a free path.
put-free :
    (p q : FilePath) (m : Node) (fs : Entries) {n : Node}
    → lookup p fs ≡ none
    → lookup q fs ≡ some n
    → lookup q (put p m fs) ≡ some n
put-free p q m fs h k = elim (Bool-cases (path_eq p q)) [
  | inl same ↦ cc (h, k, (path_eq_iff p q).0 same)
  | inr differ ↦ put-Stands p q m fs differ k
]

mkdir_over-Stands :
    (o : Option Node) (p q : FilePath) (fs fs' : Entries) {n : Node}
    → lookup p fs ≡ o
    → mkdir_over o p fs ≡ some fs'
    → lookup q fs ≡ some n
    → lookup q fs' ≡ some n
mkdir_over-Stands none p q fs fs' e r h = let k = put-free p q dir fs e h in cc
mkdir_over-Stands (some dir) p q fs fs' e r h = cc
mkdir_over-Stands (some link) p q fs fs' e r h = cc
mkdir_over-Stands (some (file b)) p q fs fs' e r h = cc

make_dirs-Stands :
    (p rest q : FilePath) (fs fs' : Entries) {n : Node}
    → make_dirs p rest fs ≡ some fs'
    → lookup q fs ≡ some n
    → lookup q fs' ≡ some n
unfolding make_dirs
make_dirs-Stands p [] q fs fs' e h = cc
make_dirs-Stands p (c ∷ rest) q fs fs' e h =
    elim (Option-cases (mkdir_over (lookup (p ++ c ∷ []) fs) (p ++ c ∷ []) fs)) [
      | inl bad ↦ cc (rw (bad, make_dirs) at e)
      | inr (next, good) ↦
          make_dirs-Stands (p ++ c ∷ []) rest q next fs' (rw (good, make_dirs) at e)
            (mkdir_over-Stands _ (p ++ c ∷ []) q fs next refl good h)
    ]

module _ {q : FilePath} {n : Node} {n₀ : ℕ} where
  -- A call that looks at the tree and then acts on it.
  Keeps-change :
      (f : Entries → Sys (Unit {0}))
      → ((w : World)
          → Stands q n n₀ w.entries w.issued
          → Stands q n n₀ (f w.entries w).1.entries (f w.entries w).1.issued)
      → Keeps (Stands q n n₀) (tree >>= f)
  unfolding ◌>>=◌ tree
  Keeps-change f h = record { at = h }

  pub Keeps-new_v4 {ℓ} :
      {E : Type ℓ} (uuid : ℕ → Text) → Keeps (Stands q n n₀) (new_v4 {E = E} uuid)
  unfolding new_v4
  Keeps-new_v4 uuid = record {
    at = λ w s. record { here = s.here; drawn = ground (arith, s.drawn) };
  }

  changed_tree-Stands :
      (o : Option Entries) (w : World)
      → ((fs : Entries) → o ≡ some fs → lookup q fs ≡ some n)
      → Stands q n n₀ w.entries w.issued
      → Stands q n n₀ (changed_tree o w).1.entries (changed_tree o w).1.issued
  unfolding set_tree raise
  changed_tree-Stands none w h s = s
  changed_tree-Stands (some fs) w h s = record { here = h fs refl; drawn = s.drawn }

  pub Keeps-create_dir_all : (p : FilePath) → Keeps (Stands q n n₀) (create_dir_all p)
  unfolding create_dir_all
  Keeps-create_dir_all p = Keeps-bind _ _ Keeps-system_call λ _. Keeps-change _ λ w s.
      changed_tree-Stands (make_dirs [] p w.entries) w
        (λ fs e. make_dirs-Stands [] p q w.entries fs e s.here) s

  set_tree-Stands :
      (fs : Entries) (w : World)
      → lookup q fs ≡ some n
      → Stands q n n₀ w.entries w.issued
      → Stands q n n₀ (set_tree fs w).1.entries (set_tree fs w).1.issued
  unfolding set_tree
  set_tree-Stands fs w h s = record { here = h; drawn = s.drawn }

  raise-Stands :
      (k : IoKind) (w : World)
      → Stands q n n₀ w.entries w.issued
      → Stands q n n₀ (raise {A = Unit {0}} k w).1.entries (raise {A = Unit {0}} k w).1.issued
  unfolding raise
  raise-Stands k w s = s

  open_over-Stands :
      (o : Option Node) (p : FilePath) (w : World)
      → node_at p w.entries ≡ o
      → Stands q n n₀ w.entries w.issued
      → Stands q n n₀ (open_over o p w.entries w).1.entries (open_over o p w.entries w).1.issued
  open_over-Stands none [] w e s = cc
  open_over-Stands none (c ∷ p) w e s =
      set_tree-Stands _ w (put-free (c ∷ p) q (file []) w.entries e s.here) s
  open_over-Stands (some m) p w e s = raise-Stands _ w s

  pub Keeps-create_new : (p : FilePath) → Keeps (Stands q n n₀) (create_new p)
  unfolding create_new
  Keeps-create_new p =
      Keeps-bind _ _ Keeps-system_call
        λ _. Keeps-change _ λ w s. open_over-Stands (node_at p w.entries) p w refl s

  pub Keeps-write_all :
      (p : FilePath) (contents : List ℕ)
      → path_eq p q ≡ false
      → Keeps (Stands q n n₀) (write_all p contents)
  unfolding write_all
  Keeps-write_all p contents h = Keeps-bind _ _ Keeps-system_call λ _.
      Keeps-change _
        λ w s. set_tree-Stands _ w (put-Stands p q (file contents) w.entries h s.here) s

  if-Stands :
      (b : Bool) (m k : Sys (Unit {0})) (w : World)
      → Stands q n n₀ (m w).1.entries (m w).1.issued
      → Stands q n n₀ (k w).1.entries (k w).1.issued
      → Stands q n n₀ ((if b then m else k) w).1.entries ((if b then m else k) w).1.issued
  if-Stands true m k w s t = s
  if-Stands false m k w s t = t

  rename_over-Stands :
      (o : Option Node) (from to : FilePath) (w : World)
      → under from q ≡ false
      → under to q ≡ false
      → Stands q n n₀ w.entries w.issued
      → Stands q n n₀
          (rename_over o from to w.entries w).1.entries
          (rename_over o from to w.entries w).1.issued
  rename_over-Stands none from to w h k s = raise-Stands _ w s
  rename_over-Stands (some m) from to w h k s =
      if-Stands (rename_allowed (some m) (node_at to w.entries) (is_empty (children to w.entries)))
        (set_tree (move from to w.entries)) (raise other) w
        (set_tree-Stands _ w (lookup-move_other from to q w.entries h k ∙ s.here) s)
        (raise-Stands _ w s)

  pub Keeps-rename :
      (from to : FilePath)
      → under from q ≡ false
      → under to q ≡ false
      → Keeps (Stands q n n₀) (rename from to)
  unfolding rename
  Keeps-rename from to h k =
      Keeps-bind _ _ Keeps-system_call
        λ _. Keeps-change _ λ w s. rename_over-Stands (node_at from w.entries) from to w h k s

  delete-Stands :
      (p : FilePath) (w : World)
      → path_eq p q ≡ false
      → Stands q n n₀ w.entries w.issued
      → Stands q n n₀
          (set_tree (delete p w.entries) w).1.entries
          (set_tree (delete p w.entries) w).1.issued
  delete-Stands p w h s =
      set_tree-Stands _ w (ground (arith, lookup-delete p q w.entries, s.here)) s

  remove_file_over-Stands :
      (o : Option Node) (p : FilePath) (w : World)
      → path_eq p q ≡ false
      → Stands q n n₀ w.entries w.issued
      → Stands q n n₀
          (remove_file_over o p w.entries w).1.entries
          (remove_file_over o p w.entries w).1.issued
  remove_file_over-Stands none p w h s = raise-Stands _ w s
  remove_file_over-Stands (some dir) p w h s = raise-Stands _ w s
  remove_file_over-Stands (some link) p w h s = delete-Stands p w h s
  remove_file_over-Stands (some (file b)) p w h s = delete-Stands p w h s

  pub Keeps-remove_file :
      (p : FilePath) → path_eq p q ≡ false → Keeps (Stands q n n₀) (remove_file p)
  unfolding remove_file
  Keeps-remove_file p h =
      Keeps-bind _ _ Keeps-system_call
        λ _. Keeps-change _ λ w s. remove_file_over-Stands (node_at p w.entries) p w h s

  remove_dir_over-Stands :
      (o : Option Node) (p : FilePath) (w : World)
      → path_eq p q ≡ false
      → Stands q n n₀ w.entries w.issued
      → Stands q n n₀
          (remove_dir_over o p w.entries w).1.entries
          (remove_dir_over o p w.entries w).1.issued
  remove_dir_over-Stands none p w h s = raise-Stands _ w s
  remove_dir_over-Stands (some link) p w h s = raise-Stands _ w s
  remove_dir_over-Stands (some (file b)) p w h s = raise-Stands _ w s
  remove_dir_over-Stands (some dir) p w h s =
      if-Stands (is_empty (children p w.entries)) (set_tree (delete p w.entries)) (raise other) w
        (delete-Stands p w h s) (raise-Stands _ w s)

  pub Keeps-remove_dir : (p : FilePath) → path_eq p q ≡ false → Keeps (Stands q n n₀) (remove_dir p)
  unfolding remove_dir
  Keeps-remove_dir p h =
      Keeps-bind _ _ Keeps-system_call
        λ _. Keeps-change _ λ w s. remove_dir_over-Stands (node_at p w.entries) p w h s

  remove_tree_over-Stands :
      (o : Option Node) (p : FilePath) (w : World)
      → under p q ≡ false
      → Stands q n n₀ w.entries w.issued
      → Stands q n n₀
          (remove_tree_over o p w.entries w).1.entries
          (remove_tree_over o p w.entries w).1.issued
  remove_tree_over-Stands none p w h s = raise-Stands _ w s
  remove_tree_over-Stands (some (file b)) p w h s = raise-Stands _ w s
  remove_tree_over-Stands (some link) p w h s = delete-Stands p w (path_eq-of_not_under p q h) s
  remove_tree_over-Stands (some dir) p w h s =
      set_tree-Stands _ w (ground (arith, lookup-delete_tree p q w.entries, s.here)) s

  pub Keeps-remove_dir_all :
      (p : FilePath) → under p q ≡ false → Keeps (Stands q n n₀) (remove_dir_all p)
  unfolding remove_dir_all
  Keeps-remove_dir_all p h =
      Keeps-bind _ _ Keeps-system_call
        λ _. Keeps-change _ λ w s. remove_tree_over-Stands (node_at p w.entries) p w h s

pub ruleset sys_reads =
    (keeps_rules, Keeps-system_call, Keeps-symlink_metadata, Keeps-read, Keeps-read_dir)

pub ruleset sys_rules = (
  sys_reads, Keeps-new_v4, Keeps-create_dir_all, Keeps-create_new, Keeps-write_all, Keeps-rename,
  Keeps-remove_file, Keeps-remove_dir, Keeps-remove_dir_all,
)

module _ {q : FilePath} {n : Node} {n₀ : ℕ} where
  open_or_create_over-Stands :
      (o : Option Node) (p : FilePath) (w : World)
      → node_at p w.entries ≡ o
      → Stands q n n₀ w.entries w.issued
      → Stands q n n₀
          (open_or_create_over o p w.entries w).1.entries
          (open_or_create_over o p w.entries w).1.issued
  unfolding pure
  open_or_create_over-Stands none [] w e s = cc
  open_or_create_over-Stands none (c ∷ p) w e s =
      set_tree-Stands _ w (put-free (c ∷ p) q (file []) w.entries e s.here) s
  open_or_create_over-Stands (some (file b)) p w e s = s
  open_or_create_over-Stands (some dir) p w e s = raise-Stands _ w s
  open_or_create_over-Stands (some link) p w e s = raise-Stands _ w s

  pub Keeps-open_or_create : (p : FilePath) → Keeps (Stands q n n₀) (open_or_create p)
  unfolding open_or_create
  Keeps-open_or_create p =
      Keeps-bind _ _ Keeps-system_call
        λ _. Keeps-change _ λ w s. open_or_create_over-Stands (node_at p w.entries) p w refl s
