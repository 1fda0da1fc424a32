-- ===== src/Core/Files/Writes.antt =====
-- What an atomic write that returns has written.
use saiai_client.Prelude.{
  Bool-cases, inl, inr, length, length-append, text_eq_iff, text_eq_refl, ℕ, ◌≡◌, refl, ap, false,
  Option, none, some, List, [], ◌∷◌, ◌++◌, Text, codes, text_eq, is_empty, arith, append-nil,
}
use saiai_client.Prelude.Result.{ok}
use saiai_client.Core.Error.{FilePath}
use saiai_client.Core.Fs.{Node, file, Entries, under, lookup, move, join, children}
use saiai_client.Core.Fs.Laws.{lookup-put, lookup-move_target, path_eq_refl}
use saiai_client.Core.Prog.{World, raise, ◌>>=◌}
use saiai_client.Core.Prog.Keeps.{Invariant, Keeps-map_err, Keeps-best_effort}
use saiai_client.Core.Prog.Triple.{
  Triple, Triple-known, Triple-lift, Triple-of_Keeps, Triple-undone_by, Triple-map_err, Triple-bind,
  Anything, Keeps-Anything,
}
use saiai_client.Core.Sys.{
  Sys, tree, set_tree, node_at, rename_allowed, rename_over, rename, write_all, file_name, parent,
}
use saiai_client.Core.Sys.Keeps.{Stands, Keeps-system_call}
use saiai_client.Core.Files.{write_and_replace, atomic_write_private, temporary_name, name_or_file}

module _ {P : Invariant} (f : Entries → Sys (Unit {0})) (Q : Unit {0} → Invariant) where
  Triple-change :
      ((w : World) (u : Unit {0})
        → P w.entries w.issued
        → (f w.entries w).0 ≡ ok u
        → Q u (f w.entries w).1.entries (f w.entries w).1.issued)
      → Triple P (tree >>= f) Q
  unfolding ◌>>=◌ tree
  Triple-change h = record { at = h }

set_tree-Stands :
    (q : FilePath) (n : Node) (fs : Entries) (w : World)
    → lookup q fs ≡ some n
    → Stands q n 0 (set_tree fs w).1.entries (set_tree fs w).1.issued
unfolding set_tree
set_tree-Stands q n fs w h = record { here = h; drawn = omega arith }

write_all-Stands :
    (p : FilePath) (contents : List ℕ)
    → Triple Anything (write_all p contents) (λ u. Stands p (file contents) 0)
unfolding write_all
write_all-Stands p contents =
    Triple-bind _ _ (λ u. Anything) _ (Triple-of_Keeps _ (Keeps-Anything _))
      λ u. Triple-change _ _ λ w v h e.
        set_tree-Stands p (file contents) _ w
          (ground (arith, lookup-put p p (file contents) w.entries, path_eq_refl p))

moved :
    (from to : FilePath) (n : Node) (fs : Entries)
    → under to from ≡ false
    → lookup from fs ≡ some n
    → lookup to (move from to fs) ≡ some n
moved from to n fs h k =
    let target = lookup-move_target from to [] fs in
    ground (arith, target, append-nil from, append-nil to)

rename_over-Stands :
    (o : Option Node) (from to : FilePath) (n : Node) (w : World) (u : Unit {0})
    → under to from ≡ false
    → lookup from w.entries ≡ some n
    → (rename_over o from to w.entries w).0 ≡ ok u
    → Stands to n 0
        (rename_over o from to w.entries w).1.entries
        (rename_over o from to w.entries w).1.issued
unfolding raise
rename_over-Stands none from to n w u h k e = cc
rename_over-Stands (some m) from to n w u h k e =
    elim (Bool-cases
      (rename_allowed (some m) (node_at to w.entries) (is_empty (children to w.entries)))) [
        | inl allowed ↦
            rw allowed
              (set_tree-Stands to n (move from to w.entries) w (moved from to n w.entries h k))
        | inr refused ↦ cc
      ]

rename-Stands :
    (from to : FilePath) (n : Node)
    → under to from ≡ false
    → Triple (Stands from n 0) (rename from to) (λ u. Stands to n 0)
unfolding rename
rename-Stands from to n h =
    Triple-bind _ _ (λ u. Stands from n 0) _ (Triple-of_Keeps _ Keeps-system_call)
      λ u.
        Triple-change _ _
          λ w v s e. rename_over-Stands (node_at from w.entries) from to n w v h s.here e

write_and_replace-Stands :
    (temporary p : FilePath) (contents : List ℕ)
    → under p temporary ≡ false
    → Triple Anything (write_and_replace temporary p contents) (λ u. Stands p (file contents) 0)
unfolding write_and_replace
write_and_replace-Stands temporary p contents h = Triple-undone_by _ _ _ (
    Triple-bind _ _ (λ u. Anything) _ (Triple-of_Keeps _ (Keeps-Anything _))
      λ u.
        Triple-bind _ _ (λ u. Stands temporary (file contents) 0) _
          (Triple-map_err _ _ _ (write_all-Stands temporary contents))
          λ u.
            Triple-bind _ _ (λ u. Stands temporary (file contents) 0) _
              (Triple-of_Keeps _ (Keeps-map_err _ _ Keeps-system_call))
              λ u.
                Triple-bind _ _ (λ u. Stands temporary (file contents) 0) _
                  (Triple-of_Keeps _ (Keeps-map_err _ _ Keeps-system_call))
                  λ u. Triple-map_err _ _ _ (rename-Stands temporary p (file contents) h))

parent-join : (dir : FilePath) (name : Text) → parent (join dir name) ≡ some dir
parent-join [] name = refl
parent-join (c ∷ []) name = refl
parent-join (c ∷ d ∷ rest) name = ground (arith, parent-join (d ∷ rest) name)

file_name-join : (dir : FilePath) (name : Text) → file_name (join dir name) ≡ some name
file_name-join [] name = refl
file_name-join (c ∷ []) name = refl
file_name-join (c ∷ d ∷ rest) name = file_name-join (d ∷ rest) name

-- A temporary name is longer than the name that it stands for.
temporary_name-differs : (name id : Text) → text_eq name (temporary_name name id) ≡ false
temporary_name-differs name id = elim (Bool-cases (text_eq name (temporary_name name id))) [
  | inl same ↦
      let lengths =
        ap (λ (t : Text). length t) ((text_eq_iff name (temporary_name name id)).0 same) in
      absurd (omega (arith, lengths, length-append name (codes ".tmp-" ++ id)))
  | inr differs ↦ differs
]

temporary-apart :
    (dir : FilePath) (name id : Text)
    → under (join dir name) (join dir (temporary_name name id)) ≡ false
unfolding under
temporary-apart [] name id = ground (arith, temporary_name-differs name id)
temporary-apart (c ∷ dir) name id = ground (arith, temporary-apart dir name id, text_eq_refl c)

-- The parent and the name that the write computes are those that the path was joined from.
write_at-Stands :
    (dir found_dir : FilePath) (name id : Text) (contents : List ℕ)
    → found_dir ≡ dir
    → Triple Anything
        (write_and_replace
          (found_dir ++ temporary_name (name_or_file (file_name (join dir name))) id ∷ [])
          (join dir name)
          contents)
        (λ u. Stands (join dir name) (file contents) 0)
write_at-Stands dir found_dir name id contents same =
    write_and_replace-Stands _ (join dir name) contents
      (rw (same, file_name-join dir name) (temporary-apart dir name id))

pub atomic_write_private-Stands :
    (uuid : ℕ → Text) (dir : FilePath) (name : Text) (contents : List ℕ)
    → Triple Anything
        (atomic_write_private uuid (join dir name) contents)
        (λ u. Stands (join dir name) (file contents) 0)
unfolding atomic_write_private
atomic_write_private-Stands uuid dir name contents =
    Triple-bind _ _ (λ a fs issued. a ≡ dir) _
      (Triple-lift _ (λ a. a ≡ dir) λ a e. ground (arith, parent-join dir name))
      λ a. record {
        at = Triple-known _ _ λ same.
            Triple-bind _ _ (λ u. Anything) _ (Triple-of_Keeps _ (Keeps-Anything _))
              λ u.
                Triple-bind _ _ (λ id. Anything) _ (Triple-of_Keeps _ (Keeps-Anything _))
                  λ id.
                    Triple-bind _ _ (λ u. Stands (join dir name) (file contents) 0) _
                      (write_at-Stands dir a name id contents same)
                      λ u. Triple-of_Keeps _ (Keeps-best_effort _ Keeps-system_call);
      }

-- An atomic write that returns has left its contents at its path.
pub atomic_write_private-writes :
    (uuid : ℕ → Text) (dir : FilePath) (name : Text) (contents : List ℕ) (w : World)
    → (atomic_write_private uuid (join dir name) contents w).0 ≡ ok tt
    → lookup (join dir name) (atomic_write_private uuid (join dir name) contents w).1.entries
      ≡ some (file contents)
atomic_write_private-writes uuid dir name contents w h =
    ((atomic_write_private-Stands uuid dir name contents).at w tt (record {}) h).here
