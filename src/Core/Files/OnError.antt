-- ===== src/Core/Files/OnError.antt =====
-- A replacement that fails leaves even its own target alone.
use saiai_client.Prelude.{
  ℕ, ◌+◌, ◌≤◌, arith, ◌≡◌, Bool, true, false, Option, none, some, List, Text, is_empty,
  if◌then◌else◌,
}
use saiai_client.Core.Error.{Error, FilePath, other}
use saiai_client.Prelude.Result.{err}
use saiai_client.Core.Fs.{lookup, Node, Entries, under, move, children}
use saiai_client.Core.Fs.Laws.{path_eq-of_not_under}
use saiai_client.Core.Prog.{World, raise, ◌>>=◌}
use saiai_client.Core.Prog.Keeps.{
  Invariant, Keeps-raise, Keeps-lift, Keeps-map_err, Keeps-best_effort,
}
use saiai_client.Core.Prog.OnError.{
  KeepsOnErr, NeverFails-best_effort, KeepsOnErr-of_Keeps, KeepsOnErr-bind, KeepsOnErr-bind_total,
  KeepsOnErr-map_err, KeepsOnErr-undone_by,
}
use saiai_client.Core.Sys.{
  set_tree, node_at, rename_allowed, rename_over, rename, file_name, new_v4,
}
use saiai_client.Core.Sys.Keeps.{
  Stands, Keeps-system_call, Keeps-tree, Keeps-create_new, Keeps-write_all, Keeps-remove_file,
}
use saiai_client.Core.Files.{Action, write_and_replace, atomic_write_private, name_or_file}
use saiai_client.Core.Files.Keeps.{Avoids, Keeps-ensure_private_dir, temporary_name-Avoids}

module _ {P : Invariant} where
  KeepsOnErr-set_tree : (fs : Entries) → KeepsOnErr P (set_tree fs)
  unfolding set_tree
  KeepsOnErr-set_tree fs = record { at = λ w x h e. cc }

  set_or_raise : (b : Bool) (fs : Entries) → KeepsOnErr P (if b then set_tree fs else raise other)
  set_or_raise true fs = KeepsOnErr-set_tree fs
  set_or_raise false fs = KeepsOnErr-of_Keeps _ (Keeps-raise other)

  KeepsOnErr-rename_over :
      (o : Option Node) (from to : FilePath) (fs : Entries)
      → KeepsOnErr P (rename_over o from to fs)
  KeepsOnErr-rename_over none from to fs = KeepsOnErr-of_Keeps _ (Keeps-raise _)
  KeepsOnErr-rename_over (some m) from to fs =
      set_or_raise (rename_allowed (some m) (node_at to fs) (is_empty (children to fs)))
        (move from to fs)

  KeepsOnErr-rename : (from to : FilePath) → KeepsOnErr P (rename from to)
  unfolding rename
  KeepsOnErr-rename from to =
      KeepsOnErr-bind _ _ Keeps-system_call λ _.
        KeepsOnErr-bind _ _ Keeps-tree λ fs. KeepsOnErr-rename_over (node_at from fs) from to fs

module _ {q : FilePath} {n : Node} {n₀ : ℕ} where
  KeepsOnErr-write_and_replace :
      (temporary p : FilePath) (contents : List ℕ)
      → under temporary q ≡ false
      → KeepsOnErr (Stands q n n₀) (write_and_replace temporary p contents)
  unfolding write_and_replace
  KeepsOnErr-write_and_replace temporary p contents h =
      let apart = path_eq-of_not_under temporary q h in
      KeepsOnErr-undone_by _ _
        (KeepsOnErr-bind _ _ (Keeps-map_err _ _ (Keeps-create_new temporary)) λ _.
          KeepsOnErr-bind _ _ (Keeps-map_err _ _ (Keeps-write_all temporary contents apart)) λ _.
            KeepsOnErr-bind _ _ (Keeps-map_err _ _ Keeps-system_call) λ _.
              KeepsOnErr-bind _ _ (Keeps-map_err _ _ Keeps-system_call)
                λ _. KeepsOnErr-map_err _ _ (KeepsOnErr-rename temporary p))
        (Keeps-best_effort _ (Keeps-remove_file temporary apart))

  pub KeepsOnErr-fresh {ℓ} :
      {A : Type ℓ} (uuid : ℕ → Text) (f : Text → Action A)
      → ((k : ℕ) → n₀ ≤ k → KeepsOnErr (Stands q n n₀) (f (uuid k)))
      → KeepsOnErr (Stands q n n₀) (new_v4 uuid >>= f)
  unfolding new_v4 ◌>>=◌
  KeepsOnErr-fresh uuid f h = record {
    at = λ w x s.
        (h w.issued s.drawn).at (record w { issued = w.issued + 1 }) x
          (record { here = s.here; drawn = ground (arith, s.drawn) });
  }

  pub KeepsOnErr-atomic_write_private :
      (uuid : ℕ → Text) (p : FilePath) (contents : List ℕ)
      → Avoids uuid n₀ q
      → KeepsOnErr (Stands q n n₀) (atomic_write_private uuid p contents)
  unfolding atomic_write_private
  KeepsOnErr-atomic_write_private uuid p contents avoids = KeepsOnErr-bind _ _ (Keeps-lift _) λ dir.
      KeepsOnErr-bind _ _ (Keeps-ensure_private_dir dir) λ _. KeepsOnErr-fresh uuid _ λ k new.
        KeepsOnErr-bind_total _ _
          (KeepsOnErr-write_and_replace _ p contents
            (temporary_name-Avoids uuid n₀ k q dir (name_or_file (file_name p)) avoids new))
          λ _. NeverFails-best_effort _

-- Let a node stand at a path that names none of the identifiers still to be drawn. If an atomic
-- write of any file fails, the same node stands there afterwards, even if the path is that of the
-- file to be replaced.
pub atomic_write_private-unchanged :
    (q : FilePath) (n : Node) (uuid : ℕ → Text) (p : FilePath) (contents : List ℕ) (w : World)
    (x : Error)
    → lookup q w.entries ≡ some n
    → Avoids uuid w.issued q
    → (atomic_write_private uuid p contents w).0 ≡ err x
    → lookup q (atomic_write_private uuid p contents w).1.entries ≡ some n
atomic_write_private-unchanged q n uuid p contents w x here avoids failed =
    ((KeepsOnErr-atomic_write_private uuid p contents avoids).at w x
      (record { here = here; drawn = omega arith }) failed).here
