-- ===== src/Core/Files/Keeps.antt =====
-- What the file operations leave alone.
use saiai_client.Prelude.{
  ℕ, ◌+◌, ◌≤◌, ◌≡◌, ◌≢◌, refl, Bool, true, false, List, [], ◌∷◌, ◌++◌, Text, codes, text_eq_iff,
  All, arith, append-nil, append_assoc,
}
use mathlib.Core.Path.{subst}
use saiai_client.Prelude.Result.{Result, ok, err}
use saiai_client.Core.Error.{FilePath, IoKind, not_found, already_exists, other}
use saiai_client.Core.Fs.{Node, under}
use saiai_client.Core.Fs.Laws.{path_eq-of_not_under}
use saiai_client.Core.Prog.{◌>>=◌}
use saiai_client.Core.Prog.Keeps.{
  Invariant, Keeps, Keeps-bind, Keeps-raise, Keeps-pure, Keeps-if, Keeps-lift, Keeps-map_err,
  Keeps-best_effort, Keeps-outcome_of, keeps_rules,
}
use saiai_client.Core.Sys.{new_v4, file_name}
use saiai_client.Core.Sys.Keeps.{
  Stands, sys_reads, Keeps-symlink_metadata, Keeps-system_call, Keeps-create_dir_all,
  Keeps-create_new, Keeps-write_all, Keeps-rename, Keeps-remove_file, Keeps-remove_dir,
  Keeps-remove_dir_all,
}
use saiai_client.Core.Files.{
  Action, path_present_no_follow, reject_symlink_if_present, validate_directory_if_present,
  ensure_private_dir, inspect_managed_component, inspect_components, ensure_no_managed_symlinks,
  name_or_file, temporary_name, write_and_replace, atomic_write_private, RemovalKind,
  file_or_file_link, directory_link, directory_tree, removal_kind, removal, remove_present,
  is_symlink, is_dir, remove_dir_if_exists, promote_new_directory,
}

module _ {P : Invariant} where
  pub Keeps-path_present_no_follow : (p : FilePath) → Keeps P (path_present_no_follow p)
  unfolding path_present_no_follow
  Keeps-path_present_no_follow p = search sys_reads

  pub Keeps-reject_symlink_if_present : (p : FilePath) → Keeps P (reject_symlink_if_present p)
  unfolding reject_symlink_if_present
  Keeps-reject_symlink_if_present p = search sys_reads

  pub Keeps-validate_directory_if_present :
      (p : FilePath) → Keeps P (validate_directory_if_present p)
  unfolding validate_directory_if_present
  Keeps-validate_directory_if_present p = search sys_reads

  Keeps-inspect_managed_component :
      (p : FilePath) (b : Bool) → Keeps P (inspect_managed_component p b)
  unfolding inspect_managed_component
  Keeps-inspect_managed_component p b = search sys_reads

  Keeps-inspect_components : (p rest : FilePath) → Keeps P (inspect_components p rest)
  unfolding inspect_components
  Keeps-inspect_components p [] = Keeps-pure tt
  Keeps-inspect_components p (c ∷ rest) =
      Keeps-bind _ _ (Keeps-inspect_managed_component _ _) λ present.
        Keeps-if present _ _ (Keeps-inspect_components (p ++ c ∷ []) rest) (Keeps-pure tt)

  pub Keeps-ensure_no_managed_symlinks :
      (root target : FilePath) → Keeps P (ensure_no_managed_symlinks root target)
  unfolding ensure_no_managed_symlinks
  Keeps-ensure_no_managed_symlinks root target =
      search (keeps_rules, Keeps-inspect_managed_component, Keeps-inspect_components)

-- The path names no identifier that is still to be drawn.
abbrev pub Avoids : (ℕ → Text) → ℕ → FilePath → Type 0
Avoids uuid n₀ q =
    (k : ℕ) → n₀ ≤ k → (before after : Text) → All (λ c. c ≢ before ++ (uuid k ++ after)) q

pub not_under_of_All :
    (p : FilePath) (c : Text) (rest q : FilePath)
    → All (λ d. d ≢ c) q
    → under (p ++ c ∷ rest) q ≡ false
unfolding under
not_under_of_All [] c rest [] h = refl
not_under_of_All [] c rest (d ∷ q) (h, hs) = ground (arith, h, text_eq_iff c d)
not_under_of_All (x ∷ p) c rest [] h = refl
not_under_of_All (x ∷ p) c rest (d ∷ q) (h, hs) = ground (arith, not_under_of_All p c rest q hs)

pub temporary_name-Avoids :
    (uuid : ℕ → Text) (n₀ k : ℕ) (q dir : FilePath) (name : Text)
    → Avoids uuid n₀ q
    → n₀ ≤ k
    → under (dir ++ temporary_name name (uuid k) ∷ []) q ≡ false
temporary_name-Avoids uuid n₀ k q dir name avoids h =
    not_under_of_All dir (temporary_name name (uuid k)) [] q (
      subst (λ t. All (λ c. c ≢ t) q) split_name
        (avoids k h (codes "." ++ (name ++ codes ".tmp-")) []))
  where
    split_name :
        (codes "." ++ (name ++ codes ".tmp-")) ++ (uuid k ++ []) ≡ temporary_name name (uuid k)
    split_name = simp (append_assoc, append-nil)

module _ {q : FilePath} {n : Node} {n₀ : ℕ} where
  pub Keeps-ensure_private_dir : (p : FilePath) → Keeps (Stands q n n₀) (ensure_private_dir p)
  unfolding ensure_private_dir
  Keeps-ensure_private_dir p =
      search
        (keeps_rules, Keeps-validate_directory_if_present, Keeps-create_dir_all, Keeps-system_call)

  pub Keeps-fresh {ℓ} :
      {A : Type ℓ} (uuid : ℕ → Text) (f : Text → Action A)
      → ((k : ℕ) → n₀ ≤ k → Keeps (Stands q n n₀) (f (uuid k)))
      → Keeps (Stands q n n₀) (new_v4 uuid >>= f)
  unfolding new_v4 ◌>>=◌
  Keeps-fresh uuid f h = record {
    at = λ w s.
        (h w.issued s.drawn).at (record w { issued = w.issued + 1 })
          (record { here = s.here; drawn = ground (arith, s.drawn) });
  }

  Keeps-write_and_replace :
      (temporary p : FilePath) (contents : List ℕ)
      → under temporary q ≡ false
      → under p q ≡ false
      → Keeps (Stands q n n₀) (write_and_replace temporary p contents)
  unfolding write_and_replace
  Keeps-write_and_replace temporary p contents h k =
      let apart = path_eq-of_not_under temporary q h in
      search
        (
          keeps_rules,
          Keeps-system_call,
          Keeps-create_new,
          Keeps-write_all temporary contents apart,
          Keeps-rename temporary p h k,
          Keeps-remove_file temporary apart,
        )
        depth 12

  pub Keeps-atomic_write_private :
      (uuid : ℕ → Text) (p : FilePath) (contents : List ℕ)
      → Avoids uuid n₀ q
      → under p q ≡ false
      → Keeps (Stands q n n₀) (atomic_write_private uuid p contents)
  unfolding atomic_write_private
  Keeps-atomic_write_private uuid p contents avoids h = Keeps-bind _ _ (Keeps-lift _) λ dir.
      Keeps-bind _ _ (Keeps-ensure_private_dir dir) λ _. Keeps-fresh uuid _ λ k new.
        let apart = temporary_name-Avoids uuid n₀ k q dir (name_or_file (file_name p)) avoids new in
        Keeps-bind _ _ (Keeps-write_and_replace _ p contents apart h)
          λ _. Keeps-best_effort _ Keeps-system_call

  Keeps-removal :
      (kind : RemovalKind) (p : FilePath)
      → under p q ≡ false
      → Keeps (Stands q n n₀) (removal kind p)
  Keeps-removal file_or_file_link p h =
      Keeps-map_err _ _ (Keeps-remove_file p (path_eq-of_not_under p q h))
  Keeps-removal directory_link p h =
      Keeps-map_err _ _ (Keeps-remove_dir p (path_eq-of_not_under p q h))
  Keeps-removal directory_tree p h = Keeps-map_err _ _ (Keeps-remove_dir_all p h)

  Keeps-remove_present :
      (p : FilePath) (r : Result IoKind Node)
      → under p q ≡ false
      → Keeps (Stands q n n₀) (remove_present p r)
  Keeps-remove_present p (ok m) h =
      Keeps-bind _ _ (Keeps-removal (removal_kind (is_symlink m) (is_dir m)) p h)
        λ _. Keeps-pure true
  Keeps-remove_present p (err not_found) h = Keeps-pure false
  Keeps-remove_present p (err already_exists) h = Keeps-raise _
  Keeps-remove_present p (err other) h = Keeps-raise _

  pub Keeps-remove_dir_if_exists :
      (p : FilePath) → under p q ≡ false → Keeps (Stands q n n₀) (remove_dir_if_exists p)
  unfolding remove_dir_if_exists
  Keeps-remove_dir_if_exists p h =
      Keeps-bind _ _ (Keeps-outcome_of _ (Keeps-symlink_metadata p)) λ r. Keeps-remove_present p r h

  pub Keeps-promote_new_directory :
      (source destination : FilePath)
      → under source q ≡ false
      → under destination q ≡ false
      → Keeps (Stands q n n₀) (promote_new_directory source destination)
  unfolding promote_new_directory
  Keeps-promote_new_directory source destination h k =
      search
        (
          keeps_rules,
          Keeps-path_present_no_follow,
          Keeps-ensure_private_dir,
          Keeps-system_call,
          Keeps-rename source destination h k,
        )
        depth 12
