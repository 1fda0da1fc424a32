-- ===== src/Core/Revoke/Quarantine/Keeps.antt =====
-- The quarantine of a revocation moves and restores nothing at a path that it does not hold.
use mathlib.Core.List.{reverse-cons}
use saiai_client.Prelude.{
  ℕ, ◌≡◌, Bool, true, false, Option, none, some, List, [], ◌∷◌, ◌++◌, Text, All, is_empty, reverse,
  if◌then◌else◌,
}
use saiai_client.Prelude.Result.{Result, ok, err}
use saiai_client.Core.Error.{Error, FilePath, IoKind}
use saiai_client.Core.Refs.{Product, quarantine_prefix}
use saiai_client.Core.Fs.{Node, under, join}
use saiai_client.Core.Fs.Laws.{path_eq-of_not_under, under-below}
use saiai_client.Core.Prog.Keeps.{
  Keeps, Keeps-pure, Keeps-bind, Keeps-if, Keeps-outcome_of, Keeps-best_effort,
}
use saiai_client.Core.Prog.Yields.{Yields, Yields-pure, Yields-bind, Yields-then}
use saiai_client.Core.Sys.{parent, file_name}
use saiai_client.Core.Sys.Keeps.{Stands, Keeps-read_dir, Keeps-rename, Keeps-remove_dir}
use saiai_client.Core.Files.Keeps.{
  Keeps-path_present_no_follow, Keeps-ensure_private_dir, Keeps-remove_dir_if_exists,
}
use saiai_client.Core.Revoke.Own.{insert_path-All}
use saiai_client.Core.Revoke.Quarantine.{
  QuarantinedPath, RevokeQuarantine, restore_present, restore_inspected, restore_quarantined,
  restore_entry, restore_all, removed_root, retain_roots, rollback, drop_armed, Moved, or_failure,
  roll_back_with, moved_to, move_unless, move_into, move_prepared, move_from, move_if_present,
  move_path, purge,
}

All-append {ℓ} :
    {A : Type ℓ} (P : A → Type 0) (xs ys : List A) → All P xs → All P ys → All P (xs ++ ys)
All-append P [] ys h k = k
All-append P (x ∷ xs) ys (h, hs) k = (h, All-append P xs ys hs k)

All-reverse {ℓ} : {A : Type ℓ} (P : A → Type 0) (xs : List A) → All P xs → All P (reverse xs)
All-reverse P [] h = tt
All-reverse P (x ∷ xs) (h, hs) =
    rw (reverse-cons x xs) (All-append P (reverse xs) (x ∷ []) (All-reverse P xs hs) (h, tt))

-- The path is not held by the entry, by a root, or by the state.
abbrev EntrySpares : FilePath → QuarantinedPath → Type 0
EntrySpares q entry = (under entry.original q ≡ false) × (under entry.quarantined q ≡ false)

abbrev pub RootSpares : FilePath → FilePath → Type 0
RootSpares q root = under root q ≡ false

abbrev pub StateSpares : FilePath → RevokeQuarantine → Type 0
StateSpares q state = All (EntrySpares q) state.entries × All (RootSpares q) state.roots

abbrev pub MovedSpares : FilePath → Moved → Type 0
MovedSpares q r = StateSpares q r.1

kept-Spares :
    (q : FilePath) (b : Bool) (entry : QuarantinedPath) (kept : List QuarantinedPath)
    → EntrySpares q entry
    → All (EntrySpares q) kept
    → All (EntrySpares q) (if b then entry ∷ kept else kept)
kept-Spares q true entry kept h k = (h, k)
kept-Spares q false entry kept h k = k

retained-Spares :
    (q : FilePath) (b : Bool) (root : FilePath) (roots : List FilePath)
    → RootSpares q root
    → All (RootSpares q) roots
    → All (RootSpares q) (if b then roots else root ∷ roots)
retained-Spares q true root roots h k = k
retained-Spares q false root roots h k = (h, k)

or_failure-Spares :
    (q : FilePath) (r : Result Error (Unit {0}) × RevokeQuarantine) (why : Error)
    → StateSpares q r.1
    → MovedSpares q (or_failure r why)
or_failure-Spares q (err e, state) why h = h
or_failure-Spares q (ok u, state) why h = h

module _ {q : FilePath} {n : Node} {n₀ : ℕ} where
  Keeps-restore_present :
      (entry : QuarantinedPath) (b c : Bool)
      → EntrySpares q entry
      → Keeps (Stands q n n₀) (restore_present entry b c)
  Keeps-restore_present entry false c h = Keeps-pure _
  Keeps-restore_present entry true true h = Keeps-pure _
  Keeps-restore_present entry true false (h, k) =
      Keeps-bind _ _ (Keeps-outcome_of _ (Keeps-rename entry.quarantined entry.original k h))
        λ r. Keeps-pure _

  Keeps-restore_inspected :
      (entry : QuarantinedPath) (b : Bool) (r : Result Error Bool)
      → EntrySpares q entry
      → Keeps (Stands q n n₀) (restore_inspected entry b r)
  Keeps-restore_inspected entry b (err e) h = Keeps-pure _
  Keeps-restore_inspected entry b (ok c) h = Keeps-restore_present entry b c h

  Keeps-restore_quarantined :
      (entry : QuarantinedPath) (r : Result Error Bool)
      → EntrySpares q entry
      → Keeps (Stands q n n₀) (restore_quarantined entry r)
  Keeps-restore_quarantined entry (err e) h = Keeps-pure _
  Keeps-restore_quarantined entry (ok b) h =
      Keeps-bind _ _ (Keeps-outcome_of _ (Keeps-path_present_no_follow entry.original))
        λ o. Keeps-restore_inspected entry b o h

  Keeps-restore_entry :
      (entry : QuarantinedPath) → EntrySpares q entry → Keeps (Stands q n n₀) (restore_entry entry)
  unfolding restore_entry
  Keeps-restore_entry entry h =
      Keeps-bind _ _ (Keeps-outcome_of _ (Keeps-path_present_no_follow entry.quarantined))
        λ r. Keeps-restore_quarantined entry r h

  restore_all-Yields :
      (entries : List QuarantinedPath)
      → All (EntrySpares q) entries
      → Yields (Stands q n n₀) (restore_all entries) (λ r. All (EntrySpares q) r.1)
  unfolding restore_all
  restore_all-Yields [] h = Yields-pure _ _ tt
  restore_all-Yields (entry ∷ entries) (h, hs) =
      Yields-then _ _ _ (Keeps-restore_entry entry h) λ r.
        Yields-bind _ _ _ _ (restore_all-Yields entries hs)
          λ rest k. Yields-pure _ _ (kept-Spares q r.kept entry rest.1 h k)

  Keeps-removed_root :
      (r : Result IoKind (List Text)) (root : FilePath)
      → RootSpares q root
      → Keeps (Stands q n n₀) (removed_root r root)
  Keeps-removed_root (err k) root h = Keeps-pure _
  Keeps-removed_root (ok names) root h =
      Keeps-if (is_empty names) _ _
        (Keeps-bind _ _ (Keeps-outcome_of _ (Keeps-remove_dir root (path_eq-of_not_under root q h)))
          λ r. Keeps-pure _)
        (Keeps-pure _)

  retain_roots-Yields :
      (roots : List FilePath)
      → All (RootSpares q) roots
      → Yields (Stands q n n₀) (retain_roots roots) (All (RootSpares q))
  unfolding retain_roots
  retain_roots-Yields [] h = Yields-pure _ _ tt
  retain_roots-Yields (root ∷ roots) (h, hs) =
      Yields-then _ _ _ (Keeps-outcome_of _ (Keeps-read_dir root)) λ listed.
        Yields-then _ _ _ (Keeps-removed_root listed root h) λ gone.
          Yields-bind _ _ _ _ (retain_roots-Yields roots hs)
            λ rest k. Yields-pure _ _ (retained-Spares q gone root rest h k)

  pub rollback-Yields :
      (state : RevokeQuarantine)
      → StateSpares q state
      → Yields (Stands q n n₀) (rollback state) (λ r. StateSpares q r.1)
  unfolding rollback
  rollback-Yields state (h, k) =
      Yields-bind _ _ _ _
        (restore_all-Yields (reverse state.entries) (All-reverse (EntrySpares q) state.entries h))
        λ r hr.
          Yields-bind _ _ _ _ (retain_roots-Yields state.roots k)
            λ roots hk. Yields-pure _ _ (All-reverse (EntrySpares q) r.1 hr, hk)

  pub Keeps-drop_armed :
      (state : RevokeQuarantine) → StateSpares q state → Keeps (Stands q n n₀) (drop_armed state)
  unfolding drop_armed
  Keeps-drop_armed state h = Keeps-best_effort _ (rollback-Yields state h).keeps

  roll_back_with-Yields :
      (state : RevokeQuarantine) (why : Error)
      → StateSpares q state
      → Yields (Stands q n n₀) (roll_back_with state why) (MovedSpares q)
  roll_back_with-Yields state why h =
      Yields-bind _ _ _ _ (rollback-Yields state h)
        λ r k. Yields-pure _ _ (or_failure-Spares q r why k)

  moved_to-Yields :
      (state : RevokeQuarantine) (original destination : FilePath) (r : Result IoKind (Unit {0}))
      → StateSpares q state
      → under original q ≡ false
      → under destination q ≡ false
      → Yields (Stands q n n₀) (moved_to state original destination r) (MovedSpares q)
  moved_to-Yields state original destination (err k) s h d = roll_back_with-Yields state _ s
  moved_to-Yields state original destination (ok u) (es, rs) h d =
      Yields-pure _ _ (All-append (EntrySpares q) state.entries _ es ((h, d), tt), rs)

  move_unless-Yields :
      (state : RevokeQuarantine) (original destination : FilePath) (r : Result Error Bool)
      → StateSpares q state
      → under original q ≡ false
      → under destination q ≡ false
      → Yields (Stands q n n₀) (move_unless state original destination r) (MovedSpares q)
  move_unless-Yields state original destination (err e) s h d = Yields-pure _ _ s
  move_unless-Yields state original destination (ok true) s h d = roll_back_with-Yields state _ s
  move_unless-Yields state original destination (ok false) s h d =
      Yields-then _ _ _ (Keeps-outcome_of _ (Keeps-rename original destination h d))
        λ r. moved_to-Yields state original destination r s h d

  move_into-Yields :
      (state : RevokeQuarantine) (original root : FilePath) (name : Option Text)
      → StateSpares q state
      → under original q ≡ false
      → RootSpares q root
      → Yields (Stands q n n₀) (move_into state original root name) (MovedSpares q)
  move_into-Yields state original root none s h d = Yields-pure _ _ s
  move_into-Yields state original root (some name) s h d =
      Yields-then _ _ _ (Keeps-outcome_of _ (Keeps-path_present_no_follow (join root name))) λ r.
        move_unless-Yields state original (join root name) r s h (under-below root (name ∷ []) q d)

  move_prepared-Yields :
      (state : RevokeQuarantine) (original root : FilePath) (r : Result Error (Unit {0}))
      → StateSpares q state
      → under original q ≡ false
      → RootSpares q root
      → Yields (Stands q n n₀) (move_prepared state original root r) (MovedSpares q)
  move_prepared-Yields state original root (err e) s h d = Yields-pure _ _ s
  move_prepared-Yields state original root (ok u) (es, rs) h d =
      move_into-Yields _ original root (file_name original)
        (es, insert_path-All (RootSpares q) root state.roots d rs) h d

  module _ (p : Product) (id : Text)
      (fresh : (directory : FilePath)
        → under (join directory (quarantine_prefix p ++ id)) q ≡ false) where
    move_from-Yields :
        (state : RevokeQuarantine) (original : FilePath) (directory : Option FilePath)
        → StateSpares q state
        → under original q ≡ false
        → Yields (Stands q n n₀) (move_from p id state original directory) (MovedSpares q)
    move_from-Yields state original none s h = Yields-pure _ _ s
    move_from-Yields state original (some directory) s h =
        Yields-then _ _ _
          (Keeps-outcome_of _
            (Keeps-ensure_private_dir (join directory (quarantine_prefix p ++ id))))
          λ r. move_prepared-Yields state original _ r s h (fresh directory)

    move_if_present-Yields :
        (state : RevokeQuarantine) (original : FilePath) (r : Result Error Bool)
        → StateSpares q state
        → under original q ≡ false
        → Yields (Stands q n n₀) (move_if_present p id state original r) (MovedSpares q)
    move_if_present-Yields state original (err e) s h = Yields-pure _ _ s
    move_if_present-Yields state original (ok false) s h = Yields-pure _ _ s
    move_if_present-Yields state original (ok true) s h =
        move_from-Yields state original (parent original) s h

    pub move_path-Yields :
        (state : RevokeQuarantine) (original : FilePath)
        → StateSpares q state
        → under original q ≡ false
        → Yields (Stands q n n₀) (move_path p id state original) (MovedSpares q)
    unfolding move_path
    move_path-Yields state original s h =
        Yields-then _ _ _ (Keeps-outcome_of _ (Keeps-path_present_no_follow original))
          λ r. move_if_present-Yields state original r s h

  pub Keeps-purge :
      (roots : List FilePath) → All (RootSpares q) roots → Keeps (Stands q n n₀) (purge roots)
  unfolding purge
  Keeps-purge [] h = Keeps-pure tt
  Keeps-purge (root ∷ roots) (h, hs) =
      Keeps-bind _ _ (Keeps-best_effort _ (Keeps-remove_dir_if_exists root h))
        λ _. Keeps-purge roots hs
