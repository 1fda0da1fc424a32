-- ===== src/Core/Fs/Laws.antt =====
-- What stands at a path after each change of the tree.
use saiai_client.Prelude.{
  ◌≡◌, ◌↔◌, refl, ap, true, false, none, some, [], ◌∷◌, ◌++◌, text_eq_iff, text_eq_refl, arith,
  if◌then◌else◌, Bool-cases, Option-cases, inl, inr,
}
use saiai_client.Core.Error.{FilePath}
use saiai_client.Core.Fs.{
  Node, Entries, path_eq, strip_path, under, lookup, put, delete, delete_tree, relocated, relocate,
  move,
}

pub path_eq_iff : (p q : FilePath) → (path_eq p q ≡ true) ↔ (p ≡ q)
unfolding path_eq
path_eq_iff [] [] = (λ _. refl, λ _. refl)
path_eq_iff [] (d ∷ q) = (λ h. cc, λ h. cc)
path_eq_iff (c ∷ p) [] = (λ h. cc, λ h. cc)
path_eq_iff (c ∷ p) (d ∷ q) =
    let (to, from) = path_eq_iff p q in
    (λ h. ground (arith, to, text_eq_iff c d), λ h. ground (arith, from, text_eq_iff c d))

pub path_eq_refl : (p : FilePath) → path_eq p p ≡ true
path_eq_refl p = (path_eq_iff p p).1 refl

pub under_refl : (p : FilePath) → under p p ≡ true
unfolding under
under_refl [] = refl
under_refl (c ∷ p) = ground (arith, under_refl p, text_eq_refl c)

-- A path that does not lie below p is not p.
pub path_eq-of_not_under : (p q : FilePath) → under p q ≡ false → path_eq p q ≡ false
unfolding under path_eq
path_eq-of_not_under [] q h = cc
path_eq-of_not_under (c ∷ p) [] h = refl
path_eq-of_not_under (c ∷ p) (d ∷ q) h = ground (arith, path_eq-of_not_under p q)

pub lookup-put :
    (p q : FilePath) (n : Node) (fs : Entries)
    → lookup q (put p n fs) ≡ (if path_eq p q then some n else lookup q fs)
unfolding lookup put
lookup-put p q n [] = refl
lookup-put p q n ((r, m) ∷ fs) =
    ground (arith, lookup-put p q n fs, path_eq_iff r p, path_eq_iff r q, path_eq_iff p q)

pub lookup-delete :
    (p q : FilePath) (fs : Entries)
    → lookup q (delete p fs) ≡ (if path_eq p q then none else lookup q fs)
unfolding lookup delete
lookup-delete p q [] = ground arith
lookup-delete p q ((r, m) ∷ fs) =
    ground (arith, lookup-delete p q fs, path_eq_iff r p, path_eq_iff r q, path_eq_iff p q)

pub lookup-delete_tree :
    (p q : FilePath) (fs : Entries)
    → lookup q (delete_tree p fs) ≡ (if under p q then none else lookup q fs)
unfolding lookup delete_tree
lookup-delete_tree p q [] = ground arith
lookup-delete_tree p q ((r, m) ∷ fs) = ground (arith, lookup-delete_tree p q fs, path_eq_iff r q)

under-append : (p r : FilePath) → under p (p ++ r) ≡ true
unfolding under
under-append [] r = refl
under-append (c ∷ p) r = ground (arith, under-append p r, text_eq_refl c)

strip_path-eq-some : (p q r : FilePath) → strip_path p q ≡ some r → q ≡ p ++ r
unfolding strip_path
strip_path-eq-some [] q r h = cc
strip_path-eq-some (c ∷ p) [] r h = cc
strip_path-eq-some (c ∷ p) (d ∷ q) r h = ground (arith, strip_path-eq-some p q r, text_eq_iff c d)

strip_path-under : (p q : FilePath) → strip_path p q ≡ none → under p q ≡ false
unfolding strip_path under
strip_path-under [] q h = cc
strip_path-under (c ∷ p) [] h = refl
strip_path-under (c ∷ p) (d ∷ q) h = ground (arith, strip_path-under p q)

-- A path that is outside a tree is no path of it.
outside-ne : (p r q : FilePath) → under p q ≡ false → path_eq (p ++ r) q ≡ false
outside-ne p r q h = elim (Bool-cases (path_eq (p ++ r) q)) [
  | inl same ↦ cc (under-append p r, ap (λ x. under p x) ((path_eq_iff (p ++ r) q).0 same))
  | inr other ↦ other
]

relocated-ne :
    (from to p q : FilePath)
    → under from q ≡ false
    → under to q ≡ false
    → path_eq (relocated to p (strip_path from p)) q ≡ path_eq p q
relocated-ne from to p q h k = elim (Option-cases (strip_path from p)) [
  | inl gone ↦ rw gone
  | inr (r, e) ↦ cc (e, strip_path-eq-some from p r e, outside-ne to r q k, outside-ne from r q h)
]

-- A path below neither end of a rename keeps what stands there.
pub lookup-relocate_other :
    (from to q : FilePath) (fs : Entries)
    → under from q ≡ false
    → under to q ≡ false
    → lookup q (relocate from to fs) ≡ lookup q fs
unfolding lookup relocate
lookup-relocate_other from to q [] h k = refl
lookup-relocate_other from to q ((p, n) ∷ fs) h k =
    ground (arith, relocated-ne from to p q h k, lookup-relocate_other from to q fs h k)

pub lookup-move_other :
    (from to q : FilePath) (fs : Entries)
    → under from q ≡ false
    → under to q ≡ false
    → lookup q (move from to fs) ≡ lookup q fs
unfolding move
lookup-move_other from to q fs h k =
    ground (arith, lookup-relocate_other from to q (delete_tree to fs), lookup-delete_tree to q fs)

path_eq-append : (p r q : FilePath) → path_eq (p ++ r) (p ++ q) ≡ path_eq r q
unfolding path_eq
path_eq-append [] r q = refl
path_eq-append (c ∷ p) r q = ground (arith, path_eq-append p r q, text_eq_refl c)

path_eq-sym : (p q : FilePath) → path_eq p q ≡ path_eq q p
path_eq-sym p q = ground (arith, path_eq_iff p q, path_eq_iff q p)

relocated-target :
    (from to p r : FilePath)
    → under to p ≡ false
    → path_eq (relocated to p (strip_path from p)) (to ++ r) ≡ path_eq p (from ++ r)
relocated-target from to p r h = elim (Option-cases (strip_path from p)) [
  | inl gone ↦ cc (
    gone,
    path_eq-sym (to ++ r) p,
    outside-ne to r p h,
    path_eq-sym (from ++ r) p,
    outside-ne from r p (strip_path-under from p gone),
  )
  | inr (t, e) ↦
      cc (e, strip_path-eq-some from p t e, path_eq-append to t r, path_eq-append from t r)
]

-- What stood below the source stands below the destination.
pub lookup-move_target :
    (from to r : FilePath) (fs : Entries)
    → under to (from ++ r) ≡ false
    → lookup (to ++ r) (move from to fs) ≡ lookup (from ++ r) fs
unfolding move delete_tree lookup relocate
lookup-move_target from to r [] h = refl
lookup-move_target from to r ((p, n) ∷ fs) h = elim (Bool-cases (under to p)) [
  | inl below ↦
      rw below (ground (arith, lookup-move_target from to r fs h, path_eq_iff p (from ++ r)))
  | inr above ↦
      rw above
        (ground (arith, lookup-move_target from to r fs h, relocated-target from to p r above))
]

-- What lies outside a tree lies outside every tree below it.
pub under-below : (p r q : FilePath) → under p q ≡ false → under (p ++ r) q ≡ false
unfolding under
under-below [] r q h = cc
under-below (c ∷ p) r [] h = refl
under-below (c ∷ p) r (d ∷ q) h = ground (arith, under-below p r q)
