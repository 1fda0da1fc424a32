-- ===== src/Core/Prog/Triple.antt =====
-- What holds after a program that returned.
use saiai_client.Prelude.{ℕ, ◌≡◌, refl}
use saiai_client.Prelude.Result.{Result, ok, err}
use saiai_client.Core.Fs.{Entries}
use saiai_client.Core.Prog.{World, Prog, lift, undone_by, cleaned, continue, mapped, map_err, ◌>>=◌}
use saiai_client.Core.Prog.Keeps.{Invariant, Keeps}

-- If `m` starts where `P` holds and returns `a`, then `Q a` holds afterwards.
pub record Triple {ℓ κ} {E : Type ℓ} {A : Type κ} (P : Invariant) (m : Prog E A) (Q : A → Invariant)
    : Type (ℓ ⊔ κ) where
  pub at :
      (w : World) (a : A)
      → P w.entries w.issued
      → (m w).0 ≡ ok a
      → Q a (m w).1.entries (m w).1.issued

module _ {ℓ κ} {E : Type ℓ} {A : Type κ} {P : Invariant} where
  pub Triple-of_Keeps : (m : Prog E A) → Keeps P m → Triple P m (λ a. P)
  Triple-of_Keeps m k = record { at = λ w a h e. k.at w h }

cleaned-Triple {ℓ κ μ} :
    {E : Type ℓ} {A : Type κ} {F : Type μ} (Q : A → Invariant) (c : Prog F (Unit {0}))
    (r : Result E A) (w : World) (a : A)
    → (r ≡ ok a → Q a w.entries w.issued)
    → (cleaned c r w).0 ≡ ok a
    → Q a (cleaned c r w).1.entries (cleaned c r w).1.issued
cleaned-Triple Q c (ok b) w a h e = h e
cleaned-Triple Q c (err x) w a h e = cc

pub Triple-undone_by {ℓ κ μ} :
    {E : Type ℓ} {A : Type κ} {F : Type μ} {P : Invariant} (m : Prog E A) (c : Prog F (Unit {0}))
    (Q : A → Invariant)
    → Triple P m Q
    → Triple P (undone_by m c) Q
unfolding undone_by
Triple-undone_by m c Q t = record {
  at = λ w a h. cleaned-Triple Q c (m w).0 (m w).1 a (t.at w a h);
}

mapped-ok {ℓ κ μ} :
    {E : Type ℓ} {F : Type κ} {A : Type μ} (f : E → F) (r : Result E A) (a : A)
    → mapped f r ≡ ok a
    → r ≡ ok a
mapped-ok f (ok b) a e = cc
mapped-ok f (err x) a e = cc

pub Triple-map_err {ℓ κ μ} :
    {E : Type ℓ} {F : Type κ} {A : Type μ} {P : Invariant} (f : E → F) (m : Prog E A)
    (Q : A → Invariant)
    → Triple P m Q
    → Triple P (map_err f m) Q
unfolding map_err
Triple-map_err f m Q t = record { at = λ w a h e. t.at w a h (mapped-ok f (m w).0 a e) }

continue-Triple {ℓ κ μ} :
    {E : Type ℓ} {A : Type κ} {B : Type μ} (R : A → Invariant) (Q : B → Invariant) (r : Result E A)
    (f : A → Prog E B) (w : World) (b : B)
    → ((a : A) → r ≡ ok a → R a w.entries w.issued)
    → ((a : A) → Triple (R a) (f a) Q)
    → (continue r f w).0 ≡ ok b
    → Q b (continue r f w).1.entries (continue r f w).1.issued
continue-Triple R Q (ok a) f w b h k e = (k a).at w b (h a refl) e
continue-Triple R Q (err x) f w b h k e = cc

pub Triple-bind {ℓ κ μ} :
    {E : Type ℓ} {A : Type κ} {B : Type μ} {P : Invariant} (m : Prog E A) (f : A → Prog E B)
    (R : A → Invariant) (Q : B → Invariant)
    → Triple P m R
    → ((a : A) → Triple (R a) (f a) Q)
    → Triple P (m >>= f) Q
unfolding ◌>>=◌
Triple-bind m f R Q t k = record {
  at = λ w b h. continue-Triple R Q (m w).0 f (m w).1 b (λ a e. t.at w a h e) k;
}

-- Whatever the tree
pub record Anything (fs : Entries) (issued : ℕ) : Type 0 where

pub Keeps-Anything {ℓ κ} : {E : Type ℓ} {A : Type κ} (m : Prog E A) → Keeps Anything m
Keeps-Anything m = record { at = λ w h. record {} }

-- A fact about the values computed so far is a hypothesis of the rest.
pub Triple-known {ℓ κ μ} :
    {E : Type ℓ} {A : Type κ} {X : Type μ} (m : Prog E A) (Q : A → Invariant)
    → (X → Triple Anything m Q)
    → (w : World) (a : A) → X
    → (m w).0 ≡ ok a
    → Q a (m w).1.entries (m w).1.issued
Triple-known m Q t w a x = (t x).at w a (record {})

pub Triple-lift {ℓ κ} :
    {E : Type ℓ} {A : Type κ} (r : Result E A) (X : A → Type 0)
    → ((a : A) → r ≡ ok a → X a)
    → Triple Anything (lift r) (λ a fs issued. X a)
unfolding lift
Triple-lift r X h = record { at = λ w a _ e. h a e }
