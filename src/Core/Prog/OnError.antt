-- ===== src/Core/Prog/OnError.antt =====
-- Programs that keep an invariant when they fail, and programs that do not fail.
use saiai_client.Prelude.{◌≡◌, refl, Bool, true, false, if◌then◌else◌}
use mathlib.Core.Path.{subst}
use saiai_client.Prelude.Result.{Result, ok, err}
use saiai_client.Core.Prog.{
  World, Prog, pure, raise, outcome_of, best_effort, undone_by, cleaned, continue, mapped, map_err,
  ◌>>=◌,
}
use saiai_client.Core.Prog.Keeps.{Invariant, Keeps}

-- A run that fails leaves a tree in which `P` still holds.
pub record KeepsOnErr {ℓ κ} {E : Type ℓ} {A : Type κ} (P : Invariant) (m : Prog E A)
    : Type (ℓ ⊔ κ) where
  pub at :
      (w : World) (x : E)
      → P w.entries w.issued
      → (m w).0 ≡ err x
      → P (m w).1.entries (m w).1.issued

pub record NeverFails {ℓ κ} {E : Type ℓ} {A : Type κ} (m : Prog E A) : Type (ℓ ⊔ κ) where
  pub at : (w : World) (x : E) → ¬ (m w).0 ≡ err x

module _ {ℓ κ} {E : Type ℓ} {A : Type κ} where
  pub NeverFails-pure : (a : A) → NeverFails (pure {E = E} a)
  unfolding pure
  NeverFails-pure a = record { at = λ w x h. cc }

  pub NeverFails-if :
      (b : Bool) (m n : Prog E A) → NeverFails m → NeverFails n → NeverFails (if b then m else n)
  NeverFails-if true m n h k = h
  NeverFails-if false m n h k = k

  pub NeverFails-best_effort {μ} : {F : Type μ} (m : Prog E A) → NeverFails (best_effort {F = F} m)
  unfolding best_effort
  NeverFails-best_effort m = record { at = λ w x h. cc }

  pub NeverFails-outcome_of {μ} : {F : Type μ} (m : Prog E A) → NeverFails (outcome_of {F = F} m)
  unfolding outcome_of
  NeverFails-outcome_of m = record { at = λ w x h. cc }

module _ {ℓ κ μ} {E : Type ℓ} {A : Type κ} {B : Type μ} where
  continue-NeverFails :
      (r : Result E A) (f : A → Prog E B) (w : World) (x : E)
      → ((y : E) → ¬ r ≡ err y)
      → ((a : A) → NeverFails (f a))
      → ¬ (continue r f w).0 ≡ err x
  continue-NeverFails (ok a) f w x hr hf = (hf a).at w x
  continue-NeverFails (err y) f w x hr hf = λ _. hr y refl

  pub NeverFails-bind :
      (m : Prog E A) (f : A → Prog E B)
      → NeverFails m
      → ((a : A) → NeverFails (f a))
      → NeverFails (m >>= f)
  unfolding ◌>>=◌
  NeverFails-bind m f h k = record {
    at = λ w x. continue-NeverFails (m w).0 f (m w).1 x (λ y. h.at w y) k;
  }

pub ruleset total_rules =
    (NeverFails-pure, NeverFails-if, NeverFails-best_effort, NeverFails-outcome_of, NeverFails-bind)

module _ {ℓ κ} {E : Type ℓ} {A : Type κ} {P : Invariant} where
  pub KeepsOnErr-of_Keeps : (m : Prog E A) → Keeps P m → KeepsOnErr P m
  KeepsOnErr-of_Keeps m k = record { at = λ w x h _. k.at w h }

  cleaned-KeepsOnErr {μ} :
      {F : Type μ} (c : Prog F (Unit {0})) (r : Result E A) (w : World) (x : E)
      → Keeps P c
      → ((y : E) → r ≡ err y → P w.entries w.issued)
      → (cleaned c r w).0 ≡ err x
      → P (cleaned c r w).1.entries (cleaned c r w).1.issued
  cleaned-KeepsOnErr c (ok a) w x kc h e = cc
  cleaned-KeepsOnErr c (err y) w x kc h e = kc.at w (h y refl)

  pub KeepsOnErr-undone_by {μ} :
      {F : Type μ} (m : Prog E A) (c : Prog F (Unit {0}))
      → KeepsOnErr P m
      → Keeps P c
      → KeepsOnErr P (undone_by m c)
  unfolding undone_by
  KeepsOnErr-undone_by m c km kc = record {
    at = λ w x h. cleaned-KeepsOnErr c (m w).0 (m w).1 x kc (λ y. km.at w y h);
  }

mapped-err {ℓ κ μ} :
    {E : Type ℓ} {A : Type κ} {B : Type μ} (f : E → B) (r : Result E A) (x : B)
    → mapped {A = A} f r ≡ err x
    → (y : E) × r ≡ err y
mapped-err f (ok a) x h = cc
mapped-err f (err y) x h = (y, refl)

continue-total {ℓ κ μ} :
    {E : Type ℓ} {A : Type κ} {B : Type μ} (P : Invariant) (r : Result E A) (f : A → Prog E B)
    (w : World) (x : E)
    → ((a : A) → NeverFails (f a))
    → ((y : E) → r ≡ err y → P w.entries w.issued)
    → (continue r f w).0 ≡ err x
    → P (continue r f w).1.entries (continue r f w).1.issued
continue-total P (ok a) f w x k h e = absurd ((k a).at w x e)
continue-total P (err y) f w x k h e = h y refl

module _ {ℓ κ μ} {E : Type ℓ} {A : Type κ} {B : Type μ} {P : Invariant} where
  pub continue-KeepsOnErr :
      (r : Result E A) (f : A → Prog E B) (w : World) (x : E)
      → ((a : A) → r ≡ ok a → KeepsOnErr P (f a))
      → P w.entries w.issued
      → (continue r f w).0 ≡ err x
      → P (continue r f w).1.entries (continue r f w).1.issued
  continue-KeepsOnErr (ok a) f w x k h = (k a refl).at w x h
  continue-KeepsOnErr (err y) f w x k h = λ _. h

  pub KeepsOnErr-bind :
      (m : Prog E A) (f : A → Prog E B)
      → Keeps P m
      → ((a : A) → KeepsOnErr P (f a))
      → KeepsOnErr P (m >>= f)
  unfolding ◌>>=◌
  KeepsOnErr-bind m f km kf = record {
    at = λ w x h. continue-KeepsOnErr (m w).0 f (m w).1 x (λ a _. kf a) (km.at w h);
  }

  -- A program that may change what it likes when it succeeds is followed only by code that does not fail.
  pub KeepsOnErr-bind_total :
      (m : Prog E A) (f : A → Prog E B)
      → KeepsOnErr P m
      → ((a : A) → NeverFails (f a))
      → KeepsOnErr P (m >>= f)
  unfolding ◌>>=◌
  KeepsOnErr-bind_total m f km kf = record {
    at = λ w x h. continue-total P (m w).0 f (m w).1 x kf (λ y. km.at w y h);
  }

  pub KeepsOnErr-map_err : (f : E → B) (m : Prog E A) → KeepsOnErr P m → KeepsOnErr P (map_err f m)
  unfolding map_err
  KeepsOnErr-map_err f m k = record {
    at = λ w x h e. let (y, failed) = mapped-err f (m w).0 x e in k.at w y h failed;
  }

same_ok {ℓ κ} :
    {E : Type ℓ} {A : Type κ} (Q : A → Type 0) (a b : A) (r : Result E A)
    → r ≡ ok a
    → r ≡ ok b
    → Q a
    → Q b
same_ok Q a b r e f h = let same : a ≡ b = cc in subst Q same h

-- Whatever the program returns satisfies `Q`, if it starts where `P` holds.
pub record Ensures {ℓ κ} {E : Type ℓ} {A : Type κ} (P : Invariant) (m : Prog E A) (Q : A → Type 0)
    : Type (ℓ ⊔ κ) where
  pub at : (w : World) (a : A) → P w.entries w.issued → (m w).0 ≡ ok a → Q a

module _ {ℓ κ} {E : Type ℓ} {A : Type κ} {P : Invariant} where
  pub Ensures-pure : (a : A) (Q : A → Type 0) → Q a → Ensures P (pure {E = E} a) Q
  unfolding pure
  Ensures-pure a Q h = record { at = λ w b _ e. same_ok Q a b (ok a) refl e h }

module _ {ℓ κ} {E : Type ℓ} {A : Type κ} {P : Invariant} where
  pub Ensures-raise : (x : E) (Q : A → Type 0) → Ensures P (raise x) Q
  unfolding raise
  Ensures-raise x Q = record { at = λ w a _ e. cc }

  pub Ensures-if :
      (b : Bool) (m n : Prog E A) (Q : A → Type 0)
      → Ensures P m Q
      → Ensures P n Q
      → Ensures P (if b then m else n) Q
  Ensures-if true m n Q h k = h
  Ensures-if false m n Q h k = k

module _ {ℓ κ μ} {E : Type ℓ} {A : Type κ} {B : Type μ} {P : Invariant} where
  continue-Ensures :
      (r : Result E A) (f : A → Prog E B) (Q : B → Type 0) (w : World) (b : B)
      → ((a : A) → r ≡ ok a → Ensures P (f a) Q)
      → P w.entries w.issued
      → (continue r f w).0 ≡ ok b
      → Q b
  continue-Ensures (ok a) f Q w b k h e = (k a refl).at w b h e
  continue-Ensures (err y) f Q w b k h e = cc

  pub Ensures-bind :
      (m : Prog E A) (f : A → Prog E B) (Q : B → Type 0)
      → Keeps P m
      → ((a : A) → Ensures P (f a) Q)
      → Ensures P (m >>= f) Q
  unfolding ◌>>=◌
  Ensures-bind m f Q km kf = record {
    at = λ w b h. continue-Ensures (m w).0 f Q (m w).1 b (λ a _. kf a) (km.at w h);
  }

  pub Ensures-bind_ensures :
      (m : Prog E A) (f : A → Prog E B) (R : A → Type 0) (Q : B → Type 0)
      → Keeps P m
      → Ensures P m R
      → ((a : A) → R a → Ensures P (f a) Q)
      → Ensures P (m >>= f) Q
  unfolding ◌>>=◌
  Ensures-bind_ensures m f R Q km em kf = record {
    at = λ w b h. continue-Ensures (m w).0 f Q (m w).1 b (λ a e. kf a (em.at w a h e)) (km.at w h);
  }

  pub KeepsOnErr-bind_ensures :
      (m : Prog E A) (f : A → Prog E B) (Q : A → Type 0)
      → Keeps P m
      → Ensures P m Q
      → ((a : A) → Q a → KeepsOnErr P (f a))
      → KeepsOnErr P (m >>= f)
  unfolding ◌>>=◌
  KeepsOnErr-bind_ensures m f Q km em kf = record {
    at = λ w x h. continue-KeepsOnErr (m w).0 f (m w).1 x (λ a e. kf a (em.at w a h e)) (km.at w h);
  }
