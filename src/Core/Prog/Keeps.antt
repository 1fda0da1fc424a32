-- ===== src/Core/Prog/Keeps.antt =====
-- Invariants of programs, one rule for each way to build one. An invariant speaks of the file tree
-- and of the identifiers that were drawn.
use saiai_client.Prelude.{ℕ, ◌≡◌, refl, Bool, true, false, if◌then◌else◌}
use saiai_client.Prelude.Result.{Result, ok, err}
use saiai_client.Core.Fs.{Entries}
use saiai_client.Core.Prog.{
  World, Prog, pure, raise, lift, outcome_of, best_effort, undone_by, cleaned, continue, map_err,
  ◌>>=◌,
}

abbrev pub Invariant : Type 1
Invariant = Entries → ℕ → Type 0

-- The tree is a given one.
pub record SameTree (fs fs' : Entries) (issued : ℕ) : Type 0 where
  pub same : fs' ≡ fs

-- `m` keeps `P`, whether it returns or fails.
pub record Keeps {ℓ κ} {E : Type ℓ} {A : Type κ} (P : Invariant) (m : Prog E A) : Type 0 where
  pub at : (w : World) → P w.entries w.issued → P (m w).1.entries (m w).1.issued

module _ {ℓ κ} {E : Type ℓ} {A : Type κ} {P : Invariant} where
  pub Keeps-pure : (a : A) → Keeps P (pure {E = E} a)
  unfolding pure
  Keeps-pure a = record { at = λ w h. h }

  pub Keeps-raise : (e : E) → Keeps P (raise {A = A} e)
  unfolding raise
  Keeps-raise e = record { at = λ w h. h }

  pub Keeps-lift : (r : Result E A) → Keeps P (lift r)
  unfolding lift
  Keeps-lift r = record { at = λ w h. h }

  pub Keeps-if : (b : Bool) (m n : Prog E A) → Keeps P m → Keeps P n → Keeps P (if b then m else n)
  Keeps-if true m n km kn = km
  Keeps-if false m n km kn = kn

  -- The `else` branch may use that the test failed.
  pub Keeps-if_else :
      (b : Bool) (m n : Prog E A)
      → Keeps P m
      → (b ≡ false → Keeps P n)
      → Keeps P (if b then m else n)
  Keeps-if_else true m n km kn = km
  Keeps-if_else false m n km kn = kn refl

  pub Keeps-outcome_of {μ} :
      {F : Type μ} (m : Prog E A) → Keeps P m → Keeps P (outcome_of {F = F} m)
  unfolding outcome_of
  Keeps-outcome_of m k = record { at = k.at }

  pub Keeps-best_effort {μ} :
      {F : Type μ} (m : Prog E A) → Keeps P m → Keeps P (best_effort {F = F} m)
  unfolding best_effort
  Keeps-best_effort m k = record { at = k.at }

  cleaned-Keeps {μ} :
      {F : Type μ} (c : Prog F (Unit {0})) (r : Result E A) (w : World)
      → Keeps P c
      → P w.entries w.issued
      → P (cleaned c r w).1.entries (cleaned c r w).1.issued
  cleaned-Keeps c (ok a) w k h = h
  cleaned-Keeps c (err e) w k h = k.at w h

  pub Keeps-undone_by {μ} :
      {F : Type μ} (m : Prog E A) (c : Prog F (Unit {0}))
      → Keeps P m
      → Keeps P c
      → Keeps P (undone_by m c)
  unfolding undone_by
  Keeps-undone_by m c km kc = record { at = λ w h. cleaned-Keeps c (m w).0 (m w).1 kc (km.at w h) }

-- The program returned `a` from some world in which the invariant held.
pub record Returned {ℓ κ} {E : Type ℓ} {A : Type κ} (P : Invariant) (m : Prog E A) (a : A)
    : Type (ℓ ⊔ κ) where
  pub before : World
  pub invariant : P before.entries before.issued
  pub result : (m before).0 ≡ ok a

module _ {ℓ κ μ} {E : Type ℓ} {A : Type κ} {B : Type μ} {P : Invariant} where
  continue-Keeps :
      (r : Result E A) (f : A → Prog E B) (w : World)
      → ((a : A) → r ≡ ok a → Keeps P (f a))
      → P w.entries w.issued
      → P (continue r f w).1.entries (continue r f w).1.issued
  continue-Keeps (ok a) f w k h = (k a refl).at w h
  continue-Keeps (err e) f w k h = h

  -- The rest of the block may use that the first part returned its value.
  pub Keeps-bind_result :
      (m : Prog E A) (f : A → Prog E B)
      → Keeps P m
      → ((a : A) → Returned P m a → Keeps P (f a))
      → Keeps P (m >>= f)
  unfolding ◌>>=◌
  Keeps-bind_result m f km kf = record {
    at = λ w h.
        continue-Keeps (m w).0 f (m w).1
          (λ a e. kf a (record { before = w; invariant = h; result = e })) (km.at w h);
  }

  pub Keeps-bind :
      (m : Prog E A) (f : A → Prog E B) → Keeps P m → ((a : A) → Keeps P (f a)) → Keeps P (m >>= f)
  Keeps-bind m f km kf = Keeps-bind_result m f km (λ a _. kf a)

  pub Keeps-map_err : (f : E → B) (m : Prog E A) → Keeps P m → Keeps P (map_err f m)
  unfolding map_err
  Keeps-map_err f m k = record { at = k.at }

pub ruleset keeps_rules = (
  Keeps-pure, Keeps-raise, Keeps-lift, Keeps-if, Keeps-outcome_of, Keeps-best_effort,
  Keeps-undone_by, Keeps-bind, Keeps-map_err,
)
