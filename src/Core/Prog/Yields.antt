-- ===== src/Core/Prog/Yields.antt =====
-- Programs that keep an invariant and whose results satisfy a property.
use saiai_client.Prelude.{◌≡◌, Bool, true, false, if◌then◌else◌}
use saiai_client.Prelude.Result.{Result, ok}
use saiai_client.Core.Prog.{Prog, pure, raise, lift, ◌>>=◌}
use saiai_client.Core.Prog.Keeps.{Invariant, Keeps, Keeps-pure, Keeps-raise, Keeps-bind_result}
use saiai_client.Core.Prog.OnError.{Ensures, Ensures-pure, Ensures-raise, Ensures-bind_ensures}

pub record Yields {ℓ κ} {E : Type ℓ} {A : Type κ} (P : Invariant) (m : Prog E A) (Q : A → Type 0)
    : Type (ℓ ⊔ κ) where
  pub keeps : Keeps P m
  pub ensures : Ensures P m Q

module _ {ℓ κ} {E : Type ℓ} {A : Type κ} {P : Invariant} where
  pub Yields-pure : (a : A) (Q : A → Type 0) → Q a → Yields P (pure {E = E} a) Q
  Yields-pure a Q h = record { keeps = Keeps-pure a; ensures = Ensures-pure a Q h }

  pub Yields-raise : (x : E) (Q : A → Type 0) → Yields P (raise x) Q
  Yields-raise x Q = record { keeps = Keeps-raise x; ensures = Ensures-raise x Q }

  pub Yields-of_Keeps : (m : Prog E A) → Keeps P m → Yields P m (λ _. Unit {0})
  Yields-of_Keeps m k = record { keeps = k; ensures = record { at = λ w a h e. tt } }

  pub Yields-if :
      (b : Bool) (m n : Prog E A) (Q : A → Type 0)
      → Yields P m Q
      → Yields P n Q
      → Yields P (if b then m else n) Q
  Yields-if true m n Q h k = h
  Yields-if false m n Q h k = k

  -- The property is used only of the result that the program returns.
  pub Yields-lift :
      (r : Result E A) (Q : A → Type 0) → ((a : A) → r ≡ ok a → Q a) → Yields P (lift r) Q
  unfolding lift
  Yields-lift r Q h = record {
    keeps = record { at = λ w p. p };
    ensures = record { at = λ w a _ e. h a e };
  }

module _ {ℓ κ μ} {E : Type ℓ} {A : Type κ} {B : Type μ} {P : Invariant} where
  pub Yields-bind :
      (m : Prog E A) (f : A → Prog E B) (R : A → Type 0) (Q : B → Type 0)
      → Yields P m R
      → ((a : A) → R a → Yields P (f a) Q)
      → Yields P (m >>= f) Q
  Yields-bind m f R Q h k = record {
    keeps =
        Keeps-bind_result m f h.keeps
          (λ a r. (k a (h.ensures.at r.before a r.invariant r.result)).keeps);
    ensures = Ensures-bind_ensures m f R Q h.keeps h.ensures (λ a r. (k a r).ensures);
  }

  -- Nothing is asked of the first result.
  pub Yields-then :
      (m : Prog E A) (f : A → Prog E B) (Q : B → Type 0)
      → Keeps P m
      → ((a : A) → Yields P (f a) Q)
      → Yields P (m >>= f) Q
  Yields-then m f Q h k = Yields-bind m f (λ _. Unit {0}) Q (Yields-of_Keeps m h) (λ a _. k a)
