-- ===== src/Prelude/Result.antt =====
-- Rust's `Result`, with `?` as the bind.
use mathlib.Core.Path.{◌≡◌, refl}
use mathlib.Core.Bool.{Bool, true, false}
use mathlib.Core.Option.{Option, none, some}

-- `E` is the error.
pub data Result {ℓ κ} (E : Type ℓ) (A : Type κ) : Type (ℓ ⊔ κ) where
  err : E → Result E A
  ok : A → Result E A

module _ {ℓ κ} {E : Type ℓ} {B : Type κ} where
  infixl 5 ◌>>=◌ ◌>>◌
  -- `let a = m?; next`
  abbrev pub ◌>>=◌ {μ} : {A : Type μ} → Result E A → (A → Result E B) → Result E B
  err why >>= next = err why
  ok value >>= next = next value

  -- `check?; next`
  abbrev pub ◌>>◌ : Result E (Unit {0}) → Result E B → Result E B
  check >> next = check >>= (λ unit. next)

-- `if bad { return Err(e) }`
abbrev pub refuse_if {ℓ} : {E : Type ℓ} → Bool → E → Result E (Unit {0})
refuse_if true e = err e
refuse_if false e = ok tt

-- `o.ok_or(e)?`
abbrev pub ok_or {ℓ κ} : {E : Type ℓ} {A : Type κ} → Option A → E → Result E A
ok_or none e = err e
ok_or (some a) e = ok a

abbrev pub is_ok {ℓ κ} : {E : Type ℓ} {A : Type κ} → Result E A → Bool
is_ok (ok a) = true
is_ok (err e) = false

module _ {ℓ κ μ} {E : Type ℓ} {A : Type κ} {B : Type μ} where
  -- A block that returned went through its first part.
  pub >>=-eq-ok :
      (first : Result E A) (next : A → Result E B) {b : B} (returned : (first >>= next) ≡ ok b)
      → (a : A) × (first ≡ ok a) × (next a ≡ ok b)
  >>=-eq-ok (err why) next returned = cc
  >>=-eq-ok (ok value) next returned = (value, refl, returned)

-- A block goes on behind a passed check.
pub refuse_if-passed {ℓ κ} :
    {E : Type ℓ} {B : Type κ} (b : Bool) (e : E) (k : Result E B) {r : B}
    → (refuse_if b e >> k) ≡ ok r
    → (b ≡ false) × (k ≡ ok r)
refuse_if-passed true e k h = cc
refuse_if-passed false e k h = (refl, h)
