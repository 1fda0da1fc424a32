-- ===== src/Core/Prog.antt =====
-- Code that acts on the file tree and may fail. What was done before an error stays done, so the
-- world comes back beside the error too.
pub mod Keeps
pub mod OnError
pub mod Yields
pub mod Triple
use saiai_client.Prelude.{ℕ, Bool, true, false, List, Text}
use saiai_client.Prelude.Result.{Result, ok, err}
use saiai_client.Core.Error.{FilePath}
use saiai_client.Core.Fs.{Entries}

-- `trouble` says of each system call to come whether it fails; past its end none does. `issued`
-- counts the identifiers that were drawn, and `held` lists the lease files that another process
-- has locked.
pub record World : Type 0 where
  pub entries : Entries
  pub issued : ℕ
  pub trouble : List Bool
  pub held : List FilePath

abbrev pub Prog {ℓ κ} : Type ℓ → Type κ → Type (ℓ ⊔ κ)
Prog E A = World → Result E A × World

module _ {ℓ κ} {E : Type ℓ} {A : Type κ} where
  unfoldable pub pure : A → Prog E A
  pure a w = (ok a, w)

  unfoldable pub raise : E → Prog E A
  raise e w = (err e, w)

  -- A step that only computes.
  unfoldable pub lift : Result E A → Prog E A
  lift r w = (r, w)

  -- `match m { … }`: the result becomes a value.
  unfoldable pub outcome_of {μ} : {F : Type μ} → Prog E A → Prog F (Result E A)
  outcome_of m w = let (r, w') = m w in (ok r, w')

  -- `let _ = m;`
  unfoldable pub best_effort {μ} : {F : Type μ} → Prog E A → Prog F (Unit {0})
  best_effort m w = let (r, w') = m w in (ok tt, w')

  abbrev cleaned {μ} : {F : Type μ} → Prog F (Unit {0}) → Result E A → World → Result E A × World
  cleaned cleanup (ok a) w = (ok a, w)
  cleaned cleanup (err e) w = (err e, (cleanup w).1)

  -- A guard whose `drop` undoes a body that failed, unless it was disarmed.
  unfoldable pub undone_by {μ} : {F : Type μ} → Prog E A → Prog F (Unit {0}) → Prog E A
  undone_by body cleanup w = let (r, w') = body w in cleaned cleanup r w'

module _ {ℓ κ μ} {E : Type ℓ} {A : Type κ} {B : Type μ} where
  abbrev pub continue : Result E A → (A → Prog E B) → Prog E B
  continue (ok a) f w = f a w
  continue (err e) f w = (err e, w)

  infixl 10 ◌>>=◌
  unfoldable pub ◌>>=◌ : Prog E A → (A → Prog E B) → Prog E B
  ◌>>=◌ m f w = let (r, w') = m w in continue r f w'

module _ {ℓ μ} {E : Type ℓ} {B : Type μ} where
  infixl 10 ◌>>◌
  abbrev pub ◌>>◌ : Prog E (Unit {0}) → Prog E B → Prog E B
  m >> k = m >>= λ _. k

abbrev mapped {ℓ κ μ} : {E : Type ℓ} {F : Type κ} {A : Type μ} → (E → F) → Result E A → Result F A
mapped f (ok a) = ok a
mapped f (err e) = err (f e)

unfoldable pub map_err {ℓ κ μ} :
    {E : Type ℓ} {F : Type κ} {A : Type μ} → (E → F) → Prog E A → Prog F A
map_err f m w = let (r, w') = m w in (mapped f r, w')
