-- ===== src/Prelude/CharLaws.antt =====
-- Laws of the text operations.
use mathlib.Core.Path.{◌≡◌, refl, ap}
use mathlib.Core.Logic.{◌↔◌, inl, inr}
use mathlib.Core.Bool.{true, false}
use mathlib.Core.List.{[], ◌∷◌, ◌++◌}
use mathlib.Core.Option.{some}
use native.Mathlib.Omega.{arith}
use Prim.Native.Nat.{ℕ}
use saiai_client.Prelude.Tests.{Bool-cases}
use saiai_client.Prelude.Lists.{length, length-append}
use saiai_client.Prelude.Chars.{Text, text_eq, strip_prefix, strip_suffix}

pub text_eq_iff : (s t : Text) → (text_eq s t ≡ true) ↔ (s ≡ t)
text_eq_iff [] [] = (λ _. refl, λ _. refl)
text_eq_iff [] (d ∷ t) = (λ h. cc, λ h. cc)
text_eq_iff (c ∷ s) [] = (λ h. cc, λ h. cc)
text_eq_iff (c ∷ s) (d ∷ t) =
    let (to, from) = text_eq_iff s t in (λ h. ground (arith, to), λ h. ground (arith, from))

pub text_eq_refl : (s : Text) → text_eq s s ≡ true
text_eq_refl s = (text_eq_iff s s).1 refl

pub strip_prefix-append : (p s : Text) → strip_prefix (p ++ s) p ≡ some s
strip_prefix-append [] [] = refl
strip_prefix-append [] (c ∷ s) = refl
strip_prefix-append (d ∷ p) s = ground (arith, strip_prefix-append p s)

pub strip_prefix-eq-some : (s p r : Text) → strip_prefix s p ≡ some r → s ≡ p ++ r
strip_prefix-eq-some [] [] r h = cc
strip_prefix-eq-some (c ∷ s) [] r h = cc
strip_prefix-eq-some [] (d ∷ p) r h = cc
strip_prefix-eq-some (c ∷ s) (d ∷ p) r h = ground (arith, strip_prefix-eq-some s p r)

longer-ne : (c : ℕ) (v t : Text) → text_eq (c ∷ (v ++ t)) t ≡ false
longer-ne c v t = elim (Bool-cases (text_eq (c ∷ (v ++ t)) t)) [
  | inl same ↦ absurd (
      omega (
        arith,
        ap (λ (u : Text). length u) ((text_eq_iff (c ∷ (v ++ t)) t).0 same),
        length-append {0} v t,
      ))
  | inr other ↦ other
]

pub strip_suffix-append : (v t : Text) → strip_suffix (v ++ t) t ≡ some v
strip_suffix-append [] [] = refl
strip_suffix-append [] (d ∷ t) = rw (text_eq_refl (d ∷ t))
strip_suffix-append (c ∷ v) t = rw (longer-ne c v t, strip_suffix-append v t)
