-- ===== src/Upstream/Glob/Meaning.antt =====
-- What a bypass pattern of tools/saiai-cli/src/upstream_proxy.rs means, apart from how it is searched.
use saiai_client.Prelude.{
  ℕ, zero, suc, ◌<◌, ◌≡◌, ◌≢◌, refl, Bool, true, false, ◌&&◌, ◌||◌, List, [], ◌∷◌, ◌++◌, length,
  length-append, drop, All, all, arith, ◌==◌, if◌then◌else◌, is_empty, Bool-cases, inl, inr,
}

-- What the patterns mean: a star stands for any bytes, a question mark for one, and any other
-- byte for itself.
abbrev pub some_suffix : (List ℕ → Bool) → List ℕ → Bool
some_suffix f [] = f []
some_suffix f (d ∷ t) = f (d ∷ t) || some_suffix f t

abbrev pub first_byte : (ℕ → Bool) → (List ℕ → Bool) → List ℕ → Bool
first_byte ok_byte rest [] = false
first_byte ok_byte rest (d ∷ t) = ok_byte d && rest t

unfoldable pub glob_means : List ℕ → List ℕ → Bool
glob_means [] t = is_empty t
glob_means (c ∷ p) t =
    if c == b'*'
    then some_suffix (glob_means p) t
    else first_byte (λ d. c == d || c == b'?') (glob_means p) t

-- A pattern without stars matches bytes of the same number one by one.
abbrev pub Pointwise : List ℕ → List ℕ → Type 0
Pointwise [] [] = Unit
Pointwise [] (d ∷ t) = ⊥
Pointwise (c ∷ p) [] = ⊥
Pointwise (c ∷ p) (d ∷ t) = (c ≢ b'*') × ((c == d || c == b'?') ≡ true) × Pointwise p t

-- Behind such a match, only the rest matters.
pub means-Pointwise :
    (a b p t : List ℕ) → Pointwise a b → glob_means (a ++ p) (b ++ t) ≡ glob_means p t
unfolding glob_means
means-Pointwise [] [] p t h = refl
means-Pointwise [] (d ∷ b) p t h = absurd h
means-Pointwise (c ∷ a) [] p t h = absurd h
means-Pointwise (c ∷ a) (d ∷ b) p t (star, byte, h) = ground (arith, means-Pointwise a b p t h)

pub Bool-ext : (a b : Bool) → (a ≡ true → b ≡ true) → (b ≡ true → a ≡ true) → a ≡ b
Bool-ext true b h k = ground (arith, h refl)
Bool-ext false true h k = k refl
Bool-ext false false h k = refl

pub some_suffix_here : (f : List ℕ → Bool) (t : List ℕ) → f t ≡ true → some_suffix f t ≡ true
some_suffix_here f [] h = h
some_suffix_here f (d ∷ t) h = ground (arith, h)

-- What matches at a suffix behind `n` bytes matches behind `n` bytes of a longer text.
pub drop_longer :
    (f : List ℕ → Bool) (n d : ℕ) (t : List ℕ)
    → some_suffix f (drop n t) ≡ true
    → some_suffix f (drop n (d ∷ t)) ≡ true
drop_longer f zero d t h = ground (arith, h)
drop_longer f (suc zero) d [] h = h
drop_longer f (suc (suc n)) d [] h = h
drop_longer f (suc n) d (c ∷ t) h = drop_longer f n c t h

-- No star among the bytes of the pattern
abbrev pub IsFixed : List ℕ → Type 0
IsFixed a = All (λ c. c ≢ b'*') a

pub fixed_then_star :
    (a p u : List ℕ)
    → IsFixed a
    → glob_means (a ++ b'*' ∷ p) u ≡ true
    → some_suffix (glob_means p) (drop (length a) u) ≡ true
unfolding glob_means
fixed_then_star [] p u h m = m
fixed_then_star (c ∷ a) p [] (h, hs) m = ground (arith, h)
fixed_then_star (c ∷ a) p (d ∷ u) (h, hs) m = fixed_then_star a p u hs (ground (arith, h, m))

pub some_suffix_behind :
    (a p r : List ℕ)
    → IsFixed a
    → some_suffix (glob_means (a ++ b'*' ∷ p)) r ≡ true
    → some_suffix (glob_means p) (drop (length a) r) ≡ true
some_suffix_behind a p [] h m = fixed_then_star a p [] h m
some_suffix_behind a p (d ∷ r) h m = elim (Bool-cases (glob_means (a ++ b'*' ∷ p) (d ∷ r))) [
  | inl at_front ↦ fixed_then_star a p (d ∷ r) h at_front
  | inr further ↦
      drop_longer (glob_means p) (length a) d r
        (some_suffix_behind a p r h (ground (arith, further, m)))
]

pub too_short : (a p u : List ℕ) → IsFixed a → length u < length a → glob_means (a ++ p) u ≡ false
unfolding glob_means
too_short [] p u h l = absurd (omega arith)
too_short (c ∷ a) p [] (h, hs) l = ground (arith, h)
too_short (c ∷ a) p (d ∷ u) (h, hs) l = ground (arith, h, too_short a p u hs (omega arith))

pub some_suffix_too_short :
    (a p u : List ℕ) → IsFixed a → length u < length a → some_suffix (glob_means (a ++ p)) u ≡ false
some_suffix_too_short a p [] h l = too_short a p [] h l
some_suffix_too_short a p (d ∷ u) h l =
    let rest = some_suffix_too_short a p u h (omega arith) in
    ground (arith, too_short a p (d ∷ u) h l, rest)

pub Pointwise-IsFixed : (a b : List ℕ) → Pointwise a b → IsFixed a
Pointwise-IsFixed [] b h = tt
Pointwise-IsFixed (c ∷ a) [] h = absurd h
Pointwise-IsFixed (c ∷ a) (d ∷ b) (star, byte, h) = (star, Pointwise-IsFixed a b h)

pub Pointwise-length : (a b : List ℕ) → Pointwise a b → length a ≡ length b
Pointwise-length [] [] h = refl
Pointwise-length [] (d ∷ b) h = absurd h
Pointwise-length (c ∷ a) [] h = absurd h
Pointwise-length (c ∷ a) (d ∷ b) (star, byte, h) = omega (arith, Pointwise-length a b h)

pub drop-behind : (a b t : List ℕ) → Pointwise a b → drop (length a) (b ++ t) ≡ t
drop-behind [] [] t h = refl
drop-behind [] (d ∷ b) t h = absurd h
drop-behind (c ∷ a) [] t h = absurd h
drop-behind (c ∷ a) (d ∷ b) t (star, byte, h) = drop-behind a b t h

pub means_star : (p t : List ℕ) → glob_means (b'*' ∷ p) t ≡ some_suffix (glob_means p) t
unfolding glob_means
means_star p t = refl

-- At a star, the search may forget where the one before it was.
pub newer_star :
    (a b p t : List ℕ)
    → Pointwise a b
    → some_suffix (glob_means (a ++ b'*' ∷ p)) (b ++ t) ≡ some_suffix (glob_means p) t
newer_star a b p t h =
    Bool-ext (some_suffix (glob_means (a ++ b'*' ∷ p)) (b ++ t)) (some_suffix (glob_means p) t)
      (λ m. cc (drop-behind a b t h, some_suffix_behind a p (b ++ t) (Pointwise-IsFixed a b h) m))
      (λ m.
        some_suffix_here (glob_means (a ++ b'*' ∷ p)) (b ++ t)
          (cc (means-Pointwise a b (b'*' ∷ p) t h, means_star p t, m)))

pub all_stars : (p : List ℕ) → all (λ c. c == b'*') p ≡ glob_means p []
unfolding glob_means
all_stars [] = refl
all_stars (c ∷ p) = ground (arith, all_stars p)

-- At the end of the text, a later start leaves too little.
pub at_end :
    (a b p : List ℕ) → Pointwise a b → some_suffix (glob_means (a ++ p)) (b ++ []) ≡ glob_means p []
at_end a [] p h = means-Pointwise a [] p [] h
at_end a (d ∷ b) p h =
    let shorter =
      some_suffix_too_short a p (b ++ []) (Pointwise-IsFixed a (d ∷ b) h)
        (omega (arith, Pointwise-length a (d ∷ b) h, length-append {0} b [])) in
    ground (arith, means-Pointwise a (d ∷ b) p [] h, shorter)

module _ (c d : ℕ) (p t : List ℕ) where
  pub mismatch :
      (c == d || c == b'?') ≡ false → (c == b'*') ≡ false → glob_means (c ∷ p) (d ∷ t) ≡ false
  unfolding glob_means
  mismatch h k = ground (arith, h, k)

  pub fixed_byte : d ≢ b'*' → (c == d || c == b'?') ≡ true → c ≢ b'*'
  fixed_byte h k e = ground (arith, h, k)

  pub one_byte :
      c ≢ b'*' → (c == d || c == b'?') ≡ true → glob_means (c ∷ p) (d ∷ t) ≡ glob_means p t
  unfolding glob_means
  one_byte h k = ground (arith, k)

pub nothing : (d : ℕ) (t : List ℕ) → glob_means [] (d ∷ t) ≡ false
unfolding glob_means
nothing d t = refl

pub Pointwise-snoc :
    (a b : List ℕ) (c d : ℕ)
    → Pointwise a b
    → c ≢ b'*'
    → (c == d || c == b'?') ≡ true
    → Pointwise (a ++ c ∷ []) (b ++ d ∷ [])
Pointwise-snoc [] [] c d h star byte = (star, byte, tt)
Pointwise-snoc [] (e ∷ b) c d h star byte = absurd h
Pointwise-snoc (e ∷ a) [] c d h star byte = absurd h
Pointwise-snoc (e ∷ a) (f ∷ b) c d (h, k, hs) star byte =
    (h, k, Pointwise-snoc a b c d hs star byte)

pub at_star :
    (c : ℕ) (p t : List ℕ)
    → (c == b'*') ≡ true
    → glob_means (c ∷ p) t ≡ some_suffix (glob_means p) t
unfolding glob_means
at_star c p t e = ground (arith, e)
