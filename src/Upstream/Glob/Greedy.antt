-- ===== src/Upstream/Glob/Greedy.antt =====
-- The greedy search with one place to resume at decides what a pattern means.
use saiai_client.Prelude.{
  ℕ, zero, suc, ◌+◌, ◌≤◌, ◌<◌, ◌≡◌, ◌≢◌, refl, sym, ap, ◌∙◌, Bool, true, false, ◌||◌, Option, none,
  some, List, [], ◌∷◌, ◌++◌, length, length-append, All, all, arith, ◌==◌, if◌then◌else◌,
  append_assoc,
}
use saiai_client.Upstream.Glob.{Round, returns, again, rounds}
use saiai_client.Upstream.Glob.Meaning.{
  some_suffix, glob_means, Pointwise, means-Pointwise, newer_star, all_stars, at_end, mismatch,
  fixed_byte, one_byte, nothing, Pointwise-snoc, at_star,
}

-- The state of the search: what is left of the pattern and of the text, and behind the last star
-- the pattern and the text that the search resumes at.
pub record Search : Type 0 where
  pub p : List ℕ
  pub t : List ℕ
  pub saved : Option (List ℕ × List ℕ)

abbrev pub tail : List ℕ → List ℕ
tail [] = []
tail (d ∷ t) = t

abbrev pub retry : Option (List ℕ × List ℕ) → Round Search
retry none = returns false
retry (some (s, r)) = again (record { p = s; t = tail r; saved = some (s, tail r) })

abbrev pub search_at : List ℕ → ℕ → List ℕ → Option (List ℕ × List ℕ) → Round Search
search_at [] d t saved = retry saved
search_at (c ∷ p) d t saved =
    if c == d || c == b'?'
    then again (record { p = p; t = t; saved = saved })
    else if c == b'*'
    then again (record { p = p; t = d ∷ t; saved = some (p, d ∷ t) })
    else retry saved

unfoldable pub search_round : Search → Round Search
search_round v = elim v.t [
  | [] ↦ returns (all (λ c. c == b'*') v.p)
  | d ∷ t ↦ search_at v.p d t v.saved
]

unfoldable pub search_loop : ℕ → Search → Option Bool
search_loop zero v = none
search_loop (suc fuel) v = elim (search_round v) [
  | returns b ↦ some b
  | again v' ↦ search_loop fuel v'
]

-- What the search still has to decide
abbrev meaning : Search → Bool
meaning v = elim v.saved [ none ↦ glob_means v.p v.t | some (s, r) ↦ some_suffix (glob_means s) r ]

-- A star in the text would be taken for a literal, and not for the star of the pattern.
abbrev pub HasNoStar : List ℕ → Type 0
HasNoStar t = All (λ d. d ≢ b'*') t

-- Between the last star and here, pattern and text matched one by one.
abbrev SavedIsGood : ℕ → List ℕ → List ℕ → Option (List ℕ × List ℕ) → Type 0
SavedIsGood width p t none = Unit
SavedIsGood width p t (some (s, r)) =
    (a : List ℕ) × (b : List ℕ) × (s ≡ a ++ p)
    × (r ≡ b ++ t)
    × Pointwise a b
    × (length r ≤ width)
    × HasNoStar r

abbrev IsGood : ℕ → Search → Type 0
IsGood width v = HasNoStar v.t × (length v.t ≤ width) × SavedIsGood width v.p v.t v.saved

abbrev outer : Search → ℕ
outer v = elim v.saved [ none ↦ suc (length v.p + length v.t) | some (s, r) ↦ length s + length r ]

abbrev cost : ℕ → Search → ℕ
cost width v = rounds (outer v) width + length v.t

rounds-lt : (m n width : ℕ) → m < n → rounds m width + suc width ≤ rounds n width
rounds-lt m zero width h = absurd (omega arith)
rounds-lt zero (suc n) width h = omega arith
rounds-lt (suc m) (suc n) width h = omega (arith, rounds-lt m n width (omega arith))

-- A round answers rightly, or leaves the answer as it is and comes closer to the end.
abbrev Progress : ℕ → Search → Round Search → Type 0
Progress width v (returns b) = b ≡ meaning v
Progress width v (again v') =
    IsGood width v' × (meaning v' ≡ meaning v) × (cost width v' < cost width v)

Progress-if :
    (width : ℕ) (v : Search) (b : Bool) (x y : Round Search)
    → (b ≡ true → Progress width v x)
    → (b ≡ false → Progress width v y)
    → Progress width v (if b then x else y)
Progress-if width v true x y h k = h refl
Progress-if width v false x y h k = k refl

retry-Progress :
    (width d : ℕ) (p t : List ℕ) (saved : Option (List ℕ × List ℕ))
    → IsGood width (record { p = p; t = d ∷ t; saved = saved })
    → glob_means p (d ∷ t) ≡ false
    → Progress width (record { p = p; t = d ∷ t; saved = saved }) (retry saved)
retry-Progress width d p t none g fails = cc
retry-Progress width d p t (some (s, [])) (ns, l, (a, [], es, er, h, lr, nr)) fails = cc
retry-Progress width d p t (some (s, [])) (ns, l, (a, c ∷ b, es, er, h, lr, nr)) fails = cc
retry-Progress width d p t (some (s, e ∷ r)) (ns, l, (a, b, es, er, h, lr, (ne, nr))) fails =
    let here = means-Pointwise a b p (d ∷ t) h in
    let front : glob_means s (e ∷ r) ≡ false = cc (here, fails) in
    (
      (nr, omega (arith, lr), ([], [], refl, refl, tt, omega (arith, lr), nr)),
      ground (arith, front),
      omega (
        arith,
        lr,
        rounds-lt (length s + length r) (length s + length (e ∷ r)) width (omega arith),
      ),
    )

advance-Progress :
    (width c d : ℕ) (p t : List ℕ) (saved : Option (List ℕ × List ℕ))
    → IsGood width (record { p = c ∷ p; t = d ∷ t; saved = saved })
    → (c == d || c == b'?') ≡ true
    → Progress width
        (record { p = c ∷ p; t = d ∷ t; saved = saved })
        (again (record { p = p; t = t; saved = saved }))
advance-Progress width c d p t none ((nd, ns), l, g) byte = (
  (ns, omega (arith, l), tt),
  sym (one_byte c d p t (fixed_byte c d p t nd byte) byte),
  omega (
    arith,
    rounds-lt (suc (length p + length t)) (suc (length (c ∷ p) + length (d ∷ t))) width
        (omega arith),
  ),
)
advance-Progress width c d p t (some (s, r)) ((nd, ns), l, (a, b, es, er, h, lr, nr)) byte = (
  (
    ns,
    omega (arith, l),
    (
      a ++ c ∷ [],
      b ++ d ∷ [],
      es ∙ sym (append_assoc a (c ∷ []) p),
      er ∙ sym (append_assoc b (d ∷ []) t),
      Pointwise-snoc a b c d h (fixed_byte c d p t nd byte) byte,
      lr,
      nr,
    ),
  ),
  refl,
  omega arith,
)

star-Progress :
    (width c d : ℕ) (p t : List ℕ) (saved : Option (List ℕ × List ℕ))
    → IsGood width (record { p = c ∷ p; t = d ∷ t; saved = saved })
    → (c == b'*') ≡ true
    → Progress width
        (record { p = c ∷ p; t = d ∷ t; saved = saved })
        (again (record { p = p; t = d ∷ t; saved = some (p, d ∷ t) }))
star-Progress width c d p t none (ns, l, g) e = (
  (ns, l, ([], [], refl, refl, tt, l, ns)),
  sym (at_star c p (d ∷ t) e),
  omega (
    arith,
    rounds-lt (length p + length (d ∷ t)) (suc (length (c ∷ p) + length (d ∷ t))) width
        (omega arith),
  ),
)
star-Progress width c d p t (some (s, r)) (ns, l, (a, b, es, er, h, lr, nr)) e =
    let same : c ≡ b'*' = ground (arith, e) in
    let longer : length p + length (d ∷ t) < length s + length r = omega (
      arith,
      ap (λ (u : List ℕ). length u) es,
      ap (λ (u : List ℕ). length u) er,
      length-append {0} a (c ∷ p),
      length-append {0} b (d ∷ t),
    ) in
    (
      (ns, l, ([], [], refl, refl, tt, l, ns)),
      cc (newer_star a b p (d ∷ t) h, es, er, same),
      omega (arith, rounds-lt (length p + length (d ∷ t)) (length s + length r) width longer),
    )

search_round-Progress :
    (width : ℕ) (p t : List ℕ) (saved : Option (List ℕ × List ℕ))
    → IsGood width (record { p = p; t = t; saved = saved })
    → Progress width
        (record { p = p; t = t; saved = saved })
        (search_round (record { p = p; t = t; saved = saved }))
unfolding search_round
search_round-Progress width p [] none g = all_stars p
search_round-Progress width p [] (some (s, r)) (ns, l, (a, b, es, er, h, lr, nr)) =
    cc (all_stars p, at_end a b p h)
search_round-Progress width [] (d ∷ t) saved g = retry-Progress width d [] t saved g (nothing d t)
search_round-Progress width (c ∷ p) (d ∷ t) saved g =
    Progress-if width _ _ _ _ (advance-Progress width c d p t saved g) (λ byte.
      Progress-if width _ _ _ _ (star-Progress width c d p t saved g)
        (λ star. retry-Progress width d (c ∷ p) t saved g (mismatch c d p t byte star)))

-- The rest of the loop, when it decides rightly from everywhere that is closer to the end.
after_round :
    (fuel width : ℕ) (v : Search) (r : Round Search)
    → Progress width v r
    → cost width v < suc fuel
    → ((v' : Search)
        → IsGood width v'
        → cost width v' < fuel
        → search_loop fuel v' ≡ some (meaning v'))
    → elim r [ returns b ↦ some b | again v' ↦ search_loop fuel v' ] ≡ some (meaning v)
after_round fuel width v (returns b) e h ih = ap some e
after_round fuel width v (again v') (good, same, less) h ih =
    ih v' good (omega (arith, less, h)) ∙ ap some same

search_loop_lem :
    (fuel width : ℕ) (v : Search)
    → IsGood width v
    → cost width v < fuel
    → search_loop fuel v ≡ some (meaning v)
unfolding search_loop
search_loop_lem zero width v g h = absurd (omega arith)
search_loop_lem (suc fuel) width v g h =
    after_round fuel width v (search_round v) (search_round-Progress width v.p v.t v.saved g) h
      (λ v' good less. search_loop_lem fuel width v' good less)

-- The search from the start decides what the pattern means, within the bound on its rounds.
pub search_loop_start :
    (p t : List ℕ)
    → HasNoStar t
    → search_loop
        (suc (rounds (suc (length p + length t)) (length t) + length t))
        (record { p = p; t = t; saved = none })
      ≡ some (glob_means p t)
search_loop_start p t ns =
    search_loop_lem _ (length t) (record { p = p; t = t; saved = none }) (ns, omega arith, tt)
      (omega arith)
