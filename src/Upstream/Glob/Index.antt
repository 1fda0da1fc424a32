-- ===== src/Upstream/Glob/Index.antt =====
-- The loop over indices goes the way of the search over what is left, and decides what the pattern
-- means.
use saiai_client.Prelude.{
  ℕ, zero, suc, ◌+◌, ◌≡◌, refl, sym, ap, ◌∙◌, Bool, true, false, ◌||◌, Option, none, some, List, [],
  ◌∷◌, length, get_elem?, drop, arith, ◌==◌, if◌then◌else◌,
}
use saiai_client.Upstream.Glob.{
  Cursor, Round, returns, again, back_up, glob_round, glob_loop, rounds, start, glob_matches,
}
use saiai_client.Upstream.Glob.Meaning.{glob_means}
use saiai_client.Upstream.Glob.Greedy.{
  Search, tail, retry, search_round, search_loop, search_loop_start, HasNoStar,
}

add_one : (xs : List ℕ) (i : ℕ) → drop (i + 1) xs ≡ drop (suc i) xs
add_one xs i = ap (λ (n : ℕ). drop n xs) {y = suc i} (omega arith)

-- What is read at an index is the head of what is left there.
data Head (xs : List ℕ) (i : ℕ) : Type 0 where
  at_end : get_elem? xs i ≡ none → drop i xs ≡ [] → Head xs i
  at : (x : ℕ) → get_elem? xs i ≡ some x → drop i xs ≡ x ∷ drop (i + 1) xs → Head xs i

Head-here : (xs : List ℕ) (i : ℕ) → Head xs i
Head-here [] zero = at_end refl refl
Head-here [] (suc i) = at_end refl refl
Head-here (x ∷ xs) zero = at x refl (ap (λ (l : List ℕ). x ∷ l) (sym (add_one (x ∷ xs) 0)))
Head-here (x ∷ xs) (suc i) = elim (Head-here xs i) [
  | at_end e d ↦ at_end e d
  | at y e d ↦ at y e (cc (d, add_one xs i, add_one (x ∷ xs) (suc i)))
]

tail-drop : (xs : List ℕ) (i : ℕ) → tail (drop i xs) ≡ drop (i + 1) xs
tail-drop xs i = elim (Head-here xs i) [ at_end e d ↦ cc (d, drop_end xs i d) | at y e d ↦ cc d ]
  where
    drop_end : (xs : List ℕ) (i : ℕ) → drop i xs ≡ [] → drop (i + 1) xs ≡ []
    drop_end [] zero d = refl
    drop_end [] (suc i) d = cc (add_one [] (suc i))
    drop_end (x ∷ xs) zero d = cc
    drop_end (x ∷ xs) (suc i) d = cc (add_one (x ∷ xs) (suc i), add_one xs i, drop_end xs i d)

module _ (pattern text : List ℕ) where
  -- What is left at the indices
  abbrev left_of_star : Option ℕ → ℕ → Option (List ℕ × List ℕ)
  left_of_star none resume = none
  left_of_star (some s) resume = some (drop (s + 1) pattern, drop resume text)

  abbrev left_at : Cursor → Search
  left_at v = record {
    p = drop v.p pattern;
    t = drop v.t text;
    saved = left_of_star v.star v.resume;
  }

  abbrev on_again : Round Cursor → Round Search
  on_again (returns b) = returns b
  on_again (again v) = again (left_at v)

  back_up-retry :
      (v : Cursor) (star : Option ℕ)
      → v.star ≡ star
      → retry (left_of_star star v.resume) ≡ on_again (back_up v star)
  back_up-retry v none e = refl
  back_up-retry v (some s) e = rw (tail-drop text v.resume, e) refl

  on_again-if :
      (b : Bool) (x y : Round Cursor) (x' y' : Round Search)
      → x' ≡ on_again x
      → y' ≡ on_again y
      → (if b then x' else y') ≡ on_again (if b then x else y)
  on_again-if true x y x' y' h k = h
  on_again-if false x y x' y' h k = k

  search_round_left : (v : Cursor) → search_round (left_at v) ≡ on_again (glob_round pattern text v)
  unfolding search_round glob_round
  search_round_left v = elim (Head-here text v.t) [
    | at_end e d ↦ rw (search_round, glob_round, e, d) refl
    | at y e d ↦ elim (Head-here pattern v.p) [
      | at_end e' d' ↦ rw (search_round, glob_round, e, d, e', d') (back_up-retry v v.star refl)
      | at c e' d' ↦
          rw (search_round, glob_round, e, d, e', d')
            (on_again-if (c == y || c == b'?') _ _ _ _ refl
              (on_again-if (c == b'*') _ _ _ _ (rw d refl) (back_up-retry v v.star refl)))
    ]
  ]

  -- The two loops go on in step.
  search_loop_left :
      (fuel : ℕ) (v : Cursor) → search_loop fuel (left_at v) ≡ glob_loop fuel pattern text v
  unfolding search_loop glob_loop
  search_loop_left zero v = refl
  search_loop_left (suc fuel) v =
      rw (search_loop, search_round_left v)
        (rest (glob_round pattern text v) (λ v'. search_loop_left fuel v'))
    where
      rest :
          (r : Round Cursor)
          → ((v' : Cursor) → search_loop fuel (left_at v') ≡ glob_loop fuel pattern text v')
          → elim (on_again r) [ returns b ↦ some b | again w ↦ search_loop fuel w ]
            ≡ elim r [ returns b ↦ some b | again v' ↦ glob_loop fuel pattern text v' ]
      rest (returns b) ih = refl
      rest (again v') ih = ih v'

-- On a text without a star, the loop of the matcher ends within the fuel that it is given.
pub glob_loop-start :
    (pattern text : List ℕ)
    → HasNoStar text
    → glob_loop
        (suc (rounds (suc (length pattern + length text)) (length text) + length text))
        pattern
        text
        start
      ≡ some (glob_means pattern text)
glob_loop-start pattern text h =
    sym (search_loop_left pattern text _ start) ∙ search_loop_start pattern text h

-- On a text without a star, the greedy matcher with one place to resume at decides what the pattern
-- means: a star for any bytes, a question mark for one byte.
pub glob_matches_lem :
    (pattern text : List ℕ) → HasNoStar text → glob_matches pattern text ≡ glob_means pattern text
unfolding glob_matches
glob_matches_lem pattern text h = rw (glob_matches, glob_loop-start pattern text h) refl
