-- ===== src/Upstream/Glob.antt =====
-- `glob_matches` of tools/saiai-cli/src/upstream_proxy.rs on the bytes of the two texts.
pub mod Meaning
pub mod Greedy
pub mod Index
use saiai_client.Prelude.{
  ℕ, zero, suc, ◌+◌, ◌*◌, Bool, true, false, ◌||◌, Option, none, some, List, [], ◌∷◌, length,
  get_elem?, drop, all, ltb, ◌==◌, if◌then◌else◌,
}

-- The local variables of the loop; `star` and `resume` are where the last star was met.
pub record Cursor : Type 0 where
  pub p : ℕ
  pub t : ℕ
  pub star : Option ℕ
  pub resume : ℕ

-- One round: the function returns, or goes on with new variables.
pub data Round (S : Type 0) : Type 0 where
  returns : Bool → Round S
  again : S → Round S

abbrev pub literal_or_any : Option ℕ → ℕ → Bool
literal_or_any none d = false
literal_or_any (some c) d = c == d || c == b'?'

abbrev pub is_star : Option ℕ → Bool
is_star none = false
is_star (some c) = c == b'*'

abbrev pub back_up : Cursor → Option ℕ → Round Cursor
back_up v none = returns false
back_up v (some star) = again (record v { p = star + 1; t = v.resume + 1; resume = v.resume + 1 })

-- The body of the loop for the byte `text[t]`, and the code after the loop.
unfoldable pub glob_round : List ℕ → List ℕ → Cursor → Round Cursor
glob_round pattern text v = elim (get_elem? text v.t) [
  | none ↦ returns (all (λ c. c == b'*') (drop v.p pattern))
  | some d ↦
      if literal_or_any (get_elem? pattern v.p) d
      then again (record v { p = v.p + 1; t = v.t + 1 })
      else if is_star (get_elem? pattern v.p)
      then again (record v { p = v.p + 1; star = some v.p; resume = v.t })
      else back_up v v.star
]

unfoldable pub glob_loop : ℕ → List ℕ → List ℕ → Cursor → Option Bool
glob_loop zero pattern text v = none
glob_loop (suc fuel) pattern text v = elim (glob_round pattern text v) [
  | returns b ↦ some b
  | again v' ↦ glob_loop fuel pattern text v'
]

-- `n` rounds of the outer bound, each of at most `length text + 1` rounds
abbrev pub rounds : ℕ → ℕ → ℕ
rounds zero width = 0
rounds (suc n) width = suc width + rounds n width

abbrev pub start : Cursor
start = record { p = 0; t = 0; star = none; resume = 0 }

unfoldable pub glob_matches : List ℕ → List ℕ → Bool
glob_matches pattern text =
    elim (glob_loop (suc (rounds (suc (length pattern + length text)) (length text) + length text))
      pattern text start) [ none ↦ false | some b ↦ b ]
