-- ===== src/Core/Gateway/Decode.antt =====
-- The index loop of `percent_decoded_eq` compares the percent-decoded text.
use saiai_client.Prelude.{
  ℕ, zero, suc, ◌+◌, ◌-◌, ◌*◌, ◌≤◌, ◌<◌, ◌≡◌, refl, true, none, some, List, [], ◌∷◌, text_eq,
  text_eq_iff, ◌↔◌, length, get_elem?, drop, take, ◌++◌, get_elem?-append, length-append,
  append_assoc, take-append-drop, length-take_of_le, ◌==◌, arith, if◌then◌else◌,
}
use native.Mathlib.Nat.{add-zero}
use saiai_client.Core.Gateway.{hex_value, pair_value, decoded_at, percent_loop, percent_decoded_eq}

-- Percent decoding as a recursion on the list: "%" with two hexadecimal digits behind it is one
-- byte, and any other byte stands for itself.
unfoldable pub percent_decode : List ℕ → List ℕ
percent_decode [] = []
percent_decode (c ∷ []) = c ∷ []
percent_decode (c ∷ d ∷ []) = c ∷ d ∷ []
percent_decode (c ∷ d ∷ e ∷ r) =
    let whole = percent_decode r in
    let plain = percent_decode (d ∷ e ∷ r) in
    if c == b'%'
    then elim (hex_value d) [
      | none ↦ c ∷ plain
      | some high ↦ elim (hex_value e) [ none ↦ c ∷ plain | some low ↦ (high * 16 + low) ∷ whole ]
    ]
    else c ∷ plain

-- One round of the loop, seen from the text that is left.
head_step : List ℕ → ℕ × ℕ
head_step [] = (0, 1)
head_step (c ∷ []) = (c, 1)
head_step (c ∷ d ∷ []) = (c, 1)
head_step (c ∷ d ∷ e ∷ r) = if c == b'%' then pair_value (hex_value d) (hex_value e) c else (c, 1)

-- What is left of the text `bytes` at the index `i`.
abbrev Left : List ℕ → ℕ → List ℕ → Type 0
Left bytes i s = (pre : List ℕ) × (bytes ≡ pre ++ s) × (i ≡ length pre)

read-Left : (bytes s : List ℕ) (i k : ℕ) → Left bytes i s → get_elem? bytes (i + k) ≡ get_elem? s k
read-Left bytes s i k (pre, e, h) = rw e (get_elem?-append pre s (i + k) k (omega arith))

length-Left : (bytes s : List ℕ) (i : ℕ) → Left bytes i s → length bytes ≡ i + length s
length-Left bytes s i (pre, e, h) = rw e (omega (arith, length-append {0} pre s))

Left-drop :
    (bytes s : List ℕ) (i n : ℕ) → Left bytes i s → n ≤ length s → Left bytes (i + n) (drop n s)
Left-drop bytes s i n (pre, e, h) le = (
  pre ++ take n s,
  cc (e, append_assoc pre (take n s) (drop n s), take-append-drop n s),
  omega (arith, length-append {0} pre (take n s), length-take_of_le {0} n s),
)

head_step_width :
    (c : ℕ) (s : List ℕ) → (1 ≤ (head_step (c ∷ s)).1) × ((head_step (c ∷ s)).1 ≤ length (c ∷ s))
unfolding head_step
head_step_width c [] = (omega arith, omega arith)
head_step_width c (d ∷ []) = (omega arith, omega arith)
head_step_width c (d ∷ e ∷ r) = ground arith

percent_decode_step :
    (c : ℕ) (s : List ℕ)
    → percent_decode (c ∷ s)
      ≡ (head_step (c ∷ s)).0 ∷ percent_decode (drop (head_step (c ∷ s)).1 (c ∷ s))
unfolding percent_decode head_step
percent_decode_step c [] = refl
percent_decode_step c (d ∷ []) = refl
percent_decode_step c (d ∷ e ∷ r) = ground arith

decoded_at-head_step :
    (bytes : List ℕ) (c : ℕ) (s : List ℕ) (i : ℕ)
    → Left bytes i (c ∷ s)
    → decoded_at bytes i ≡ head_step (c ∷ s)
unfolding decoded_at head_step
decoded_at-head_step bytes c [] i l =
    ground (arith, read-Left bytes (c ∷ []) i 0 l, length-Left bytes (c ∷ []) i l, add-zero i)
decoded_at-head_step bytes c (d ∷ []) i l =
    ground
      (arith, read-Left bytes (c ∷ d ∷ []) i 0 l, length-Left bytes (c ∷ d ∷ []) i l, add-zero i)
decoded_at-head_step bytes c (d ∷ e ∷ r) i l = ground (
  arith,
  read-Left bytes (c ∷ d ∷ e ∷ r) i 0 l,
  read-Left bytes (c ∷ d ∷ e ∷ r) i 1 l,
  read-Left bytes (c ∷ d ∷ e ∷ r) i 2 l,
  length-Left bytes (c ∷ d ∷ e ∷ r) i l,
  add-zero i,
)

length-drop : (n : ℕ) (s : List ℕ) → length (drop n s) ≡ length s - n
length-drop zero s = omega arith
length-drop (suc n) [] = omega arith
length-drop (suc n) (x ∷ s) = omega (arith, length-drop n s)

text_eq-length : (e : List ℕ) (j n : ℕ) → n ≡ j + length e → (j == n) ≡ text_eq [] e
text_eq-length [] j n h = ground arith
text_eq-length (x ∷ e) j n h = ground arith

percent_decode-nil : percent_decode [] ≡ []
unfolding percent_decode
percent_decode-nil = refl

-- The loop, from any position, compares what is left of both texts.
percent_loop_lem :
    (fuel : ℕ) (bytes expected : List ℕ) (i j : ℕ) (s e : List ℕ)
    → Left bytes i s
    → Left expected j e
    → length s < fuel
    → percent_loop fuel bytes expected i j ≡ some (text_eq (percent_decode s) e)
unfolding percent_loop
percent_loop_lem zero bytes expected i j s e l m h = absurd (omega arith)
percent_loop_lem (suc fuel) bytes expected i j [] e l m h = ground (
  arith,
  length-Left bytes [] i l,
  length-Left expected e j m,
  text_eq-length e j (length expected),
  percent_decode-nil,
)
percent_loop_lem (suc fuel) bytes expected i j (c ∷ s) [] l m h = ground (
  arith,
  length-Left bytes (c ∷ s) i l,
  read-Left expected [] j 0 m,
  add-zero j,
  percent_decode_step c s,
)
percent_loop_lem (suc fuel) bytes expected i j (c ∷ s) (x ∷ e) l m h =
    let d = head_step (c ∷ s) in
    let (low, high) = head_step_width c s in
    let more =
      percent_loop_lem fuel bytes expected (i + d.1) (j + 1) (drop d.1 (c ∷ s)) e
        (Left-drop bytes (c ∷ s) i d.1 l high) (Left-drop expected (x ∷ e) j 1 m (omega arith))
        (omega (arith, length-drop d.1 (c ∷ s))) in
    ground (
      arith,
      more,
      decoded_at-head_step bytes c s i l,
      length-Left bytes (c ∷ s) i l,
      read-Left expected (x ∷ e) j 0 m,
      add-zero j,
      percent_decode_step c s,
    )

-- With the fuel that it is given the loop ends, and it answers whether the percent-decoded value
-- is the expected text.
pub percent_loop_total :
    (value expected : List ℕ)
    → percent_loop (suc (length value)) value expected 0 0
      ≡ some (text_eq (percent_decode value) expected)
percent_loop_total value expected =
    percent_loop_lem (suc (length value)) value expected 0 0 value expected ([], refl, refl)
      ([], refl, refl) (omega arith)

-- `percent_decoded_eq` holds exactly when the percent-decoded value is the expected text.
pub percent_decoded_eq_iff :
    (value expected : List ℕ)
    → (percent_decoded_eq value expected ≡ true) ↔ (percent_decode value ≡ expected)
unfolding percent_decoded_eq
percent_decoded_eq_iff value expected =
    rw (percent_loop_total value expected, percent_decoded_eq)
      (text_eq_iff (percent_decode value) expected)
