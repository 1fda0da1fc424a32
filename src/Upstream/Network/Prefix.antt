-- ===== src/Upstream/Network/Prefix.antt =====
-- A mask of high bits rounds down to a multiple of a power of two, so that `ip_in_network` compares
-- the leading bits.
use Prim.Native.Nat.{bit_and, bit_and-bitwise, digits, min}
use native.Mathlib.Nat.{
  pow-suc, pow-succ', one-le-pow, div-div-eq-div-mul, mul-add-mod_self_right, mod-eq_of_lt,
  mul_comm,
}
use saiai_client.Prelude.{
  ℕ, zero, suc, ◌+◌, ◌-◌, ◌*◌, ◌/◌, ◌%◌, ◌^◌, ◌≤◌, ◌<◌, ◌≡◌, refl, sym, ap, ◌∙◌, ◌↔◌, true, ◌==◌,
  ==_iff, arith,
}
use saiai_client.Upstream.Ip.{v4, v6}
use saiai_client.Upstream.Network.{network_mask, ip_in_network}

-- `and` with the digits of `b`, under a bound on the digits of `a`
abbrev and_digits : ℕ → ℕ → ℕ → ℕ
and_digits fuel a b = digits (λ _. 0) min fuel a b

min_one : (a : ℕ) → min (a % 2) 1 ≡ a % 2
min_one a = omega arith

and_low : (fuel a k : ℕ) → a ≤ fuel → a < 2 ^ k → and_digits fuel a (2 ^ k - 1) ≡ a
and_low zero a k h l = omega arith
and_low (suc fuel) zero k h l = refl
and_low (suc fuel) (suc a) zero h l = absurd (omega arith)
and_low (suc fuel) (suc a) (suc k) h l =
    let half : (2 ^ suc k - 1) / 2 ≡ 2 ^ k - 1 = omega (arith, pow-suc 2 k, one-le-pow k 2) in
    let odd : (2 ^ suc k - 1) % 2 ≡ 1 = omega (arith, pow-suc 2 k, one-le-pow k 2) in
    rw (half, odd)
      (omega (
        arith,
        and_low fuel (suc a / 2) k (omega arith) (omega (arith, l, pow-suc 2 k)),
        min_one (suc a),
      ))

-- Twice a number has the digits of the number behind a zero.
shifted : (q n : ℕ) → q * 2 ^ suc n ≡ q * 2 ^ n * 2
shifted q n = omega (arith, ap (λ (t : ℕ). q * t) (pow-suc 2 n))

and_high :
    (fuel a m n : ℕ)
    → a ≤ fuel
    → a < 2 ^ m * 2 ^ n
    → and_digits fuel a ((2 ^ m - 1) * 2 ^ n) ≡ a / 2 ^ n * 2 ^ n
and_high fuel a m zero h l =
    let one : (2 ^ m - 1) * 2 ^ 0 ≡ 2 ^ m - 1 = omega arith in
    rw one (and_low fuel a m h (omega (arith, l)) ∙ omega arith)
and_high zero a m (suc n) h l = ground (arith)
and_high (suc fuel) zero m (suc n) h l = omega arith
and_high (suc fuel) (suc a) m (suc n) h l =
    let half : (2 ^ m - 1) * 2 ^ suc n / 2 ≡ (2 ^ m - 1) * 2 ^ n =
      omega (arith, shifted (2 ^ m - 1) n) in
    let even : (2 ^ m - 1) * 2 ^ suc n % 2 ≡ 0 = omega (arith, shifted (2 ^ m - 1) n) in
    let quotient : suc a / 2 ^ suc n ≡ suc a / 2 / 2 ^ n =
      ap (λ (t : ℕ). suc a / t) (pow-succ' 2 n) ∙ sym (div-div-eq-div-mul (suc a) 2 (2 ^ n)) in
    let rest = and_high fuel (suc a / 2) m n (omega arith) (omega (arith, l, shifted (2 ^ m) n)) in
    rw (half, even, rest, quotient, shifted (suc a / 2 / 2 ^ n) n) (omega arith)

pub bit_and_high :
    (m n a : ℕ) → a < 2 ^ m * 2 ^ n → bit_and a ((2 ^ m - 1) * 2 ^ n) ≡ a / 2 ^ n * 2 ^ n
bit_and_high m n a l = simp bit_and-bitwise (and_high a a m n (omega arith) l)

-- The mask that is shifted out at the top
product_parts : (k y r : ℕ) → suc k ≡ suc y + r → k * suc y ≡ y * suc k + r
product_parts k y r e = omega (arith, mul_comm k y)

less_one : (n : ℕ) → suc n - 1 ≡ n
less_one n = omega arith

mask_product : (x y n : ℕ) → 1 ≤ x → 1 ≤ y → n ≡ x * y → (n - 1) * y % n ≡ (x - 1) * y
mask_product zero y n h k e = absurd (omega arith)
mask_product (suc x) zero n h k e = absurd (omega arith)
mask_product (suc x) (suc y) zero h k e = absurd (grind (arith, e))
mask_product (suc x) (suc y) (suc n) h k e =
    rw (less_one n, less_one x)
      (ap (λ (t : ℕ). t % suc n) (product_parts n y (x * suc y) (omega (arith, e)))
        ∙ mul-add-mod_self_right y (suc n) (x * suc y)
        ∙ mod-eq_of_lt {n = x * suc y} {m = suc n} (omega (arith, e)))

two_pow_add : (m n : ℕ) → 2 ^ (m + n) ≡ 2 ^ m * 2 ^ n
two_pow_add zero n = ap (λ (k : ℕ). 2 ^ k) {y = n} (omega arith) ∙ omega arith
two_pow_add (suc m) n = grind (arith, two_pow_add m n, pow-succ' 2 (m + n), pow-succ' 2 m)

split_width : (width prefix : ℕ) → prefix ≤ width → 2 ^ width ≡ 2 ^ prefix * 2 ^ (width - prefix)
split_width width prefix h =
    ap (λ (n : ℕ). 2 ^ n) {y = prefix + (width - prefix)} (omega arith)
    ∙ two_pow_add prefix (width - prefix)

high_mask :
    (width prefix : ℕ)
    → prefix ≤ width
    → network_mask width prefix ≡ (2 ^ prefix - 1) * 2 ^ (width - prefix)
unfolding network_mask
high_mask width prefix h = ground (
  arith,
  split_width width prefix h,
  mask_product (2 ^ prefix) (2 ^ (width - prefix)) (2 ^ width) (one-le-pow prefix 2 (omega arith))
      (one-le-pow (width - prefix) 2 (omega arith)) (split_width width prefix h),
)

cancel : (n x y : ℕ) → x * 2 ^ n ≡ y * 2 ^ n → x ≡ y
cancel zero x y e = omega (arith, e)
cancel (suc n) x y e = cancel n x y (omega (arith, e, shifted x n, shifted y n))

same_prefix :
    (width prefix a b : ℕ)
    → prefix ≤ width
    → a < 2 ^ width
    → b < 2 ^ width
    → ((bit_and a (network_mask width prefix) == bit_and b (network_mask width prefix)) ≡ true)
      ↔ (a / 2 ^ (width - prefix) ≡ b / 2 ^ (width - prefix))
same_prefix width prefix a b h ha hb =
    let high = high_mask width prefix h in
    let split = split_width width prefix h in
    let at_a = bit_and_high prefix (width - prefix) a (omega (arith, split, ha)) in
    let at_b = bit_and_high prefix (width - prefix) b (omega (arith, split, hb)) in
    rw (high, at_a, at_b)
      (
        λ e. cancel (width - prefix) _ _ ((==_iff _ _).0 e),
        λ e. (==_iff _ _).1 (ap (λ (t : ℕ). t * 2 ^ (width - prefix)) e),
      )

-- For a prefix of at most 32 bits, an IPv4 address is in the network exactly if the two agree in
-- their leading bits.
pub ip_in_network_v4 :
    (ip network prefix : ℕ)
    → prefix ≤ 32
    → ip < 2 ^ 32
    → network < 2 ^ 32
    → (ip_in_network (v4 ip) (v4 network) prefix ≡ true)
      ↔ (ip / 2 ^ (32 - prefix) ≡ network / 2 ^ (32 - prefix))
unfolding ip_in_network
ip_in_network_v4 ip network prefix h k l = same_prefix 32 prefix ip network h k l

-- For a prefix of at most 128 bits, an IPv6 address is in the network exactly if the two agree in
-- their leading bits.
pub ip_in_network_v6 :
    (ip network prefix : ℕ)
    → prefix ≤ 128
    → ip < 2 ^ 128
    → network < 2 ^ 128
    → (ip_in_network (v6 ip) (v6 network) prefix ≡ true)
      ↔ (ip / 2 ^ (128 - prefix) ≡ network / 2 ^ (128 - prefix))
unfolding ip_in_network
ip_in_network_v6 ip network prefix h k l = same_prefix 128 prefix ip network h k l
