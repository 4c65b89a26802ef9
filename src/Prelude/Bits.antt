-- ===== src/Prelude/Bits.antt =====
-- `&` with a field of ones and `|` of disjoint fields as arithmetic, at every width.
-- The native operations stand for a recursion on binary digits that carries fuel.
use Prim.Native.Nat.{ℕ, zero, suc, ◌+◌, ◌-◌, ◌*◌, ◌/◌, ◌%◌, ◌^◌, ◌≤◌, ◌<◌, bit_and, bit_or}
use Prim.Native.Nat.{min, max, digits, bitwise, bit_and-bitwise, bit_or-bitwise}
use mathlib.Core.Path.{◌≡◌, refl, sym, ap, ◌∙◌}
use native.Mathlib.Nat.{
  pow-suc, one-le-pow, div-div-eq-div-mul, div-add-mod, add-mul-mod_self_left, mod-eq_of_lt, mod-lt,
}
use native.Mathlib.Omega.{arith}

module _ (z : ℕ → ℕ) (f : ℕ → ℕ → ℕ) where
  spare_round : (k a b : ℕ) → a ≤ k → digits z f (suc k) a b ≡ digits z f k a b
  spare_round zero zero b h = refl
  spare_round zero (suc a) b h = absurd (omega arith)
  spare_round (suc k) zero b h = refl
  spare_round (suc k) (suc a) b h =
      ap (λ (t : ℕ). t * 2 + f (suc a % 2) (b % 2))
        (spare_round k (suc a / 2) (b / 2) (omega arith))

  spare_rounds : (d k a b : ℕ) → a ≤ k → digits z f (d + k) a b ≡ digits z f k a b
  spare_rounds zero k a b h = let e : zero + k ≡ k = omega arith in rw e
  spare_rounds (suc d) k a b h =
      let e : suc d + k ≡ suc (d + k) = omega arith in
      rw e (spare_round (d + k) a b (omega arith) ∙ spare_rounds d k a b h)

  lowest_digit :
      (a b : ℕ)
      → bitwise z f (suc a) b ≡ bitwise z f (suc a / 2) (b / 2) * 2 + f (suc a % 2) (b % 2)
  lowest_digit a b =
      let half = suc a / 2 in
      let e : a ≡ (a - half) + half = omega arith in
      ap (λ (t : ℕ). t * 2 + f (suc a % 2) (b % 2))
        (ap (λ (k : ℕ). digits z f k half (b / 2)) e
          ∙ spare_rounds (a - half) half half (b / 2) (omega arith))

pub and_halves : (a b : ℕ) → bit_and a b ≡ bit_and (a / 2) (b / 2) * 2 + min (a % 2) (b % 2)
and_halves zero b = simp bit_and-bitwise (omega arith)
and_halves (suc a) b = simp bit_and-bitwise (lowest_digit (λ y. 0) min a b)

pub or_halves : (a b : ℕ) → bit_or a b ≡ bit_or (a / 2) (b / 2) * 2 + max (a % 2) (b % 2)
or_halves zero b = simp bit_or-bitwise (omega arith)
or_halves (suc a) b = simp bit_or-bitwise (lowest_digit (λ y. y) max a b)

-- Facts by halving hold of every `a` below a bound that grows.
and_none_below : (n a : ℕ) → a ≤ n → bit_and a 0 ≡ 0
and_none_below zero zero h = refl
and_none_below zero (suc a) h = absurd (omega arith)
and_none_below (suc n) a h = ground (arith, and_halves a 0, and_none_below n (a / 2))

or_none_below : (n a : ℕ) → a ≤ n → bit_or a 0 ≡ a
or_none_below zero zero h = refl
or_none_below zero (suc a) h = absurd (omega arith)
or_none_below (suc n) a h = ground (arith, or_halves a 0, or_none_below n (a / 2))

pub bit_and-zero : (a : ℕ) → bit_and a 0 ≡ 0
bit_and-zero a = and_none_below a a (omega arith)

pub bit_or-zero : (a : ℕ) → bit_or a 0 ≡ a
bit_or-zero a = or_none_below a a (omega arith)

doubled : (c k : ℕ) → c * 2 ^ suc k ≡ c * 2 ^ k * 2
doubled c k = omega (arith, ap (λ (t : ℕ). c * t) (pow-suc 2 k))

halved : (a k : ℕ) → a / 2 ^ suc k ≡ a / 2 / 2 ^ k
halved a k =
    let e : 2 ^ suc k ≡ 2 * 2 ^ k = omega (arith, pow-suc 2 k) in
    rw e (sym (div-div-eq-div-mul a 2 (2 ^ k)))

mod_double : (m a : ℕ) → 0 < m → a % (m * 2) ≡ a / 2 % m * 2 + a % 2
mod_double m a h =
    let e : a ≡ (a / 2 % m * 2 + a % 2) + m * 2 * (a / 2 / m) =
      omega (arith, ap (λ (t : ℕ). t * 2) (div-add-mod (a / 2) m)) in
    ap (λ (t : ℕ). t % (m * 2)) e
    ∙ add-mul-mod_self_left (a / 2 % m * 2 + a % 2) (m * 2) (a / 2 / m)
    ∙ mod-eq_of_lt (omega (arith, mod-lt (a / 2) h))

-- A run of `j` ones takes the remainder by `2 ^ j`.
pub bit_and_ones : (j a : ℕ) → bit_and a (2 ^ j - 1) ≡ a % 2 ^ j
bit_and_ones zero a = omega (arith, bit_and-zero a)
bit_and_ones (suc j) a =
    let e : 2 ^ suc j ≡ 2 ^ j * 2 = omega (arith, pow-suc 2 j) in
    let pos : 0 < 2 ^ j = one-le-pow j 2 (omega arith) in
    let half : (2 ^ j * 2 - 1) / 2 ≡ 2 ^ j - 1 = omega arith in
    rw e (
      ground (
        arith,
        and_halves a (2 ^ j * 2 - 1),
        half,
        bit_and_ones j (a / 2),
        mod_double (2 ^ j) a pos,
      ))

-- A run of `j` ones above `k` zeros keeps the `j` bits from bit `k` up.
pub bit_and_field : (k j a : ℕ) → bit_and a ((2 ^ j - 1) * 2 ^ k) ≡ a / 2 ^ k % 2 ^ j * 2 ^ k
bit_and_field zero j a =
    let e : a / 2 ^ 0 ≡ a = omega arith in
    let m : (2 ^ j - 1) * 2 ^ 0 ≡ 2 ^ j - 1 = omega arith in
    rw (m, e) (omega (arith, bit_and_ones j a))
bit_and_field (suc k) j a =
    let half : (2 ^ j - 1) * 2 ^ k * 2 / 2 ≡ (2 ^ j - 1) * 2 ^ k = omega arith in
    rw (doubled (2 ^ j - 1) k, halved a k, doubled (a / 2 / 2 ^ k % 2 ^ j) k)
      (omega (
        arith,
        and_halves a ((2 ^ j - 1) * 2 ^ k * 2),
        ap (bit_and (a / 2)) half,
        bit_and_field k j (a / 2),
      ))

-- Above `k` bits and below them, `|` adds.
pub bit_or_disjoint : (k c r : ℕ) → r < 2 ^ k → bit_or (c * 2 ^ k) r ≡ c * 2 ^ k + r
bit_or_disjoint zero c r h = ground (arith, bit_or-zero c)
bit_or_disjoint (suc k) c r h =
    let half : c * 2 ^ k * 2 / 2 ≡ c * 2 ^ k = omega arith in
    rw (doubled c k)
      (ground (arith, or_halves (c * 2 ^ k * 2) r, half, pow-suc 2 k, bit_or_disjoint k c (r / 2)))

pub power_sum : (i j : ℕ) → 2 ^ i * 2 ^ j ≡ 2 ^ (i + j)
power_sum zero j = let e : 0 + j ≡ j = omega arith in rw e (omega arith)
power_sum (suc i) j =
    let e : suc i + j ≡ suc (i + j) = omega arith in
    rw (e, pow-suc 2 i, pow-suc 2 (i + j)) (omega (arith, power_sum i j))
