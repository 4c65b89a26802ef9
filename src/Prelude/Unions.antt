-- ===== src/Prelude/Unions.antt =====
-- `|` of words whose fields overlap, field by field.
use Prim.Native.Nat.{ℕ, zero, suc, ◌+◌, ◌*◌, ◌/◌, ◌%◌, ◌^◌, ◌<◌, bit_or, bit_or-bitwise}
use mathlib.Core.Path.{◌≡◌, refl}
use native.Mathlib.Nat.{pow-suc}
use native.Mathlib.Omega.{arith}
use lsd_limine.Prelude.Bits.{or_halves}

pub bit_or_none : (b : ℕ) → bit_or 0 b ≡ b
bit_or_none b = simp bit_or-bitwise refl

-- The bits from bit `k` up and the bits below it do not meet.
pub bit_or_split :
    (k c d r s : ℕ)
    → r < 2 ^ k
    → s < 2 ^ k
    → bit_or (c * 2 ^ k + r) (d * 2 ^ k + s) ≡ bit_or c d * 2 ^ k + bit_or r s
bit_or_split zero c d r s h h' =
    let e : c * 2 ^ 0 + r ≡ c = omega arith in
    let f : d * 2 ^ 0 + s ≡ d = omega arith in
    let g : bit_or r s ≡ 0 = let r0 : r ≡ 0 = omega arith in rw (r0, bit_or_none s) (omega arith) in
    rw (e, f, g) (omega arith)
bit_or_split (suc k) c d r s h h' =
    let p = pow-suc 2 k in
    let high : bit_or (c * 2 ^ k + r / 2) (d * 2 ^ k + s / 2)
        ≡ bit_or c d * 2 ^ k + bit_or (r / 2) (s / 2) =
      bit_or_split k c d (r / 2) (s / 2) (omega (arith, p)) (omega (arith, p)) in
    let double : (x : ℕ) → x * 2 ^ suc k ≡ x * 2 ^ k * 2 = λ x. rw p (omega arith) in
    let e : (x y : ℕ) → (x * 2 ^ suc k + y) / 2 ≡ x * 2 ^ k + y / 2 =
      λ x y. omega (arith, double x) in
    let m : (x y : ℕ) → (x * 2 ^ suc k + y) % 2 ≡ y % 2 = λ x y. omega (arith, double x) in
    rw
      (
        or_halves (c * 2 ^ suc k + r) (d * 2 ^ suc k + s),
        or_halves r s,
        e c r,
        e d s,
        m c r,
        m d s,
        high,
      )
      (omega (arith, double (bit_or c d)))

-- `|` sets no bit above those of both.
pub bit_or-lt : (k a b : ℕ) → a < 2 ^ k → b < 2 ^ k → bit_or a b < 2 ^ k
bit_or-lt zero a b h h' = let z : a ≡ 0 = omega arith in rw (z, bit_or_none b) h'
bit_or-lt (suc k) a b h h' =
    let p = pow-suc 2 k in
    let half = bit_or-lt k (a / 2) (b / 2) (omega (arith, p)) (omega (arith, p)) in
    ground (arith, or_halves a b, half, p)
