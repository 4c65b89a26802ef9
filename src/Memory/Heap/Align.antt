-- ===== src/Memory/Heap/Align.antt =====
-- What `align_up`, `size_align` and the test of a region come to, for a power of two.
use native.Mathlib.Nat.{one-le-pow, div-add-mod, mod-lt, div-lt_iff_lt-mul, mod-eq_of_lt}
use lsd_limine.Prelude.{
  ℕ, ◌+◌, ◌-◌, ◌*◌, ◌/◌, ◌%◌, ◌^◌, ◌≤◌, ◌<◌, ◌≡◌, arith, sub64, add64, not64, sym, ap, ◌∙◌,
}
use lsd_limine.Prelude.Bits.{bit_and_field, power_sum}
use lsd_limine.Memory.Heap.{align_up}

-- The quotient rounded up.
abbrev pub round_up : ℕ → ℕ → ℕ
round_up a j = (a + 2 ^ j - 1) / 2 ^ j

power_parts : (j : ℕ) → j < 64 → 2 ^ (64 - j) * 2 ^ j ≡ 2 ^ 64
power_parts j small =
    let e : (64 - j) + j ≡ 64 = omega arith in power_sum (64 - j) j ∙ ap (λ (n : ℕ). 2 ^ n) e

mask_lem : (j : ℕ) → j < 64 → not64 (sub64 (2 ^ j) 1) ≡ (2 ^ (64 - j) - 1) * 2 ^ j
mask_lem j small =
    let pos : 0 < 2 ^ j = one-le-pow j 2 (omega arith) in
    let more : 0 < 2 ^ (64 - j) = one-le-pow (64 - j) 2 (omega arith) in
    let c = 2 ^ (64 - j) in
    let e : c ≡ (c - 1) + 1 = omega arith in
    let m = ap (λ (t : ℕ). t * 2 ^ j) e in omega (arith, power_parts j small, m)

-- `align_up` rounds up, where that does not wrap.
pub align_up-lem :
    (a j : ℕ) → j < 64 → a + 2 ^ j ≤ 2 ^ 64 → align_up a (2 ^ j) ≡ round_up a j * 2 ^ j
unfolding align_up
align_up-lem a j small fits =
    let pos : 0 < 2 ^ j = one-le-pow j 2 (omega arith) in
    let x = a + 2 ^ j - 1 in
    let sum : sub64 (add64 a (2 ^ j)) 1 ≡ x = omega arith in
    let low : x / 2 ^ j < 2 ^ (64 - j) =
      (div-lt_iff_lt-mul pos).1 (rw (power_parts j small) (omega arith)) in
    rw (sum, mask_lem j small)
      (bit_and_field j (64 - j) x ∙ ap (λ (t : ℕ). t * 2 ^ j) (mod-eq_of_lt low))

pub round_up-bounds : (a j : ℕ) → (a ≤ round_up a j * 2 ^ j) × (round_up a j * 2 ^ j < a + 2 ^ j)
round_up-bounds a j =
    let pos : 0 < 2 ^ j = one-le-pow j 2 (omega arith) in
    let x = a + 2 ^ j - 1 in
    let e = div-add-mod x (2 ^ j) in
    let lt = mod-lt x pos in (omega (arith, e, lt), omega (arith, e, lt))

-- A multiple of a power of two that eight divides is a multiple of eight.
pub eight_divides : (q j : ℕ) → 3 ≤ j → q * 2 ^ j % 8 ≡ 0
eight_divides q j h =
    let e : (j - 3) + 3 ≡ j = omega arith in
    let p : q * 2 ^ j ≡ q * 2 ^ (j - 3) * 8 =
      ap (λ (t : ℕ). q * t) (ap (λ (t : ℕ). 2 ^ t) (sym e) ∙ sym (power_sum (j - 3) 3))
      ∙ omega arith in
    omega (arith, p)
