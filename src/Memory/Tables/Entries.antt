-- ===== src/Memory/Tables/Entries.antt =====
-- What the entries that `map` writes are, as words and to the tests that read them.
use lsd_limine.Prelude.{
  ℕ, ◌+◌, ◌*◌, ◌/◌, ◌%◌, ◌^◌, ◌≤◌, ◌<◌, ◌≡◌, ◌≢◌, refl, true, false, arith, bit_or, sub64, ap, ◌==◌,
  sym, ◌∙◌, ◌&&◌,
}
use lsd_limine.Prelude.Unions.{bit_or_none, bit_or_split}
use lsd_limine.Prelude.Bits.{bit_or-zero}
use lsd_limine.Memory.Fields.{BitField}
use lsd_limine.Memory.Tables.{
  get_valid, set_valid, get_ppn, set_ppn, phys_ppn, is_branch, is_leaf, entry_phys, entry_table,
  leaf_entry, branch_entry, not,
}

-- Flags that `PageFlags` has names for, `low` those of bits 1 to 5 and `high` those of 61 and 62,
-- with one at least that makes an entry a leaf.
abbrev pub Permits : ℕ → Type 0
Permits flags =
    (high : ℕ) × (low : ℕ) × (flags ≡ high * 2 ^ 61 + low * 2)
    × (high < 4)
    × (low < 32)
    × (low % 8 ≢ 0)

-- The offset of the direct map of Sv57 or of a smaller one.
abbrev pub IsOffset : ℕ → Type 0
IsOffset hhdm = (0xff00000000000000 ≤ hhdm) × (hhdm < 2 ^ 64) × (hhdm % 4096 ≡ 0)

module _ ⦃B : BitField⦄ where
  flags_union :
      (p high low : ℕ)
      → p < 2 ^ 44
      → low < 32
      → bit_or (p * 2 ^ 10) (high * 2 ^ 61 + low * 2) ≡ high * 2 ^ 61 + p * 2 ^ 10 + low * 2
  flags_union p high low h k =
      let a = bit_or_split 10 p (high * 2 ^ 51) 0 (low * 2) (omega arith) (omega arith) in
      let b = bit_or_split 51 0 high p 0 (omega arith) (omega arith) in
      let e : p * 2 ^ 10 + 0 ≡ p * 2 ^ 10 = omega arith in
      let f : high * 2 ^ 51 * 2 ^ 10 + low * 2 ≡ high * 2 ^ 61 + low * 2 = omega arith in
      let g : 0 * 2 ^ 51 + p ≡ p = omega arith in
      let i : high * 2 ^ 51 + 0 ≡ high * 2 ^ 51 = omega arith in
      let c : bit_or p (high * 2 ^ 51) ≡ high * 2 ^ 51 + p =
        ap (λ (x : ℕ). bit_or x (high * 2 ^ 51)) (sym g)
        ∙ ap (bit_or (0 * 2 ^ 51 + p)) (sym i)
        ∙ b
        ∙ rw (bit_or_none high, bit_or-zero p) refl in
      ap (λ (x : ℕ). bit_or x (high * 2 ^ 61 + low * 2)) (sym e)
      ∙ ap (bit_or (p * 2 ^ 10 + 0)) (sym f)
      ∙ a
      ∙ rw (c, bit_or_none (low * 2)) (omega arith)

  leaf_value :
      (phys flags : ℕ)
      → phys < 2 ^ 56
      → (f : Permits flags)
      → leaf_entry phys flags ≡ f.0 * 2 ^ 61 + phys / 4096 * 2 ^ 10 + f.1 * 2 + 1
  unfolding leaf_entry set_valid set_ppn phys_ppn
  leaf_value phys flags h f =
      let p : B.get phys 55 12 ≡ phys / 4096 =
        omega (arith, B.get_lem phys 55 12 (omega arith) (omega arith)) in
      let q : B.set 0 53 10 (phys / 4096) ≡ phys / 4096 * 2 ^ 10 =
        omega (arith, B.set_lem 0 53 10 (phys / 4096) (omega arith) (omega arith)) in
      let u : bit_or (phys / 4096 * 2 ^ 10) flags ≡ f.0 * 2 ^ 61 + phys / 4096 * 2 ^ 10 + f.1 * 2 =
        ap (bit_or (phys / 4096 * 2 ^ 10)) f.2
        ∙ flags_union (phys / 4096) f.0 f.1 (omega arith) f.4 in
      rw (p, q, u)
        (omega (
          arith,
          B.set_bit_lem (f.0 * 2 ^ 61 + phys / 4096 * 2 ^ 10 + f.1 * 2) 0 true (omega arith),
        ))

  pub leaf-is_leaf :
      (phys flags : ℕ) → phys < 2 ^ 56 → Permits flags → is_leaf (leaf_entry phys flags) ≡ true
  unfolding is_leaf get_valid
  leaf-is_leaf phys flags h f =
      let v = f.0 * 2 ^ 61 + phys / 4096 * 2 ^ 10 + f.1 * 2 + 1 in
      rw
        (
          leaf_value phys flags h f,
          B.get_bit_lem v 0 (omega arith),
          B.get_bit_lem v 1 (omega arith),
          B.get_bit_lem v 2 (omega arith),
          B.get_bit_lem v 3 (omega arith),
        )
        (ground (arith, f.5))

  pub entry_phys-leaf :
      (phys flags : ℕ)
      → phys < 2 ^ 56
      → phys % 4096 ≡ 0
      → Permits flags
      → entry_phys (leaf_entry phys flags) ≡ phys
  unfolding entry_phys get_ppn
  entry_phys-leaf phys flags h a f = rw (leaf_value phys flags h f) (
      omega (
        arith,
        B.get_lem (f.0 * 2 ^ 61 + phys / 4096 * 2 ^ 10 + f.1 * 2 + 1) 53 10 (omega arith)
            (omega arith),
      ))

  -- A leaf is no branch.
  pub leaf-no_branch : (e : ℕ) → is_leaf e ≡ true → is_branch e ≡ false
  unfolding is_leaf is_branch get_valid
  leaf-no_branch e h = ground arith

  pub branch-no_leaf : (e : ℕ) → is_branch e ≡ true → is_leaf e ≡ false
  unfolding is_leaf is_branch get_valid
  branch-no_leaf e h = ground arith

  pub zero-invalid : (get_valid 0 ≡ false) × (is_branch 0 ≡ false) × (is_leaf 0 ≡ false)
  unfolding is_leaf is_branch get_valid
  zero-invalid = let z : B.get_bit 0 0 ≡ false = B.get_bit_lem 0 0 (omega arith) in (z, rw z, rw z)

  low_bits :
      (p : ℕ)
      → ((p * 2 ^ 10 + 1) / 2 ^ 0 % 2 == 1)
          && (not ((p * 2 ^ 10 + 1) / 2 ^ 1 % 2 == 1)
              && not ((p * 2 ^ 10 + 1) / 2 ^ 2 % 2 == 1)
              && not ((p * 2 ^ 10 + 1) / 2 ^ 3 % 2 == 1)
              && not ((p * 2 ^ 10 + 1) / 2 ^ 4 % 2 == 1)
              && not ((p * 2 ^ 10 + 1) / 2 ^ 6 % 2 == 1)
              && not ((p * 2 ^ 10 + 1) / 2 ^ 7 % 2 == 1))
        ≡ true
  low_bits p =
      let v = p * 2 ^ 10 + 1 in
      let b0 : v / 2 ^ 0 % 2 ≡ 1 = omega arith in
      let b1 : v / 2 ^ 1 % 2 ≡ 0 = omega arith in
      let b2 : v / 2 ^ 2 % 2 ≡ 0 = omega arith in
      let b3 : v / 2 ^ 3 % 2 ≡ 0 = omega arith in
      let b4 : v / 2 ^ 4 % 2 ≡ 0 = omega arith in
      let b6 : v / 2 ^ 6 % 2 ≡ 0 = omega arith in
      let b7 : v / 2 ^ 7 % 2 ≡ 0 = omega arith in rw (b0, b1, b2, b3, b4, b6, b7) refl

  branch_value :
      (hhdm new : ℕ)
      → IsOffset hhdm
      → hhdm ≤ new
      → new < 2 ^ 64
      → branch_entry hhdm 0 new ≡ (sub64 new hhdm) / 4096 * 2 ^ 10 + 1
  unfolding branch_entry set_valid set_ppn
  branch_value hhdm new o h k =
      let p = sub64 new hhdm / 4096 in
      let q : B.set 0 53 10 p ≡ p * 2 ^ 10 =
        omega (arith, o.0, B.set_lem 0 53 10 p (omega arith) (omega arith)) in
      rw q (omega (arith, B.set_bit_lem (p * 2 ^ 10) 0 true (omega arith)))

  -- The entry of a new table is a branch that leads to the table.
  pub branch-is_branch :
      (hhdm new : ℕ)
      → IsOffset hhdm
      → hhdm ≤ new
      → new < 2 ^ 64
      → is_branch (branch_entry hhdm 0 new) ≡ true
  unfolding is_branch get_valid
  branch-is_branch hhdm new o h k =
      let v = sub64 new hhdm / 4096 * 2 ^ 10 + 1 in
      rw
        (
          branch_value hhdm new o h k,
          B.get_bit_lem v 0 (omega arith),
          B.get_bit_lem v 1 (omega arith),
          B.get_bit_lem v 2 (omega arith),
          B.get_bit_lem v 3 (omega arith),
          B.get_bit_lem v 4 (omega arith),
          B.get_bit_lem v 6 (omega arith),
          B.get_bit_lem v 7 (omega arith),
        )
        (low_bits (sub64 new hhdm / 4096))

  pub entry_table-branch :
      (hhdm new : ℕ)
      → IsOffset hhdm
      → hhdm ≤ new
      → new < 2 ^ 64
      → new % 4096 ≡ 0
      → entry_table hhdm (branch_entry hhdm 0 new) ≡ new
  unfolding entry_table entry_phys get_ppn
  entry_table-branch hhdm new o h k a = rw (branch_value hhdm new o h k) (
      omega (
        arith,
        o.0,
        o.1,
        o.2,
        B.get_lem (sub64 new hhdm / 4096 * 2 ^ 10 + 1) 53 10 (omega arith) (omega arith),
      ))
