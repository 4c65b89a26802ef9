-- ===== src/Drivers/Pci/Slot/Identity.antt =====
-- What a device's registers say.
use lsd_limine.Prelude.{
  if◌then◌else◌, fault, out_of_fuel, Bool-cases, inl, inr, ℕ, ◌+◌, ◌*◌, ◌/◌, ◌%◌, ◌^◌, ◌<◌, ◌≡◌, ok,
  panic, Run, Returns, refl, arith, bit_and, ◌==◌,
}
use lsd_limine.Prelude.Bits.{bit_and_ones, bit_or_disjoint}
use lsd_limine.Drivers.Pci.Slot.{
  ClassCode, BarKind, ident, read_reg, read_code, kind_of, io_space, bits32, bits64,
  is_multifunction, head_type,
}

-- `ident` returns the two words that it is given and the four bytes of word 2, a u32.
pub ident-bytes :
    (words : ℕ → ℕ) (vendor_id dev_id : ℕ)
    → words 2 < 2 ^ 32
    → Returns
        (λ d.
          (d.vendor_id ≡ vendor_id)
          × (d.device_id ≡ dev_id)
          × (((d.class * 2 ^ 8 + d.subclass) * 2 ^ 8 + d.prog_if) * 2 ^ 8 + d.revision ≡ words 2))
        (ident words vendor_id dev_id)
unfolding ident read_reg
ident-bytes words vendor_id dev_id h = (refl, refl, omega arith)

-- The class code of three bytes is the number that they write, the high one first.
pub read_code-bytes :
    (c : ClassCode)
    → c.high < 256
    → c.mid < 256
    → c.low < 256
    → read_code c ≡ (c.high * 2 ^ 8 + c.mid) * 2 ^ 8 + c.low
unfolding read_code
read_code-bytes c h m l =
    let a : c.high * 2 ^ 16 % 2 ^ 32 ≡ c.high * 2 ^ 16 = omega arith in
    let b : c.mid * 2 ^ 8 % 2 ^ 32 ≡ c.mid * 2 ^ 8 = omega arith in
    let e : c.high * 2 ^ 16 + c.mid * 2 ^ 8 ≡ (c.high * 2 ^ 8 + c.mid) * 2 ^ 8 = omega arith in
    rw (a, b, bit_or_disjoint 16 c.high (c.mid * 2 ^ 8) (omega arith), e)
      (bit_or_disjoint 8 (c.high * 2 ^ 8 + c.mid) c.low (omega arith))

-- The top bit of the header's byte and the seven below it make up the byte.
pub head_type-byte : (v : ℕ) → v < 256 → (if is_multifunction v then 128 else 0) + head_type v ≡ v
unfolding is_multifunction head_type
head_type-byte v h = let low : bit_and v 0x7f ≡ v % 128 = bit_and_ones 7 v in rw low (ground arith)

abbrev pub KindOf : ℕ → Run BarKind → Type 0
KindOf bar (ok io_space) = bar % 2 ≡ 1
KindOf bar (ok bits32) = (bar / 2 % 4 ≡ 0) × (bar % 2 ≡ 0)
KindOf bar (ok bits64) = (bar / 2 % 4 ≡ 2) × (bar % 2 ≡ 0)
KindOf bar panic = (bar / 2 % 2 ≡ 1) × (bar % 2 ≡ 0)
KindOf bar fault = ⊥
KindOf bar out_of_fuel = ⊥

-- The kind of an address register is read from its low three bits: odd for the I/O space, 0 for 32
-- bits of memory, 4 for 64, and a panic at 2 and 6.
pub kind_of-KindOf : (bar : ℕ) → KindOf bar (kind_of bar)
unfolding kind_of
kind_of-KindOf bar =
    let low : bit_and bar 1 ≡ bar % 2 = bit_and_ones 1 bar in
    let width : bit_and (bar / 2) 3 ≡ bar / 2 % 4 = bit_and_ones 2 (bar / 2) in
    elim (Bool-cases (bit_and bar 1 == 1)) [
      | inl odd ↦ rw odd (ground arith)
      | inr even ↦ elim (Bool-cases (bit_and (bar / 2) 3 == 0)) [
        | inl none_set ↦ rw (even, none_set) (ground arith, ground arith)
        | inr some_set ↦ elim (Bool-cases (bit_and (bar / 2) 3 == 2)) [
          | inl two ↦ rw (even, some_set, two) (ground arith, ground arith)
          | inr other ↦ rw (even, some_set, other) (ground arith, ground arith)
        ]
      ]
    ]
