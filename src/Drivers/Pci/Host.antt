-- ===== src/Drivers/Pci/Host.antt =====
-- LSD/src/drivers/pci/mod.rs: where the configuration space of a function lies in that of its host.
use lsd_limine.Prelude.{
  ℕ, ◌+◌, ◌*◌, ◌/◌, ◌%◌, ◌^◌, ◌≤◌, ◌<◌, ◌≡◌, bit_or, arith, refl, ◌-◌, ◌∙◌, ap,
}
use lsd_limine.Prelude.Bits.{bit_or_disjoint}
use lsd_limine.Prelude.Unions.{bit_or_none, bit_or_split, bit_or-lt}

-- `ecam_offset`, with the first bus of the host; the difference is one of u8.
unfoldable pub ecam_offset : ℕ → ℕ → ℕ → ℕ → ℕ
ecam_offset start bus dev func =
    bit_or (bit_or ((bus + 2 ^ 8 - start) % 2 ^ 8 * 2 ^ 20) (dev * 2 ^ 15)) (func * 2 ^ 12)

module _ (start bus dev func : ℕ) (from : start ≤ bus) (fits : bus < 256) where
  ecam_offset-sum :
      dev < 32
      → func < 8
      → ecam_offset start bus dev func ≡ (bus - start) * 2 ^ 20 + dev * 2 ^ 15 + func * 2 ^ 12
  unfolding ecam_offset
  ecam_offset-sum d f =
      let b : (bus + 2 ^ 8 - start) % 2 ^ 8 ≡ bus - start = omega arith in
      let e : (bus - start) * 2 ^ 20 + dev * 2 ^ 15 ≡ ((bus - start) * 2 ^ 5 + dev) * 2 ^ 15 =
        omega arith in
      rw
        (
          b,
          bit_or_disjoint 20 (bus - start) (dev * 2 ^ 15) (omega arith),
          e,
          bit_or_disjoint 15 ((bus - start) * 2 ^ 5 + dev) (func * 2 ^ 12) (omega arith),
        )
        refl

  -- For a bus of the host, a device below 32 and a function below 8, the three can be read from the
  -- offset, so different functions lie at different offsets.
  pub ecam_offset-fields :
      dev < 32
      → func < 8
      → (ecam_offset start bus dev func / 2 ^ 20 ≡ bus - start)
        × (ecam_offset start bus dev func / 2 ^ 15 % 32 ≡ dev)
        × (ecam_offset start bus dev func / 2 ^ 12 % 8 ≡ func)
  ecam_offset-fields d f = rw (ecam_offset-sum d f) (omega arith, omega arith, omega arith)

-- A device has five bits in the offset. At every bus and for every device, the offset is therefore
-- that of the device's remainder by 32, on the bus whose distance from the first is `|` of the
-- distance that was given and the device divided by 32.
pub ecam_offset-alias :
    (start bus dev func : ℕ)
    → start ≤ bus
    → bus < 256
    → dev < 256
    → func < 8
    → ecam_offset start bus dev func
      ≡ ecam_offset start (start + bit_or (bus - start) (dev / 32)) (dev % 32) func
unfolding ecam_offset
ecam_offset-alias start bus dev func from fits d f =
    let y = bit_or (bus - start) (dev / 32) in
    let small : y < 2 ^ 8 = bit_or-lt 8 (bus - start) (dev / 32) (omega arith) (omega arith) in
    let b : (bus + 2 ^ 8 - start) % 2 ^ 8 ≡ bus - start = omega arith in
    let c : (start + y + 2 ^ 8 - start) % 2 ^ 8 ≡ y = omega arith in
    let l : (bus - start) * 2 ^ 20 + 0 ≡ (bus - start) * 2 ^ 20 = omega arith in
    let r : dev / 32 * 2 ^ 20 + dev % 32 * 2 ^ 15 ≡ dev * 2 ^ 15 = omega arith in
    let fields : bit_or ((bus - start) * 2 ^ 20) (dev * 2 ^ 15) ≡ y * 2 ^ 20 + dev % 32 * 2 ^ 15 =
      rw (← l, ← r)
        (bit_or_split 20 (bus - start) (dev / 32) 0 (dev % 32 * 2 ^ 15) (omega arith) (omega arith)
          ∙ ap (λ (t : ℕ). y * 2 ^ 20 + t) (bit_or_none (dev % 32 * 2 ^ 15))) in
    let apart : bit_or (y * 2 ^ 20) (dev % 32 * 2 ^ 15) ≡ y * 2 ^ 20 + dev % 32 * 2 ^ 15 =
      bit_or_disjoint 20 y (dev % 32 * 2 ^ 15) (omega arith) in
    rw (b, c, fields, apart) refl
