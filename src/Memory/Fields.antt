-- ===== src/Memory/Fields.antt =====
-- What LSD/src/memory/mod.rs and LSD/src/memory/vmm.rs use of the bitfield crate: the accessors
-- that its macro makes of `name, set_name: msb, lsb` and of `name, set_name: bit` on a u64.
use lsd_limine.Prelude.{ℕ, Bool, ◌+◌, ◌-◌, ◌*◌, ◌/◌, ◌%◌, ◌^◌, ◌≤◌, ◌<◌, ◌≡◌, ◌==◌, if◌then◌else◌}

-- A getter takes the bits from `lsb` to `msb`; a setter puts the low bits of a value in their
-- place and keeps the other bits.
pub record BitField : Type 0 where
  pub get : ℕ → ℕ → ℕ → ℕ
  pub set : ℕ → ℕ → ℕ → ℕ → ℕ
  pub get_bit : ℕ → ℕ → Bool
  pub set_bit : ℕ → ℕ → Bool → ℕ
  pub get_lem :
      (x msb lsb : ℕ) → lsb ≤ msb → msb < 64 → get x msb lsb ≡ x / 2 ^ lsb % 2 ^ (msb + 1 - lsb)
  pub set_lem :
      (x msb lsb v : ℕ)
      → lsb ≤ msb
      → msb < 64
      → set x msb lsb v + x / 2 ^ lsb % 2 ^ (msb + 1 - lsb) * 2 ^ lsb
        ≡ x + v % 2 ^ (msb + 1 - lsb) * 2 ^ lsb
  pub get_bit_lem : (x i : ℕ) → i < 64 → get_bit x i ≡ (x / 2 ^ i % 2 == 1)
  pub set_bit_lem :
      (x i : ℕ) (b : Bool)
      → i < 64
      → set_bit x i b + x / 2 ^ i % 2 * 2 ^ i ≡ x + (if b then 2 ^ i else 0)
