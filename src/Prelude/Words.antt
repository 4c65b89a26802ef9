-- ===== src/Prelude/Words.antt =====
-- Machine words as native numbers. The kernel is built with `cargo build --release`
-- (xtask/src/main.rs), so `+` and `-` on u64 and usize wrap.
use Prim.Native.Nat.{ℕ, ◌+◌, ◌-◌, ◌*◌, ◌%◌, ◌^◌}

abbrev pub u64 : ℕ
u64 = 2 ^ 64

abbrev pub add64 : ℕ → ℕ → ℕ
add64 a b = (a + b) % 2 ^ 64

abbrev pub sub64 : ℕ → ℕ → ℕ
sub64 a b = (a + 2 ^ 64 - b) % 2 ^ 64

abbrev pub mul64 : ℕ → ℕ → ℕ
mul64 a b = a * b % 2 ^ 64

-- `!a` on a u64.
abbrev pub not64 : ℕ → ℕ
not64 a = 2 ^ 64 - 1 - a
