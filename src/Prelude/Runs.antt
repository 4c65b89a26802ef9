-- ===== src/Prelude/Runs.antt =====
-- The result of a call of kernel code. `panic` is a Rust panic, an assertion or an index out of
-- bounds. `fault` is an access through a pointer to nothing. `out_of_fuel` is a loop that has not
-- ended within the rounds that it was given.

use mathlib.Core.Bool.{Bool, true, false}
use mathlib.Core.Option.{Option, none, some}

pub data Run {ℓ} (A : Type ℓ) : Type ℓ where
  ok : A → Run A
  panic : Run A
  fault : Run A
  out_of_fuel : Run A

infixl 5 ◌>>=◌ ◌>>◌
abbrev pub ◌>>=◌ {ℓ κ} : {A : Type ℓ} {C : Type κ} → Run A → (A → Run C) → Run C
fault >>= next = fault
panic >>= next = panic
out_of_fuel >>= next = out_of_fuel
ok value >>= next = next value

abbrev pub ◌>>◌ {ℓ} : {C : Type ℓ} → Run (Unit {0}) → Run C → Run C
first >> second = first >>= λ done. second

-- `assert!(b)`.
abbrev pub assert : Bool → Run (Unit {0})
assert true = ok tt
assert false = panic

-- `unwrap`, `expect`, and an index that is checked.
abbrev pub unwrap {ℓ} : {A : Type ℓ} → Option A → Run A
unwrap none = panic
unwrap (some a) = ok a

-- `P` holds of the value that the call returns, and the call does return.
abbrev pub Returns {ℓ} : {A : Type ℓ} → (A → Type 0) → Run A → Type 0
Returns P (ok a) = P a
Returns P panic = ⊥
Returns P fault = ⊥
Returns P out_of_fuel = ⊥

pub Returns-imp {ℓ} :
    {A : Type ℓ} (P Q : A → Type 0) (m : Run A) → ((a : A) → P a → Q a) → Returns P m → Returns Q m
Returns-imp P Q (ok a) f h = f a h
Returns-imp P Q panic f h = elim h [ ]
Returns-imp P Q fault f h = elim h [ ]
Returns-imp P Q out_of_fuel f h = elim h [ ]

pub Returns-bind {ℓ κ} :
    {A : Type ℓ} {B : Type κ} (P : A → Type 0) (Q : B → Type 0) (m : Run A) (f : A → Run B)
    → Returns P m
    → ((a : A) → P a → Returns Q (f a))
    → Returns Q (m >>= f)
Returns-bind P Q (ok a) f h k = k a h
Returns-bind P Q panic f h k = elim h [ ]
Returns-bind P Q fault f h k = elim h [ ]
Returns-bind P Q out_of_fuel f h k = elim h [ ]
