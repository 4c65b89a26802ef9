-- ===== src/Cells.antt =====
-- `SetOnce` and `current_context` of LSD/src/lib.rs. A cell is its flag and its value.
use lsd_limine.Prelude.{
  ℕ, Bool, true, false, Run, ok, panic, if◌then◌else◌, add64, mul64, ◌≡◌, refl,
}

pub record SetOnce {ℓ} (A : Type ℓ) : Type ℓ where
  pub is_set : Bool
  pub val : A

unfoldable pub new_cell {ℓ} : {A : Type ℓ} → A → SetOnce A
new_cell base_val = record { is_set = false; val = base_val }

unfoldable pub set_cell {ℓ} : {A : Type ℓ} → A → SetOnce A → Run (SetOnce A)
set_cell new_val c = if c.is_set then panic else ok (record { is_set = true; val = new_val })

unfoldable pub get_cell {ℓ} : {A : Type ℓ} → SetOnce A → A
get_cell c = c.val

-- The number of the interrupt context of the hart `id`.
unfoldable pub current_context : ℕ → ℕ
current_context id = add64 1 (mul64 2 id)

-- A cell takes one value: what is set in a new cell is what is read, and to set it again panics.
pub set_cell-new_cell {ℓ} :
    {A : Type ℓ} (base_val first second : A)
    → (c : SetOnce A) × (set_cell first (new_cell base_val) ≡ ok c)
      × (get_cell c ≡ first)
      × (set_cell second c ≡ panic)
unfolding new_cell set_cell get_cell
set_cell-new_cell base_val first second = (record { is_set = true; val = first }, refl, refl, refl)
