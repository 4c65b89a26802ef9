-- ===== src/Traps/Cause.antt =====
-- `Trap` of LSD/src/traps/mod.rs, its discriminants and `from_cause`, for a `usize` of 64 bits.
use lsd_limine.Prelude.{
  ℕ, ◌+◌, ◌-◌, ◌^◌, ◌≡◌, ◌⊎◌, ◌==◌, if◌then◌else◌, refl, inl, inr, arith, Bool-cases, ==→eq, List,
  All, ◌∷◌, [], ◌∙◌, sym,
}

pub data Trap : Type 0 where
  user_software_interrupt supervisor_software_interrupt machine_software_interrupt : Trap
  user_timer_interrupt supervisor_timer_interrupt machine_timer_interrupt : Trap
  user_external_interrupt supervisor_external_interrupt machine_external_interrupt : Trap
  instruction_address_misaligned instruction_access_fault illegal_instruction : Trap
  breakpoint_trap load_address_misaligned load_access_fault store_address_misaligned : Trap
  store_access_fault user_mode_environment_call supervisor_mode_environment_call : Trap
  machine_mode_environment_call instruction_page_fault load_page_fault store_page_fault : Trap
  reserved : Trap

abbrev interrupt_bit : ℕ
interrupt_bit = 2 ^ 63

-- `trap as usize`.
unfoldable pub discriminant : Trap → ℕ
discriminant user_software_interrupt = interrupt_bit + 0
discriminant supervisor_software_interrupt = interrupt_bit + 1
discriminant machine_software_interrupt = interrupt_bit + 3
discriminant user_timer_interrupt = interrupt_bit + 4
discriminant supervisor_timer_interrupt = interrupt_bit + 5
discriminant machine_timer_interrupt = interrupt_bit + 7
discriminant user_external_interrupt = interrupt_bit + 8
discriminant supervisor_external_interrupt = interrupt_bit + 9
discriminant machine_external_interrupt = interrupt_bit + 11
discriminant instruction_address_misaligned = 0
discriminant instruction_access_fault = 1
discriminant illegal_instruction = 2
discriminant breakpoint_trap = 3
discriminant load_address_misaligned = 4
discriminant load_access_fault = 5
discriminant store_address_misaligned = 6
discriminant store_access_fault = 7
discriminant user_mode_environment_call = 8
discriminant supervisor_mode_environment_call = 9
discriminant machine_mode_environment_call = 11
discriminant instruction_page_fault = 12
discriminant load_page_fault = 13
discriminant store_page_fault = 15
discriminant reserved = 2 ^ 64 - 1

-- The arms of `from_cause`, in the source's order.
abbrev arms : List (ℕ × Trap)
arms =
    (0x8000000000000000, user_software_interrupt)
    ∷ (0x8000000000000001, supervisor_software_interrupt)
    ∷ (0x8000000000000003, machine_software_interrupt)
    ∷ (0x8000000000000004, user_timer_interrupt)
    ∷ (0x8000000000000005, supervisor_timer_interrupt)
    ∷ (0x8000000000000007, machine_timer_interrupt)
    ∷ (0x8000000000000008, user_external_interrupt)
    ∷ (0x8000000000000009, supervisor_external_interrupt)
    ∷ (0x800000000000000b, machine_external_interrupt)
    ∷ (0, instruction_address_misaligned)
    ∷ (1, instruction_access_fault)
    ∷ (2, illegal_instruction)
    ∷ (3, breakpoint_trap)
    ∷ (4, load_address_misaligned)
    ∷ (5, load_access_fault)
    ∷ (6, store_address_misaligned)
    ∷ (7, store_access_fault)
    ∷ (8, user_mode_environment_call)
    ∷ (9, supervisor_mode_environment_call)
    ∷ (11, machine_mode_environment_call)
    ∷ (12, instruction_page_fault)
    ∷ (13, load_page_fault)
    ∷ (15, store_page_fault)
    ∷ []

-- A match on a number takes the first arm that it equals.
abbrev match_arms : List (ℕ × Trap) → ℕ → Trap
match_arms [] cause = reserved
match_arms ((c, t) ∷ rest) cause = if cause == c then t else match_arms rest cause

unfoldable pub from_cause : ℕ → Trap
from_cause cause = match_arms arms cause

arm_discriminant :
    (rest : List (ℕ × Trap)) (cause : ℕ)
    → All (λ w. discriminant (w.1) ≡ w.0) rest
    → (match_arms rest cause ≡ reserved) ⊎ (discriminant (match_arms rest cause) ≡ cause)
arm_discriminant [] cause h = inl refl
arm_discriminant ((c, t) ∷ rest) cause h = elim (Bool-cases (cause == c)) [
  | inl hit ↦ inr (rw hit (h.0 ∙ sym (==→eq cause c hit)))
  | inr miss ↦ rw miss (arm_discriminant rest cause h.1)
]

arms-All : All (λ w. discriminant (w.1) ≡ w.0) arms
unfolding discriminant
arms-All = ground arith

back : (t : Trap) → from_cause (discriminant t) ≡ t
unfolding from_cause discriminant
back user_software_interrupt = refl
back _ = refl

-- `from_cause` gives back each trap from its number, and no trap but the reserved one to a cause
-- that is not its number.
pub from_cause-discriminant :
    (t : Trap) (cause : ℕ)
    → (from_cause (discriminant t) ≡ t)
      × ((from_cause cause ≡ reserved) ⊎ (discriminant (from_cause cause) ≡ cause))
unfolding from_cause
from_cause-discriminant t cause = (back t, arm_discriminant arms cause arms-All)
