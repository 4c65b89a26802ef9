-- ===== src/Smp/Tests.antt =====
-- Cores 1, 2 and 3 are started by core 0.
use lsd_limine.Prelude.{ℕ, ◌*◌, ◌≡◌, [], ◌∷◌, arith, refl}
use lsd_limine.Smp.{ready, main, core, boot, run}
use lsd_limine.Smp.First.{Owns, first-Owns}
use lsd_limine.Smp.Shared.{hasty, hasty-shared}

abbrev stack_at : ℕ → ℕ
stack_at h = 0x80000 * h

abbrev table_at : ℕ → ℕ
table_at h = 0x1000 * h

first-Owns_example : Owns stack_at table_at 1 (
    (run stack_at table_at
        (main ∷ main ∷ core 1 ∷ main ∷ core 1 ∷ [])
        (boot (1 ∷ 2 ∷ 3 ∷ []))).cores
      1)
first-Owns_example =
    first-Owns stack_at table_at 1 (2 ∷ 3 ∷ []) refl (main ∷ main ∷ core 1 ∷ main ∷ core 1 ∷ [])

hasty-shared_example :
    ((run stack_at table_at (hasty 1 2 3) (boot (1 ∷ 2 ∷ 3 ∷ []))).cores 2 ≡ ready 0x3000 0x180000)
    × ((run stack_at table_at (hasty 1 2 3) (boot (1 ∷ 2 ∷ 3 ∷ []))).cores 3
        ≡ ready 0x3000 0x180000)
hasty-shared_example = hasty-shared stack_at table_at 1 2 3 [] (λ e. absurd (omega (arith, e)))
