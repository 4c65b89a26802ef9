-- ===== src/Traps/Shim/Trip.antt =====
-- The trap entry and exit together.
use lsd_limine.Prelude.{ℕ, ◌*◌, ◌<◌, ◌≡◌, ◌∙◌, add64, subst, arith}
use lsd_limine.Traps.Frame.{Reg, number, sp}
use lsd_limine.Traps.Shim.{Machine, run, entry, exit}
use lsd_limine.Traps.Shim.Entry.{IsApart, base, entry_saves, number_lt}
use lsd_limine.Traps.Shim.Exit.{exit_restores}

-- A handler that returns with the stack pointer at the frame and the frame's words as the entry
-- stored them goes back to the interrupted task with every register and `sepc` as they were, where
-- the scratch area and the frame lie apart.
pub trap_returns :
    (m n : Machine) (r : Reg)
    → IsApart m
    → ((o : ℕ) → o < 256 → n.mem (add64 (base m) o) ≡ (run entry m).mem (add64 (base m) o))
    → n.regs sp ≡ base m
    → ((run exit n).regs r ≡ m.regs r) × ((run exit n).sepc ≡ m.sepc)
trap_returns m n r h kept at =
    let saved = entry_saves m r h in
    let back = exit_restores n r in
    let P : ℕ → Type 0 = λ b.
      ((run exit n).regs r ≡ n.mem (add64 b (8 * number r)))
      × ((run exit n).sepc ≡ n.mem (add64 b 0)) in
    let from = subst P at (back.0, back.1) in
    (
      from.0 ∙ kept (8 * number r) (number_lt m r) ∙ saved.0,
      from.1 ∙ kept 0 (omega arith) ∙ saved.1,
    )
