-- ===== src/Traps/Shim/Exit.antt =====
-- What the exit of a trap and the start of a task load.
use lsd_limine.Prelude.{◌*◌, ◌≡◌, bit_or, add64, ◌^◌, refl}
use lsd_limine.Traps.Frame.{Reg, ra, number, sp, a0}
use lsd_limine.Traps.Shim.{Machine, run, exit, load}

-- The exit leaves in each register what stands at the place of its field in the frame at `sp`,
-- and the frame's `sepc` in the register of that name; it sets bit 5 of `sstatus` and writes no
-- memory.
pub exit_restores :
    (m : Machine) (r : Reg)
    → ((run exit m).regs r ≡ m.mem (add64 (m.regs sp) (8 * number r)))
      × ((run exit m).sepc ≡ m.mem (add64 (m.regs sp) 0))
      × ((run exit m).sstatus ≡ bit_or m.sstatus (2 ^ 5))
      × ((run exit m).mem ≡ m.mem)
unfolding run exit
exit_restores m ra = (refl, refl, refl, refl)
exit_restores m _ = (refl, refl, refl, refl)

-- `load` leaves in each register, `a0` among them, what stands at the place of its field in the
-- frame with which the task at `a0` begins, the frame's `sepc` in that register, and the word at
-- the place of `task_table` in `satp`.
pub load_restores :
    (m : Machine) (r : Reg)
    → ((run load m).regs r ≡ m.mem (add64 (m.regs a0) (8 * number r)))
      × ((run load m).sepc ≡ m.mem (add64 (m.regs a0) 0))
      × ((run load m).satp ≡ m.mem (add64 (m.regs a0) 264))
unfolding run load
load_restores m ra = (refl, refl, refl)
load_restores m _ = (refl, refl, refl)
