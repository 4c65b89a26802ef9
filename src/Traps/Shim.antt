-- ===== src/Traps/Shim.antt =====
-- The assembly of the trap entry and exit, `stvec_trap_shim` of LSD/src/traps/mod.rs, and of
-- `TaskData::load` in LSD/src/traps/task.rs, as lists of instructions over the registers and the
-- 8-byte words of memory. What saves and restores floating point registers, on a branch that is
-- taken when the `FS` field of `sstatus` is 3, is left out.
pub mod Slots
pub mod Entry
pub mod Exit
pub mod Trip
mod Tests
use lsd_limine.Prelude.{
  ℕ, ◌/◌, ◌^◌, List, [], ◌∷◌, ◌++◌, ◌==◌, if◌then◌else◌, bit_and, bit_or, add64, sub64,
}
use lsd_limine.Traps.Frame.{
  Reg, GeneralRegisters, number, ra, sp, gp, tp, t0, t1, t2, s0, s1, a0, a1, a2, a3, a4, a5, a6, a7,
  s2, s3, s4, s5, s6, s7, s8, s9, s10, s11, t3, t4, t5, t6,
}

-- The operand `off(base)` is written `off base`.
pub data Instr : Type 0 where
  sd : Reg → ℕ → Reg → Instr
  ld : Reg → ℕ → Reg → Instr
  subi : Reg → Reg → ℕ → Instr
  mv : Reg → Reg → Instr
  li : Reg → ℕ → Instr
  srli : Reg → Reg → ℕ → Instr
  andi : Reg → Reg → ℕ → Instr
  swap_sscratch : Reg → Instr
  csrr_sepc : Reg → Instr
  csrr_scause : Reg → Instr
  csrr_stval : Reg → Instr
  csrr_sstatus : Reg → Instr
  csrw_sepc : Reg → Instr
  csrw_satp : Reg → Instr
  csrs_sstatus : Reg → Instr
  fence : Instr

abbrev pub Memory : Type 0
Memory = ℕ → ℕ

pub record Machine : Type 0 where
  pub regs : GeneralRegisters
  pub mem : Memory
  pub sscratch : ℕ
  pub sepc : ℕ
  pub scause : ℕ
  pub stval : ℕ
  pub sstatus : ℕ
  pub satp : ℕ

abbrev pub put_reg : GeneralRegisters → Reg → ℕ → GeneralRegisters
put_reg f r v q = if number q == number r then v else f q

abbrev pub put : Memory → ℕ → ℕ → Memory
put m a v b = if b == a then v else m b

unfoldable pub exec : Instr → Machine → Machine
exec (sd r off b) m = record m { mem = put m.mem (add64 (m.regs b) off) (m.regs r) }
exec (ld r off b) m = record m { regs = put_reg m.regs r (m.mem (add64 (m.regs b) off)) }
exec (subi r q k) m = record m { regs = put_reg m.regs r (sub64 (m.regs q) k) }
exec (mv r q) m = record m { regs = put_reg m.regs r (m.regs q) }
exec (li r k) m = record m { regs = put_reg m.regs r k }
exec (srli r q k) m = record m { regs = put_reg m.regs r (m.regs q / 2 ^ k) }
exec (andi r q k) m = record m { regs = put_reg m.regs r (bit_and (m.regs q) k) }
exec (swap_sscratch r) m = record m { regs = put_reg m.regs r m.sscratch; sscratch = m.regs r }
exec (csrr_sepc r) m = record m { regs = put_reg m.regs r m.sepc }
exec (csrr_scause r) m = record m { regs = put_reg m.regs r m.scause }
exec (csrr_stval r) m = record m { regs = put_reg m.regs r m.stval }
exec (csrr_sstatus r) m = record m { regs = put_reg m.regs r m.sstatus }
exec (csrw_sepc r) m = record m { sepc = m.regs r }
exec (csrw_satp r) m = record m { satp = m.regs r }
exec (csrs_sstatus r) m = record m { sstatus = bit_or m.sstatus (m.regs r) }
exec fence m = m

unfoldable pub run : List Instr → Machine → Machine
unfolding exec
run [] m = m
run (i ∷ is) m = run is (exec i m)

-- `TRAP_FRAME_SIZE`, less its sign.
abbrev pub trap_frame_size : ℕ
trap_frame_size = 256

-- From the trap to the call of `trap_handler`, where the floating point registers are not dirty.
unfoldable pub entry : List Instr
entry =
    swap_sscratch t6
    ∷ sd sp 24 t6
    ∷ ld sp 0 t6
    ∷ subi sp sp trap_frame_size
    ∷ sd ra 8 sp
    ∷ ld ra 24 t6
    ∷ sd ra 16 sp
    ∷ sd gp 24 sp
    ∷ sd tp 32 sp
    ∷ sd t0 40 sp
    ∷ sd t1 48 sp
    ∷ sd t2 56 sp
    ∷ sd s0 64 sp
    ∷ sd s1 72 sp
    ∷ sd a0 80 sp
    ∷ sd a1 88 sp
    ∷ sd a2 96 sp
    ∷ sd a3 104 sp
    ∷ sd a4 112 sp
    ∷ sd a5 120 sp
    ∷ sd a6 128 sp
    ∷ sd a7 136 sp
    ∷ sd s2 144 sp
    ∷ sd s3 152 sp
    ∷ sd s4 160 sp
    ∷ sd s5 168 sp
    ∷ sd s6 176 sp
    ∷ sd s7 184 sp
    ∷ sd s8 192 sp
    ∷ sd s9 200 sp
    ∷ sd s10 208 sp
    ∷ sd s11 216 sp
    ∷ sd t3 224 sp
    ∷ sd t4 232 sp
    ∷ sd t5 240 sp
    ∷ ld tp 8 t6
    ∷ ld gp 16 t6
    ∷ swap_sscratch t6
    ∷ sd t6 248 sp
    ∷ csrr_sepc t6
    ∷ sd t6 0 sp
    ∷ mv a0 sp
    ∷ csrr_scause a1
    ∷ csrr_stval a2
    ∷ csrr_sstatus s0
    ∷ srli s0 s0 13
    ∷ andi s0 s0 3
    ∷ li s1 3
    ∷ []

-- From the return of `trap_handler` to `sret`, where the floating point registers were not dirty.
unfoldable pub exit : List Instr
exit =
    ld t6 0 sp
    ∷ csrw_sepc t6
    ∷ li t6 32
    ∷ csrs_sstatus t6
    ∷ ld ra 8 sp
    ∷ ld gp 24 sp
    ∷ ld tp 32 sp
    ∷ ld t0 40 sp
    ∷ ld t1 48 sp
    ∷ ld t2 56 sp
    ∷ ld s0 64 sp
    ∷ ld s1 72 sp
    ∷ ld a0 80 sp
    ∷ ld a1 88 sp
    ∷ ld a2 96 sp
    ∷ ld a3 104 sp
    ∷ ld a4 112 sp
    ∷ ld a5 120 sp
    ∷ ld a6 128 sp
    ∷ ld a7 136 sp
    ∷ ld s2 144 sp
    ∷ ld s3 152 sp
    ∷ ld s4 160 sp
    ∷ ld s5 168 sp
    ∷ ld s6 176 sp
    ∷ ld s7 184 sp
    ∷ ld s8 192 sp
    ∷ ld s9 200 sp
    ∷ ld s10 208 sp
    ∷ ld s11 216 sp
    ∷ ld t3 224 sp
    ∷ ld t4 232 sp
    ∷ ld t5 240 sp
    ∷ ld t6 248 sp
    ∷ fence
    ∷ ld sp 16 sp
    ∷ []

-- `TaskData::load`, up to `sret`; `a0` points at the task.
unfoldable pub load : List Instr
load =
    ld t0 0 a0
    ∷ csrw_sepc t0
    ∷ ld t0 264 a0
    ∷ csrw_satp t0
    ∷ fence
    ∷ ld ra 8 a0
    ∷ ld sp 16 a0
    ∷ ld gp 24 a0
    ∷ ld tp 32 a0
    ∷ ld t0 40 a0
    ∷ ld t1 48 a0
    ∷ ld t2 56 a0
    ∷ ld s0 64 a0
    ∷ ld s1 72 a0
    ∷ ld a1 88 a0
    ∷ ld a2 96 a0
    ∷ ld a3 104 a0
    ∷ ld a4 112 a0
    ∷ ld a5 120 a0
    ∷ ld a6 128 a0
    ∷ ld a7 136 a0
    ∷ ld s2 144 a0
    ∷ ld s3 152 a0
    ∷ ld s4 160 a0
    ∷ ld s5 168 a0
    ∷ ld s6 176 a0
    ∷ ld s7 184 a0
    ∷ ld s8 192 a0
    ∷ ld s9 200 a0
    ∷ ld s10 208 a0
    ∷ ld s11 216 a0
    ∷ ld t3 224 a0
    ∷ ld t4 232 a0
    ∷ ld t5 240 a0
    ∷ ld t6 248 a0
    ∷ ld a0 80 a0
    ∷ []
