-- ===== src/Traps/Frame.antt =====
-- The trap frame of LSD/src/traps/mod.rs: `GeneralRegisters` with a value for each register, and
-- `TrapFrame`. The registers stand in the order of the struct's fields.
use lsd_limine.Prelude.{ℕ}

pub data Reg : Type 0 where
  ra sp gp tp t0 t1 t2 s0 s1 a0 a1 a2 a3 a4 a5 a6 a7 : Reg
  s2 s3 s4 s5 s6 s7 s8 s9 s10 s11 t3 t4 t5 t6 : Reg

-- The number of a register in the instruction set, `x1` to `x31`, is its place in the struct.
abbrev pub number : Reg → ℕ
number ra = 1
number sp = 2
number gp = 3
number tp = 4
number t0 = 5
number t1 = 6
number t2 = 7
number s0 = 8
number s1 = 9
number a0 = 10
number a1 = 11
number a2 = 12
number a3 = 13
number a4 = 14
number a5 = 15
number a6 = 16
number a7 = 17
number s2 = 18
number s3 = 19
number s4 = 20
number s5 = 21
number s6 = 22
number s7 = 23
number s8 = 24
number s9 = 25
number s10 = 26
number s11 = 27
number t3 = 28
number t4 = 29
number t5 = 30
number t6 = 31

abbrev pub GeneralRegisters : Type 0
GeneralRegisters = Reg → ℕ

pub record TrapFrame : Type 0 where
  pub sepc : ℕ
  pub registers : GeneralRegisters
