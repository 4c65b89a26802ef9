-- ===== src/Traps/Shim/Entry.antt =====
-- What the entry of a trap stores, and what the handler is called with.
use lsd_limine.Prelude.{
  ℕ, ◌+◌, ◌-◌, ◌*◌, ◌^◌, ◌≤◌, ◌<◌, ◌≡◌, ◌⊎◌, refl, List, [], ◌∷◌, add64, sub64, arith, All, ◌∙◌,
  subst, ◌++◌, ap,
}
use lsd_limine.Traps.Frame.{
  Reg, number, ra, sp, gp, tp, t0, t1, t2, s0, s1, a0, a1, a2, a3, a4, a5, a6, a7, s2, s3, s4, s5,
  s6, s7, s8, s9, s10, s11, t3, t4, t5, t6,
}
use lsd_limine.Traps.Shim.{Machine, Memory, put, run, entry}
use lsd_limine.Traps.Shim.Slots.{put_all, slot, put_all-slot, put_all_outside}

module _ (m : Machine) where
  -- Memory once the stack pointer is in the scratch area, and the frame's address.
  abbrev stashed : Memory
  stashed = put m.mem (add64 m.sscratch 24) (m.regs sp)

  abbrev frame : ℕ
  frame = sub64 (stashed (add64 m.sscratch 0)) 256

  abbrev with_ra : Memory
  with_ra = put stashed (add64 frame 8) (m.regs ra)

  -- The words stored before the handler's pointers are loaded.
  abbrev early : List (ℕ × ℕ)
  early =
      (8, m.regs ra)
      ∷ (16, with_ra (add64 m.sscratch 24))
      ∷ (24, m.regs gp)
      ∷ (32, m.regs tp)
      ∷ (40, m.regs t0)
      ∷ (48, m.regs t1)
      ∷ (56, m.regs t2)
      ∷ (64, m.regs s0)
      ∷ (72, m.regs s1)
      ∷ (80, m.regs a0)
      ∷ (88, m.regs a1)
      ∷ (96, m.regs a2)
      ∷ (104, m.regs a3)
      ∷ (112, m.regs a4)
      ∷ (120, m.regs a5)
      ∷ (128, m.regs a6)
      ∷ (136, m.regs a7)
      ∷ (144, m.regs s2)
      ∷ (152, m.regs s3)
      ∷ (160, m.regs s4)
      ∷ (168, m.regs s5)
      ∷ (176, m.regs s6)
      ∷ (184, m.regs s7)
      ∷ (192, m.regs s8)
      ∷ (200, m.regs s9)
      ∷ (208, m.regs s10)
      ∷ (216, m.regs s11)
      ∷ (224, m.regs t3)
      ∷ (232, m.regs t4)
      ∷ (240, m.regs t5)
      ∷ []

  abbrev slots : List (ℕ × ℕ)
  slots = early ++ ((248, m.regs t6) ∷ (0, m.sepc) ∷ [])

  entry_stores : (run entry m).mem ≡ put_all frame slots stashed
  unfolding run entry
  entry_stores = refl

  -- The scratch area and the frame lie in the address space, and apart.
  pub record IsApart : Type 0 where
    pub scratch : m.sscratch + 32 ≤ 2 ^ 64
    pub top : (256 ≤ m.mem m.sscratch) × (m.mem m.sscratch < 2 ^ 64)
    pub apart : (m.sscratch + 32 ≤ m.mem m.sscratch - 256) ⊎ (m.mem m.sscratch ≤ m.sscratch)

  abbrev pub base : ℕ
  base = m.mem m.sscratch - 256

  frame_lem : IsApart → frame ≡ base
  frame_lem h =
      let scratch = h.scratch in
      let top = h.top in
      let z : add64 m.sscratch 0 ≡ m.sscratch = ground arith in
      let w : stashed m.sscratch ≡ m.mem m.sscratch = ground arith in rw (z, w) ground arith

  old_sp : IsApart → with_ra (add64 m.sscratch 24) ≡ m.regs sp
  old_sp h =
      let scratch = h.scratch in
      let top = h.top in let apart = h.apart in let z = frame_lem h in rw z ground arith

  slots_lem : (r : Reg) (d : ℕ) → IsApart → slot slots (8 * number r) d ≡ m.regs r
  slots_lem ra d h = refl
  slots_lem sp d h = old_sp h
  slots_lem _ d h = refl

  slots_small : All (λ w. w.0 < 256) slots
  slots_small = ground arith

  pub number_lt : (r : Reg) → 8 * number r < 256
  number_lt ra = ground arith
  number_lt _ = ground arith

  base_fits : IsApart → base + 256 ≤ 2 ^ 64
  base_fits h = let top = h.top in ground arith

  early_small : All (λ w. w.0 < 256) early
  early_small = ground arith

  frame_fits : IsApart → frame + 256 ≤ 2 ^ 64
  frame_fits h = let top = h.top in let z = frame_lem h in rw z ground arith

  scratch_kept :
      (k : ℕ)
      → k + 8 ≤ 24
      → IsApart
      → put_all frame early stashed (add64 m.sscratch k) ≡ m.mem (add64 m.sscratch k)
  scratch_kept k lt h =
      let scratch = h.scratch in
      let z = frame_lem h in
      let apart = h.apart in
      let top = h.top in
      let out : (add64 m.sscratch k < frame) ⊎ (frame + 256 ≤ add64 m.sscratch k) =
        rw z ground arith in
      put_all_outside frame early stashed (add64 m.sscratch k) (frame_fits h) early_small out
      ∙ ground arith

  -- Where the scratch area and the new frame lie apart, the entry stores each register, the stack
  -- pointer of the interrupted task among them, at the place of its field in the frame below the
  -- stack's top, and `sepc` in the frame's first word.
  pub entry_saves :
      (r : Reg)
      → IsApart
      → ((run entry m).mem (add64 base (8 * number r)) ≡ m.regs r)
        × ((run entry m).mem (add64 base 0) ≡ m.sepc)
  entry_saves r h =
      let z = frame_lem h in
      let fits = frame_fits h in
      (
        subst (λ b. (run entry m).mem (add64 b (8 * number r)) ≡ m.regs r) z
            (ap (λ f. f (add64 frame (8 * number r))) entry_stores
              ∙ put_all-slot frame slots stashed (8 * number r) fits slots_small (number_lt r)
              ∙ slots_lem r _ h),
        subst (λ b. (run entry m).mem (add64 b 0) ≡ m.sepc) z
            (ap (λ f. f (add64 frame 0)) entry_stores
              ∙ put_all-slot frame slots stashed 0 fits slots_small (omega arith)),
      )

  -- The registers at the call, computed.
  calls_a0 : (run entry m).regs a0 ≡ frame
  unfolding run entry
  calls_a0 = refl

  calls_a1 : (run entry m).regs a1 ≡ m.scause
  unfolding run entry
  calls_a1 = refl

  calls_a2 : (run entry m).regs a2 ≡ m.stval
  unfolding run entry
  calls_a2 = refl

  calls_sp : (run entry m).regs sp ≡ frame
  unfolding run entry
  calls_sp = refl

  calls_tp : (run entry m).regs tp ≡ put_all frame early stashed (add64 m.sscratch 8)
  unfolding run entry
  calls_tp = refl

  calls_gp : (run entry m).regs gp ≡ put_all frame early stashed (add64 m.sscratch 16)
  unfolding run entry
  calls_gp = refl

  calls_sscratch : (run entry m).sscratch ≡ m.sscratch
  unfolding run entry
  calls_sscratch = refl

  -- It calls `trap_handler` with the frame's address, the cause and the faulting address as its
  -- arguments, the stack pointer at the frame, the kernel's thread and global pointers in `tp`
  -- and `gp`, and the scratch register as it was.
  pub entry_calls :
      IsApart
      → ((run entry m).regs a0 ≡ base)
        × ((run entry m).regs a1 ≡ m.scause)
        × ((run entry m).regs a2 ≡ m.stval)
        × ((run entry m).regs sp ≡ base)
        × ((run entry m).regs tp ≡ m.mem (add64 m.sscratch 8))
        × ((run entry m).regs gp ≡ m.mem (add64 m.sscratch 16))
        × ((run entry m).sscratch ≡ m.sscratch)
  entry_calls h =
      let z = frame_lem h in
      (
        calls_a0 ∙ z,
        calls_a1,
        calls_a2,
        calls_sp ∙ z,
        calls_tp ∙ scratch_kept 8 (omega arith) h,
        calls_gp ∙ scratch_kept 16 (omega arith) h,
        calls_sscratch,
      )
