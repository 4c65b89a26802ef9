-- ===== src/Memory/Vmm.antt =====
-- `Vmm` of LSD/src/memory/vmm.rs: virtual addresses from the vmem crate, frames from Memory/Pmm, and
-- the tables that map the ones to the others. `hhdm` is the value of `HHDM_OFFSET`, `levels` that of
-- `LEVELS`, `satp` that of the register; `fuel` bounds the loops of `map` and `unmap`.
pub mod Taken
pub mod Page
mod Tests
use lsd_limine.Prelude.{
  ℕ, zero, suc, ◌+◌, ◌/◌, ◌%◌, ◌*◌, Bool, true, false, Option, none, some, ◌==◌, if◌then◌else◌, Run,
  ok, ◌>>=◌, unwrap, add64, sub64, mul64,
}
use lsd_limine.Memory.Fields.{BitField}
use lsd_limine.Memory.Pmm.{FreeList, claim, claim_continuous, pull}
use lsd_limine.Memory.Paging.{PageLevel, level1, from_usize}
use lsd_limine.Memory.Tables.{State, PageTable, map, unmap, current_table}

-- What is used of the vmem crate: the state of an arena of addresses, its calls with the strategy
-- that the caller gives, where `none` is an error, and the layouts of the constrained calls.
pub record Arena : Type 1 where
  pub Vmem : Type 0
  pub Layout : Type 0
  pub size : Layout → ℕ
  pub alloc : ℕ → Vmem → Option (ℕ × Vmem)
  pub alloc_constrained : Layout → Vmem → Option (ℕ × Vmem)
  pub free : ℕ → ℕ → Vmem → Run Vmem
  pub free_constrained : ℕ → ℕ → Vmem → Run Vmem

-- What `alloc` returns, with the arena and the memory behind it; `none` stands for `Err`.
abbrev pub Allocated : Arena → Type 0
Allocated A = Option ((ℕ × Option ℕ) × A.Vmem × State)

-- The frames of a size.
unfoldable pub frames_of : ℕ → ℕ
frames_of size = if size % 4096 == 0 then size / 4096 else size / 4096 + 1

-- `claim` and the physical address of the frame.
unfoldable pub claim_phys : ℕ → State → Run (ℕ × State)
claim_phys hhdm s = do (p, free) ← claim hhdm s.free; ok (sub64 p hhdm, record s { free = free })

-- The physical address of frames in a row, where they are asked for, or 0.
unfoldable pub claim_section : ℕ → Bool → ℕ → State → Run (ℕ × State)
claim_section hhdm contiguous frames s = elim contiguous [
  | false ↦ ok (0, s)
  | true ↦ do
    (p, free) ← claim_continuous hhdm frames s.free
    p ← unwrap p
    ok (sub64 p hhdm, record s { free = free })
]

-- The physical address for the next page.
unfoldable pub next_phys : ℕ → Bool → ℕ → State → Run (ℕ × State)
unfolding claim_phys
next_phys hhdm contiguous phys s = elim contiguous [
  | true ↦ ok (phys, s)
  | false ↦ claim_phys hhdm s
]

-- What the second output of `alloc` is.
abbrev pub told : Bool → ℕ → Option ℕ
told true phys = some phys
told false phys = none

module _ ⦃B : BitField⦄ where
  unfoldable pub map_page : ℕ → ℕ → ℕ → ℕ → ℕ → ℕ → ℕ → State → Run State
  map_page hhdm levels satp fuel flags virt phys s =
      map hhdm fuel (current_table hhdm satp) virt phys (from_usize levels) level1 flags s

  -- The loop of `alloc`, with the rounds that are left: the physical address is raised behind `map`.
  unfoldable pub map_section : ℕ → ℕ → ℕ → ℕ → ℕ → Bool → ℕ → ℕ → ℕ → ℕ → State → Run State
  unfolding next_phys map_page
  map_section hhdm levels satp fuel flags contiguous base zero offset phys s = ok s
  map_section hhdm levels satp fuel flags contiguous base (suc rounds) offset phys s = do
    (phys, s) ← next_phys hhdm contiguous phys s
    s ← map_page hhdm levels satp fuel flags (add64 base offset) phys s
    map_section hhdm levels satp fuel flags contiguous base rounds (offset + 4096)
        (if contiguous then add64 phys 4096 else phys) s

  -- The loop of `alloc_constrained`, where it is raised before.
  unfoldable pub map_constrained : ℕ → ℕ → ℕ → ℕ → ℕ → Bool → ℕ → ℕ → ℕ → ℕ → State → Run State
  unfolding next_phys map_page
  map_constrained hhdm levels satp fuel flags contiguous base zero offset phys s = ok s
  map_constrained hhdm levels satp fuel flags contiguous base (suc rounds) offset phys s = do
    (phys, s) ← next_phys hhdm contiguous (add64 phys 4096) s
    s ← map_page hhdm levels satp fuel flags (add64 base offset) phys s
    map_constrained hhdm levels satp fuel flags contiguous base rounds (offset + 4096) phys s

  -- One round of `free` and `free_constrained`.
  unfoldable pub free_page : ℕ → ℕ → ℕ → ℕ → ℕ → State → Run State
  free_page hhdm levels satp fuel virt s = do
    (phys, tables) ←
        unmap hhdm fuel (current_table hhdm satp) virt (from_usize levels) level1 s.tables
    free ← pull hhdm (add64 phys hhdm) s.free
    ok (record { free = free; tables = tables })

  unfoldable pub free_section : ℕ → ℕ → ℕ → ℕ → ℕ → ℕ → ℕ → State → Run State
  unfolding free_page
  free_section hhdm levels satp fuel base zero offset s = ok s
  free_section hhdm levels satp fuel base (suc rounds) offset s = do
    s ← free_page hhdm levels satp fuel (add64 base offset) s
    free_section hhdm levels satp fuel base rounds (offset + 4096) s

  module _ (A : Arena) (hhdm levels satp fuel : ℕ) where
    unfoldable pub alloc : ℕ → Bool → ℕ → A.Vmem → State → Run (Allocated A)
    unfolding frames_of claim_section map_section
    alloc size contiguous flags v s = elim (A.alloc size v) [
      | none ↦ ok none
      | some (base, v') ↦ do
        (phys, s) ← claim_section hhdm contiguous (frames_of size) s
        s ←
            map_section hhdm levels satp fuel flags contiguous base
              ((mul64 (frames_of size) 4096 + 4095) / 4096) 0 phys s
        ok (some ((base, told contiguous phys), v', s))
    ]

    unfoldable pub alloc_constrained : A.Layout → Bool → ℕ → A.Vmem → State → Run (Allocated A)
    unfolding frames_of claim_section map_constrained
    alloc_constrained layout contiguous flags v s = elim (A.alloc_constrained layout v) [
      | none ↦ ok none
      | some (base, v') ↦ do
        (phys, s) ← claim_section hhdm contiguous (frames_of (A.size layout)) s
        s ←
            map_constrained hhdm levels satp fuel flags contiguous base
              ((A.size layout + 4095) / 4096) 0 phys s
        ok (some ((base, told contiguous phys), v', s))
    ]

    unfoldable pub free : ℕ → ℕ → A.Vmem → State → Run (A.Vmem × State)
    unfolding free_section
    free base size v s = do
      v ← A.free base size v
      s ← free_section hhdm levels satp fuel base ((size + 4095) / 4096) 0 s
      ok (v, s)

    unfoldable pub free_constrained : ℕ → ℕ → A.Vmem → State → Run (A.Vmem × State)
    unfolding free_section
    free_constrained base size v s = do
      v ← A.free_constrained base size v
      s ← free_section hhdm levels satp fuel base ((size + 4095) / 4096) 0 s
      ok (v, s)
