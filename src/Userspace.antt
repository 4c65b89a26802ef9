-- ===== src/Userspace.antt =====
-- LSD/src/userspace.rs: how a user program is loaded. The elf crate's reading of a file, and the
-- arenas of the vmem crate, are parameters; what is printed is left out. `hhdm` is the value of
-- `HHDM_OFFSET`, `levels` that of `LEVELS`, and `fuel` bounds the loops of the tables.
mod Segments
mod Tests
use lsd_limine.Prelude.{
  ℕ, zero, suc, ◌+◌, ◌*◌, ◌/◌, ◌%◌, ◌^◌, Bool, true, false, Option, some, none, List, [], ◌∷◌, ◌++◌,
  ◌==◌, if◌then◌else◌, get_elem?, Run, ok, panic, ◌>>=◌, unwrap, add64, sub64, bit_and, bit_or, ◌-◌,
}
use lsd_limine.Memory.Fields.{BitField}
use lsd_limine.Memory.Pmm.{FreeList, claim_continuous, claim_aligned}
use lsd_limine.Memory.Dma.{Bytes, zero_bytes}
use lsd_limine.Memory.Paging.{
  PageLevel, level1, level2, from_usize, from_level, from_levels, medium, PageType, bare, sv39,
  sv48, sv57,
}
use lsd_limine.Memory.Paging
use lsd_limine.Memory.Tables.{State, map, get_valid, set_index}
use lsd_limine.Memory.Tables.Copy.{new_with_upperhalf}
use lsd_limine.Traps.Frame.{TrapFrame, number, a0, sp}
use lsd_limine.Traps.Input.{set_a0}
use lsd_limine.Traps.Task.{TaskData, TaskQueue, user, no_wait, new_task}

-- What the elf crate gives of a segment and of a file.
pub record ProgramHeader : Type 0 where
  pub p_type : ℕ
  pub p_flags : ℕ
  pub p_offset : ℕ
  pub p_vaddr : ℕ
  pub p_filesz : ℕ
  pub p_memsz : ℕ

pub record Elf : Type 0 where
  pub segments : Option (List ProgramHeader)
  pub e_entry : ℕ

-- `Flags::contains`.
unfoldable pub contains : ℕ → ℕ → Bool
contains bits flag = bit_and bits flag == flag

-- `Flags::to_pageflags`.
unfoldable pub to_pageflags : ℕ → ℕ
unfolding contains
to_pageflags bits =
    let flags = if contains bits 0b001 then 0b001000 else 0 in
    let flags = if contains bits 0b010 then bit_or flags 0b000100 else flags in
    if contains bits 0b100 then bit_or flags 0b000010 else flags

-- `PageFlags::USER`.
abbrev pub user_flag : ℕ
user_flag = 0b010000

-- The loop that copies a segment from the file, with the rounds that are left.
unfoldable pub copy_bytes : List ℕ → ℕ → ℕ → ℕ → ℕ → Bytes → Run Bytes
copy_bytes file ptr offset i zero m = ok m
copy_bytes file ptr offset i (suc n) m = do
  x ← unwrap (get_elem? file (add64 i offset))
  copy_bytes file ptr offset (i + 1) n (λ b. if b == add64 ptr i then x else m b)

unfoldable pub frames_for : ℕ → ℕ
frames_for memsz = let frames = memsz / 4096 in if memsz % 4096 == 0 then frames else frames + 1

-- How often `(0..n).step_by(k)` goes round.
unfoldable pub steps : ℕ → ℕ → ℕ
steps n k = (n + (k - 1)) / k

-- `PageType as u64`.
unfoldable pub type_code : PageType → ℕ
type_code bare = 0
type_code sv39 = 8
type_code sv48 = 9
type_code sv57 = 10

-- The tables with the free list, and the bytes of memory.
pub record Machine : Type 0 where
  pub memory : State
  pub contents : Bytes

module _ ⦃B : BitField⦄ (hhdm levels fuel : ℕ) where
  -- The loop that maps pages of a level from two addresses on, with the rounds that are left.
  unfoldable pub map_pages : ℕ → PageLevel → ℕ → ℕ → ℕ → ℕ → ℕ → ℕ → State → Run State
  map_pages table target step flags virt phys offset zero s = ok s
  map_pages table target step flags virt phys offset (suc n) s = do
    s ←
        map hhdm fuel table (add64 virt offset) (add64 phys offset) (from_usize levels) target flags
          s
    map_pages table target step flags virt phys (offset + step) n s

  -- What the loop over the segments does with a segment whose type is LOAD.
  unfoldable pub load_segment : ℕ → List ℕ → ProgramHeader → Machine → Run Machine
  unfolding copy_bytes frames_for map_pages steps to_pageflags
  load_segment table file h s = do
    (claimed, free) ← claim_continuous hhdm (frames_for h.p_memsz) s.memory.free
    ptr ← unwrap claimed
    let zeroed = if h.p_filesz == 0 then zero_bytes ptr h.p_memsz s.contents else s.contents
    contents ← copy_bytes file ptr h.p_offset 0 h.p_filesz zeroed
    let flags = bit_or (to_pageflags h.p_flags) user_flag
    memory ←
        map_pages table level1 4096 flags h.p_vaddr (sub64 ptr hhdm) 0 (steps h.p_memsz 4096)
          (record s.memory { free = free })
    ok (record { memory = memory; contents = contents })

  unfoldable pub load_segments : ℕ → List ℕ → List ProgramHeader → Machine → Run Machine
  unfolding load_segment
  load_segments table file [] s = ok s
  load_segments table file (h ∷ hs) s = do
    s ← if h.p_type == 1 then load_segment table file h s else ok s
    load_segments table file hs s

  -- The stack of 0x80_0000 bytes, mapped with pages of two megabytes.
  unfoldable pub map_stack : ℕ → ℕ → State → Run State
  unfolding map_pages steps
  map_stack table vaddr s = do
    (claimed, free) ← claim_aligned hhdm 0x800 (Paging.bytes medium) s.free
    stack ← unwrap claimed
    map_pages table level2 (Paging.bytes medium) 0b010110 vaddr (sub64 stack hhdm) 0
        (steps 0x800000 (Paging.bytes medium)) (record s { free = free })

  -- `task_table`, from the value of satp.
  unfoldable pub task_satp : ℕ → ℕ → ℕ
  unfolding type_code
  task_satp satp table =
      let satp = B.set satp 59 44 0 in
      let satp = B.set satp 63 60 (type_code (from_levels (from_usize levels))) in
      B.set satp 43 0 (sub64 table hhdm / 2 ^ 12)

abbrev pub set_sp : TrapFrame → ℕ → TrapFrame
set_sp f v = record f { registers = λ r. if number r == number sp then v else f.registers r }

abbrev pub zero_frame : TrapFrame
zero_frame = record { sepc = 0; registers = λ r. 0 }

-- The arenas of the vmem crate, of which the kernel keeps those that tasks name: `keep` is
-- `Box::leak`, whose reference is the name.
pub record Arenas : Type 1 where
  pub Arena : Type 0
  pub Kept : Type 0
  pub new_arena : ℕ → Arena
  pub add : ℕ → ℕ → Arena → Option Arena
  pub alloc : ℕ → Arena → Option (ℕ × Arena)
  pub keep : Arena → Kept → ℕ × Kept

module _ ⦃B : BitField⦄ (A : Arenas) (parse : List ℕ → Option Elf) (hhdm levels fuel : ℕ) where
  pub record Loader : Type 0 where
    pub machine : Machine
    pub tasks : TaskQueue
    pub task_ids : A.Arena
    pub kept : A.Kept

  -- The loop that gives the arena of the task each entry of the root that is not in use, from entry
  -- `i` on.
  unfoldable pub add_free : ℕ → ℕ → ℕ → State → A.Arena → Run A.Arena
  add_free table i zero s arena = ok arena
  add_free table i (suc n) s arena =
      let level = from_usize levels in
      if get_valid (s.tables table i) then add_free table (i + 1) n s arena else (do
        arena ← unwrap (A.add (set_index 0 level i) (Paging.bytes (from_level level)) arena)
        add_free table (i + 1) n s arena)

  -- The data of the first thread of a task. The stack pointer is the lowest address of the stack.
  unfoldable pub first_thread : ℕ → ℕ → ℕ → ℕ → ℕ → ℕ → ℕ → TaskData
  first_thread task_id satp stack entry thread_id threads vmm = record {
    trap_frame = set_a0 (record (set_sp zero_frame stack) { sepc = entry }) task_id;
    task_id = task_id;
    task_table = satp;
    privilege = user;
    waiting_on = no_wait;
    thread_id = thread_id;
    thread_manager = threads;
    vmm = vmm;
  }

  unfoldable pub load : ℕ → List ℕ → Loader → Run (ℕ × Loader)
  unfolding load_segments add_free map_stack task_satp first_thread
  load satp file s = do
    elf ← unwrap (parse file)
    table ← unwrap elf.segments
    (root, memory) ← new_with_upperhalf hhdm fuel satp s.machine.memory
    machine ← load_segments hhdm levels fuel root file table (record s.machine { memory = memory })
    (task_id, ids) ← unwrap (A.alloc 1 s.task_ids)
    arena ← add_free root 1 256 machine.memory (A.new_arena 4096)
    (stack, arena) ← unwrap (A.alloc 0x800000 arena)
    memory ← map_stack hhdm levels fuel root stack machine.memory
    let (vmm, kept) = A.keep arena s.kept
    threads ← unwrap (A.add 0 (2 ^ 64 - 1) (A.new_arena 1))
    (thread_id, threads) ← unwrap (A.alloc 1 threads)
    let (manager, kept) = A.keep threads kept
    let t =
        first_thread task_id (task_satp hhdm levels fuel satp root) stack elf.e_entry thread_id
          manager vmm
    ok (
      task_id,
      record {
        machine = record machine { memory = memory };
        tasks = new_task s.tasks t;
        task_ids = ids;
        kept = kept;
      },
    )
