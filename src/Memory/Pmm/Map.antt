-- ===== src/Memory/Pmm/Map.antt =====
-- `init` of LSD/src/memory/pmm.rs: the usable entries of the boot loader's memory map go into the
-- free list, frame by frame. An entry of the map is its base, its size and whether it is usable.
pub mod Frames
use lsd_limine.Prelude.{
  ℕ, zero, suc, ◌+◌, ◌/◌, Bool, true, false, List, [], ◌∷◌, if◌then◌else◌, Run, ok, ◌>>=◌, add64,
}
use lsd_limine.Memory.Pmm.{FreeList, null, init, push, Option, FreeListEntry}

pub record MemoryEntry : Type 0 where
  pub base : ℕ
  pub size : ℕ
  pub usable : Bool

-- `FreeList::null`; `mapped` are the entries that can be read.
abbrev pub null_list : (ℕ → Option FreeListEntry) → FreeList
null_list mapped = record { head = null; tail = null; len = 0; cells = mapped }

-- One round of the inner loop.
unfoldable pub add_frame : ℕ → ℕ → Bool × FreeList → Run (Bool × FreeList)
add_frame hhdm new (uninit, s) =
    if uninit then (do s ← init new s; ok (false, s)) else (do s ← push hhdm new s; ok (uninit, s))

-- The inner loop, from an offset on, with the rounds that are left.
unfoldable pub add_frames : ℕ → ℕ → ℕ → ℕ → Bool × FreeList → Run (Bool × FreeList)
add_frames hhdm base zero offset st = ok st
add_frames hhdm base (suc rounds) offset st = do
  st ← add_frame hhdm (add64 base offset) st
  add_frames hhdm base rounds (offset + 4096) st

-- `(0..size).step_by(4096)` has one round for each 4096 bytes that begin.
unfoldable pub add_entries : ℕ → List MemoryEntry → Bool × FreeList → Run (Bool × FreeList)
add_entries hhdm [] st = ok st
add_entries hhdm (e ∷ es) st = do
  st ← if e.usable then add_frames hhdm (add64 e.base hhdm) ((e.size + 4095) / 4096) 0 st else ok st
  add_entries hhdm es st

unfoldable pub init_from : ℕ → List MemoryEntry → FreeList → Run FreeList
init_from hhdm map s = do (uninit, s) ← add_entries hhdm map (true, s); ok s
