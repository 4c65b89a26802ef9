-- ===== src/Memory/Tables.antt =====
-- The page tables of LSD/src/memory/vmm.rs: entries, `map`, `unmap` and `virt_to_phys`, with the
-- indices of LSD/src/memory/mod.rs. A state holds the free list and the tables by address; a frame
-- is read as a free list entry until it is claimed, and as a table once it is one. `hhdm` is the
-- value of `HHDM_OFFSET`. The loops have rounds that are left.
pub mod Entries
pub mod Index
pub mod Walks
pub mod Added
pub mod Mapped
pub mod Map
pub mod Cleared
pub mod Ancestors
pub mod Kept
pub mod Translation
pub mod Copy
pub mod Samples
mod Tests
use lsd_limine.Prelude.{
  ℕ, zero, suc, ◌/◌, Bool, true, false, not, ◌&&◌, ◌||◌, Option, none, some, ltb, ◌==◌,
  if◌then◌else◌, Run, ok, panic, out_of_fuel, ◌>>=◌, ◌>>◌, assert, add64, sub64, mul64, not64,
  bit_and, bit_or,
}
use lsd_limine.Memory.Fields.{BitField}
use lsd_limine.Memory.Pmm.{FreeList, claim}
use lsd_limine.Memory.Paging.{
  PageLevel, level1, level2, level3, level4, level5, page_offset, from_usize, as_usize,
}

-- `PageTable`, of 512 entries.
abbrev pub PageTable : Type 0
PageTable = ℕ → ℕ

pub record State : Type 0 where
  pub free : FreeList
  pub tables : ℕ → PageTable

-- `table.write_volatile(copy)`, and the change of one entry of a copy.
unfoldable pub write_volatile : (ℕ → PageTable) → ℕ → PageTable → ℕ → PageTable
write_volatile tables t copy a = if a == t then copy else tables a

unfoldable pub put : PageTable → ℕ → ℕ → PageTable
put copy i e j = if j == i then e else copy j

-- `PageLevel::from_usize(level.as_usize() - 1)`.
unfoldable pub below : PageLevel → PageLevel
below level = from_usize (sub64 (as_usize level) 1)

-- `level == target_level`.
unfoldable pub same_level : PageLevel → PageLevel → Bool
same_level l m = as_usize l == as_usize m

module _ ⦃B : BitField⦄ where
  unfoldable pub index : ℕ → PageLevel → ℕ
  index a level1 = B.get a 20 12
  index a level2 = B.get a 29 21
  index a level3 = B.get a 38 30
  index a level4 = B.get a 47 39
  index a level5 = B.get a 56 48
  index a page_offset = B.get a 11 0

  unfoldable pub set_index : ℕ → PageLevel → ℕ → ℕ
  set_index a level1 val = B.set a 20 12 val
  set_index a level2 val = B.set a 29 21 val
  set_index a level3 val = B.set a 38 30 val
  set_index a level4 val = B.set a 47 39 val
  set_index a level5 val = B.set a 56 48 val
  set_index a page_offset val = B.set a 11 0 val

  -- `PhysicalAddress::get_ppn`.
  unfoldable pub phys_ppn : ℕ → ℕ
  phys_ppn a = B.get a 55 12

  -- The fields of `PageEntry`.
  unfoldable pub get_valid : ℕ → Bool
  get_valid e = B.get_bit e 0

  unfoldable pub set_valid : ℕ → Bool → ℕ
  set_valid e b = B.set_bit e 0 b

  unfoldable pub get_ppn : ℕ → ℕ
  get_ppn e = B.get e 53 10

  unfoldable pub set_ppn : ℕ → ℕ → ℕ
  set_ppn e v = B.set e 53 10 v

  unfoldable pub is_branch : ℕ → Bool
  unfolding get_valid
  is_branch e =
      get_valid e
      && (not (B.get_bit e 1)
          && not (B.get_bit e 2)
          && not (B.get_bit e 3)
          && not (B.get_bit e 4)
          && not (B.get_bit e 6)
          && not (B.get_bit e 7))

  unfoldable pub is_leaf : ℕ → Bool
  unfolding get_valid
  is_leaf e = get_valid e && (B.get_bit e 1 || B.get_bit e 2 || B.get_bit e 3)

  -- `get_ppn() << 12`.
  unfoldable pub entry_phys : ℕ → ℕ
  entry_phys e = mul64 (get_ppn e) 0x1000

  -- `table`.
  unfoldable pub entry_table : ℕ → ℕ → ℕ
  entry_table hhdm e = add64 (entry_phys e) hhdm

  -- The entry that `map` makes at the target level.
  unfoldable pub leaf_entry : ℕ → ℕ → ℕ
  leaf_entry phys flags = set_valid (bit_or (set_ppn 0 (phys_ppn phys)) flags) true

  -- What it makes of an entry that is not valid when it adds a table.
  unfoldable pub branch_entry : ℕ → ℕ → ℕ → ℕ
  branch_entry hhdm old new = set_valid (set_ppn old (sub64 new hhdm / 0x1000)) true

  unfoldable pub add_table : ℕ → ℕ → ℕ → State → Run (ℕ × State)
  unfolding write_volatile put
  add_table hhdm table i s = do
    (new, free) ← claim hhdm s.free
    let copy = put (s.tables table) i (branch_entry hhdm (s.tables table i) new)
    ok (
      new,
      record {
        free = free;
        tables = write_volatile (write_volatile s.tables new (λ _. 0)) table copy;
      },
    )

  -- The table that a round of `map` goes on with.
  unfoldable pub enter : ℕ → ℕ → ℕ → State → Run (ℕ × State)
  enter hhdm table i s =
      let entry = s.tables table i in
      if is_branch entry
      then ok (entry_table hhdm entry, s)
      else if is_leaf entry
      then panic
      else if not (get_valid entry)
      then add_table hhdm table i s
      else ok (table, s)

  unfoldable pub set_leaf : ℕ → ℕ → ℕ → ℕ → State → State
  unfolding write_volatile put
  set_leaf table i phys flags s = record s {
    tables = write_volatile s.tables table (put (s.tables table) i (leaf_entry phys flags));
  }

  unfoldable pub map : ℕ → ℕ → ℕ → ℕ → ℕ → PageLevel → PageLevel → ℕ → State → Run State
  unfolding enter set_leaf
  map hhdm zero table virt phys level target flags s = out_of_fuel
  map hhdm (suc rounds) table virt phys level target flags s =
      assert (ltb (index virt level) 512) >> elim (same_level level target) [
        | true ↦ ok (set_leaf table (index virt level) phys flags s)
        | false ↦ do
          (next, s') ← enter hhdm table (index virt level) s
          map hhdm rounds next virt phys (below level) target flags s'
      ]

  -- The page's address and the tables without the leaf.
  unfoldable pub take_leaf : ℕ → ℕ → (ℕ → PageTable) → Run (ℕ × (ℕ → PageTable))
  unfolding write_volatile put
  take_leaf table i tables =
      if not (is_leaf (tables table i))
      then panic
      else ok (entry_phys (tables table i), write_volatile tables table (put (tables table) i 0))

  unfoldable pub unmap :
      ℕ → ℕ → ℕ → ℕ → PageLevel → PageLevel → (ℕ → PageTable) → Run (ℕ × (ℕ → PageTable))
  unfolding take_leaf
  unmap hhdm zero table virt level target tables = out_of_fuel
  unmap hhdm (suc rounds) table virt level target tables =
      assert (ltb (index virt level) 512) >> elim (same_level level target) [
        | true ↦ take_leaf table (index virt level) tables
        | false ↦
            let entry = tables table (index virt level) in
            elim (not (is_leaf entry) && is_branch entry) [
              | true ↦ unmap hhdm rounds (entry_table hhdm entry) virt (below level) target tables
              | false ↦ panic
            ]
      ]

  unfoldable pub level_mask : PageLevel → ℕ
  level_mask level1 = 0xfff
  level_mask level2 = 0x1fffff
  level_mask level3 = 0x3fffffff
  level_mask level4 = 0x7fffffffff
  level_mask level5 = 0xffffffffffff
  level_mask page_offset = 0

  -- The physical address that a leaf at a level gives a virtual address.
  unfoldable pub translate : PageLevel → ℕ → ℕ → ℕ
  translate level virt e =
      bit_or (bit_and (entry_phys e) (not64 (level_mask level))) (bit_and virt (level_mask level))

  -- `virt_to_phys` from the current table and the number of levels on; `none` stands for `Err`.
  unfoldable pub walk : ℕ → ℕ → ℕ → ℕ → PageLevel → (ℕ → PageTable) → Run (Option ℕ)
  walk hhdm zero table virt level tables = out_of_fuel
  walk hhdm (suc rounds) table virt level tables =
      let entry = tables table (index virt level) in
      assert (ltb (index virt level) 512) >> elim (is_leaf entry) [
        | true ↦ ok (some (translate level virt entry))
        | false ↦ elim (is_branch entry) [
          | true ↦ walk hhdm rounds (entry_table hhdm entry) virt (below level) tables
          | false ↦ ok none
        ]
      ]

  -- `current_table`, from the value of satp.
  unfoldable pub current_table : ℕ → ℕ → ℕ
  current_table hhdm satp = add64 (mul64 (B.get satp 43 0) 0x1000) hhdm

  -- `levels` is the value of `LEVELS`.
  unfoldable pub virt_to_phys : ℕ → ℕ → ℕ → ℕ → ℕ → (ℕ → PageTable) → Run (Option ℕ)
  unfolding walk
  virt_to_phys hhdm rounds satp levels virt tables =
      walk hhdm rounds (current_table hhdm satp) virt (from_usize levels) tables
