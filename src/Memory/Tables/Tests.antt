-- ===== src/Memory/Tables/Tests.antt =====
-- A page of four kibibytes mapped below an empty root table of Sv48, beside a page of 512
-- gibibytes; and bit fields by arithmetic.
use lsd_limine.Prelude.{
  Bool-cases, ◌==◌, false, ℕ, ◌+◌, ◌/◌, ◌%◌, ◌<◌, ◌≡◌, ◌≢◌, refl, arith, List, some, none, ok, inl,
  inr, Returns,
}
use lsd_limine.Memory.Paging.{bytes, as_page_size, from_usize}
use lsd_limine.Memory.Tables.{
  is_branch, is_leaf, get_valid, index, map, walk, unmap, virt_to_phys, current_table, translate,
  entry_phys, get_ppn, level_mask,
}
use lsd_limine.Memory.Tables.Copy.{clone_table_range}
use lsd_limine.Memory.Tables.Copy.Cloned.{IsCloned, clone_table_range-IsCloned}
use lsd_limine.Memory.Tables.Translation.{
  IsMemory, map-IsMemory, map-virt_to_phys, map-virt_to_phys_kept, map-unmap, page_bytes,
}
use lsd_limine.Memory.Tables.Samples.{
  arithmetic_fields, sv48, root, free_frames, start, start_levels, start_slot, page_aligned,
  root-IsOpen, start-IsMemory, read_write, root-current_table,
}

map-IsMemory_example :
    Returns
      (λ s'.
        (levels' : ℕ → ℕ) × (slot' : ℕ → ℕ × ℕ) × (xs' : List ℕ) × IsMemory sv48 levels' slot' xs'
          s'
        × ((a : ℕ) → 0 < start_levels a → levels' a ≡ start_levels a))
      (map sv48 4 root 0x1234567000 0x80005000 (from_usize 4) (from_usize 1) 6 start)
map-IsMemory_example =
    map-IsMemory sv48 0x1234567000 0x80005000 1 6 3 root start_levels start_slot free_frames start
      (omega arith) (omega arith) (omega arith) page_aligned read_write start-IsMemory refl
      (omega arith) (inl root-IsOpen) 4 (omega arith)

same_page : 0x1234567890 / page_bytes 1 ≡ 0x1234567000 / page_bytes 1
unfolding bytes as_page_size from_usize
same_page = refl

map-virt_to_phys_example :
    Returns
      (λ s'.
        virt_to_phys sv48 5 1 4 0x1234567890 s'.tables
        ≡ ok (some (0x80005000 + 0x1234567890 % page_bytes 1)))
      (map sv48 4 root 0x1234567000 0x80005000 (from_usize 4) (from_usize 1) 6 start)
map-virt_to_phys_example =
    map-virt_to_phys sv48 0x1234567000 0x80005000 1 6 3 root start_levels start_slot free_frames
      start (omega arith) (omega arith) (omega arith) page_aligned read_write start-IsMemory refl
      (omega arith) (inl root-IsOpen) 4 5 0x1234567890 1 (omega arith) (omega arith) same_page
      root-current_table

other_index : index 0x28000002000 (from_usize 1) ≢ index 0x1234567000 (from_usize 1)
unfolding index from_usize
other_index = omega arith

-- The page of 512 gibibytes is at index 5.
huge_page : virt_to_phys sv48 1 1 4 0x28000002000 start.tables ≡ ok (some 0x2000)
unfolding virt_to_phys current_table walk index from_usize is_leaf get_valid translate entry_phys
    get_ppn level_mask
huge_page = refl

map-virt_to_phys_kept_example :
    Returns
      (λ s'. virt_to_phys sv48 1 1 4 0x28000002000 s'.tables ≡ ok (some 0x2000))
      (map sv48 4 root 0x1234567000 0x80005000 (from_usize 4) (from_usize 1) 6 start)
map-virt_to_phys_kept_example =
    map-virt_to_phys_kept sv48 0x1234567000 0x80005000 1 6 3 root start_levels start_slot
      free_frames start (omega arith) (omega arith) (omega arith) page_aligned read_write
      start-IsMemory refl (omega arith) (inl root-IsOpen) 4 1 0x28000002000 1 0x2000 (omega arith)
      root-current_table (inr (inr (inr other_index))) huge_page

map-unmap_example :
    Returns
      (λ s'.
        Returns
          (λ (a, T). (a ≡ 0x80005000) × (walk sv48 4 root 0x1234567890 (from_usize 4) T ≡ ok none))
          (unmap sv48 4 root 0x1234567000 (from_usize 4) (from_usize 1) s'.tables))
      (map sv48 4 root 0x1234567000 0x80005000 (from_usize 4) (from_usize 1) 6 start)
map-unmap_example =
    map-unmap sv48 0x1234567000 0x80005000 1 6 3 root start_levels start_slot free_frames start
      (omega arith) (omega arith) (omega arith) page_aligned read_write start-IsMemory refl
      (omega arith) (inl root-IsOpen) 4 4 4 0x1234567890 (omega arith) (omega arith) (omega arith)
      same_page

-- The root has a leaf at entry 5 and nothing else.
no_branch : (j : ℕ) → is_branch (start.tables root j) ≡ false
unfolding is_branch get_valid
no_branch j = elim (Bool-cases (j == 5)) [ inl e ↦ rw e refl | inr e ↦ rw e refl ]

clone_table_range_example :
    Returns
      (IsCloned sv48 root 0xffff800000002000 4 3 start)
      (clone_table_range sv48 1 root 0xffff800000002000 4 3 start)
clone_table_range_example =
    clone_table_range-IsCloned sv48 0 root 0xffff800000002000 4 3 start
      (λ e. absurd (omega (arith, e))) (λ j from to. no_branch j)
