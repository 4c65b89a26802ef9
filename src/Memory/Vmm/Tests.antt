-- ===== src/Memory/Vmm/Tests.antt =====
-- One page from an arena that has one address to give.
use lsd_limine.Prelude.{◌≡◌, ◌∷◌, [], refl, true, arith, some, ok, Returns, inl, ℕ, ◌/◌}
use lsd_limine.Memory.Tables.Samples.{
  arithmetic_fields, sv48, start, start_levels, start_slot, root-IsOpen, start-IsMemory, read_write,
  root-current_table,
}
use lsd_limine.Memory.Paging.{bytes, as_page_size, from_usize}
use lsd_limine.Memory.Tables.{current_table}
use lsd_limine.Memory.Tables.Walks.{IsOpen}
use lsd_limine.Memory.Tables.Translation.{page_bytes}
use lsd_limine.Memory.Vmm.{Arena, alloc, alloc_constrained}
use lsd_limine.Memory.Vmm.Page.{Serves, alloc-Serves, alloc_constrained-Serves}

abbrev one_address : Arena
one_address = record {
  Vmem = Unit {0};
  Layout = ℕ;
  size = λ l. l;
  alloc = λ size v. some (0x1234567000, v);
  alloc_constrained = λ l v. some (0x1234567000, v);
  free = λ base size v. ok v;
  free_constrained = λ base size v. ok v;
}

level : start_levels (current_table sv48 1) ≡ 4
level = rw root-current_table refl

way : IsOpen sv48 start.tables 0x1234567000 1 3 (current_table sv48 1)
way = inl root-IsOpen

same_page : 0x1234567890 / page_bytes 1 ≡ 0x1234567000 / page_bytes 1
unfolding bytes as_page_size from_usize
same_page = refl

vmm_alloc_example :
    Returns
      (Serves sv48 one_address 0xffff800000010000 1 0x1234567000 3 4 0x1234567890 tt true 0x10000)
      (alloc one_address sv48 4 1 4 4096 true 6 tt start)
vmm_alloc_example =
    alloc-Serves sv48 one_address start_levels start_slot 0xffff800000010000 0xffff800000011000
      (0xffff800000012000 ∷ 0xffff800000013000 ∷ 0xffff800000014000 ∷ []) start start-IsMemory 1 4 6
      0x1234567000 3 4 0x1234567890 tt tt (omega arith) read_write level (omega arith) way
      (omega arith) (omega arith) (omega arith) same_page 4096 true (omega arith) (omega arith) refl

vmm_alloc_constrained_example :
    Returns
      (Serves sv48 one_address 0xffff800000010000 1 0x1234567000 3 4 0x1234567890 tt true 0x11000)
      (alloc_constrained one_address sv48 4 1 4 4096 true 6 tt start)
vmm_alloc_constrained_example =
    alloc_constrained-Serves sv48 one_address start_levels start_slot 0xffff800000010000
      0xffff800000011000 (0xffff800000012000 ∷ 0xffff800000013000 ∷ 0xffff800000014000 ∷ []) start
      start-IsMemory 1 4 6 0x1234567000 3 4 0x1234567890 tt tt (omega arith) read_write level
      (omega arith) way (omega arith) (omega arith) (omega arith) same_page 4096 true (omega arith)
      (omega arith) refl
