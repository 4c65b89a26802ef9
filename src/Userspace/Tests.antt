-- ===== src/Userspace/Tests.antt =====
-- A segment of two bytes in a file of three, loaded at a page that is not mapped.
use lsd_limine.Prelude.{ℕ, List, [], ◌∷◌, inl, refl, arith, Returns}
use lsd_limine.Memory.Tables.Samples.{
  arithmetic_fields, sv48, root, start, start_levels, start_slot, start-IsMemory, root-IsOpen,
  root-current_table,
}
use lsd_limine.Userspace.{Machine, ProgramHeader, load_segment}
use lsd_limine.Userspace.Segments.{Finds, load_segment-Finds}

abbrev file : List ℕ
file = 7 ∷ 8 ∷ 9 ∷ []

abbrev code : ProgramHeader
code = record {
  p_type = 1;
  p_flags = 5;
  p_offset = 1;
  p_vaddr = 0x1234567000;
  p_filesz = 2;
  p_memsz = 2;
}

abbrev machine : Machine
machine = record { memory = start; contents = λ _. 0 }

load_segment_example :
    Returns
      (Finds sv48 3 root start_levels start_slot 0xffff800000010000 0xffff800000011000
        (0xffff800000012000 ∷ 0xffff800000013000 ∷ 0xffff800000014000 ∷ [])
        machine
        start-IsMemory
        file
        code
        1
        4
        1)
      (load_segment sv48 4 4 root file code machine)
load_segment_example =
    load_segment-Finds sv48 3 root start_levels start_slot 0xffff800000010000 0xffff800000011000
      (0xffff800000012000 ∷ 0xffff800000013000 ∷ 0xffff800000014000 ∷ []) machine start-IsMemory
      file code 1 4 4 1 (omega arith) (omega arith) (omega arith) (omega arith) refl
      (inl root-IsOpen) root-current_table (omega arith) (omega arith) (omega arith) (omega arith)
      (omega arith) (omega arith) (omega arith) (omega arith)
