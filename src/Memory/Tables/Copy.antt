-- ===== src/Memory/Tables/Copy.antt =====
-- The copy of tables of LSD/src/memory/vmm.rs: `clone_table_range` and `new_with_upperhalf`.
pub mod Cloned
use lsd_limine.Prelude.{
  ℕ, zero, suc, ◌+◌, ◌/◌, Run, ok, out_of_fuel, ◌>>=◌, sub64, true, false, if◌then◌else◌,
}
use lsd_limine.Memory.Fields.{BitField}
use lsd_limine.Memory.Pmm.{claim}
use lsd_limine.Memory.Tables.{
  State, write_volatile, put, is_branch, is_leaf, set_ppn, entry_table, current_table,
}

module _ ⦃B : BitField⦄ (hhdm : ℕ) where
  -- `*dest_entry = e`.
  unfoldable pub write_entry : ℕ → ℕ → ℕ → State → State
  unfolding write_volatile put
  write_entry dest index e s = record s {
    tables = write_volatile s.tables dest (put (s.tables dest) index e);
  }

  -- The entries of a table from `index` on, as many as the last number; the first bounds how deep
  -- tables are nested.
  unfoldable pub clone_table_range : ℕ → ℕ → ℕ → ℕ → ℕ → State → Run State
  unfolding write_entry
  clone_table_range zero src dest index n s = out_of_fuel
  clone_table_range (suc depth) src dest index zero s = ok s
  clone_table_range (suc depth) src dest index (suc n) s =
      let e = s.tables src index in
      elim (is_branch e) [
        | true ↦ do
          (new, free) ← claim hhdm s.free
          let s =
              write_entry dest index (set_ppn e (sub64 new hhdm / 0x1000))
                (record s { free = free })
          s ← clone_table_range depth (entry_table hhdm e) new 0 512 s
          clone_table_range (suc depth) src dest (index + 1) n s
        | false ↦
            clone_table_range (suc depth) src dest (index + 1) n
              (write_entry dest index (if is_leaf e then e else 0) s)
      ]

  -- `satp` is the value of that register. The lower half keeps what the frame held.
  unfoldable pub new_with_upperhalf : ℕ → ℕ → State → Run (ℕ × State)
  unfolding clone_table_range
  new_with_upperhalf depth satp s = do
    (new, free) ← claim hhdm s.free
    s ← clone_table_range depth (current_table hhdm satp) new 256 256 (record s { free = free })
    ok (new, s)
