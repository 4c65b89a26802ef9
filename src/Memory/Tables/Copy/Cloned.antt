-- ===== src/Memory/Tables/Copy/Cloned.antt =====
-- What `clone_table_range` leaves of entries that lead to no table.
use lsd_limine.Prelude.{
  Bool, true, Run, ◌>>=◌, sub64, ◌/◌, ℕ, zero, suc, ◌+◌, ◌≤◌, ◌<◌, ◌≡◌, ◌≢◌, ◌⊎◌, inl, inr, refl,
  sym, ap, ◌∙◌, false, Bool-cases, arith, ==_refl, ne→==, ==→eq, ◌==◌, if◌then◌else◌, Returns,
  Returns-imp, subst,
}
use lsd_limine.Memory.Fields.{BitField}
use lsd_limine.Memory.Pmm.{claim}
use lsd_limine.Memory.Tables.{set_ppn, entry_table, State, write_volatile, put, is_branch, is_leaf}
use lsd_limine.Memory.Tables.Copy.{write_entry, clone_table_range}

module _ ⦃B : BitField⦄ (hhdm : ℕ) where
  written : (dest i e : ℕ) (s : State) → (write_entry hhdm dest i e s).tables dest i ≡ e
  unfolding write_entry write_volatile put
  written dest i e s = rw (==_refl dest, ==_refl i) refl

  not_written :
      (dest i e : ℕ) (s : State) (a j : ℕ)
      → (a ≢ dest) ⊎ (j ≢ i)
      → (write_entry hhdm dest i e s).tables a j ≡ s.tables a j
  unfolding write_entry write_volatile put
  not_written dest i e s a j (inl ne) = rw (ne→== a dest ne) refl
  not_written dest i e s a j (inr ne) = elim (Bool-cases (a == dest)) [
    | inl same ↦ rw (same, ne→== j i ne) (ap (λ (b : ℕ). s.tables b j) (sym (==→eq a dest same)))
    | inr other ↦ rw other refl
  ]

  -- What a leaf becomes, and what any other entry.
  abbrev pub cloned : ℕ → ℕ
  cloned e = if is_leaf e then e else 0

  pub record IsCloned (src dest index n : ℕ) (s s' : State) : Type 0 where
    pub inside : (j : ℕ) → index ≤ j → j < index + n → s'.tables dest j ≡ cloned (s.tables src j)
    pub outside :
        (a j : ℕ) → (a ≢ dest) ⊎ ((j < index) ⊎ (index + n ≤ j)) → s'.tables a j ≡ s.tables a j
    pub free : s'.free ≡ s.free

  one_more :
      (src dest index n : ℕ) (s s' : State)
      → src ≢ dest
      → IsCloned src dest
          (index + 1)
          n
          (write_entry hhdm dest index (cloned (s.tables src index)) s)
          s'
      → IsCloned src dest index (suc n) s s'
  unfolding write_entry
  one_more src dest index n s s' ne c =
      let e = cloned (s.tables src index) in
      record {
        inside = λ j from to. elim (Bool-cases (j == index)) [
          | inl same ↦
              let at : j ≡ index = ==→eq j index same in
              rw at (c.outside dest index (inr (inl (omega arith))) ∙ written dest index e s)
          | inr other ↦
              c.inside j (ground arith) (omega arith)
              ∙ ap cloned (not_written dest index e s src j (inl ne))
        ];
        outside =
            λ a j out. c.outside a j (ground arith) ∙ not_written dest index e s a j (ground arith);
        free = c.free;
      }

  -- One entry that leads to no table.
  clone-flat :
      (depth src dest index n : ℕ) (s : State)
      → is_branch (s.tables src index) ≡ false
      → clone_table_range hhdm (suc depth) src dest index (suc n) s
        ≡ clone_table_range hhdm
            (suc depth)
            src
            dest
            (index + 1)
            n
            (write_entry hhdm dest index (cloned (s.tables src index)) s)
  unfolding clone_table_range
  clone-flat depth src dest index n s f =
      let e = s.tables src index in
      let rest : Bool → Run State = λ b. elim b [
        | true ↦ do
          (new, free) ← claim hhdm s.free
          let s =
              write_entry hhdm dest index (set_ppn e (sub64 new hhdm / 0x1000))
                (record s { free = free })
          s ← clone_table_range hhdm depth (entry_table hhdm e) new 0 512 s
          clone_table_range hhdm (suc depth) src dest (index + 1) n s
        | false ↦
            clone_table_range hhdm (suc depth) src dest (index + 1) n
              (write_entry hhdm dest index (if is_leaf e then e else 0) s)
      ] in
      ap rest f

  -- Between two tables, a range of entries none of which leads to a table is copied without a claim:
  -- leaves are kept, other entries become 0, and nothing outside the range changes.
  pub clone_table_range-IsCloned :
      (depth src dest index n : ℕ) (s : State)
      → src ≢ dest
      → ((j : ℕ) → index ≤ j → j < index + n → is_branch (s.tables src j) ≡ false)
      → Returns
          (IsCloned src dest index n s)
          (clone_table_range hhdm (suc depth) src dest index n s)
  unfolding clone_table_range
  clone_table_range-IsCloned depth src dest index zero s ne flat = record {
    inside = λ j from to. absurd (omega arith);
    outside = λ a j out. refl;
    free = refl;
  }
  clone_table_range-IsCloned depth src dest index (suc n) s ne flat =
      let s1 = write_entry hhdm dest index (cloned (s.tables src index)) s in
      subst (Returns (IsCloned src dest index (suc n) s))
        (sym (clone-flat depth src dest index n s (flat index (omega arith) (omega arith))))
        (Returns-imp (IsCloned src dest (index + 1) n s1) (IsCloned src dest index (suc n) s)
          (clone_table_range hhdm (suc depth) src dest (index + 1) n s1)
          (λ s' c. one_more src dest index n s s' ne c)
          (clone_table_range-IsCloned depth src dest (index + 1) n s1 ne (λ j from to.
            ap is_branch (not_written dest index (cloned (s.tables src index)) s src j (inl ne))
            ∙ flat j (omega arith) (omega arith))))
