-- ===== src/Memory/Tables/Mapped.antt =====
-- What `map` does to well-formed tables.
use lsd_limine.Prelude.{
  ℕ, suc, ◌≤◌, ◌<◌, ◌≡◌, ◌≢◌, ◌⊎◌, inl, inr, refl, sym, ap, subst, ◌∙◌, true, arith, List, ok,
  ◌>>=◌, All, lt→ltb, ◌%◌, ◌^◌,
}
use lsd_limine.Memory.Fields.{BitField}
use lsd_limine.Memory.Paging.{from_usize}
use lsd_limine.Memory.Pmm.Linked.{IsFreeList}
use lsd_limine.Memory.Tables.{
  State, PageTable, write_volatile, put, index, is_branch, is_leaf, entry_table, branch_entry,
  leaf_entry, enter, set_leaf, map,
}
use lsd_limine.Memory.Tables.Entries.{IsOffset, zero-invalid, branch-is_branch, entry_table-branch}
use lsd_limine.Memory.Tables.Index.{below-from_usize, same_level_refl, same_level_ne}
use lsd_limine.Memory.Tables.Walks.{
  IsTables, Leads, above, above_le, entry_at, index_level-lt, write_volatile_self, put_self,
  put_elsewhere,
}
use lsd_limine.Memory.Tables.Added.{Added, with_table, with_table_ne, slot_cases}

module _ ⦃B : BitField⦄ (hhdm : ℕ) where
  -- The tables after `map` from the table at `t`, `d` levels above level `n`: they are well-formed,
  -- the address is led to a table that holds the leaf, the tables that there were keep their
  -- levels, and every entry that was present is kept but those of the address's index at level `n`.
  pub record Mapped (v leaf n d t : ℕ) (levels : ℕ → ℕ) (s s' : State) : Type 0 where
    pub frames : List ℕ
    pub levels' : ℕ → ℕ
    pub slot' : ℕ → ℕ × ℕ
    pub last : ℕ
    pub free : IsFreeList hhdm s'.free frames
    pub unused : All (λ x. levels' x ≡ 0) frames
    pub tables : IsTables hhdm levels' slot' s'.tables
    pub same : (a : ℕ) → 0 < levels a → levels' a ≡ levels a
    pub leads : Leads hhdm s'.tables v n d t last
    pub level : levels' last ≡ n
    pub holds : entry_at s'.tables v n last ≡ leaf
    pub kept :
        (a j : ℕ)
        → 0 < levels a
        → j < 512
        → s.tables a j ≢ 0
        → (a ≢ last) ⊎ (j ≢ index v (from_usize n))
        → s'.tables a j ≡ s.tables a j

  module _ (v phys n flags : ℕ) (pos : 0 < n) (le : n ≤ 5)
      (leaf : is_leaf (leaf_entry phys flags) ≡ true) where
    pub map-here :
        (rounds t : ℕ) (s : State)
        → map hhdm (suc rounds) t v phys (from_usize n) (from_usize n) flags s
          ≡ ok (set_leaf t (index v (from_usize n)) phys flags s)
    unfolding map
    map-here rounds t s =
        rw (lt→ltb _ 512 (index_level-lt v n pos le), same_level_refl (from_usize n)) refl

    pub map-step :
        (rounds d t : ℕ) (s : State)
        → above n (suc d) ≤ 5
        → map hhdm (suc rounds) t v phys (from_usize (suc (above n d))) (from_usize n) flags s ≡ (
            enter hhdm t (index v (from_usize (suc (above n d)))) s >>= λ (next, s').
            map hhdm rounds next v phys (from_usize (above n d)) (from_usize n) flags s')
    unfolding map
    map-step rounds d t s h =
        let i = index v (from_usize (suc (above n d))) in
        rw
          (
            lt→ltb _ 512 (index_level-lt v (suc (above n d)) (omega arith) h),
            same_level_ne (suc (above n d)) n h (omega (arith, above_le n d)),
          )
          (ap
            (λ l. enter hhdm t i s >>= λ (next, s').
              map hhdm rounds next v phys l (from_usize n) flags s')
            (below-from_usize (above n d) (omega arith)))

    pub set_leaf-Mapped :
        (t : ℕ) (levels : ℕ → ℕ) (slot : ℕ → ℕ × ℕ) (s : State) (xs : List ℕ)
        → IsFreeList hhdm s.free xs
        → All (λ x. levels x ≡ 0) xs
        → IsTables hhdm levels slot s.tables
        → levels t ≡ n
        → Mapped v
            (leaf_entry phys flags)
            n
            0
            t
            levels
            s
            (set_leaf t (index v (from_usize n)) phys flags s)
    unfolding set_leaf
    set_leaf-Mapped t levels slot s xs f z w l =
        let i = index v (from_usize n) in
        let e = leaf_entry phys flags in
        let at : write_volatile s.tables t (put (s.tables t) i e) t i ≡ e =
          ap (λ (g : PageTable). g i) (write_volatile_self s.tables t (put (s.tables t) i e))
          ∙ put_self (s.tables t) i e in
        record {
          frames = xs;
          levels' = levels;
          slot' = slot;
          level = l;
          last = t;
          free = f;
          unused = z;
          tables = λ a j h k. elim (slot_cases t i a j) [
            | inl (at', ji) ↦ rw (at', ji, at) (inr (inl leaf))
            | inr q ↦ rw (put_elsewhere s.tables t i e a j q) (w a j h k)
          ];
          same = λ a h. refl;
          leads = refl;
          holds = at;
          kept = λ a j h k p q. put_elsewhere s.tables t i e a j q;
        }

    -- A round that goes on with the table of a branch.
    pub through_branch :
        (d t : ℕ) (levels : ℕ → ℕ) (s s' : State)
        → above n (suc d) ≤ 5
        → levels t ≡ above n (suc d)
        → is_branch (entry_at s.tables v (suc (above n d)) t) ≡ true
        → Mapped v
            (leaf_entry phys flags)
            n
            d
            (entry_table hhdm (entry_at s.tables v (suc (above n d)) t))
            levels
            s
            s'
        → Mapped v (leaf_entry phys flags) n (suc d) t levels s s'
    through_branch d t levels s s' h l b m =
        let i = index v (from_usize (suc (above n d))) in
        let present : s.tables t i ≢ 0 = λ z. cc (zero-invalid.1, b) in
        let top : t ≢ m.last = λ q.
          absurd (
            omega (arith, ap m.levels' q, m.level, m.same t (omega (arith, l)), l, above_le n d)) in
        let kept =
          m.kept t i (omega (arith, l)) (index_level-lt v (suc (above n d)) (omega arith) h) present
            (inl top) in
        record {
          frames = m.frames;
          levels' = m.levels';
          slot' = m.slot';
          level = m.level;
          last = m.last;
          free = m.free;
          unused = m.unused;
          tables = m.tables;
          same = m.same;
          leads = rw kept (b, m.leads);
          holds = m.holds;
          kept = m.kept;
        }

    -- A round that adds a table.
    pub through-Added :
        (d t : ℕ) (levels : ℕ → ℕ) (s s1 s' : State) (x : ℕ) (rest : List ℕ) (p : ℕ)
        → IsOffset hhdm
        → hhdm ≤ p
        → p < 2 ^ 64
        → p % 4096 ≡ 0
        → levels p ≡ 0
        → above n (suc d) ≤ 5
        → levels t ≡ above n (suc d)
        → entry_at s.tables v (suc (above n d)) t ≡ 0
        → Added hhdm t (index v (from_usize (suc (above n d)))) s x rest p s1
        → Mapped v (leaf_entry phys flags) n d p (with_table levels p (above n d)) s1 s'
        → Mapped v (leaf_entry phys flags) n (suc d) t levels s s'
    through-Added d t levels s s1 s' x rest p o hp hq hr z h l miss g m =
        let i = index v (from_usize (suc (above n d))) in
        let old : (a : ℕ) → 0 < levels a → a ≢ p =
          λ a k q. absurd (omega (arith, ap levels q, z)) in
        let lv : (a : ℕ) → 0 < levels a → with_table levels p (above n d) a ≡ levels a =
          λ a k. with_table_ne levels p (above n d) a (old a k) in
        let pt : 0 < levels t = omega (arith, l) in
        let e : s1.tables t i ≡ branch_entry hhdm 0 p =
          g.slot ∙ ap (λ (y : ℕ). branch_entry hhdm y p) miss in
        let b = branch-is_branch hhdm p o hp hq in
        let kept : (a j : ℕ)
            → 0 < levels a
            → j < 512
            → s1.tables a j ≢ 0
            → (a ≢ m.last) ⊎ (j ≢ index v (from_usize n))
            → s'.tables a j ≡ s1.tables a j =
          λ a j k k' ne q. m.kept a j (subst (λ (y : ℕ). 0 < y) (sym (lv a k)) k) k' ne q in
        let top : t ≢ m.last = λ q. absurd (
          omega (
            arith,
            ap m.levels' q,
            m.level,
            m.same t (subst (λ (y : ℕ). 0 < y) (sym (lv t pt)) pt),
            lv t pt,
            l,
            above_le n d,
          )) in
        let now : s'.tables t i ≡ branch_entry hhdm 0 p =
          kept t i pt (index_level-lt v (suc (above n d)) (omega arith) h)
            (λ q. cc (zero-invalid.1, b, ap is_branch (sym e ∙ q))) (inl top)
          ∙ e in
        record {
          frames = m.frames;
          levels' = m.levels';
          slot' = m.slot';
          level = m.level;
          last = m.last;
          free = m.free;
          unused = m.unused;
          tables = m.tables;
          same = λ a k. m.same a (subst (λ (y : ℕ). 0 < y) (sym (lv a k)) k) ∙ lv a k;
          leads = rw (now, entry_table-branch hhdm p o hp hq hr) (b, m.leads);
          holds = m.holds;
          kept = λ a j k k' ne q.
              let apart : (a ≢ t) ⊎ (j ≢ i) = elim (slot_cases t i a j) [
                | inl (at, ji) ↦ absurd (ne (rw (at, ji) miss))
                | inr y ↦ y
              ] in
              let same = g.others a j (old a k) apart in
              kept a j k k' (λ y. ne (sym same ∙ y)) q ∙ same;
        }
