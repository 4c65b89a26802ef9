-- ===== src/Memory/Tables/Translation.antt =====
-- What an address is translated to after `map`, and after `unmap`.
use lsd_limine.Prelude.{
  ℕ, ◌+◌, ◌/◌, ◌%◌, ◌^◌, ◌≤◌, ◌<◌, ◌≡◌, refl, ap, ◌∙◌, arith, List, length, some, ok, Returns,
  Returns-imp, All, sym,
}
use lsd_limine.Memory.Fields.{BitField}
use lsd_limine.Memory.Paging.{from_usize, as_usize, bytes, as_page_size}
use lsd_limine.Memory.Pmm.Linked.{IsFreeList}
use lsd_limine.Memory.Tables.{
  virt_to_phys, current_table, State, index, is_leaf, leaf_entry, map, walk, translate, none, true,
  entry_phys, PageTable,
}
use lsd_limine.Memory.Tables.Entries.{IsOffset, Permits, leaf-is_leaf, entry_phys-leaf}
use lsd_limine.Memory.Tables.Index.{
  as_usize-from_usize, index_same_page, translate-sum, small_multiple,
}
use lsd_limine.Memory.Tables.Walks.{
  IsTables, Leads-agree, IsOpen, above, above_le, entry_at, walk-Leads, walk-leaf,
}
use lsd_limine.Memory.Tables.Ancestors.{IsApart}
use lsd_limine.Memory.Tables.Kept.{walk-apart}
use lsd_limine.Memory.Tables.Mapped.{Mapped}
use lsd_limine.Memory.Tables.Map.{map-Mapped}
use lsd_limine.Memory.Tables.Cleared.{unmap-Leads, walk-cleared}
use lsd_limine.Memory.Tables.{unmap, virt_to_phys, current_table}

-- The size of a page of a level.
abbrev pub page_bytes : ℕ → ℕ
page_bytes n = bytes (as_page_size (from_usize n))

-- Addresses of one page have the same indices from the level of the page up.
pub index_in_page :
    ⦃B : BitField⦄ (v w n l : ℕ)
    → 0 < n
    → n ≤ l
    → l ≤ 5
    → w / page_bytes n ≡ v / page_bytes n
    → index w (from_usize l) ≡ index v (from_usize l)
index_in_page v w n l p h k e =
    index_same_page w v (from_usize n) (from_usize l) (rw (as_usize-from_usize n (omega arith)) p)
      (rw (as_usize-from_usize n (omega arith), as_usize-from_usize l k) h) e

module _ ⦃B : BitField⦄ (hhdm : ℕ) where
  -- The state of the memory: the frames `xs` are free, and the tables are those that `levels` gives
  -- a level, each with the slot that leads to it.
  pub record IsMemory (levels : ℕ → ℕ) (slot : ℕ → ℕ × ℕ) (xs : List ℕ) (s : State) : Type 0 where
    pub offset : IsOffset hhdm
    pub free : IsFreeList hhdm s.free xs
    pub unused : All (λ x. levels x ≡ 0) xs
    pub tables : IsTables hhdm levels slot s.tables

  module _ (v phys n flags d t : ℕ) (levels : ℕ → ℕ) (slot : ℕ → ℕ × ℕ) (xs : List ℕ) (s : State)
      (pos : 0 < n) (le : above n d ≤ 5) (fits : phys < 2 ^ 56) (aligned : phys % page_bytes n ≡ 0)
      (permits : Permits flags) (m : IsMemory levels slot xs s) (level : levels t ≡ above n d)
      (frames : d < length xs) (way : IsOpen hhdm s.tables v n d t) where
    low : n ≤ 5
    low = omega (arith, above_le n d)

    whole : phys % 4096 ≡ 0
    whole = small_multiple phys (from_usize n) (rw (as_usize-from_usize n low) pos) aligned

    mapped :
        (rounds : ℕ)
        → d < rounds
        → Returns
            (Mapped hhdm v (leaf_entry phys flags) n d t levels s)
            (map hhdm rounds t v phys (from_usize (above n d)) (from_usize n) flags s)
    mapped rounds h =
        map-Mapped hhdm v phys n flags pos low (leaf-is_leaf phys flags fits permits) d rounds t
          levels slot s xs m.offset m.free m.unused m.tables level le h frames way

    -- From well-formed memory, for a physical address below 2 ^ 56 at the start of a page of the
    -- level and flags that let the page be read, written or executed, with no page of a higher
    -- level in the way, more free frames and more rounds than levels to go down: `map` returns, and
    -- the memory is again one of free frames and well-formed tables, in which the tables that there
    -- were have the levels that they had.
    pub map-IsMemory :
        (rounds : ℕ)
        → d < rounds
        → Returns
            (λ s'.
              (levels' : ℕ → ℕ) × (slot' : ℕ → ℕ × ℕ) × (xs' : List ℕ) × IsMemory levels' slot' xs'
                s'
              × ((a : ℕ) → 0 < levels a → levels' a ≡ levels a))
            (map hhdm rounds t v phys (from_usize (above n d)) (from_usize n) flags s)
    map-IsMemory rounds h =
        Returns-imp (Mapped hhdm v (leaf_entry phys flags) n d t levels s) _
          (map hhdm rounds t v phys (from_usize (above n d)) (from_usize n) flags s)
          (λ s' k. (
            k.levels',
            k.slot',
            k.frames,
            record { offset = m.offset; free = k.free; unused = k.unused; tables = k.tables },
            k.same,
          ))
          (mapped rounds h)

    walk-Mapped :
        (s' : State) (r w : ℕ)
        → d < r
        → w / page_bytes n ≡ v / page_bytes n
        → Mapped hhdm v (leaf_entry phys flags) n d t levels s s'
        → walk hhdm r t w (from_usize (above n d)) s'.tables ≡ ok (some (phys + w % page_bytes n))
    walk-Mapped s' r w h e k =
        let T' = s'.tables in
        let l' : k.levels' t ≡ above n d = k.same t (omega (arith, level, above_le n d)) ∙ level in
        let leads =
          Leads-agree hhdm T' T' k.levels' k.slot' v w n d t k.last k.tables pos le l'
            (λ l p q. index_in_page v w n l pos (omega arith) q e) (λ a j p q b. refl) k.leads in
        let at : entry_at T' w n k.last ≡ leaf_entry phys flags =
          ap (T' k.last) (index_in_page v w n n pos (omega arith) low e) ∙ k.holds in
        let ph = entry_phys-leaf phys flags fits whole permits in
        let p0 : 0 < as_usize (from_usize n) = rw (as_usize-from_usize n low) pos in
        let sum : translate (from_usize n) w (leaf_entry phys flags) ≡ phys + w % page_bytes n =
          translate-sum (from_usize n) w (leaf_entry phys flags) (omega (arith, ph)) p0
            (ap (λ (a : ℕ). a % page_bytes n) ph ∙ aligned)
          ∙ ap (λ (a : ℕ). a + w % page_bytes n) ph in
        walk-Leads hhdm T' w n (ok (some (phys + w % page_bytes n))) k.last pos
          (λ rounds.
            walk-leaf hhdm T' w n k.last rounds pos low
              (ap is_leaf at ∙ leaf-is_leaf phys flags fits permits)
            ∙ ap (λ (a : ℕ). ok (some a)) (ap (translate (from_usize n) w) at ∙ sum))
          r d t h le leads

    -- Under the conditions of `map-IsMemory`, `map` returns, and then `virt_to_phys` with the table as the current one
    -- translates every address of the virtual page to the same place of the physical page.
    pub map-virt_to_phys :
        (rounds r w satp : ℕ)
        → d < rounds
        → d < r
        → w / page_bytes n ≡ v / page_bytes n
        → current_table hhdm satp ≡ t
        → Returns
            (λ s'.
              virt_to_phys hhdm r satp (above n d) w s'.tables
              ≡ ok (some (phys + w % page_bytes n)))
            (map hhdm rounds t v phys (from_usize (above n d)) (from_usize n) flags s)
    unfolding virt_to_phys
    map-virt_to_phys rounds r w satp h k e c =
        Returns-imp (Mapped hhdm v (leaf_entry phys flags) n d t levels s) _
          (map hhdm rounds t v phys (from_usize (above n d)) (from_usize n) flags s)
          (λ s' q.
            ap (λ (a : ℕ). walk hhdm r a w (from_usize (above n d)) s'.tables) c
            ∙ walk-Mapped s' r w k e q)
          (mapped rounds h)

    -- Under the conditions of `map-IsMemory`, `map` returns, and what `virt_to_phys` found before it,
    -- it finds after it, for every address that differs from
    -- the mapped one in its index at a level from that of the mapped page up.
    pub map-virt_to_phys_kept :
        (rounds r w satp p : ℕ)
        → d < rounds
        → current_table hhdm satp ≡ t
        → IsApart v w n d
        → virt_to_phys hhdm r satp (above n d) w s.tables ≡ ok (some p)
        → Returns
            (λ s'. virt_to_phys hhdm r satp (above n d) w s'.tables ≡ ok (some p))
            (map hhdm rounds t v phys (from_usize (above n d)) (from_usize n) flags s)
    unfolding virt_to_phys
    map-virt_to_phys_kept rounds r w satp p h c apart f =
        let at : (T : ℕ → PageTable)
            → walk hhdm r (current_table hhdm satp) w (from_usize (above n d)) T
              ≡ walk hhdm r t w (from_usize (above n d)) T =
          λ T. ap (λ (a : ℕ). walk hhdm r a w (from_usize (above n d)) T) c in
        Returns-imp (Mapped hhdm v (leaf_entry phys flags) n d t levels s) _
          (map hhdm rounds t v phys (from_usize (above n d)) (from_usize n) flags s)
          (λ s' k.
            at s'.tables
            ∙ walk-apart hhdm s.tables s'.tables levels k.levels' slot k.slot' v w n k.last pos
                m.tables k.tables k.same k.level k.kept d r t p level le k.leads apart
                (sym (at s.tables) ∙ f))
          (mapped rounds h)

    -- Under the conditions of `map-IsMemory`, `map` returns, `unmap` behind it returns the physical
    -- address, and then no address of the page is translated.
    pub map-unmap :
        (rounds r r' w : ℕ)
        → d < rounds
        → d < r
        → d < r'
        → w / page_bytes n ≡ v / page_bytes n
        → Returns
            (λ s'.
              Returns
                (λ (a, T). (a ≡ phys) × (walk hhdm r' t w (from_usize (above n d)) T ≡ ok none))
                (unmap hhdm r t v (from_usize (above n d)) (from_usize n) s'.tables))
            (map hhdm rounds t v phys (from_usize (above n d)) (from_usize n) flags s)
    map-unmap rounds r r' w h k k' e =
        Returns-imp (Mapped hhdm v (leaf_entry phys flags) n d t levels s) _
          (map hhdm rounds t v phys (from_usize (above n d)) (from_usize n) flags s)
          (λ s' q.
            let T' = s'.tables in
            let l' : q.levels' t ≡ above n d =
              q.same t (omega (arith, level, above_le n d)) ∙ level in
            let leaf : is_leaf (entry_at T' v n q.last) ≡ true =
              ap is_leaf q.holds ∙ leaf-is_leaf phys flags fits permits in
            rw (unmap-Leads hhdm T' v n q.last pos low r d t k le leaf q.leads) (
              ap entry_phys q.holds ∙ entry_phys-leaf phys flags fits whole permits,
              walk-cleared hhdm T' v n q.last pos low q.levels' q.slot' w r' d t q.tables l' k' le
                  (λ l p j. index_in_page v w n l pos p j e) q.leads,
            ))
          (mapped rounds h)
