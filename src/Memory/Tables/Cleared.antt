-- ===== src/Memory/Tables/Cleared.antt =====
-- `unmap` on well-formed tables, and a walk after it.
use lsd_limine.Prelude.{
  ℕ, zero, suc, ◌≤◌, ◌<◌, ◌≡◌, inl, inr, refl, ap, ◌∙◌, true, arith, none, ok, lt→ltb,
}
use lsd_limine.Memory.Fields.{BitField}
use lsd_limine.Memory.Paging.{from_usize}
use lsd_limine.Memory.Tables.{
  PageTable, write_volatile, put, index, is_leaf, entry_table, entry_phys, walk, unmap, take_leaf,
}
use lsd_limine.Memory.Tables.Entries.{branch-no_leaf}
use lsd_limine.Memory.Tables.Index.{below-from_usize, same_level_refl, same_level_ne}
use lsd_limine.Memory.Tables.Walks.{
  IsTables, Leads, Leads-agree, Leads-level, above, above_le, entry_at, index_level-lt, walk-Leads,
  walk-missing, put_self, put_elsewhere, write_volatile_self,
}
use lsd_limine.Memory.Tables.Added.{slot_cases}

-- The tables with an entry made 0.
abbrev pub cleared : (ℕ → PageTable) → ℕ → ℕ → ℕ → PageTable
cleared T u i = write_volatile T u (put (T u) i 0)

pub cleared_self : (T : ℕ → PageTable) (u i : ℕ) → cleared T u i u i ≡ 0
cleared_self T u i =
    ap (λ (g : PageTable). g i) (write_volatile_self T u (put (T u) i 0)) ∙ put_self (T u) i 0

module _ ⦃B : BitField⦄ (hhdm : ℕ) where
  pub cleared-IsTables :
      (levels : ℕ → ℕ) (slot : ℕ → ℕ × ℕ) (T : ℕ → PageTable) (u i : ℕ)
      → IsTables hhdm levels slot T
      → IsTables hhdm levels slot (cleared T u i)
  cleared-IsTables levels slot T u i w a j h k = elim (slot_cases u i a j) [
    | inl (at, ji) ↦ rw (at, ji, cleared_self T u i) (inl refl)
    | inr q ↦ rw (put_elsewhere T u i 0 a j q) (w a j h k)
  ]

  module _ (T : ℕ → PageTable) (v n u : ℕ) (pos : 0 < n) (low : n ≤ 5) where
    pub unmap_leaf :
        (rounds : ℕ)
        → is_leaf (entry_at T v n u) ≡ true
        → unmap hhdm (suc rounds) u v (from_usize n) (from_usize n) T
          ≡ ok (entry_phys (entry_at T v n u), cleared T u (index v (from_usize n)))
    unfolding unmap take_leaf
    unmap_leaf rounds h =
        rw (lt→ltb _ 512 (index_level-lt v n pos low), same_level_refl (from_usize n), h) refl

    -- `unmap` follows the branches that lead to the table of the leaf, and takes the leaf.
    pub unmap-Leads :
        (rounds d t : ℕ)
        → d < rounds
        → above n d ≤ 5
        → is_leaf (entry_at T v n u) ≡ true
        → Leads hhdm T v n d t u
        → unmap hhdm rounds t v (from_usize (above n d)) (from_usize n) T
          ≡ ok (entry_phys (entry_at T v n u), cleared T u (index v (from_usize n)))
    unfolding unmap
    unmap-Leads zero d t h q g x = absurd (omega arith)
    unmap-Leads (suc rounds) zero t h q g x =
        ap (λ (a : ℕ). unmap hhdm (suc rounds) a v (from_usize n) (from_usize n) T) x
        ∙ unmap_leaf rounds g
    unmap-Leads (suc rounds) (suc d) t h q g x =
        rw
          (
            lt→ltb _ 512 (index_level-lt v (suc (above n d)) (omega arith) q),
            same_level_ne (suc (above n d)) n q (omega (arith, above_le n d)),
            branch-no_leaf (entry_at T v (suc (above n d)) t) x.0,
            x.0,
            below-from_usize (above n d) (omega arith),
          )
          (unmap-Leads rounds d (entry_table hhdm (entry_at T v (suc (above n d)) t)) (omega arith)
            (omega arith) g x.1)

    -- After it, no address with the same indices is translated.
    pub walk-cleared :
        (levels : ℕ → ℕ) (slot : ℕ → ℕ × ℕ) (w r d t : ℕ)
        → IsTables hhdm levels slot T
        → levels t ≡ above n d
        → d < r
        → above n d ≤ 5
        → ((l : ℕ) → n ≤ l → l ≤ 5 → index w (from_usize l) ≡ index v (from_usize l))
        → Leads hhdm T v n d t u
        → walk hhdm r t w (from_usize (above n d)) (cleared T u (index v (from_usize n))) ≡ ok none
    walk-cleared levels slot w r d t g l h q e x =
        let i = index v (from_usize n) in
        let T' = cleared T u i in
        let lu = Leads-level hhdm T levels slot v n d t u g pos q l x in
        let leads =
          Leads-agree hhdm T T' levels slot v w n d t u g pos q l (λ m p k. e m (omega arith) k)
            (λ a j p k b.
              put_elsewhere T u i 0 a j (inl (λ y. absurd (omega (arith, ap levels y, lu)))))
            x in
        walk-Leads hhdm T' w n (ok none) u pos
          (λ rounds.
            walk-missing hhdm T' w n u rounds pos low
              (ap (T' u) (e n (omega arith) low) ∙ cleared_self T u i))
          r d t h q leads
