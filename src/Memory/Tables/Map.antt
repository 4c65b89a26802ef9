-- ===== src/Memory/Tables/Map.antt =====
-- `map` returns, and what it has done then.
use lsd_limine.Prelude.{
  [], ℕ, suc, ◌≤◌, ◌<◌, ◌≡◌, ◌≢◌, inl, inr, ap, ◌∙◌, true, arith, List, All, ◌%◌, ◌^◌, length,
  Returns, Returns-imp, ◌∷◌, Returns-bind, zero,
}
use lsd_limine.Memory.Fields.{BitField}
use lsd_limine.Memory.Paging.{from_usize}
use lsd_limine.Memory.Pmm.Linked.{IsFreeList, has}
use lsd_limine.Memory.Tables.{State, index, is_leaf, entry_table, leaf_entry, map, add_table, false}
use lsd_limine.Memory.Tables.Entries.{IsOffset}
use lsd_limine.Memory.Tables.Walks.{
  IsTables, above, above_le, index_level-lt, IsOpen, branch_level, IsOpen-blank,
}
use lsd_limine.Memory.Tables.Added.{
  Added, with_table, enter-branch, enter-missing, add_table-Added, with_table-All, Added-IsTables,
  with_table_self,
}
use lsd_limine.Memory.Tables.Mapped.{
  Mapped, map-here, map-step, set_leaf-Mapped, through_branch, through-Added,
}

module _ ⦃B : BitField⦄ (hhdm : ℕ) where
  module _ (v phys n flags : ℕ) (pos : 0 < n) (le : n ≤ 5)
      (leaf : is_leaf (leaf_entry phys flags) ≡ true) where
    -- `map` returns when it has more rounds than levels to go down, and frames for them: then it
    -- has led the address to a leaf.
    pub map-Mapped :
        (d rounds t : ℕ) (levels : ℕ → ℕ) (slot : ℕ → ℕ × ℕ) (s : State) (xs : List ℕ)
        → IsOffset hhdm
        → IsFreeList hhdm s.free xs
        → All (λ x. levels x ≡ 0) xs
        → IsTables hhdm levels slot s.tables
        → levels t ≡ above n d
        → above n d ≤ 5
        → d < rounds
        → d < length xs
        → IsOpen hhdm s.tables v n d t
        → Returns
            (Mapped hhdm v (leaf_entry phys flags) n d t levels s)
            (map hhdm rounds t v phys (from_usize (above n d)) (from_usize n) flags s)
    map-Mapped d zero t levels slot s xs o f z w l h r q p = absurd (omega arith)
    map-Mapped zero (suc rounds) t levels slot s xs o f z w l h r q p =
        rw (map-here hhdm v phys n flags pos le leaf rounds t s)
          (set_leaf-Mapped hhdm v phys n flags pos le leaf t levels slot s xs f z w l)
    map-Mapped (suc d) (suc rounds) t levels slot s xs o f z w l h r q (inr (b, p)) =
        let i = index v (from_usize (suc (above n d))) in
        let next =
          branch_level hhdm levels slot t i (s.tables t i)
            (w t i (omega (arith, l)) (index_level-lt v (suc (above n d)) (omega arith) h)) b in
        rw (map-step hhdm v phys n flags pos le leaf rounds d t s h, enter-branch hhdm t i s b)
          (Returns-imp
            (Mapped hhdm v (leaf_entry phys flags) n d (entry_table hhdm (s.tables t i)) levels s)
            (Mapped hhdm v (leaf_entry phys flags) n (suc d) t levels s)
            (map hhdm rounds (entry_table hhdm (s.tables t i)) v phys (from_usize (above n d))
              (from_usize n) flags s)
            (λ s' m. through_branch hhdm v phys n flags pos le leaf d t levels s s' h l b m)
            (map-Mapped d rounds (entry_table hhdm (s.tables t i)) levels slot s xs o f z w
              (omega (arith, next.1, l)) (omega arith) (omega arith) (omega arith) p))
    map-Mapped (suc d) (suc rounds) t levels slot s [] o f z w l h r q (inl m) =
        absurd (omega arith)
    map-Mapped (suc d) (suc rounds) t levels slot s (x ∷ []) o f z w l h r q (inl m) =
        absurd (omega arith)
    map-Mapped (suc d) (suc rounds) t levels slot s (x ∷ y ∷ ys) o f z w l h r q (inl m) =
        let i = index v (from_usize (suc (above n d))) in
        let ne : x ≢ t = λ e. absurd (omega (arith, ap levels e, z.0, l)) in
        rw (map-step hhdm v phys n flags pos le leaf rounds d t s h, enter-missing hhdm t i s m)
          (Returns-bind (λ (p, s1). Added hhdm t i s x (y ∷ ys) p s1)
            (Mapped hhdm v (leaf_entry phys flags) n (suc d) t levels s) (add_table hhdm t i s)
            (λ (next, s1).
              map hhdm rounds next v phys (from_usize (above n d)) (from_usize n) flags s1)
            (add_table-Added hhdm t i x y ys s ne f)
            (λ (p, s1) g.
              let px = g.taken in
              let fx = f.frames.0 in
              let lp : levels p ≡ 0 = ap levels px ∙ z.0 in
              let hp : hhdm ≤ p = omega (arith, px, fx.1) in
              let hq : p < 2 ^ 64 = omega (arith, px, fx.3) in
              let hr : p % 4096 ≡ 0 = ap (λ (a : ℕ). a % 4096) px ∙ fx.2 in
              let out : has p (y ∷ ys) ≡ false = ap (λ (a : ℕ). has a (y ∷ ys)) px ∙ f.distinct.0 in
              Returns-imp
                (Mapped hhdm v (leaf_entry phys flags) n d p (with_table levels p (above n d)) s1)
                (Mapped hhdm v (leaf_entry phys flags) n (suc d) t levels s)
                (map hhdm rounds p v phys (from_usize (above n d)) (from_usize n) flags s1)
                (λ s' k.
                  through-Added hhdm v phys n flags pos le leaf d t levels s s1 s' x (y ∷ ys) p o hp
                    hq hr lp h l m g k)
                (map-Mapped d rounds p (with_table levels p (above n d)) (with_table slot p (t, i))
                  s1 (y ∷ ys) o g.free (with_table-All levels p (above n d) (y ∷ ys) out z.1)
                  (Added-IsTables hhdm levels slot t i (above n d) s x (y ∷ ys) p s1 o hp hq hr g w
                    lp (omega (arith, above_le n d)) l m)
                  (with_table_self levels p (above n d)) (omega arith) (omega arith) (omega arith)
                  (IsOpen-blank hhdm s1.tables v n d p g.blank))))
