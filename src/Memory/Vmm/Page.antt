-- ===== src/Memory/Vmm/Page.antt =====
-- Allocations of one page.
use lsd_limine.Prelude.{
  if◌then◌else◌, ℕ, ◌+◌, ◌/◌, ◌%◌, ◌^◌, ◌≤◌, ◌<◌, ◌≡◌, refl, sym, ap, subst, ◌∙◌, Bool, true, false,
  arith, List, ◌∷◌, length, Option, none, some, Run, ok, ◌>>=◌, Returns, Returns-bind, sub64, add64,
}
use lsd_limine.Memory.Fields.{BitField}
use lsd_limine.Memory.Tables.{State, current_table, virt_to_phys}
use lsd_limine.Memory.Tables.Entries.{Permits}
use lsd_limine.Memory.Tables.Walks.{above, IsOpen}
use lsd_limine.Memory.Tables.Translation.{IsMemory, page_bytes}
use lsd_limine.Memory.Vmm.{
  Arena, claim_phys, claim_section, told, map_page, map_section, map_constrained, alloc,
  alloc_constrained, Allocated,
}
use lsd_limine.Memory.Vmm.Taken.{
  frames_of-page, one_round, Taken, claim_phys-Taken, claim_section-Taken, map_page-maps,
}

module _ ⦃B : BitField⦄ (hhdm : ℕ) where
  -- The call returns the address `base`, with the frame `x` if that is told, and the address `w` of
  -- the page is translated to `phys` and the place in the page.
  abbrev pub Serves : (A : Arena) → ℕ → ℕ → ℕ → ℕ → ℕ → ℕ → A.Vmem → Bool → ℕ → Allocated A → Type 0
  Serves A x satp base d r w v' contiguous phys o =
      (s' : State) × (o ≡ some ((base, told contiguous (sub64 x hhdm)), v', s'))
      × (virt_to_phys hhdm r satp (above 1 d) w s'.tables ≡ ok (some (phys + w % page_bytes 1)))

  module _ (A : Arena) (levels : ℕ → ℕ) (slot : ℕ → ℕ × ℕ) (x y : ℕ) (ys : List ℕ) (s : State)
      (m : IsMemory hhdm levels slot (x ∷ y ∷ ys) s) (satp fuel flags base d r w : ℕ)
      (v v' : A.Vmem) (le : above 1 d ≤ 5) (permits : Permits flags)
      (level : levels (current_table hhdm satp) ≡ above 1 d) (room : d < length (y ∷ ys))
      (way : IsOpen hhdm s.tables base 1 d (current_table hhdm satp)) (enough : d < fuel)
      (rounds : d < r) (low : base < 2 ^ 64) (near : w / page_bytes 1 ≡ base / page_bytes 1) where
    frame_fits : sub64 x hhdm < 2 ^ 56
    frame_fits = omega (arith, m.offset.0, m.offset.1, m.free.frames.0.1, m.free.frames.0.3)

    fits_behind : sub64 x hhdm + 4096 < 2 ^ 56
    fits_behind = omega (arith, m.offset.0, m.offset.1, m.free.frames.0.1, m.free.frames.0.3)

    whole : sub64 x hhdm % 4096 ≡ 0
    whole =
        omega
          (arith, m.offset.1, m.offset.2, m.free.frames.0.1, m.free.frames.0.2, m.free.frames.0.3)

    served :
        (phys p : ℕ) (s1 : State)
        → Taken hhdm levels slot x (y ∷ ys) s p s1
        → phys < 2 ^ 56
        → phys % 4096 ≡ 0
        → Returns
            (λ s2.
              virt_to_phys hhdm r satp (above 1 d) w s2.tables
              ≡ ok (some (phys + w % page_bytes 1)))
            (map_page hhdm (above 1 d) satp fuel flags (add64 base 0) phys s1 >>= λ s2. ok s2)
    served phys p s1 k f a =
        let P : State → Type 0 = λ s2.
          virt_to_phys hhdm r satp (above 1 d) w s2.tables ≡ ok (some (phys + w % page_bytes 1)) in
        let z : base ≡ add64 base 0 = omega arith in
        Returns-bind P P (map_page hhdm (above 1 d) satp fuel flags (add64 base 0) phys s1)
          (λ s2. ok s2)
          (subst (λ (b : ℕ). Returns P (map_page hhdm (above 1 d) satp fuel flags b phys s1)) z
            (map_page-maps hhdm levels slot x y ys s m satp fuel flags base d phys r w p s1 k f a le
              permits level room way enough rounds near))
          (λ s2 q. q)

    -- What a section of one round returns, once its frame was taken.
    finish :
        (contiguous : Bool) (phys p q : ℕ) (s1 : State)
        → Taken hhdm levels slot x (y ∷ ys) s p s1
        → phys < 2 ^ 56
        → phys % 4096 ≡ 0
        → told contiguous q ≡ told contiguous (sub64 x hhdm)
        → Returns (Serves A x satp base d r w v' contiguous phys) (
            (map_page hhdm (above 1 d) satp fuel flags (add64 base 0) phys s1 >>= λ s2. ok s2)
            >>= λ s2. ok (some ((base, told contiguous q), v', s2)))
    finish contiguous phys p q s1 k f a e =
        Returns-bind
          (λ s2.
            virt_to_phys hhdm r satp (above 1 d) w s2.tables ≡ ok (some (phys + w % page_bytes 1)))
          (Serves A x satp base d r w v' contiguous phys)
          (map_page hhdm (above 1 d) satp fuel flags (add64 base 0) phys s1 >>= λ s2. ok s2)
          (λ s2. ok (some ((base, told contiguous q), v', s2))) (served phys p s1 k f a)
          (λ s2 g. (s2, ap (λ (t : Option ℕ). some ((base, t), v', s2)) e, g))

    claimed : Returns (Serves A x satp base d r w v' false (sub64 x hhdm)) (
        (claim_phys hhdm s >>= λ (a, s1).
        (map_page hhdm (above 1 d) satp fuel flags (add64 base 0) a s1 >>= λ s2. ok s2))
        >>= λ s2. ok (some ((base, none), v', s2)))
    claimed =
        let P : State → Type 0 = λ s2.
          virt_to_phys hhdm r satp (above 1 d) w s2.tables
          ≡ ok (some (sub64 x hhdm + w % page_bytes 1)) in
        let next : ℕ × State → Run State = λ (a, s1).
          (map_page hhdm (above 1 d) satp fuel flags (add64 base 0) a s1 >>= λ s2. ok s2) in
        Returns-bind P (Serves A x satp base d r w v' false (sub64 x hhdm))
          (claim_phys hhdm s >>= next) (λ s2. ok (some ((base, none), v', s2)))
          (Returns-bind (λ (a, s1). Taken hhdm levels slot x (y ∷ ys) s a s1) P (claim_phys hhdm s)
            next (claim_phys-Taken hhdm levels slot x y ys s m)
            (λ (a, s1) k.
              subst
                (λ (t : ℕ).
                  Returns P
                    (map_page hhdm (above 1 d) satp fuel flags (add64 base 0) t s1 >>= λ s2. ok s2))
                (sym k.at) (served (sub64 x hhdm) a s1 k frame_fits whole)))
          (λ s2 g. (s2, refl, g))

    -- In well-formed memory, where the arena gives an address below 2 ^ 64, no page of a higher level
    -- is in its way, the flags let the page be used, and there are more rounds, and more frames
    -- behind the first one, than levels to go down, `alloc` of at least a byte and at most a page
    -- returns the address; it is mapped to the first frame, which is told if frames in a row are
    -- asked for.
    pub alloc-Serves :
        (size : ℕ) (contiguous : Bool)
        → 0 < size
        → size ≤ 4096
        → A.alloc size v ≡ some (base, v')
        → Returns
            (Serves A x satp base d r w v' contiguous (sub64 x hhdm))
            (alloc A hhdm (above 1 d) satp fuel size contiguous flags v s)
    unfolding alloc
    alloc-Serves size true p q e =
        rw (alloc, e, frames_of-page size p q)
          (Returns-bind (λ (a, s1). Taken hhdm levels slot x (y ∷ ys) s a s1)
            (Serves A x satp base d r w v' true (sub64 x hhdm)) (claim_section hhdm true 1 s)
            (λ (a, s1). map_section hhdm (above 1 d) satp fuel flags true base 1 0 a s1 >>= λ s2.
              ok (some ((base, told true a), v', s2)))
            (claim_section-Taken hhdm levels slot x y ys s m)
            (λ (a, s1) k.
              subst
                (λ (t : ℕ). Returns (Serves A x satp base d r w v' true t) (
                  map_section hhdm (above 1 d) satp fuel flags true base 1 0 a s1 >>= λ s2.
                  ok (some ((base, told true a), v', s2))))
                k.at
                (finish true a a a s1 k (omega (arith, k.at, frame_fits))
                  (ap (λ (t : ℕ). t % 4096) k.at ∙ whole) (ap some k.at))))
    alloc-Serves size false p q e = rw (alloc, e, frames_of-page size p q) claimed

    -- Under the conditions of `alloc-Serves`, `alloc_constrained` without frames in a row serves at
    -- most a page like `alloc`. With them it tells the first frame, and maps the page to what stands
    -- behind that frame.
    pub alloc_constrained-Serves :
        (layout : A.Layout) (contiguous : Bool)
        → 0 < A.size layout
        → A.size layout ≤ 4096
        → A.alloc_constrained layout v ≡ some (base, v')
        → Returns
            (Serves A x satp base d r w v' contiguous
              (if contiguous then sub64 x hhdm + 4096 else sub64 x hhdm))
            (alloc_constrained A hhdm (above 1 d) satp fuel layout contiguous flags v s)
    unfolding alloc_constrained
    alloc_constrained-Serves layout true p q e =
        rw (alloc_constrained, e, frames_of-page (A.size layout) p q, one_round (A.size layout) p q)
          (Returns-bind (λ (a, s1). Taken hhdm levels slot x (y ∷ ys) s a s1)
            (Serves A x satp base d r w v' true (sub64 x hhdm + 4096)) (claim_section hhdm true 1 s)
            (λ (a, s1).
              map_constrained hhdm (above 1 d) satp fuel flags true base 1 0 a s1 >>= λ s2.
              ok (some ((base, told true a), v', s2)))
            (claim_section-Taken hhdm levels slot x y ys s m)
            (λ (a, s1) k.
              let up : add64 a 4096 ≡ sub64 x hhdm + 4096 = omega (arith, k.at, frame_fits) in
              subst
                (λ (t : ℕ). Returns (Serves A x satp base d r w v' true t) (
                  map_constrained hhdm (above 1 d) satp fuel flags true base 1 0 a s1 >>= λ s2.
                  ok (some ((base, told true a), v', s2))))
                up
                (finish true (add64 a 4096) a a s1 k (omega (arith, up, fits_behind))
                  (omega (arith, up, whole)) (ap some k.at))))
    alloc_constrained-Serves layout false p q e =
        rw (alloc_constrained, e, one_round (A.size layout) p q) claimed
