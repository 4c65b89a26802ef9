-- ===== src/Memory/Vmm/Taken.antt =====
-- A frame that is claimed, and a page that is mapped to one.
use lsd_limine.Prelude.{
  ℕ, ◌+◌, ◌/◌, ◌%◌, ◌^◌, ◌≤◌, ◌<◌, ◌≡◌, refl, sym, ap, subst, true, arith, List, ◌∷◌, length, some,
  ok, ◌>>=◌, Returns, Returns-bind, sub64,
}
use lsd_limine.Memory.Fields.{BitField}
use lsd_limine.Memory.Pmm.{FreeList, claim, claim_continuous}
use lsd_limine.Memory.Pmm.Claim.{Claimed, claim-IsFreeList}
use lsd_limine.Memory.Paging.{from_usize, bytes, as_page_size}
use lsd_limine.Memory.Tables.{State, current_table, virt_to_phys}
use lsd_limine.Memory.Tables.Entries.{Permits}
use lsd_limine.Memory.Tables.Walks.{above, IsOpen}
use lsd_limine.Memory.Tables.Translation.{IsMemory, map-virt_to_phys, page_bytes}
use lsd_limine.Memory.Vmm.{frames_of, claim_phys, claim_section, map_page, unwrap}

pub frames_of-page : (size : ℕ) → 0 < size → size ≤ 4096 → frames_of size ≡ 1
unfolding frames_of
frames_of-page size p q = ground arith

pub one_round : (size : ℕ) → 0 < size → size ≤ 4096 → (size + 4095) / 4096 ≡ 1
one_round size p q = omega arith

pub page_start : (phys : ℕ) → phys % 4096 ≡ 0 → phys % page_bytes 1 ≡ 0
unfolding bytes as_page_size from_usize
page_start phys h = h

module _ ⦃B : BitField⦄ (hhdm : ℕ) where
  -- A frame was claimed, and nothing else has changed.
  pub record Taken (levels : ℕ → ℕ) (slot : ℕ → ℕ × ℕ) (x : ℕ) (rest : List ℕ) (s : State)
      (phys : ℕ) (s' : State) : Type 0 where
    pub at : phys ≡ sub64 x hhdm
    pub memory : IsMemory hhdm levels slot rest s'
    pub tables : s'.tables ≡ s.tables

  module _ (levels : ℕ → ℕ) (slot : ℕ → ℕ × ℕ) (x y : ℕ) (ys : List ℕ) (s : State)
      (m : IsMemory hhdm levels slot (x ∷ y ∷ ys) s) where
    taken :
        (p : ℕ) (f : FreeList)
        → Claimed hhdm x (y ∷ ys) (p, f)
        → Taken levels slot x (y ∷ ys) s (sub64 p hhdm) (record s { free = f })
    taken p f c = record {
      at = ap (λ (a : ℕ). sub64 a hhdm) c.0;
      memory = record { offset = m.offset; free = c.1; unused = m.unused.1; tables = m.tables };
      tables = refl;
    }

    pub claim_phys-Taken :
        Returns (λ (p, s'). Taken levels slot x (y ∷ ys) s p s') (claim_phys hhdm s)
    unfolding claim_phys
    claim_phys-Taken =
        Returns-bind (Claimed hhdm x (y ∷ ys)) (λ (p, s'). Taken levels slot x (y ∷ ys) s p s')
          (claim hhdm s.free) (λ (p, free). ok (sub64 p hhdm, record s { free = free }))
          (claim-IsFreeList hhdm s.free x y ys m.free) (λ (p, f) c. taken p f c)

    pub claim_section-Taken :
        Returns (λ (p, s'). Taken levels slot x (y ∷ ys) s p s') (claim_section hhdm true 1 s)
    unfolding claim_section claim_continuous
    claim_section-Taken =
        Returns-bind (λ (o, f). (p : ℕ) × (o ≡ some p) × Claimed hhdm x (y ∷ ys) (p, f))
          (λ (p, s'). Taken levels slot x (y ∷ ys) s p s')
          (claim hhdm s.free >>= λ (p, f). ok (some p, f))
          (λ (o, f). unwrap o >>= λ p. ok (sub64 p hhdm, record s { free = f }))
          (Returns-bind (Claimed hhdm x (y ∷ ys))
            (λ (o, f). (p : ℕ) × (o ≡ some p) × Claimed hhdm x (y ∷ ys) (p, f)) (claim hhdm s.free)
            (λ (p, f). ok (some p, f)) (claim-IsFreeList hhdm s.free x y ys m.free)
            (λ (p, f) c. (p, refl, c)))
          (λ (o, f) (p, e, c). rw e (taken p f c))

    pub map_page-maps :
        (satp fuel flags base d phys r w p : ℕ) (s' : State)
        → Taken levels slot x (y ∷ ys) s p s'
        → phys < 2 ^ 56
        → phys % 4096 ≡ 0
        → above 1 d ≤ 5
        → Permits flags
        → levels (current_table hhdm satp) ≡ above 1 d
        → d < length (y ∷ ys)
        → IsOpen hhdm s.tables base 1 d (current_table hhdm satp)
        → d < fuel
        → d < r
        → w / page_bytes 1 ≡ base / page_bytes 1
        → Returns
            (λ s2.
              virt_to_phys hhdm r satp (above 1 d) w s2.tables
              ≡ ok (some (phys + w % page_bytes 1)))
            (map_page hhdm (above 1 d) satp fuel flags base phys s')
    unfolding map_page from_usize
    map_page-maps satp fuel flags base d phys r w p s' k fits whole le permits l room way f g e =
        map-virt_to_phys hhdm base phys 1 flags d (current_table hhdm satp) levels slot (y ∷ ys) s'
          (omega arith) le fits (page_start phys whole) permits k.memory l room
          (subst (λ (T : ℕ → ℕ → ℕ). IsOpen hhdm T base 1 d (current_table hhdm satp))
            (sym k.tables) way)
          fuel r w satp f g e refl
