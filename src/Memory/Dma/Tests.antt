-- ===== src/Memory/Dma/Tests.antt =====
-- A region of two frames, and an element of it.
use lsd_limine.Prelude.{
  none, ℕ, ◌==◌, if◌then◌else◌, refl, arith, Returns, some, ok, ◌≡◌, ◌≤◌, ◌+◌, ◌*◌, ◌<◌, ◌⊎◌, ◌-◌,
  ◌%◌,
}
use lsd_limine.Memory.Pmm.{
  entry, null, Cells, FreeList, write, load, set_prev, set_next, unlink, scan, claim_continuous,
}
use lsd_limine.Memory.Dma.{DmaRegion, frames_for, new_raw, true, get}
use lsd_limine.Memory.Dma.Regions.{new_raw-cleared, get-element}

abbrev cells : Cells
cells a =
    if a == 0x8000
    then some (entry null 0x9000)
    else if a == 0x9000
    then some (entry 0x8000 0xb000)
    else some (entry 0x9000 null)

abbrev free : FreeList
free = record { head = 0x8000; tail = 0xb000; len = 3; cells = cells }

abbrev left : FreeList
left = record {
  head = 0xb000;
  tail = 0xb000;
  len = 1;
  cells = write cells 0xb000 (entry null null);
}

claimed : claim_continuous 0x1000 (frames_for 8000) free ≡ ok (some 0x8000, left)
unfolding claim_continuous scan unlink load set_prev set_next write frames_for
claimed = refl

abbrev region : DmaRegion
region = record { phys = 0x7000; virt = 0x8000; elements = 500 }

new_raw_example :
    Returns
      (λ (r, t, m').
        (r.virt ≡ 0x8000)
        × (r.phys + 0x1000 ≡ 0x8000)
        × (r.elements ≡ 500)
        × (t ≡ left)
        × ((b : ℕ) → 0x8000 ≤ b → b < 0x8000 + 8000 → m' b ≡ 0)
        × ((b : ℕ)
            → (b < 0x8000) ⊎ (0x8000 + 8000 ≤ b)
            → (16 ≤ b % 4096) ⊎ (left.cells (b - b % 4096) ≡ cells (b - b % 4096))
            → m' b ≡ 5))
      (new_raw 0x1000 8000 500 true free (λ b. 5))
new_raw_example =
    new_raw-cleared 0x1000 8000 500 0x8000 free left (λ b. 5) claimed (omega arith) (omega arith)
      (omega arith) (omega arith)

get_example :
    ((3 < region.elements)
      × (16 * 3 + 16 ≤ 16 * region.elements)
      × (get 16 region 3 ≡ some (record { phys = 0x7030; virt = 0x8030 })))
    ⊎ ((region.elements ≤ 3) × (get 16 region 3 ≡ none))
get_example = get-element 16 3 region (omega arith) (omega arith)
