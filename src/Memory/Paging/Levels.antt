-- ===== src/Memory/Paging/Levels.antt =====
-- Levels, their page sizes, and addresses.
use lsd_limine.Prelude.{ℕ, ◌+◌, ◌*◌, ◌%◌, ◌^◌, ◌<◌, ◌≡◌, refl, arith}
use lsd_limine.Prelude.Bits.{bit_and_field}
use lsd_limine.Memory.Paging.{
  PageLevel, level1, level2, level3, level4, level5, page_offset, bytes, from_level, as_page_size,
  from_usize, as_usize, sub, lowest_level, as_ptr, from_ptr, virt_to_phys, phys_to_virt,
}

-- `from_usize` gives each level back from its number, `PageSize::from_level` and `as_page_size`
-- agree, and a level above the first has pages 512 times as large as those of the level below.
pub levels-agree :
    (l : PageLevel)
    → (from_usize (as_usize l) ≡ l)
      × (from_level l ≡ as_page_size l)
      × (1 < as_usize l → bytes (as_page_size l) ≡ 512 * bytes (as_page_size (sub l 1)))
unfolding from_usize as_usize from_level as_page_size bytes sub
levels-agree page_offset = (refl, refl, λ h. absurd (omega arith))
levels-agree level1 = (refl, refl, λ h. absurd (omega arith))
levels-agree _ = (refl, refl, λ h. refl)

-- `lowest_level` takes a u64 down to the start of its page of that level: nothing of it is left
-- but a multiple of the page size, and what is lost is the remainder by that size.
pub lowest_level-start :
    (a : ℕ) (l : PageLevel)
    → a < 2 ^ 64
    → 0 < as_usize l
    → lowest_level a l + a % bytes (as_page_size l) ≡ a
unfolding lowest_level bytes as_page_size as_usize
lowest_level-start a level1 h p = omega (arith, bit_and_field 12 52 a)
lowest_level-start a level2 h p = omega (arith, bit_and_field 21 43 a)
lowest_level-start a level3 h p = omega (arith, bit_and_field 30 34 a)
lowest_level-start a level4 h p = omega (arith, bit_and_field 39 25 a)
lowest_level-start a level5 h p = omega (arith, bit_and_field 48 16 a)
lowest_level-start a page_offset h p = absurd (omega arith)

-- The physical address of a pointer leads back to the pointer, and an address that is translated
-- to the direct map and back is what it was.
pub as_ptr-from_ptr :
    (hhdm a : ℕ)
    → hhdm < 2 ^ 64
    → a < 2 ^ 64
    → (as_ptr hhdm (from_ptr hhdm a) ≡ a)
      × (phys_to_virt hhdm (virt_to_phys hhdm a) ≡ a)
      × (virt_to_phys hhdm (phys_to_virt hhdm a) ≡ a)
unfolding as_ptr from_ptr phys_to_virt virt_to_phys
as_ptr-from_ptr hhdm a h k = (omega arith, omega arith, omega arith)
