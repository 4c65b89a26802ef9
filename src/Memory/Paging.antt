-- ===== src/Memory/Paging.antt =====
-- The levels and sizes of pages of LSD/src/memory/vmm.rs, and the address types of
-- LSD/src/memory/mod.rs without their bit fields. `hhdm` is the value of `HHDM_OFFSET`, `levels`
-- that of `LEVELS`.
pub mod Levels
use lsd_limine.Prelude.{ℕ, ◌==◌, ltb, if◌then◌else◌, add64, sub64, not64, bit_and}

pub data PageSize : Type 0 where
  no_size small medium large huge colossal : PageSize

-- `size as usize`.
unfoldable pub bytes : PageSize → ℕ
bytes no_size = 0x0
bytes small = 0x1000
bytes medium = 0x200000
bytes large = 0x40000000
bytes huge = 0x8000000000
bytes colossal = 0x1000000000000

pub data PageLevel : Type 0 where
  level5 level4 level3 level2 level1 page_offset : PageLevel

pub data PageType : Type 0 where
  bare sv39 sv48 sv57 : PageType

-- `PageSize::from_level`.
unfoldable pub from_level : PageLevel → PageSize
from_level level1 = small
from_level level2 = medium
from_level level3 = large
from_level level4 = huge
from_level level5 = colossal
from_level page_offset = no_size

unfoldable pub hhdm_offset : PageType → ℕ
hhdm_offset bare = 0x00
hhdm_offset sv39 = 0xffffffc000000000
hhdm_offset sv48 = 0xffff800000000000
hhdm_offset sv57 = 0xff00000000000000

unfoldable pub from_levels : PageLevel → PageType
from_levels level3 = sv39
from_levels level4 = sv48
from_levels level5 = sv57
from_levels level2 = bare
from_levels level1 = bare
from_levels page_offset = bare

unfoldable pub from_usize : ℕ → PageLevel
from_usize val =
    if val == 1
    then level1
    else if val == 2
    then level2
    else if val == 3
    then level3
    else if val == 4
    then level4
    else if val == 5
    then level5
    else page_offset

unfoldable pub as_usize : PageLevel → ℕ
as_usize level1 = 1
as_usize level2 = 2
as_usize level3 = 3
as_usize level4 = 4
as_usize level5 = 5
as_usize page_offset = 0

unfoldable pub as_page_size : PageLevel → PageSize
as_page_size level1 = small
as_page_size level2 = medium
as_page_size level3 = large
as_page_size level4 = huge
as_page_size level5 = colossal
as_page_size page_offset = no_size

-- `level - rhs` and `level + rhs`.
unfoldable pub sub : PageLevel → ℕ → PageLevel
sub l rhs = from_usize (sub64 (as_usize l) rhs)

unfoldable pub add : ℕ → PageLevel → ℕ → PageLevel
add levels l rhs =
    if ltb (add64 (as_usize l) 1) levels then from_usize (add64 (as_usize l) rhs) else page_offset

-- `PhysicalAddress::as_ptr` and `from_ptr`.
unfoldable pub as_ptr : ℕ → ℕ → ℕ
as_ptr hhdm phys = add64 phys hhdm

unfoldable pub from_ptr : ℕ → ℕ → ℕ
from_ptr hhdm ptr = sub64 ptr hhdm

-- `virt_to_phys` and `phys_to_virt` of LSD/src/memory/mod.rs.
unfoldable pub virt_to_phys : ℕ → ℕ → ℕ
virt_to_phys hhdm virt = sub64 virt hhdm

unfoldable pub phys_to_virt : ℕ → ℕ → ℕ
phys_to_virt hhdm phys = add64 phys hhdm

unfoldable pub no_offset : ℕ → ℕ
no_offset a = bit_and a (not64 0xfff)

unfoldable pub can_branch : ℕ → ℕ
can_branch a = bit_and a (not64 0x1fffff)

unfoldable pub lowest_level : ℕ → PageLevel → ℕ
lowest_level a level1 = bit_and a (not64 0xfff)
lowest_level a level2 = bit_and a (not64 0x1fffff)
lowest_level a level3 = bit_and a (not64 0x3fffffff)
lowest_level a level4 = bit_and a (not64 0x7fffffffff)
lowest_level a level5 = bit_and a (not64 0xffffffffffff)
lowest_level a page_offset = a
