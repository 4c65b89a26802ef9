-- ===== src/Memory/Tables/Index.antt =====
-- The index of an address at each level, and what a leaf of a level makes of an address.
use lsd_limine.Prelude.{
  ℕ, ◌+◌, ◌-◌, ◌*◌, ◌/◌, ◌%◌, ◌^◌, ◌≤◌, ◌<◌, ◌≡◌, refl, arith, bit_or, bit_and, ==_refl, ne→==,
}
use lsd_limine.Prelude.Bits.{bit_and_field, bit_and_ones, bit_or_disjoint}
use native.Mathlib.Nat.{mod-lt, one-le-pow}
use lsd_limine.Memory.Fields.{BitField}
use lsd_limine.Memory.Paging.{
  PageLevel, level1, level2, level3, level4, level5, page_offset, as_usize, from_usize, bytes,
  as_page_size,
}
use lsd_limine.Memory.Tables.{
  index, below, same_level, translate, level_mask, entry_phys, suc, true, false,
}

pub as_usize-from_usize : (n : ℕ) → n ≤ 5 → as_usize (from_usize n) ≡ n
unfolding as_usize from_usize
as_usize-from_usize n h = ground arith

pub from_usize-as_usize : (l : PageLevel) → from_usize (as_usize l) ≡ l
unfolding as_usize from_usize
from_usize-as_usize level1 = refl
from_usize-as_usize level2 = refl
from_usize-as_usize level3 = refl
from_usize-as_usize level4 = refl
from_usize-as_usize level5 = refl
from_usize-as_usize page_offset = refl

pub below-from_usize : (n : ℕ) → n ≤ 4 → below (from_usize (suc n)) ≡ from_usize n
unfolding below
below-from_usize n h =
    let e : (suc n + 2 ^ 64 - 1) % 2 ^ 64 ≡ n = omega arith in
    rw (as_usize-from_usize (suc n) (omega arith), e) refl

pub same_level_refl : (l : PageLevel) → same_level l l ≡ true
unfolding same_level
same_level_refl l = ==_refl (as_usize l)

pub same_level_ne : (m n : ℕ) → m ≤ 5 → n < m → same_level (from_usize m) (from_usize n) ≡ false
unfolding same_level
same_level_ne m n h k =
    rw (as_usize-from_usize m h, as_usize-from_usize n (omega arith)) (ne→== m n (omega arith))

-- The start of a page of any size is the start of a small one.
pub small_multiple :
    (a : ℕ) (l : PageLevel) → 0 < as_usize l → a % bytes (as_page_size l) ≡ 0 → a % 4096 ≡ 0
unfolding bytes as_page_size as_usize
small_multiple a level1 p h = h
small_multiple a level2 p h = omega arith
small_multiple a level3 p h = omega arith
small_multiple a level4 p h = omega arith
small_multiple a level5 p h = omega arith
small_multiple a page_offset p h = absurd (omega arith)

mask_sum :
    (k j p w : ℕ)
    → p / 2 ^ k % 2 ^ j * 2 ^ k ≡ p
    → bit_or (bit_and p ((2 ^ j - 1) * 2 ^ k)) (bit_and w (2 ^ k - 1)) ≡ p + w % 2 ^ k
mask_sum k j p w h =
    rw
      (
        bit_and_field k j p,
        bit_and_ones k w,
        bit_or_disjoint k (p / 2 ^ k % 2 ^ j) (w % 2 ^ k) (mod-lt w (one-le-pow k 2 (omega arith))),
        h,
      )
      refl

same_above :
    (a b : ℕ) (t l : PageLevel)
    → 0 < as_usize t
    → as_usize t ≤ as_usize l
    → a / bytes (as_page_size t) ≡ b / bytes (as_page_size t)
    → a / bytes (as_page_size l) % 512 ≡ b / bytes (as_page_size l) % 512
unfolding bytes as_page_size as_usize
same_above a b page_offset l h k e = absurd (omega arith)
same_above a b level1 page_offset h k e = absurd (omega arith)
same_above a b level1 level1 h k e = omega arith
same_above a b level1 level2 h k e = omega arith
same_above a b level1 level3 h k e = omega arith
same_above a b level1 level4 h k e = omega arith
same_above a b level1 level5 h k e = omega arith
same_above a b level2 page_offset h k e = absurd (omega arith)
same_above a b level2 level1 h k e = absurd (omega arith)
same_above a b level2 level2 h k e = omega arith
same_above a b level2 level3 h k e = omega arith
same_above a b level2 level4 h k e = omega arith
same_above a b level2 level5 h k e = omega arith
same_above a b level3 page_offset h k e = absurd (omega arith)
same_above a b level3 level1 h k e = absurd (omega arith)
same_above a b level3 level2 h k e = absurd (omega arith)
same_above a b level3 level3 h k e = omega arith
same_above a b level3 level4 h k e = omega arith
same_above a b level3 level5 h k e = omega arith
same_above a b level4 page_offset h k e = absurd (omega arith)
same_above a b level4 level1 h k e = absurd (omega arith)
same_above a b level4 level2 h k e = absurd (omega arith)
same_above a b level4 level3 h k e = absurd (omega arith)
same_above a b level4 level4 h k e = omega arith
same_above a b level4 level5 h k e = omega arith
same_above a b level5 page_offset h k e = absurd (omega arith)
same_above a b level5 level1 h k e = absurd (omega arith)
same_above a b level5 level2 h k e = absurd (omega arith)
same_above a b level5 level3 h k e = absurd (omega arith)
same_above a b level5 level4 h k e = absurd (omega arith)
same_above a b level5 level5 h k e = omega arith

module _ ⦃B : BitField⦄ where
  -- At a level that has tables, the index is the nine bits above the page size.
  pub index-field :
      (a : ℕ) (l : PageLevel) → 0 < as_usize l → index a l ≡ a / bytes (as_page_size l) % 512
  unfolding index bytes as_page_size as_usize
  index-field a level1 h = B.get_lem a 20 12 (omega arith) (omega arith)
  index-field a level2 h = B.get_lem a 29 21 (omega arith) (omega arith)
  index-field a level3 h = B.get_lem a 38 30 (omega arith) (omega arith)
  index-field a level4 h = B.get_lem a 47 39 (omega arith) (omega arith)
  index-field a level5 h = B.get_lem a 56 48 (omega arith) (omega arith)
  index-field a page_offset h = absurd (omega arith)

  pub index-lt : (a : ℕ) (l : PageLevel) → 0 < as_usize l → index a l < 512
  index-lt a l h = rw (index-field a l h) (omega arith)

  -- Addresses of one page have the same index at the page's level and above.
  pub index_same_page :
      (a b : ℕ) (t l : PageLevel)
      → 0 < as_usize t
      → as_usize t ≤ as_usize l
      → a / bytes (as_page_size t) ≡ b / bytes (as_page_size t)
      → index a l ≡ index b l
  index_same_page a b t l h k e =
      rw (index-field a l (omega arith), index-field b l (omega arith)) (same_above a b t l h k e)

  -- A leaf of a level gives an address the start of its page and what is left of the address.
  pub translate-sum :
      (l : PageLevel) (w e : ℕ)
      → entry_phys e < 2 ^ 64
      → 0 < as_usize l
      → entry_phys e % bytes (as_page_size l) ≡ 0
      → translate l w e ≡ entry_phys e + w % bytes (as_page_size l)
  unfolding translate level_mask bytes as_page_size as_usize
  translate-sum level1 w e h p a = mask_sum 12 52 (entry_phys e) w (omega arith)
  translate-sum level2 w e h p a = mask_sum 21 43 (entry_phys e) w (omega arith)
  translate-sum level3 w e h p a = mask_sum 30 34 (entry_phys e) w (omega arith)
  translate-sum level4 w e h p a = mask_sum 39 25 (entry_phys e) w (omega arith)
  translate-sum level5 w e h p a = mask_sum 48 16 (entry_phys e) w (omega arith)
  translate-sum page_offset w e h p a = absurd (omega arith)
