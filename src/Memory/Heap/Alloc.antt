-- ===== src/Memory/Heap/Alloc.antt =====
-- `alloc` and `dealloc` for a layout.
use native.Mathlib.Nat.{pow-le-pow_right}
use lsd_limine.Prelude.{
  suc, zero, leb, ℕ, ◌+◌, ◌*◌, ◌%◌, ◌^◌, ◌≤◌, ◌<◌, ◌≡◌, ◌⊎◌, inl, inr, Option, none, some, ◌∷◌, All,
  arith, Returns, ok, refl, subst, Returns-imp,
}
use lsd_limine.Memory.Heap.{
  ListNode, Heap, Layout, node, larger, find_region, split, alloc, dealloc, size_align, true,
}
use lsd_limine.Memory.Heap.Align.{round_up, round_up-bounds, eight_divides}
use lsd_limine.Memory.Heap.Region.{
  IsHeap, Found, find_region-Found, alloc_from_region-Serves, Holds, find_region-Holds, Unfit,
  IsHeap-Unfit,
}
use lsd_limine.Memory.Heap.Serve.{IsServed, split-IsServed, add_free_region-ok}

-- A layout whose alignment is `2 ^ i`, and whose size is below `2 ^ 63` when it is rounded up to it.
pub record IsLayout (l : Layout) (i : ℕ) : Type 0 where
  pub power : l.align ≡ 2 ^ i
  pub small : i < 63
  pub room : l.size + larger (2 ^ i) 8 ≤ 2 ^ 63

-- The exponent that `align_to` leaves, and the size of the block.
abbrev pub exponent : ℕ → ℕ
exponent i = larger i 3

abbrev pub block_size : Layout → ℕ → ℕ
block_size l i = larger (round_up l.size (exponent i) * 2 ^ exponent i) 16

larger_power : (i : ℕ) → larger (2 ^ i) 8 ≡ 2 ^ exponent i
larger_power zero = refl
larger_power (suc zero) = refl
larger_power (suc (suc zero)) = refl
larger_power (suc (suc (suc i))) =
    let e : 2 ^ 3 ≤ 2 ^ suc (suc (suc i)) = pow-le-pow_right (omega arith) {i = 3} (omega arith) in
    let x : exponent (suc (suc (suc i))) ≡ suc (suc (suc i)) = ground arith in
    rw x (ground (arith, e))

exponent_three : (i : ℕ) → 3 ≤ exponent i
exponent_three i = ground arith

size_align-ok :
    (l : Layout) (i : ℕ) → IsLayout l i → size_align l ≡ ok (block_size l i, 2 ^ exponent i)
unfolding size_align
size_align-ok l i h =
    let room : l.size + 2 ^ exponent i ≤ 2 ^ 63 =
      subst (λ a. l.size + a ≤ 2 ^ 63) (larger_power i) h.room in
    let t : leb (l.size + 2 ^ exponent i) (2 ^ 63) ≡ true = ground arith in
    rw (h.power, larger_power i, t)

block_eight : (l : Layout) (i : ℕ) → block_size l i % 8 ≡ 0
block_eight l i =
    let e = eight_divides (round_up l.size (exponent i)) (exponent i) (exponent_three i) in
    ground (arith, e)

-- The block holds what was asked for.
pub block_size-bounds : (l : Layout) (i : ℕ) → (l.size ≤ block_size l i) × (16 ≤ block_size l i)
block_size-bounds l i =
    let b = round_up-bounds l.size (exponent i) in (ground (arith, b), ground arith)

-- What `alloc` leaves: a block that is served, or the heap as it was, when no region will do.
abbrev pub Allocated : Heap → ℕ → ℕ → ℕ → Heap → Type 0
Allocated h n j p h' = IsServed h n (2 ^ j) p h' ⊎ ((p ≡ 0) × (h' ≡ h) × All (Unfit n j) h)

abbrev After : Heap → ℕ → ℕ → Option (ListNode × ℕ × Heap) → Type 0
After h n j o =
    Returns (λ (p, h'). Allocated h n j p h')
      (elim o [ none ↦ ok (0, h) | some found ↦ split n found ])

-- The heads of the regions do not wrap when they are rounded up.
abbrev pub Low : ℕ → Heap → Type 0
Low i h = All (λ r. r.addr + larger (2 ^ i) 8 ≤ 2 ^ 64) h

abbrev Fits : ℕ → ListNode → Type 0
Fits i r = r.addr + larger (2 ^ i) 8 ≤ 2 ^ 64

Found-After :
    (l : Layout) (i : ℕ) (h : Heap) (o : Option (ListNode × ℕ × Heap))
    → IsLayout l i
    → IsHeap h
    → Low i h
    → Holds (Fits i) o
    → Found (block_size l i) (2 ^ exponent i) h o
    → After h (block_size l i) (exponent i) o
Found-After l i h none v whole all low f =
    let small = v.small in
    let lows : All (λ r. r.addr + 2 ^ exponent i ≤ 2 ^ 64) h =
      subst (λ a. All (λ r. r.addr + a ≤ 2 ^ 64) h) (larger_power i) all in
    inr (refl, refl, IsHeap-Unfit (block_size l i) (exponent i) h whole (ground arith) lows f)
Found-After l i h (some (r, start, rest)) v whole all low (w, at, covers) =
    let n = block_size l i in
    let j = exponent i in
    let small = v.small in
    let fit : r.addr + 2 ^ j ≤ 2 ^ 64 = subst (λ a. r.addr + a ≤ 2 ^ 64) (larger_power i) low in
    let s = alloc_from_region-Serves n j r start w.0.0 (ground arith) fit at in
    Returns-imp (λ (p, h'). IsServed h n (2 ^ j) p h') (λ (p, h'). Allocated h n j p h')
      (split n (r, start, rest)) (λ a. inl)
      (split-IsServed n j (exponent_three i) (block_eight l i) (block_size-bounds l i).1 h r start
        rest w covers s)

-- Take a layout whose alignment is a power of two and whose rounded size is not beyond `2 ^ 63`,
-- and a well-formed heap of which no region's start wraps when it is rounded up. Then `alloc`
-- returns. Either it gives `block_size` bytes, at a multiple of the larger of 8 and the alignment,
-- that form a well-formed heap with the regions that are left, and that all lie in the old regions;
-- or it gives null, the heap is what it was, and in each region the block at the first multiple of
-- that from the region's start on goes past its end or leaves fewer than 16 bytes, but not 0.
pub alloc-Allocated :
    (l : Layout) (i : ℕ) (h : Heap)
    → IsLayout l i
    → IsHeap h
    → Low i h
    → Returns (λ (p, h'). Allocated h (block_size l i) (exponent i) p h') (alloc l h)
unfolding alloc
alloc-Allocated l i h v w low =
    let n = block_size l i in
    rw (size_align-ok l i v) (
      Found-After l i h (find_region n (2 ^ exponent i) h) v w low
        (find_region-Holds (Fits i) n (2 ^ exponent i) h low)
        (find_region-Found n (2 ^ exponent i) h w))

-- For such a layout, `dealloc` of a block that forms a well-formed heap with the free regions
-- returns, and puts the block in front of them.
pub dealloc-ok :
    (l : Layout) (i p : ℕ) (h : Heap)
    → IsLayout l i
    → IsHeap (node p (block_size l i) ∷ h)
    → dealloc p l h ≡ ok (node p (block_size l i) ∷ h)
unfolding dealloc
dealloc-ok l i p h v w =
    let r = w.0.0 in
    let eight = r.aligned in
    rw (size_align-ok l i v) (
      add_free_region-ok p (block_size l i) h r.aligned
        (omega (arith, r.below, (block_size-bounds l i).1)) (block_size-bounds l i).1)
