-- ===== src/Memory/Heap/Region.antt =====
-- Which lists of free regions are well formed, and what a search in one finds.
use lsd_limine.Prelude.{
  ℕ, ◌+◌, ◌*◌, ◌%◌, ◌^◌, ◌≤◌, ◌<◌, ◌≡◌, ◌⊎◌, inl, inr, Option, none, some, [], ◌∷◌, All, arith,
  Option-cases, subst, sym,
}
use lsd_limine.Memory.Heap.{
  ListNode, Heap, alloc_from_region, find_region, fits, align_up, checked_add,
}
use lsd_limine.Memory.Heap.Align.{align_up-lem, round_up, round_up-bounds}

-- A region that can hold its node, not at null and not beyond the address space.
pub record IsRegion (r : ListNode) : Type 0 where
  pub above : 0 < r.addr
  pub aligned : r.addr % 8 ≡ 0
  pub holds : 16 ≤ r.size
  pub below : r.addr + r.size < 2 ^ 64

abbrev pub Apart : ListNode → ListNode → Type 0
Apart r q = (r.addr + r.size ≤ q.addr) ⊎ (q.addr + q.size ≤ r.addr)

-- The regions are well formed and share no byte.
abbrev pub IsHeap : Heap → Type 0
IsHeap [] = Unit
IsHeap (r ∷ rs) = (IsRegion r × All (Apart r) rs) × IsHeap rs

-- What shares no byte with the regions of `h` shares none with those of `g`.
abbrev pub Covers : Heap → Heap → Type 0
Covers h g = (x : ListNode) → All (Apart x) h → All (Apart x) g

abbrev pub Found : ℕ → ℕ → Heap → Option (ListNode × ℕ × Heap) → Type 0
Found size align h none = All (λ r. alloc_from_region r size align ≡ none) h
Found size align h (some (r, start, rest)) =
    IsHeap (r ∷ rest) × (alloc_from_region r size align ≡ some start) × Covers h (r ∷ rest)

Apart-sym : (r q : ListNode) → Apart r q → Apart q r
Apart-sym r q (inl h) = inr h
Apart-sym r q (inr h) = inl h

abbrev pub onward : ListNode → Option (ListNode × ℕ × Heap) → Option (ListNode × ℕ × Heap)
onward q none = none
onward q (some found) = some (found.0, found.1, q ∷ found.2)

-- The region found in the tail stays apart from the head.
past_head :
    (size align : ℕ) (q : ListNode) (qs : Heap) (o : Option (ListNode × ℕ × Heap))
    → alloc_from_region q size align ≡ none
    → IsHeap (q ∷ qs)
    → Found size align qs o
    → Found size align (q ∷ qs) (onward q o)
past_head size align q qs none miss v f = (miss, f)
past_head size align q qs (some (r, start, rest)) miss v (w, at, covers) =
    let all = covers q v.0.1 in
    (
      ((w.0.0, (Apart-sym q r all.0, w.0.1)), ((v.0.0, all.1), w.1)),
      at,
      λ x h. let keep = covers x h.1 in (keep.0, (h.0, keep.1)),
    )

find_region-miss :
    (size align : ℕ) (r : ListNode) (rs : Heap)
    → alloc_from_region r size align ≡ none
    → find_region size align (r ∷ rs) ≡ onward r (find_region size align rs)
unfolding find_region
find_region-miss size align r rs miss = elim (Option-cases (find_region size align rs)) [
  | inl nothing ↦ ground arith
  | inr (found, some_one) ↦ ground arith
]

find_region-hit :
    (size align : ℕ) (r : ListNode) (rs : Heap) (start : ℕ)
    → alloc_from_region r size align ≡ some start
    → find_region size align (r ∷ rs) ≡ some (r, start, rs)
unfolding find_region
find_region-hit size align r rs start hit = ground arith

pub find_region-Found :
    (size align : ℕ) (h : Heap) → IsHeap h → Found size align h (find_region size align h)
unfolding find_region
find_region-Found size align [] v = tt
find_region-Found size align (r ∷ rs) v = elim (Option-cases (alloc_from_region r size align)) [
  | inl miss ↦ subst (Found size align (r ∷ rs)) (sym (find_region-miss size align r rs miss)) (
      past_head size align r rs (find_region size align rs) miss v
        (find_region-Found size align rs v.1))
  | inr (start, hit) ↦
      subst (Found size align (r ∷ rs)) (sym (find_region-hit size align r rs start hit))
        (v, hit, λ x h. h)
]

abbrev pub Holds : (ListNode → Type 0) → Option (ListNode × ℕ × Heap) → Type 0
Holds P none = Unit
Holds P (some found) = P found.0

onward-Holds :
    (P : ListNode → Type 0) (q : ListNode) (o : Option (ListNode × ℕ × Heap))
    → Holds P o
    → Holds P (onward q o)
onward-Holds P q none h = tt
onward-Holds P q (some found) h = h

pub find_region-Holds :
    (P : ListNode → Type 0) (size align : ℕ) (h : Heap)
    → All P h
    → Holds P (find_region size align h)
unfolding find_region
find_region-Holds P size align [] a = tt
find_region-Holds P size align (r ∷ rs) a = elim (Option-cases (alloc_from_region r size align)) [
  | inl miss ↦
      subst (Holds P) (sym (find_region-miss size align r rs miss))
        (onward-Holds P r (find_region size align rs) (find_region-Holds P size align rs a.1))
  | inr (start, hit) ↦ subst (Holds P) (sym (find_region-hit size align r rs start hit)) a.0
]

-- A region that serves an allocation of `size` bytes: the start is aligned, the block lies in the
-- region, and what is behind it is nothing or can hold a node.
pub record Serves (size j : ℕ) (r : ListNode) (start : ℕ) : Type 0 where
  pub multiple : start ≡ round_up r.addr j * 2 ^ j
  pub from : r.addr ≤ start
  pub to : start + size ≤ r.addr + r.size
  pub rest : (start + size ≡ r.addr + r.size) ⊎ (start + size + 16 ≤ r.addr + r.size)

pub alloc_from_region-Serves :
    (size j : ℕ) (r : ListNode) (start : ℕ)
    → IsRegion r
    → j < 64
    → r.addr + 2 ^ j ≤ 2 ^ 64
    → alloc_from_region r size (2 ^ j) ≡ some start
    → Serves size j r start
unfolding alloc_from_region fits checked_add
alloc_from_region-Serves size j r start v small low h =
    let e = align_up-lem r.addr j small low in
    let b = round_up-bounds r.addr j in
    let at : align_up r.addr (2 ^ j) ≡ start = ground arith in
    let lower : r.addr ≤ start = omega (arith, e, b, at) in
    record { multiple = omega (arith, e, at); from = lower; to = ground arith; rest = ground arith }

-- A region that cannot serve an allocation of `size` bytes at the first multiple of `2 ^ j` from its
-- start on: the block goes past the region's end, or what would be left behind it is too small for
-- a node.
abbrev pub Unfit : ℕ → ℕ → ListNode → Type 0
Unfit size j r =
    (r.addr + r.size < round_up r.addr j * 2 ^ j + size)
    ⊎ ((round_up r.addr j * 2 ^ j + size < r.addr + r.size)
        × (r.addr + r.size < round_up r.addr j * 2 ^ j + size + 16))

alloc_from_region-Unfit :
    (size j : ℕ) (r : ListNode)
    → IsRegion r
    → j < 64
    → r.addr + 2 ^ j ≤ 2 ^ 64
    → alloc_from_region r size (2 ^ j) ≡ none
    → Unfit size j r
unfolding alloc_from_region fits checked_add
alloc_from_region-Unfit size j r v small low h =
    let e = align_up-lem r.addr j small low in ground arith

-- Where every region is refused, none can serve.
pub IsHeap-Unfit :
    (size j : ℕ) (h : Heap)
    → IsHeap h
    → j < 64
    → All (λ r. r.addr + 2 ^ j ≤ 2 ^ 64) h
    → All (λ r. alloc_from_region r size (2 ^ j) ≡ none) h
    → All (Unfit size j) h
IsHeap-Unfit size j [] v small low f = tt
IsHeap-Unfit size j (r ∷ rs) v small low f = (
  alloc_from_region-Unfit size j r v.0.0 small low.0 f.0,
  IsHeap-Unfit size j rs v.1 small low.1 f.1,
)
