-- ===== src/Memory/Heap.antt =====
-- LSD/src/memory/linked_list.rs: the allocator of the kernel's heap, with `align_up` of
-- LSD/src/memory/mod.rs. A `ListNode` is owned by the one before it, so the free regions are a
-- list of their addresses and sizes. A `Layout` is its size and alignment, with `align_to` and
-- `pad_to_align` as the standard library describes them.
pub mod Align
pub mod Region
pub mod Serve
pub mod Alloc
mod Tests
use lsd_limine.Prelude.{
  ℕ, ◌+◌, ◌-◌, ◌*◌, ◌/◌, ◌^◌, Bool, true, false, ◌&&◌, Option, none, some, List, [], ◌∷◌, ltb, leb,
  ◌==◌, if◌then◌else◌, Run, ok, panic, ◌>>=◌, ◌>>◌, assert, unwrap, add64, sub64, not64, bit_and,
}

pub record ListNode : Type 0 where
  pub addr : ℕ
  pub size : ℕ

abbrev pub node : ℕ → ℕ → ListNode
node a n = record { addr = a; size = n }

abbrev pub Heap : Type 0
Heap = List ListNode

-- `align_of::<ListNode>()` and `size_of::<ListNode>()`.
abbrev pub node_align : ℕ
node_align = 8

abbrev pub node_size : ℕ
node_size = 16

unfoldable pub align_up : ℕ → ℕ → ℕ
align_up addr align = bit_and (sub64 (add64 addr align) 1) (not64 (sub64 align 1))

abbrev pub end_addr : ListNode → ℕ
end_addr r = add64 r.addr r.size

unfoldable pub checked_add : ℕ → ℕ → Option ℕ
checked_add a b = if ltb (a + b) (2 ^ 64) then some (a + b) else none

unfoldable pub add_free_region : ℕ → ℕ → Heap → Run Heap
add_free_region addr size h = do
  assert (align_up addr node_align == addr)
  assert (leb node_size size)
  ok (node addr size ∷ h)

unfoldable pub init : ℕ → ℕ → Heap → Run Heap
init heap_start heap_size h = add_free_region heap_start heap_size h

-- What becomes of an end of the allocation that is known.
unfoldable pub fits : ListNode → ℕ → ℕ → Option ℕ
fits r alloc_start alloc_end =
    if ltb (end_addr r) alloc_end
    then none
    else (let excess_size = sub64 (end_addr r) alloc_end in
        if ltb 0 excess_size && ltb excess_size node_size then none else some alloc_start)

unfoldable pub alloc_from_region : ListNode → ℕ → ℕ → Option ℕ
alloc_from_region r size align =
    let alloc_start = align_up r.addr align in
    elim (checked_add alloc_start size) [
      | none ↦ none
      | some alloc_end ↦ fits r alloc_start alloc_end
    ]

-- The region that is found, the start of the allocation in it, and the list without it.
unfoldable pub find_region : ℕ → ℕ → Heap → Option (ListNode × ℕ × Heap)
find_region size align [] = none
find_region size align (r ∷ rs) = elim (alloc_from_region r size align) [
  | some alloc_start ↦ some (r, alloc_start, rs)
  | none ↦ elim (find_region size align rs) [
    | none ↦ none
    | some found ↦ some (found.0, found.1, r ∷ found.2)
  ]
]

pub record Layout : Type 0 where
  pub size : ℕ
  pub align : ℕ

abbrev pub larger : ℕ → ℕ → ℕ
larger a b = if ltb a b then b else a

-- `align_to` fails if the size rounded up to the alignment is not below `2 ^ 63`.
unfoldable pub size_align : Layout → Run (ℕ × ℕ)
size_align l = do
  let align = larger l.align node_align
  assert (leb (l.size + align) (2 ^ 63))
  let padded = (l.size + align - 1) / align * align
  ok (larger padded node_size, align)

-- What is done with a region that was found.
unfoldable pub split : ℕ → ListNode × ℕ × Heap → Run (ℕ × Heap)
split size (region, alloc_start, h) = do
  alloc_end ← unwrap (checked_add alloc_start size)
  let excess_size = sub64 (end_addr region) alloc_end
  h ← if ltb 0 excess_size then add_free_region alloc_end excess_size h else ok h
  ok (alloc_start, h)

-- The address is 0 if there is no region.
unfoldable pub alloc : Layout → Heap → Run (ℕ × Heap)
alloc l h = do
  (size, align) ← size_align l
  elim (find_region size align h) [ none ↦ ok (0, h) | some found ↦ split size found ]

unfoldable pub dealloc : ℕ → Layout → Heap → Run Heap
dealloc ptr l h = do (size, align) ← size_align l; add_free_region ptr size h
