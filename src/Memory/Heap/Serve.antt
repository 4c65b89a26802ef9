-- ===== src/Memory/Heap/Serve.antt =====
-- `alloc` and `dealloc`.
use native.Mathlib.Nat.{mul-mod_left}
use lsd_limine.Prelude.{
  ℕ, ◌+◌, ◌%◌, ◌^◌, ◌≤◌, ◌<◌, ◌≡◌, inl, inr, [], ◌∷◌, All, arith, Returns, ok, eq→==, sub64, lt→ltb,
  ap, ◌-◌, ◌∙◌,
}
use lsd_limine.Memory.Heap.{
  ListNode, Heap, node, add_free_region, align_up, checked_add, split, end_addr,
}
use lsd_limine.Memory.Heap.Align.{align_up-lem, round_up, eight_divides}
use lsd_limine.Memory.Heap.Region.{IsRegion, Apart, IsHeap, Covers, Serves}

pub add_free_region-ok :
    (addr size : ℕ) (h : Heap)
    → addr % 8 ≡ 0
    → addr + 8 ≤ 2 ^ 64
    → 16 ≤ size
    → add_free_region addr size h ≡ ok (node addr size ∷ h)
unfolding add_free_region
add_free_region-ok addr size h al low holds =
    let e : align_up addr 8 ≡ addr = omega (arith, align_up-lem addr 3 (omega arith) low) in
    let t = eq→== (align_up addr 8) addr e in rw t (ground arith)

-- A part of a region is apart from what the region is apart from.
abbrev Inside : ListNode → ListNode → Type 0
Inside q r = (r.addr ≤ q.addr) × (q.addr + q.size ≤ r.addr + r.size)

Apart-Inside : (q r : ListNode) (h : Heap) → Inside q r → All (Apart r) h → All (Apart q) h
Apart-Inside q r [] i a = tt
Apart-Inside q r (x ∷ h) i a = (ground arith, Apart-Inside q r h i a.1)

-- What a call of `alloc` that serves `n` bytes leaves.
pub record IsServed (h : Heap) (n align p : ℕ) (h' : Heap) : Type 0 where
  pub multiple : p % align ≡ 0
  pub heap : IsHeap (node p n ∷ h')
  pub covered : Covers h (node p n ∷ h')

module _ (n j : ℕ) (three : 3 ≤ j) (eight : n % 8 ≡ 0) (holds : 16 ≤ n) (h : Heap) (r : ListNode)
    (start : ℕ) (rest : Heap) (v : IsHeap (r ∷ rest)) (covers : Covers h (r ∷ rest))
    (s : Serves n j r start) where
  start_eight : start % 8 ≡ 0
  start_eight = ground (arith, s.multiple, eight_divides (round_up r.addr j) j three)

  block_IsRegion : IsRegion (node start n)
  block_IsRegion =
      let w = v.0.0 in
      record {
        above = omega (arith, s.from, w.above);
        aligned = start_eight;
        holds = holds;
        below = omega (arith, s.to, w.below);
      }

  fits_word : start + n < 2 ^ 64
  fits_word = omega (arith, s.to, v.0.0.below)

  split_exact : start + n ≡ r.addr + r.size → split n (r, start, rest) ≡ ok (start, rest)
  unfolding split checked_add
  split_exact e = let f = fits_word in rw (lt→ltb (start + n) (2 ^ 64) f) (ground arith)

  abbrev remainder : ListNode
  remainder = node (start + n) (r.addr + r.size - (start + n))

  split_more :
      start + n + 16 ≤ r.addr + r.size → split n (r, start, rest) ≡ ok (start, remainder ∷ rest)
  unfolding split checked_add
  split_more e =
      let f = fits_word in
      let w = v.0.0.below in
      let x : sub64 (end_addr r) (start + n) ≡ r.addr + r.size - (start + n) = omega arith in
      let a = start_eight in
      rw (
        lt→ltb (start + n) (2 ^ 64) f,
        x,
        lt→ltb 0 (r.addr + r.size - (start + n)) (omega arith),
        add_free_region-ok (start + n) (r.addr + r.size - (start + n)) rest (omega arith)
            (omega arith) (omega arith),
      )

  block-Apart : All (Apart (node start n)) rest
  block-Apart = Apart-Inside (node start n) r rest (s.from, s.to) v.0.1

  multiple : start % 2 ^ j ≡ 0
  multiple = ap (λ (t : ℕ). t % 2 ^ j) s.multiple ∙ mul-mod_left (round_up r.addr j) (2 ^ j)

  outside : (x : ListNode) → Apart x r → (q : ListNode) → Inside q r → Apart x q
  outside x a q i = ground arith

  exact_fit :
      start + n ≡ r.addr + r.size
      → Returns (λ (p, h'). IsServed h n (2 ^ j) p h') (split n (r, start, rest))
  exact_fit e = rw (split_exact e) (record {
    multiple = multiple;
    heap = ((block_IsRegion, block-Apart), v.1);
    covered = λ x a. let b = covers x a in (outside x b.0 (node start n) (s.from, s.to), b.1);
  })

  remainder-IsRegion : start + n + 16 ≤ r.addr + r.size → IsRegion remainder
  remainder-IsRegion e =
      let a = start_eight in
      let w = v.0.0 in
      record {
        above = omega arith;
        aligned = omega arith;
        holds = omega arith;
        below = omega (arith, w.below);
      }

  with_rest :
      start + n + 16 ≤ r.addr + r.size
      → Returns (λ (p, h'). IsServed h n (2 ^ j) p h') (split n (r, start, rest))
  with_rest e =
      let from = s.from in
      let in_it : Inside remainder r = (omega arith, omega arith) in
      rw (split_more e) (record {
        multiple = multiple;
        heap = (
          (block_IsRegion, (inl (omega arith), block-Apart)),
          ((remainder-IsRegion e, Apart-Inside remainder r rest in_it v.0.1), v.1),
        );
        covered = λ x a.
            let b = covers x a in
            (outside x b.0 (node start n) (s.from, s.to), (outside x b.0 remainder in_it, b.1));
      })

  pub split-IsServed : Returns (λ (p, h'). IsServed h n (2 ^ j) p h') (split n (r, start, rest))
  split-IsServed = elim s.rest [ inl e ↦ exact_fit e | inr e ↦ with_rest e ]
