-- ===== src/Memory/Dma/Regions.antt =====
-- How large a region is, and what it holds.
use native.Mathlib.Nat.{mul-le-mul_left}
use native.Mathlib.Decide.{dec_lt}
use lsd_limine.Prelude.{
  ℕ, zero, suc, ◌+◌, ◌*◌, ◌%◌, ◌^◌, ◌≤◌, ◌<◌, ◌≡◌, ◌⊎◌, true, some, ok, Returns, refl, arith,
  Bool-cases, inl, inr, add64, ne→==, ◌==◌, ==_refl, ◌∙◌,
}
use lsd_limine.Memory.Pmm.{FreeListEntry, Cells, FreeList, claim_continuous}
use lsd_limine.Memory.Dma.{
  Bytes, DmaRegion, frames_for, zero_bytes, new_raw, get, false, none, Option, ltb, ◌-◌, entry_byte,
  changed_byte, link_bytes,
}

-- The frames hold the bytes, and one frame fewer would not.
pub frames_for-bounds :
    (size : ℕ)
    → size < 2 ^ 64
    → (size ≤ frames_for size * 4096) × (frames_for size * 4096 < size + 4096)
unfolding frames_for
frames_for-bounds size h = elim (Bool-cases (size % 4096 == 0)) [
  | inl whole ↦ rw whole (ground arith, ground arith)
  | inr part ↦ rw part (ground arith, ground arith)
]

zero_inside :
    (ptr n : ℕ) (m : Bytes) (b : ℕ)
    → ptr + n ≤ 2 ^ 64
    → ptr ≤ b
    → b < ptr + n
    → zero_bytes ptr n m b ≡ 0
unfolding zero_bytes
zero_inside ptr zero m b fits from to = absurd (omega arith)
zero_inside ptr (suc n) m b fits from to = elim (Bool-cases (b == add64 ptr n)) [
  | inl last ↦ rw last
  | inr before ↦ rw before (zero_inside ptr n m b (omega arith) from (ground arith))
]

zero_outside :
    (ptr n : ℕ) (m : Bytes) (b : ℕ)
    → ptr + n ≤ 2 ^ 64
    → (b < ptr) ⊎ (ptr + n ≤ b)
    → zero_bytes ptr n m b ≡ m b
unfolding zero_bytes
zero_outside ptr zero m b fits out = refl
zero_outside ptr (suc n) m b fits out =
    let other : (b == add64 ptr n) ≡ false = ground arith in
    rw other (zero_outside ptr n m b (omega arith) (ground arith))

link_bytes-behind :
    (before now : Cells) (m : Bytes) (b : ℕ) → 16 ≤ b % 4096 → link_bytes before now m b ≡ m b
unfolding link_bytes
link_bytes-behind before now m b h =
    let off : ltb (b % 4096) 16 ≡ false = ground arith in rw off refl

changed_byte-same : (o : Option FreeListEntry) (i x : ℕ) → changed_byte o o i x ≡ x
unfolding changed_byte
changed_byte-same none i x = refl
changed_byte-same (some e) i x = rw (==_refl (entry_byte e i)) refl

link_bytes-same :
    (before now : Cells) (m : Bytes) (b : ℕ)
    → now (b - b % 4096) ≡ before (b - b % 4096)
    → link_bytes before now m b ≡ m b
unfolding link_bytes
link_bytes-same before now m b h =
    let e : changed_byte (before (b - b % 4096)) (now (b - b % 4096)) (b % 4096) (m b) ≡ m b =
      rw h (changed_byte-same (before (b - b % 4096)) (b % 4096) (m b)) in
    elim (Bool-cases (ltb (b % 4096) 16)) [ inl on ↦ rw on e | inr off ↦ rw off refl ]

link_bytes-kept :
    (before now : Cells) (m : Bytes) (b : ℕ)
    → (16 ≤ b % 4096) ⊎ (now (b - b % 4096) ≡ before (b - b % 4096))
    → link_bytes before now m b ≡ m b
link_bytes-kept before now m b (inl behind) = link_bytes-behind before now m b behind
link_bytes-kept before now m b (inr same) = link_bytes-same before now m b same

-- Where the claim gives frames that are not at null and lie in the address space, a region that is
-- to be cleared begins at them, its physical address is theirs less the offset, and its bytes are 0.
-- Every other byte is what it was, but for those of an entry of the free list, in the first 16
-- bytes of its frame, that the claim has changed.
pub new_raw-cleared :
    (hhdm size elements ptr : ℕ) (s s' : FreeList) (m : Bytes)
    → claim_continuous hhdm (frames_for size) s ≡ ok (some ptr, s')
    → 0 < ptr
    → hhdm ≤ ptr
    → ptr + size ≤ 2 ^ 64
    → ptr < 2 ^ 64
    → Returns
        (λ (r, t, m').
          (r.virt ≡ ptr)
          × (r.phys + hhdm ≡ ptr)
          × (r.elements ≡ elements)
          × (t ≡ s')
          × ((b : ℕ) → ptr ≤ b → b < ptr + size → m' b ≡ 0)
          × ((b : ℕ)
              → (b < ptr) ⊎ (ptr + size ≤ b)
              → (16 ≤ b % 4096) ⊎ (s'.cells (b - b % 4096) ≡ s.cells (b - b % 4096))
              → m' b ≡ m b))
        (new_raw hhdm size elements true s m)
unfolding new_raw
new_raw-cleared hhdm size elements ptr s s' m claimed pos above fits below =
    let n = link_bytes s.cells s'.cells m in
    rw (claimed, ne→== ptr 0 (omega arith))
      (
        refl,
        omega arith,
        refl,
        refl,
        λ b. zero_inside ptr size n b fits,
        λ b out kept.
            zero_outside ptr size n b fits out ∙ link_bytes-kept s.cells s'.cells m b kept,
      )

-- Where a region lies in the address space, an element of it starts as far from the region's start
-- in physical memory as through the pointer, and it ends in the region; none is given past the last.
pub get-element :
    (element_size index : ℕ) (r : DmaRegion)
    → r.phys + element_size * r.elements < 2 ^ 64
    → r.virt + element_size * r.elements < 2 ^ 64
    → ((index < r.elements)
        × (element_size * index + element_size ≤ element_size * r.elements)
        × (get element_size r index
            ≡ some (record {
              phys = r.phys + element_size * index;
              virt = r.virt + element_size * index;
            })))
      ⊎ ((r.elements ≤ index) × (get element_size r index ≡ none))
unfolding get
get-element element_size index r p v = elim (dec_lt index r.elements) [
  | yes lt ↦
      let w : element_size * (index + 1) ≤ element_size * r.elements =
        mul-le-mul_left element_size (omega arith) in
      let e : element_size * index + element_size ≤ element_size * r.elements = omega arith in
      inl (lt, e, ground arith)
  | no past ↦ inr (omega arith, ground arith)
]
