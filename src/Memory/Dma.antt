-- ===== src/Memory/Dma.antt =====
-- LSD/src/memory/dma.rs: regions of frames that are shared with devices. A region is its physical
-- address, its pointer and the number of its elements; a state is the free list and the bytes of
-- memory, of which the entries of the list are the first 16 of each free frame. `element_size` is `size_of::<T>()`.
pub mod Regions
mod Tests
use lsd_limine.Prelude.{
  ℕ, zero, suc, ◌+◌, ◌-◌, ◌*◌, ◌/◌, ◌%◌, ◌^◌, Bool, not, Option, none, some, ltb, ◌==◌,
  if◌then◌else◌, Run, ok, panic, ◌>>=◌, ◌>>◌, assert, unwrap, add64, sub64, mul64, false, true,
}
use lsd_limine.Memory.Pmm.{FreeListEntry, Cells, FreeList, frame_size, claim_continuous}

abbrev pub Bytes : Type 0
Bytes = ℕ → ℕ

pub record DmaRegion : Type 0 where
  pub phys : ℕ
  pub virt : ℕ
  pub elements : ℕ

pub record DmaElement : Type 0 where
  pub phys : ℕ
  pub virt : ℕ

-- The frames that hold so many bytes.
unfoldable pub frames_for : ℕ → ℕ
frames_for size = if size % 4096 == 0 then size / 4096 else add64 (size / 4096) 1

-- The loop that writes zeros; its last round is written first.
unfoldable pub zero_bytes : ℕ → ℕ → Bytes → Bytes
zero_bytes ptr zero m b = m b
zero_bytes ptr (suc n) m b = if b == add64 ptr n then 0 else zero_bytes ptr n m b

-- A byte of an entry, of its word `prev` or behind that its word `next`, low byte first. The struct
-- has no `repr(C)`; the order of its two words is that of their declaration here.
unfoldable pub entry_byte : FreeListEntry → ℕ → ℕ
entry_byte e i =
    if ltb i 8 then e.prev / 2 ^ (8 * i) % 2 ^ 8 else e.next / 2 ^ (8 * (i - 8)) % 2 ^ 8

-- A byte where one entry was written over another.
unfoldable pub changed_byte : Option FreeListEntry → Option FreeListEntry → ℕ → ℕ → ℕ
changed_byte before none i x = x
changed_byte none (some e) i x = entry_byte e i
changed_byte (some o) (some e) i x = if entry_byte o i == entry_byte e i then x else entry_byte e i

-- The bytes of memory when the entries in it have changed: these begin frames.
unfoldable pub link_bytes : Cells → Cells → Bytes → Bytes
unfolding changed_byte entry_byte
link_bytes before now m b =
    let frame = b - b % frame_size in
    if ltb (b % frame_size) 16
    then changed_byte (before frame) (now frame) (b % frame_size) (m b)
    else m b

-- What `new_many`, `zeroed_many` and `new_raw` share: the frames are claimed, which changes links in
-- the frames around them, perhaps zeroed, and the region begins at the first.
unfoldable pub new_raw : ℕ → ℕ → ℕ → Bool → FreeList → Bytes → Run (DmaRegion × FreeList × Bytes)
new_raw hhdm size elements clear s m = do
  let before = s.cells
  (claimed, s) ← claim_continuous hhdm (frames_for size) s
  let m = link_bytes before s.cells m
  alloc ← unwrap claimed
  assert (not (alloc == 0))
  ok (
    record { phys = sub64 alloc hhdm; virt = alloc; elements = elements },
    s,
    if clear then zero_bytes alloc size m else m,
  )

unfoldable pub new_many : ℕ → ℕ → ℕ → FreeList → Bytes → Run (DmaRegion × FreeList × Bytes)
new_many hhdm element_size n s m = new_raw hhdm (mul64 element_size n) n false s m

unfoldable pub zeroed_many : ℕ → ℕ → ℕ → FreeList → Bytes → Run (DmaRegion × FreeList × Bytes)
zeroed_many hhdm element_size n s m = new_raw hhdm (mul64 element_size n) n true s m

-- `DmaRegion::get`.
unfoldable pub get : ℕ → DmaRegion → ℕ → Option DmaElement
get element_size r index =
    if ltb index r.elements
    then some (record {
      phys = add64 r.phys (mul64 element_size index);
      virt = add64 r.virt (mul64 element_size index);
    })
    else none
