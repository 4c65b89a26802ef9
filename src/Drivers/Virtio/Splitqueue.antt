-- ===== src/Drivers/Virtio/Splitqueue.antt =====
-- LSD/src/drivers/virtio/splitqueue/mod.rs: the queues that a driver shares with a device. A
-- `DmaRegion` of a slice is the list of its elements; that of `VirtqueueAvailable` or
-- `VirtqueueUsed` is the struct. A `SplitqueueIndex` is its u16. The device's side of the memory is
-- what a call is given.
pub mod Free
pub mod Used
pub mod Available
pub mod Regions
pub mod Sizes
mod Tests
use lsd_limine.Prelude.{
  ℕ, zero, suc, ◌+◌, ◌%◌, ◌^◌, Bool, true, false, Option, none, some, List, [], ◌∷◌, ◌++◌, ltb, leb,
  ◌==◌, if◌then◌else◌, length, get_elem?, set, Run, ok, ◌>>=◌, ◌>>◌, assert, unwrap, ◌⊎◌,
  out_of_fuel, inr, inl,
}

pub data SplitVirtqueueError : Type 0 where
  memory_allocation_error not_power_of_two too_large : SplitVirtqueueError

pub record VirtqueueDescriptor : Type 0 where
  pub address : ℕ
  pub length : ℕ
  pub flags : ℕ
  pub next : ℕ

abbrev pub default : VirtqueueDescriptor
default = record { address = 0; length = 0; flags = 0; next = 0 }

pub record VirtqueueAvailable : Type 0 where
  pub flags : ℕ
  pub index : ℕ
  pub ring : List ℕ

pub record VirtqueueUsedElement : Type 0 where
  pub start_index : ℕ
  pub length : ℕ

pub record VirtqueueUsed : Type 0 where
  pub flags : ℕ
  pub index : ℕ
  pub ring : List VirtqueueUsedElement

pub record UsedQueue : Type 0 where
  pub queue : VirtqueueUsed
  pub last_seen : ℕ

pub record SplitVirtqueue : Type 0 where
  pub queue_size : ℕ
  pub freelist : List ℕ
  pub descriptors : List VirtqueueDescriptor
  pub available : VirtqueueAvailable
  pub used : UsedQueue

abbrev pub add16 : ℕ → ℕ → ℕ
add16 a b = (a + b) % 2 ^ 16

abbrev pub repeat {ℓ} : {A : Type ℓ} → ℕ → A → List A
repeat zero a = []
repeat (suc n) a = a ∷ repeat n a

-- `(a..a + n).collect()`.
abbrev pub range : ℕ → ℕ → List ℕ
range a zero = []
range a (suc n) = a ∷ range (a + 1) n

-- `n.is_power_of_two()`: `n` is a power of two below `2 ^ bits`.
unfoldable pub is_power_of_two : ℕ → ℕ → Bool
is_power_of_two zero n = false
is_power_of_two (suc bits) n = if n == 2 ^ bits then true else is_power_of_two bits n

-- The tests of the size in `new`, and the queue that it makes over three regions of zeros.
unfoldable pub zeroed_queue : ℕ → SplitVirtqueueError ⊎ SplitVirtqueue
zeroed_queue queue_size =
    if is_power_of_two 64 queue_size
    then (if leb queue_size 32768
        then inr (record {
          queue_size = queue_size;
          freelist = range 0 queue_size;
          descriptors = repeat queue_size default;
          available = record { flags = 0; index = 0; ring = repeat queue_size 0 };
          used = record {
            queue = record {
              flags = 0;
              index = 0;
              ring = repeat queue_size (record { start_index = 0; length = 0 });
            };
            last_seen = 0;
          };
        })
        else inl too_large)
    else inl not_power_of_two

-- `VecDeque::pop_back`.
unfoldable pub pop_back : List ℕ → Option (ℕ × List ℕ)
pop_back [] = none
pop_back (x ∷ xs) = elim (pop_back xs) [
  | none ↦ some (x, [])
  | some found ↦ some (found.0, x ∷ found.1)
]

unfoldable pub alloc_descriptor : SplitVirtqueue → Option ℕ × SplitVirtqueue
alloc_descriptor q = elim (pop_back q.freelist) [
  | none ↦ (none, q)
  | some found ↦ (some found.0, record q { freelist = found.1 })
]

unfoldable pub free_descriptor : SplitVirtqueue → ℕ → SplitVirtqueue
free_descriptor q index = record q { freelist = q.freelist ++ index ∷ [] }

-- `DescriptorQueue::write` and `read`; an index out of bounds panics.
unfoldable pub write :
    List VirtqueueDescriptor → ℕ → VirtqueueDescriptor → Run (List VirtqueueDescriptor)
write ds index d = do assert (ltb index (length ds)); ok (set ds index d)

unfoldable pub read : List VirtqueueDescriptor → ℕ → Run VirtqueueDescriptor
read ds index = unwrap (get_elem? ds index)

-- `AvailableQueue::push`. The length as a u16 may be 0, and a remainder by 0 panics.
unfoldable pub push : VirtqueueAvailable → ℕ → Run VirtqueueAvailable
push a index = do
  let len = length a.ring % 2 ^ 16
  assert (ltb 0 len)
  let ring_index = a.index % len
  assert (ltb ring_index (length a.ring))
  ok (record a { index = add16 a.index 1; ring = set a.ring ring_index index })

-- `UsedQueue::pop`.
unfoldable pub pop : UsedQueue → Run (Option VirtqueueUsedElement × UsedQueue)
pop u = if u.last_seen == u.queue.index then ok (none, u) else (do
  assert (ltb 0 (length u.queue.ring))
  used ← unwrap (get_elem? u.queue.ring (u.last_seen % length u.queue.ring))
  ok (some used, record u { last_seen = add16 u.last_seen 1 }))

-- What the iterator of `drain` gives until it ends, with fuel.
unfoldable pub drain : ℕ → UsedQueue → Run (List VirtqueueUsedElement × UsedQueue)
drain zero u = out_of_fuel
drain (suc fuel) u = do
  (used, v) ← pop u
  elim used [ none ↦ ok ([], v) | some e ↦ do (es, w) ← drain fuel v; ok (e ∷ es, w) ]
