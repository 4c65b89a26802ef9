-- ===== src/Drivers/Virtio/Input/Answers.antt =====
-- What `handle_int` prints, and when it panics.
use lsd_limine.Prelude.{
  ℕ, zero, suc, ◌+◌, ◌≤◌, ◌<◌, ◌≡◌, List, [], ◌∷◌, ok, panic, ltb, refl, arith, add64, lt→ltb,
  Bool-cases, inl, inr, ◌≢◌, length, get_elem?, ◌%◌, ◌^◌, ◌⊎◌, ne→==, ◌==◌, ==→eq,
}
use lsd_limine.Memory.Dma.{Bytes}
use lsd_limine.Drivers.Virtio.Input.{
  print_name, DeviceQueue, used_descriptor, Device, read, Input, State, handle_int, answer, ack,
  some,
}
use lsd_limine.Drivers.Virtio.Splitqueue.{
  SplitVirtqueue, VirtqueueDescriptor, VirtqueueUsedElement, add16, read,
}
use lsd_limine.Drivers.Virtio.Splitqueue.Used.{pop-some, pop-none}
use lsd_limine.Drivers.Virtio.Splitqueue.Regions.{DeviceQueue}
use lsd_limine.Drivers.Virtio.Header.{Device, ack, int_ack, int_status}
use lsd_limine.Drivers.Virtio.Input.{Input, State, used_descriptor, answer, handle_int}

-- The bytes of the name from `index` on.
abbrev pub name_bytes : ℕ → ℕ → ℕ → Bytes → List ℕ
name_bytes ptr index zero m = []
name_bytes ptr index (suc n) m = m (add64 (add64 ptr 8) index) ∷ name_bytes ptr (index + 1) n m

pub print_name-ok :
    (ptr index n : ℕ) (m : Bytes)
    → index + n ≤ 128
    → print_name ptr index n m ≡ ok (name_bytes ptr index n m)
unfolding print_name
print_name-ok ptr index zero m h = refl
print_name-ok ptr index (suc n) m h =
    rw (lt→ltb index 128 (omega arith), print_name-ok ptr (index + 1) n m (omega arith)) refl

pub print_name-panic :
    (ptr index n : ℕ) (m : Bytes) → 128 < index + n → index ≤ 128 → print_name ptr index n m ≡ panic
unfolding print_name
print_name-panic ptr index zero m h k = absurd (omega arith)
print_name-panic ptr index (suc n) m h k = elim (Bool-cases (ltb index 128)) [
  | inl below ↦ rw (below, print_name-panic ptr (index + 1) n m (omega arith) (ground arith)) refl
  | inr last ↦ rw last refl
]

-- The device has used entry `e` of a queue, which names a descriptor.
pub record IsUsed (q : SplitVirtqueue) (e : VirtqueueUsedElement) (desc : VirtqueueDescriptor)
    : Type 0 where
  pub unseen : q.used.last_seen ≢ q.used.queue.index
  pub slots : 0 < length q.used.queue.ring
  pub entry : get_elem? q.used.queue.ring (q.used.last_seen % length q.used.queue.ring) ≡ some e
  pub named : get_elem? q.descriptors (e.start_index % 2 ^ 16) ≡ some desc

-- The queue when the entry has been seen.
abbrev pub seen_entry : DeviceQueue → DeviceQueue
seen_entry q = record q {
  queue = record q.queue {
    used = record q.queue.used { last_seen = add16 q.queue.used.last_seen 1 };
  };
}

used_descriptor-status :
    (i : Input) (e : VirtqueueUsedElement) (desc : VirtqueueDescriptor)
    → IsUsed i.statusqueue.queue e desc
    → used_descriptor i ≡ ok (desc, record i { statusqueue = seen_entry i.statusqueue })
unfolding used_descriptor read
used_descriptor-status i e desc u =
    rw (pop-some i.statusqueue.queue.used e u.unseen u.slots u.entry, u.named) refl

answer-ok :
    (ptr : ℕ) (m : Bytes)
    → m ptr ≡ 1
    → m (add64 ptr 2) ≤ 128
    → answer ptr m ≡ ok (name_bytes ptr 0 (m (add64 ptr 2)) m)
unfolding answer
answer-ok ptr m named short = elim (Bool-cases (m (add64 ptr 2) == 0)) [
  | inl empty ↦
      let none_left : m (add64 ptr 2) ≡ 0 = ==→eq (m (add64 ptr 2)) 0 empty in
      rw (named, none_left) refl
  | inr some_left ↦ rw (named, some_left) (print_name-ok ptr 0 (m (add64 ptr 2)) m (omega arith))
]

-- No name, or one that is too long.
abbrev pub Unanswered : ℕ → Bytes → Type 0
Unanswered ptr m = (m ptr ≢ 1) ⊎ ((m ptr ≡ 1) × (128 < m (add64 ptr 2)))

answer-panic : (ptr : ℕ) (m : Bytes) → Unanswered ptr m → answer ptr m ≡ panic
unfolding answer
answer-panic ptr m (inl other) = rw (ne→== (m ptr) 1 other) refl
answer-panic ptr m (inr (named, long)) =
    rw (named, ne→== (m (add64 ptr 2)) 0 (omega arith))
      (print_name-panic ptr 0 (m (add64 ptr 2)) m (omega (arith, long)) (omega arith))

used_descriptor-idle :
    (i : Input)
    → i.statusqueue.queue.used.last_seen ≡ i.statusqueue.queue.used.queue.index
    → i.eventqueue.queue.used.last_seen ≡ i.eventqueue.queue.used.queue.index
    → used_descriptor i ≡ panic
unfolding used_descriptor
used_descriptor-idle i e e' =
    rw (pop-none i.statusqueue.queue.used e, pop-none i.eventqueue.queue.used e') refl

module _ {S : Type 0} (d : Device S) (hhdm : ℕ) (i : Input) (s : State d) where
  -- Where the device has used an entry of the status queue, whose configuration is a name of at most
  -- 128 bytes, `handle_int` prints these bytes, has seen the entry, and acknowledges the interrupts
  -- that the device had raised.
  pub handle_int-name :
      (e : VirtqueueUsedElement) (desc : VirtqueueDescriptor)
      → IsUsed i.statusqueue.queue e desc
      → let ptr = add64 desc.address hhdm in
        s.bytes ptr ≡ 1
        → s.bytes (add64 ptr 2) ≤ 128
        → handle_int d hhdm i s
          ≡ ok (
            name_bytes ptr 0 (s.bytes (add64 ptr 2)) s.bytes,
            record i { statusqueue = seen_entry i.statusqueue },
            record s { device = d.write int_ack 0 (d.read int_status s.device) s.device },
          )
  unfolding handle_int ack
  handle_int-name e desc u named short =
      rw
        (used_descriptor-status i e desc u, answer-ok (add64 desc.address hhdm) s.bytes named short)
        refl

  -- `handle_int` panics where the device has used no entry of either queue, as when it only tells of
  -- a change of its configuration, and where the entry of the status queue asks for anything but a
  -- name or holds a name of more than 128 bytes.
  pub handle_int-panic :
      ((i.statusqueue.queue.used.last_seen ≡ i.statusqueue.queue.used.queue.index)
          × (i.eventqueue.queue.used.last_seen ≡ i.eventqueue.queue.used.queue.index))
        ⊎ ((e : VirtqueueUsedElement) × (desc : VirtqueueDescriptor) × IsUsed i.statusqueue.queue e
              desc
            × Unanswered (add64 desc.address hhdm) s.bytes)
      → handle_int d hhdm i s ≡ panic
  unfolding handle_int
  handle_int-panic (inl (e, e')) = rw (used_descriptor-idle i e e') refl
  handle_int-panic (inr (e, desc, u, bad)) =
      rw (used_descriptor-status i e desc u, answer-panic (add64 desc.address hhdm) s.bytes bad)
        refl
