-- ===== src/Drivers/Virtio/Input.antt =====
-- LSD/src/drivers/virtio/input/mod.rs and structs.rs: the driver of an input device. What is
-- printed is left out, but for the name that `handle_int` prints.
pub mod Started
pub mod Placed
pub mod Commands
pub mod Answers
use lsd_limine.Prelude.{
  ℕ, zero, suc, ◌+◌, ◌%◌, ◌^◌, Run, ok, panic, unwrap, ◌>>=◌, ◌>>◌, some, none, List, [], ◌∷◌,
  add64, assert, ltb, ◌==◌, not, if◌then◌else◌, true,
}
use lsd_limine.Memory.Pmm.{FreeList}
use lsd_limine.Memory.Dma.{Bytes, new_raw}
use lsd_limine.Drivers.Virtio.Splitqueue.{
  VirtqueueDescriptor, alloc_descriptor, write, read, push, pop,
}
use lsd_limine.Drivers.Virtio.Splitqueue.Regions.{DeviceQueue, new_queue}
use lsd_limine.Drivers.Virtio.Header.{
  Device, set_up, negotiate, set_flag, notify, ack, driver_ok, queue_desc, queue_avail, queue_used,
  dev_feat_sel, driver_feat_sel, int_status,
}

pub record Input : Type 0 where
  pub eventqueue : DeviceQueue
  pub statusqueue : DeviceQueue

pub data InputConfigSelect : Type 0 where
  unset id_name id_serial id_dev_ids prop_bits ev_bits abs_info : InputConfigSelect

unfoldable pub select_code : InputConfigSelect → ℕ
select_code unset = 0x00
select_code id_name = 0x01
select_code id_serial = 0x02
select_code id_dev_ids = 0x03
select_code prop_bits = 0x10
select_code ev_bits = 0x11
select_code abs_info = 0x12

-- `size_of::<InputConfig>()`: eight bytes and the union of 128.
abbrev pub config_size : ℕ
config_size = 136

-- `*ptr = bytes`.
unfoldable pub store : ℕ → List ℕ → Bytes → Bytes
store ptr [] m = m
store ptr (x ∷ xs) m = store (add64 ptr 1) xs (λ b. if b == ptr then x else m b)

abbrev pub zeros : ℕ → List ℕ
zeros zero = []
zeros (suc n) = 0 ∷ zeros n

-- The bytes of the `InputConfig` that `command` makes: `select`, `subsel`, `size`, five reserved
-- and the bitmap.
unfoldable pub config_bytes : InputConfigSelect → ℕ → List ℕ
unfolding select_code
config_bytes select subsel = select_code select ∷ subsel ∷ 0 ∷ zeros (5 + 128)

-- The bytes of `union.string` that are printed; an index past 127 panics.
unfoldable pub print_name : ℕ → ℕ → ℕ → Bytes → Run (List ℕ)
print_name ptr index zero m = ok []
print_name ptr index (suc n) m = do
  assert (ltb index 128)
  rest ← print_name ptr (index + 1) n m
  ok (m (add64 (add64 ptr 8) index) ∷ rest)

-- What `handle_int` does with a configuration. A select that is no `IDName` panics; for a byte that
-- is no `InputConfigSelect` at all the source promises nothing, and it panics here too.
unfoldable pub answer : ℕ → Bytes → Run (List ℕ)
unfolding print_name
answer ptr m =
    if m ptr == 0x01
    then (if not (m (add64 ptr 2) == 0) then print_name ptr 0 (m (add64 ptr 2)) m else ok [])
    else panic

-- The descriptor of the entry that the device has used, of the status queue or else of the event
-- queue.
unfoldable pub used_descriptor : Input → Run (VirtqueueDescriptor × Input)
used_descriptor i = do
  (found, used) ← pop i.statusqueue.queue.used
  let i = record i {
    statusqueue = record i.statusqueue { queue = record i.statusqueue.queue { used = used } };
  }
  elim found [
    | some e ↦ do desc ← read i.statusqueue.queue.descriptors (e.start_index % 2 ^ 16); ok (desc, i)
    | none ↦ do
      (found, used) ← pop i.eventqueue.queue.used
      e ← unwrap found
      let i = record i {
        eventqueue = record i.eventqueue { queue = record i.eventqueue.queue { used = used } };
      }
      desc ← read i.eventqueue.queue.descriptors (e.start_index % 2 ^ 16)
      ok (desc, i)
  ]

module _ {S : Type 0} (d : Device S) where
  -- A state: the free list, the bytes of memory, and the device.
  pub record State : Type 0 where
    pub free : FreeList
    pub bytes : Bytes
    pub device : S

  -- What `Input::new` does with the device.
  unfoldable pub start : Input → S → S
  unfolding set_up negotiate set_flag
  start i s =
      let s = negotiate d driver_feat_sel dev_feat_sel s in
      let e = i.eventqueue in
      let s =
        set_up d 0 (e.queue.queue_size % 2 ^ 32) (queue_desc, e.descriptors_at)
          (queue_avail, e.available_at) (queue_used, e.used_at) s in
      let t = i.statusqueue in
      let s =
        set_up d 1 (t.queue.queue_size % 2 ^ 32) (queue_desc, t.descriptors_at)
          (queue_avail, t.available_at) (queue_used, t.used_at) s in
      set_flag d driver_ok s

  unfoldable pub new : ℕ → ℕ → State → Run (Input × State)
  unfolding start
  new hhdm queue_size s = do
    (event, free, bytes) ← new_queue hhdm queue_size s.free s.bytes
    (status, free, bytes) ← new_queue hhdm queue_size free bytes
    let i : Input = record { eventqueue = event; statusqueue = status }
    ok (i, record { free = free; bytes = bytes; device = start i s.device })

  unfoldable pub command : ℕ → InputConfigSelect → ℕ → Input → State → Run (Input × State)
  unfolding store config_bytes notify
  command hhdm select subsel i s = do
    (region, free, bytes) ← new_raw hhdm config_size 1 true s.free s.bytes
    let bytes = store region.virt (config_bytes select subsel) bytes
    let descriptor : VirtqueueDescriptor = record {
      address = region.phys;
      length = config_size;
      flags = 2;
      next = 0;
    }
    let (given, q) = alloc_descriptor i.statusqueue.queue
    index ← unwrap given
    descriptors ← write q.descriptors index descriptor
    available ← push q.available 0
    let q = record q { descriptors = descriptors; available = available }
    ok (
      record i { statusqueue = record i.statusqueue { queue = q } },
      record { free = free; bytes = bytes; device = notify d 1 s.device },
    )

  unfoldable pub init : ℕ → State → Run (Input × State)
  unfolding new command
  init hhdm s = do (i, s) ← new hhdm 8 s; command hhdm id_name 0 i s

  -- `handle_int`, with the name that it prints.
  unfoldable pub handle_int : ℕ → Input → State → Run (List ℕ × Input × State)
  unfolding used_descriptor answer ack
  handle_int hhdm i s = do
    let status = d.read int_status s.device
    (desc, i) ← used_descriptor i
    name ← answer (add64 desc.address hhdm) s.bytes
    ok (name, i, record s { device = ack d status s.device })
