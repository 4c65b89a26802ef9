-- ===== src/Drivers/Virtio/Entropy.antt =====
-- LSD/src/drivers/virtio/entropy/mod.rs: the driver of a source of random numbers.
pub mod Started
use lsd_limine.Prelude.{ℕ, ◌%◌, ◌^◌, Run, ok, unwrap, ◌>>=◌, false}
use lsd_limine.Memory.Pmm.{FreeList}
use lsd_limine.Memory.Dma.{Bytes, new_many, zero_bytes}
use lsd_limine.Drivers.Virtio.Splitqueue.{VirtqueueDescriptor, alloc_descriptor, write, push}
use lsd_limine.Drivers.Virtio.Splitqueue.Regions.{DeviceQueue, new_queue}
use lsd_limine.Drivers.Virtio.Header.{
  Device, set_up, negotiate, set_flag, notify, driver_ok, queue_desc, queue_avail, queue_used,
  dev_feat_sel, driver_feat_sel,
}
use lsd_limine.Drivers.Virtio.Input.{State}

module _ {S : Type 0} (d : Device S) where
  -- What `Entropy::init` does with the device; the available ring is told first here.
  unfoldable pub start : DeviceQueue → S → S
  unfolding set_up negotiate set_flag
  start q s =
      let s = negotiate d dev_feat_sel driver_feat_sel s in
      let s =
        set_up d 0 (q.queue.queue_size % 2 ^ 32) (queue_avail, q.available_at)
          (queue_desc, q.descriptors_at) (queue_used, q.used_at) s in
      set_flag d driver_ok s

  unfoldable pub init : ℕ → State d → Run (DeviceQueue × State d)
  unfolding start
  init hhdm s = do
    (q, free, bytes) ← new_queue hhdm 8 s.free s.bytes
    ok (q, record { free = free; bytes = bytes; device = start q s.device })

  unfoldable pub request : ℕ → ℕ → DeviceQueue → State d → Run (DeviceQueue × State d)
  unfolding notify
  request hhdm byte_len q s = do
    (region, free, bytes) ← new_many hhdm 1 byte_len s.free s.bytes
    let desc : VirtqueueDescriptor = record {
      address = region.phys;
      length = byte_len % 2 ^ 32;
      flags = 2;
      next = 0;
    }
    let bytes = zero_bytes region.virt byte_len bytes
    let (given, p) = alloc_descriptor q.queue
    index ← unwrap given
    descriptors ← write p.descriptors index desc
    available ← push p.available 0
    ok (
      record q { queue = record p { descriptors = descriptors; available = available } },
      record { free = free; bytes = bytes; device = notify d 0 s.device },
    )
