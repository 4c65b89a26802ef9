-- ===== src/Drivers/Virtio/Splitqueue/Tests.antt =====
-- A queue of four descriptors.
use lsd_limine.Prelude.{ℕ, [], ◌∷◌, refl, arith, none, some, ◌==◌, if◌then◌else◌, Returns, map, ◌≡◌}
use lsd_limine.Drivers.Virtio.Splitqueue.{
  SplitVirtqueue, VirtqueueAvailable, UsedQueue, VirtqueueUsedElement, repeat, default, drain,
}
use lsd_limine.Memory.Pmm.{FreeList, entry, null}
use lsd_limine.Drivers.Virtio.Splitqueue.Used.{seen, drain-seen}
use lsd_limine.Drivers.Virtio.Splitqueue.Available.{IsPushed, push_all, push_all-IsPushed}

-- The counts are about to wrap.
abbrev available : VirtqueueAvailable
available = record { flags = 0; index = 65535; ring = 0 ∷ 0 ∷ 0 ∷ 0 ∷ [] }

abbrev element : ℕ → VirtqueueUsedElement
element i = record { start_index = i; length = 512 }

abbrev used : UsedQueue
used = record {
  queue = record {
    flags = 0;
    index = 1;
    ring = element 0 ∷ element 1 ∷ element 2 ∷ element 3 ∷ [];
  };
  last_seen = 65535;
}

abbrev queue : SplitVirtqueue
queue = record {
  queue_size = 4;
  freelist = 0 ∷ 1 ∷ [];
  descriptors = repeat 4 default;
  available = available;
  used = used;
}

-- Four frames in a row.
abbrev four_frames : FreeList
four_frames = record {
  head = 0x8000;
  tail = 0xb000;
  len = 4;
  cells = λ a.
      if a == 0x8000
      then some (entry null 0x9000)
      else if a == 0x9000
      then some (entry 0x8000 0xa000)
      else if a == 0xa000
      then some (entry 0x9000 0xb000)
      else if a == 0xb000
      then some (entry 0xa000 null)
      else none;
}

push_all_example :
    Returns (IsPushed 2 65535 (7 ∷ 9 ∷ []) available) (push_all available (7 ∷ 9 ∷ []))
push_all_example =
    push_all-IsPushed 2 65535 (7 ∷ 9 ∷ []) available (omega arith) refl refl (omega arith)

drain_example :
    Returns
      (λ (es, w).
        (map some es ≡ seen used.queue.ring 65535 2) × (w.queue ≡ used.queue) × (w.last_seen ≡ 1))
      (drain 3 used)
drain_example = drain-seen 2 2 3 65535 used (omega arith) refl (omega arith) (omega arith) refl refl
