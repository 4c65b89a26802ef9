-- ===== src/Drivers/Virtio/Splitqueue/Sizes.antt =====
-- Which sizes `SplitVirtqueue::new` accepts.
use lsd_limine.Prelude.{ℕ, ◌^◌, ◌≤◌, ◌≡◌, Run, ok, panic, fault, out_of_fuel, inl, inr, ◌⊎◌}
use lsd_limine.Memory.Pmm.{FreeList}
use lsd_limine.Memory.Dma.{Bytes}
use lsd_limine.Drivers.Virtio.Splitqueue.{SplitVirtqueue, SplitVirtqueueError}
use lsd_limine.Drivers.Virtio.Splitqueue.Free.{Made}
use lsd_limine.Drivers.Virtio.Splitqueue.Regions.{DeviceQueue}

-- A power of two up to `2 ^ 15`.
abbrev pub Accepted : ℕ → Type 0
Accepted n = (k : ℕ) × (n ≡ 2 ^ k) × (k ≤ 15)

-- What `new` may answer for a size.
abbrev pub Verdict : ℕ → Run (SplitVirtqueueError ⊎ (DeviceQueue × FreeList × Bytes)) → Type 0
Verdict n (ok (inl error)) = Made n (inl error)
Verdict n (ok (inr (q, s, m))) = Made n (inr q.queue)
Verdict n panic = Accepted n
Verdict n fault = Accepted n
Verdict n out_of_fuel = Accepted n

-- A queue that is made of regions is the one that was to be.
abbrev Keeps : SplitVirtqueue → Run (DeviceQueue × FreeList × Bytes) → Type 0
Keeps q (ok (d, s, m)) = d.queue ≡ q
Keeps q panic = Unit
Keeps q fault = Unit
Keeps q out_of_fuel = Unit
