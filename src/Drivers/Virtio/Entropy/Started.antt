-- ===== src/Drivers/Virtio/Entropy/Started.antt =====
-- What `Entropy::init` leaves in the registers.
use lsd_limine.Prelude.{
  ℕ, ◌%◌, ◌^◌, ◌≡◌, Bool, refl, if◌then◌else◌, bit_or, Bool-cases, ◌∙◌, inl, inr,
}
use lsd_limine.Drivers.Virtio.Header.{
  Device, set_up, negotiate, queue_desc, queue_avail, queue_used, dev_feat_sel, driver_feat_sel,
  driver_ok, flag_bits, status_field,
}
use lsd_limine.Drivers.Virtio.Header.Protocol.{View, IsVirtio, observe}
use lsd_limine.Drivers.Virtio.Header.Queues.{with_queue, set_up-told_avail_first}
use lsd_limine.Drivers.Virtio.Header.Start.{
  no_features, started, set_flag-view, negotiate-started, selects_device_first,
}
use lsd_limine.Drivers.Virtio.Input.Started.{told_of}
use lsd_limine.Drivers.Virtio.Splitqueue.Regions.{DeviceQueue}
use lsd_limine.Drivers.Virtio.Entropy.{start}

abbrev pub one_queue : DeviceQueue → ℕ → View → View
one_queue q x v = with_queue 0 (told_of q) (started x v)

last_flag :
    (accepts : (ℕ → ℕ) → Bool) (q : DeviceQueue) (v : View)
    → observe accepts status_field 0
        (bit_or (if accepts (no_features v) then 11 else 3) (flag_bits driver_ok))
        (one_queue q (if accepts (no_features v) then 11 else 3) v)
      ≡ one_queue q (if accepts (no_features v) then 15 else 7) v
unfolding observe flag_bits
last_flag accepts q v = elim (Bool-cases (accepts (no_features v))) [
  | inl taken ↦ rw taken refl
  | inr left ↦ rw left refl
]

-- The queue is set up with the addresses of its parts, and `DRIVER_OK` is set, also where the device
-- has refused the features.
pub start-view :
    {S : Type 0} (d : Device S) (accepts : (ℕ → ℕ) → Bool) (h : IsVirtio accepts d)
    (q : DeviceQueue) (s : S)
    → h.view (start d q s)
      ≡ one_queue q (if accepts (no_features (h.view s)) then 15 else 7) (h.view s)
unfolding start
start-view d accepts h q s =
    let x : ℕ = if accepts (no_features (h.view s)) then 11 else 3 in
    let s1 = negotiate d dev_feat_sel driver_feat_sel s in
    let e1 =
      negotiate-started d accepts h dev_feat_sel driver_feat_sel (selects_device_first d accepts h)
        s in
    let s2 =
      set_up d 0 (q.queue.queue_size % 2 ^ 32) (queue_avail, q.available_at)
        (queue_desc, q.descriptors_at) (queue_used, q.used_at) s1 in
    let e2 =
      set_up-told_avail_first d accepts h 0 (started x (h.view s)) s1 q.descriptors_at
        q.available_at q.used_at (q.queue.queue_size % 2 ^ 32) e1 in
    set_flag-view d accepts h s2 (one_queue q x (h.view s)) driver_ok e2
    ∙ last_flag accepts q (h.view s)
