-- ===== src/Drivers/Virtio/Input/Started.antt =====
-- What `Input::new` leaves in the registers, and the steps of the protocol that it takes.
use lsd_limine.Prelude.{
  ℕ, ◌%◌, ◌^◌, ◌≡◌, Bool, refl, sym, ap, if◌then◌else◌, bit_or, Bool-cases, ◌∙◌, inl, inr, ◌&&◌,
  false, arith,
}
use lsd_limine.Drivers.Virtio.Header.Order.{
  watched, watched-IsVirtio, set_flag-watched, negotiate-keeps, set_up-adds, proper, and_true_right,
}
use lsd_limine.Drivers.Virtio.Header.{
  Device, negotiate, driver_feat_sel, dev_feat_sel, flag_bits, status_field, set_up, queue_desc,
  driver_ok, queue_avail, queue_used,
}
use lsd_limine.Drivers.Virtio.Header.Protocol.{View, QueueView, IsVirtio, observe, Offer, allowed}
use lsd_limine.Drivers.Virtio.Header.Queues.{told, with_queue, set_up-told}
use lsd_limine.Drivers.Virtio.Header.Start.{
  no_features, started, set_flag-view, negotiate-started, selects_driver_first,
}
use lsd_limine.Drivers.Virtio.Splitqueue.Regions.{DeviceQueue}
use lsd_limine.Drivers.Virtio.Input.{Input, start, true}

abbrev pub told_of : DeviceQueue → QueueView
told_of q = told q.descriptors_at q.available_at q.used_at (q.queue.queue_size % 2 ^ 32)

-- The view with both queues set up.
abbrev pub both_queues : Input → ℕ → View → View
both_queues i x v =
    with_queue 1 (told_of i.statusqueue) (with_queue 0 (told_of i.eventqueue) (started x v))

last_flag :
    (accepts : (ℕ → ℕ) → Bool) (i : Input) (v : View)
    → observe accepts status_field 0
        (bit_or (if accepts (no_features v) then 11 else 3) (flag_bits driver_ok))
        (both_queues i (if accepts (no_features v) then 11 else 3) v)
      ≡ both_queues i (if accepts (no_features v) then 15 else 7) v
unfolding observe flag_bits
last_flag accepts i v = elim (Bool-cases (accepts (no_features v))) [
  | inl taken ↦ rw taken refl
  | inr left ↦ rw left refl
]

last_allowed :
    (O : Offer) (accepts : (ℕ → ℕ) → Bool) (i : Input) (v : View)
    → allowed O status_field 0
        (bit_or (if accepts (no_features v) then 11 else 3) (flag_bits driver_ok))
        (both_queues i (if accepts (no_features v) then 11 else 3) v)
      ≡ accepts (no_features v)
unfolding allowed flag_bits
last_allowed O accepts i v = elim (Bool-cases (accepts (no_features v))) [
  | inl taken ↦ rw taken refl
  | inr left ↦ rw left refl
]

and_false : (b : Bool) → (b && false) ≡ false
and_false b = ground arith

-- Whether the parts of the queue with an index are aligned and its size is legal.
abbrev pub proper_queue : Offer → ℕ → DeviceQueue → Bool
proper_queue O n q =
    proper O n q.descriptors_at q.available_at q.used_at (q.queue.queue_size % 2 ^ 32)

module _ {S : Type 0} (d : Device S) (accepts : (ℕ → ℕ) → Bool) (h : IsVirtio accepts d) (i : Input)
    (s : S) where
  -- Both queues are set up with the addresses of their parts, and `DRIVER_OK` is set, also where
  -- the device has refused the features.
  pub start-view :
      h.view (start d i s)
      ≡ both_queues i (if accepts (no_features (h.view s)) then 15 else 7) (h.view s)
  unfolding start
  start-view =
      let x : ℕ = if accepts (no_features (h.view s)) then 11 else 3 in
      let s1 = negotiate d driver_feat_sel dev_feat_sel s in
      let e1 =
        negotiate-started d accepts h driver_feat_sel dev_feat_sel
          (selects_driver_first d accepts h) s in
      let e = i.eventqueue in
      let s2 =
        set_up d 0 (e.queue.queue_size % 2 ^ 32) (queue_desc, e.descriptors_at)
          (queue_avail, e.available_at) (queue_used, e.used_at) s1 in
      let e2 =
        set_up-told d accepts h 0 (started x (h.view s)) s1 e.descriptors_at e.available_at
          e.used_at (e.queue.queue_size % 2 ^ 32) e1 in
      let t = i.statusqueue in
      let s3 =
        set_up d 1 (t.queue.queue_size % 2 ^ 32) (queue_desc, t.descriptors_at)
          (queue_avail, t.available_at) (queue_used, t.used_at) s2 in
      let e3 =
        set_up-told d accepts h 1 (with_queue 0 (told_of e) (started x (h.view s))) s2
          t.descriptors_at t.available_at t.used_at (t.queue.queue_size % 2 ^ 32) e2 in
      set_flag-view d accepts h s3 (both_queues i x (h.view s)) driver_ok e3
      ∙ last_flag accepts i (h.view s)

module _ (O : Offer) {S : Type 0} (d : Device S) (accepts : (ℕ → ℕ) → Bool) (h : IsVirtio accepts d)
    (i : Input) (s : S) where
  -- Every write that `start` makes is allowed at its time exactly where the device accepts the
  -- features, the parts of both queues are aligned as the protocol wants, and their sizes are powers
  -- of two that the device's largest sizes do not exceed. Else the driver goes on against the
  -- protocol.
  pub start-watched : (start (watched O d accepts h) i (s, true)).1 ≡ (
      accepts (no_features (h.view s))
      && (proper_queue O 0 i.eventqueue && proper_queue O 1 i.statusqueue))
  unfolding start
  start-watched =
      let m = watched O d accepts h in
      let w = watched-IsVirtio O d accepts h in
      let v = h.view s in
      let x : ℕ = if accepts (no_features v) then 11 else 3 in
      let s1 = negotiate m driver_feat_sel dev_feat_sel (s, true) in
      let e1 =
        negotiate-started m accepts w driver_feat_sel dev_feat_sel
          (selects_driver_first m accepts w) (s, true) in
      let e = i.eventqueue in
      let v1 = with_queue 0 (told_of e) (started x v) in
      let s2 =
        set_up m 0 (e.queue.queue_size % 2 ^ 32) (queue_desc, e.descriptors_at)
          (queue_avail, e.available_at) (queue_used, e.used_at) s1 in
      let e2 =
        set_up-told m accepts w 0 (started x v) s1 e.descriptors_at e.available_at e.used_at
          (e.queue.queue_size % 2 ^ 32) e1 in
      let t = i.statusqueue in
      let s3 =
        set_up m 1 (t.queue.queue_size % 2 ^ 32) (queue_desc, t.descriptors_at)
          (queue_avail, t.available_at) (queue_used, t.used_at) s2 in
      let e3 =
        set_up-told m accepts w 1 v1 s2 t.descriptors_at t.available_at t.used_at
          (t.queue.queue_size % 2 ^ 32) e2 in
      let final =
        set_flag-watched O d accepts h s3 (both_queues i x v) driver_ok (accepts (no_features v)) e3
          (last_allowed O accepts i v) in
      elim (Bool-cases (accepts (no_features v))) [
        | inr left ↦ final ∙ rw left (and_false s3.1)
        | inl taken ↦
            let eleven : x ≡ 11 = rw taken refl in
            let k1 : s1.1 ≡ true = negotiate-keeps O d accepts h (s, true) in
            let k2 : s2.1 ≡ (s1.1 && proper_queue O 0 e) =
              set_up-adds O d accepts h 0 (started x v) eleven s1 e.descriptors_at e.available_at
                e.used_at (e.queue.queue_size % 2 ^ 32) e1 refl in
            let k3 : s3.1 ≡ (s2.1 && proper_queue O 1 t) =
              set_up-adds O d accepts h 1 v1 eleven s2 t.descriptors_at t.available_at t.used_at
                (t.queue.queue_size % 2 ^ 32) e2 refl in
            final
            ∙ ap (λ (b : Bool). s3.1 && b) taken
            ∙ and_true_right s3.1
            ∙ k3
            ∙ ap (λ (b : Bool). b && proper_queue O 1 t)
                (k2 ∙ ap (λ (b : Bool). b && proper_queue O 0 e) k1)
            ∙ ap (λ (b : Bool). b && (proper_queue O 0 e && proper_queue O 1 t)) (sym taken)
      ]
