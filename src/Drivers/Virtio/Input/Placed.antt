-- ===== src/Drivers/Virtio/Input/Placed.antt =====
-- Where the queues of an input device lie when it has been started.
use lsd_limine.Prelude.{
  ℕ, ◌+◌, ◌*◌, ◌^◌, ◌≤◌, ◌<◌, ◌≡◌, Bool, List, ◌∷◌, inr, if◌then◌else◌, ok, Returns, Returns-bind,
  arith, refl, subst, ap, ◌>>=◌,
}
use native.Mathlib.Nat.{one-le-pow}
use lsd_limine.Memory.Pmm.{FreeList}
use lsd_limine.Memory.Pmm.Linked.{IsFreeList}
use lsd_limine.Memory.Dma.{Bytes}
use lsd_limine.Drivers.Virtio.Splitqueue
use lsd_limine.Drivers.Virtio.Splitqueue.{SplitVirtqueue}
use lsd_limine.Drivers.Virtio.Splitqueue.Free.{Made, zeroed_queue-Made}
use lsd_limine.Drivers.Virtio.Splitqueue.Regions.{
  DeviceQueue, new_queue, AtFrames, new_queue-AtFrames,
}
use lsd_limine.Drivers.Virtio.Header.{Device}
use lsd_limine.Drivers.Virtio.Header.Protocol.{Words, QueueView, View, IsVirtio}
use lsd_limine.Drivers.Virtio.Header.Queues.{words_of}
use lsd_limine.Drivers.Virtio.Header.Start.{no_features}
use lsd_limine.Drivers.Virtio.Input.{Input, State, start, new, Run}
use lsd_limine.Drivers.Virtio.Input.Started.{told_of, start-view}

-- The address that the device reads from the two words.
abbrev pub address_of : Words → ℕ
address_of w = w.low + w.high * 2 ^ 32

-- The device knows a ready queue of `n` entries whose parts are the frames `x1`, `x2` and `x3`.
pub record IsPlaced (hhdm n x1 x2 x3 : ℕ) (q : QueueView) : Type 0 where
  pub desc : address_of q.desc + hhdm ≡ x1
  pub avail : address_of q.avail + hhdm ≡ x2
  pub used : address_of q.used + hhdm ≡ x3
  pub size : q.size ≡ n
  pub ready : q.ready ≡ 1

address_of-words_of :
    (a hhdm x : ℕ) → a + hhdm ≡ x → x < 2 ^ 64 → address_of (words_of a) + hhdm ≡ x
address_of-words_of a hhdm x e fits = omega arith

-- What `new` leaves with both queues placed.
module _ (hhdm n : ℕ) (q0 : SplitVirtqueue) {S : Type 0} (d : Device S) (accepts : (ℕ → ℕ) → Bool)
    (h : IsVirtio accepts d) (x1 x2 x3 x4 x5 x6 y : ℕ) (ys : List ℕ) where
  abbrev pub Placed : View → Input × State d → Type 0
  Placed v (i, s) =
      IsPlaced hhdm n x1 x2 x3 ((h.view s.device).queues 0)
      × IsPlaced hhdm n x4 x5 x6 ((h.view s.device).queues 1)
      × ((h.view s.device).status ≡ (if accepts (no_features v) then 15 else 7))
      × (i.statusqueue.queue ≡ q0)
      × IsFreeList hhdm s.free (y ∷ ys)

module _ (hhdm n : ℕ) (q0 : SplitVirtqueue) (made : Splitqueue.zeroed_queue n ≡ inr q0)
    (small : n ≤ 256) where
  made_size : (q0.queue_size ≡ n) × (0 < n)
  made_size =
      let (k, e, fits, size, _, _, _, _, _) = subst (Made n) made (zeroed_queue-Made n) in
      (size, omega (arith, e, one-le-pow k 2 (omega arith)))

  told_of-IsPlaced :
      (x1 x2 x3 : ℕ) (q : DeviceQueue)
      → q.queue ≡ q0
      → q.descriptors_at + hhdm ≡ x1
      → q.available_at + hhdm ≡ x2
      → q.used_at + hhdm ≡ x3
      → x1 < 2 ^ 64
      → x2 < 2 ^ 64
      → x3 < 2 ^ 64
      → IsPlaced hhdm n x1 x2 x3 (told_of q)
  told_of-IsPlaced x1 x2 x3 q same e1 e2 e3 f1 f2 f3 = record {
    desc = address_of-words_of q.descriptors_at hhdm x1 e1 f1;
    avail = address_of-words_of q.available_at hhdm x2 e2 f2;
    used = address_of-words_of q.used_at hhdm x3 e3 f3;
    size = omega (arith, ap (λ (t : SplitVirtqueue). t.queue_size) same, made_size);
    ready = refl;
  }

  module _ {S : Type 0} (d : Device S) (accepts : (ℕ → ℕ) → Bool) (h : IsVirtio accepts d)
      (x1 x2 x3 x4 x5 x6 y : ℕ) (ys : List ℕ) where
    -- `new`, where it makes queues of at most 256 entries and seven frames are free at least, gives
    -- the first six to the parts of the two queues. The device then knows both queues, by physical
    -- addresses that it reads in two words, as ready.
    pub new-Placed :
        (s : State d)
        → IsFreeList hhdm s.free (x1 ∷ x2 ∷ x3 ∷ x4 ∷ x5 ∷ x6 ∷ y ∷ ys)
        → Returns
            (Placed hhdm n q0 d accepts h x1 x2 x3 x4 x5 x6 y ys (h.view s.device))
            (new d hhdm n s)
    unfolding new
    new-Placed s v =
        let f = v.frames in
        let pos = made_size.1 in
        let i : DeviceQueue → DeviceQueue → Input =
          λ event status. record { eventqueue = event; statusqueue = status } in
        let done : DeviceQueue → DeviceQueue × FreeList × Bytes → Run (Input × State d) =
          λ event (status, free, bytes). ok (
            i event status,
            record { free = free; bytes = bytes; device = start d (i event status) s.device },
          ) in
        Returns-bind (AtFrames hhdm q0 x1 x2 x3 (x4 ∷ x5 ∷ x6 ∷ y ∷ ys))
          (Placed hhdm n q0 d accepts h x1 x2 x3 x4 x5 x6 y ys (h.view s.device))
          (new_queue hhdm n s.free s.bytes)
          (λ (event, free, bytes). new_queue hhdm n free bytes >>= done event)
          (new_queue-AtFrames hhdm n q0 made pos small x1 x2 x3 x4 (x5 ∷ x6 ∷ y ∷ ys) s.free s.bytes
            v)
          (λ (event, free, bytes) (q1, a1, a2, a3, w).
            Returns-bind (AtFrames hhdm q0 x4 x5 x6 (y ∷ ys))
              (Placed hhdm n q0 d accepts h x1 x2 x3 x4 x5 x6 y ys (h.view s.device))
              (new_queue hhdm n free bytes) (done event)
              (new_queue-AtFrames hhdm n q0 made pos small x4 x5 x6 y ys free bytes w)
              (λ (status, free, bytes) (q2, a4, a5, a6, w').
                rw (start-view d accepts h (i event status) s.device) (
                  told_of-IsPlaced x1 x2 x3 event q1 a1 a2 a3 (omega (arith, f.0))
                      (omega (arith, f.1.0)) (omega (arith, f.1.1.0)),
                  told_of-IsPlaced x4 x5 x6 status q2 a4 a5 a6 (omega (arith, f.1.1.1.0))
                      (omega (arith, f.1.1.1.1.0)) (omega (arith, f.1.1.1.1.1.0)),
                  refl,
                  q2,
                  w',
                )))
