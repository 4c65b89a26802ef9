-- ===== src/Drivers/Virtio/Splitqueue/Regions.antt =====
-- The memory of a split queue: `SplitVirtqueue::new` with its three regions.
use lsd_limine.Prelude.{
  ℕ, ◌+◌, ◌*◌, ◌≤◌, ◌<◌, ◌≡◌, Run, ok, panic, inl, inr, List, ◌∷◌, Returns, Returns-bind, true,
  Bool, arith, if◌then◌else◌, ◌>>=◌, ◌>>◌, not, ap, ◌∙◌, ◌==◌, mul64, refl, ◌⊎◌, fault, out_of_fuel,
  sub64, ne→==,
}
use lsd_limine.Memory.Pmm.{FreeList, claim_continuous}
use lsd_limine.Memory.Pmm.Linked.{IsFreeList}
use lsd_limine.Memory.Pmm.Claim.{FirstGiven, claim_continuous-one}
use lsd_limine.Memory.Dma.{
  Bytes, DmaRegion, frames_for, new_raw, zeroed_many, zero_bytes, link_bytes,
}
use lsd_limine.Drivers.Virtio.Splitqueue.{
  SplitVirtqueue, SplitVirtqueueError, zeroed_queue, unwrap, assert,
}

-- A queue and the physical addresses of its regions.
pub record DeviceQueue : Type 0 where
  pub queue : SplitVirtqueue
  pub descriptors_at : ℕ
  pub available_at : ℕ
  pub used_at : ℕ

-- The regions of a queue. A descriptor has 16 bytes; the rings have 4 bytes and 2 or 8 for each
-- entry.
unfoldable pub claim_regions :
    ℕ → ℕ → SplitVirtqueue → FreeList → Bytes → Run (DeviceQueue × FreeList × Bytes)
claim_regions hhdm n q s m = do
  (d, s, m) ← zeroed_many hhdm 16 n s m
  (a, s, m) ← new_raw hhdm (4 + 2 * n) n true s m
  (u, s, m) ← new_raw hhdm (4 + 8 * n) n true s m
  ok (record { queue = q; descriptors_at = d.phys; available_at = a.phys; used_at = u.phys }, s, m)

-- What `SplitVirtqueue::new` does when its size is tested.
unfoldable pub new_on :
    ℕ
    → ℕ
    → FreeList
    → Bytes
    → SplitVirtqueueError ⊎ SplitVirtqueue
    → Run (SplitVirtqueueError ⊎ (DeviceQueue × FreeList × Bytes))
new_on hhdm n s m (inl error) = ok (inl error)
new_on hhdm n s m (inr q) = do made ← claim_regions hhdm n q s m; ok (inr made)

-- `SplitVirtqueue::new`.
unfoldable pub new :
    ℕ → ℕ → FreeList → Bytes → Run (SplitVirtqueueError ⊎ (DeviceQueue × FreeList × Bytes))
unfolding new_on claim_regions
new hhdm n s m = new_on hhdm n s m (zeroed_queue n)

-- `unwrap` of the result.
abbrev unwrap_queue :
    SplitVirtqueueError ⊎ (DeviceQueue × FreeList × Bytes) → Run (DeviceQueue × FreeList × Bytes)
unwrap_queue (inl error) = panic
unwrap_queue (inr made) = ok made

-- `SplitVirtqueue::new(queue_size).unwrap()`.
unfoldable pub new_queue : ℕ → ℕ → FreeList → Bytes → Run (DeviceQueue × FreeList × Bytes)
unfolding new
new_queue hhdm n s m = do made ← new hhdm n s m; unwrap_queue made

unwrap-made :
    (r : Run (DeviceQueue × FreeList × Bytes))
    → ((r >>= λ made. ok (inr made)) >>= unwrap_queue) ≡ r
unwrap-made (ok made) = refl
unwrap-made panic = refl
unwrap-made fault = refl
unwrap-made out_of_fuel = refl

new_queue-claim_regions :
    (hhdm n : ℕ) (q : SplitVirtqueue) (s : FreeList) (m : Bytes)
    → zeroed_queue n ≡ inr q
    → new_queue hhdm n s m ≡ claim_regions hhdm n q s m
unfolding new_queue new new_on
new_queue-claim_regions hhdm n q s m e =
    ap (λ (o : SplitVirtqueueError ⊎ SplitVirtqueue). new_on hhdm n s m o >>= unwrap_queue) e
    ∙ unwrap-made (claim_regions hhdm n q s m)

module _ (hhdm : ℕ) where
  -- A region at the first free frame, which is taken.
  abbrev pub AtFrame : ℕ → List ℕ → DmaRegion × FreeList × Bytes → Type 0
  AtFrame x rest (r, s, m) = (r.virt ≡ x) × (r.phys + hhdm ≡ x) × IsFreeList hhdm s rest

  one_frame : (size : ℕ) → 0 < size → size ≤ 4096 → frames_for size ≡ 1
  unfolding frames_for
  one_frame size pos small = ground arith

  pub new_raw-AtFrame :
      (size n x y : ℕ) (ys : List ℕ) (clear : Bool) (s : FreeList) (m : Bytes)
      → 0 < size
      → size ≤ 4096
      → IsFreeList hhdm s (x ∷ y ∷ ys)
      → Returns (AtFrame x (y ∷ ys)) (new_raw hhdm size n clear s m)
  unfolding new_raw
  new_raw-AtFrame size n x y ys clear s m pos small v =
      let frame = v.frames.0 in
      rw (one_frame size pos small) (
        Returns-bind (FirstGiven hhdm x (y ∷ ys)) (AtFrame x (y ∷ ys)) (claim_continuous hhdm 1 s)
          (λ (claimed, t). unwrap claimed >>= λ alloc.
            assert (not (alloc == 0))
            >> ok (
              record { phys = sub64 alloc hhdm; virt = alloc; elements = n },
              t,
              if clear
                  then zero_bytes alloc size (link_bytes s.cells t.cells m)
                  else link_bytes s.cells t.cells m,
            ))
          (claim_continuous-one hhdm x y ys s v)
          (λ (o, s') (e, w).
            rw (e, ne→== x 0 (omega (arith, frame))) (refl, omega (arith, frame, v.offset), w)))

  -- The three regions of a queue lie at the first three free frames, which are taken.
  abbrev pub AtFrames :
      SplitVirtqueue → ℕ → ℕ → ℕ → List ℕ → DeviceQueue × FreeList × Bytes → Type 0
  AtFrames q0 x1 x2 x3 rest (q, s, m) =
      (q.queue ≡ q0)
      × (q.descriptors_at + hhdm ≡ x1)
      × (q.available_at + hhdm ≡ x2)
      × (q.used_at + hhdm ≡ x3)
      × IsFreeList hhdm s rest

  module _ (n : ℕ) (q0 : SplitVirtqueue) (made : zeroed_queue n ≡ inr q0) (pos : 0 < n)
      (small : n ≤ 256) (x1 x2 x3 y : ℕ) (ys : List ℕ) where
    last_region :
        (d a : DmaRegion) (s : FreeList) (m : Bytes)
        → d.phys + hhdm ≡ x1
        → a.phys + hhdm ≡ x2
        → IsFreeList hhdm s (x3 ∷ y ∷ ys)
        → Returns (AtFrames q0 x1 x2 x3 (y ∷ ys)) (do
          (u, s, m) ← new_raw hhdm (4 + 8 * n) n true s m
          ok (
            record { queue = q0; descriptors_at = d.phys; available_at = a.phys; used_at = u.phys },
            s,
            m,
          ))
    last_region d a s m e1 e2 v =
        Returns-bind (AtFrame x3 (y ∷ ys)) (AtFrames q0 x1 x2 x3 (y ∷ ys))
          (new_raw hhdm (4 + 8 * n) n true s m)
          (λ (u, s, m). ok (
            record { queue = q0; descriptors_at = d.phys; available_at = a.phys; used_at = u.phys },
            s,
            m,
          ))
          (new_raw-AtFrame (4 + 8 * n) n x3 y ys true s m (omega arith) (omega arith) v)
          (λ (u, s', m') (e, e3, w). (refl, e1, e2, e3, w))

    pub new_queue-AtFrames :
        (s : FreeList) (m : Bytes)
        → IsFreeList hhdm s (x1 ∷ x2 ∷ x3 ∷ y ∷ ys)
        → Returns (AtFrames q0 x1 x2 x3 (y ∷ ys)) (new_queue hhdm n s m)
    unfolding claim_regions zeroed_many
    new_queue-AtFrames s m v =
        let bytes : mul64 16 n ≡ 16 * n = omega arith in
        rw (new_queue-claim_regions hhdm n q0 s m made, bytes)
          (Returns-bind (AtFrame x1 (x2 ∷ x3 ∷ y ∷ ys)) (AtFrames q0 x1 x2 x3 (y ∷ ys))
            (new_raw hhdm (16 * n) n true s m)
            (λ (d, s, m). do
              (a, s, m) ← new_raw hhdm (4 + 2 * n) n true s m
              (u, s, m) ← new_raw hhdm (4 + 8 * n) n true s m
              ok (
                record {
                  queue = q0;
                  descriptors_at = d.phys;
                  available_at = a.phys;
                  used_at = u.phys;
                },
                s,
                m,
              ))
            (new_raw-AtFrame (16 * n) n x1 x2 (x3 ∷ y ∷ ys) true s m (omega arith) (omega arith) v)
            (λ (d, s, m) (v1, e1, w).
              Returns-bind (AtFrame x2 (x3 ∷ y ∷ ys)) (AtFrames q0 x1 x2 x3 (y ∷ ys))
                (new_raw hhdm (4 + 2 * n) n true s m)
                (λ (a, s, m). do
                  (u, s, m) ← new_raw hhdm (4 + 8 * n) n true s m
                  ok (
                    record {
                      queue = q0;
                      descriptors_at = d.phys;
                      available_at = a.phys;
                      used_at = u.phys;
                    },
                    s,
                    m,
                  ))
                (new_raw-AtFrame (4 + 2 * n) n x2 x3 (y ∷ ys) true s m (omega arith) (omega arith)
                  w)
                (λ (a, s, m) (v2, e2, w). last_region d a s m e1 e2 w)))
