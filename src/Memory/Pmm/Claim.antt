-- ===== src/Memory/Pmm/Claim.antt =====
-- `claim` on a list of free frames: with a frame behind the first one, and with none.
use lsd_limine.Prelude.{
  ℕ, ◌+◌, ◌%◌, ◌^◌, ◌<◌, List, ◌≢◌, ◌≡◌, ◌∷◌, le→ltb, Returns, arith, [], ◌≤◌, subst, lt→ltb, ◌∙◌,
  refl, Returns-bind, ap, Returns-imp,
}
use lsd_limine.Memory.Pmm.{
  FreeListEntry, entry, null, FreeList, write, claim, some, ok, sub64, Option, claim_continuous,
}
use lsd_limine.Memory.Pmm.Basic.{HasCells, write-HasCells}
use lsd_limine.Memory.Pmm.Linked.{
  first_of, IsFreeList, load-ok, set_prev-ok, write_self, set_next-ok, Linked-write, write_ne,
}

-- What is left of a list of at least two frames when the first is taken.
abbrev pub Claimed : ℕ → ℕ → List ℕ → ℕ × FreeList → Type 0
Claimed hhdm x rest (p, s) = (p ≡ x) × IsFreeList hhdm s rest

module _ (hhdm : ℕ) (s : FreeList) where
  abbrev HeadTaken : ℕ → Type 0
  HeadTaken p =
      (e f : FreeListEntry)
      → p ≢ 0
      → s.cells p ≡ some e
      → hhdm ≤ e.next
      → e.next ≢ 0
      → s.cells e.next ≡ some f
      → claim hhdm s
        ≡ ok (
          p,
          record s {
            head = e.next;
            len = sub64 s.len 1;
            cells = write s.cells e.next (entry null f.next);
          },
        )

  claim-ok : HeadTaken s.head
  unfolding claim
  claim-ok e f ne at above ne' at' =
      rw (load-ok s s.head e ne at, le→ltb e.next hhdm above, set_prev-ok s e.next f ne' at' null)

  -- What `claim` leaves, and that memory that could be read can be read.
  pub claim-grows :
      (x y : ℕ) (ys : List ℕ)
      → IsFreeList hhdm s (x ∷ y ∷ ys)
      → Returns
          (λ (p, s').
            Claimed hhdm x (y ∷ ys) (p, s') × ((a : ℕ) → HasCells s.cells a → HasCells s'.cells a))
          (claim hhdm s)
  claim-grows x y ys v =
      let b = entry null (first_of ys null) in
      rw
        (subst HeadTaken v.head claim-ok (entry null y) (entry x (first_of ys null)) (omega arith)
          v.linked.0 (omega arith) (omega arith) v.linked.1.0)
        (
          (
            refl,
            record {
              offset = v.offset;
              head = refl;
              tail = v.tail;
              len = omega (arith, v.len, v.room);
              room = omega (arith, v.room);
              linked = (
                write_self s.cells y b,
                Linked-write s.cells y b y ys null v.distinct.1.0 v.linked.1.1,
              );
              distinct = v.distinct.1;
              frames = v.frames.1;
            },
          ),
          λ a h. write-HasCells s.cells y b a h,
        )

  -- With two frames or more, `claim` returns the first and leaves a list of the others in order.
  pub claim-IsFreeList :
      (x y : ℕ) (ys : List ℕ)
      → IsFreeList hhdm s (x ∷ y ∷ ys)
      → Returns (Claimed hhdm x (y ∷ ys)) (claim hhdm s)
  claim-IsFreeList x y ys v =
      Returns-imp
        (λ (p, s').
          Claimed hhdm x (y ∷ ys) (p, s') × ((a : ℕ) → HasCells s.cells a → HasCells s'.cells a))
        (Claimed hhdm x (y ∷ ys)) (claim hhdm s) (λ r h. h.0) (claim-grows x y ys v)

  abbrev LastTaken : ℕ → Type 0
  LastTaken p =
      (e f : FreeListEntry)
      → p ≢ 0
      → s.cells p ≡ some e
      → e.next < hhdm
      → p + 4096 < 2 ^ 64
      → s.cells (p + 4096) ≡ some f
      → claim hhdm s
        ≡ ok (
          p,
          record s {
            head = p + 4096;
            len = sub64 s.len 1;
            cells =
                write (write s.cells p (entry e.prev (p + 4096))) (p + 4096) (entry null f.next);
          },
        )

  claim_last-ok : LastTaken s.head
  unfolding claim
  claim_last-ok e f ne at below fits at' =
      let c1 = write s.cells s.head (entry e.prev (s.head + 4096)) in
      let wrap : (s.head + 4096) % 2 ^ 64 ≡ s.head + 4096 = omega arith in
      let s1 = record s { cells = c1 } in
      rw (
        load-ok s s.head e ne at,
        lt→ltb e.next hhdm below,
        wrap,
        set_next-ok s s.head e ne at (s.head + 4096),
        load-ok s1 s.head (entry e.prev (s.head + 4096)) ne
            (write_self s.cells s.head (entry e.prev (s.head + 4096))),
        set_prev-ok s1 (s.head + 4096) f (omega arith)
            (write_ne s.cells s.head (entry e.prev (s.head + 4096)) (s.head + 4096) (omega arith)
              ∙ at')
            null,
      )

  -- With one frame left, and the memory behind it mapped, `claim` returns it and makes the address
  -- behind it the head, though no list holds a frame there; the length is then 0.
  pub claim_last-head :
      (x : ℕ) (f : FreeListEntry)
      → IsFreeList hhdm s (x ∷ [])
      → s.cells (x + 4096) ≡ some f
      → Returns (λ (p, s'). (p ≡ x) × (s'.head ≡ x + 4096) × (s'.len ≡ 0)) (claim hhdm s)
  claim_last-head x f v at =
      let fx = v.frames.0 in
      rw
        (subst LastTaken v.head claim_last-ok (entry null null) f (omega arith) v.linked.0 v.offset
          (omega arith) at)
        (refl, refl, omega (arith, v.len))

-- The claim of one frame as a claim of frames in a row.
module _ (hhdm : ℕ) where
  abbrev pub FirstGiven : ℕ → List ℕ → Option ℕ × FreeList → Type 0
  FirstGiven x rest (o, s) = (o ≡ some x) × IsFreeList hhdm s rest

  pub claim_continuous-one :
      (x y : ℕ) (ys : List ℕ) (s : FreeList)
      → IsFreeList hhdm s (x ∷ y ∷ ys)
      → Returns (FirstGiven x (y ∷ ys)) (claim_continuous hhdm 1 s)
  unfolding claim_continuous
  claim_continuous-one x y ys s v =
      Returns-bind (Claimed hhdm x (y ∷ ys)) (FirstGiven x (y ∷ ys)) (claim hhdm s)
        (λ (p, s'). ok (some p, s')) (claim-IsFreeList hhdm s x y ys v)
        (λ (p, s') (e, w). (ap some e, w))
