-- ===== src/Memory/Pmm/Scan/Loop.antt =====
-- The search itself: it finds the first run of frames, and finds none only where there is none.
use lsd_limine.Memory.Pmm.Scan.Unlink.{length-run_of, last_of-run_of}
use lsd_limine.Memory.Pmm.Scan.Cut.{unlink-Outcome}
use lsd_limine.Prelude.{
  ok, panic, fault, out_of_fuel, inl, inr, ◌⊎◌, ◌==◌, ◌&&◌, none, some, ℕ, zero, suc, ◌+◌, ◌*◌, ◌<◌,
  ◌≡◌, ◌++◌, [], ◌∷◌, ◌≢◌, arith, ==_refl, ◌⊎◌, ap, length, Bool-cases, ◌≤◌, subst, sym,
  append_assoc, refl, ◌^◌, length-append,
}
use lsd_limine.Memory.Pmm.{
  null, Bool, false, FreeList, true, Run, scan, Option, entry, unlink, add64, FreeListEntry,
}
use lsd_limine.Memory.Pmm.Linked.{
  first_of, IsFreeList, IsFrame, Linked-split, load-ok, last_of, last_entry, All-split, last_of-All,
}
use lsd_limine.Memory.Pmm.Scan.{run_of, starts, NoRun, List, Outcome}

-- A run that breaks off too early starts nowhere.
starts_broken :
    (b n k : ℕ) (post : List ℕ)
    → suc k < n
    → first_of post null ≢ b + 4096 * suc k
    → starts b n (run_of b (suc k) ++ post) ≡ false
starts_broken b zero k post h ne = absurd (omega arith)
starts_broken b (suc zero) k post h ne = absurd (omega arith)
starts_broken b (suc (suc n)) zero [] h ne = ground arith
starts_broken b (suc (suc n)) zero (x ∷ post) h ne = ground arith
starts_broken b (suc (suc n)) (suc k) post h ne =
    rw (==_refl b) (starts_broken (b + 4096) (suc n) k post (omega arith) (omega arith))

NoRun-broken :
    (aligned : ℕ → Bool) (frames b k : ℕ) (post : List ℕ)
    → suc k < frames
    → first_of post null ≢ b + 4096 * suc k
    → NoRun aligned frames post
    → NoRun aligned frames (run_of b (suc k) ++ post)
NoRun-broken aligned frames b zero post h ne rest =
    (ground (arith, starts_broken b frames zero post h ne), rest)
NoRun-broken aligned frames b (suc k) post h ne rest = (
  ground (arith, starts_broken b frames (suc k) post h ne),
  NoRun-broken aligned frames (b + 4096) k post (omega arith) (omega arith) rest,
)

-- A frame left behind starts no run, whether it is the neighbour or the alignment that is missing.
NoRun-skip :
    (aligned : ℕ → Bool) (frames b k : ℕ) (post : List ℕ)
    → suc k < frames
    → (k ≡ 0) ⊎ (aligned b ≡ true)
    → ((b + 4096 * suc k == first_of post null) && aligned b) ≡ false
    → NoRun aligned frames post
    → NoRun aligned frames (run_of b (suc k) ++ post)
NoRun-skip aligned frames b zero post h al broken rest = elim (Bool-cases (aligned b)) [
  | inl yes' ↦ NoRun-broken aligned frames b zero post h (ground arith) rest
  | inr no' ↦ (rw no', rest)
]
NoRun-skip aligned frames b (suc k) post h al broken rest =
    NoRun-broken aligned frames b (suc k) post h (ground arith) rest

Outcome-widen :
    (hhdm : ℕ) (aligned : ℕ → Bool) (frames : ℕ) (s : FreeList) (xs rest more : List ℕ)
    (r : Run (Option ℕ × FreeList))
    → (NoRun aligned frames rest → NoRun aligned frames more)
    → Outcome hhdm aligned frames s xs rest r
    → Outcome hhdm aligned frames s xs more r
Outcome-widen hhdm aligned frames s xs rest more (ok (none, s')) f o = (o.0, f o.1)
Outcome-widen hhdm aligned frames s xs rest more (ok (some b, s')) f o = o
Outcome-widen hhdm aligned frames s xs rest more fault f o = o
Outcome-widen hhdm aligned frames s xs rest more panic f o = o
Outcome-widen hhdm aligned frames s xs rest more out_of_fuel f o = o

run_of-snoc :
    (b k y : ℕ) (post : List ℕ)
    → y ≡ b + 4096 * suc k
    → run_of b (suc k) ++ y ∷ post ≡ run_of b (suc (suc k)) ++ post
run_of-snoc b zero y post e = ap (λ (z : ℕ). b ∷ z ∷ post) (omega (arith, e))
run_of-snoc b (suc k) y post e =
    ap (λ l. b ∷ l) (run_of-snoc (b + 4096) k y post (omega (arith, e)))

module _ (hhdm : ℕ) (aligned : ℕ → Bool) (frames : ℕ) (s : FreeList) (many : 1 < frames) where
  scan_hit :
      (n base cur count : ℕ)
      → (count == frames) ≡ true
      → scan aligned frames (suc n) base cur count s ≡ unlink frames base cur s
  unfolding scan
  scan_hit n base cur count hit = rw (hit, scan)

  module _ (n base cur count : ℕ) (e : FreeListEntry) (miss : (count == frames) ≡ false)
      (ne : cur ≢ 0) (at : s.cells cur ≡ some e) where
    scan_on :
        ((add64 cur 0x1000 == e.next) && aligned base) ≡ true
        → scan aligned frames (suc n) base cur count s
          ≡ scan aligned frames n base e.next (add64 count 1) s
    unfolding scan
    scan_on on = ground (arith, load-ok s cur e ne at)

    scan_off :
        ((add64 cur 0x1000 == e.next) && aligned base) ≡ false
        → scan aligned frames (suc n) base cur count s ≡ scan aligned frames n e.next e.next 1 s
    unfolding scan
    scan_off off = ground (arith, load-ok s cur e ne at)

  scan_end : (base cur count : ℕ) → scan aligned frames 0 base cur count s ≡ ok (none, s)
  unfolding scan
  scan_end base cur count = refl

  abbrev pub Search : ℕ → ℕ → ℕ → List ℕ → List ℕ → Type 0
  Search rounds base k pre post =
      (cur count : ℕ)
      → cur ≡ base + 4096 * k
      → count ≡ suc k
      → IsFreeList hhdm s (pre ++ (run_of base (suc k) ++ post))
      → rounds ≡ suc (length post)
      → suc k ≤ frames
      → (k ≡ 0) ⊎ (aligned base ≡ true)
      → Outcome hhdm aligned frames s (pre ++ (run_of base (suc k) ++ post))
          (run_of base (suc k) ++ post) (scan aligned frames rounds base cur count s)

  length_bound :
      (base k : ℕ) (pre post : List ℕ)
      → IsFreeList hhdm s (pre ++ (run_of base (suc k) ++ post))
      → suc k + length post < 2 ^ 64
  length_bound base k pre post v = omega (
    arith,
    v.room,
    length-append pre (run_of base (suc k) ++ post),
    length-append (run_of base (suc k)) post,
    length-run_of base (suc k),
  )

  -- Where the list is entered: the entry at `cur` leads to the rest.
  current :
      (base k : ℕ) (pre post : List ℕ)
      → IsFreeList hhdm s (pre ++ (run_of base (suc k) ++ post))
      → (p : ℕ) × (s.cells (base + 4096 * k) ≡ some (entry p (first_of post null)))
        × IsFrame hhdm (base + 4096 * k)
  current base k pre post v =
      let (_, rest) = Linked-split s.cells null pre (run_of base (suc k) ++ post) null v.linked in
      let (inside, _) =
        Linked-split s.cells (last_of null pre) (run_of base (suc k)) post null rest in
      let (p, e) =
        last_entry s.cells (last_of null pre) base (run_of (base + 4096) k) (first_of post null)
          inside in
      let (_, f) = All-split (IsFrame hhdm) pre (run_of base (suc k) ++ post) v.frames in
      let (f', _) = All-split (IsFrame hhdm) (run_of base (suc k)) post f in
      (
        p,
        rw (last_of-run_of base k) at e,
        rw (last_of-run_of base k) at (last_of-All (IsFrame hhdm) base (run_of (base + 4096) k) f'),
      )

  search_hit :
      (base k : ℕ) (pre post : List ℕ) (cur : ℕ)
      → cur ≡ base + 4096 * k
      → frames ≡ suc k
      → IsFreeList hhdm s (pre ++ (run_of base (suc k) ++ post))
      → (k ≡ 0) ⊎ (aligned base ≡ true)
      → Outcome hhdm aligned frames s
          (pre ++ (run_of base (suc k) ++ post))
          (run_of base (suc k) ++ post)
          (unlink frames base cur s)
  search_hit base k pre post cur ec ef v al =
      let xs = pre ++ (run_of base (suc k) ++ post) in
      let rest = run_of base (suc k) ++ post in
      let start : aligned base ≡ true = ground arith in
      subst (λ f. Outcome hhdm aligned f s xs rest (unlink f base cur s)) (sym ef)
        (subst (λ c. Outcome hhdm aligned (suc k) s xs rest (unlink (suc k) base c s)) (sym ec)
          (unlink-Outcome hhdm s base k aligned rest pre post v start))

  pub scan-Search : (rounds base k : ℕ) (pre post : List ℕ) → Search rounds base k pre post
  scan-Search zero base k pre post cur count ec en v er le al = absurd (omega arith)
  scan-Search (suc n) base k pre [] cur count ec en v er le al =
      let (p, at, f) = current base k pre [] v in
      let here : s.cells cur ≡ some (entry p null) = rw ec at in
      elim (Bool-cases (count == frames)) [
        | inl hit ↦
            rw (scan_hit n base cur count hit) (search_hit base k pre [] cur ec (ground arith) v al)
        | inr miss ↦
            let last : n ≡ 0 = omega arith in
            rw
              (
                scan_off n base cur count (entry p null) miss (omega arith) here (ground arith),
                last,
                scan_end null null 1,
              )
              (refl, NoRun-skip aligned frames base k [] (ground arith) al (ground arith) tt)
      ]
  scan-Search (suc n) base k pre (y ∷ post) cur count ec en v er le al =
      let (p, at, f) = current base k pre (y ∷ post) v in
      let here : s.cells cur ≡ some (entry p y) = rw ec at in
      elim (Bool-cases (count == frames)) [
        | inl hit ↦
            rw (scan_hit n base cur count hit)
              (search_hit base k pre (y ∷ post) cur ec (ground arith) v al)
        | inr miss ↦ elim (Bool-cases ((add64 cur 0x1000 == y) && aligned base)) [
          | inl on ↦
              let ey : y ≡ base + 4096 * suc k = ground arith in
              let snoc = run_of-snoc base k y post ey in
              let whole : Outcome hhdm aligned frames s (pre ++ (run_of base (suc k) ++ y ∷ post))
                  (run_of base (suc k) ++ y ∷ post)
                  (scan aligned frames n base y (add64 count 1) s) =
                subst
                  (λ l.
                    Outcome hhdm aligned frames s (pre ++ l) l
                      (scan aligned frames n base y (add64 count 1) s))
                  (sym snoc)
                  (scan-Search n base (suc k) pre post y (add64 count 1) ey
                    (omega (arith, en, length_bound base k pre (y ∷ post) v))
                    (subst (λ l. IsFreeList hhdm s (pre ++ l)) snoc v) (omega arith) (ground arith)
                    (inr (ground arith))) in
              rw (scan_on n base cur count (entry p y) miss (omega arith) here on) whole
          | inr off ↦ rw (scan_off n base cur count (entry p y) miss (omega arith) here off) (
              Outcome-widen hhdm aligned frames s (pre ++ (run_of base (suc k) ++ y ∷ post))
                (y ∷ post) (run_of base (suc k) ++ y ∷ post) (scan aligned frames n y y 1 s)
                (NoRun-skip aligned frames base k (y ∷ post) (ground arith) al (ground arith))
                (rw (← append_assoc) (
                  scan-Search n y 0 (pre ++ run_of base (suc k)) post y 1 (omega arith) refl
                    (rw append_assoc v) (omega arith) (omega arith) (inl refl))))
        ]
      ]
