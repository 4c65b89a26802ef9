-- ===== src/Memory/Pmm/Scan/Cut.antt =====
-- What `unlink` makes of a list of free frames that holds the run.
use lsd_limine.Prelude.{
  ℕ, suc, ◌+◌, ◌*◌, ◌≡◌, ◌++◌, ◌≢◌, All, subst, length, arith, length-append, [], ◌∷◌, ◌∙◌,
  append-nil, ap, sym, All-append, refl,
}
use lsd_limine.Memory.Pmm.{entry, null, FreeList, write, unlink, Bool, true, false}
use lsd_limine.Memory.Pmm.Linked.{
  first_of, last_of, Linked, IsFrame, IsFreeList, Linked-split, Distinct, Distinct-split, Apart,
  All-split, Apart-right, last_entry, last_of-All, write_self, Linked-write, has, Apart-has,
  ne_last_of, last_of-append, Linked-append, Linked-relink, Distinct-append, has-tail,
}
use lsd_limine.Memory.Pmm.Scan.{run_of, Outcome, List}
use lsd_limine.Memory.Pmm.Scan.Unlink.{
  Ends, run-Ends, last_of-run_of, length-run_of, unlink_front_end, unlink_middle_end, unlink_front,
  unlink_middle,
}

module _ (hhdm : ℕ) (s : FreeList) (base k : ℕ) where
  -- The parts of a list round a run.
  record Parts (pre post : List ℕ) : Type 0 where
    before : Linked s.cells null pre base
    ends : Ends hhdm s base k (last_of null pre) (first_of post null)
    after : Linked s.cells (base + 4096 * k) post null
    base_pos : base ≢ 0
    last_pos : base + 4096 * k ≢ 0
    distinct_before : Distinct pre
    distinct_after : Distinct post
    apart : Apart pre post
    frames_before : All (IsFrame hhdm) pre
    frames_after : All (IsFrame hhdm) post
    count : length (pre ++ (run_of base (suc k) ++ post)) ≡ length pre + suc k + length post

  parts :
      (pre post : List ℕ)
      → IsFreeList hhdm s (pre ++ (run_of base (suc k) ++ post))
      → Parts pre post
  parts pre post v =
      let (before, rest) =
        Linked-split s.cells null pre (run_of base (suc k) ++ post) null v.linked in
      let (inside, after) =
        Linked-split s.cells (last_of null pre) (run_of base (suc k)) post null rest in
      let (d, d', a) = Distinct-split pre (run_of base (suc k) ++ post) v.distinct in
      let (f, f') = All-split (IsFrame hhdm) pre (run_of base (suc k) ++ post) v.frames in
      record {
        before = before;
        ends = run-Ends hhdm s base k (last_of null pre) (first_of post null) inside;
        after = subst (λ q. Linked s.cells q post null) (last_of-run_of base k) after;
        base_pos = omega (arith, f'.0.0);
        last_pos = omega (arith, f'.0.0);
        distinct_before = d;
        distinct_after = (Distinct-split (run_of base (suc k)) post d').1;
        apart = Apart-right pre (run_of base (suc k)) post a;
        frames_before = f;
        frames_after = (All-split (IsFrame hhdm) (run_of base (suc k)) post f').1;
        count = omega (
          arith,
          length-append pre (run_of base (suc k) ++ post),
          length-append (run_of base (suc k)) post,
          length-run_of base (suc k),
        );
      }

  abbrev Cut : (ℕ → Bool) → List ℕ → List ℕ → List ℕ → Type 0
  Cut aligned rest pre post =
      IsFreeList hhdm s (pre ++ (run_of base (suc k) ++ post))
      → aligned base ≡ true
      → Outcome hhdm aligned (suc k) s (pre ++ (run_of base (suc k) ++ post)) rest
          (unlink (suc k) base (base + 4096 * k) s)

  pub unlink-Outcome : (aligned : ℕ → Bool) (rest pre post : List ℕ) → Cut aligned rest pre post
  unlink-Outcome aligned rest [] [] v al =
      let q = parts [] [] v in
      rw (unlink_front_end hhdm s base k q.base_pos q.last_pos q.ends)
        ([], base, append-nil (run_of base (suc k)), al)
  unlink-Outcome aligned rest (p ∷ ps) [] v al =
      let q = parts (p ∷ ps) [] v in
      let (d, at) = last_entry s.cells null p ps base q.before in
      let f = last_of-All (IsFrame hhdm) p ps q.frames_before in
      rw
        (unlink_middle_end hhdm s base k (last_of p ps) (entry d base) q.base_pos q.last_pos
          (omega (arith, f.0)) q.ends at)
        (p ∷ ps, base, ap (λ l. p ∷ ps ++ l) (append-nil (run_of base (suc k))), al)
  unlink-Outcome aligned rest [] (y ∷ post) v al =
      let q = parts [] (y ∷ post) v in
      let e = entry (base + 4096 * k) (first_of post null) in
      rw
        (unlink_front hhdm s base k y e q.base_pos q.last_pos (omega (arith, q.frames_after.0.0))
          q.ends q.after.0)
        (
          [],
          y,
          post,
          refl,
          al,
          record {
            offset = v.offset;
            head = refl;
            tail = v.tail ∙ last_of-append null (run_of base (suc k)) y post;
            len = omega (arith, v.len, v.room, q.count);
            room = omega (arith, v.room, q.count);
            linked = (
              write_self s.cells y (entry null e.next),
              Linked-write s.cells y (entry null e.next) y post null q.distinct_after.0 q.after.1,
            );
            distinct = q.distinct_after;
            frames = q.frames_after;
          },
        )
  unlink-Outcome aligned rest (p ∷ ps) (y ∷ post) v al =
      let q = parts (p ∷ ps) (y ∷ post) v in
      let l = last_of p ps in
      let e = entry (base + 4096 * k) (first_of post null) in
      let (d, at) = last_entry s.cells null p ps base q.before in
      let f = last_of-All (IsFrame hhdm) p ps q.frames_before in
      let out : has y (p ∷ ps) ≡ false = Apart-has (p ∷ ps) y post q.apart in
      let out' : has l (y ∷ post) ≡ false =
        last_of-All (λ x. has x (y ∷ post) ≡ false) p ps q.apart in
      let c1 = write s.cells l (entry d y) in
      let c2 = write c1 y (entry l e.next) in
      rw
        (unlink_middle hhdm s base k l y (entry d base) e q.base_pos q.last_pos (omega (arith, f.0))
          (omega (arith, q.frames_after.0.0)) (ne_last_of y p ps out) q.ends at q.after.0)
        (
          p ∷ ps,
          y,
          post,
          refl,
          al,
          record {
            offset = v.offset;
            head = v.head;
            tail =
                v.tail
                ∙ last_of-append null (p ∷ ps) base (run_of (base + 4096) k ++ y ∷ post)
                ∙ last_of-append base (run_of (base + 4096) k) y post
                ∙ sym (last_of-append null (p ∷ ps) y post);
            len = omega (arith, v.len, v.room, q.count, length-append ps (y ∷ post));
            room = omega (arith, v.room, q.count, length-append ps (y ∷ post));
            linked =
                Linked-append c2 null (p ∷ ps) (y ∷ post) null
                  (Linked-write c1 y (entry l e.next) null (p ∷ ps) y out
                    (Linked-relink s.cells null p ps base d y q.distinct_before q.before at))
                  (
                    write_self c1 y (entry l e.next),
                    Linked-write c1 y (entry l e.next) y post null q.distinct_after.0 (
                        Linked-write s.cells l (entry d y) y post null (has-tail l y post out')
                          q.after.1),
                  );
            distinct =
                Distinct-append (p ∷ ps) (y ∷ post) q.distinct_before q.distinct_after q.apart;
            frames = All-append (IsFrame hhdm) (p ∷ ps) (y ∷ post) q.frames_before q.frames_after;
          },
        )
