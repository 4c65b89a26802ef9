-- ===== src/Memory/Pmm/Scan/Unlink.antt =====
-- The branch that has found its frames cuts them out of the list.
use lsd_limine.Prelude.{ℕ, suc, ◌+◌, ◌*◌, ◌≡◌, length, arith, ap, refl, zero, ◌≢◌, ne→==, ◌∙◌}
use lsd_limine.Memory.Pmm.{
  FreeListEntry, entry, FreeList, some, unlink, set_prev, null, ok, load, sub64, fault, write,
}
use lsd_limine.Memory.Pmm.Linked.{
  first_of, last_of, Linked, last_entry, load-ok, set_prev-ok, set_next-ok, write_ne,
}
use lsd_limine.Memory.Pmm.Scan.{run_of, List}

pub length-run_of : (b n : ℕ) → length (run_of b n) ≡ n
length-run_of b zero = refl
length-run_of b (suc n) = ap suc (length-run_of (b + 4096) n)

pub last_of-run_of : (b n : ℕ) → last_of b (run_of (b + 4096) n) ≡ b + 4096 * n
last_of-run_of b zero = omega arith
last_of-run_of b (suc n) = omega (arith, last_of-run_of (b + 4096) n)

module _ (hhdm : ℕ) (s : FreeList) (base k : ℕ) where
  abbrev pub the_run : List ℕ
  the_run = run_of base (suc k)

  -- The entries that bound the run.
  pub record Ends (back stop : ℕ) : Type 0 where
    pub first : FreeListEntry
    pub at_first : s.cells base ≡ some first
    pub prev : first.prev ≡ back
    pub last : FreeListEntry
    pub at_last : s.cells (base + 4096 * k) ≡ some last
    pub next : last.next ≡ stop

  pub run-Ends : (back stop : ℕ) → Linked s.cells back the_run stop → Ends back stop
  run-Ends back stop l =
      let (p, e) = last_entry s.cells back base (run_of (base + 4096) k) stop l in
      record {
        first = entry back (first_of (run_of (base + 4096) k) stop);
        at_first = l.0;
        prev = refl;
        last = entry p stop;
        at_last = rw (last_of-run_of base k) at e;
        next = refl;
      }

  -- The ways that `unlink` goes, by what stands before the run and behind it.
  pub unlink_front :
      (y : ℕ) (e : FreeListEntry)
      → base ≢ 0
      → base + 4096 * k ≢ 0
      → y ≢ 0
      → Ends null y
      → s.cells y ≡ some e
      → unlink (suc k) base (base + 4096 * k) s
        ≡ ok (
          some base,
          record s {
            head = y;
            len = sub64 s.len (suc k);
            cells = write s.cells y (entry null e.next);
          },
        )
  unfolding unlink
  unlink_front y e nb nc ny v at = rw (
    load-ok s base v.first nb v.at_first,
    load-ok s (base + 4096 * k) v.last nc v.at_last,
    v.prev,
    v.next,
    set_prev-ok (record s { head = y }) y e ny at null,
  )

  pub unlink_middle :
      (p y : ℕ) (d e : FreeListEntry)
      → base ≢ 0
      → base + 4096 * k ≢ 0
      → p ≢ 0
      → y ≢ 0
      → y ≢ p
      → Ends p y
      → s.cells p ≡ some d
      → s.cells y ≡ some e
      → unlink (suc k) base (base + 4096 * k) s
        ≡ ok (
          some base,
          record s {
            len = sub64 s.len (suc k);
            cells = write (write s.cells p (entry d.prev y)) y (entry p e.next);
          },
        )
  unfolding unlink
  unlink_middle p y d e nb nc np ny ne v at at' = rw (
    load-ok s base v.first nb v.at_first,
    load-ok s (base + 4096 * k) v.last nc v.at_last,
    v.prev,
    v.next,
    ne→== p 0 np,
    set_next-ok s p d np at y,
    set_prev-ok (record s { cells = write s.cells p (entry d.prev y) }) y e ny
        (write_ne s.cells p (entry d.prev y) y ne ∙ at') p,
  )

  pub unlink_front_end :
      base ≢ 0
      → base + 4096 * k ≢ 0
      → Ends null null
      → unlink (suc k) base (base + 4096 * k) s ≡ fault
  unfolding unlink set_prev load
  unlink_front_end nb nc v = rw (
    load-ok s base v.first nb v.at_first,
    load-ok s (base + 4096 * k) v.last nc v.at_last,
    v.prev,
    v.next,
  )

  pub unlink_middle_end :
      (p : ℕ) (d : FreeListEntry)
      → base ≢ 0
      → base + 4096 * k ≢ 0
      → p ≢ 0
      → Ends p null
      → s.cells p ≡ some d
      → unlink (suc k) base (base + 4096 * k) s ≡ fault
  unfolding unlink set_prev load
  unlink_middle_end p d nb nc np v at = rw (
    load-ok s base v.first nb v.at_first,
    load-ok s (base + 4096 * k) v.last nc v.at_last,
    v.prev,
    v.next,
    ne→== p 0 np,
    set_next-ok s p d np at null,
  )
