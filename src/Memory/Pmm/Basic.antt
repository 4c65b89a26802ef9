-- ===== src/Memory/Pmm/Basic.antt =====
-- `push` and `pull` on a list of free frames.
use lsd_limine.Prelude.{
  Bool-cases, inl, inr, ◌==◌, Returns-imp, ℕ, suc, ◌^◌, ◌<◌, ◌≡◌, ◌≢◌, refl, sym, subst, ◌∙◌, false,
  some, List, [], ◌∷◌, ◌++◌, arith, length, length-append, All-append, ok, add64, Returns, le→ltb,
}
use lsd_limine.Memory.Pmm.{
  Cells, FreeListEntry, entry, null, FreeList, write, check_new, push, pull,
}
use lsd_limine.Memory.Pmm.Linked.{
  has, first_of, last_of, Linked, IsFrame, IsFreeList, set_prev-ok, set_next-ok, write_self,
  write_ne, Linked-write, Linked-append, last_of-append, Distinct-append, Apart-one, last_of-All,
  last_entry, ne_last_of, Linked-relink,
}

pub check_new-ok : (hhdm new : ℕ) → IsFrame hhdm new → check_new hhdm new ≡ ok tt
unfolding check_new
check_new-ok hhdm new f = rw (le→ltb new hhdm f.1, f.2)

-- Something can be read at an address.
abbrev pub HasCells : Cells → ℕ → Type 0
HasCells c a = (e : FreeListEntry) × (c a ≡ some e)

pub write-HasCells :
    (c : Cells) (p : ℕ) (e : FreeListEntry) (a : ℕ) → HasCells c a → HasCells (write c p e) a
unfolding write
write-HasCells c p e a (e', h) = elim (Bool-cases (a == p)) [
  | inl q ↦ (e, rw q refl)
  | inr q ↦ (e', rw q h)
]

module _ (hhdm new : ℕ) (s : FreeList) (e : FreeListEntry) (f : IsFrame hhdm new)
    (at : s.cells new ≡ some e) where
  -- What `pull` returns when the head is `p`, and `push` when the tail is.
  abbrev Pulled : ℕ → Type 0
  Pulled p =
      (h : FreeListEntry)
      → p ≢ 0
      → p ≢ new
      → s.cells p ≡ some h
      → pull hhdm new s
        ≡ ok (record s {
          head = new;
          len = add64 s.len 1;
          cells =
              write (write (write s.cells new (entry null e.next)) new (entry null p)) p
                (entry new h.next);
        })

  abbrev Pushed : ℕ → Type 0
  Pushed p =
      (h : FreeListEntry)
      → p ≢ 0
      → p ≢ new
      → s.cells p ≡ some h
      → push hhdm new s
        ≡ ok (record s {
          tail = new;
          len = add64 s.len 1;
          cells =
              write (write (write s.cells new (entry e.prev null)) new (entry p null)) p
                (entry h.prev new);
        })

  pull-ok : Pulled s.head
  unfolding pull
  pull-ok h ne ne' at' =
      let pos : new ≢ 0 = omega arith in
      let c1 = write s.cells new (entry null e.next) in
      let c2 = write c1 new (entry null s.head) in
      let seen : c2 s.head ≡ some h =
        write_ne c1 new (entry null s.head) s.head ne'
        ∙ write_ne s.cells new (entry null e.next) s.head ne'
        ∙ at' in
      rw (
        check_new-ok hhdm new f,
        set_prev-ok s new e pos at null,
        set_next-ok (record s { cells = c1 }) new (entry null e.next) pos
            (write_self s.cells new (entry null e.next)) s.head,
        set_prev-ok (record s { cells = c2 }) s.head h ne seen new,
      )

  push-ok : Pushed s.tail
  unfolding push
  push-ok h ne ne' at' =
      let pos : new ≢ 0 = omega arith in
      let c1 = write s.cells new (entry e.prev null) in
      let c2 = write c1 new (entry s.tail null) in
      let seen : c2 s.tail ≡ some h =
        write_ne c1 new (entry s.tail null) s.tail ne'
        ∙ write_ne s.cells new (entry e.prev null) s.tail ne'
        ∙ at' in
      rw (
        check_new-ok hhdm new f,
        set_next-ok s new e pos at null,
        set_prev-ok (record s { cells = c1 }) new (entry e.prev null) pos
            (write_self s.cells new (entry e.prev null)) s.tail,
        set_next-ok (record s { cells = c2 }) s.tail h ne seen new,
      )

  -- What `pull` leaves, and that memory that could be read can be read.
  pub pull-grows :
      (x : ℕ) (xs : List ℕ)
      → IsFreeList hhdm s (x ∷ xs)
      → has new (x ∷ xs) ≡ false
      → suc (length (x ∷ xs)) < 2 ^ 64
      → Returns
          (λ s'.
            IsFreeList hhdm s' (new ∷ x ∷ xs)
            × ((a : ℕ) → HasCells s.cells a → HasCells s'.cells a))
          (pull hhdm new s)
  pull-grows x xs v out room =
      let pulled = subst Pulled v.head pull-ok in
      let c1 = write s.cells new (entry null e.next) in
      let c2 = write c1 new (entry null x) in
      let b = entry new (first_of xs null) in
      let ne : new ≢ x = ground arith in
      rw (pulled (entry null (first_of xs null)) (ground arith) (ground arith) v.linked.0) (
        record {
          offset = v.offset;
          head = refl;
          tail = v.tail;
          len = omega (arith, v.len);
          room = room;
          linked = (
            write_ne c2 x b new ne ∙ write_self c1 new (entry null x),
            (
              write_self c2 x b,
              Linked-write c2 x b x xs null v.distinct.0 (
                  Linked-write c1 new (entry null x) x xs null (ground arith) (
                    Linked-write s.cells new (entry null e.next) x xs null (ground arith)
                      v.linked.1)),
            ),
          );
          distinct = (out, v.distinct);
          frames = (f, v.frames);
        },
        λ a h. write-HasCells c2 x b a (
            write-HasCells c1 new (entry null x) a
              (write-HasCells s.cells new (entry null e.next) a h)),
      )

  -- Where the list is not empty, `pull` returns and puts a mapped frame that is not in the list in
  -- front of it, if the length still fits 64 bits.
  pub pull-IsFreeList :
      (x : ℕ) (xs : List ℕ)
      → IsFreeList hhdm s (x ∷ xs)
      → has new (x ∷ xs) ≡ false
      → suc (length (x ∷ xs)) < 2 ^ 64
      → Returns (λ s'. IsFreeList hhdm s' (new ∷ x ∷ xs)) (pull hhdm new s)
  pull-IsFreeList x xs v out room =
      Returns-imp
        (λ s'.
          IsFreeList hhdm s' (new ∷ x ∷ xs) × ((a : ℕ) → HasCells s.cells a → HasCells s'.cells a))
        (λ s'. IsFreeList hhdm s' (new ∷ x ∷ xs)) (pull hhdm new s) (λ s' h. h.0)
        (pull-grows x xs v out room)

  -- What `push` leaves, and that memory that could be read can be read.
  pub push-grows :
      (x : ℕ) (xs : List ℕ)
      → IsFreeList hhdm s (x ∷ xs)
      → has new (x ∷ xs) ≡ false
      → suc (length (x ∷ xs)) < 2 ^ 64
      → Returns
          (λ s'.
            IsFreeList hhdm s' (x ∷ xs ++ new ∷ [])
            × ((a : ℕ) → HasCells s.cells a → HasCells s'.cells a))
          (push hhdm new s)
  push-grows x xs v out room =
      let c1 = write s.cells new (entry e.prev null) in
      let c2 = write c1 new (entry (last_of x xs) null) in
      let kept : Linked c2 null (x ∷ xs) null =
        Linked-write c1 new (entry (last_of x xs) null) null (x ∷ xs) null out
          (Linked-write s.cells new (entry e.prev null) null (x ∷ xs) null out v.linked) in
      let was = last_entry s.cells null x xs null v.linked in
      let ne : last_of x xs ≢ new = λ e. ne_last_of new x xs out (sym e) in
      let seen : c2 (last_of x xs) ≡ some (entry was.0 null) =
        write_ne c1 new (entry (last_of x xs) null) (last_of x xs) ne
        ∙ write_ne s.cells new (entry e.prev null) (last_of x xs) ne
        ∙ was.1 in
      let frame = last_of-All (IsFrame hhdm) x xs v.frames in
      rw (subst Pushed v.tail push-ok (entry was.0 null) (omega (arith, frame.0)) ne was.1) (
        record {
          offset = v.offset;
          head = v.head;
          tail = sym (last_of-append x xs new []);
          len = omega (arith, v.len, length-append xs (new ∷ []));
          room = omega (arith, room, length-append xs (new ∷ []));
          linked =
              Linked-append (write c2 (last_of x xs) (entry was.0 new)) null (x ∷ xs) (new ∷ [])
                null (Linked-relink c2 null x xs null was.0 new v.distinct kept seen)
                (
                  write_ne c2 (last_of x xs) (entry was.0 new) new (λ q. ne (sym q))
                      ∙ write_self c1 new (entry (last_of x xs) null),
                  tt,
                );
          distinct =
              Distinct-append (x ∷ xs) (new ∷ []) v.distinct (refl, tt)
                (Apart-one (x ∷ xs) new out);
          frames = All-append (IsFrame hhdm) (x ∷ xs) (new ∷ []) v.frames (f, tt);
        },
        λ a h. write-HasCells c2 (last_of x xs) (entry was.0 new) a (
            write-HasCells c1 new (entry (last_of x xs) null) a
              (write-HasCells s.cells new (entry e.prev null) a h)),
      )

  -- Where the list is not empty, `push` returns and puts a mapped frame that is not in the list
  -- behind it, if the length still fits 64 bits.
  pub push-IsFreeList :
      (x : ℕ) (xs : List ℕ)
      → IsFreeList hhdm s (x ∷ xs)
      → has new (x ∷ xs) ≡ false
      → suc (length (x ∷ xs)) < 2 ^ 64
      → Returns (λ s'. IsFreeList hhdm s' (x ∷ xs ++ new ∷ [])) (push hhdm new s)
  push-IsFreeList x xs v out room =
      Returns-imp
        (λ s'.
          IsFreeList hhdm s' (x ∷ xs ++ new ∷ [])
          × ((a : ℕ) → HasCells s.cells a → HasCells s'.cells a))
        (λ s'. IsFreeList hhdm s' (x ∷ xs ++ new ∷ [])) (push hhdm new s) (λ s' h. h.0)
        (push-grows x xs v out room)
