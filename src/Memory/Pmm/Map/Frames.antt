-- ===== src/Memory/Pmm/Map/Frames.antt =====
-- The free list that `init` makes of a memory map.
use lsd_limine.Prelude.{
  ℕ, zero, suc, ◌+◌, ◌/◌, ◌^◌, ◌<◌, ◌≡◌, refl, sym, ap, subst, Bool, true, false, List, [], ◌∷◌,
  ◌++◌, append-nil, append_assoc, arith, length, length-append, All, if◌then◌else◌, ok, Returns,
  Returns-bind, add64,
}
use lsd_limine.Memory.Pmm.{FreeList, Cells, entry, null, init, push}
use lsd_limine.Memory.Pmm.Linked.{
  Distinct, Distinct-split, IsFrame, IsFreeList, write_self, load-ok, All-split, Apart-has,
}
use lsd_limine.Memory.Pmm.Basic.{HasCells, write-HasCells, push-grows}
use lsd_limine.Memory.Pmm.Map.{
  MemoryEntry, null_list, add_frame, add_frames, add_entries, init_from,
}

-- The frames of an entry from an offset on, and of the usable entries of a memory map.
abbrev pub entry_frames : ℕ → ℕ → ℕ → List ℕ
entry_frames base zero offset = []
entry_frames base (suc rounds) offset = add64 base offset ∷ entry_frames base rounds (offset + 4096)

abbrev pub rounds_of : MemoryEntry → ℕ
rounds_of e = (e.size + 4095) / 4096

abbrev pub map_frames : ℕ → List MemoryEntry → List ℕ
map_frames hhdm [] = []
map_frames hhdm (e ∷ es) =
    (if e.usable then entry_frames (add64 e.base hhdm) (rounds_of e) 0 else [])
    ++ map_frames hhdm es

-- The list holds `xs`, or there is none yet, and what could be read of `c` can be read.
abbrev Holds : ℕ → Cells → List ℕ → Bool × FreeList → Type 0
Holds hhdm c [] (uninit, s) = (uninit ≡ true) × ((a : ℕ) → HasCells c a → HasCells s.cells a)
Holds hhdm c (x ∷ xs) (uninit, s) =
    (uninit ≡ false) × IsFreeList hhdm s (x ∷ xs) × ((a : ℕ) → HasCells c a → HasCells s.cells a)

-- Frames that can be added behind `xs`.
record Fits (hhdm : ℕ) (c : Cells) (xs ns : List ℕ) : Type 0 where
  frames : All (IsFrame hhdm) ns
  mapped : All (HasCells c) ns
  distinct : Distinct (xs ++ ns)
  room : length (xs ++ ns) < 2 ^ 64

Fits-split :
    (hhdm : ℕ) (c : Cells) (xs ms ns : List ℕ)
    → Fits hhdm c xs (ms ++ ns)
    → Fits hhdm c xs ms × Fits hhdm c (xs ++ ms) ns
Fits-split hhdm c xs ms ns f =
    let (fm, fn) = All-split (IsFrame hhdm) ms ns f.frames in
    let (am, an) = All-split (HasCells c) ms ns f.mapped in
    let e = append_assoc xs ms ns in
    let d : Distinct ((xs ++ ms) ++ ns) = subst Distinct (sym e) f.distinct in
    let n : length ((xs ++ ms) ++ ns) ≡ length (xs ++ (ms ++ ns)) = ap length e in
    (
      record {
        frames = fm;
        mapped = am;
        distinct = (Distinct-split (xs ++ ms) ns d).0;
        room = omega (arith, f.room, n, length-append (xs ++ ms) ns);
      },
      record { frames = fn; mapped = an; distinct = d; room = omega (arith, f.room, n) },
    )

module _ (hhdm : ℕ) (c : Cells) (pos : 0 < hhdm) where
  init-IsFreeList :
      (new : ℕ) (s : FreeList)
      → IsFrame hhdm new
      → HasCells s.cells new
      → Returns
          (λ s'.
            IsFreeList hhdm s' (new ∷ []) × ((a : ℕ) → HasCells s.cells a → HasCells s'.cells a))
          (init new s)
  unfolding init
  init-IsFreeList new s f (e, at) = rw (load-ok s new e (omega (arith, f.0)) at) (
    record {
      offset = pos;
      head = refl;
      tail = refl;
      len = refl;
      room = omega arith;
      linked = (write_self s.cells new (entry null null), tt);
      distinct = (refl, tt);
      frames = (f, tt);
    },
    λ a h. write-HasCells s.cells new (entry null null) a h,
  )

  add_frame-Holds :
      (xs : List ℕ) (new : ℕ) (st : Bool × FreeList)
      → Holds hhdm c xs st
      → Fits hhdm c xs (new ∷ [])
      → Returns (Holds hhdm c (xs ++ new ∷ [])) (add_frame hhdm new st)
  unfolding add_frame
  add_frame-Holds [] new (uninit, s) h f = rw h.0 (
      Returns-bind
        (λ s'. IsFreeList hhdm s' (new ∷ []) × ((a : ℕ) → HasCells s.cells a → HasCells s'.cells a))
        (Holds hhdm c (new ∷ [])) (init new s) (λ s'. ok (false, s'))
        (init-IsFreeList new s f.frames.0 (h.1 new f.mapped.0))
        (λ s' g. (refl, g.0, λ a k. g.1 a (h.1 a k))))
  add_frame-Holds (x ∷ xs) new (uninit, s) h f =
      let (e, at) = h.2 new f.mapped.0 in
      let (l, r, apart) = Distinct-split (x ∷ xs) (new ∷ []) f.distinct in
      rw h.0 (
        Returns-bind
          (λ s'.
            IsFreeList hhdm s' (x ∷ xs ++ new ∷ [])
            × ((a : ℕ) → HasCells s.cells a → HasCells s'.cells a))
          (Holds hhdm c (x ∷ xs ++ new ∷ [])) (push hhdm new s) (λ s'. ok (false, s'))
          (push-grows hhdm new s e f.frames.0 at x xs h.1 (Apart-has (x ∷ xs) new [] apart)
            (omega (arith, f.room, length-append xs (new ∷ []))))
          (λ s' g. (refl, g.0, λ a k. g.1 a (h.2 a k))))

  add_frames-Holds :
      (base rounds offset : ℕ) (xs : List ℕ) (st : Bool × FreeList)
      → Holds hhdm c xs st
      → Fits hhdm c xs (entry_frames base rounds offset)
      → Returns
          (Holds hhdm c (xs ++ entry_frames base rounds offset))
          (add_frames hhdm base rounds offset st)
  unfolding add_frames
  add_frames-Holds base zero offset xs (uninit, s) h f =
      subst (λ (l : List ℕ). Holds hhdm c l (uninit, s)) (sym (append-nil xs)) h
  add_frames-Holds base (suc rounds) offset xs st h f =
      let n = add64 base offset in
      let rest = entry_frames base rounds (offset + 4096) in
      let (f1, f2) = Fits-split hhdm c xs (n ∷ []) rest f in
      Returns-bind (Holds hhdm c (xs ++ n ∷ [])) (Holds hhdm c (xs ++ n ∷ rest))
        (add_frame hhdm n st) (λ st'. add_frames hhdm base rounds (offset + 4096) st')
        (add_frame-Holds xs n st h f1)
        (λ st' g.
          subst
            (λ (l : List ℕ).
              Returns (Holds hhdm c l) (add_frames hhdm base rounds (offset + 4096) st'))
            (append_assoc xs (n ∷ []) rest)
            (add_frames-Holds base rounds (offset + 4096) (xs ++ n ∷ []) st' g f2))

  entry-Holds :
      (b : Bool) (e : MemoryEntry) (xs : List ℕ) (st : Bool × FreeList)
      → Holds hhdm c xs st
      → Fits hhdm c xs (if b then entry_frames (add64 e.base hhdm) (rounds_of e) 0 else [])
      → Returns
          (Holds hhdm c
            (xs ++ (if b then entry_frames (add64 e.base hhdm) (rounds_of e) 0 else [])))
          (if b then add_frames hhdm (add64 e.base hhdm) (rounds_of e) 0 st else ok st)
  entry-Holds true e xs st h f = add_frames-Holds (add64 e.base hhdm) (rounds_of e) 0 xs st h f
  entry-Holds false e xs (uninit, s) h f =
      subst (λ (l : List ℕ). Holds hhdm c l (uninit, s)) (sym (append-nil xs)) h

  add_entries-Holds :
      (es : List MemoryEntry) (xs : List ℕ) (st : Bool × FreeList)
      → Holds hhdm c xs st
      → Fits hhdm c xs (map_frames hhdm es)
      → Returns (Holds hhdm c (xs ++ map_frames hhdm es)) (add_entries hhdm es st)
  unfolding add_entries
  add_entries-Holds [] xs (uninit, s) h f =
      subst (λ (l : List ℕ). Holds hhdm c l (uninit, s)) (sym (append-nil xs)) h
  add_entries-Holds (e ∷ es) xs st h f =
      let ms = if e.usable then entry_frames (add64 e.base hhdm) (rounds_of e) 0 else [] in
      let rest = map_frames hhdm es in
      let (f1, f2) = Fits-split hhdm c xs ms rest f in
      Returns-bind (Holds hhdm c (xs ++ ms)) (Holds hhdm c (xs ++ (ms ++ rest)))
        (if e.usable then add_frames hhdm (add64 e.base hhdm) (rounds_of e) 0 st else ok st)
        (λ st'. add_entries hhdm es st') (entry-Holds e.usable e xs st h f1)
        (λ st' g.
          subst (λ (l : List ℕ). Returns (Holds hhdm c l) (add_entries hhdm es st'))
            (append_assoc xs ms rest) (add_entries-Holds es (xs ++ ms) st' g f2))

  -- From a map with at least one usable frame, whose usable frames are aligned, mapped above the
  -- offset, can be read and are all different, `init` returns a free list of all of them in the
  -- order of the map.
  pub init_from-IsFreeList :
      (es : List MemoryEntry) (x : ℕ) (xs : List ℕ)
      → map_frames hhdm es ≡ x ∷ xs
      → All (IsFrame hhdm) (map_frames hhdm es)
      → All (HasCells c) (map_frames hhdm es)
      → Distinct (map_frames hhdm es)
      → length (map_frames hhdm es) < 2 ^ 64
      → Returns (λ s. IsFreeList hhdm s (map_frames hhdm es)) (init_from hhdm es (null_list c))
  unfolding init_from
  init_from-IsFreeList es x xs e fr ma di ro =
      Returns-bind (Holds hhdm c (map_frames hhdm es)) (λ s. IsFreeList hhdm s (map_frames hhdm es))
        (add_entries hhdm es (true, null_list c)) (λ (uninit, s). ok s)
        (add_entries-Holds es [] (true, null_list c) (refl, λ a h. h)
          (record { frames = fr; mapped = ma; distinct = di; room = ro }))
        (λ (uninit, s) h.
          subst (λ (l : List ℕ). IsFreeList hhdm s l) (sym e)
            (subst (λ (l : List ℕ). Holds hhdm c l (uninit, s)) e h).1)
