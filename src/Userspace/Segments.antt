-- ===== src/Userspace/Segments.antt =====
-- What a segment of a program becomes.
use lsd_limine.Prelude.{
  ℕ, zero, suc, ◌+◌, ◌^◌, ◌≤◌, ◌<◌, ◌≡◌, ◌≢◌, ◌⊎◌, inl, refl, ◌∙◌, arith, some, List, get_elem?,
  length, Returns, Returns-imp, add64, bit_or, ◌==◌, if◌then◌else◌, get_elem?_in_range, eq→==,
  ne→==, ◌∷◌, ok, ◌%◌, Returns-bind, Run, sub64, ◌>>=◌, ◌/◌, ap, sym, unwrap,
}
use lsd_limine.Memory.Dma.{Bytes, zero_bytes}
use lsd_limine.Memory.Fields.{BitField}
use lsd_limine.Memory.Pmm.Claim.{FirstGiven, claim_continuous-one}
use lsd_limine.Memory.Pmm.Linked.{IsFreeList}
use lsd_limine.Memory.Pmm.{FreeList, claim_continuous}
use lsd_limine.Memory.Paging
use lsd_limine.Memory.Paging.{as_page_size, level1, from_usize}
use lsd_limine.Memory.Tables.{State, map, current_table, virt_to_phys}
use lsd_limine.Memory.Tables.Walks.{IsOpen, above}
use lsd_limine.Memory.Tables.Translation.{IsMemory, map-virt_to_phys}
use lsd_limine.Userspace.{
  Machine, ProgramHeader, frames_for, map_pages, copy_bytes, to_pageflags, contains, user_flag,
  load_segment, steps,
}
use lsd_limine.Memory.Tables.Entries.{Permits}

-- The bytes of a file from `offset` on, as far as they are copied from the `i`-th on, and no others.
pub record IsCopied (file : List ℕ) (ptr offset i n : ℕ) (m m' : Bytes) : Type 0 where
  pub inside : (j : ℕ) → j < n → get_elem? file (i + offset + j) ≡ some (m' (ptr + i + j))
  pub outside : (b : ℕ) → (b < ptr + i) ⊎ (ptr + i + n ≤ b) → m' b ≡ m b

one_more :
    (file : List ℕ) (ptr offset i n x : ℕ) (m m' : Bytes)
    → ptr + i + suc n ≤ 2 ^ 64
    → get_elem? file (i + offset) ≡ some x
    → IsCopied file ptr offset (i + 1) n (λ b. if b == add64 ptr i then x else m b) m'
    → IsCopied file ptr offset i (suc n) m m'
one_more file ptr offset i n x m m' fits at c =
    let here : add64 ptr i ≡ ptr + i = omega arith in
    record {
      inside = λ j h.
          elim j as (λ j. j < suc n → get_elem? file (i + offset + j) ≡ some (m' (ptr + i + j))) [
            | zero ↦ λ h.
                let e : i + offset + 0 ≡ i + offset = omega arith in
                let f : ptr + i + 0 ≡ ptr + i = omega arith in
                rw
                  (
                    e,
                    f,
                    c.outside (ptr + i) (inl (omega arith)),
                    here,
                    eq→== (ptr + i) (ptr + i) refl,
                  )
                  at
            | suc k ↦ λ h.
                let e : i + offset + suc k ≡ i + 1 + offset + k = omega arith in
                let f : ptr + i + suc k ≡ ptr + (i + 1) + k = omega arith in
                rw (e, f) (c.inside k (omega arith))
          ]
            h;
      outside = λ b h.
          let ne : b ≢ add64 ptr i = ground arith in
          c.outside b (ground arith) ∙ rw (ne→== b (add64 ptr i) ne) refl;
    }

-- The loop that copies returns where the bytes are in the file.
pub copy_bytes-IsCopied :
    (file : List ℕ) (ptr offset i n : ℕ) (m : Bytes)
    → ptr + i + n ≤ 2 ^ 64
    → i + offset + n ≤ length file
    → i + offset + n ≤ 2 ^ 64
    → Returns (IsCopied file ptr offset i n m) (copy_bytes file ptr offset i n m)
unfolding copy_bytes
copy_bytes-IsCopied file ptr offset i zero m fits there small = record {
  inside = λ j h. absurd (omega arith);
  outside = λ b h. refl;
}
copy_bytes-IsCopied file ptr offset i (suc n) m fits there small =
    let (x, at) = get_elem?_in_range file (i + offset) (omega arith) in
    let wrap : add64 i offset ≡ i + offset = omega arith in
    rw (wrap, at)
      (Returns-imp (IsCopied file ptr offset (i + 1) n (λ b. if b == add64 ptr i then x else m b))
        (IsCopied file ptr offset i (suc n) m)
        (copy_bytes file ptr offset (i + 1) n (λ b. if b == add64 ptr i then x else m b))
        (λ m' c. one_more file ptr offset i n x m m' fits at c)
        (copy_bytes-IsCopied file ptr offset (i + 1) n (λ b. if b == add64 ptr i then x else m b)
          (omega arith) (omega arith) (omega arith)))

-- The flags of a page of a segment that may be read, written or executed.
pub to_pageflags-Permits : (p : ℕ) → 0 < p → p < 8 → Permits (bit_or (to_pageflags p) user_flag)
unfolding to_pageflags contains
to_pageflags-Permits zero h k = absurd (omega arith)
to_pageflags-Permits (suc zero) h k = (0, 12, refl, omega arith, omega arith, omega arith)
to_pageflags-Permits (suc (suc zero)) h k = (0, 10, refl, omega arith, omega arith, omega arith)
to_pageflags-Permits (suc (suc (suc zero))) h k =
    (0, 14, refl, omega arith, omega arith, omega arith)
to_pageflags-Permits (suc (suc (suc (suc zero)))) h k =
    (0, 9, refl, omega arith, omega arith, omega arith)
to_pageflags-Permits (suc (suc (suc (suc (suc zero))))) h k =
    (0, 13, refl, omega arith, omega arith, omega arith)
to_pageflags-Permits (suc (suc (suc (suc (suc (suc zero)))))) h k =
    (0, 11, refl, omega arith, omega arith, omega arith)
to_pageflags-Permits (suc (suc (suc (suc (suc (suc (suc zero))))))) h k =
    (0, 15, refl, omega arith, omega arith, omega arith)
to_pageflags-Permits (suc (suc (suc (suc (suc (suc (suc (suc p)))))))) h k = absurd (omega arith)

one_frame : (n : ℕ) → 0 < n → n ≤ 4096 → frames_for n ≡ 1
unfolding frames_for
one_frame n pos small = ground arith

module _ ⦃B : BitField⦄ (hhdm d t : ℕ) (level_of : ℕ → ℕ) (slot : ℕ → ℕ × ℕ) (x y : ℕ) (ys : List ℕ)
    (s : Machine) (m : IsMemory hhdm level_of slot (x ∷ y ∷ ys) s.memory) (file : List ℕ)
    (h : ProgramHeader) (j : ℕ) where
  -- What a program finds `j` bytes behind the address of a segment: the byte of the file that lies
  -- as far in the segment as this address lies in its page.
  abbrev pub Finds : ℕ → ℕ → Machine → Type 0
  Finds rounds satp s' =
      (p : ℕ) × (virt_to_phys hhdm rounds satp (above 1 d) (h.p_vaddr + j) s'.memory.tables
        ≡ ok (some p))
      × (get_elem? file (h.p_offset + (h.p_vaddr % 4096 + j)) ≡ some (s'.contents (p + hhdm)))

  module _ (fuel rounds satp : ℕ) (deep : above 1 d ≤ 5) (enough : d < fuel) (enough' : d < rounds)
      (frames : d < length (y ∷ ys)) (level : level_of t ≡ above 1 d)
      (way : IsOpen hhdm s.memory.tables h.p_vaddr 1 d t) (table : current_table hhdm satp ≡ t)
      (holds : h.p_filesz ≤ h.p_memsz) (page : h.p_memsz ≤ 4096) (some_flag : 0 < h.p_flags)
      (flags : h.p_flags < 8) (there : h.p_offset + h.p_filesz ≤ length file)
      (length_fits : length file < 2 ^ 64) (fits : h.p_vaddr < 2 ^ 64)
      (inside : h.p_vaddr % 4096 + j < h.p_filesz) where
    abbrev page_flags : ℕ
    page_flags = bit_or (to_pageflags h.p_flags) user_flag

    abbrev map_rest : FreeList → Bytes → Run Machine
    map_rest free contents =
        map_pages hhdm (above 1 d) fuel t level1 4096 page_flags h.p_vaddr (sub64 x hhdm) 0 1
          (record s.memory { free = free })
        >>= λ memory. ok (record { memory = memory; contents = contents })

    abbrev Translated : State → Type 0
    Translated s' =
        virt_to_phys hhdm rounds satp (above 1 d) (h.p_vaddr + j) s'.tables
        ≡ ok (some (sub64 x hhdm + (h.p_vaddr + j) % 4096))

    map_rest-Finds :
        (free : FreeList) (contents : Bytes)
        → IsFreeList hhdm free (y ∷ ys)
        → get_elem? file (h.p_offset + (h.p_vaddr % 4096 + j))
          ≡ some (contents (x + (h.p_vaddr % 4096 + j)))
        → Returns (Finds rounds satp) (map_rest free contents)
    unfolding map_pages from_usize Paging.bytes as_page_size
    map_rest-Finds free contents v copied =
        let frame = m.free.frames.0 in
        let o = m.offset in
        let w1 : add64 h.p_vaddr 0 ≡ h.p_vaddr = omega (arith, fits) in
        let w2 : add64 (sub64 x hhdm) 0 ≡ sub64 x hhdm = omega arith in
        let same : (h.p_vaddr + j) / 4096 ≡ h.p_vaddr / 4096 = omega arith in
        let phys = sub64 x hhdm in
        let start : State = record s.memory { free = free } in
        let place : x + (h.p_vaddr % 4096 + j) ≡ phys + (h.p_vaddr + j) % 4096 + hhdm =
          omega (arith, frame, o) in
        let memory : IsMemory hhdm level_of slot (y ∷ ys) start = record {
          offset = o;
          free = v;
          unused = m.unused.1;
          tables = m.tables;
        } in
        let moved =
          map hhdm fuel t h.p_vaddr phys (from_usize (above 1 d)) level1 page_flags start in
        let translated : Returns Translated moved =
          map-virt_to_phys hhdm h.p_vaddr phys 1 page_flags d t level_of slot (y ∷ ys) start
            (omega arith) deep (omega (arith, frame, o)) (omega (arith, frame, o))
            (to_pageflags-Permits h.p_flags some_flag flags) memory level frames way fuel rounds
            (h.p_vaddr + j) satp enough enough' same table in
        rw (w1, w2)
          (Returns-bind Translated (Finds rounds satp) (moved >>= λ s'. ok s')
            (λ memory. ok (record { memory = memory; contents = contents }))
            (Returns-bind Translated Translated moved (λ s'. ok s') translated (λ s' e. e))
            (λ s' e. (phys + (h.p_vaddr + j) % 4096, e, rw (← place) copied)))

    abbrev zeroed : Bytes
    zeroed = if h.p_filesz == 0 then zero_bytes x h.p_memsz s.contents else s.contents

    copy_rest-Finds :
        (free : FreeList)
        → IsFreeList hhdm free (y ∷ ys)
        → Returns
            (Finds rounds satp)
            (copy_bytes file x h.p_offset 0 h.p_filesz zeroed >>= map_rest free)
    copy_rest-Finds free v =
        let frame = m.free.frames.0 in
        Returns-bind (IsCopied file x h.p_offset 0 h.p_filesz zeroed) (Finds rounds satp)
          (copy_bytes file x h.p_offset 0 h.p_filesz zeroed) (map_rest free)
          (copy_bytes-IsCopied file x h.p_offset 0 h.p_filesz zeroed (omega (arith, frame))
            (omega arith) (omega arith))
          (λ contents c.
            let k = h.p_vaddr % 4096 + j in
            let e : 0 + h.p_offset + k ≡ h.p_offset + k = omega arith in
            let f : x + 0 + k ≡ x + k = omega arith in
            map_rest-Finds free contents v (
              ap (get_elem? file) (sym e)
              ∙ c.inside k inside
              ∙ ap (λ (a : ℕ). some (contents a)) f))

    -- A segment of at most a page, with flags and a part of the file that is not empty, is put in the
    -- first free frame, and its page is mapped there for the program. At an address `j` bytes behind
    -- the segment's address, in the same page, the program then finds the byte of the segment that is
    -- as far from its start as this address is from the start of the page: the `j`-th byte exactly
    -- where the segment's address is that of a page.
    pub load_segment-Finds :
        Returns (Finds rounds satp) (load_segment hhdm (above 1 d) fuel t file h s)
    unfolding load_segment steps
    load_segment-Finds =
        let one : frames_for h.p_memsz ≡ 1 = one_frame h.p_memsz (omega arith) page in
        let once : (h.p_memsz + 4095) / 4096 ≡ 1 = omega arith in
        rw (one, once)
          (Returns-bind (FirstGiven hhdm x (y ∷ ys)) (Finds rounds satp)
            (claim_continuous hhdm 1 s.memory.free)
            (λ (claimed, free). unwrap claimed >>= λ ptr.
              copy_bytes file ptr h.p_offset 0 h.p_filesz
                (if h.p_filesz == 0 then zero_bytes ptr h.p_memsz s.contents else s.contents)
              >>= λ contents.
                  map_pages hhdm (above 1 d) fuel t level1 4096 page_flags h.p_vaddr
                    (sub64 ptr hhdm) 0 1 (record s.memory { free = free })
                  >>= λ memory. ok (record { memory = memory; contents = contents }))
            (claim_continuous-one hhdm x y ys s.memory.free m.free)
            (λ (claimed, free) (e, v). rw e (copy_rest-Finds free v)))
