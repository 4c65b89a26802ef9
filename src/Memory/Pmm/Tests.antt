-- ===== src/Memory/Pmm/Tests.antt =====
-- The free list on a memory of three free frames, of which the first two are neighbours.
use lsd_limine.Prelude.{
  List, false, true, ℕ, ◌==◌, if◌then◌else◌, [], ◌∷◌, refl, arith, true, Returns, some, ◌≡◌, ◌%◌,
  ◌^◌,
}
use lsd_limine.Memory.Pmm.{entry, null, Cells, FreeList, claim, claim_continuous, claim_aligned}
use lsd_limine.Memory.Pmm.Linked.{IsFreeList}
use lsd_limine.Memory.Pmm.Refine.{Op, take, give_back, MayRun, Agrees, run, run_refines}
use lsd_limine.Memory.Pmm.Claim.{claim_last-head}
use lsd_limine.Memory.Pmm.Map.{MemoryEntry, init_from, null_list}
use lsd_limine.Memory.Pmm.Map.Frames.{map_frames, init_from-IsFreeList}
use lsd_limine.Memory.Pmm.Scan.{Outcome}
use lsd_limine.Memory.Pmm.Scan.Contiguous.{claim_continuous-Outcome, claim_aligned-Outcome}

abbrev offset : ℕ
offset = 0x1000

abbrev three_cells : Cells
three_cells a =
    if a == 0x8000
    then some (entry null 0x9000)
    else if a == 0x9000
    then some (entry 0x8000 0xb000)
    else if a == 0xb000
    then some (entry 0x9000 null)
    else some (entry null null)

abbrev three : FreeList
three = record { head = 0x8000; tail = 0xb000; len = 3; cells = three_cells }

three-IsFreeList : IsFreeList offset three (0x8000 ∷ 0x9000 ∷ 0xb000 ∷ [])
three-IsFreeList = record {
  offset = omega arith;
  head = refl;
  tail = refl;
  len = refl;
  room = omega arith;
  linked = (refl, (refl, (refl, tt)));
  distinct = (refl, (refl, (refl, tt)));
  frames = (
    (omega arith, omega arith, refl, omega arith),
    (
      (omega arith, omega arith, refl, omega arith),
      ((omega arith, omega arith, refl, omega arith), tt),
    ),
  );
}

abbrev last_one : FreeList
last_one = record { head = 0x8000; tail = 0x8000; len = 1; cells = λ a. some (entry null null) }

last_one-IsFreeList : IsFreeList offset last_one (0x8000 ∷ [])
last_one-IsFreeList = record {
  offset = omega arith;
  head = refl;
  tail = refl;
  len = refl;
  room = omega arith;
  linked = (refl, tt);
  distinct = (refl, tt);
  frames = ((omega arith, omega arith, refl, omega arith), tt);
}

claim_last_example :
    Returns (λ (p, s'). (p ≡ 0x8000) × (s'.head ≡ 0x9000) × (s'.len ≡ 0)) (claim offset last_one)
claim_last_example =
    claim_last-head offset last_one 0x8000 (entry null null) last_one-IsFreeList refl

claim_continuous_example :
    Outcome offset
      (λ _. true)
      2
      three
      (0x8000 ∷ 0x9000 ∷ 0xb000 ∷ [])
      (0x8000 ∷ 0x9000 ∷ 0xb000 ∷ [])
      (claim_continuous offset 2 three)
claim_continuous_example =
    claim_continuous-Outcome offset 2 three 0x8000 (0x9000 ∷ 0xb000 ∷ []) (omega arith)
      three-IsFreeList

claim_aligned_example :
    Outcome offset
      (λ base. base % 2 ^ 15 == 0)
      2
      three
      (0x8000 ∷ 0x9000 ∷ 0xb000 ∷ [])
      (0x8000 ∷ 0x9000 ∷ 0xb000 ∷ [])
      (claim_aligned offset 2 (2 ^ 15) three)
claim_aligned_example =
    claim_aligned-Outcome offset 2 three 0x8000 (0x9000 ∷ 0xb000 ∷ []) 15 (omega arith)
      (omega arith) three-IsFreeList

-- Memory all of whose addresses can be read, with two frames in an entry behind one that is in use.
abbrev readable : Cells
readable a = some (entry null null)

abbrev small_map : List MemoryEntry
small_map =
    record { base = 0x3000; size = 0x1000; usable = false }
    ∷ record { base = 0x7000; size = 0x2000; usable = true }
    ∷ []

init_from_example :
    Returns
      (λ s. IsFreeList offset s (map_frames offset small_map))
      (init_from offset small_map (null_list readable))
init_from_example =
    init_from-IsFreeList offset readable (omega arith) small_map 0x8000 (0x9000 ∷ []) refl
      (
        (omega arith, omega arith, refl, omega arith),
        ((omega arith, omega arith, refl, omega arith), tt),
      )
      ((entry null null, refl), ((entry null null, refl), tt)) (refl, (refl, tt)) (omega arith)

-- A frame is taken, given back, and another one taken.
abbrev calls : List Op
calls = take ∷ give_back 0x8000 ∷ take ∷ []

calls-MayRun : MayRun offset three_cells calls (0x8000 ∷ 0x9000 ∷ 0xb000 ∷ [])
calls-MayRun = (
  ((omega arith, omega arith, refl, omega arith), (entry null 0x9000, refl), refl, omega arith),
  tt,
)

run_refines_example :
    Returns (Agrees offset calls (0x8000 ∷ 0x9000 ∷ 0xb000 ∷ [])) (run offset calls three)
run_refines_example =
    run_refines offset calls (0x8000 ∷ 0x9000 ∷ 0xb000 ∷ []) three three-IsFreeList calls-MayRun
