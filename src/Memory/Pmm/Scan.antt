-- ===== src/Memory/Pmm/Scan.antt =====
-- `claim_continuous` and `claim_aligned` for two frames or more.
pub mod Unlink
pub mod Cut
pub mod Loop
pub mod Contiguous
use lsd_limine.Prelude.{
  ℕ, zero, suc, ◌+◌, ◌≡◌, Bool, true, false, ◌&&◌, Option, none, some, List, [], ◌∷◌, ◌++◌, ◌==◌,
  Run, ok, panic, fault, out_of_fuel,
}
use lsd_limine.Memory.Pmm.{FreeList}
use lsd_limine.Memory.Pmm.Linked.{IsFreeList}

-- `n` frames that follow one another from `base` on.
abbrev pub run_of : ℕ → ℕ → List ℕ
run_of base zero = []
run_of base (suc n) = base ∷ run_of (base + 4096) n

abbrev pub starts : ℕ → ℕ → List ℕ → Bool
starts base zero xs = true
starts base (suc n) [] = false
starts base (suc n) (x ∷ xs) = (x == base) && starts (base + 4096) n xs

-- No `frames` frames in a row from an aligned frame on stand in the list.
abbrev pub NoRun : (ℕ → Bool) → ℕ → List ℕ → Type 0
NoRun aligned frames [] = Unit
NoRun aligned frames (x ∷ xs) =
    ((aligned x && starts x frames (x ∷ xs)) ≡ false) × NoRun aligned frames xs

-- What may come of a search for `frames` frames in `rest`, the part of the list `xs` that it has
-- yet to leave behind: the run is cut out of the list; there is none, and nothing has changed; or
-- it ends the list, and the search writes through a null pointer.
abbrev pub Outcome :
    ℕ → (ℕ → Bool) → ℕ → FreeList → List ℕ → List ℕ → Run (Option ℕ × FreeList) → Type 0
Outcome hhdm aligned frames s xs rest (ok (none, s')) = (s' ≡ s) × NoRun aligned frames rest
Outcome hhdm aligned frames s xs rest (ok (some b, s')) =
    (pre : List ℕ) × (y : ℕ) × (post : List ℕ) × (xs ≡ pre ++ (run_of b frames ++ y ∷ post))
    × (aligned b ≡ true)
    × IsFreeList hhdm s' (pre ++ y ∷ post)
Outcome hhdm aligned frames s xs rest fault =
    (pre : List ℕ) × (b : ℕ) × (xs ≡ pre ++ run_of b frames) × (aligned b ≡ true)
Outcome hhdm aligned frames s xs rest panic = ⊥
Outcome hhdm aligned frames s xs rest out_of_fuel = ⊥
