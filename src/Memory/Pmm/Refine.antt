-- ===== src/Memory/Pmm/Refine.antt =====
-- Calls in a row, on the free list in memory and on a plain list of frames.
use lsd_limine.Prelude.{
  ℕ, suc, ◌^◌, ◌<◌, ◌≡◌, refl, List, [], ◌∷◌, ◌++◌, false, length, Run, ok, ◌>>=◌, Returns,
  Returns-bind,
}
use lsd_limine.Memory.Pmm.{Cells, FreeList, push, pull, claim}
use lsd_limine.Memory.Pmm.Linked.{has, IsFrame, IsFreeList}
use lsd_limine.Memory.Pmm.Basic.{HasCells, push-grows, pull-grows}
use lsd_limine.Memory.Pmm.Claim.{Claimed, claim-grows}

pub data Op : Type 0 where
  give_back : ℕ → Op
  give_front : ℕ → Op
  take : Op

-- A row of calls; what the claims return, in order.
unfoldable pub run : ℕ → List Op → FreeList → Run (List ℕ × FreeList)
run hhdm [] s = ok ([], s)
run hhdm (give_back p ∷ ops) s = do s ← push hhdm p s; run hhdm ops s
run hhdm (give_front p ∷ ops) s = do s ← pull hhdm p s; run hhdm ops s
run hhdm (take ∷ ops) s = do (p, s) ← claim hhdm s; (out, s) ← run hhdm ops s; ok (p ∷ out, s)

-- The same on a list: what is taken, and the list that is left.
unfoldable pub taken : List Op → List ℕ → List ℕ
taken [] xs = []
taken (give_back p ∷ ops) xs = taken ops (xs ++ p ∷ [])
taken (give_front p ∷ ops) xs = taken ops (p ∷ xs)
taken (take ∷ ops) [] = []
taken (take ∷ ops) (x ∷ xs) = x ∷ taken ops xs

unfoldable pub left : List Op → List ℕ → List ℕ
left [] xs = xs
left (give_back p ∷ ops) xs = left ops (xs ++ p ∷ [])
left (give_front p ∷ ops) xs = left ops (p ∷ xs)
left (take ∷ ops) [] = []
left (take ∷ ops) (x ∷ xs) = left ops xs

-- A frame may be given to a list that is not empty if it is mapped, not in the list, and the length
-- fits; one may be taken from a list of two at least.
abbrev pub MayGive : ℕ → Cells → ℕ → List ℕ → Type 0
MayGive hhdm c p [] = ⊥
MayGive hhdm c p (x ∷ xs) =
    IsFrame hhdm p × HasCells c p × (has p (x ∷ xs) ≡ false) × (suc (length (x ∷ xs)) < 2 ^ 64)

abbrev pub MayRun : ℕ → Cells → List Op → List ℕ → Type 0
MayRun hhdm c [] xs = Unit
MayRun hhdm c (give_back p ∷ ops) xs = MayGive hhdm c p xs × MayRun hhdm c ops (xs ++ p ∷ [])
MayRun hhdm c (give_front p ∷ ops) xs = MayGive hhdm c p xs × MayRun hhdm c ops (p ∷ xs)
MayRun hhdm c (take ∷ ops) [] = ⊥
MayRun hhdm c (take ∷ ops) (x ∷ []) = ⊥
MayRun hhdm c (take ∷ ops) (x ∷ y ∷ xs) = MayRun hhdm c ops (y ∷ xs)

abbrev pub Agrees : ℕ → List Op → List ℕ → List ℕ × FreeList → Type 0
Agrees hhdm ops xs (out, s) = (out ≡ taken ops xs) × IsFreeList hhdm s (left ops xs)

module _ (hhdm : ℕ) (c : Cells) where
  -- What was readable at first is readable.
  abbrev Reads : FreeList → Type 0
  Reads s = (a : ℕ) → HasCells c a → HasCells s.cells a

  run-Agrees :
      (ops : List Op) (xs : List ℕ) (s : FreeList)
      → IsFreeList hhdm s xs
      → Reads s
      → MayRun hhdm c ops xs
      → Returns (Agrees hhdm ops xs) (run hhdm ops s)
  unfolding run taken left
  run-Agrees [] xs s v r may = (refl, v)
  run-Agrees (give_back p ∷ ops) [] s v r may = elim (may.0) [ ]
  run-Agrees (give_back p ∷ ops) (x ∷ xs) s v r ((f, cells, out, room), may) =
      let (e, at) = r p cells in
      Returns-bind
        (λ s'.
          IsFreeList hhdm s' (x ∷ xs ++ p ∷ [])
          × ((a : ℕ) → HasCells s.cells a → HasCells s'.cells a))
        (Agrees hhdm (give_back p ∷ ops) (x ∷ xs)) (push hhdm p s) (λ s. run hhdm ops s)
        (push-grows hhdm p s e f at x xs v out room)
        (λ s' (w, grows). run-Agrees ops (x ∷ xs ++ p ∷ []) s' w (λ a k. grows a (r a k)) may)
  run-Agrees (give_front p ∷ ops) [] s v r may = elim (may.0) [ ]
  run-Agrees (give_front p ∷ ops) (x ∷ xs) s v r ((f, cells, out, room), may) =
      let (e, at) = r p cells in
      Returns-bind
        (λ s'.
          IsFreeList hhdm s' (p ∷ x ∷ xs) × ((a : ℕ) → HasCells s.cells a → HasCells s'.cells a))
        (Agrees hhdm (give_front p ∷ ops) (x ∷ xs)) (pull hhdm p s) (λ s. run hhdm ops s)
        (pull-grows hhdm p s e f at x xs v out room)
        (λ s' (w, grows). run-Agrees ops (p ∷ x ∷ xs) s' w (λ a k. grows a (r a k)) may)
  run-Agrees (take ∷ ops) [] s v r may = elim may [ ]
  run-Agrees (take ∷ ops) (x ∷ []) s v r may = elim may [ ]
  run-Agrees (take ∷ ops) (x ∷ y ∷ xs) s v r may =
      Returns-bind
        (λ (p, s').
          Claimed hhdm x (y ∷ xs) (p, s') × ((a : ℕ) → HasCells s.cells a → HasCells s'.cells a))
        (Agrees hhdm (take ∷ ops) (x ∷ y ∷ xs)) (claim hhdm s)
        (λ (p, s). run hhdm ops s >>= λ (out, s). ok (p ∷ out, s)) (claim-grows hhdm s x y xs v)
        (λ (p, s') ((e, w), grows).
          Returns-bind (Agrees hhdm ops (y ∷ xs)) (Agrees hhdm (take ∷ ops) (x ∷ y ∷ xs))
            (run hhdm ops s') (λ (out, s). ok (p ∷ out, s))
            (run-Agrees ops (y ∷ xs) s' w (λ a k. grows a (r a k)) may)
            (λ (out, s'') (same, z). (rw (e, same) refl, z)))

-- Any row of calls that may be made returns. The claims give exactly the frames that a plain list
-- gives, to which `push` appends and before which `pull` puts a frame, and the free list then holds
-- what is left of that list.
pub run_refines :
    (hhdm : ℕ) (ops : List Op) (xs : List ℕ) (s : FreeList)
    → IsFreeList hhdm s xs
    → MayRun hhdm s.cells ops xs
    → Returns (Agrees hhdm ops xs) (run hhdm ops s)
run_refines hhdm ops xs s v may = run-Agrees hhdm s.cells ops xs s v (λ a k. k) may
