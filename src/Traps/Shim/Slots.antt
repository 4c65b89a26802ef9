-- ===== src/Traps/Shim/Slots.antt =====
-- Words at distances from a base address.
use lsd_limine.Prelude.{
  ℕ, ◌+◌, ◌≤◌, ◌<◌, ◌^◌, ◌≡◌, [], ◌∷◌, ◌==◌, if◌then◌else◌, List, add64, All, ◌∙◌, ◌⊎◌, ap, arith,
  refl,
}
use lsd_limine.Traps.Shim.{Memory, put}

abbrev pub put_all : ℕ → List (ℕ × ℕ) → Memory → Memory
put_all base [] m = m
put_all base ((o, v) ∷ l) m = put_all base l (put m (add64 base o) v)

-- The value that the last write to a distance leaves.
abbrev pub slot : List (ℕ × ℕ) → ℕ → ℕ → ℕ
slot [] o d = d
slot ((o', v) ∷ l) o d = slot l o (if o' == o then v else d)

pub put_all-slot :
    (base : ℕ) (l : List (ℕ × ℕ)) (m : Memory) (o : ℕ)
    → base + 256 ≤ 2 ^ 64
    → All (λ w. w.0 < 256) l
    → o < 256
    → put_all base l m (add64 base o) ≡ slot l o (m (add64 base o))
put_all-slot base [] m o fits h lt = refl
put_all-slot base ((o', v) ∷ l) m o fits h lt =
    put_all-slot base l (put m (add64 base o') v) o fits h.1 lt ∙ ap (slot l o) (ground arith)

pub put_all_outside :
    (base : ℕ) (l : List (ℕ × ℕ)) (m : Memory) (a : ℕ)
    → base + 256 ≤ 2 ^ 64
    → All (λ w. w.0 < 256) l
    → (a < base) ⊎ (base + 256 ≤ a)
    → put_all base l m a ≡ m a
put_all_outside base [] m a fits h out = refl
put_all_outside base ((o', v) ∷ l) m a fits h out =
    put_all_outside base l (put m (add64 base o') v) a fits h.1 out ∙ ground arith
