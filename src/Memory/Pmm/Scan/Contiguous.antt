-- ===== src/Memory/Pmm/Scan/Contiguous.antt =====
-- `claim_continuous` and `claim_aligned` on a list of free frames.
use native.Mathlib.Nat.{one-le-pow}
use mathlib.Core.Path.{fun_ext}
use lsd_limine.Prelude.Bits.{bit_and_ones}
use lsd_limine.Prelude.{
  ◌==◌, ◌%◌, ◌-◌, ℕ, ◌<◌, ◌∷◌, arith, inl, refl, subst, ne→==, ◌^◌, sym, ◌≡◌, ap, ◌∙◌,
}
use lsd_limine.Memory.Pmm.{
  FreeList, claim_continuous, claim_aligned, Bool, scan, true, sub64, bit_and,
}
use lsd_limine.Memory.Pmm.Linked.{IsFreeList}
use lsd_limine.Memory.Pmm.Scan.{Outcome, List, []}
use lsd_limine.Memory.Pmm.Scan.Loop.{scan-Search}

module _ (hhdm frames : ℕ) (s : FreeList) (x : ℕ) (xs : List ℕ) where
  scan-Outcome :
      (aligned : ℕ → Bool)
      → 1 < frames
      → IsFreeList hhdm s (x ∷ xs)
      → Outcome hhdm aligned frames s
          (x ∷ xs)
          (x ∷ xs)
          (scan aligned frames s.len s.head s.head 1 s)
  scan-Outcome aligned many v =
      subst
        (λ b.
          Outcome hhdm aligned frames s (x ∷ xs) (x ∷ xs) (scan aligned frames s.len b s.head 1 s))
        (sym v.head)
        (scan-Search hhdm aligned frames s many s.len x 0 [] xs s.head 1 (omega (arith, v.head))
          refl v v.len (omega arith) (inl refl))

  -- For two frames or more, on a list that is not empty, `claim_continuous` returns. It takes the
  -- frames of a run of so many neighbours out of the list, if a frame stands behind them, and
  -- leaves a list of the others in their order; or it returns `Err`, the state is what it was and
  -- the list holds no such run; or the run that it found ends the list, and it writes through a
  -- null pointer.
  pub claim_continuous-Outcome :
      1 < frames
      → IsFreeList hhdm s (x ∷ xs)
      → Outcome hhdm (λ _. true) frames s (x ∷ xs) (x ∷ xs) (claim_continuous hhdm frames s)
  unfolding claim_continuous
  claim_continuous-Outcome many v =
      rw (ne→== frames 1 (omega arith)) (scan-Outcome (λ _. true) many v)

  -- The same of `claim_aligned` with a page size of `2 ^ j` that fits a u64: the run begins at a
  -- multiple of it.
  pub claim_aligned-Outcome :
      (j : ℕ)
      → 2 ^ j < 2 ^ 64
      → 1 < frames
      → IsFreeList hhdm s (x ∷ xs)
      → Outcome hhdm
          (λ base. base % 2 ^ j == 0)
          frames
          s
          (x ∷ xs)
          (x ∷ xs)
          (claim_aligned hhdm frames (2 ^ j) s)
  unfolding claim_aligned
  claim_aligned-Outcome j lt many v =
      let pos = one-le-pow j 2 (omega arith) in
      let ones : sub64 (2 ^ j) 1 ≡ 2 ^ j - 1 = omega arith in
      let mask : (λ (base : ℕ). bit_and base (sub64 (2 ^ j) 1) == 0) ≡ (λ base. base % 2 ^ j == 0) =
        fun_ext λ base. ap (λ (b : ℕ). b == 0) (ap (bit_and base) ones ∙ bit_and_ones j base) in
      rw (ne→== frames 1 (omega arith)) (
        subst
          (λ aligned.
            Outcome hhdm (λ base. base % 2 ^ j == 0) frames s (x ∷ xs) (x ∷ xs)
              (scan aligned frames s.len s.head s.head 1 s))
          (sym mask) (scan-Outcome (λ base. base % 2 ^ j == 0) many v))
