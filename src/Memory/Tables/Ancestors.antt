-- ===== src/Memory/Tables/Ancestors.antt =====
-- The tables above a table, by the slots that lead to them.
use lsd_limine.Prelude.{ℕ, zero, suc, ◌≤◌, ◌<◌, ◌≡◌, ◌≢◌, ◌⊎◌, refl, sym, ap, ◌∙◌, arith}
use lsd_limine.Memory.Fields.{BitField}
use lsd_limine.Memory.Paging.{from_usize}
use lsd_limine.Memory.Tables.{PageTable, index, entry_table}
use lsd_limine.Memory.Tables.Walks.{IsTables, index_level-lt, branch_level, Leads, above, above_le}

-- The table that is `k` slots above `u`.
abbrev pub up : (ℕ → ℕ × ℕ) → ℕ → ℕ → ℕ
up slot u zero = u
up slot u (suc k) = (slot (up slot u k)).0

pub above_inj : (n k d : ℕ) → above n k ≡ above n d → k ≡ d
above_inj n zero zero h = refl
above_inj n zero (suc d) h = absurd (omega (arith, h, above_le n d))
above_inj n (suc k) zero h = absurd (omega (arith, h, above_le n k))
above_inj n (suc k) (suc d) h = ap suc (above_inj n k d (omega (arith, h)))

-- The table is neither `last`, at level `n`, nor one that leads to it.
abbrev pub IsOff : (ℕ → ℕ) → (ℕ → ℕ × ℕ) → ℕ → ℕ → ℕ → Type 0
IsOff levels slot n last a = (k : ℕ) → levels a ≡ above n k → a ≢ up slot last k

module _ ⦃B : BitField⦄ where
  -- The addresses differ in their index at one of the levels from `n` up to `d` above it.
  abbrev pub IsApart : ℕ → ℕ → ℕ → ℕ → Type 0
  IsApart v w n zero = index w (from_usize n) ≢ index v (from_usize n)
  IsApart v w n (suc d) =
      (index w (from_usize (suc (above n d))) ≢ index v (from_usize (suc (above n d))))
      ⊎ IsApart v w n d

module _ ⦃B : BitField⦄ (hhdm : ℕ) where
  pub up-Leads :
      (levels : ℕ → ℕ) (slot : ℕ → ℕ × ℕ) (T : ℕ → PageTable) (v n d t u : ℕ)
      → IsTables hhdm levels slot T
      → 0 < n
      → above n d ≤ 5
      → levels t ≡ above n d
      → Leads hhdm T v n d t u
      → up slot u d ≡ t
  up-Leads levels slot T v n zero t u g p q l x = sym x
  up-Leads levels slot T v n (suc d) t u g p q l x =
      let j = index v (from_usize (suc (above n d))) in
      let b =
        branch_level hhdm levels slot t j (T t j)
          (g t j (omega (arith, l)) (index_level-lt v (suc (above n d)) (omega arith) q)) x.0 in
      ap (λ (a : ℕ). (slot a).0)
        (up-Leads levels slot T v n d (entry_table hhdm (T t j)) u g p (omega arith)
          (omega (arith, b.1, l)) x.1)
      ∙ ap (λ (a : ℕ × ℕ). a.0) b.2
