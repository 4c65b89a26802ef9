-- ===== src/Memory/Tables/Kept.antt =====
-- Walks through entries that `map` keeps.
use lsd_limine.Prelude.{
  ℕ, zero, suc, ◌≤◌, ◌<◌, ◌≡◌, ◌≢◌, ◌⊎◌, inl, inr, refl, sym, ap, ◌∙◌, true, false, arith, Option,
  none, some, Run, ok, lt→ltb, Bool-cases, ◌==◌, ==→eq, ==→ne, ◌-◌, subst,
}
use lsd_limine.Memory.Fields.{BitField}
use lsd_limine.Memory.Paging.{from_usize}
use lsd_limine.Memory.Tables.{PageTable, index, is_branch, is_leaf, entry_table, walk, translate}
use lsd_limine.Memory.Tables.Entries.{branch-no_leaf, zero-invalid}
use lsd_limine.Memory.Tables.Index.{below-from_usize}
use lsd_limine.Memory.Tables.Ancestors.{IsOff, up, above_inj, IsApart, up-Leads}
use lsd_limine.Memory.Tables.Walks.{
  IsTables, entry_at, index_level-lt, branch_level, walk-leaf, Leads, above, above_le,
}

-- The physical address that a walk returns, if it does.
abbrev pub Finds : Run (Option ℕ) → ℕ → Type 0
Finds m r = m ≡ ok (some r)

module _ ⦃B : BitField⦄ (hhdm : ℕ) (T : ℕ → PageTable) (w l t rounds : ℕ) (low : suc l ≤ 5) where
  walk_at_branch :
      is_branch (entry_at T w (suc l) t) ≡ true
      → walk hhdm (suc rounds) t w (from_usize (suc l)) T
        ≡ walk hhdm rounds (entry_table hhdm (entry_at T w (suc l) t)) w (from_usize l) T
  unfolding walk
  walk_at_branch b =
      rw
        (
          lt→ltb _ 512 (index_level-lt w (suc l) (omega arith) low),
          branch-no_leaf (entry_at T w (suc l) t) b,
          b,
          below-from_usize l (omega arith),
        )
        refl

  walk_at_neither :
      is_leaf (entry_at T w (suc l) t) ≡ false
      → is_branch (entry_at T w (suc l) t) ≡ false
      → walk hhdm (suc rounds) t w (from_usize (suc l)) T ≡ ok none
  unfolding walk
  walk_at_neither a b = rw (lt→ltb _ 512 (index_level-lt w (suc l) (omega arith) low), a, b) refl

module _ ⦃B : BitField⦄ (hhdm : ℕ) where
  module _ (T T' : ℕ → PageTable) (levels levels' : ℕ → ℕ) (slot slot' : ℕ → ℕ × ℕ) (v w n last : ℕ)
      (pos : 0 < n) (g : IsTables hhdm levels slot T) (g' : IsTables hhdm levels' slot' T')
      (same : (a : ℕ) → 0 < levels a → levels' a ≡ levels a) (level : levels' last ≡ n)
      (kept : (a j : ℕ)
        → 0 < levels a
        → j < 512
        → T a j ≢ 0
        → (a ≢ last) ⊎ (j ≢ index v (from_usize n))
        → T' a j ≡ T a j) where
    -- What a round that finds an address in the first tables does in both.
    record Down (rounds l t r : ℕ) : Type 0 where
      branch : is_branch (entry_at T' w (suc l) t) ≡ true
      next_level : levels (entry_table hhdm (entry_at T' w (suc l) t)) ≡ l
      low : 0 < l
      found :
          Finds (walk hhdm rounds (entry_table hhdm (entry_at T' w (suc l) t)) w (from_usize l) T) r
      then :
          Finds
            (walk hhdm rounds (entry_table hhdm (entry_at T' w (suc l) t)) w (from_usize l) T')
            r
          → Finds (walk hhdm (suc rounds) t w (from_usize (suc l)) T') r

    walk_round :
        (rounds l t r : ℕ)
        → levels t ≡ suc l
        → suc l ≤ 5
        → (t ≢ last) ⊎ (index w (from_usize (suc l)) ≢ index v (from_usize n))
        → Finds (walk hhdm (suc rounds) t w (from_usize (suc l)) T) r
        → Finds (walk hhdm (suc rounds) t w (from_usize (suc l)) T') r ⊎ Down rounds l t r
    walk_round rounds l t r h q o f =
        let j = index w (from_usize (suc l)) in
        let lt = index_level-lt w (suc l) (omega arith) q in
        elim (Bool-cases (is_leaf (T t j))) [
          | inl a ↦
              let e =
                kept t j (omega (arith, h)) lt (λ z. cc (ap is_leaf z, zero-invalid.2, a)) o in
              inl (
                walk-leaf hhdm T' w (suc l) t rounds (omega arith) q (ap is_leaf e ∙ a)
                ∙ ap (λ (x : ℕ). ok (some (translate (from_usize (suc l)) w x))) e
                ∙ sym (walk-leaf hhdm T w (suc l) t rounds (omega arith) q a)
                ∙ f)
          | inr a ↦ elim (Bool-cases (is_branch (T t j))) [
            | inl b ↦
                let e =
                  kept t j (omega (arith, h)) lt (λ z. cc (ap is_branch z, zero-invalid.1, b)) o in
                let b' : is_branch (T' t j) ≡ true = ap is_branch e ∙ b in
                let down =
                  branch_level hhdm levels slot t j (T t j) (g t j (omega (arith, h)) lt) b in
                inr (record {
                  branch = b';
                  next_level =
                      ap (λ (x : ℕ). levels (entry_table hhdm x)) e ∙ omega (arith, down.1, h);
                  low = omega (arith, down.0, down.1, h);
                  found =
                      ap (λ (x : ℕ). walk hhdm rounds (entry_table hhdm x) w (from_usize l) T) e
                      ∙ sym (walk_at_branch hhdm T w l t rounds q b)
                      ∙ f;
                  then = λ k. walk_at_branch hhdm T' w l t rounds q b' ∙ k;
                })
            | inr b ↦ absurd (cc (sym (walk_at_neither hhdm T w l t rounds q a b) ∙ f))
          ]
        ]

    child :
        (l t : ℕ)
        → levels t ≡ suc l
        → suc l ≤ 5
        → is_branch (entry_at T' w (suc l) t) ≡ true
        → (0 < levels' (entry_table hhdm (entry_at T' w (suc l) t)))
          × (suc (levels' (entry_table hhdm (entry_at T' w (suc l) t))) ≡ suc l)
          × (slot' (entry_table hhdm (entry_at T' w (suc l) t)) ≡ (t, index w (from_usize (suc l))))
    child l t h q b =
        let j = index w (from_usize (suc l)) in
        let e = same t (omega (arith, h)) in
        let k =
          branch_level hhdm levels' slot' t j (T' t j)
            (g' t j (omega (arith, h, e)) (index_level-lt w (suc l) (omega arith) q)) b in
        (k.0, k.1 ∙ e ∙ h, k.2)

    walk-off :
        (rounds l t r : ℕ)
        → levels t ≡ l
        → 0 < l
        → l ≤ 5
        → IsOff levels' slot' n last t
        → Finds (walk hhdm rounds t w (from_usize l) T) r
        → Finds (walk hhdm rounds t w (from_usize l) T') r
    unfolding walk
    walk-off zero l t r h p q o f = f
    walk-off (suc rounds) zero t r h p q o f = absurd (omega arith)
    walk-off (suc rounds) (suc l) t r h p q o f =
        let c = entry_table hhdm (entry_at T' w (suc l) t) in
        elim (walk_round rounds l t r h q (inl (λ e. o 0 (ap levels' e ∙ level) e)) f) [
          | inl done ↦ done
          | inr down ↦
              let b = child l t h q down.branch in
              down.then (
                walk-off rounds l c r down.next_level down.low (omega arith)
                  (λ k hk e.
                    o (suc k) (omega (arith, b.1, hk))
                      (sym (ap (λ (x : ℕ × ℕ). x.0) b.2) ∙ ap (λ (x : ℕ). (slot' x).0) e))
                  down.found)
        ]

    -- Where the addresses differ in an index, the walk of the one never uses the leaf of the other.
    pub walk-apart :
        (d rounds t r : ℕ)
        → levels t ≡ above n d
        → above n d ≤ 5
        → Leads hhdm T' v n d t last
        → IsApart v w n d
        → Finds (walk hhdm rounds t w (from_usize (above n d)) T) r
        → Finds (walk hhdm rounds t w (from_usize (above n d)) T') r
    unfolding walk
    walk-apart d zero t r h q x o f = f
    walk-apart zero (suc rounds) t r h q x o f =
        let l = n - 1 in
        let e : n ≡ suc l = omega arith in
        subst
          (λ (m : ℕ).
            Finds (walk hhdm (suc rounds) t w (from_usize m) T) r
            → Finds (walk hhdm (suc rounds) t w (from_usize m) T') r)
          (sym e)
          (λ f'.
            elim (walk_round rounds l t r (omega (arith, h, e)) (omega (arith, e))
              (inr (λ y. o (ap (λ (m : ℕ). index w (from_usize m)) e ∙ y))) f') [
                | inl done ↦ done
                | inr down ↦ down.then (
                    walk-off rounds l (entry_table hhdm (entry_at T' w (suc l) t)) r down.next_level
                      down.low (omega (arith, e))
                      (λ k hk. absurd (
                        omega (
                          arith,
                          hk,
                          e,
                          above_le n k,
                          same (entry_table hhdm (entry_at T' w (suc l) t))
                              (omega (arith, down.next_level, down.low)),
                          down.next_level,
                        )))
                      down.found)
              ])
          f
    walk-apart (suc d) (suc rounds) t r h q x o f =
        let l = above n d in
        let i = index w (from_usize (suc l)) in
        let j = index v (from_usize (suc l)) in
        let c = entry_table hhdm (entry_at T' w (suc l) t) in
        let top : t ≢ last = λ e.
          absurd (omega (arith, ap levels' e, level, same t (omega (arith, h)), h, above_le n d)) in
        elim (walk_round rounds l t r h q (inl top) f) [
          | inl done ↦ done
          | inr down ↦ elim (Bool-cases (i == j)) [
            | inl e ↦
                let e' = ==→eq i j e in
                down.then (
                  walk-apart d rounds c r down.next_level (omega arith)
                    (subst (λ (y : ℕ). Leads hhdm T' v n d (entry_table hhdm (T' t y)) last)
                      (sym e') x.1)
                    (elim o [ inl y ↦ absurd (y e') | inr y ↦ y ]) down.found)
            | inr e ↦ down.then (
                walk-off rounds l c r down.next_level down.low (omega arith)
                  (λ k hk e2.
                    let b = child l t h q down.branch in
                    let bv =
                      branch_level hhdm levels' slot' t j (T' t j)
                        (g' t j (omega (arith, h, same t (omega (arith, h))))
                          (index_level-lt v (suc l) (omega arith) q))
                        x.0 in
                    let meet : c ≡ entry_table hhdm (T' t j) =
                      e2
                      ∙ ap (up slot' last) (above_inj n k d (omega (arith, hk, b.1)))
                      ∙ up-Leads hhdm levels' slot' T' v n d (entry_table hhdm (T' t j)) last g' pos
                          (omega arith) (omega (arith, bv.1, same t (omega (arith, h)), h)) x.1 in
                    ==→ne i j e (ap (λ (y : ℕ × ℕ). y.1) (sym b.2 ∙ ap slot' meet ∙ bv.2)))
                  down.found)
          ]
        ]
