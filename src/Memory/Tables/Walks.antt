-- ===== src/Memory/Tables/Walks.antt =====
-- Well-formed page tables, and the tables that an address is looked up in.
use lsd_limine.Prelude.{
  ℕ, zero, suc, ◌≤◌, ◌<◌, ◌≡◌, ◌≢◌, ◌⊎◌, inl, inr, refl, true, arith, Option, none, some, Run, ok,
  ==_refl, ne→==, Bool-cases, sym, lt→ltb, ◌==◌, ==→eq, ap, ◌∙◌,
}
use lsd_limine.Memory.Fields.{BitField}
use lsd_limine.Memory.Paging.{from_usize}
use lsd_limine.Memory.Tables.Entries.{zero-invalid, leaf-no_branch, branch-no_leaf}
use lsd_limine.Memory.Tables.Index.{index-lt, as_usize-from_usize, below-from_usize}
use lsd_limine.Memory.Tables.{
  PageTable, write_volatile, put, index, is_branch, is_leaf, entry_table, walk, translate,
}

pub write_volatile_self : (T : ℕ → PageTable) (t : ℕ) (p : PageTable) → write_volatile T t p t ≡ p
unfolding write_volatile
write_volatile_self T t p = rw (==_refl t) refl

pub write_volatile_ne :
    (T : ℕ → PageTable) (t : ℕ) (p : PageTable) (a : ℕ) → a ≢ t → write_volatile T t p a ≡ T a
unfolding write_volatile
write_volatile_ne T t p a h = rw (ne→== a t h) refl

pub put_self : (p : PageTable) (i e : ℕ) → put p i e i ≡ e
unfolding put
put_self p i e = rw (==_refl i) refl

pub put_ne : (p : PageTable) (i e j : ℕ) → j ≢ i → put p i e j ≡ p j
unfolding put
put_ne p i e j h = rw (ne→== j i h) refl

-- A change of one entry leaves every other entry as it was.
pub put_elsewhere :
    (T : ℕ → PageTable) (t i e a j : ℕ)
    → (a ≢ t) ⊎ (j ≢ i)
    → write_volatile T t (put (T t) i e) a j ≡ T a j
unfolding write_volatile put
put_elsewhere T t i e a j h = elim (Bool-cases (a == t)) [
  | inl s ↦ elim (Bool-cases (j == i)) [
    | inl q ↦ absurd (elim h [ inl n ↦ n (==→eq a t s) | inr n ↦ n (==→eq j i q) ])
    | inr q ↦ let same : a ≡ t = ==→eq a t s in rw (s, q, same) refl
  ]
  | inr s ↦ rw s refl
]

-- The level that is `d` levels above level `n`.
abbrev pub above : ℕ → ℕ → ℕ
above n zero = n
above n (suc d) = suc (above n d)

pub above_le : (n d : ℕ) → n ≤ above n d
above_le n zero = omega arith
above_le n (suc d) = omega (arith, above_le n d)

module _ ⦃B : BitField⦄ where
  -- The entry of the table at `t` for an address at a level.
  abbrev pub entry_at : (ℕ → PageTable) → ℕ → ℕ → ℕ → ℕ
  entry_at T v l t = T t (index v (from_usize l))

  pub index_level-lt : (v l : ℕ) → 0 < l → l ≤ 5 → index v (from_usize l) < 512
  index_level-lt v l h k = index-lt v (from_usize l) (rw (as_usize-from_usize l k) h)

module _ ⦃B : BitField⦄ (hhdm : ℕ) where
  -- Entry `j` of the table at `a`: nothing, a page, or a table of the level below whose slot it is.
  abbrev pub IsEntry : (ℕ → ℕ) → (ℕ → ℕ × ℕ) → ℕ → ℕ → ℕ → Type 0
  IsEntry levels slot a j e =
      (e ≡ 0)
      ⊎ ((is_leaf e ≡ true)
          ⊎ ((is_branch e ≡ true)
              × (0 < levels (entry_table hhdm e))
              × (suc (levels (entry_table hhdm e)) ≡ levels a)
              × (slot (entry_table hhdm e) ≡ (a, j))))

  -- Every table has a level, which is 0 where there is no table, and at most one entry leads to it.
  abbrev pub IsTables : (ℕ → ℕ) → (ℕ → ℕ × ℕ) → (ℕ → PageTable) → Type 0
  IsTables levels slot T = (a j : ℕ) → 0 < levels a → j < 512 → IsEntry levels slot a j (T a j)

  -- From the table at `t`, `d` levels above level `n`, branches lead the address `v` to the table
  -- at `u`.
  abbrev pub Leads : (ℕ → PageTable) → ℕ → ℕ → ℕ → ℕ → ℕ → Type 0
  Leads T v n zero t u = t ≡ u
  Leads T v n (suc d) t u =
      (is_branch (entry_at T v (suc (above n d)) t) ≡ true)
      × Leads T v n d (entry_table hhdm (entry_at T v (suc (above n d)) t)) u

  -- No page of a level above `n` is in the way of the address.
  abbrev pub IsOpen : (ℕ → PageTable) → ℕ → ℕ → ℕ → ℕ → Type 0
  IsOpen T v n zero t = Unit
  IsOpen T v n (suc d) t =
      (entry_at T v (suc (above n d)) t ≡ 0)
      ⊎ ((is_branch (entry_at T v (suc (above n d)) t) ≡ true)
          × IsOpen T v n d (entry_table hhdm (entry_at T v (suc (above n d)) t)))

  pub IsOpen-blank : (T : ℕ → PageTable) (v n d t : ℕ) → ((j : ℕ) → T t j ≡ 0) → IsOpen T v n d t
  IsOpen-blank T v n zero t h = tt
  IsOpen-blank T v n (suc d) t h = inl (h (index v (from_usize (suc (above n d)))))

  -- A branch leads down one level.
  pub branch_level :
      (levels : ℕ → ℕ) (slot : ℕ → ℕ × ℕ) (a j e : ℕ)
      → IsEntry levels slot a j e
      → is_branch e ≡ true
      → (0 < levels (entry_table hhdm e))
        × (suc (levels (entry_table hhdm e)) ≡ levels a)
        × (slot (entry_table hhdm e) ≡ (a, j))
  branch_level levels slot a j e (inl h) b = cc (zero-invalid.1, b, ap is_branch h)
  branch_level levels slot a j e (inr (inl h)) b = cc (leaf-no_branch e h, b)
  branch_level levels slot a j e (inr (inr h)) b = (h.1, h.2, h.3)

  pub Leads-level :
      (T : ℕ → PageTable) (levels : ℕ → ℕ) (slot : ℕ → ℕ × ℕ) (v n d t u : ℕ)
      → IsTables levels slot T
      → 0 < n
      → above n d ≤ 5
      → levels t ≡ above n d
      → Leads T v n d t u
      → levels u ≡ n
  Leads-level T levels slot v n zero t u w p h l r = rw (sym r) l
  Leads-level T levels slot v n (suc d) t u w p h l r =
      let i = index v (from_usize (suc (above n d))) in
      let b =
        branch_level levels slot t i (T t i)
          (w t i (omega (arith, l)) (index_level-lt v (suc (above n d)) (omega arith) h)) r.0 in
      Leads-level T levels slot v n d (entry_table hhdm (T t i)) u w p (omega arith)
        (omega (arith, b.1, l)) r.1

  -- Addresses with the same indices above the level are led to the same table, also when entries
  -- that are no branches of a table above the level are changed.
  pub Leads-agree :
      (T T' : ℕ → PageTable) (levels : ℕ → ℕ) (slot : ℕ → ℕ × ℕ) (v w n d t u : ℕ)
      → IsTables levels slot T
      → 0 < n
      → above n d ≤ 5
      → levels t ≡ above n d
      → ((l : ℕ) → n < l → l ≤ 5 → index w (from_usize l) ≡ index v (from_usize l))
      → ((a j : ℕ) → n < levels a → j < 512 → is_branch (T a j) ≡ true → T' a j ≡ T a j)
      → Leads T v n d t u
      → Leads T' w n d t u
  Leads-agree T T' levels slot v w n zero t u g p h l i k r = r
  Leads-agree T T' levels slot v w n (suc d) t u g p h l i k r =
      let j = index v (from_usize (suc (above n d))) in
      let lt = index_level-lt v (suc (above n d)) (omega arith) h in
      let high : n < suc (above n d) = omega (arith, above_le n d) in
      let b = branch_level levels slot t j (T t j) (g t j (omega (arith, l)) lt) r.0 in
      rw (i (suc (above n d)) high h, k t j (omega (arith, l, high)) lt r.0)
        (
          r.0,
          Leads-agree T T' levels slot v w n d (entry_table hhdm (T t j)) u g p (omega arith)
              (omega (arith, b.1, l)) i k r.1,
        )

  -- A walk gives what it gives at the table that it is led to.
  pub walk-Leads :
      (T : ℕ → PageTable) (w n : ℕ) (r : Run (Option ℕ)) (u : ℕ)
      → 0 < n
      → ((rounds : ℕ) → walk hhdm (suc rounds) u w (from_usize n) T ≡ r)
      → (rounds d t : ℕ) → d < rounds
      → above n d ≤ 5
      → Leads T w n d t u
      → walk hhdm rounds t w (from_usize (above n d)) T ≡ r
  unfolding walk
  walk-Leads T w n r u p f zero d t h q x = absurd (omega arith)
  walk-Leads T w n r u p f (suc rounds) zero t h q x =
      ap (λ (a : ℕ). walk hhdm (suc rounds) a w (from_usize n) T) x ∙ f rounds
  walk-Leads T w n r u p f (suc rounds) (suc d) t h q x =
      rw
        (
          lt→ltb _ 512 (index_level-lt w (suc (above n d)) (omega arith) q),
          branch-no_leaf (entry_at T w (suc (above n d)) t) x.0,
          x.0,
          below-from_usize (above n d) (omega arith),
        )
        (walk-Leads T w n r u p f rounds d (entry_table hhdm (entry_at T w (suc (above n d)) t))
          (omega arith) (omega arith) x.1)

  pub walk-leaf :
      (T : ℕ → PageTable) (w n u rounds : ℕ)
      → 0 < n
      → n ≤ 5
      → is_leaf (entry_at T w n u) ≡ true
      → walk hhdm (suc rounds) u w (from_usize n) T
        ≡ ok (some (translate (from_usize n) w (entry_at T w n u)))
  unfolding walk
  walk-leaf T w n u rounds p q h = rw (lt→ltb _ 512 (index_level-lt w n p q), h) refl

  pub walk-missing :
      (T : ℕ → PageTable) (w n u rounds : ℕ)
      → 0 < n
      → n ≤ 5
      → entry_at T w n u ≡ 0
      → walk hhdm (suc rounds) u w (from_usize n) T ≡ ok none
  unfolding walk
  walk-missing T w n u rounds p q h =
      rw
        (
          lt→ltb _ 512 (index_level-lt w n p q),
          ap is_leaf h ∙ zero-invalid.2,
          ap is_branch h ∙ zero-invalid.1,
        )
        refl
