-- ===== src/Memory/Tables/Added.antt =====
-- The table that `map` adds where an entry is missing.
use lsd_limine.Prelude.{
  ℕ, suc, ◌≤◌, ◌<◌, ◌≡◌, ◌≢◌, ◌⊎◌, inl, inr, refl, sym, ap, subst, ◌∙◌, true, false, arith, List,
  [], ◌∷◌, ok, Returns, Returns-bind, All, Bool-cases, ◌==◌, if◌then◌else◌, ==→eq, ==→ne, ne→==,
  ==_refl, ◌^◌, ◌%◌,
}
use lsd_limine.Memory.Fields.{BitField}
use lsd_limine.Memory.Pmm.{claim}
use lsd_limine.Memory.Pmm.Linked.{IsFreeList, has}
use lsd_limine.Memory.Pmm.Claim.{Claimed, claim-IsFreeList}
use lsd_limine.Memory.Tables.{
  State, PageTable, write_volatile, put, is_branch, is_leaf, get_valid, entry_table, branch_entry,
  add_table, enter,
}
use lsd_limine.Memory.Tables.Entries.{IsOffset, zero-invalid, branch-is_branch, entry_table-branch}
use lsd_limine.Memory.Tables.Walks.{
  IsEntry, IsTables, write_volatile_self, write_volatile_ne, put_self, put_ne,
}

-- The levels, or the slots, when a table is added.
abbrev pub with_table {ℓ} : {A : Type ℓ} → (ℕ → A) → ℕ → A → ℕ → A
with_table levels p l a = if a == p then l else levels a

pub with_table_ne {ℓ} :
    {A : Type ℓ} (levels : ℕ → A) (p : ℕ) (l : A) (a : ℕ)
    → a ≢ p
    → with_table levels p l a ≡ levels a
with_table_ne levels p l a h = rw (ne→== a p h) refl

pub with_table_self {ℓ} :
    {A : Type ℓ} (levels : ℕ → A) (p : ℕ) (l : A) → with_table levels p l p ≡ l
with_table_self levels p l = rw (==_refl p) refl

pub with_table-All :
    (levels : ℕ → ℕ) (p l : ℕ) (xs : List ℕ)
    → has p xs ≡ false
    → All (λ x. levels x ≡ 0) xs
    → All (λ x. with_table levels p l x ≡ 0) xs
with_table-All levels p l [] h k = tt
with_table-All levels p l (x ∷ xs) h k =
    (ground arith, with_table-All levels p l xs (ground arith) k.1)

pub slot_cases : (t i a j : ℕ) → ((a ≡ t) × (j ≡ i)) ⊎ ((a ≢ t) ⊎ (j ≢ i))
slot_cases t i a j = elim (Bool-cases (a == t)) [
  | inl s ↦ elim (Bool-cases (j == i)) [
    | inl q ↦ inl (==→eq a t s, ==→eq j i q)
    | inr q ↦ inr (inr (==→ne j i q))
  ]
  | inr s ↦ inr (inl (==→ne a t s))
]

module _ ⦃B : BitField⦄ (hhdm : ℕ) where
  -- What `add_table` leaves: the frame, with nothing in it, in the entry, and all else as it was.
  pub record Added (t i : ℕ) (s : State) (x : ℕ) (rest : List ℕ) (p : ℕ) (s' : State) : Type 0 where
    pub taken : p ≡ x
    pub free : IsFreeList hhdm s'.free rest
    pub blank : (j : ℕ) → s'.tables p j ≡ 0
    pub slot : s'.tables t i ≡ branch_entry hhdm (s.tables t i) p
    pub others : (a j : ℕ) → a ≢ p → (a ≢ t) ⊎ (j ≢ i) → s'.tables a j ≡ s.tables a j

  pub add_table-Added :
      (t i x y : ℕ) (ys : List ℕ) (s : State)
      → x ≢ t
      → IsFreeList hhdm s.free (x ∷ y ∷ ys)
      → Returns (λ (p, s'). Added t i s x (y ∷ ys) p s') (add_table hhdm t i s)
  unfolding add_table
  add_table-Added t i x y ys s ne v =
      Returns-bind (Claimed hhdm x (y ∷ ys)) (λ (p, s'). Added t i s x (y ∷ ys) p s')
        (claim hhdm s.free)
        (λ (new, free). ok (
          new,
          record {
            free = free;
            tables =
                write_volatile (write_volatile s.tables new (λ _. 0)) t
                  (put (s.tables t) i (branch_entry hhdm (s.tables t i) new));
          },
        ))
        (claim-IsFreeList hhdm s.free x y ys v)
        (λ (p, f) (e, w).
          let T1 = write_volatile s.tables p (λ _. 0) in
          let copy = put (s.tables t) i (branch_entry hhdm (s.tables t i) p) in
          let pt : p ≢ t = λ q. ne (sym e ∙ q) in
          record {
            taken = e;
            free = w;
            blank = λ j.
                ap (λ (g : PageTable). g j)
                  (write_volatile_ne T1 t copy p pt ∙ write_volatile_self s.tables p (λ _. 0));
            slot =
                ap (λ (g : PageTable). g i) (write_volatile_self T1 t copy)
                ∙ put_self (s.tables t) i (branch_entry hhdm (s.tables t i) p);
            others = λ a j n o. elim (Bool-cases (a == t)) [
              | inl q ↦
                  let at = ==→eq a t q in
                  let nj : j ≢ i = elim o [ inl na ↦ absurd (na at) | inr nj ↦ nj ] in
                  rw at (
                    ap (λ (g : PageTable). g j) (write_volatile_self T1 t copy)
                    ∙ put_ne (s.tables t) i (branch_entry hhdm (s.tables t i) p) j nj)
              | inr q ↦
                  ap (λ (g : PageTable). g j)
                    (write_volatile_ne T1 t copy a (==→ne a t q)
                      ∙ write_volatile_ne s.tables p (λ _. 0) a n)
            ];
          })

  pub enter-missing :
      (t i : ℕ) (s : State) → s.tables t i ≡ 0 → enter hhdm t i s ≡ add_table hhdm t i s
  unfolding enter
  enter-missing t i s h =
      rw
        (
          ap is_branch h ∙ zero-invalid.1,
          ap is_leaf h ∙ zero-invalid.2,
          ap get_valid h ∙ zero-invalid.0,
        )
        refl

  pub enter-branch :
      (t i : ℕ) (s : State)
      → is_branch (s.tables t i) ≡ true
      → enter hhdm t i s ≡ ok (entry_table hhdm (s.tables t i), s)
  unfolding enter
  enter-branch t i s h = rw h refl

  -- Entries stay entries when a table is added that had no level.
  IsEntry-with_table :
      (levels : ℕ → ℕ) (slot : ℕ → ℕ × ℕ) (p l a j e : ℕ) (q : ℕ × ℕ)
      → levels p ≡ 0
      → a ≢ p
      → IsEntry hhdm levels slot a j e
      → IsEntry hhdm (with_table levels p l) (with_table slot p q) a j e
  IsEntry-with_table levels slot p l a j e q h n (inl x) = inl x
  IsEntry-with_table levels slot p l a j e q h n (inr (inl x)) = inr (inl x)
  IsEntry-with_table levels slot p l a j e q h n (inr (inr x)) =
      let ne : entry_table hhdm e ≢ p = λ k. absurd (omega (arith, x.1, ap levels k, h)) in
      inr (
        inr (
          x.0,
          rw (with_table_ne levels p l (entry_table hhdm e) ne) x.1,
          rw (with_table_ne levels p l (entry_table hhdm e) ne, with_table_ne levels p l a n) x.2,
          rw (with_table_ne slot p q (entry_table hhdm e) ne) x.3,
        ))

  -- The tables are well-formed with the new one a level below the table that leads to it.
  pub Added-IsTables :
      (levels : ℕ → ℕ) (slot : ℕ → ℕ × ℕ) (t i l : ℕ) (s : State) (x : ℕ) (rest : List ℕ) (p : ℕ)
      (s' : State)
      → IsOffset hhdm
      → hhdm ≤ p
      → p < 2 ^ 64
      → p % 4096 ≡ 0
      → Added t i s x rest p s'
      → IsTables hhdm levels slot s.tables
      → levels p ≡ 0
      → 0 < l
      → levels t ≡ suc l
      → s.tables t i ≡ 0
      → IsTables hhdm (with_table levels p l) (with_table slot p (t, i)) s'.tables
  Added-IsTables levels slot t i l s x rest p s' o hp hq hr g w z pos lt m a j h k =
      elim (Bool-cases (a == p)) [
        | inl e ↦ inl (ap (λ (b : ℕ). s'.tables b j) (==→eq a p e) ∙ g.blank j)
        | inr e ↦
            let n : a ≢ p = ==→ne a p e in
            elim (slot_cases t i a j) [
              | inl (at, ji) ↦
                  let en = entry_table-branch hhdm p o hp hq hr in
                  let tn : t ≢ p = λ q. n (at ∙ q) in
                  rw (at, ji, g.slot, m)
                    (inr (
                      inr (
                        branch-is_branch hhdm p o hp hq,
                        rw (en, with_table_self levels p l) pos,
                        rw (en, with_table_self levels p l, with_table_ne levels p l t tn) (sym lt),
                        rw (en, with_table_self slot p (t, i)) refl,
                      )))
              | inr q ↦ rw (g.others a j n q) (
                  IsEntry-with_table levels slot p l a j (s.tables a j) (t, i) z n
                    (w a j (subst (λ (b : ℕ). 0 < b) (with_table_ne levels p l a n) h) k))
            ]
      ]
