-- ===== src/Drivers/Virtio/Splitqueue/Available.antt =====
-- What a driver puts into the ring of available descriptors.
use native.Mathlib.Decide.{dec_lt}
use native.Mathlib.Nat.{
  pow-le-pow_right, mod-lt, one-le-pow, mod-add-mod, mod-eq_of_lt, mod-eq-sub-mod,
}
use lsd_limine.Prelude.{
  ℕ, zero, suc, ◌+◌, ◌%◌, ◌^◌, ◌≤◌, ◌<◌, ◌≡◌, List, [], ◌∷◌, refl, Run, Returns, ok, ◌>>=◌, arith,
  length, length-set, get_elem?, set, lt→ltb, ap, ◌∙◌, get_elem?-set_self, get_elem?-set_ne, ◌≢◌,
  sym, Returns-imp, ◌-◌,
}
use lsd_limine.Drivers.Virtio.Splitqueue.{VirtqueueAvailable, push, add16}
use lsd_limine.Drivers.Virtio.Splitqueue.Used.{wrap_in_ring}

-- One push after the other.
abbrev pub push_all : VirtqueueAvailable → List ℕ → Run VirtqueueAvailable
push_all a [] = ok a
push_all a (x ∷ xs) = do a ← push a x; push_all a xs

pub push-ok :
    (k i x : ℕ) (a : VirtqueueAvailable)
    → k < 16
    → length a.ring ≡ 2 ^ k
    → a.index ≡ i % 2 ^ 16
    → push a x ≡ ok (record a { index = (i + 1) % 2 ^ 16; ring = set a.ring (i % 2 ^ k) x })
unfolding push
push-ok k i x a kl len index =
    let pos : 0 < 2 ^ k = one-le-pow k 2 (omega arith) in
    let half : 2 ^ k ≤ 2 ^ 15 = pow-le-pow_right (omega arith) {i = k} {j = 15} (omega arith) in
    let top : 2 ^ k < 2 ^ 16 = omega arith in
    let word : length a.ring % 2 ^ 16 ≡ 2 ^ k = ap (λ (n : ℕ). n % 2 ^ 16) len ∙ mod-eq_of_lt top in
    let slot : a.index % 2 ^ k ≡ i % 2 ^ k =
      ap (λ (n : ℕ). n % 2 ^ k) index ∙ wrap_in_ring i k (omega arith) in
    let inside : i % 2 ^ k < 2 ^ k = mod-lt i pos in
    let next : add16 a.index 1 ≡ (i + 1) % 2 ^ 16 = omega (arith, index) in
    rw (word, slot, len, lt→ltb 0 (2 ^ k) pos, lt→ltb (i % 2 ^ k) (2 ^ k) inside, next)

-- Fewer steps than the ring is long do not lead back to a slot.
elsewhere : (i d m : ℕ) → 0 < d → d < m → (i + d) % m ≢ i % m
elsewhere i d m pos lt e =
    let r = i % m in
    let inside : r < m = mod-lt i (omega arith) in
    let f : (i + d) % m ≡ (r + d) % m = sym (mod-add-mod i m d) in
    elim (dec_lt (r + d) m) [
      | yes low ↦ absurd (omega (arith, e, f, mod-eq_of_lt low))
      | no high ↦
          let g = mod-eq-sub-mod {n = r + d} {m = m} (omega arith) in
          let h : (r + d - m) % m ≡ r + d - m = mod-eq_of_lt (omega arith) in
          absurd (omega (arith, e, f, g, h))
    ]

-- What the ring holds once `xs` has been pushed behind `i` others.
pub record IsPushed (k i : ℕ) (xs : List ℕ) (a a' : VirtqueueAvailable) : Type 0 where
  pub index : a'.index ≡ (i + length xs) % 2 ^ 16
  pub size : length a'.ring ≡ 2 ^ k
  pub slots : (j : ℕ) → j < length xs → get_elem? a'.ring ((i + j) % 2 ^ k) ≡ get_elem? xs j
  pub others :
      (s : ℕ)
      → ((j : ℕ) → j < length xs → (i + j) % 2 ^ k ≢ s)
      → get_elem? a'.ring s ≡ get_elem? a.ring s

abbrev first : ℕ → ℕ → ℕ → VirtqueueAvailable → VirtqueueAvailable
first k i x a = record a { index = (i + 1) % 2 ^ 16; ring = set a.ring (i % 2 ^ k) x }

after_first :
    (k i x : ℕ) (xs : List ℕ) (a a' : VirtqueueAvailable)
    → length a.ring ≡ 2 ^ k
    → length (x ∷ xs) ≤ 2 ^ k
    → IsPushed k (i + 1) xs (first k i x a) a'
    → (j : ℕ) → j < length (x ∷ xs)
    → get_elem? a'.ring ((i + j) % 2 ^ k) ≡ get_elem? (x ∷ xs) j
after_first k i x xs a a' len fits h zero lt =
    let z : i + 0 ≡ i = omega arith in
    let inside : i % 2 ^ k < length a.ring = rw len (mod-lt i (omega arith)) in
    let away : (j : ℕ) → j < length xs → (i + 1 + j) % 2 ^ k ≢ i % 2 ^ k = λ j below e.
      elsewhere i (1 + j) (2 ^ k) (omega arith) (omega arith)
        (ap (λ (n : ℕ). n % 2 ^ k) (omega arith) ∙ e) in
    rw z (h.others (i % 2 ^ k) away ∙ get_elem?-set_self a.ring (i % 2 ^ k) x inside)
after_first k i x xs a a' len fits h (suc j) lt =
    let z : i + suc j ≡ i + 1 + j = omega arith in rw z (h.slots j (omega arith))

others_first :
    (k i x : ℕ) (xs : List ℕ) (a a' : VirtqueueAvailable)
    → IsPushed k (i + 1) xs (first k i x a) a'
    → (s : ℕ) → ((j : ℕ) → j < length (x ∷ xs) → (i + j) % 2 ^ k ≢ s)
    → get_elem? a'.ring s ≡ get_elem? a.ring s
others_first k i x xs a a' h s out =
    let z : i + 0 ≡ i = omega arith in
    let apart : s ≢ i % 2 ^ k = λ e. out 0 (omega arith) (ap (λ (n : ℕ). n % 2 ^ k) z ∙ sym e) in
    let away : (j : ℕ) → j < length xs → (i + 1 + j) % 2 ^ k ≢ s = λ j below e.
      out (suc j) (omega arith)
        (let y : i + suc j ≡ i + 1 + j = omega arith in ap (λ (n : ℕ). n % 2 ^ k) y ∙ e) in
    h.others s away ∙ get_elem?-set_ne a.ring (i % 2 ^ k) s x (λ e. apart (sym e))

-- A driver that has pushed `i` indices into a ring of `2 ^ k` slots, a count kept in 16 bits, and
-- pushes no more than that many others does not panic. The device finds the indices in order in
-- the slots from the `i`-th on, counted without a wrap, and the other slots as they were.
pub push_all-IsPushed :
    (k i : ℕ) (xs : List ℕ) (a : VirtqueueAvailable)
    → k < 16
    → length a.ring ≡ 2 ^ k
    → a.index ≡ i % 2 ^ 16
    → length xs ≤ 2 ^ k
    → Returns (IsPushed k i xs a) (push_all a xs)
push_all-IsPushed k i [] a kl len index fits = record {
  index = index ∙ omega arith;
  size = len;
  slots = λ j lt. absurd (omega arith);
  others = λ s out. refl;
}
push_all-IsPushed k i (x ∷ xs) a kl len index fits =
    let a1 = first k i x a in
    let size = length-set a.ring (i % 2 ^ k) x ∙ len in
    let rest = push_all-IsPushed k (i + 1) xs a1 kl size refl (omega arith) in
    rw (push-ok k i x a kl len index) (
      Returns-imp (IsPushed k (i + 1) xs a1) (IsPushed k i (x ∷ xs) a) (push_all a1 xs)
        (λ a' h. record {
          index =
              h.index
              ∙ (let z : i + 1 + length xs ≡ i + suc (length xs) = omega arith in
                  ap (λ (n : ℕ). n % 2 ^ 16) z);
          size = h.size;
          slots = after_first k i x xs a a' len fits h;
          others = others_first k i x xs a a' h;
        })
        rest)
