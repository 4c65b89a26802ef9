-- ===== src/Drivers/Virtio/Splitqueue/Free.antt =====
-- The free descriptors.
use native.Mathlib.Nat.{pow-le-pow_right}
use lsd_limine.Prelude.{
  leb, zero, suc, true, false, get_elem?, Bool-cases, ap, ℕ, ◌≡◌, some, List, [], ◌∷◌, ◌++◌, refl,
  ◌<◌, ◌⊎◌, ◌≢◌, ◌+◌, ◌^◌, inr, ◌≤◌, arith, ◌==◌, inl, ==→eq, ==→ne, ◌∙◌,
}
use native.Mathlib.Decide.{dec_lt}
use lsd_limine.Drivers.Virtio.Splitqueue.{
  default, SplitVirtqueueError, memory_allocation_error, not_power_of_two, too_large, repeat, range,
  is_power_of_two, zeroed_queue, SplitVirtqueue, pop_back, alloc_descriptor, free_descriptor,
  length,
}

pub pop_back-append : (xs : List ℕ) (x : ℕ) → pop_back (xs ++ x ∷ []) ≡ some (x, xs)
unfolding pop_back
pop_back-append [] x = refl
pop_back-append (y ∷ xs) x = rw (pop_back-append xs x, pop_back)

-- The descriptor that was freed last is the first to be given again, and the queue is then what it
-- was.
pub alloc_descriptor-free_descriptor :
    (q : SplitVirtqueue) (index : ℕ) → alloc_descriptor (free_descriptor q index) ≡ (some index, q)
unfolding alloc_descriptor free_descriptor
alloc_descriptor-free_descriptor q index = rw (pop_back-append q.freelist index, alloc_descriptor)

-- Which sizes are accepted, and which queue is made.
abbrev pub Made : ℕ → SplitVirtqueueError ⊎ SplitVirtqueue → Type 0
Made n (inr q) =
    (k : ℕ) × (n ≡ 2 ^ k)
    × (k ≤ 15)
    × (q.queue_size ≡ n)
    × (length q.descriptors ≡ n)
    × (length q.available.ring ≡ n)
    × (length q.used.queue.ring ≡ n)
    × (length q.freelist ≡ n)
    × ((i : ℕ) → i < n → get_elem? q.freelist i ≡ some i)
Made n (inl too_large) = (k : ℕ) × (n ≡ 2 ^ k) × (15 < k) × (k < 64)
Made n (inl not_power_of_two) = (k : ℕ) → k < 64 → n ≢ 2 ^ k
Made n (inl memory_allocation_error) = ⊥

length-repeat {ℓ} : {A : Type ℓ} (n : ℕ) (a : A) → length (repeat n a) ≡ n
length-repeat zero a = refl
length-repeat (suc n) a = ap suc (length-repeat n a)

length-range : (a n : ℕ) → length (range a n) ≡ n
length-range a zero = refl
length-range a (suc n) = ap suc (length-range (a + 1) n)

get_elem?-range : (a n i : ℕ) → i < n → get_elem? (range a n) i ≡ some (a + i)
get_elem?-range a zero i h = absurd (omega arith)
get_elem?-range a (suc n) zero h = let z : a + 0 ≡ a = omega arith in rw z
get_elem?-range a (suc n) (suc i) h =
    let z : a + suc i ≡ a + 1 + i = omega arith in rw z (get_elem?-range (a + 1) n i (omega arith))

power_found : (bits n : ℕ) → is_power_of_two bits n ≡ true → (k : ℕ) × (k < bits) × (n ≡ 2 ^ k)
unfolding is_power_of_two
power_found zero n h = cc
power_found (suc bits) n h = elim (Bool-cases (n == 2 ^ bits)) [
  | inl hit ↦ (bits, omega arith, ==→eq n (2 ^ bits) hit)
  | inr miss ↦ let (k, lt, e) = power_found bits n (ground arith) in (k, omega arith, e)
]

power_missed : (bits n k : ℕ) → is_power_of_two bits n ≡ false → k < bits → n ≢ 2 ^ k
unfolding is_power_of_two
power_missed zero n k h lt e = absurd (omega arith)
power_missed (suc bits) n k h lt e = elim (Bool-cases (n == 2 ^ bits)) [
  | inl hit ↦ ground arith
  | inr miss ↦ elim (dec_lt k bits) [
    | yes below ↦ power_missed bits n k (ground arith) below e
    | no above ↦
        let z : k ≡ bits = omega arith in
        absurd (==→ne n (2 ^ bits) miss (e ∙ ap (λ (x : ℕ). 2 ^ x) z))
  ]
]

accepted_power : (n : ℕ) → is_power_of_two 64 n ≡ true → Made n (zeroed_queue n)
unfolding zeroed_queue
accepted_power n h =
    let (k, lt, e) = power_found 64 n h in
    elim (Bool-cases (leb n 32768)) [
      | inl small ↦
          let high : 15 < k → 2 ^ 16 ≤ 2 ^ k =
            λ above. pow-le-pow_right (omega arith) {i = 16} {j = k} (omega arith) in
          let low : k ≤ 15 = elim (dec_lt 15 k) [
            | yes above ↦ let b = high above in absurd (ground arith)
            | no below ↦ omega arith
          ] in
          rw (h, small)
            (
              k,
              e,
              low,
              refl,
              length-repeat n default,
              length-repeat n 0,
              length-repeat n _,
              length-range 0 n,
              λ i lt. get_elem?-range 0 n i lt ∙ (let z : 0 + i ≡ i = omega arith in ap some z),
            )
      | inr large ↦
          let low : k ≤ 15 → 2 ^ k ≤ 2 ^ 15 =
            λ below. pow-le-pow_right (omega arith) {i = k} {j = 15} below in
          let high : 15 < k = elim (dec_lt 15 k) [
            | yes above ↦ above
            | no below ↦ let b = low (omega arith) in absurd (ground arith)
          ] in
          rw (h, large) (k, e, high, lt)
    ]

pub zeroed_queue-Made : (queue_size : ℕ) → Made queue_size (zeroed_queue queue_size)
unfolding zeroed_queue
zeroed_queue-Made queue_size = elim (Bool-cases (is_power_of_two 64 queue_size)) [
  | inl power ↦ accepted_power queue_size power
  | inr other ↦ rw other (λ k lt. power_missed 64 queue_size k other lt)
]
