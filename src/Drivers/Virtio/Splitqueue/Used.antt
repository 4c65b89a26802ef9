-- ===== src/Drivers/Virtio/Splitqueue/Used.antt =====
-- What a driver reads from the ring of used elements.
use native.Mathlib.Nat.{add-mul-mod_self_left, mod-lt, one-le-pow}
use lsd_limine.Prelude.{
  ℕ, zero, suc, ◌+◌, ◌*◌, ◌%◌, ◌/◌, ◌^◌, ◌≤◌, ◌<◌, ◌≡◌, ◌≢◌, Option, none, some, List, [], ◌∷◌, map,
  refl, Returns, ok, arith, length, get_elem?, eq→==, ne→==, ap, ◌∙◌, lt→ltb, get_elem?_in_range,
  ◌-◌, sym, Returns-bind,
}
use lsd_limine.Prelude.Bits.{power_sum}
use lsd_limine.Drivers.Virtio.Splitqueue.{VirtqueueUsedElement, UsedQueue, pop, drain, add16}

-- Where the length of the ring divides `2 ^ 16`, the wrap of an index is not seen in it.
pub wrap_in_ring : (i k : ℕ) → k ≤ 16 → i % 2 ^ 16 % 2 ^ k ≡ i % 2 ^ k
wrap_in_ring i k h =
    let c = 2 ^ (16 - k) in
    let t = i / 2 ^ 16 in
    let e : (16 - k) + k ≡ 16 = omega arith in
    let p : c * 2 ^ k ≡ 2 ^ 16 = power_sum (16 - k) k ∙ ap (λ (n : ℕ). 2 ^ n) e in
    let d : i ≡ i % 2 ^ 16 + 2 ^ k * (c * t) = omega (arith, ap (λ (n : ℕ). n * t) p) in
    sym (ap (λ (n : ℕ). n % 2 ^ k) d ∙ add-mul-mod_self_left (i % 2 ^ 16) (2 ^ k) (c * t))

-- The `n` slots of a ring from the `i`-th element on that was ever put there, if the elements are
-- counted without a wrap.
abbrev pub seen : List VirtqueueUsedElement → ℕ → ℕ → List (Option VirtqueueUsedElement)
seen ring i zero = []
seen ring i (suc n) = get_elem? ring (i % length ring) ∷ seen ring (i + 1) n

abbrev advanced : UsedQueue → UsedQueue
advanced u = record u { last_seen = add16 u.last_seen 1 }

pub pop-none : (u : UsedQueue) → u.last_seen ≡ u.queue.index → pop u ≡ ok (none, u)
unfolding pop
pop-none u h = rw (eq→== u.last_seen u.queue.index h)

pub pop-some :
    (u : UsedQueue) (e : VirtqueueUsedElement)
    → u.last_seen ≢ u.queue.index
    → 0 < length u.queue.ring
    → get_elem? u.queue.ring (u.last_seen % length u.queue.ring) ≡ some e
    → pop u ≡ ok (some e, advanced u)
unfolding pop
pop-some u e ne pos at =
    rw (ne→== u.last_seen u.queue.index ne, lt→ltb 0 (length u.queue.ring) pos, at)

abbrev Drained : UsedQueue → ℕ → ℕ → List VirtqueueUsedElement × UsedQueue → Type 0
Drained u i n (es, w) =
    (map some es ≡ seen u.queue.ring i n) × (w.queue ≡ u.queue) × (w.last_seen ≡ u.queue.index)

-- When the driver has seen `i` elements and the device has put `i + n` into a ring of `2 ^ k`
-- slots, with both counts kept in 16 bits and `n` below `2 ^ 16`, `drain` ends within `n + 1` rounds.
-- It gives the `n` slots from the `i`-th element on, in order, changes nothing in the ring and
-- leaves no element unseen.
pub drain-seen :
    (k n fuel i : ℕ) (u : UsedQueue)
    → k ≤ 16
    → length u.queue.ring ≡ 2 ^ k
    → n < 2 ^ 16
    → n < fuel
    → u.last_seen ≡ i % 2 ^ 16
    → u.queue.index ≡ (i + n) % 2 ^ 16
    → Returns
        (λ (es, w).
          (map some es ≡ seen u.queue.ring i n)
          × (w.queue ≡ u.queue)
          × (w.last_seen ≡ u.queue.index))
        (drain fuel u)
unfolding drain
drain-seen k n zero i u kl len small enough last index = absurd (omega arith)
drain-seen k zero (suc fuel) i u kl len small enough last index =
    let e : u.last_seen ≡ u.queue.index = omega (arith, last, index) in
    rw (pop-none u e) (refl, refl, e)
drain-seen k (suc n) (suc fuel) i u kl len small enough last index =
    let pos : 0 < 2 ^ k = one-le-pow k 2 (omega arith) in
    let ring = u.queue.ring in
    let same : u.last_seen % length ring ≡ i % length ring =
      rw len (ap (λ (m : ℕ). m % 2 ^ k) last ∙ wrap_in_ring i k kl) in
    let filled : 0 < length ring = rw len pos in
    let (e, at) = get_elem?_in_range ring (i % length ring) (mod-lt i filled) in
    let ih =
      drain-seen k n fuel (i + 1) (advanced u) kl len (omega arith) (omega arith)
        (omega (arith, last)) (omega (arith, index)) in
    rw (pop-some u e (omega (arith, last, index)) filled (ap (get_elem? ring) same ∙ at)) (
      Returns-bind (Drained u (i + 1) n) (Drained u i (suc n)) (drain fuel (advanced u))
        (λ x. ok (e ∷ x.0, x.1)) ih (λ x h. (rw at (ap (λ l. some e ∷ l) h.0), h.1, h.2)))
