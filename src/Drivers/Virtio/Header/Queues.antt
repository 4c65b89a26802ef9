-- ===== src/Drivers/Virtio/Header/Queues.antt =====
-- What the registers hold after the writes of a driver.
use lsd_limine.Prelude.{
  ℕ, ◌/◌, ◌%◌, ◌^◌, ◌≡◌, Bool, arith, ==_refl, refl, Bool-cases, ◌==◌, inl, ==→eq, inr,
}
use mathlib.Core.Path.{fun_ext}
use lsd_limine.Prelude.Bits.{bit_and_ones}
use lsd_limine.Drivers.Virtio.Header.{
  Device, queue_desc, bit_and, queue_avail, queue_used, queue_size, queue_ready, set_address,
  queue_sel, set_up, ready,
}
use lsd_limine.Drivers.Virtio.Header.Protocol.{
  Words, QueueView, View, IsVirtio, observe, set_word, at_index, change_queue,
}

abbrev pub with_queue : ℕ → QueueView → View → View
with_queue n q v = record v { selected = n; queues = at_index n q v.queues }

at_index-same : (n : ℕ) (q : QueueView) (f : ℕ → QueueView) → at_index n q f n ≡ q
at_index-same n q f = rw (==_refl n) refl

at_index-again :
    (n : ℕ) (p q : QueueView) (f : ℕ → QueueView) → at_index n q (at_index n p f) ≡ at_index n q f
at_index-again n p q f = fun_ext λ i. ground arith

change_queue-again :
    (n : ℕ) (p q : QueueView) (v : View) → change_queue q (with_queue n p v) ≡ with_queue n q v
change_queue-again n p q v = rw (at_index-again n p q v.queues)

abbrev pub words_of : ℕ → Words
words_of a = record { low = a % 2 ^ 32; high = a / 2 ^ 32 % 2 ^ 32 }

pub bit_and_low : (a : ℕ) → bit_and a 0xffffffff % 2 ^ 32 ≡ a % 2 ^ 32
bit_and_low a = omega (arith, bit_and_ones 32 a)

at_index-own : (n : ℕ) (f : ℕ → QueueView) → at_index n (f n) f ≡ f
at_index-own n f = fun_ext λ i. elim (Bool-cases (i == n)) [
  | inl same ↦ rw (==→eq i n same, ==_refl n) refl
  | inr other ↦ rw other refl
]

-- A queue of which the device has been told, and which is ready.
abbrev pub told : ℕ → ℕ → ℕ → ℕ → QueueView
told desc avail used size = record {
  desc = words_of desc;
  avail = words_of avail;
  used = words_of used;
  size = size;
  ready = 1;
}

module _ {S : Type 0} (d : Device S) (accepts : (ℕ → ℕ) → Bool) (h : IsVirtio accepts d) (n : ℕ)
    (v : View) where
  abbrev pub Shows : S → QueueView → Type 0
  Shows s q = h.view s ≡ with_queue n q v

  module _ (s : S) (q : QueueView) (e : Shows s q) where
    pub write-desc :
        (word x : ℕ)
        → Shows (d.write queue_desc word x s) (record q { desc = set_word word x q.desc })
    unfolding observe
    write-desc word x =
        rw (h.write_lem queue_desc word x s, e)
          (rw (at_index-same n q v.queues)
            (change_queue-again n q (record q { desc = set_word word x q.desc }) v))

    pub write-avail :
        (word x : ℕ)
        → Shows (d.write queue_avail word x s) (record q { avail = set_word word x q.avail })
    unfolding observe
    write-avail word x =
        rw (h.write_lem queue_avail word x s, e)
          (rw (at_index-same n q v.queues)
            (change_queue-again n q (record q { avail = set_word word x q.avail }) v))

    pub write-used :
        (word x : ℕ)
        → Shows (d.write queue_used word x s) (record q { used = set_word word x q.used })
    unfolding observe
    write-used word x =
        rw (h.write_lem queue_used word x s, e)
          (rw (at_index-same n q v.queues)
            (change_queue-again n q (record q { used = set_word word x q.used }) v))

    pub write-size : (x : ℕ) → Shows (d.write queue_size 0 x s) (record q { size = x })
    unfolding observe
    write-size x =
        rw (h.write_lem queue_size 0 x s, e)
          (rw (at_index-same n q v.queues) (change_queue-again n q (record q { size = x }) v))

    pub write-ready : (x : ℕ) → Shows (d.write queue_ready 0 x s) (record q { ready = x })
    unfolding observe
    write-ready x =
        rw (h.write_lem queue_ready 0 x s, e)
          (rw (at_index-same n q v.queues) (change_queue-again n q (record q { ready = x }) v))

  pub set_address-desc :
      (s : S) (q : QueueView)
      → Shows s q
      → (a : ℕ) → Shows (set_address d queue_desc a s) (record q { desc = words_of a })
  unfolding set_address
  set_address-desc s q e a =
      let low = bit_and a 0xffffffff % 2 ^ 32 in
      rw (← bit_and_low a) (
        write-desc (d.write queue_desc 0 low s) (record q { desc = record q.desc { low = low } })
          (write-desc s q e 0 low) 1 (a / 2 ^ 32 % 2 ^ 32))

  pub set_address-avail :
      (s : S) (q : QueueView)
      → Shows s q
      → (a : ℕ) → Shows (set_address d queue_avail a s) (record q { avail = words_of a })
  unfolding set_address
  set_address-avail s q e a =
      let low = bit_and a 0xffffffff % 2 ^ 32 in
      rw (← bit_and_low a) (
        write-avail (d.write queue_avail 0 low s)
          (record q { avail = record q.avail { low = low } }) (write-avail s q e 0 low) 1
          (a / 2 ^ 32 % 2 ^ 32))

  pub set_address-used :
      (s : S) (q : QueueView)
      → Shows s q
      → (a : ℕ) → Shows (set_address d queue_used a s) (record q { used = words_of a })
  unfolding set_address
  set_address-used s q e a =
      let low = bit_and a 0xffffffff % 2 ^ 32 in
      rw (← bit_and_low a) (
        write-used (d.write queue_used 0 low s) (record q { used = record q.used { low = low } })
          (write-used s q e 0 low) 1 (a / 2 ^ 32 % 2 ^ 32))

  -- A selected queue is as it was.
  pub select : (s : S) → h.view s ≡ v → Shows (d.write queue_sel 0 n s) (v.queues n)
  unfolding observe
  select s e = rw (h.write_lem queue_sel 0 n s, e, at_index-own n v.queues) refl

  pub set_up-told :
      (s : S) (desc avail used size : ℕ)
      → h.view s ≡ v
      → Shows
          (set_up d n size (queue_desc, desc) (queue_avail, avail) (queue_used, used) s)
          (told desc avail used size)
  unfolding set_up ready
  set_up-told s desc avail used size e =
      let s1 = d.write queue_sel 0 n s in
      let e1 = select s e in
      let s2 = set_address d queue_desc desc s1 in
      let e2 = set_address-desc s1 (v.queues n) e1 desc in
      let q2 = record (v.queues n) { desc = words_of desc } in
      let s3 = set_address d queue_avail avail s2 in
      let e3 = set_address-avail s2 q2 e2 avail in
      let q3 = record q2 { avail = words_of avail } in
      let s4 = set_address d queue_used used s3 in
      let e4 = set_address-used s3 q3 e3 used in
      let q4 = record q3 { used = words_of used } in
      write-ready (d.write queue_size 0 size s4) (record q4 { size = size })
        (write-size s4 q4 e4 size) 1

  pub set_up-told_avail_first :
      (s : S) (desc avail used size : ℕ)
      → h.view s ≡ v
      → Shows
          (set_up d n size (queue_avail, avail) (queue_desc, desc) (queue_used, used) s)
          (told desc avail used size)
  unfolding set_up ready
  set_up-told_avail_first s desc avail used size e =
      let s1 = d.write queue_sel 0 n s in
      let e1 = select s e in
      let s2 = set_address d queue_avail avail s1 in
      let e2 = set_address-avail s1 (v.queues n) e1 avail in
      let q2 = record (v.queues n) { avail = words_of avail } in
      let s3 = set_address d queue_desc desc s2 in
      let e3 = set_address-desc s2 q2 e2 desc in
      let q3 = record q2 { desc = words_of desc } in
      let s4 = set_address d queue_used used s3 in
      let e4 = set_address-used s3 q3 e3 used in
      let q4 = record q3 { used = words_of used } in
      write-ready (d.write queue_size 0 size s4) (record q4 { size = size })
        (write-size s4 q4 e4 size) 1
