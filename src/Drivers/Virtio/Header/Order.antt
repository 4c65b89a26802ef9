-- ===== src/Drivers/Virtio/Header/Order.antt =====
-- Which writes of the drivers are allowed at the time of their making.
use lsd_limine.Prelude.{
  ℕ, ◌≡◌, Bool, true, ◌&&◌, refl, ◌∙◌, arith, ==_refl, ◌%◌, ◌^◌, ◌/◌, ap, false, ◌==◌,
}
use lsd_limine.Prelude.Bits.{bit_and_ones}
use lsd_limine.Prelude.Unions.{bit_or_none}
use lsd_limine.Drivers.Virtio.Header.{
  StatusFlag, flag_bits, negotiate, reset, acknowledge, driver, features_ok, status_field,
  driver_feat, driver_feat_sel, dev_feat_sel, set_flag, Field, Device, queue_sel, queue_size,
  queue_ready, queue_desc, queue_avail, queue_used, set_up, set_address, ready, bit_and, bit_or,
}
use lsd_limine.Drivers.Virtio.Header.Protocol.{
  fresh, observe, View, QueueView, IsVirtio, monitored, monitored-IsVirtio, allowed, set_word,
  Offer, aligned, legal_size, at_index,
}
use lsd_limine.Drivers.Virtio.Header.Start.{started, low_flag, reset-view}
use lsd_limine.Drivers.Virtio.Header.Queues.{
  words_of, with_queue, Shows, select, set_address-desc, set_address-avail, set_address-used,
  write-size, write-desc, write-avail, write-used,
}

allows-desc :
    (O : Offer) (word x : ℕ) (w : View)
    → w.status ≡ 11
    → (w.queues w.selected).ready ≡ 0
    → allowed O queue_desc word x w ≡ aligned 16 word x
unfolding allowed
allows-desc O word x w a b = rw (a, b) refl

allows-avail :
    (O : Offer) (word x : ℕ) (w : View)
    → w.status ≡ 11
    → (w.queues w.selected).ready ≡ 0
    → allowed O queue_avail word x w ≡ aligned 2 word x
unfolding allowed
allows-avail O word x w a b = rw (a, b) refl

allows-used :
    (O : Offer) (word x : ℕ) (w : View)
    → w.status ≡ 11
    → (w.queues w.selected).ready ≡ 0
    → allowed O queue_used word x w ≡ aligned 4 word x
unfolding allowed
allows-used O word x w a b = rw (a, b) refl

at_ready : (n : ℕ) (q : QueueView) (v : View) → q.ready ≡ 0 → (at_index n q v.queues n).ready ≡ 0
at_ready n q v r = rw (==_refl n) r

-- The low word that `set_address` writes.
abbrev pub low : ℕ → ℕ
low a = bit_and a 0xffffffff % 2 ^ 32

low_mod : (a : ℕ) → low a ≡ a % 2 ^ 32
low_mod a = ap (λ (t : ℕ). t % 2 ^ 32) (bit_and_ones 32 a) ∙ omega arith

low_16 : (a : ℕ) → low a % 16 ≡ a % 16
low_16 a = omega (arith, low_mod a)

low_2 : (a : ℕ) → low a % 2 ≡ a % 2
low_2 a = omega (arith, low_mod a)

low_4 : (a : ℕ) → low a % 4 ≡ a % 4
low_4 a = omega (arith, low_mod a)

-- Whether a queue may be set up so: its parts are aligned and its size is legal.
pub proper : Offer → ℕ → ℕ → ℕ → ℕ → ℕ → Bool
proper O n desc avail used size =
    (((desc % 16 == 0) && (avail % 2 == 0)) && (used % 4 == 0)) && legal_size (O.max_size n) size

pub and_true_right : (b : Bool) → (b && true) ≡ b
and_true_right true = refl
and_true_right false = refl

and_chain : (b d a u z : Bool) → ((((b && d) && a) && u) && z) ≡ (b && (((d && a) && u) && z))
and_chain true d a u z = refl
and_chain false d a u z = refl

module _ (O : Offer) {S : Type 0} (d : Device S) (accepts : (ℕ → ℕ) → Bool)
    (h : IsVirtio accepts d) where
  abbrev pub watched : Device (S × Bool)
  watched = monitored O accepts d h

  abbrev pub watched-IsVirtio : IsVirtio accepts watched
  watched-IsVirtio = monitored-IsVirtio O accepts d h

  -- A write adds whether it is allowed.
  adds :
      (f : Field) (word x : ℕ) (s : S × Bool) (v : View) (c : Bool)
      → h.view s.0 ≡ v
      → allowed O f word x v ≡ c
      → (watched.write f word x s).1 ≡ (s.1 && c)
  adds f word x s v c e k =
      ap (λ (u : View). s.1 && allowed O f word x u) e ∙ ap (λ (b : Bool). s.1 && b) k

  pub keeps :
      (f : Field) (word x : ℕ) (s : S × Bool) (v : View)
      → h.view s.0 ≡ v
      → allowed O f word x v ≡ true
      → (watched.write f word x s).1 ≡ s.1
  keeps f word x s v e k = adds f word x s v true e k ∙ and_true_right s.1

  module _ (n : ℕ) (v : View) (open_status : v.status ≡ 11) where
    -- Both words of an address are allowed where the address is aligned.
    address_adds :
        (f : Field) (k : ℕ)
        (c : (word x : ℕ) (w : View)
          → w.status ≡ 11
          → (w.queues w.selected).ready ≡ 0
          → allowed O f word x w ≡ aligned k word x)
        (s : S × Bool) (q q' : QueueView) (a : ℕ)
        → Shows watched accepts watched-IsVirtio n v s q
        → Shows watched accepts watched-IsVirtio n v (watched.write f 0 (low a) s) q'
        → q.ready ≡ 0
        → q'.ready ≡ 0
        → low a % k ≡ a % k
        → (set_address watched f a s).1 ≡ (s.1 && (a % k == 0))
    unfolding set_address
    address_adds f k c s q q' a e e' r r' same =
        keeps f 1 (a / 2 ^ 32 % 2 ^ 32) (watched.write f 0 (low a) s) (with_queue n q' v) e'
          (c 1 (a / 2 ^ 32 % 2 ^ 32) (with_queue n q' v) open_status (at_ready n q' v r'))
        ∙ adds f 0 (low a) s (with_queue n q v) (a % k == 0) e (
            c 0 (low a) (with_queue n q v) open_status (at_ready n q v r)
            ∙ ap (λ (t : ℕ). t == 0) same)

    -- A queue that is not ready is set up by writes that are all allowed, where it may be set up so.
    pub set_up-adds :
        (s : S × Bool) (desc avail used size : ℕ)
        → h.view s.0 ≡ v
        → (v.queues n).ready ≡ 0
        → (set_up watched n size (queue_desc, desc) (queue_avail, avail) (queue_used, used) s).1
          ≡ (s.1 && proper O n desc avail used size)
    unfolding set_up ready allowed proper
    set_up-adds s desc avail used size e r =
        let m = watched in
        let w = watched-IsVirtio in
        let s1 = m.write queue_sel 0 n s in
        let e1 = select m accepts w n v s e in
        let s2 = set_address m queue_desc desc s1 in
        let e2 = set_address-desc m accepts w n v s1 (v.queues n) e1 desc in
        let q2 = record (v.queues n) { desc = words_of desc } in
        let s3 = set_address m queue_avail avail s2 in
        let e3 = set_address-avail m accepts w n v s2 q2 e2 avail in
        let q3 = record q2 { avail = words_of avail } in
        let s4 = set_address m queue_used used s3 in
        let e4 = set_address-used m accepts w n v s3 q3 e3 used in
        let q4 = record q3 { used = words_of used } in
        let s5 = m.write queue_size 0 size s4 in
        let e5 = write-size m accepts w n v s4 q4 e4 size in
        let q5 = record q4 { size = size } in
        let legal = legal_size (O.max_size n) size in
        let k1 : s1.1 ≡ s.1 = keeps queue_sel 0 n s v e (rw open_status refl) in
        let k2 : s2.1 ≡ (s1.1 && (desc % 16 == 0)) =
          address_adds queue_desc 16 (allows-desc O) s1 (v.queues n)
            (record (v.queues n) { desc = set_word 0 (low desc) (v.queues n).desc }) desc e1
            (write-desc m accepts w n v s1 (v.queues n) e1 0 (low desc)) r r (low_16 desc) in
        let k3 : s3.1 ≡ (s2.1 && (avail % 2 == 0)) =
          address_adds queue_avail 2 (allows-avail O) s2 q2
            (record q2 { avail = set_word 0 (low avail) q2.avail }) avail e2
            (write-avail m accepts w n v s2 q2 e2 0 (low avail)) r r (low_2 avail) in
        let k4 : s4.1 ≡ (s3.1 && (used % 4 == 0)) =
          address_adds queue_used 4 (allows-used O) s3 q3
            (record q3 { used = set_word 0 (low used) q3.used }) used e3
            (write-used m accepts w n v s3 q3 e3 0 (low used)) r r (low_4 used) in
        let k5 : s5.1 ≡ (s4.1 && legal) =
          adds queue_size 0 size s4 (with_queue n q4 v) legal e4
            (rw (open_status, at_ready n q4 v r) refl) in
        keeps queue_ready 0 1 s5 (with_queue n q5 v) e5 (rw (open_status, at_ready n q5 v r) refl)
        ∙ k5
        ∙ ap (λ (b : Bool). b && legal)
            (k4
              ∙ ap (λ (b : Bool). b && (used % 4 == 0))
                  (k3
                    ∙ ap (λ (b : Bool). b && (avail % 2 == 0))
                        (k2 ∙ ap (λ (b : Bool). b && (desc % 16 == 0)) k1)))
        ∙ and_chain s.1 (desc % 16 == 0) (avail % 2 == 0) (used % 4 == 0) legal

  pub set_flag-watched :
      (s : S × Bool) (v : View) (flag : StatusFlag) (c : Bool)
      → h.view s.0 ≡ v
      → allowed O status_field 0 (bit_or v.status (flag_bits flag)) v ≡ c
      → (set_flag watched flag s).1 ≡ (s.1 && c)
  unfolding set_flag
  set_flag-watched s v flag c e k = rw (h.read_lem, e, k) refl

  pub negotiate-keeps : (s : S × Bool) → (negotiate watched driver_feat_sel dev_feat_sel s).1 ≡ s.1
  unfolding negotiate allowed reset flag_bits observe
  negotiate-keeps s =
      let m = watched in
      let w = watched-IsVirtio in
      let v = h.view s.0 in
      let s0 = reset m s in
      let e0 = reset-view m accepts w s in
      let s1 = set_flag m acknowledge s0 in
      let e1 =
        low_flag m accepts w s0 (fresh v) acknowledge 1 e0 refl (omega arith) (omega arith) in
      let s2 = set_flag m driver s1 in
      let e2 =
        low_flag m accepts w s1 (record (fresh v) { status = 1 }) driver 3 e1 refl (omega arith)
          (omega arith) in
      let v2 : View = record (fresh v) { status = 3 } in
      let s3 = m.write driver_feat_sel 0 0 s2 in
      let v3 : View = record v2 { feature_word = 0 } in
      let e3 : h.view s3.0 ≡ v3 = rw (h.write_lem driver_feat_sel 0 0 s2.0, e2) refl in
      let s4 = m.write dev_feat_sel 0 0 s3 in
      let e4 : h.view s4.0 ≡ v3 = rw (h.write_lem dev_feat_sel 0 0 s3.0, e3) refl in
      let s5 = m.write driver_feat 0 0 s4 in
      let e5 : h.view s5.0 ≡ started 3 v = rw (h.write_lem driver_feat 0 0 s4.0, e4) refl in
      let k0 : s0.1 ≡ s.1 = keeps status_field 0 0 s v refl refl in
      let k1 : s1.1 ≡ s0.1 =
        set_flag-watched s0 (fresh v) acknowledge true e0 refl ∙ and_true_right s0.1 in
      let k2 : s2.1 ≡ s1.1 =
        set_flag-watched s1 (record (fresh v) { status = 1 }) driver true e1 refl
        ∙ and_true_right s1.1 in
      let k3 : s3.1 ≡ s2.1 = keeps driver_feat_sel 0 0 s2 v2 e2 refl in
      let k4 : s4.1 ≡ s3.1 = keeps dev_feat_sel 0 0 s3 v3 e3 refl in
      let offered : (bit_or 0 (O.features 0) == O.features 0) ≡ true =
        rw (bit_or_none (O.features 0)) (==_refl (O.features 0)) in
      let k5 : s5.1 ≡ s4.1 = keeps driver_feat 0 0 s4 v3 e4 offered in
      set_flag-watched s5 (started 3 v) features_ok true e5 refl
      ∙ and_true_right s5.1
      ∙ k5
      ∙ k4
      ∙ k3
      ∙ k2
      ∙ k1
      ∙ k0
