-- ===== src/Drivers/Virtio/Header/Protocol.antt =====
-- How a virtio device answers (virtio 1.2, sections 2.1, 2.7, 3.1.1 and 4.2.2), which the repository
-- does not hold: its registers, what a write makes of them, what a device offers, and which writes a
-- driver may make when and with which values.
use lsd_limine.Prelude.{
  ℕ, zero, suc, ◌^◌, true, leb, bit_or, ◌-◌, ◌*◌, ◌/◌, ◌%◌, ◌≡◌, Bool, ◌==◌, if◌then◌else◌, ◌||◌,
  ◌&&◌, false,
}
use lsd_limine.Drivers.Virtio.Header.{
  Field, Device, driver_feat, driver_feat_sel, queue_sel, queue_size, queue_ready, status_field,
  queue_desc, queue_avail, queue_used, dev_feat_sel, queue_notify, int_ack,
}

-- The two words of an address.
pub record Words : Type 0 where
  pub low : ℕ
  pub high : ℕ

pub record QueueView : Type 0 where
  pub desc : Words
  pub avail : Words
  pub used : Words
  pub size : ℕ
  pub ready : ℕ

pub record View : Type 0 where
  pub status : ℕ
  pub selected : ℕ
  pub feature_word : ℕ
  pub features : ℕ → ℕ
  pub queues : ℕ → QueueView

abbrev pub set_word : ℕ → ℕ → Words → Words
set_word word x w =
    if word == 0 then record w { low = x } else if word == 1 then record w { high = x } else w

abbrev pub at_index {ℓ} : {A : Type ℓ} → ℕ → A → (ℕ → A) → ℕ → A
at_index n a f i = if i == n then a else f i

abbrev pub change_queue : QueueView → View → View
change_queue q v = record v { queues = at_index v.selected q v.queues }

-- A reset clears the status, and no queue is ready.
abbrev pub fresh : View → View
fresh v = record v { status = 0; queues = λ i. record (v.queues i) { ready = 0 } }

-- `FEATURES_OK` does not stay set when the device refuses the features.
abbrev pub refused_bits : ℕ → ℕ
refused_bits x = x - x / 8 % 2 * 8

module _ (accepts : (ℕ → ℕ) → Bool) where
  -- What a write to a word of a field makes of the registers.
  unfoldable pub observe : Field → ℕ → ℕ → View → View
  observe status_field word x v =
      if x == 0
      then fresh v
      else record v { status = if accepts v.features then x else refused_bits x }
  observe driver_feat_sel word x v = record v { feature_word = x }
  observe driver_feat word x v = record v { features = at_index v.feature_word x v.features }
  observe queue_sel word x v = record v { selected = x }
  observe queue_size word x v = change_queue (record (v.queues v.selected) { size = x }) v
  observe queue_ready word x v = change_queue (record (v.queues v.selected) { ready = x }) v
  observe queue_desc word x v =
      change_queue
        (record (v.queues v.selected) { desc = set_word word x (v.queues v.selected).desc }) v
  observe queue_avail word x v =
      change_queue
        (record (v.queues v.selected) { avail = set_word word x (v.queues v.selected).avail }) v
  observe queue_used word x v =
      change_queue
        (record (v.queues v.selected) { used = set_word word x (v.queues v.selected).used }) v
  observe _ word x v = v

  -- A device whose registers behave so, as far as the driver uses them.
  pub record IsVirtio {S : Type 0} (d : Device S) : Type 0 where
    pub view : S → View
    pub write_lem :
        (f : Field) (word x : ℕ) (s : S) → view (d.write f word x s) ≡ observe f word x (view s)
    pub read_lem : (s : S) → d.read status_field s ≡ (view s).status

-- What a device tells of itself: the largest size of each queue, `QueueNumMax`, and the words of the
-- features that it offers.
pub record Offer : Type 0 where
  pub max_size : ℕ → ℕ
  pub features : ℕ → ℕ

-- A power of two below `2 ^ bits`.
abbrev pub power_below : ℕ → ℕ → Bool
power_below zero x = false
power_below (suc bits) x = (x == 2 ^ bits) || power_below bits x

-- The size of a split queue is a power of two up to 32768, and at most what the device tells.
abbrev pub legal_size : ℕ → ℕ → Bool
legal_size max x = power_below 16 x && leb x max

-- The low word of an address says how it is aligned.
abbrev pub aligned : ℕ → ℕ → ℕ → Bool
aligned n word x = if word == 0 then x % n == 0 else true

module _ (O : Offer) where
  -- Whether a driver may write so in a view. A status is left for the next one in the order of
  -- 3.1.1, features that are offered are written before `FEATURES_OK`, a queue that is not ready is
  -- set up between that and `DRIVER_OK`, with parts that are aligned as 2.7 says and a size that is
  -- legal, and the device is notified afterwards. A reset may come at any time.
  unfoldable pub allowed : Field → ℕ → ℕ → View → Bool
  allowed status_field word x v =
      (x == 0)
      || ((v.status == 0) && (x == 1))
      || ((v.status == 1) && (x == 3))
      || ((v.status == 3) && (x == 11))
      || ((v.status == 11) && (x == 15))
  allowed dev_feat_sel word x v = v.status == 3
  allowed driver_feat_sel word x v = v.status == 3
  allowed driver_feat word x v =
      (v.status == 3) && (bit_or x (O.features v.feature_word) == O.features v.feature_word)
  allowed queue_sel word x v = v.status == 11
  allowed queue_size word x v =
      (v.status == 11) && ((v.queues v.selected).ready == 0) && legal_size (O.max_size v.selected) x
  allowed queue_ready word x v = (v.status == 11) && ((v.queues v.selected).ready == 0) && (x == 1)
  allowed queue_desc word x v =
      (v.status == 11) && ((v.queues v.selected).ready == 0) && aligned 16 word x
  allowed queue_avail word x v =
      (v.status == 11) && ((v.queues v.selected).ready == 0) && aligned 2 word x
  allowed queue_used word x v =
      (v.status == 11) && ((v.queues v.selected).ready == 0) && aligned 4 word x
  allowed queue_notify word x v = v.status == 15
  allowed int_ack word x v = v.status == 15
  allowed _ word x v = false

module _ (O : Offer) (accepts : (ℕ → ℕ) → Bool) {S : Type 0} (d : Device S)
    (h : IsVirtio accepts d) where
  -- The device, and whether every write so far was allowed.
  abbrev pub monitored : Device (S × Bool)
  monitored = record {
    read = λ f (s, clean). d.read f s;
    write = λ f word x (s, clean). (d.write f word x s, clean && allowed O f word x (h.view s));
  }

  abbrev pub monitored-IsVirtio : IsVirtio accepts monitored
  monitored-IsVirtio = record {
    view = λ (s, clean). h.view s;
    write_lem = λ f word x (s, clean). h.write_lem f word x s;
    read_lem = λ (s, clean). h.read_lem s;
  }
