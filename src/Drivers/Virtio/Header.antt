-- ===== src/Drivers/Virtio/Header.antt =====
-- LSD/src/drivers/virtio/mod.rs: the registers of a device. A device is hardware: a state, what a
-- register reads in it, and what a write to a word of a register makes of it.
pub mod Layout
pub mod Protocol
pub mod Queues
pub mod Start
pub mod Order
use lsd_limine.Prelude.{ℕ, ◌^◌, ◌/◌, ◌%◌, Bool, ◌==◌, bit_and, bit_or, Option, some, none}

-- The fields of `VirtIOHeader`, in order.
pub data Field : Type 0 where
  magic version dev_id vend_id dev_feat dev_feat_sel reserved1 driver_feat : Field
  driver_feat_sel reserved2 queue_sel queue_size_max queue_size reserved3 : Field
  queue_ready reserved4 queue_notify reserved5 int_status int_ack reserved6 : Field
  status_field reserved7 queue_desc reserved8 queue_avail reserved9 queue_used : Field
  reserved10 config_gen : Field

pub data DeviceType : Type 0 where
  reserved network block console entropy trad_mem_balloon scsi_host gpu : DeviceType
  input socket cryptography : DeviceType

-- The discriminant.
unfoldable pub device_code : DeviceType → ℕ
device_code reserved = 0
device_code network = 1
device_code block = 2
device_code console = 3
device_code entropy = 4
device_code trad_mem_balloon = 5
device_code scsi_host = 8
device_code gpu = 16
device_code input = 18
device_code socket = 19
device_code cryptography = 20

pub data StatusFlag : Type 0 where
  acknowledge device_needs_reset driver driver_ok failed_flag features_ok : StatusFlag

-- The discriminant.
unfoldable pub flag_bits : StatusFlag → ℕ
flag_bits acknowledge = 1
flag_bits device_needs_reset = 64
flag_bits driver = 2
flag_bits driver_ok = 4
flag_bits failed_flag = 128
flag_bits features_ok = 8

-- `read f s` is what field `f` reads in the state `s`; `write f word x s` is the state when `x` has
-- been written to a word of field `f`.
pub record Device (S : Type 0) : Type 0 where
  pub read : Field → S → ℕ
  pub write : Field → ℕ → ℕ → S → S

module _ {S : Type 0} (d : Device S) where
  unfoldable pub is_valid : S → Bool
  is_valid s = d.read magic s == 0x74726976

  -- `Status`.
  unfoldable pub reset : S → S
  reset s = d.write status_field 0 0 s

  unfoldable pub set_flag : StatusFlag → S → S
  set_flag flag s = d.write status_field 0 (bit_or (d.read status_field s) (flag_bits flag)) s

  unfoldable pub is_set : StatusFlag → S → Bool
  is_set flag s = bit_and (d.read status_field s) (flag_bits flag) == flag_bits flag

  unfoldable pub failed : S → Bool
  failed s = bit_and (d.read status_field s) (flag_bits failed_flag) == flag_bits failed_flag

  unfoldable pub needs_reset : S → Bool
  needs_reset s =
      bit_and (d.read status_field s) (flag_bits device_needs_reset) == flag_bits device_needs_reset

  -- What `QueueDescriptor::set`, `QueueAvailable::set` and `QueueUsed::set` share.
  unfoldable pub set_address : Field → ℕ → S → S
  set_address f addr s =
      let low = bit_and addr 0xffffffff % 2 ^ 32 in
      let high = addr / 2 ^ 32 % 2 ^ 32 in d.write f 1 high (d.write f 0 low s)

  -- `QueueReady`.
  unfoldable pub ready : S → S
  ready s = d.write queue_ready 0 1 s

  unfoldable pub unready : S → S
  unready s = d.write queue_ready 0 0 s

  -- `QueueNotify::notify` and `IntAck::ack`.
  unfoldable pub notify : ℕ → S → S
  notify queue s = d.write queue_notify 0 queue s

  unfoldable pub ack : ℕ → S → S
  ack mask s = d.write int_ack 0 mask s

  -- What both drivers do with one queue: they select it, tell where its parts are, in the order of
  -- the fields given, write its size and make it ready.
  unfoldable pub set_up : ℕ → ℕ → Field × ℕ → Field × ℕ → Field × ℕ → S → S
  unfolding set_address ready
  set_up n size first second third s =
      let s = d.write queue_sel 0 n s in
      let s = set_address first.0 first.1 s in
      let s = set_address second.0 second.1 s in
      let s = set_address third.0 third.1 s in let s = d.write queue_size 0 size s in ready s

  -- How both drivers begin: the status, and features of which none is asked for. `first` and
  -- `second` are the selectors, in the order in which they are written.
  unfoldable pub negotiate : Field → Field → S → S
  unfolding reset set_flag
  negotiate first second s =
      let s = reset s in
      let s = set_flag acknowledge s in
      let s = set_flag driver s in
      let s = d.write first 0 0 s in
      let s = d.write second 0 0 s in let s = d.write driver_feat 0 0 s in set_flag features_ok s
