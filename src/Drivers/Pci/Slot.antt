-- ===== src/Drivers/Pci/Slot.antt =====
-- LSD/src/drivers/pci/slot.rs: the configuration space of a PCI device. A register that is read is
-- an argument; the fields of a struct of registers are those of a record.
pub mod Identity
use lsd_limine.Prelude.{
  ℕ, ◌+◌, ◌-◌, ◌*◌, ◌/◌, ◌%◌, ◌^◌, Bool, List, [], ◌∷◌, ltb, ◌==◌, if◌then◌else◌, get_elem?, Run,
  ok, panic, ◌>>=◌, ◌>>◌, assert, unwrap, bit_and, bit_or, not64,
}

pub record DeviceIdent : Type 0 where
  pub vendor_id : ℕ
  pub device_id : ℕ
  pub class : ℕ
  pub subclass : ℕ
  pub prog_if : ℕ
  pub revision : ℕ

-- `Slot::read_reg`, of the words of the space.
unfoldable pub read_reg : (ℕ → ℕ) → ℕ → Run ℕ
read_reg words index = do assert (ltb index 1024); ok (words index)

-- `Slot::ident`.
unfoldable pub ident : (ℕ → ℕ) → ℕ → ℕ → Run DeviceIdent
ident words vendor_id dev_id = do
  class_reg ← read_reg words 2
  ok (record {
    vendor_id = vendor_id;
    device_id = dev_id;
    class = class_reg / 2 ^ 24 % 2 ^ 8;
    subclass = class_reg / 2 ^ 16 % 2 ^ 8;
    prog_if = class_reg / 2 ^ 8 % 2 ^ 8;
    revision = class_reg % 2 ^ 8;
  })

pub record ClassCode : Type 0 where
  pub high : ℕ
  pub mid : ℕ
  pub low : ℕ

-- `ClassCode::read`; the bytes are widened to 32 bits.
unfoldable pub read_code : ClassCode → ℕ
read_code c = bit_or (bit_or (c.high * 2 ^ 16 % 2 ^ 32) (c.mid * 2 ^ 8 % 2 ^ 32)) c.low

-- `HeadType::is_multifunction` and `head_type`.
unfoldable pub is_multifunction : ℕ → Bool
is_multifunction v = v / 2 ^ 7 == 1

unfoldable pub head_type : ℕ → ℕ
head_type v = bit_and v 0x7f

pub data BarKind : Type 0 where
  io_space bits64 bits32 : BarKind

-- `!0b111` of 32 and of 64 bits.
abbrev pub not_low32 : ℕ
not_low32 = 0xfffffff8

abbrev pub not_low64 : ℕ
not_low64 = not64 7

-- `Bars`: six registers; an index out of bounds panics.
unfoldable pub read_u32 : List ℕ → ℕ → Run ℕ
read_u32 bars index = do bar ← unwrap (get_elem? bars index); ok (bit_and bar not_low32)

unfoldable pub read_u64 : List ℕ → ℕ → Run ℕ
read_u64 bars index = do
  high ← unwrap (get_elem? bars index)
  low ← unwrap (get_elem? bars (index + 1))
  ok (bit_or (high * 2 ^ 32 % 2 ^ 64) (bit_and low not_low64))

unfoldable pub kind_of : ℕ → Run BarKind
kind_of bar =
    if bit_and bar 1 == 1
    then ok io_space
    else (let width = bit_and (bar / 2) 3 in
        if width == 0 then ok bits32 else if width == 2 then ok bits64 else panic)

unfoldable pub bar_kind : List ℕ → ℕ → Run BarKind
bar_kind bars index = do bar ← unwrap (get_elem? bars index); kind_of bar

pub data DeviceType : Type 0 where
  unknown scsi_bus_controller nvme ahci1 host_bridge_controller : DeviceType

-- `DeviceIdent::dev_type`.
unfoldable pub dev_type : DeviceIdent → DeviceType
dev_type d =
    if d.class == 0x1
    then (if d.subclass == 0x0
        then scsi_bus_controller
        else if d.subclass == 0x6
        then (if d.prog_if == 0x1 then ahci1 else unknown)
        else if d.subclass == 0x8
        then (if d.prog_if == 0x2 then nvme else unknown)
        else unknown)
    else if d.class == 0x6
    then (if d.subclass == 0x0 then host_bridge_controller else unknown)
    else unknown
