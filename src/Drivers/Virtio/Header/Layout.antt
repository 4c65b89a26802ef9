-- ===== src/Drivers/Virtio/Header/Layout.antt =====
-- Where the fields of `VirtIOHeader` lie: `repr(C)` puts words one behind the other.
use lsd_limine.Prelude.{ℕ, ◌+◌, ◌*◌, ◌≡◌, refl, List, [], ◌∷◌}
use lsd_limine.Drivers.Virtio.Header.{
  Field, magic, version, dev_id, vend_id, dev_feat, dev_feat_sel, reserved1, driver_feat,
  driver_feat_sel, reserved2, queue_sel, queue_size_max, queue_size, reserved3, queue_ready,
  reserved4, queue_notify, reserved5, int_status, int_ack, reserved6, status_field, reserved7,
  queue_desc, reserved8, queue_avail, reserved9, queue_used, reserved10, config_gen,
}

-- The number of 32-bit words of a field.
unfoldable pub words : Field → ℕ
words reserved1 = 2
words reserved2 = 2
words reserved3 = 2
words reserved4 = 2
words reserved5 = 3
words reserved6 = 2
words reserved7 = 3
words queue_desc = 2
words reserved8 = 2
words queue_avail = 2
words reserved9 = 2
words queue_used = 2
words reserved10 = 21
words _ = 1

-- The fields in the order of their declaration.
abbrev pub fields : List Field
fields =
    magic ∷ version ∷ dev_id ∷ vend_id ∷ dev_feat ∷ dev_feat_sel ∷ reserved1 ∷ driver_feat
    ∷ driver_feat_sel ∷ reserved2 ∷ queue_sel ∷ queue_size_max ∷ queue_size ∷ reserved3
    ∷ queue_ready ∷ reserved4 ∷ queue_notify ∷ reserved5 ∷ int_status ∷ int_ack ∷ reserved6
    ∷ status_field ∷ reserved7 ∷ queue_desc ∷ reserved8 ∷ queue_avail ∷ reserved9 ∷ queue_used
    ∷ reserved10 ∷ config_gen ∷ []

Field-discrete : Discrete Field
Field-discrete = hlevel

-- The bytes before a field.
unfoldable pub offset_in : List Field → Field → ℕ
unfolding Field-discrete
offset_in [] f = 0
offset_in (g ∷ gs) f = elim (Field-discrete g f) [ yes _ ↦ 0 | no _ ↦ 4 * words g + offset_in gs f ]

-- The offsets that the comments of the struct name.
unfoldable pub documented : Field → ℕ
documented magic = 0x00
documented version = 0x04
documented dev_id = 0x08
documented vend_id = 0x0c
documented dev_feat = 0x10
documented dev_feat_sel = 0x14
documented reserved1 = 0x18
documented driver_feat = 0x20
documented driver_feat_sel = 0x24
documented reserved2 = 0x28
documented queue_sel = 0x30
documented queue_size_max = 0x34
documented queue_size = 0x38
documented reserved3 = 0x3c
documented queue_ready = 0x44
documented reserved4 = 0x48
documented queue_notify = 0x50
documented reserved5 = 0x54
documented int_status = 0x60
documented int_ack = 0x64
documented reserved6 = 0x68
documented status_field = 0x70
documented reserved7 = 0x74
documented queue_desc = 0x80
documented reserved8 = 0x88
documented queue_avail = 0x90
documented reserved9 = 0x98
documented queue_used = 0xa0
documented reserved10 = 0xa8
documented config_gen = 0xfc

-- Every field of the header lies where its comment says.
pub offset_in-documented : (f : Field) → offset_in fields f ≡ documented f
unfolding offset_in documented words Field-discrete
offset_in-documented magic = refl
offset_in-documented version = refl
offset_in-documented dev_id = refl
offset_in-documented vend_id = refl
offset_in-documented dev_feat = refl
offset_in-documented dev_feat_sel = refl
offset_in-documented reserved1 = refl
offset_in-documented driver_feat = refl
offset_in-documented driver_feat_sel = refl
offset_in-documented reserved2 = refl
offset_in-documented queue_sel = refl
offset_in-documented queue_size_max = refl
offset_in-documented queue_size = refl
offset_in-documented reserved3 = refl
offset_in-documented queue_ready = refl
offset_in-documented reserved4 = refl
offset_in-documented queue_notify = refl
offset_in-documented reserved5 = refl
offset_in-documented int_status = refl
offset_in-documented int_ack = refl
offset_in-documented reserved6 = refl
offset_in-documented status_field = refl
offset_in-documented reserved7 = refl
offset_in-documented queue_desc = refl
offset_in-documented reserved8 = refl
offset_in-documented queue_avail = refl
offset_in-documented reserved9 = refl
offset_in-documented queue_used = refl
offset_in-documented reserved10 = refl
offset_in-documented config_gen = refl
