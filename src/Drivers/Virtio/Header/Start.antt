-- ===== src/Drivers/Virtio/Header/Start.antt =====
-- What the registers hold when a driver has negotiated, and which steps it took.
use lsd_limine.Prelude.{ℕ, ◌≡◌, if◌then◌else◌, refl, ◌==◌, ◌<◌, arith, ne→==}
use lsd_limine.Drivers.Virtio.Header.{
  Field, Device, StatusFlag, flag_bits, reset, set_flag, negotiate, acknowledge, driver,
  features_ok, driver_feat, status_field, Bool, is_set, bit_or, bit_and, dev_feat_sel,
  driver_feat_sel,
}
use lsd_limine.Drivers.Virtio.Header.Protocol.{
  View, IsVirtio, observe, at_index, fresh, refused_bits,
}

-- The features when none is asked for.
abbrev pub no_features : View → ℕ → ℕ
no_features v = at_index 0 0 v.features

abbrev pub started : ℕ → View → View
started x v = record (fresh v) { status = x; feature_word = 0; features = no_features v }

kept : (x : ℕ) → x < 8 → (c : Bool) → (if c then x else refused_bits x) ≡ x
kept x small c = ground arith

module _ {S : Type 0} (d : Device S) (accepts : (ℕ → ℕ) → Bool) (h : IsVirtio accepts d) where
  pub set_flag-view :
      (s : S) (v : View) (flag : StatusFlag)
      → h.view s ≡ v
      → h.view (set_flag d flag s)
        ≡ observe accepts status_field 0 (bit_or v.status (flag_bits flag)) v
  unfolding set_flag
  set_flag-view s v flag e = rw (h.write_lem, h.read_lem, e) refl

  pub is_set-view :
      (s : S) (v : View) (flag : StatusFlag)
      → h.view s ≡ v
      → is_set d flag s ≡ (bit_and v.status (flag_bits flag) == flag_bits flag)
  unfolding is_set
  is_set-view s v flag e = rw (h.read_lem, e) refl

  -- Flags below `FEATURES_OK` stay as they are written.
  pub low_flag :
      (s : S) (v : View) (flag : StatusFlag) (x : ℕ)
      → h.view s ≡ v
      → bit_or v.status (flag_bits flag) ≡ x
      → 0 < x
      → x < 8
      → h.view (set_flag d flag s) ≡ record v { status = x }
  unfolding observe
  low_flag s v flag x e b pos small =
      rw (set_flag-view s v flag e, b, ne→== x 0 (omega arith), kept x small (accepts v.features))
        refl

  pub reset-view : (s : S) → h.view (reset d s) ≡ fresh (h.view s)
  unfolding reset observe
  reset-view s = h.write_lem status_field 0 0 s

  pub driver_known : S → S
  driver_known s = set_flag d driver (set_flag d acknowledge (reset d s))

  pub driver_known-view :
      (s : S) → h.view (driver_known s) ≡ record (fresh (h.view s)) { status = 3 }
  unfolding driver_known flag_bits
  driver_known-view s =
      let e0 = reset-view s in
      let e1 =
        low_flag (reset d s) (fresh (h.view s)) acknowledge 1 e0 refl (omega arith) (omega arith) in
      low_flag (set_flag d acknowledge (reset d s)) (record (fresh (h.view s)) { status = 1 })
        driver 3 e1 refl (omega arith) (omega arith)

  module _ (first second : Field)
      (selects : (s : S)
        → h.view (d.write second 0 0 (d.write first 0 0 s))
          ≡ record (h.view s) { feature_word = 0 }) where
    -- `FEATURES_OK` is set afterwards where the device accepts the features.
    pub negotiate-started :
        (s : S)
        → h.view (negotiate d first second s)
          ≡ started (if accepts (no_features (h.view s)) then 11 else 3) (h.view s)
    unfolding negotiate observe driver_known flag_bits
    negotiate-started s =
        let s1 = driver_known s in
        let e1 = driver_known-view s in
        let s2 = d.write second 0 0 (d.write first 0 0 s1) in
        let e2 = selects s1 in
        let s3 = d.write driver_feat 0 0 s2 in
        let e3 : h.view s3 ≡ started 3 (h.view s) =
          rw (h.write_lem driver_feat 0 0 s2, e2, e1) refl in
        set_flag-view s3 (started 3 (h.view s)) features_ok e3

  pub selects_driver_first :
      (s : S)
      → h.view (d.write dev_feat_sel 0 0 (d.write driver_feat_sel 0 0 s))
        ≡ record (h.view s) { feature_word = 0 }
  unfolding observe
  selects_driver_first s =
      rw
        (
          h.write_lem dev_feat_sel 0 0 (d.write driver_feat_sel 0 0 s),
          h.write_lem driver_feat_sel 0 0 s,
        )
        refl

  pub selects_device_first :
      (s : S)
      → h.view (d.write driver_feat_sel 0 0 (d.write dev_feat_sel 0 0 s))
        ≡ record (h.view s) { feature_word = 0 }
  unfolding observe
  selects_device_first s =
      rw
        (
          h.write_lem driver_feat_sel 0 0 (d.write dev_feat_sel 0 0 s),
          h.write_lem dev_feat_sel 0 0 s,
        )
        refl
