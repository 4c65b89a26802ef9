-- ===== src/Timing/Elapsed.antt =====
-- The duration between two instants.
use native.Mathlib.Nat.{div-le_self, mod-lt, div-mul-le_self, div-lt_iff_lt-mul}
use lsd_limine.Prelude.{
  ℕ, ◌+◌, ◌-◌, ◌*◌, ◌/◌, ◌%◌, ◌^◌, ◌≤◌, ◌<◌, ◌≡◌, panic, Returns, refl, arith, ne→==, lt→ltb, sub64,
  add64, mul64, some,
}
use lsd_limine.Timing.{
  of_ticks, ticks_per_micro, div64, rem64, duration, checked_sub, checked_duration_since, ticks,
  weeks, days, hours, minutes, seconds,
}

-- The microseconds in what is left behind the whole seconds.
abbrev pub micros : ℕ → ℕ → ℕ
micros freq diff = diff % freq / ticks_per_micro freq

module _ (freq diff : ℕ) (pos : 0 < freq) (small : freq + 1000000 ≤ 2 ^ 64)
    (fits : diff < 2 ^ 64) where
  ticks_per_micro-pos : (0 < ticks_per_micro freq) × (freq ≤ ticks_per_micro freq * 1000000)
  unfolding ticks_per_micro
  ticks_per_micro-pos = (omega arith, omega arith)

  micros-lt : micros freq diff < 1000000
  micros-lt =
      let t = ticks_per_micro-pos in
      let m = mod-lt diff pos in (div-lt_iff_lt-mul t.0).1 (omega (arith, t.1, m))

  -- With a clock frequency that is neither 0 nor within a million of `2 ^ 64`, a number of ticks
  -- has a duration: the whole seconds, and less than a second in whole microseconds, each of
  -- `ticks_per_micro` ticks, that are no longer than the ticks left.
  pub of_ticks-Duration :
      Returns
        (λ d.
          (d.secs ≡ diff / freq)
          × (d.nanos ≡ micros freq diff * 1000)
          × (d.nanos < 1000000000)
          × (micros freq diff * ticks_per_micro freq ≤ diff % freq))
        (of_ticks freq diff)
  unfolding of_ticks div64 rem64 duration
  of_ticks-Duration =
      let lt = micros-lt in
      let t = ticks_per_micro-pos in
      let m = micros freq diff in
      let whole : diff / freq ≤ diff =
        omega (arith, div-mul-le_self diff freq, div-le_self diff freq) in
      let n : mul64 m 1000 % 2 ^ 32 ≡ m * 1000 = omega arith in
      let z : m * 1000 / 1000000000 ≡ 0 = omega arith in
      let r : m * 1000 % 1000000000 ≡ m * 1000 = omega arith in
      let y : diff / freq + 0 ≡ diff / freq = omega arith in
      rw
        (
          ne→== freq 0 (omega arith),
          ne→== (ticks_per_micro freq) 0 (omega arith),
          n,
          z,
          r,
          y,
          lt→ltb (diff / freq) (2 ^ 64) (omega arith),
        )
        (refl, refl, omega arith, div-mul-le_self (diff % freq) (ticks_per_micro freq))

of_ticks-panic :
    (freq diff : ℕ) → 2 ^ 64 ≤ freq + 999999 → freq < 2 ^ 64 → of_ticks freq diff ≡ panic
unfolding of_ticks div64 rem64 ticks_per_micro
of_ticks-panic freq diff high below =
    let z : sub64 (add64 freq 1000000) 1 / 1000000 ≡ 0 = omega arith in
    rw (ne→== freq 0 (omega arith), z)

checked_sub-some : (a b : ℕ) → b ≤ a → checked_sub a b ≡ some (a - b)
unfolding checked_sub
checked_sub-some a b h = ground arith

-- With a clock frequency within a million of `2 ^ 64`, such as the value of `TIMER_SPEED` before
-- the clock is found, the duration between two instants in order panics.
pub checked_duration_since-panic :
    (freq self earlier : ℕ)
    → 2 ^ 64 ≤ freq + 999999
    → freq < 2 ^ 64
    → earlier ≤ self
    → self < 2 ^ 64
    → checked_duration_since freq self earlier ≡ panic
unfolding checked_duration_since
checked_duration_since-panic freq self earlier high below order fits = rw (
  checked_sub-some self earlier order,
  checked_duration_since,
  of_ticks-panic freq (self - earlier) high below,
)

-- Units agree, where no product passes `2 ^ 64`: a week is seven days, a day 24 hours, an hour 60
-- minutes, and a minute 60 seconds.
pub ticks-agree :
    (timer_speed n : ℕ)
    → timer_speed * (n * 604800) < 2 ^ 64
    → (ticks timer_speed (weeks n) ≡ ticks timer_speed (days (7 * n)))
      × (ticks timer_speed (days n) ≡ ticks timer_speed (hours (24 * n)))
      × (ticks timer_speed (hours n) ≡ ticks timer_speed (minutes (60 * n)))
      × (ticks timer_speed (minutes n) ≡ ticks timer_speed (seconds (60 * n)))
unfolding ticks
ticks-agree timer_speed n h = (omega arith, omega arith, omega arith, omega arith)
