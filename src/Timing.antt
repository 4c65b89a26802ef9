-- ===== src/Timing.antt =====
-- LSD/src/timing.rs: units of time, instants and timeouts. `timer_speed` is the value of
-- `TIMER_SPEED`. A `Duration` is its seconds and nanoseconds; `Duration::new` carries nanoseconds
-- over into seconds, and it panics where those overflow.
pub mod Elapsed
use lsd_limine.Prelude.{
  ℕ, ◌+◌, ◌-◌, ◌*◌, ◌/◌, ◌%◌, ◌^◌, Bool, Option, none, some, ltb, leb, ◌==◌, ◌&&◌, ◌||◌,
  if◌then◌else◌, Run, ok, panic, ◌>>=◌, ◌>>◌, assert, add64, sub64, mul64,
}

pub data TimeUnit : Type 0 where
  weeks days hours hectoseconds minutes decaseconds seconds deciseconds : ℕ → TimeUnit
  centiseconds milli_seconds micro_seconds ticks_of : ℕ → TimeUnit

-- `Unit::ticks`.
unfoldable pub ticks : ℕ → TimeUnit → ℕ
ticks timer_speed (weeks n) = mul64 (mul64 timer_speed n) 604800
ticks timer_speed (days n) = mul64 (mul64 timer_speed n) 86400
ticks timer_speed (hours n) = mul64 (mul64 timer_speed n) 3600
ticks timer_speed (hectoseconds n) = mul64 (mul64 timer_speed n) 100
ticks timer_speed (minutes n) = mul64 (mul64 timer_speed n) 60
ticks timer_speed (decaseconds n) = mul64 (mul64 timer_speed n) 10
ticks timer_speed (seconds n) = mul64 timer_speed n
ticks timer_speed (deciseconds n) = mul64 timer_speed n / 10
ticks timer_speed (centiseconds n) = mul64 timer_speed n / 100
ticks timer_speed (milli_seconds n) = mul64 timer_speed n / 1000
ticks timer_speed (micro_seconds n) = mul64 timer_speed n / 1000000
ticks timer_speed (ticks_of n) = n

-- The time that `Unit::set` hands to the timer, at the clock's `time`.
unfoldable pub set_timer : ℕ → ℕ → TimeUnit → ℕ
set_timer timer_speed time u = add64 (ticks timer_speed u) time

pub record Duration : Type 0 where
  pub secs : ℕ
  pub nanos : ℕ

abbrev pub nanos_per_sec : ℕ
nanos_per_sec = 1000000000

unfoldable pub duration : ℕ → ℕ → Run Duration
duration secs nanos = do
  let carried = secs + nanos / nanos_per_sec
  assert (ltb carried (2 ^ 64))
  ok (record { secs = carried; nanos = nanos % nanos_per_sec })

unfoldable pub checked_sub : ℕ → ℕ → Option ℕ
checked_sub a b = if ltb a b then none else some (a - b)

-- A division by zero panics.
unfoldable pub div64 : ℕ → ℕ → Run ℕ
div64 a b = if b == 0 then panic else ok (a / b)

unfoldable pub rem64 : ℕ → ℕ → Run ℕ
rem64 a b = if b == 0 then panic else ok (a % b)

abbrev pub micros_per_second : ℕ
micros_per_second = 1000000

-- The ticks of a microsecond, rounded up.
unfoldable pub ticks_per_micro : ℕ → ℕ
ticks_per_micro freq = sub64 (add64 freq micros_per_second) 1 / micros_per_second

-- The duration of so many ticks.
unfoldable pub of_ticks : ℕ → ℕ → Run Duration
of_ticks freq diff = do
  secs ← div64 diff freq
  rems ← rem64 diff freq
  micros ← div64 rems (ticks_per_micro freq)
  duration secs (mul64 micros 1000 % 2 ^ 32)

-- `checked_duration_since`; an `Instant` is its count.
unfoldable pub checked_duration_since : ℕ → ℕ → ℕ → Run (Option Duration)
checked_duration_since freq self earlier = elim (checked_sub self earlier) [
  | none ↦ ok none
  | some diff ↦ do d ← of_ticks freq diff; ok (some d)
]

-- `duration_since`, which is also `-`.
unfoldable pub duration_since : ℕ → ℕ → ℕ → Run Duration
duration_since freq self earlier = do
  d ← checked_duration_since freq self earlier
  ok (elim d [ none ↦ record { secs = 0; nanos = 0 } | some t ↦ t ])

pub record Timeout : Type 0 where
  pub start : ℕ
  pub duration : Duration

unfoldable pub start : ℕ → Duration → Timeout
start now d = record { start = now; duration = d }

-- `>=` of durations.
abbrev pub at_least : Duration → Duration → Bool
at_least d e = ltb e.secs d.secs || (d.secs == e.secs && leb e.nanos d.nanos)

unfoldable pub expired : ℕ → ℕ → Timeout → Run Bool
expired freq now t = do d ← duration_since freq now t.start; ok (at_least d t.duration)
