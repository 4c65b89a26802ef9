-- ===== src/Drivers/Rtc.antt =====
-- LSD/src/drivers/goldfish_rtc/mod.rs: the clock's registers and the date of a number of seconds. A
-- register that is read is an argument, one that is written is the result.
pub mod Calendar
mod Tests
use lsd_limine.Prelude.{
  ℕ, ◌+◌, ◌-◌, ◌*◌, ◌/◌, ◌%◌, ◌^◌, Bool, true, false, not, ◌&&◌, ltb, leb, ◌==◌, if◌then◌else◌, Run,
  ok, panic, ◌>>=◌, add64, sub64, mul64, bit_and,
}

-- `Time::read`, of the two words of the register.
unfoldable pub time_read : ℕ → ℕ → ℕ
time_read low high = add64 (mul64 high (2 ^ 32)) low / 1000000000

-- `Alarm::write`: the two words that are written.
unfoldable pub alarm_write : ℕ → ℕ × ℕ
alarm_write val = (bit_and val 0xffffffff % 2 ^ 32, val / 2 ^ 32 % 2 ^ 32)

pub data Month : Type 0 where
  january febuary march april may june july august september october november december : Month

-- `Month::offset`.
unfoldable pub offset : Month → Bool → ℕ
offset m is_leap =
    let leap_offset = if is_leap then 1 else 0 in
    elim m [
      | january ↦ 0
      | febuary ↦ 31
      | march ↦ 59 - leap_offset
      | april ↦ 90 - leap_offset
      | may ↦ 120 - leap_offset
      | june ↦ 151 - leap_offset
      | july ↦ 181 - leap_offset
      | august ↦ 212 - leap_offset
      | september ↦ 243 - leap_offset
      | october ↦ 273 - leap_offset
      | november ↦ 304 - leap_offset
      | december ↦ 334 - leap_offset
    ]

-- `(a..b).contains(&x)`.
abbrev pub contains : ℕ → ℕ → ℕ → Bool
contains a b x = leb a x && ltb x b

-- `Month::from_offset`.
unfoldable pub from_offset : ℕ → Bool → Run Month
from_offset o is_leap =
    let leap_offset = if is_leap then 1 else 0 in
    if contains 0 31 o
    then ok january
    else if contains 31 (59 + leap_offset) o
    then ok febuary
    else if contains 59 (90 + leap_offset) o
    then ok march
    else if contains 90 (120 + leap_offset) o
    then ok april
    else if contains 120 (151 + leap_offset) o
    then ok may
    else if contains 151 (181 + leap_offset) o
    then ok june
    else if contains 181 (212 + leap_offset) o
    then ok july
    else if contains 212 (243 + leap_offset) o
    then ok august
    else if contains 243 (273 + leap_offset) o
    then ok september
    else if contains 273 (304 + leap_offset) o
    then ok october
    else if contains 304 (334 + leap_offset) o
    then ok november
    else if contains 334 (365 + leap_offset) o
    then ok december
    else panic

pub record Date : Type 0 where
  pub year : ℕ
  pub month : Month
  pub day : ℕ
  pub hour : ℕ
  pub minute : ℕ
  pub second : ℕ

-- `UnixTimestamp::date`.
unfoldable pub date : ℕ → Run Date
date seconds = do
  let minutes = seconds / 60
  let hours = seconds / 3600
  let days = seconds % 31556926 / 86400
  let years = seconds / 31556926
  months ← from_offset days (not (years % 4 == 0))
  ok (record {
    year = years;
    month = months;
    day = sub64 days (offset months (not (years % 4 == 0)));
    hour = hours % 24;
    minute = minutes % 60;
    second = seconds % 60;
  })
