-- ===== src/Drivers/Rtc/Calendar.antt =====
-- Which month a day of the year is in, and how a date splits a number of seconds.
use lsd_limine.Prelude.{
  zero, suc, List, [], ◌∷◌, bit_and, true, if◌then◌else◌, ℕ, ◌+◌, ◌≤◌, ◌<◌, ◌≡◌, Bool, false, ok,
  Returns, arith, ◌%◌, Returns-bind, ◌/◌, ◌==◌, ◌*◌, ◌^◌, refl,
}
use lsd_limine.Prelude.Bits.{bit_and_ones}
use lsd_limine.Drivers.Rtc.{
  january, febuary, march, april, may, june, july, august, september, october, november, december,
  Month, offset, from_offset, not, Date, date, time_read, alarm_write, panic, sub64,
}

-- The days of each month, and those of the months before it, in a year with a leap day or without.
abbrev pub leap_day : Bool → ℕ
leap_day is_leap = if is_leap then 1 else 0

abbrev pub month_days : Month → Bool → ℕ
month_days january is_leap = 31
month_days febuary is_leap = 28 + leap_day is_leap
month_days march is_leap = 31
month_days april is_leap = 30
month_days may is_leap = 31
month_days june is_leap = 30
month_days july is_leap = 31
month_days august is_leap = 31
month_days september is_leap = 30
month_days october is_leap = 31
month_days november is_leap = 30
month_days december is_leap = 31

abbrev pub month_number : Month → ℕ
month_number january = 0
month_number febuary = 1
month_number march = 2
month_number april = 3
month_number may = 4
month_number june = 5
month_number july = 6
month_number august = 7
month_number september = 8
month_number october = 9
month_number november = 10
month_number december = 11

abbrev pub months : Bool → List ℕ
months is_leap =
    month_days january is_leap
    ∷ month_days febuary is_leap
    ∷ month_days march is_leap
    ∷ month_days april is_leap
    ∷ month_days may is_leap
    ∷ month_days june is_leap
    ∷ month_days july is_leap
    ∷ month_days august is_leap
    ∷ month_days september is_leap
    ∷ month_days october is_leap
    ∷ month_days november is_leap
    ∷ month_days december is_leap
    ∷ []

abbrev pub sum_first : ℕ → List ℕ → ℕ
sum_first zero xs = 0
sum_first (suc n) [] = 0
sum_first (suc n) (x ∷ xs) = x + sum_first n xs

abbrev pub days_before : Month → Bool → ℕ
days_before m is_leap = sum_first (month_number m) (months is_leap)

-- By how much the day of a date is too large: from March on in a year with the leap flag.
abbrev pub excess : Month → Bool → ℕ
excess january is_leap = 0
excess febuary is_leap = 0
excess _ is_leap = if is_leap then 2 else 0

abbrev pub year_days : Bool → ℕ
year_days is_leap = if is_leap then 366 else 365

-- The day `o` of a year, counted from 0, is in the month.
abbrev InMonth : ℕ → Bool → Month → Type 0
InMonth o is_leap m =
    (days_before m is_leap ≤ o) × (o < days_before m is_leap + month_days m is_leap)

in_month :
    (o : ℕ) (is_leap : Bool)
    → o < year_days is_leap
    → Returns (InMonth o is_leap) (from_offset o is_leap)
unfolding from_offset
in_month o true h = ground arith
in_month o false h = ground arith

-- Where the code starts to count the days of a month.
offset_lem :
    (m : Month) (is_leap : Bool) → offset m is_leap + excess m is_leap ≡ days_before m is_leap
unfolding offset
offset_lem january b = ground arith
offset_lem _ b = ground arith

-- The day of the year that the clock counts, and its leap flag.
abbrev pub day_of : ℕ → ℕ
day_of seconds = seconds % 31556926 / 86400

abbrev pub leap_flag : ℕ → Bool
leap_flag seconds = not (seconds / 31556926 % 4 == 0)

-- The date of a number of seconds, in the calendar of a year with the leap day where the flag is
-- set: the month is that of the day of the year, and the day is that of the month, counted from 0,
-- but two more from March on where the flag is set. The hour, minute and second are those of the
-- time of the day.
pub record IsDate (seconds : ℕ) (d : Date) : Type 0 where
  pub year : d.year ≡ seconds / 31556926
  pub month : InMonth (day_of seconds) (leap_flag seconds) d.month
  pub day :
      days_before d.month (leap_flag seconds) + d.day
      ≡ day_of seconds + excess d.month (leap_flag seconds)
  pub clock : d.hour * 3600 + d.minute * 60 + d.second ≡ seconds % 86400
  pub bounded : (d.hour < 24) × (d.minute < 60) × (d.second < 60)

-- `date` counts years of 31556926 seconds, and sets the leap flag in every year but each fourth one
-- since 1970. It returns the year, the month in which the day of that year is in a year with a leap
-- day where the flag is set, and the time of the day. The day of the month, counted from 0, is
-- right in January and February and without the flag, and with the flag it is two too large from
-- March on. This is for all seconds but those of day 365, counted from 0, of a fourth year.
pub date-IsDate :
    (seconds : ℕ)
    → day_of seconds < year_days (leap_flag seconds)
    → Returns (IsDate seconds) (date seconds)
unfolding date
date-IsDate seconds h =
    let days = day_of seconds in
    let leap = leap_flag seconds in
    Returns-bind (InMonth days leap) (IsDate seconds) (from_offset days leap)
      (λ m. ok (record {
        year = seconds / 31556926;
        month = m;
        day = sub64 days (offset m leap);
        hour = seconds / 3600 % 24;
        minute = seconds / 60 % 60;
        second = seconds % 60;
      }))
      (in_month days leap h)
      (λ m b.
        let e = offset_lem m leap in
        record {
          year = refl;
          month = b;
          day = omega (arith, b, e);
          clock = omega arith;
          bounded = (omega arith, omega arith, omega arith);
        })

no_month : (o : ℕ) → o ≡ 365 → from_offset o false ≡ panic
unfolding from_offset
no_month o h = ground arith

-- In that day it panics.
pub date-panic :
    (seconds : ℕ) → day_of seconds ≡ 365 → seconds / 31556926 % 4 ≡ 0 → date seconds ≡ panic
unfolding date
date-panic seconds d y =
    let common : leap_flag seconds ≡ false = ground arith in
    rw (common, no_month (day_of seconds) d)

-- What `Alarm::write` writes is the low and the high half of a u64, and `Time::read` of the two
-- halves is the number's quotient by a billion.
pub time_read-alarm_write :
    (val : ℕ)
    → val < 2 ^ 64
    → (let (low, high) = alarm_write val in time_read low high) ≡ val / 1000000000
unfolding time_read alarm_write
time_read-alarm_write val h =
    let low : bit_and val 0xffffffff ≡ val % 2 ^ 32 = bit_and_ones 32 val in rw low (omega arith)
