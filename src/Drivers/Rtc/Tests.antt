-- ===== src/Drivers/Rtc/Tests.antt =====
-- Dates of given seconds.
use lsd_limine.Prelude.{arith, Returns}
use lsd_limine.Drivers.Rtc.{date}
use lsd_limine.Drivers.Rtc.Calendar.{IsDate, date-IsDate}

date_example : Returns (IsDate 1700000000) (date 1700000000)
date_example = date-IsDate 1700000000 (omega arith)
