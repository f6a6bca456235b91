-- ===== src/Core/Time/Examples.antt =====
-- Times before and after the epoch.
use chrono_sift.Common.{◌≡◌, some, arith, refl}
use chrono_sift.Common.Int.{pos, negsuc, tmod}
use chrono_sift.Core.Time.{
  CivilTime, micros_from_civil, civil_from_micros, days_in_month, is_leap_year,
}
use chrono_sift.Core.Time.Epoch.{IsValid, micros_from_civil-civil_from_micros}
use chrono_sift.Core.Time.Unique.{civil_from_micros-micros_from_civil}

micros_from_civil-civil_from_micros_example :
    (t : CivilTime) × (civil_from_micros (negsuc 0) ≡ some t)
    × IsValid t
    × (micros_from_civil t ≡ negsuc 0)
micros_from_civil-civil_from_micros_example =
    micros_from_civil-civil_from_micros (negsuc 0) (omega arith) (omega arith)

abbrev leap_day : CivilTime
leap_day = record {
  year = pos 2024;
  month = 2;
  day = 29;
  hour = 23;
  minute = 59;
  second = 58;
  micro = 999999;
}

leap_day-IsValid : IsValid leap_day
unfolding days_in_month is_leap_year tmod
leap_day-IsValid = record {
  y = 2024;
  year_is = refl;
  era = omega arith;
  month_in = (omega arith, omega arith);
  day_in = (omega arith, ground arith);
  hour_in = omega arith;
  minute_in = omega arith;
  second_in = omega arith;
  micro_in = omega arith;
}

civil_from_micros-micros_from_civil_example :
    civil_from_micros (micros_from_civil leap_day) ≡ some leap_day
civil_from_micros-micros_from_civil_example =
    civil_from_micros-micros_from_civil leap_day leap_day-IsValid (omega arith)
