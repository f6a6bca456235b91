-- ===== src/Core/Timestamp/Examples.antt =====
-- The last microsecond of a leap day.
use chrono_sift.Common.{◌≡◌, arith, refl}
use chrono_sift.Common.Int.{pos, tmod}
use chrono_sift.Core.Time.{CivilTime, micros_from_civil, days_in_month, is_leap_year}
use chrono_sift.Core.Time.Epoch.{IsValid}
use chrono_sift.Core.Timestamp.{from_micros, to_iso8601}
use chrono_sift.Core.Timestamp.Iso.{parse_iso8601}
use chrono_sift.Core.Timestamp.RoundTrip.{parse_iso8601-to_iso8601}

abbrev late : CivilTime
late = record {
  year = pos 2024;
  month = 2;
  day = 29;
  hour = 23;
  minute = 59;
  second = 59;
  micro = 999999;
}

late-IsValid : IsValid late
unfolding days_in_month is_leap_year tmod
late-IsValid = record {
  y = 2024;
  year_is = refl;
  era = omega arith;
  month_in = (omega arith, omega arith);
  day_in = (omega arith, ground arith);
  hour_in = omega arith;
  minute_in = omega arith;
  second_in = omega arith;
  micro_in = omega arith;
}

parse_iso8601-to_iso8601_example :
    parse_iso8601 (to_iso8601 (from_micros (micros_from_civil late)))
    ≡ from_micros (micros_from_civil late)
parse_iso8601-to_iso8601_example = parse_iso8601-to_iso8601 late late-IsValid (omega arith)
