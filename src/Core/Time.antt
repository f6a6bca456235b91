-- ===== src/Core/Time.antt =====
-- Timestamps (include/core/time_util.hpp, src/core/time_util.cpp). `year` and all that may be
-- negative is in ℤ. Only `micros_from_civil` can leave the range
-- of i64, for years beyond about 294000.
pub mod Calendar
pub mod Walk
pub mod Epoch
pub mod Unique
mod Examples
use chrono_sift.Core.Number.{wrap_i64}
use chrono_sift.Common.{
  ℕ, zero, suc, ◌+◌, ◌-◌, ◌*◌, ◌/◌, ◌%◌, ◌^◌, Bool, true, false, not, ◌&&◌, ◌||◌, List, [], ◌∷◌,
  Option, none, some, ltb, leb, ◌==◌, if◌then◌else◌,
}
use chrono_sift.Common.Int.{ℤ, pos, negsuc, pos_part, ◌+ℤ◌, ◌-ℤ◌, scale, tdiv, tmod, ltb_ℤ}

-- `z == 0`
abbrev pub is_zero : ℤ → Bool
is_zero (pos n) = n == 0
is_zero (negsuc n) = false

unfoldable pub is_leap_year : ℤ → Bool
unfolding tmod
is_leap_year year =
    (is_zero (tmod year 4) && not (is_zero (tmod year 100))) || is_zero (tmod year 400)

-- `kDays[month - 1]`, for a month from 1 to 12.
abbrev month_days : ℕ → ℕ
month_days month =
    if month == 4 || month == 6 || month == 9 || month == 11
    then 30
    else if month == 2
    then 28
    else 31

unfoldable pub days_in_month : ℤ → ℕ → ℕ
days_in_month year month =
    if ltb month 1 || ltb 12 month
    then 0
    else if month == 2 && is_leap_year year
    then 29
    else month_days month

-- `y / 4 - y / 100 + y / 400`
abbrev leaps : ℤ → ℤ
leaps y = tdiv y 4 -ℤ tdiv y 100 +ℤ tdiv y 400

unfoldable pub days_before_year : ℤ → ℤ
days_before_year year =
    let y = year -ℤ pos 1 in scale 365 (year -ℤ pos 1970) +ℤ (leaps y -ℤ leaps (pos 1969))

-- The loop at month `m`, with month - m rounds to go.
unfoldable pub sum_months : ℤ → ℕ → ℕ → ℕ → ℕ
sum_months year zero m days = days
sum_months year (suc left) m days = sum_months year left (m + 1) (days + days_in_month year m)

unfoldable pub days_before_month : ℤ → ℕ → ℕ
unfolding sum_months
days_before_month year month = sum_months year (month - 1) 1 0

pub record CivilTime : Type 0 where
  pub year : ℤ
  pub month : ℕ
  pub day : ℕ
  pub hour : ℕ
  pub minute : ℕ
  pub second : ℕ
  pub micro : ℕ

unfoldable pub micros_from_civil : CivilTime → ℤ
micros_from_civil t =
    let days =
      days_before_year t.year +ℤ pos (days_before_month t.year t.month) +ℤ (pos t.day -ℤ pos 1) in
    let secs = scale 86400 days +ℤ pos (t.hour * 3600) +ℤ pos (t.minute * 60) +ℤ pos t.second in
    wrap_i64 (scale 1000000 secs +ℤ pos t.micro)

-- `q = z / k; r = z % k; if (r < 0) { r += k; q -= 1; }`: the rounding down of `civil_from_micros`,
-- for its 1000000 and its 86400. The remainder ends up in [0, k).
unfoldable pub floor_div : ℕ → ℤ → ℤ × ℕ
unfolding tdiv tmod ◌+ℤ◌ ◌-ℤ◌
floor_div k z =
    let q = tdiv z k in
    let r = tmod z k in
    if ltb_ℤ r (pos 0) then (q -ℤ pos 1, pos_part (r +ℤ pos k)) else (q, pos_part r)

abbrev pub year_length : ℤ → ℕ
year_length year = if is_leap_year year then 366 else 365

-- The walk to the right year, on fuel.
unfoldable pub year_walk : ℕ → ℤ → ℤ → Option (ℤ × ℤ)
year_walk zero year days = none
year_walk (suc fuel) year days =
    let up = year_walk fuel (year +ℤ pos 1) (days -ℤ pos (year_length year)) in
    let down = year_walk fuel (year -ℤ pos 1) (days +ℤ pos (year_length (year -ℤ pos 1))) in
    if not (ltb_ℤ days (pos (year_length year)))
    then up
    else if ltb_ℤ days (pos 0)
    then down
    else some (year, days)

-- The month loop at `month`, with 13 - month rounds to go.
unfoldable pub month_walk : ℤ → ℕ → ℕ → ℤ → ℕ × ℤ
month_walk year zero month days = (month, days)
month_walk year (suc left) month days =
    let later = month_walk year left (month + 1) (days -ℤ pos (days_in_month year month)) in
    if ltb_ℤ days (pos (days_in_month year month)) then (month, days) else later

-- The days since the epoch, and the microseconds and the seconds of the day.
unfoldable pub split_micros : ℤ → ℤ × ℕ × ℕ
split_micros micros =
    let (secs, rem_us) = floor_div 1000000 micros in
    let (days, secs_of_day) = floor_div 86400 secs in (days, rem_us, secs_of_day)

unfoldable pub civil_on : ℕ → ℕ → ℤ × ℤ → CivilTime
civil_on rem_us secs_of_day (year, days) =
    let (month, left) = month_walk year 12 1 days in
    record {
      year = year;
      month = if ltb 12 month then 12 else month;
      day = pos_part (left +ℤ pos 1) % 2 ^ 8;
      hour = secs_of_day / 3600;
      minute = secs_of_day % 3600 / 60;
      second = secs_of_day % 60;
      micro = rem_us;
    }

-- The fuel is above the number of days to walk. `none` is a walk that ran out of it.
unfoldable pub civil_from_micros : ℤ → Option CivilTime
civil_from_micros micros =
    let (days, rem_us, secs_of_day) = split_micros micros in
    elim (year_walk (pos_part (days +ℤ pos 3) + pos_part (pos 3 -ℤ days)) (pos 1970) days) [
      | none ↦ none
      | some at ↦ some (civil_on rem_us secs_of_day at)
    ]
