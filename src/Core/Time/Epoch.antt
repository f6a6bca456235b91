-- ===== src/Core/Time/Epoch.antt =====
-- `civil_from_micros` from the year 1 on: it ends, in a valid time of the same count.
use chrono_sift.Core.Number.{wrap_i64, wrap_i64_fits, FitsI64, i64_max}
use chrono_sift.Common.{
  ℕ, ◌+◌, ◌-◌, ◌*◌, ◌/◌, ◌%◌, ◌^◌, ◌≤◌, ◌<◌, ◌≡◌, refl, sym, ap, ◌∙◌, arith, Option, some,
  le→not_ltb,
}
use chrono_sift.Common.Int.{ℤ, pos, negsuc, pos_part, neg_part, ◌+ℤ◌, ◌-ℤ◌, ◌≤ℤ◌, int_laws, pos-add}
use chrono_sift.Core.Time.{
  CivilTime, days_in_month, days_before_month, year_walk, month_walk, micros_from_civil, floor_div,
  split_micros, civil_on, civil_from_micros,
}
use chrono_sift.Core.Time.Calendar.{
  year_start, epoch_day, days_before_year-pos, days_before_month_ends, days_in_month_range,
}
use chrono_sift.Core.Time.Walk.{year_walk-FindsYear, month_walk-FindsMonth}

-- A date and a time of day of our era.
pub record IsValid (t : CivilTime) : Type 0 where
  pub y : ℕ
  pub year_is : t.year ≡ pos y
  pub era : 1 ≤ y
  pub month_in : (1 ≤ t.month) × (t.month ≤ 12)
  pub day_in : (1 ≤ t.day) × (t.day ≤ days_in_month t.year t.month)
  pub hour_in : t.hour ≤ 23
  pub minute_in : t.minute ≤ 59
  pub second_in : t.second ≤ 59
  pub micro_in : t.micro ≤ 999999

-- The microseconds from 0001-01-01 to 1970-01-01.
abbrev pub era_micros : ℕ
era_micros = 62135596800000000

-- The day, counted from 0001-01-01, and the microsecond, counted from its start.
abbrev pub day_number : ℕ → CivilTime → ℕ
day_number y t = year_start y + days_before_month (pos y) t.month + (t.day - 1)

abbrev pub micro_number : ℕ → CivilTime → ℕ
micro_number y t =
    ((day_number y t * 86400 + t.hour * 3600 + t.minute * 60 + t.second) * 1000000) + t.micro

pub micros_from_civil-number :
    (t : CivilTime) (v : IsValid t)
    → FitsI64 (pos (micro_number v.y t) -ℤ pos era_micros)
    → micros_from_civil t ≡ pos (micro_number v.y t) -ℤ pos era_micros
unfolding micros_from_civil
micros_from_civil-number t v fits =
    rw (v.year_is, days_before_year-pos v.y v.era)
      (ap wrap_i64 (omega (int_laws, v.day_in)) ∙ wrap_i64_fits _ fits)

floor_micros :
    (A : ℕ)
    → floor_div 1000000 (pos A -ℤ pos era_micros)
      ≡ (pos (A / 1000000) -ℤ pos 62135596800, A % 1000000)
unfolding floor_div ◌-ℤ◌
floor_micros A = ground arith

floor_secs :
    (S : ℕ)
    → floor_div 86400 (pos S -ℤ pos 62135596800) ≡ (pos (S / 86400) -ℤ pos epoch_day, S % 86400)
unfolding floor_div ◌-ℤ◌
floor_secs S = ground arith

split_micros-number :
    (A : ℕ)
    → split_micros (pos A -ℤ pos era_micros)
      ≡ (pos (A / 1000000 / 86400) -ℤ pos epoch_day, A % 1000000, A / 1000000 % 86400)
unfolding split_micros
split_micros-number A = rw (floor_micros A) (rw (floor_secs (A / 1000000)))

-- The conversion of microsecond `A` of our era has found a valid time of that number.
pub record Converts (A : ℕ) (r : Option CivilTime) : Type 0 where
  pub found : CivilTime
  pub returns : r ≡ some found
  pub valid : IsValid found
  pub number : micro_number valid.y found ≡ A

civil_on-found :
    (rem_us secs y d m e : ℕ)
    → month_walk (pos y) 12 1 (pos d) ≡ (m, pos e)
    → m ≤ 12
    → e < 31
    → civil_on rem_us secs (pos y, pos d) ≡ record {
      year = pos y;
      month = m;
      day = e + 1;
      hour = secs / 3600;
      minute = secs % 3600 / 60;
      second = secs % 60;
      micro = rem_us;
    }
unfolding civil_on
civil_on-found rem_us secs y d m e h le lt =
    let p : (e + 1) % 2 ^ 8 ≡ e + 1 = omega arith in
    rw h (rw (le→not_ltb 12 m le, pos-add e 1) (rw p))

civil_from_micros-walked :
    (days : ℤ) (rem_us secs : ℕ) (z : ℤ) (year day : ℤ)
    → split_micros z ≡ (days, rem_us, secs)
    → year_walk (pos_part (days +ℤ pos 3) + pos_part (pos 3 -ℤ days)) (pos 1970) days
      ≡ some (year, day)
    → civil_from_micros z ≡ some (civil_on rem_us secs (year, day))
unfolding civil_from_micros
civil_from_micros-walked days rem_us secs z year day s w = rw (s, civil_from_micros) (rw w (rw s))

pub civil_from_micros-Converts : (A : ℕ) → Converts A (civil_from_micros (pos A -ℤ pos era_micros))
civil_from_micros-Converts A =
    let P = A / 1000000 / 86400 in
    let us = A % 1000000 in
    let secs = A / 1000000 % 86400 in
    let fy = year_walk-FindsYear P _ (pos P -ℤ pos epoch_day) refl refl in
    let year = pos fy.year in
    let fm =
      month_walk-FindsMonth year fy.day 12 1 fy.day (omega arith) (omega arith)
        (omega (arith, days_before_month_ends year)) fy.within in
    let dim = days_in_month_range year fm.month fm.range.0 fm.range.1 in
    let back : fm.day + 1 - 1 ≡ fm.day = omega arith in
    record {
      found = record {
        year = year;
        month = fm.month;
        day = fm.day + 1;
        hour = secs / 3600;
        minute = secs % 3600 / 60;
        second = secs % 60;
        micro = us;
      };
      returns =
          civil_from_micros-walked (pos P -ℤ pos epoch_day) us secs _ year (pos fy.day)
            (split_micros-number A) fy.returns
          ∙ ap some (
              civil_on-found us secs fy.year fy.day fm.month fm.day fm.returns fm.range.1
                (omega (arith, dim, fm.within)));
      valid = record {
        y = fy.year;
        year_is = refl;
        era = fy.era;
        month_in = fm.range;
        day_in = (omega arith, omega (arith, fm.within));
        hour_in = omega arith;
        minute_in = omega arith;
        second_in = omega arith;
        micro_in = omega arith;
      };
      number = omega (arith, fy.sum, fm.sum, back);
    }

-- Every count of microseconds in i64 from 0001-01-01 on is converted to a valid date and time, in the fuel
-- of the model, and that converts back to the count.
pub micros_from_civil-civil_from_micros :
    (micros : ℤ)
    → negsuc (era_micros - 1) ≤ℤ micros
    → micros ≤ℤ pos i64_max
    → (t : CivilTime) × (civil_from_micros micros ≡ some t)
      × IsValid t
      × (micros_from_civil t ≡ micros)
micros_from_civil-civil_from_micros micros h k =
    let A = pos_part micros + era_micros - neg_part micros in
    let e : pos A -ℤ pos era_micros ≡ micros = omega int_laws in
    let c = civil_from_micros-Converts A in
    (
      c.found,
      ap civil_from_micros (sym e) ∙ c.returns,
      c.valid,
      micros_from_civil-number c.found c.valid (rw c.number (rw e (omega (arith, h), k)))
          ∙ ap (λ (n : ℕ). pos n -ℤ pos era_micros) c.number
          ∙ e,
    )
