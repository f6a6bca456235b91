-- ===== src/Core/Timestamp/RoundTrip.antt =====
-- `parse_iso8601` reads back what `to_iso8601` prints.
use chrono_sift.Common.{
  ◌/◌, ◌%◌, ℕ, ◌+◌, ◌≤◌, ◌≡◌, false, ◌||◌, [], ◌∷◌, ◌++◌, some, refl, ap, ◌∙◌, arith, ltb, ◌==◌,
  Bytes, length,
}
use chrono_sift.Common.Int.{◌≤ℤ◌, pos_part, neg_part, ℤ, pos}
use chrono_sift.Core.Chars.{is_space}
use chrono_sift.Core.Text.Trim.{IsTrimmed, trim-IsTrimmed_id}
use chrono_sift.Core.Time.{CivilTime, micros_from_civil, civil_from_micros, days_in_month}
use chrono_sift.Core.Time.Epoch.{IsValid}
use chrono_sift.Core.Time.Unique.{civil_from_micros-micros_from_civil}
use chrono_sift.Core.Timestamp.{from_micros, to_iso8601, civil_string}
use chrono_sift.Core.Timestamp.Iso.{
  iso_micros, iso_rest, iso_time, iso_zone, parse_iso8601, fraction_at,
}
use chrono_sift.Core.Timestamp.Padded.{fixed, pad-fixed, read_digits-fixed, fraction-six}

-- The text of a time of our era up to the year 9999, with the digits of each part.
abbrev iso_text : ℕ → ℕ → ℕ → ℕ → ℕ → ℕ → ℕ → Bytes
iso_text y mo d h mi s us =
    fixed 4 y []
    ++ (b'-' ∷ fixed 2 mo []
        ++ (b'-' ∷ fixed 2 d []
            ++ (b'T' ∷ fixed 2 h []
                ++ (b':' ∷ fixed 2 mi []
                    ++ (b':' ∷ fixed 2 s [] ++ (b'.' ∷ fixed 6 us [] ++ b'Z' ∷ []))))))

abbrev time_text : ℕ → ℕ → ℕ → ℕ → Bytes
time_text h mi s us =
    fixed 2 h []
    ++ (b':' ∷ fixed 2 mi [] ++ (b':' ∷ fixed 2 s [] ++ (b'.' ∷ fixed 6 us [] ++ b'Z' ∷ [])))

-- The ranges of the parts.
record Parts (y mo d h mi s us : ℕ) : Type 0 where
  year_in : y ≤ 9999
  month_in : (1 ≤ mo) × (mo ≤ 12)
  day_in : (1 ≤ d) × (d ≤ 31)
  hour_in : h ≤ 23
  minute_in : mi ≤ 59
  second_in : s ≤ 59
  micro_in : us ≤ 999999

civil_string-text :
    (y mo d h mi s us : ℕ)
    → Parts y mo d h mi s us
    → civil_string (record {
      year = pos y;
      month = mo;
      day = d;
      hour = h;
      minute = mi;
      second = s;
      micro = us;
    })
      ≡ iso_text y mo d h mi s us
civil_string-text y mo d h mi s us p =
    rw
      (
        pad-fixed 4 y (omega (arith, p.year_in)) (omega arith),
        pad-fixed 2 mo (omega (arith, p.month_in)) (omega arith),
        pad-fixed 2 d (omega (arith, p.day_in)) (omega arith),
        pad-fixed 2 h (omega (arith, p.hour_in)) (omega arith),
        pad-fixed 2 mi (omega (arith, p.minute_in)) (omega arith),
        pad-fixed 2 s (omega (arith, p.second_in)) (omega arith),
        pad-fixed 6 us (omega (arith, p.micro_in)) (omega arith),
      )
      refl

digit-not_space : (n : ℕ) → is_space (b'0' + n % 10) ≡ false
unfolding is_space
digit-not_space n = ground arith

iso_text-IsTrimmed : (y mo d h mi s us : ℕ) → IsTrimmed (iso_text y mo d h mi s us)
unfolding fixed is_space
iso_text-IsTrimmed y mo d h mi s us = record {
  first = digit-not_space (y / 10 / 10 / 10);
  last = refl;
}

iso_text-long : (y mo d h mi s us : ℕ) → ltb (length (iso_text y mo d h mi s us)) 10 ≡ false
unfolding fixed
iso_text-long y mo d h mi s us = ground arith

fraction_at-point :
    (us : ℕ) → us ≤ 999999 → fraction_at (b'.' ∷ fixed 6 us [] ++ b'Z' ∷ []) ≡ (us, b'Z' ∷ [])
fraction_at-point us h = fraction-six us (omega (arith, h))

iso_time-text :
    (y mo d h mi s us : ℕ)
    → Parts y mo d h mi s us
    → iso_time y mo d (time_text h mi s us)
      ≡ some (
          micros_from_civil (record {
            year = pos y;
            month = mo;
            day = d;
            hour = h;
            minute = mi;
            second = s;
            micro = us;
          }))
unfolding iso_time iso_zone
iso_time-text y mo d h mi s us p =
    let fits : (ltb 23 h || ltb 59 mi || ltb 60 s) ≡ false =
      ground (arith, p.hour_in, p.minute_in, p.second_in) in
    let normal : (s == 60) ≡ false = ground (arith, p.second_in) in
    rw (read_digits-fixed 2 h _ (omega (arith, p.hour_in))) (
      rw (read_digits-fixed 2 mi _ (omega (arith, p.minute_in))) (
        rw (read_digits-fixed 2 s _ (omega (arith, p.second_in)))
          (rw (fits, normal, fraction_at-point us p.micro_in) refl)))

iso_micros-text :
    (y mo d h mi s us : ℕ)
    → Parts y mo d h mi s us
    → iso_micros (iso_text y mo d h mi s us)
      ≡ some (
          micros_from_civil (record {
            year = pos y;
            month = mo;
            day = d;
            hour = h;
            minute = mi;
            second = s;
            micro = us;
          }))
unfolding iso_micros iso_rest
iso_micros-text y mo d h mi s us p =
    let fits : (ltb mo 1 || ltb 12 mo || ltb d 1 || ltb 31 d) ≡ false =
      ground (arith, p.month_in, p.day_in) in
    rw (iso_text-long y mo d h mi s us) (
      rw (read_digits-fixed 4 y _ (omega (arith, p.year_in))) (
        rw (read_digits-fixed 2 mo _ (omega (arith, p.month_in))) (
          rw (read_digits-fixed 2 d _ (omega (arith, p.day_in)))
            (rw fits (iso_time-text y mo d h mi s us p)))))

parse-text :
    (y mo d h mi s us : ℕ) (t : CivilTime)
    → t
      ≡ record { year = pos y; month = mo; day = d; hour = h; minute = mi; second = s; micro = us }
    → Parts y mo d h mi s us
    → parse_iso8601 (civil_string t) ≡ from_micros (micros_from_civil t)
unfolding parse_iso8601
parse-text y mo d h mi s us t e p =
    rw
      (
        e,
        civil_string-text y mo d h mi s us p,
        trim-IsTrimmed_id (iso_text y mo d h mi s us) (iso_text-IsTrimmed y mo d h mi s us),
        iso_micros-text y mo d h mi s us p,
      )
      refl

to_iso8601-civil :
    (us : ℤ) (t : CivilTime)
    → civil_from_micros us ≡ some t
    → to_iso8601 (from_micros us) ≡ civil_string t
unfolding to_iso8601
to_iso8601-civil us t e = rw e refl

days_in_month-bound : (year : ℤ) (month : ℕ) → days_in_month year month ≤ 31
unfolding days_in_month
days_in_month-bound year month = ground arith

valid-Parts :
    (t : CivilTime) (v : IsValid t)
    → v.y ≤ 9999
    → Parts v.y t.month t.day t.hour t.minute t.second t.micro
valid-Parts t v h = record {
  year_in = h;
  month_in = v.month_in;
  day_in = (v.day_in.0, omega (arith, v.day_in.1, days_in_month-bound t.year t.month));
  hour_in = v.hour_in;
  minute_in = v.minute_in;
  second_in = v.second_in;
  micro_in = v.micro_in;
}

-- The timestamp of a valid time from the year 1 to the year 9999 is printed as a text that
-- `parse_iso8601` reads back as the timestamp, to the microsecond.
pub parse_iso8601-to_iso8601 :
    (t : CivilTime) (v : IsValid t)
    → t.year ≤ℤ pos 9999
    → parse_iso8601 (to_iso8601 (from_micros (micros_from_civil t)))
      ≡ from_micros (micros_from_civil t)
parse_iso8601-to_iso8601 t v h =
    ap parse_iso8601 (
      to_iso8601-civil (micros_from_civil t) t
        (civil_from_micros-micros_from_civil t v (omega (arith, h))))
    ∙ parse-text v.y t.month t.day t.hour t.minute t.second t.micro t
        (ap (λ (year : ℤ). record t { year = year }) v.year_is)
        (valid-Parts t v (omega (arith, h, ap pos_part v.year_is, ap neg_part v.year_is)))
