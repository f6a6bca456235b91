-- ===== src/Core/Time/Unique.antt =====
-- A valid time is fixed by its count of microseconds.
use chrono_sift.Core.Number.{FitsI64, i64_max}
use chrono_sift.Common.{
  ℕ, suc, ◌+◌, ◌-◌, ◌≤◌, ◌<◌, ◌≡◌, sym, ap, ◌∙◌, arith, ltb, some, Bool-cases, inl, inr, ltb→lt,
}
use chrono_sift.Common.Int.{neg_part, pos_part, ◌≤ℤ◌, ℤ, pos, ◌-ℤ◌}
use chrono_sift.Core.Time.{
  CivilTime, days_in_month, days_before_month, year_length, micros_from_civil, civil_from_micros,
}
use chrono_sift.Core.Time.Calendar.{
  year_start, year_start-suc, year_start_mono, days_before_month-suc, days_before_month_mono,
  days_before_month_ends,
}
use chrono_sift.Core.Time.Epoch.{
  IsValid, day_number, micro_number, micros_from_civil-number, civil_from_micros-Converts,
  era_micros,
}

day_of_year-lt :
    (t : CivilTime) (v : IsValid t)
    → days_before_month (pos v.y) t.month + (t.day - 1) < year_length (pos v.y)
day_of_year-lt t v =
    let year = pos v.y in
    let day = rw v.year_is at (v.day_in.1) in
    omega (
      arith,
      day,
      v.day_in.0,
      days_before_month-suc year t.month v.month_in.0,
      days_before_month_mono year (suc t.month) 13 (omega arith) (omega (arith, v.month_in.1)),
      days_before_month_ends year,
    )

day_number-lt :
    (t u : CivilTime) (v : IsValid t) (w : IsValid u)
    → v.y < w.y
    → day_number v.y t < day_number w.y u
day_number-lt t u v w lt = omega (
  arith,
  day_of_year-lt t v,
  year_start-suc v.y v.era,
  year_start_mono (suc v.y) w.y (omega arith) lt,
)

same_year :
    (t u : CivilTime) (v : IsValid t) (w : IsValid u)
    → day_number v.y t ≡ day_number w.y u
    → v.y ≡ w.y
same_year t u v w e = elim (Bool-cases (ltb v.y w.y)) [
  | inl less ↦ absurd (omega (arith, e, day_number-lt t u v w (ltb→lt v.y w.y less)))
  | inr k ↦ elim (Bool-cases (ltb w.y v.y)) [
    | inl more ↦ absurd (omega (arith, e, day_number-lt u t w v (ltb→lt w.y v.y more)))
    | inr l ↦ ground arith
  ]
]

month-lt :
    (year : ℤ) (m d n e : ℕ)
    → 1 ≤ m
    → m < n
    → 1 ≤ d
    → d ≤ days_in_month year m
    → days_before_month year m + (d - 1) < days_before_month year n + (e - 1)
month-lt year m d n e h lt lo hi =
    omega (
      arith,
      days_before_month-suc year m h,
      days_before_month_mono year (suc m) n (omega arith) lt,
    )

same_month :
    (year : ℤ) (m d n e : ℕ)
    → (1 ≤ m) × (1 ≤ d) × (d ≤ days_in_month year m)
    → (1 ≤ n) × (1 ≤ e) × (e ≤ days_in_month year n)
    → days_before_month year m + (d - 1) ≡ days_before_month year n + (e - 1)
    → m ≡ n
same_month year m d n e p q same = elim (Bool-cases (ltb m n)) [
  | inl less ↦ absurd (omega (arith, same, month-lt year m d n e p.0 (ltb→lt m n less) p.1 p.2))
  | inr k ↦ elim (Bool-cases (ltb n m)) [
    | inl more ↦ absurd (omega (arith, same, month-lt year n e m d q.0 (ltb→lt n m more) q.1 q.2))
    | inr l ↦ ground arith
  ]
]

-- Two valid times with one number are equal.
micro_number_inj :
    (t u : CivilTime) (v : IsValid t) (w : IsValid u)
    → micro_number v.y t ≡ micro_number w.y u
    → t ≡ u
micro_number_inj t u v w e =
    let day : day_number v.y t ≡ day_number w.y u = omega (arith, e) in
    let hour : t.hour ≡ u.hour = omega (arith, e, day) in
    let minute : t.minute ≡ u.minute = omega (arith, e, day, hour) in
    let second : t.second ≡ u.second = omega (arith, e, day, hour, minute) in
    let micro : t.micro ≡ u.micro = omega (arith, e, day, hour, minute, second) in
    let y = same_year t u v w day in
    let tday = rw v.year_is at (v.day_in.1) in
    let uday : u.day ≤ days_in_month (pos v.y) u.month = rw (w.year_is, ← y) at (w.day_in.1) in
    let months = λ (k : ℕ). days_before_month (pos k) u.month in
    let dbm : days_before_month (pos v.y) t.month + (t.day - 1)
        ≡ days_before_month (pos v.y) u.month + (u.day - 1) =
      omega (arith, day, ap year_start y, ap months y) in
    let month =
      same_month (pos v.y) t.month t.day u.month u.day (v.month_in.0, v.day_in.0, tday)
        (w.month_in.0, w.day_in.0, uday) dbm in
    let day' : t.day ≡ u.day =
      omega (arith, dbm, ap (days_before_month (pos v.y)) month, v.day_in.0, w.day_in.0) in
    let year : t.year ≡ u.year = v.year_is ∙ ap pos y ∙ sym w.year_is in
    λ i. record {
      year = year i;
      month = month i;
      day = day' i;
      hour = hour i;
      minute = minute i;
      second = second i;
      micro = micro i;
    }

number-FitsI64 : (n : ℕ) → n ≤ i64_max + era_micros → FitsI64 (pos n -ℤ pos era_micros)
unfolding ◌-ℤ◌
number-FitsI64 n h = (ground arith, ground arith)

-- No microsecond of a year up to 294246 is out of the range of i64.
micro_number-FitsI64 :
    (t : CivilTime) (v : IsValid t)
    → v.y ≤ 294246
    → FitsI64 (pos (micro_number v.y t) -ℤ pos era_micros)
micro_number-FitsI64 t v h =
    let day = day_of_year-lt t v in
    let next = year_start-suc v.y v.era in
    let far = year_start_mono (suc v.y) 294247 (omega arith) (omega (arith, h)) in
    let days : day_number v.y t < year_start 294247 = omega (arith, day, next, far) in
    number-FitsI64 (micro_number v.y t)
      (omega (arith, days, v.hour_in, v.minute_in, v.second_in, v.micro_in))

-- Converting a valid time of the years 1 to 294246, the years that i64 holds in full, to microseconds
-- and back gives the time.
pub civil_from_micros-micros_from_civil :
    (t : CivilTime)
    → IsValid t
    → t.year ≤ℤ pos 294246
    → civil_from_micros (micros_from_civil t) ≡ some t
civil_from_micros-micros_from_civil t v h =
    let c = civil_from_micros-Converts (micro_number v.y t) in
    ap civil_from_micros (
      micros_from_civil-number t v
        (micro_number-FitsI64 t v (omega (arith, h, ap pos_part v.year_is, ap neg_part v.year_is))))
    ∙ c.returns
    ∙ ap some (micro_number_inj c.found t c.valid v c.number)
