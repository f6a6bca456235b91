-- ===== src/Core/Time/Walk.antt =====
-- The walks of `civil_from_micros` to the year and the month of a day.
use chrono_sift.Common.{
  le→not_ltb, ltb→lt, lt→ltb, ℕ, zero, suc, ◌+◌, ◌-◌, ◌≤◌, ◌<◌, true, false, ◌≡◌, ap, ◌∙◌, arith,
  ltb, Option, some, Bool-cases, inl, inr,
}
use chrono_sift.Common.Int.{
  pos-add, ℤ, pos, pos_part, neg_part, ◌+ℤ◌, ◌-ℤ◌, int_laws, pos-sub, ltb_ℤ,
}
use chrono_sift.Core.Time.{days_in_month, month_walk, days_before_month, year_length, year_walk}
use chrono_sift.Core.Time.Calendar.{
  days_before_month-suc, days_before_month_ends, epoch_day, year_start, year_start-suc,
  year_length_range,
}

-- The walk has found the year of day `P`, counted from 0001-01-01, and the day within it.
pub record FindsYear (P : ℕ) (r : Option (ℤ × ℤ)) : Type 0 where
  pub year : ℕ
  pub day : ℕ
  pub returns : r ≡ some (pos year, pos day)
  pub era : 1 ≤ year
  pub sum : year_start year + day ≡ P
  pub within : day < year_length (pos year)

walk_up :
    (fuel : ℕ) (year days : ℤ)
    → ltb_ℤ days (pos (year_length year)) ≡ false
    → year_walk (suc fuel) year days
      ≡ year_walk fuel (year +ℤ pos 1) (days -ℤ pos (year_length year))
unfolding year_walk
walk_up fuel year days h = rw h

walk_down :
    (fuel : ℕ) (year days : ℤ)
    → ltb_ℤ days (pos (year_length year)) ≡ true
    → ltb_ℤ days (pos 0) ≡ true
    → year_walk (suc fuel) year days
      ≡ year_walk fuel (year -ℤ pos 1) (days +ℤ pos (year_length (year -ℤ pos 1)))
unfolding year_walk
walk_down fuel year days h k = rw (h, k)

walk_here :
    (fuel : ℕ) (year days : ℤ)
    → ltb_ℤ days (pos (year_length year)) ≡ true
    → ltb_ℤ days (pos 0) ≡ false
    → year_walk (suc fuel) year days ≡ some (year, days)
unfolding year_walk
walk_here fuel year days h k = rw (h, k)

module _ (P : ℕ) where
  -- `days` counts from the start of year `y` to day `P`, on or after it.
  up :
      (fuel y : ℕ) (days : ℤ)
      → 1 ≤ y
      → days ≡ pos P -ℤ pos (year_start y)
      → year_start y ≤ P
      → 0 < fuel
      → P < year_start y + fuel + 364
      → FindsYear P (year_walk fuel (pos y) days)
  up zero y days h e le f room = absurd (omega arith)
  up (suc fuel) y days h e le f room =
      let d = P - year_start y in
      let L = year_length (pos y) in
      let e' : days ≡ pos d = e ∙ pos-sub P (year_start y) le in
      let len = year_length_range (pos y) in
      let next = year_start-suc y h in
      elim (Bool-cases (ltb d L)) [
        | inl here ↦ rw e' (record {
          year = y;
          day = d;
          returns =
              walk_here fuel (pos y) (pos d)
                (lt→ltb (d + 0) (L + 0) (omega (arith, ltb→lt d L here)))
                (le→not_ltb (d + 0) (0 + 0) (omega arith));
          era = h;
          sum = omega arith;
          within = ltb→lt d L here;
        })
        | inr later ↦
            let far : L ≤ d = ground arith in
            let step =
              walk_up fuel (pos y) (pos d) (le→not_ltb (d + 0) (L + 0) (omega (arith, far))) in
            let y' : pos y +ℤ pos 1 ≡ pos (suc y) = pos-add y 1 ∙ ap pos (omega arith) in
            let days' : pos d -ℤ pos L ≡ pos P -ℤ pos (year_start (suc y)) =
              omega (int_laws, far, next) in
            rw (e', step, y')
              (up fuel (suc y) (pos d -ℤ pos L) (omega arith) days' (omega (arith, next, far))
                (omega (arith, far, len, room)) (omega (arith, next, len, room)))
      ]

  -- The same before year `y`.
  down :
      (fuel y : ℕ) (days : ℤ)
      → 1 ≤ y
      → days ≡ pos P -ℤ pos (year_start y)
      → P < year_start y
      → year_start y + 3 ≤ P + fuel
      → FindsYear P (year_walk fuel (pos y) days)
  down zero y days h e lt room = absurd (omega arith)
  down (suc fuel) zero days h e lt room = absurd (omega arith)
  down (suc fuel) (suc zero) days h e lt room = absurd (omega arith)
  down (suc fuel) (suc (suc y)) days h e lt room =
      let z = suc y in
      let L = year_length (pos z) in
      let len = year_length_range (pos z) in
      let next = year_start-suc z (omega arith) in
      let low : pos_part days + 0 < 0 + neg_part days =
        omega (int_laws, ap pos_part e, ap neg_part e) in
      let step =
        walk_down fuel (pos (suc z)) days
          (lt→ltb (pos_part days + 0) (year_length (pos (suc z)) + neg_part days)
            (omega (arith, low)))
          (lt→ltb (pos_part days + 0) (0 + neg_part days) low) in
      let y' : pos (suc z) -ℤ pos 1 ≡ pos z =
        pos-sub (suc z) 1 (omega arith) ∙ ap pos (omega arith) in
      let days' : days +ℤ pos L ≡ pos P -ℤ pos (year_start z) =
        omega (int_laws, ap pos_part e, ap neg_part e, next) in
      rw (step, y')
        (elim (Bool-cases (ltb P (year_start z))) [
          | inl still ↦
              down fuel z (days +ℤ pos L) (omega arith) days' (ltb→lt P (year_start z) still)
                (omega (arith, next, len, room))
          | inr above ↦
              let le : year_start z ≤ P = ground arith in
              up fuel z (days +ℤ pos L) (omega arith) days' le (omega (arith, room, lt))
                (omega (arith, next, len, room, lt))
        ])

-- From 1970 the walk finds the year of every day from 0001-01-01 on.
pub year_walk-FindsYear :
    (P fuel : ℕ) (days : ℤ)
    → days ≡ pos P -ℤ pos epoch_day
    → fuel ≡ pos_part (days +ℤ pos 3) + pos_part (pos 3 -ℤ days)
    → FindsYear P (year_walk fuel (pos 1970) days)
year_walk-FindsYear P fuel days e f = elim (Bool-cases (ltb P epoch_day)) [
  | inl before ↦
      down P fuel 1970 days (omega arith) e (ltb→lt P epoch_day before)
        (omega (int_laws, f, ap pos_part e, ap neg_part e, ltb→lt P epoch_day before))
  | inr since ↦
      let le : epoch_day ≤ P = ground arith in
      up P fuel 1970 days (omega arith) e le (omega (int_laws, f, ap pos_part e, ap neg_part e, le))
        (omega (int_laws, f, ap pos_part e, ap neg_part e, le))
]

-- The month loop has found the month of day `N` of the year, and the day within it.
pub record FindsMonth (year : ℤ) (N : ℕ) (r : ℕ × ℤ) : Type 0 where
  pub month : ℕ
  pub day : ℕ
  pub returns : r ≡ (month, pos day)
  pub range : (1 ≤ month) × (month ≤ 12)
  pub sum : days_before_month year month + day ≡ N
  pub within : day < days_in_month year month

month_here :
    (year : ℤ) (left m : ℕ) (days : ℤ)
    → ltb_ℤ days (pos (days_in_month year m)) ≡ true
    → month_walk year (suc left) m days ≡ (m, days)
unfolding month_walk
month_here year left m days h = rw h

month_later :
    (year : ℤ) (left m : ℕ) (days : ℤ)
    → ltb_ℤ days (pos (days_in_month year m)) ≡ false
    → month_walk year (suc left) m days
      ≡ month_walk year left (m + 1) (days -ℤ pos (days_in_month year m))
unfolding month_walk
month_later year left m days h = rw h

pub month_walk-FindsMonth :
    (year : ℤ) (N left m d : ℕ)
    → m + left ≡ 13
    → 1 ≤ m
    → days_before_month year m + d ≡ N
    → N < year_length year
    → FindsMonth year N (month_walk year left m (pos d))
month_walk-FindsMonth year N zero m d e h s lt =
    let last : m ≡ 13 = omega arith in
    absurd (omega (arith, ap (days_before_month year) last, days_before_month_ends year, s))
month_walk-FindsMonth year N (suc left) m d e h s lt =
    let M = days_in_month year m in
    elim (Bool-cases (ltb d M)) [
      | inl here ↦ record {
        month = m;
        day = d;
        returns =
            month_here year left m (pos d)
              (lt→ltb (d + 0) (M + 0) (omega (arith, ltb→lt d M here)));
        range = (h, omega arith);
        sum = s;
        within = ltb→lt d M here;
      }
      | inr later ↦
          let far : M ≤ d = ground arith in
          let step =
            month_later year left m (pos d) (le→not_ltb (d + 0) (M + 0) (omega (arith, far))) in
          let m' : m + 1 ≡ suc m = omega arith in
          rw (step, pos-sub d M far, m')
            (month_walk-FindsMonth year N left (suc m) (d - M) (omega arith) (omega arith)
              (omega (arith, days_before_month-suc year m h, far, s)) lt)
    ]
