-- ===== src/Core/Time/Calendar.antt =====
-- The calendar in natural numbers: the days before a year of our era, and before a month.
use native.Mathlib.Nat.{add-zero, le_refl, le_trans}
use native.Mathlib.Decide.{le_ind}
use chrono_sift.Common.{
  ℕ, zero, suc, ◌+◌, ◌-◌, ◌*◌, ◌/◌, ◌%◌, ◌≤◌, Bool, not, ◌&&◌, ◌||◌, ◌≡◌, refl, ap, ◌∙◌, arith,
  ◌==◌,
}
use chrono_sift.Common.Int.{int_laws, pos-sub, tdiv-pos, ℤ, pos, ◌-ℤ◌}
use chrono_sift.Core.Time.{
  is_leap_year, days_in_month, days_before_year, sum_months, days_before_month, year_length,
}

-- The days from 0001-01-01 to the start of year `y`.
abbrev pub year_start : ℕ → ℕ
year_start y = let p = y - 1 in p * 365 + p / 4 - p / 100 + p / 400

-- The days from 0001-01-01 to 1970-01-01.
abbrev pub epoch_day : ℕ
epoch_day = 719162

abbrev pub leap : ℕ → Bool
leap y = (y % 4 == 0 && not (y % 100 == 0)) || y % 400 == 0

is_leap_year-leap : (y : ℕ) → is_leap_year (pos y) ≡ leap y
unfolding is_leap_year
is_leap_year-leap y = ground arith

-- The years tile the days.
pub year_start-suc : (y : ℕ) → 1 ≤ y → year_start (suc y) ≡ year_start y + year_length (pos y)
year_start-suc y h = ground (arith, is_leap_year-leap y)

pub days_before_year-pos :
    (y : ℕ) → 1 ≤ y → days_before_year (pos y) ≡ pos (year_start y) -ℤ pos epoch_day
unfolding days_before_year
days_before_year-pos y h =
    let p = y - 1 in
    rw (pos-sub y 1 h, tdiv-pos p 4, tdiv-pos p 100, tdiv-pos p 400)
      (rw (tdiv-pos 1969 4, tdiv-pos 1969 100, tdiv-pos 1969 400) (omega int_laws))

pub year_length_range : (year : ℤ) → (365 ≤ year_length year) × (year_length year ≤ 366)
year_length_range year = ground arith

pub year_start_mono : (y z : ℕ) → 1 ≤ y → y ≤ z → year_start y ≤ year_start z
year_start_mono y z h =
    le_ind (λ w. year_start y ≤ year_start w) (le_refl _)
      (λ w le ih. omega (arith, year_start-suc w (le_trans h le), ih)) z

sum_months-suc :
    (year : ℤ) (left m d : ℕ)
    → sum_months year (suc left) m d ≡ sum_months year left m d + days_in_month year (m + left)
unfolding sum_months
sum_months-suc year zero m d = rw add-zero
sum_months-suc year (suc left) m d =
    let e : m + 1 + left ≡ m + suc left = omega arith in
    sum_months-suc year left (m + 1) (d + days_in_month year m)
    ∙ ap (λ (k : ℕ). sum_months year left (m + 1) (d + days_in_month year m) + days_in_month year k)
        e

-- The months tile the year.
pub days_before_month-suc :
    (year : ℤ) (m : ℕ)
    → 1 ≤ m
    → days_before_month year (suc m) ≡ days_before_month year m + days_in_month year m
unfolding days_before_month
days_before_month-suc year zero h = absurd (omega arith)
days_before_month-suc year (suc m) h =
    let a : suc (suc m) - 1 ≡ suc m = omega arith in
    let b : suc m - 1 ≡ m = omega arith in
    let c : 1 + m ≡ suc m = omega arith in
    rw (a, b)
      (sum_months-suc year m 1 0 ∙ ap (λ (k : ℕ). sum_months year m 1 0 + days_in_month year k) c)

pub days_before_month_ends :
    (year : ℤ) → (days_before_month year 1 ≡ 0) × (days_before_month year 13 ≡ year_length year)
unfolding days_before_month days_in_month
days_before_month_ends year = (refl, ground arith)

pub days_before_month_mono :
    (year : ℤ) (m n : ℕ) → 1 ≤ m → m ≤ n → days_before_month year m ≤ days_before_month year n
days_before_month_mono year m n h =
    le_ind (λ k. days_before_month year m ≤ days_before_month year k) (le_refl _)
      (λ k le ih. omega (arith, days_before_month-suc year k (le_trans h le), ih)) n

pub days_in_month_range :
    (year : ℤ) (m : ℕ) → 1 ≤ m → m ≤ 12 → (28 ≤ days_in_month year m) × (days_in_month year m ≤ 31)
unfolding days_in_month
days_in_month_range year m lo hi = ground arith
