-- ===== src/Core/Timestamp/Iso.antt =====
-- The ISO 8601 format (`parse_iso8601` in src/core/time_util.cpp). A position in the text is the list
-- of the bytes from it on.
use chrono_sift.Core.Number.{wrap_i64}
use chrono_sift.Common.{
  ℕ, zero, suc, ◌+◌, ◌-◌, ◌*◌, ◌^◌, Bool, true, false, not, ◌||◌, [], ◌∷◌, Option, none, some, ltb,
  ◌==◌, if◌then◌else◌, Bytes, length,
}
use chrono_sift.Common.Int.{ℤ, pos, ◌+ℤ◌, ◌-ℤ◌}
use chrono_sift.Core.Chars.{is_digit}
use chrono_sift.Core.Text.{trim}
use chrono_sift.Core.Time.{CivilTime, micros_from_civil}
use chrono_sift.Core.Timestamp.{wrap_i64, Timestamp, invalid, from_micros}

-- The loop of `read_digits` over its `n` bytes.
unfoldable pub digits_loop : ℕ → ℕ → Bytes → Option (ℕ × Bytes)
digits_loop zero value s = some (value, s)
digits_loop (suc n) value [] = none
digits_loop (suc n) value (c ∷ s) =
    let rest = digits_loop n (value * 10 + (c - b'0')) s in if not (is_digit c) then none else rest

unfoldable pub read_digits : ℕ → Bytes → Option (ℕ × Bytes)
unfolding digits_loop
read_digits n s = if ltb (length s) n then none else digits_loop n 0 s

infixl 5 ◌>>=◌ ◌>>◌
abbrev pub ◌>>=◌ {ℓ κ} : {A : Type ℓ} {B : Type κ} → Option A → (A → Option B) → Option B
none >>= f = none
some a >>= f = f a

abbrev pub ◌>>◌ {ℓ} : {B : Type ℓ} → Option (Unit {0}) → Option B → Option B
m >> k = m >>= λ _. k

abbrev pub guard : Bool → Option (Unit {0})
guard true = some tt
guard false = none

-- `if (pos >= s.size() || s[pos] != c) return invalid; ++pos;`
abbrev pub expect : ℕ → Bytes → Option Bytes
expect c [] = none
expect c (d ∷ s) = if d == c then some s else none

-- The digits after the point: at most six are used, and the rest is passed over.
unfoldable pub fraction : ℕ → ℕ → Bytes → ℕ × Bytes
fraction zero frac [] = (frac, [])
fraction zero frac (c ∷ s) =
    let rest = fraction zero frac s in if is_digit c then rest else (frac, c ∷ s)
fraction (suc n) frac [] = (frac * 10 ^ suc n, [])
fraction (suc n) frac (c ∷ s) =
    let more = fraction n (frac * 10 + (c - b'0')) s in
    if is_digit c then more else (frac * 10 ^ suc n, c ∷ s)

abbrev pub fraction_at : Bytes → ℕ × Bytes
fraction_at [] = (0, [])
fraction_at (c ∷ s) = if c == b'.' then fraction 6 0 s else (0, c ∷ s)

-- `base += (z == '+') ? -offset : offset;`
abbrev pub shift_zone : ℕ → ℕ → ℕ → ℤ → ℤ
shift_zone z oh om base =
    let offset = (oh * 3600 + om * 60) * 1000000 in
    wrap_i64 (if z == b'+' then base -ℤ pos offset else base +ℤ pos offset)

-- Hours, an optional colon, minutes.
unfoldable pub offset_zone : ℕ → ℤ → Bytes → Option ℤ
offset_zone z base s = do
  (oh, s1) ← read_digits 2 s
  (om, s2) ← read_digits 2 (elim (expect b':' s1) [ some after ↦ after | none ↦ s1 ])
  some (shift_zone z oh om base)

-- The zone at the end of an ISO time; anything else there is ignored.
unfoldable pub iso_zone : ℤ → Bytes → Option ℤ
iso_zone base [] = some base
iso_zone base (z ∷ s) =
    if z == b'Z' || z == b'z'
    then some base
    else if z == b'+' || z == b'-'
    then offset_zone z base s
    else some base

abbrev pub civil : ℤ → ℕ → ℕ → ℕ → ℕ → ℕ → ℕ → CivilTime
civil y mo d h mi s us = record {
  year = y;
  month = mo;
  day = d;
  hour = h;
  minute = mi;
  second = if s == 60 then 59 else s;
  micro = us;
}

-- The time of day behind the `T`.
unfoldable pub iso_time : ℕ → ℕ → ℕ → Bytes → Option ℤ
iso_time year month day s = do
  (hh, s1) ← read_digits 2 s
  s2 ← expect b':' s1
  (mm, s3) ← read_digits 2 s2
  s4 ← expect b':' s3
  (ss, s5) ← read_digits 2 s4
  guard (not (ltb 23 hh || ltb 59 mm || ltb 60 ss))
  let (us, s6) = fraction_at s5
  iso_zone (micros_from_civil (civil (pos year) month day hh mm ss us)) s6

abbrev pub is_t : ℕ → Bool
is_t c = c == b'T' || c == b' ' || c == b't'

unfoldable pub iso_rest : ℕ → ℕ → ℕ → Bytes → Option ℤ
iso_rest year month day [] = some (micros_from_civil (civil (pos year) month day 0 0 0 0))
iso_rest year month day (c ∷ s) =
    if is_t c
    then iso_time year month day s
    else some (micros_from_civil (civil (pos year) month day 0 0 0 0))

unfoldable pub iso_micros : Bytes → Option ℤ
iso_micros s = do
  guard (not (ltb (length s) 10))
  (year, s1) ← read_digits 4 s
  s2 ← expect b'-' s1
  (month, s3) ← read_digits 2 s2
  s4 ← expect b'-' s3
  (day, s5) ← read_digits 2 s4
  guard (not (ltb month 1 || ltb 12 month || ltb day 1 || ltb 31 day))
  iso_rest year month day s5

abbrev pub stamp : Option ℤ → Timestamp
stamp none = invalid
stamp (some us) = from_micros us

unfoldable pub parse_iso8601 : Bytes → Timestamp
parse_iso8601 raw = stamp (iso_micros (trim raw))
