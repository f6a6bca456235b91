-- ===== src/Core/Timestamp/Named.antt =====
-- The formats with names for months, the Windows file time and the guess of a format
-- (src/core/time_util.cpp).
use chrono_sift.Common.{
  ℕ, ◌+◌, ◌-◌, ◌*◌, ◌/◌, ◌%◌, ◌^◌, Bool, false, not, ◌&&◌, ◌||◌, List, [], ◌∷◌, Option, none, some,
  ltb, leb, ◌==◌, if◌then◌else◌, Bytes, codes, length, get_or, take, null,
}
use chrono_sift.Common.Int.{ℤ, pos, negsuc, ◌-ℤ◌}
use chrono_sift.Core.Chars.{is_digit}
use chrono_sift.Core.Text.{ascii_iequals, trim, split, split_whitespace}
use chrono_sift.Core.Number.{parse_u64}
use chrono_sift.Core.Time.{micros_from_civil}
use chrono_sift.Core.Timestamp.{Timestamp, invalid, from_micros, from_unix_seconds}
use chrono_sift.Core.Timestamp.Iso.{◌>>=◌, ◌>>◌, guard, civil, stamp, shift_zone, parse_iso8601}

abbrev months : List Bytes
months =
    codes "Jan"
    ∷ codes "Feb"
    ∷ codes "Mar"
    ∷ codes "Apr"
    ∷ codes "May"
    ∷ codes "Jun"
    ∷ codes "Jul"
    ∷ codes "Aug"
    ∷ codes "Sep"
    ∷ codes "Oct"
    ∷ codes "Nov"
    ∷ codes "Dec"
    ∷ []

month_from : ℕ → List Bytes → Bytes → ℕ
month_from i [] s = 0
month_from i (m ∷ ms) s =
    let later = month_from (i + 1) ms s in if ascii_iequals s m then i + 1 else later

unfoldable pub month_from_abbrev : Bytes → ℕ
unfolding month_from
month_from_abbrev s = month_from 0 months s

-- The times of day of the formats with names for months, and their range test.
abbrev pub time_fits : ℕ → ℕ → ℕ → ℕ → Bool
time_fits day hh mm ss = not (ltb day 1 || ltb 31 day) && not (ltb 23 hh || ltb 59 mm || ltb 60 ss)

abbrev nth : List Bytes → ℕ → Bytes
nth ps i = get_or ps i []

unfoldable pub bsd_micros : ℤ → List Bytes → Option ℤ
bsd_micros assume_year parts = do
  guard (not (ltb (length parts) 3))
  let month = month_from_abbrev (nth parts 0)
  guard (not (month == 0))
  day ← parse_u64 (nth parts 1)
  guard (not (ltb day 1 || ltb 31 day))
  let hms = split (nth parts 2) b':' false 0
  guard (length hms == 3)
  hh ← parse_u64 (nth hms 0)
  mm ← parse_u64 (nth hms 1)
  ss ← parse_u64 (nth hms 2)
  guard (not (ltb 23 hh || ltb 59 mm || ltb 60 ss))
  some (micros_from_civil (civil assume_year month day hh mm ss 0))

unfoldable pub parse_syslog_bsd_time : Bytes → ℤ → Timestamp
parse_syslog_bsd_time raw assume_year = stamp (bsd_micros assume_year (split_whitespace raw))

-- `static_cast<i32>` of an unsigned 64-bit number.
abbrev pub to_i32 : ℕ → ℤ
to_i32 n = let w = n % 2 ^ 32 in if ltb w (2 ^ 31) then pos w else negsuc (2 ^ 32 - w - 1)

-- The zone `+hhmm`, applied only where the second word has just that form.
unfoldable pub clf_zone : ℤ → Bytes → ℤ
clf_zone base (z ∷ a ∷ b ∷ c ∷ d ∷ []) =
    if (z == b'+' || z == b'-') && (is_digit a && is_digit b && is_digit c && is_digit d)
    then shift_zone z ((a - b'0') * 10 + (b - b'0')) ((c - b'0') * 10 + (d - b'0')) base
    else base
clf_zone base _ = base

-- `if (s.front() == '[') s = s.substr(1)` and `if (s.back() == ']') s.pop_back()`.
unfoldable pub open_bracket : Bytes → Bytes
open_bracket [] = []
open_bracket (c ∷ s) = if c == b'[' then s else c ∷ s

unfoldable pub close_bracket : Bytes → Bytes
close_bracket s =
    if not (null s) && (get_or s (length s - 1) 0 == b']') then take (length s - 1) s else s

unfoldable pub clf_micros : List Bytes → Option ℤ
clf_micros sp = do
  guard (not (null sp))
  let dt = split (nth sp 0) b':' false 0
  guard (length dt == 4)
  let dmy = split (nth dt 0) b'/' false 0
  guard (length dmy == 3)
  day ← parse_u64 (nth dmy 0)
  let month = month_from_abbrev (nth dmy 1)
  guard (not (month == 0))
  year ← parse_u64 (nth dmy 2)
  hh ← parse_u64 (nth dt 1)
  mm ← parse_u64 (nth dt 2)
  ss ← parse_u64 (nth dt 3)
  guard (time_fits day hh mm ss)
  let base = micros_from_civil (civil (to_i32 year) month day hh mm ss 0)
  some (if leb 2 (length sp) then clf_zone base (nth sp 1) else base)

unfoldable pub parse_clf_time : Bytes → Timestamp
parse_clf_time raw = stamp (clf_micros (split_whitespace (close_bracket (open_bracket (trim raw)))))

unfoldable pub parse_filetime : ℕ → Timestamp
parse_filetime filetime = from_micros (pos (filetime / 10) -ℤ pos (11644473600 * 1000000))

-- Bare epoch seconds.
unfoldable pub parse_epoch : Bytes → Timestamp
parse_epoch trimmed = elim (parse_u64 trimmed) [
  | none ↦ invalid
  | some secs ↦
      if leb 9 (length trimmed) && leb (length trimmed) 11
      then from_unix_seconds (pos secs)
      else invalid
]

unfoldable pub parse_any_time : Bytes → ℤ → Timestamp
parse_any_time s assume_year =
    let iso = parse_iso8601 s in
    let clf = parse_clf_time s in
    let bsd = parse_syslog_bsd_time s assume_year in
    if iso.valid
    then iso
    else if clf.valid
    then clf
    else if bsd.valid
    then bsd
    else parse_epoch (trim s)
