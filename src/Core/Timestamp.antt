-- ===== src/Core/Timestamp.antt =====
-- `Timestamp` and its text (include/core/time_util.hpp, src/core/time_util.cpp).
pub mod Order
pub mod Iso
pub mod Named
pub mod Padded
pub mod RoundTrip
mod Examples
use chrono_sift.Common.{
  ℕ, zero, suc, ◌+◌, ◌-◌, ◌*◌, ◌/◌, ◌%◌, ◌^◌, Bool, true, false, not, ◌&&◌, ◌||◌, List, [], ◌∷◌,
  ◌++◌, Option, none, some, ltb, leb, ◌==◌, if◌then◌else◌, Bytes, codes, length, get_or, take, drop,
  null,
}
use chrono_sift.Common.Int.{ℤ, pos, negsuc, ◌+ℤ◌, ◌-ℤ◌, scale, ltb_ℤ}
use chrono_sift.Core.Chars.{is_digit}
use chrono_sift.Core.Text.{ascii_iequals, trim, split, split_whitespace}
use chrono_sift.Core.Number.{wrap_i64, parse_u64, to_string}
use chrono_sift.Core.Time.{CivilTime, civil_from_micros, micros_from_civil}

pub record Timestamp : Type 0 where
  pub micros : ℤ
  pub valid : Bool

abbrev pub invalid : Timestamp
invalid = record { micros = pos 0; valid = false }

abbrev pub from_micros : ℤ → Timestamp
from_micros us = record { micros = us; valid = true }

abbrev pub from_unix_seconds : ℤ → Timestamp
from_unix_seconds s = record { micros = wrap_i64 (scale 1000000 s); valid = true }

abbrev pub same_bool : Bool → Bool → Bool
same_bool true b = b
same_bool false b = not b

-- `operator<`: an invalid time comes first.
unfoldable pub before : Timestamp → Timestamp → Bool
before a b = if not (same_bool a.valid b.valid) then b.valid else ltb_ℤ a.micros b.micros

-- `operator==`
unfoldable pub same_time : Timestamp → Timestamp → Bool
same_time a b =
    same_bool a.valid b.valid && (not (ltb_ℤ a.micros b.micros) && not (ltb_ℤ b.micros a.micros))

pub diff_micros : Timestamp → Timestamp → ℤ
diff_micros a b = wrap_i64 (a.micros -ℤ b.micros)

-- `%0wd` of a number's digits.
unfoldable pub zeros : ℕ → Bytes
zeros zero = []
zeros (suc n) = b'0' ∷ zeros n

abbrev pub pad : ℕ → Bytes → Bytes
pad w s = zeros (w - length s) ++ s

abbrev pub pad_ℤ : ℕ → ℤ → Bytes
pad_ℤ w (pos n) = pad w (to_string n)
pad_ℤ w (negsuc n) = b'-' ∷ pad (w - 1) (to_string (suc n))

abbrev pub civil_string : CivilTime → Bytes
civil_string t =
    pad_ℤ 4 t.year
    ++ (b'-' ∷ pad 2 (to_string t.month)
        ++ (b'-' ∷ pad 2 (to_string t.day)
            ++ (b'T' ∷ pad 2 (to_string t.hour)
                ++ (b':' ∷ pad 2 (to_string t.minute)
                    ++ (b':' ∷ pad 2 (to_string t.second)
                        ++ (b'.' ∷ pad 6 (to_string t.micro) ++ b'Z' ∷ []))))))

-- `Timestamp::to_iso8601`. The walk of `civil_from_micros` does not run out of fuel.
unfoldable pub to_iso8601 : Timestamp → Bytes
unfolding zeros
to_iso8601 t =
    if not t.valid
    then codes "unknown"
    else elim (civil_from_micros t.micros) [ none ↦ [] | some c ↦ civil_string c ]
