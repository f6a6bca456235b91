-- ===== src/Core/Number/Examples.antt =====
-- Numbers in range and out of it.
use chrono_sift.Common.{◌&&◌, not, leb, if◌then◌else◌, some, none, null, ◌≡◌, codes}
use chrono_sift.Core.Chars.{is_digit}
use chrono_sift.Core.Number.{parse_u64, parse_i64, u64_max}
use chrono_sift.Core.Number.Decimal.{value_from, all_digits, parse_u64-value}
use chrono_sift.Core.Number.Signed.{integer_value, parse_i64-value}

parse_u64-value_example : parse_u64 (codes "18446744073709551616") ≡ (
    if not (null (codes "18446744073709551616"))
      && (all_digits (codes "18446744073709551616")
          && leb (value_from 0 (codes "18446744073709551616")) u64_max)
    then some (value_from 0 (codes "18446744073709551616"))
    else none)
parse_u64-value_example = parse_u64-value (codes "18446744073709551616")

parse_i64-value_example :
    parse_i64 (codes "-9223372036854775809") ≡ integer_value (codes "-9223372036854775809")
parse_i64-value_example = parse_i64-value (codes "-9223372036854775809")

out_of_range : parse_i64 (codes "-9223372036854775809") ≡ none
unfolding is_digit
out_of_range = parse_i64-value (codes "-9223372036854775809")
