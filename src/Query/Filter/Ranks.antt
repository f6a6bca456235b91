-- ===== src/Query/Filter/Ranks.antt =====
-- The ordering operators on severities and on built-in numbers.
use chrono_sift.Common.{
  some, eqb, ℕ, ◌≡◌, ◌≤◌, Bool, true, false, codes, arith, ltb, leb, Bytes, inl, inr, refl, ◌⊎◌,
  ◌∙◌,
}
use chrono_sift.Common.Int.{pos, ◌-ℤ◌}
use chrono_sift.Core.Number.{to_string, parse_i64, i64_max, signed_digits, digits_from, to_string_ℤ}
use chrono_sift.Core.Number.Signed.{parse_i64-to_string}
use chrono_sift.Core.Chars.{is_digit, is_space, ascii_to_lower}
use chrono_sift.Event.Severity.{
  severity_from_word, level_of, Severity, rank, is_unknown, at_least_as_severe, severity_name,
}
use chrono_sift.Query.Filter.Evaluation.{is_ordering}
use chrono_sift.Query.Filter.{
  compare_numbers, Op, predicate_matches, resolve, resolve_string, apply_op, is_numeric_field,
  ordered, compare_values, three_way, severity_rank, severity_value_rank,
}
use chrono_sift.Core.Text.{to_lower, trim}
use chrono_sift.Event.Record.{LogEvent}

severity_rank-cases :
    (s : Severity)
    → ((is_unknown s ≡ true) × (severity_rank s ≡ 1000))
      ⊎ ((is_unknown s ≡ false) × (severity_rank s ≡ rank s) × (rank s ≤ 7))
unfolding is_unknown severity_rank rank
severity_rank-cases Severity.unknown = inl (refl, refl)
severity_rank-cases _ = inr (refl, refl, omega arith)

as_severe :
    (s level : Severity)
    → is_unknown level ≡ false
    → leb (severity_rank s) (severity_rank level) ≡ at_least_as_severe s level
unfolding at_least_as_severe
as_severe s level h = ground (arith, severity_rank-cases s, severity_rank-cases level)

ge_magnitude : (a b : ℕ) → ordered Op.ge (three_way (pos 0 -ℤ pos a) (pos 0 -ℤ pos b)) ≡ leb a b
unfolding ordered three_way ◌-ℤ◌
ge_magnitude a b = ground arith

severity_value_rank-severity_name :
    (level : Severity) → severity_value_rank (severity_name level) ≡ severity_rank level
unfolding severity_value_rank severity_name severity_rank rank parse_i64 signed_digits digits_from
    is_digit severity_from_word level_of eqb to_lower trim is_space ascii_to_lower
severity_value_rank-severity_name Severity.emergency = refl
severity_value_rank-severity_name Severity.alert = refl
severity_value_rank-severity_name Severity.critical = refl
severity_value_rank-severity_name Severity.error = refl
severity_value_rank-severity_name Severity.warning = refl
severity_value_rank-severity_name Severity.notice = refl
severity_value_rank-severity_name Severity.informational = refl
severity_value_rank-severity_name Severity.debug = refl
severity_value_rank-severity_name Severity.unknown = refl

-- `severity>=LEVEL`, for the name of a level that is known, matches the events that are at least as
-- severe; an event of unknown severity does not match.
pub severity_at_least :
    (format_g : ℕ → Bytes) (level : Severity) (e : LogEvent)
    → is_unknown level ≡ false
    → predicate_matches format_g
        (record { field = codes "severity"; op = Op.ge; value = severity_name level })
        e
      ≡ at_least_as_severe e.severity level
unfolding predicate_matches apply_op resolve resolve_string compare_values to_lower eqb
    ascii_to_lower three_way ordered
severity_at_least format_g level e h =
    rw (severity_value_rank-severity_name level)
      (ge_magnitude (severity_rank e.severity) (severity_rank level) ∙ as_severe e.severity level h)

-- The order that an ordering operator stands for.
abbrev pub holds : Op → ℕ → ℕ → Bool
holds Op.lt a b = ltb a b
holds Op.le a b = leb a b
holds Op.gt a b = ltb b a
holds Op.ge a b = leb b a
holds _ a b = false

ordered-three_way : (op : Op) (a b : ℕ) → ordered op (three_way (pos a) (pos b)) ≡ holds op a b
unfolding ordered three_way
ordered-three_way Op.eq a b = ground arith
ordered-three_way Op.ne a b = ground arith
ordered-three_way Op.has a b = ground arith
ordered-three_way Op.has_not a b = ground arith
ordered-three_way Op.lt a b = ground arith
ordered-three_way Op.le a b = ground arith
ordered-three_way Op.gt a b = ground arith
ordered-three_way Op.ge a b = ground arith

parse_number : (n : ℕ) → n ≤ i64_max → parse_i64 (to_string n) ≡ some (pos n)
unfolding to_string_ℤ
parse_number n h = parse_i64-to_string (pos n) (omega arith)

compare_numbers-to_string :
    (a b : ℕ)
    → a ≤ i64_max
    → b ≤ i64_max
    → compare_numbers (to_string a) (to_string b) ≡ three_way (pos a) (pos b)
compare_numbers-to_string a b h k =
    rw (parse_number a h, compare_numbers) (rw (parse_number b k, compare_numbers) refl)

apply_op-numbers :
    (op : Op) (a b : ℕ) (e : LogEvent)
    → is_ordering op ≡ true
    → a ≤ i64_max
    → b ≤ i64_max
    → apply_op op
        (codes "status")
        (record { lhs = to_string a; present = true; is_dynamic = false })
        e
        (to_string b)
      ≡ holds op a b
unfolding apply_op compare_values eqb is_numeric_field
apply_op-numbers Op.lt a b e p h k =
    rw (compare_numbers-to_string a b h k) (ordered-three_way Op.lt a b)
apply_op-numbers Op.le a b e p h k =
    rw (compare_numbers-to_string a b h k) (ordered-three_way Op.le a b)
apply_op-numbers Op.gt a b e p h k =
    rw (compare_numbers-to_string a b h k) (ordered-three_way Op.gt a b)
apply_op-numbers Op.ge a b e p h k =
    rw (compare_numbers-to_string a b h k) (ordered-three_way Op.ge a b)
apply_op-numbers Op.eq a b e p h k = absurd (ground arith)
apply_op-numbers Op.ne a b e p h k = absurd (ground arith)
apply_op-numbers Op.has a b e p h k = absurd (ground arith)
apply_op-numbers Op.has_not a b e p h k = absurd (ground arith)

-- An ordering operator on `status` against the decimal digits of a number compares the event's HTTP
-- status with it as numbers, where both are at most INT64_MAX.
pub status_compared :
    (format_g : ℕ → Bytes) (op : Op) (n : ℕ) (e : LogEvent)
    → is_ordering op ≡ true
    → e.http_status ≤ i64_max
    → n ≤ i64_max
    → predicate_matches format_g (record { field = codes "status"; op = op; value = to_string n }) e
      ≡ holds op e.http_status n
unfolding predicate_matches resolve resolve_string to_lower eqb ascii_to_lower
status_compared format_g op n e p h k = apply_op-numbers op e.http_status n e p h k
