-- ===== src/Event/Severity/Order.antt =====
-- The scale as an order, its names, and the mappings onto it.
use chrono_sift.Common.{
  ℕ, zero, suc, ◌≤◌, true, false, ◌≡◌, refl, ◌↔◌, arith, ltb, leb, if◌then◌else◌, eqb,
}
use chrono_sift.Core.Text.{to_lower, trim, space_run, trim_end}
use chrono_sift.Core.Chars.{ascii_to_lower, is_space}
use chrono_sift.Event.Severity.{
  Severity, rank, severity_name, level_of, severity_from_syslog, severity_from_word,
  at_least_as_severe,
}

at_least-rank :
    (a b : Severity)
    → at_least_as_severe a b ≡ (if leb (rank a) 7 then leb (rank a) (rank b) else false)
unfolding at_least_as_severe
at_least-rank Severity.emergency b = ground arith
at_least-rank _ b = ground arith

unknown_never : (b : Severity) → at_least_as_severe Severity.unknown b ≡ false
unfolding at_least_as_severe
unknown_never b = refl

-- `at_least_as_severe` on all levels: nothing unknown is severe, and a level is at least as severe as
-- another, known or not, when it is known and its rank is not higher.
pub at_least_as_severe_order :
    (a b : Severity)
    → (at_least_as_severe Severity.unknown b ≡ false)
      × ((at_least_as_severe a b ≡ true) ↔ ((rank a ≤ rank b) × (rank a ≤ 7)))
at_least_as_severe_order a b = (unknown_never b, ground (arith, at_least-rank a b))

-- The name of each level is read back as the level.
pub severity_from_word-severity_name : (s : Severity) → severity_from_word (severity_name s) ≡ s
unfolding severity_from_word level_of severity_name to_lower trim space_run trim_end ascii_to_lower
    is_space eqb
severity_from_word-severity_name Severity.emergency = refl
severity_from_word-severity_name _ = refl

-- A syslog number from 0 to 7 is the rank of its level, and any other number is unknown.
pub rank-severity_from_syslog :
    (value : ℕ)
    → rank (severity_from_syslog value) ≡ (if ltb value 8 then value else rank Severity.unknown)
unfolding severity_from_syslog rank
rank-severity_from_syslog zero = refl
rank-severity_from_syslog (suc zero) = refl
rank-severity_from_syslog (suc (suc zero)) = refl
rank-severity_from_syslog (suc (suc (suc zero))) = refl
rank-severity_from_syslog (suc (suc (suc (suc zero)))) = refl
rank-severity_from_syslog (suc (suc (suc (suc (suc zero))))) = refl
rank-severity_from_syslog (suc (suc (suc (suc (suc (suc zero)))))) = refl
rank-severity_from_syslog (suc (suc (suc (suc (suc (suc (suc zero))))))) = refl
rank-severity_from_syslog (suc (suc (suc (suc (suc (suc (suc (suc n)))))))) = ground arith
