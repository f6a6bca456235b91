-- ===== src/Event/Severity.antt =====
-- The severity scale (include/event/severity.hpp, src/event/severity.cpp).
pub mod Order
use chrono_sift.Common.{
  ℕ, Bool, true, false, ◌&&◌, ◌||◌, List, [], ◌∷◌, ltb, leb, ◌==◌, if◌then◌else◌, Bytes, codes,
  get_or, eqb,
}
use chrono_sift.Core.Text.{to_lower, trim}

pub data Severity : Type 0 where
  emergency alert critical error warning notice informational debug unknown : Severity

-- `static_cast<int>(s)`
unfoldable pub rank : Severity → ℕ
rank Severity.emergency = 0
rank Severity.alert = 1
rank Severity.critical = 2
rank Severity.error = 3
rank Severity.warning = 4
rank Severity.notice = 5
rank Severity.informational = 6
rank Severity.debug = 7
rank Severity.unknown = 8

unfoldable pub severity_name : Severity → Bytes
severity_name Severity.emergency = codes "emergency"
severity_name Severity.alert = codes "alert"
severity_name Severity.critical = codes "critical"
severity_name Severity.error = codes "error"
severity_name Severity.warning = codes "warning"
severity_name Severity.notice = codes "notice"
severity_name Severity.informational = codes "informational"
severity_name Severity.debug = codes "debug"
severity_name Severity.unknown = codes "unknown"

-- `static_cast<Severity>(value)`, for a value from 0 to 7.
abbrev pub of_rank : ℕ → Severity
of_rank value =
    get_or
      (Severity.emergency ∷ Severity.alert ∷ Severity.critical ∷ Severity.error ∷ Severity.warning
        ∷ Severity.notice ∷ Severity.informational ∷ Severity.debug ∷ [])
      value Severity.unknown

unfoldable pub severity_from_syslog : ℕ → Severity
severity_from_syslog value = if ltb 7 value then Severity.unknown else of_rank value

-- The words of one level, compared in lower case.
unfoldable pub level_of : Bytes → Severity
level_of w =
    if eqb w (codes "emerg") || eqb w (codes "emergency") || eqb w (codes "panic")
    then Severity.emergency
    else if eqb w (codes "alert")
    then Severity.alert
    else if eqb w (codes "crit") || eqb w (codes "critical")
    then Severity.critical
    else if eqb w (codes "err") || eqb w (codes "error")
    then Severity.error
    else if eqb w (codes "warn") || eqb w (codes "warning")
    then Severity.warning
    else if eqb w (codes "notice")
    then Severity.notice
    else if eqb w (codes "info") || eqb w (codes "information") || eqb w (codes "informational")
    then Severity.informational
    else if eqb w (codes "debug") || eqb w (codes "trace") || eqb w (codes "verbose")
    then Severity.debug
    else Severity.unknown

unfoldable pub severity_from_word : Bytes → Severity
severity_from_word word = level_of (to_lower (trim word))

unfoldable pub severity_from_winlevel : ℕ → Severity
severity_from_winlevel level =
    if level == 1
    then Severity.critical
    else if level == 2
    then Severity.error
    else if level == 3
    then Severity.warning
    else if level == 4
    then Severity.informational
    else if level == 5
    then Severity.debug
    else Severity.unknown

unfoldable pub is_unknown : Severity → Bool
is_unknown Severity.unknown = true
is_unknown _ = false

unfoldable pub at_least_as_severe : Severity → Severity → Bool
unfolding rank is_unknown
at_least_as_severe a b =
    if is_unknown a then false else if is_unknown b then true else leb (rank a) (rank b)
