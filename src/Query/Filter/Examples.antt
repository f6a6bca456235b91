-- ===== src/Query/Filter/Examples.antt =====
-- A filter of two predicates on an event.
use chrono_sift.Common.{ℕ, ◌≡◌, false, not, ◌&&◌, [], ◌∷◌, Bytes, codes, refl, if◌then◌else◌}
use chrono_sift.Event.Severity.{Severity, is_unknown, at_least_as_severe, severity_name}
use chrono_sift.Event.Record.{LogEvent, blank}
use chrono_sift.Query.Filter.{Op, Predicate, Filter, resolve, predicate_matches}
use chrono_sift.Query.Filter.Evaluation.{complement, is_ordering, predicate_matches-complement}
use chrono_sift.Query.Filter.Ranks.{severity_at_least}

-- `%g` where no double is shown.
abbrev no_double : ℕ → Bytes
no_double d = []

abbrev event : LogEvent
event = record blank { host = codes "web1"; severity = Severity.critical; http_status = 404 }

abbrev on_host : Predicate
on_host = record { field = codes "host"; op = Op.eq; value = codes "WEB1" }

abbrev on_app : Predicate
on_app = record { field = codes "app"; op = Op.lt; value = codes "x" }

abbrev host_filter : Filter
host_filter = record { predicates = on_host ∷ []; conjunctions = [] }

predicate_matches-complement_example :
    predicate_matches no_double (record on_app { op = complement on_app.op }) event ≡ (
      if is_ordering on_app.op && not (resolve no_double on_app.field event).present
      then false
      else not (predicate_matches no_double on_app event))
predicate_matches-complement_example = predicate_matches-complement no_double on_app event

severity_at_least_example :
    predicate_matches no_double
      (record { field = codes "severity"; op = Op.ge; value = severity_name Severity.error })
      event
    ≡ at_least_as_severe event.severity Severity.error
unfolding is_unknown
severity_at_least_example = severity_at_least no_double Severity.error event refl
