-- ===== src/Analyze/Statistics/Examples.antt =====
-- Statistics of a few events.
use chrono_sift.Common.{[], ◌∷◌, codes, arith}
use chrono_sift.Event.Severity.{Severity}
use chrono_sift.Event.Record.{blank}
use chrono_sift.Event.Stream.{EventStream, empty_stream}
use chrono_sift.Analyze.Statistics.{compute_statistics}
use chrono_sift.Analyze.Statistics.Counts.{IsCensus, compute_statistics-IsCensus}

abbrev three_events : EventStream
three_events = record empty_stream {
  events =
      record blank { severity = Severity.alert; host = codes "h"; http_status = 404 }
      ∷ blank
      ∷ record blank { host = codes "h" }
      ∷ [];
}

compute_statistics-IsCensus_example : IsCensus three_events (compute_statistics three_events)
compute_statistics-IsCensus_example = compute_statistics-IsCensus three_events (omega arith)
