-- ===== src/Analyze/Statistics/Counts.antt =====
-- What the statistics of a stream count.
use chrono_sift.Common.{◌≤◌, ◌≡◌, List, length, Bytes, inl, inr, ◌⊎◌, arith}
use chrono_sift.Core.Number.{u64_max}
use chrono_sift.Event.Severity.{Severity}
use chrono_sift.Event.Record.{LogEvent}
use chrono_sift.Event.Stream.{EventStream, count_timed, count_severe}
use chrono_sift.Analyze.Counter.{max_distinct_keys, Counter, no_counts, get, distinct}
use chrono_sift.Analyze.Counter.Weights.{add_all}
use chrono_sift.Analyze.Counter.Tally.{get-add_all}
use chrono_sift.Analyze.Statistics.{StreamStatistics, compute_statistics}
use chrono_sift.Analyze.Statistics.Given.{
  source_key, severity_key, host_key, app_key, signature_key, ip_key, user_key, class_key, Keyed,
  giving, given, weight_of-given, given-FitsU64, giving-length, count_events-AreGiven,
}

-- `get` gives the number of events that give a key, unless the counter is full without that key.
abbrev pub CountsKeys : Keyed → List LogEvent → Counter → Type 0
CountsKeys w es c =
    (k : Bytes) → (get c k ≡ giving w k es) ⊎ ((get c k ≡ 0) × (max_distinct_keys ≤ distinct c))

given-CountsKeys :
    (w : Keyed) (es : List LogEvent) (c : Counter)
    → length es ≤ u64_max
    → c ≡ add_all no_counts (given w es)
    → CountsKeys w es c
given-CountsKeys w es c h e k =
    let it = get-add_all (given w es) k (given-FitsU64 w es) in
    rw e (elim it.2 [
      | inl n ↦ inl (omega (arith, n, weight_of-given w k es, giving-length w k es, h))
      | inr full ↦ inr full
    ])

-- What statistics say of the events that they are of.
pub record IsCensus (stream : EventStream) (st : StreamStatistics) : Type 0 where
  pub total : st.total_events ≡ length stream.events
  pub earliest : st.earliest ≡ stream.earliest
  pub latest : st.latest ≡ stream.latest
  pub timed : st.timed_events ≡ count_timed stream.events
  pub errors : st.error_or_worse ≡ count_severe Severity.error stream.events
  pub source : CountsKeys source_key stream.events st.by_source
  pub severity : CountsKeys severity_key stream.events st.by_severity
  pub host : CountsKeys host_key stream.events st.by_host
  pub app : CountsKeys app_key stream.events st.by_app
  pub signed : CountsKeys signature_key stream.events st.by_signature
  pub ip : CountsKeys ip_key stream.events st.top_source_ips
  pub user : CountsKeys user_key stream.events st.top_users
  pub classes : CountsKeys class_key stream.events st.http_status_class

-- For a stream of at most 2^64 - 1 events, compute_statistics keeps the bounds of the stream, and
-- counts the events, those with a time and those at Error or above; and each of its eight counters
-- gives, for every key, the number of events that have that key (their source, severity, host, app,
-- signature, source address, user or class of HTTP status, of which an empty host, app, address, user
-- or class counts nowhere), unless it gives 0 and has 200000 keys or more.
pub compute_statistics-IsCensus :
    (stream : EventStream)
    → length stream.events ≤ u64_max
    → IsCensus stream (compute_statistics stream)
unfolding compute_statistics
compute_statistics-IsCensus stream h =
    let given_all = count_events-AreGiven _ stream.events in
    record {
      total = given_all.total;
      earliest = given_all.earliest;
      latest = given_all.latest;
      timed = omega (arith, given_all.timed);
      errors = omega (arith, given_all.errors);
      source = given-CountsKeys source_key stream.events _ h given_all.source;
      severity = given-CountsKeys severity_key stream.events _ h given_all.severity;
      host = given-CountsKeys host_key stream.events _ h given_all.host;
      app = given-CountsKeys app_key stream.events _ h given_all.app;
      signed = given-CountsKeys signature_key stream.events _ h given_all.signed;
      ip = given-CountsKeys ip_key stream.events _ h given_all.ip;
      user = given-CountsKeys user_key stream.events _ h given_all.user;
      classes = given-CountsKeys class_key stream.events _ h given_all.classes;
    }
