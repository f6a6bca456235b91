-- ===== src/Analyze/Statistics.antt =====
-- `StreamStatistics` (include/analyze/statistics.hpp, src/analyze/statistics.cpp).
pub mod Given
pub mod Counts
pub mod Render
mod Examples
use chrono_sift.Common.{
  ℕ, ◌+◌, ◌<◌, Bool, true, false, not, ◌&&◌, ◌||◌, List, [], ◌∷◌, Option, none, some, ltb, leb,
  ◌==◌, if◌then◌else◌, length, null, Bytes, codes,
}
use chrono_sift.Common.Int.{ℤ, pos, ltb_ℤ, tdiv}
use chrono_sift.Core.Timestamp.{Timestamp, invalid}
use chrono_sift.Event.Severity.{Severity, severity_name, at_least_as_severe}
use chrono_sift.Event.Record.{LogEvent, source_format_name, signature}
use chrono_sift.Event.Stream.{EventStream}
use chrono_sift.Analyze.Timeline.{sub_i64}
use chrono_sift.Analyze.Counter.{Counter, no_counts, add}

pub record StreamStatistics : Type 0 where
  pub total_events : ℕ
  pub timed_events : ℕ
  pub earliest : Timestamp
  pub latest : Timestamp
  pub by_source : Counter
  pub by_severity : Counter
  pub by_host : Counter
  pub by_app : Counter
  pub by_signature : Counter
  pub top_source_ips : Counter
  pub top_users : Counter
  pub http_status_class : Counter
  pub error_or_worse : ℕ

-- `span_seconds`
unfoldable pub span_seconds : StreamStatistics → ℤ
span_seconds st =
    let d = sub_i64 st.latest.micros st.earliest.micros in
    if ltb st.timed_events 2
    then pos 0
    else if not st.earliest.valid || not st.latest.valid
    then pos 0
    else if ltb_ℤ st.latest.micros st.earliest.micros
    then pos 0
    else if ltb_ℤ d (pos 0)
    then pos 0
    else tdiv d 1000000

unfoldable pub http_status_class_name : ℕ → Bytes
http_status_class_name status =
    if leb 100 status && ltb status 200
    then codes "1xx"
    else if leb 200 status && ltb status 300
    then codes "2xx"
    else if leb 300 status && ltb status 400
    then codes "3xx"
    else if leb 400 status && ltb status 500
    then codes "4xx"
    else if leb 500 status && ltb status 600
    then codes "5xx"
    else []

-- `if (!key.empty()) c.add(key);`
abbrev pub add_set : Counter → Bytes → Counter
add_set c key = if not (null key) then add c key 1 else c

-- The status counts when it is not 0 and has a class.
abbrev pub add_class : Counter → ℕ → Counter
add_class c status =
    let cls = http_status_class_name status in
    if not (status == 0) then (if not (null cls) then add c cls 1 else c) else c

-- The body of the loop of `compute_statistics`.
unfoldable pub count_event : StreamStatistics → LogEvent → StreamStatistics
count_event st e = record st {
  timed_events = if e.timestamp.valid then st.timed_events + 1 else st.timed_events;
  by_source = add st.by_source (source_format_name e.source) 1;
  by_severity = add st.by_severity (severity_name e.severity) 1;
  by_host = add_set st.by_host e.host;
  by_app = add_set st.by_app e.app;
  by_signature = add st.by_signature (signature e) 1;
  top_source_ips = add_set st.top_source_ips e.src_ip;
  top_users = add_set st.top_users e.user;
  http_status_class = add_class st.http_status_class e.http_status;
  error_or_worse =
      if at_least_as_severe e.severity Severity.error
      then st.error_or_worse + 1
      else st.error_or_worse;
}

unfoldable pub count_events : StreamStatistics → List LogEvent → StreamStatistics
count_events st [] = st
count_events st (e ∷ es) = count_events (count_event st e) es

unfoldable pub compute_statistics : EventStream → StreamStatistics
compute_statistics stream =
    count_events
      (record {
        total_events = length stream.events;
        timed_events = 0;
        earliest = stream.earliest;
        latest = stream.latest;
        by_source = no_counts;
        by_severity = no_counts;
        by_host = no_counts;
        by_app = no_counts;
        by_signature = no_counts;
        top_source_ips = no_counts;
        top_users = no_counts;
        http_status_class = no_counts;
        error_or_worse = 0;
      })
      stream.events
