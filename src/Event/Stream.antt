-- ===== src/Event/Stream.antt =====
-- `EventStream` (include/event/stream.hpp, src/event/stream.cpp). `std::stable_sort` is the standard
-- library's: a stable insertion sort.
pub mod Bounds
pub mod Sorted
mod Examples
use chrono_sift.Common.{
  ℕ, suc, ◌+◌, Bool, true, false, not, ◌||◌, List, [], ◌∷◌, ◌++◌, if◌then◌else◌, length, null,
}
use chrono_sift.Common.Int.{ltb_ℤ}
use chrono_sift.Core.Timestamp.{Timestamp, invalid, before}
use chrono_sift.Event.Severity.{Severity, at_least_as_severe}
use chrono_sift.Event.Record.{LogEvent}

pub record EventStream : Type 0 where
  pub events : List LogEvent
  pub earliest : Timestamp
  pub latest : Timestamp

-- `EventStream()`
abbrev pub empty_stream : EventStream
empty_stream = record { events = []; earliest = invalid; latest = invalid }

unfoldable pub first_of : Timestamp → Timestamp → Timestamp
first_of t earliest =
    if t.valid
    then (if not earliest.valid || ltb_ℤ t.micros earliest.micros then t else earliest)
    else earliest

unfoldable pub last_of : Timestamp → Timestamp → Timestamp
last_of t latest =
    if t.valid
    then (if not latest.valid || ltb_ℤ latest.micros t.micros then t else latest)
    else latest

unfoldable pub add : EventStream → LogEvent → EventStream
unfolding first_of last_of
add s e = record {
  events = s.events ++ e ∷ [];
  earliest = first_of e.timestamp s.earliest;
  latest = last_of e.timestamp s.latest;
}

unfoldable pub count_timed : List LogEvent → ℕ
count_timed [] = 0
count_timed (e ∷ es) = (if e.timestamp.valid then 1 else 0) + count_timed es

pub timed_count : EventStream → ℕ
unfolding count_timed
timed_count s = count_timed s.events

-- Into a sorted list, before the first event that is not earlier.
unfoldable pub insert : LogEvent → List LogEvent → List LogEvent
insert e [] = e ∷ []
insert e (f ∷ fs) = if before f.timestamp e.timestamp then f ∷ insert e fs else e ∷ f ∷ fs

unfoldable pub sort : List LogEvent → List LogEvent
unfolding insert
sort [] = []
sort (e ∷ es) = insert e (sort es)

unfoldable pub sort_by_time : EventStream → EventStream
sort_by_time s = record s { events = sort s.events }

unfoldable pub count_severe : Severity → List LogEvent → ℕ
count_severe level [] = 0
count_severe level (e ∷ es) =
    (if at_least_as_severe e.severity level then 1 else 0) + count_severe level es

abbrev pub count_at_least : EventStream → Severity → ℕ
count_at_least s level = count_severe level s.events
