-- ===== src/Event/Stream/Examples.antt =====
-- Three events, one without a time, two of one time.
use chrono_sift.Common.{◌≡◌, List, [], ◌∷◌, length, codes, refl}
use chrono_sift.Common.Int.{pos}
use chrono_sift.Core.Timestamp.{Timestamp, from_micros, before}
use chrono_sift.Event.Record.{LogEvent, blank}
use chrono_sift.Event.Stream.{EventStream, empty_stream, sort_by_time, sort}
use chrono_sift.Event.Stream.Bounds.{add_all, IsBounded, add_all_lem}
use chrono_sift.Event.Stream.Sorted.{IsSorted, at_time, sort_by_time_lem}

abbrev first_event : LogEvent
first_event = record blank { timestamp = from_micros (pos 20); host = codes "a" }

abbrev second_event : LogEvent
second_event = record blank { timestamp = from_micros (pos 10); host = codes "b" }

abbrev events : List LogEvent
events = first_event ∷ second_event ∷ blank ∷ []

abbrev filled : EventStream
filled = record { events = events; earliest = from_micros (pos 10); latest = from_micros (pos 20) }

add_all_lem_example :
    ((add_all empty_stream events).events ≡ events) × IsBounded (add_all empty_stream events)
add_all_lem_example = add_all_lem events

sort_by_time_lem_example :
    IsSorted (sort_by_time filled).events
    × ((t : Timestamp) → at_time t (sort_by_time filled).events ≡ at_time t filled.events)
    × (length (sort_by_time filled).events ≡ length filled.events)
    × ((sort_by_time filled).earliest ≡ filled.earliest)
    × ((sort_by_time filled).latest ≡ filled.latest)
sort_by_time_lem_example = sort_by_time_lem filled

in_order : sort events ≡ blank ∷ second_event ∷ first_event ∷ []
unfolding sort before
in_order = refl
