-- ===== src/Analyze/Timeline/Examples.antt =====
-- Two timed events and one without a time.
use chrono_sift.Common.{arith, refl, ◌≡◌, ◌+◌, ◌≤◌, [], ◌∷◌, length}
use chrono_sift.Common.Int.{pos}
use chrono_sift.Core.Timestamp.{from_micros}
use chrono_sift.Event.Severity.{Severity}
use chrono_sift.Event.Record.{blank}
use chrono_sift.Event.Stream.{EventStream, empty_stream}
use chrono_sift.Analyze.Timeline.Peak.{IsPeak, peak_bucket-IsPeak}
use chrono_sift.Analyze.Timeline.{
  Timeline, peak_bucket, peak_from, max_buckets, max_gaps, build_timeline,
}
use chrono_sift.Analyze.Timeline.Totals.{count_total, error_total, severe_timed, build_timeline_lem}

abbrev stream : EventStream
stream = record empty_stream {
  events =
      record blank { timestamp = from_micros (pos 5000000); severity = Severity.alert }
      ∷ blank
      ∷ record blank { timestamp = from_micros (pos 1) }
      ∷ [];
}

build_timeline_lem_example :
    (count_total (build_timeline stream (pos 1) (pos 2)).buckets
        + (build_timeline stream (pos 1) (pos 2)).untimed_events
      ≡ length stream.events)
    × (error_total (build_timeline stream (pos 1) (pos 2)).buckets ≡ severe_timed stream.events)
    × (length (build_timeline stream (pos 1) (pos 2)).buckets ≤ max_buckets)
    × (length (build_timeline stream (pos 1) (pos 2)).gaps ≤ max_gaps)
build_timeline_lem_example = build_timeline_lem stream (pos 1) (pos 2)

-- A timeline of two buckets.
abbrev two_buckets : Timeline
two_buckets = record {
  bucket_width_seconds = pos 1;
  buckets =
      record { start = from_micros (pos 0); count = 1; error_or_worse = 0 }
      ∷ record { start = from_micros (pos 1000000); count = 3; error_or_worse = 1 }
      ∷ [];
  gaps = [];
  untimed_events = 0;
}

peak_bucket-IsPeak_example : IsPeak two_buckets.buckets (peak_bucket two_buckets)
peak_bucket-IsPeak_example = peak_bucket-IsPeak two_buckets (λ e. absurd (omega (arith, e)))

second_is_peak : peak_bucket two_buckets ≡ 1
unfolding peak_bucket peak_from
second_is_peak = refl
