-- ===== src/Analyze/Timeline.antt =====
-- The histogram of a stream (include/analyze/timeline.hpp, src/analyze/timeline.cpp). `std::sort` is
-- the standard library's: an insertion sort. An i64 difference that overflows wraps around.
pub mod Totals
pub mod Peak
pub mod Render
mod Examples
use chrono_sift.Common.{
  ℕ, zero, suc, ◌+◌, ◌-◌, ◌*◌, ◌/◌, ◌^◌, Bool, true, false, not, ◌&&◌, ◌||◌, List, [], ◌∷◌, ◌++◌,
  Option, none, some, ltb, leb, ◌==◌, if◌then◌else◌, length, null, get_or, Bytes, codes,
}
use chrono_sift.Common.Int.{ℤ, pos, negsuc, pos_part, ◌+ℤ◌, ◌-ℤ◌, scale, tdiv, ltb_ℤ}
use chrono_sift.Core.Number.{i64_max, to_string, to_string_ℤ}
use chrono_sift.Core.Timestamp.{Timestamp, invalid, from_micros, to_iso8601}
use chrono_sift.Event.Severity.{Severity, at_least_as_severe}
use chrono_sift.Event.Record.{LogEvent}
use chrono_sift.Event.Stream.{EventStream}

-- `kMaxBuckets` and `kMaxGaps`
abbrev pub max_buckets : ℕ
max_buckets = 100000

abbrev pub max_gaps : ℕ
max_gaps = 4096

pub record TimelineBucket : Type 0 where
  pub start : Timestamp
  pub count : ℕ
  pub error_or_worse : ℕ

pub record TimelineGap : Type 0 where
  pub before_gap : Timestamp
  pub after_gap : Timestamp
  pub seconds : ℤ

pub record Timeline : Type 0 where
  pub bucket_width_seconds : ℤ
  pub buckets : List TimelineBucket
  pub gaps : List TimelineGap
  pub untimed_events : ℕ

pub record TimedSample : Type 0 where
  pub micros : ℤ
  pub error : Bool

-- `b > INT64_MAX` and `b < INT64_MIN`
abbrev too_high : ℤ → Bool
too_high z = ltb_ℤ (pos i64_max) z

abbrev too_low : ℤ → Bool
too_low z = ltb_ℤ z (negsuc i64_max)

unfoldable pub sat_add : ℤ → ℤ → ℤ
sat_add a b =
    let sum = a +ℤ b in
    if too_high sum then pos i64_max else if too_low sum then negsuc i64_max else sum

-- A difference in i64.
unfoldable pub sub_i64 : ℤ → ℤ → ℤ
sub_i64 a b =
    let d = a -ℤ b in
    if too_high d then d -ℤ pos (2 ^ 64) else if too_low d then d +ℤ pos (2 ^ 64) else d

-- The loop of `peak_bucket` over the buckets from `i` on, with the best one so far and its count.
unfoldable pub peak_from : ℕ → ℕ → ℕ → List TimelineBucket → ℕ
peak_from i best top [] = best
peak_from i best top (b ∷ bs) =
    let next = peak_from (i + 1) i b.count bs in
    let kept = peak_from (i + 1) best top bs in if ltb top b.count then next else kept

unfoldable pub peak_bucket : Timeline → ℕ
peak_bucket tl = elim tl.buckets [ [] ↦ 0 | b ∷ bs ↦ peak_from 1 0 b.count bs ]

-- The collection of the timed samples.
unfoldable pub samples_of : List LogEvent → List TimedSample
samples_of [] = []
samples_of (e ∷ es) =
    let later = samples_of es in
    if not e.timestamp.valid
    then later
    else record {
      micros = e.timestamp.micros;
      error = at_least_as_severe e.severity Severity.error;
    }
      ∷ later

unfoldable pub untimed_of : List LogEvent → ℕ
untimed_of [] = 0
untimed_of (e ∷ es) = (if not e.timestamp.valid then 1 else 0) + untimed_of es

unfoldable pub insert_sample : TimedSample → List TimedSample → List TimedSample
insert_sample s [] = s ∷ []
insert_sample s (t ∷ ts) = if ltb_ℤ t.micros s.micros then t ∷ insert_sample s ts else s ∷ t ∷ ts

unfoldable pub sort_samples : List TimedSample → List TimedSample
sort_samples [] = []
sort_samples (s ∷ ss) = insert_sample s (sort_samples ss)

-- Seconds in micros, at most INT64_MAX; `seconds` is at least 1 here.
unfoldable pub in_micros : ℤ → ℕ
in_micros seconds =
    if ltb_ℤ (pos (i64_max / 1000000)) seconds then i64_max else pos_part seconds * 1000000

-- What the pass over the samples reads: the first time, the width, and the threshold if gaps are
-- wanted.
pub record Settings : Type 0 where
  pub earliest_us : ℤ
  pub width_us : ℕ
  pub gap_us : Option ℕ

-- The bucket to push when there are `n`, and the loop that pushes, on fuel.
unfoldable pub new_bucket : Settings → ℕ → TimelineBucket
new_bucket c n = record {
  start = from_micros (
      sat_add c.earliest_us
        (pos (if ltb (i64_max / c.width_us) n then i64_max else n * c.width_us)));
  count = 0;
  error_or_worse = 0;
}

unfoldable pub grow : ℕ → Settings → ℕ → List TimelineBucket → List TimelineBucket
grow zero c index bs = bs
grow (suc fuel) c index bs =
    let more = grow fuel c index (bs ++ new_bucket c (length bs) ∷ []) in
    if leb (length bs) index && ltb (length bs) max_buckets then more else bs

-- `++b.count; if (s.error) ++b.error_or_worse;`
unfoldable pub bump : ℕ → Bool → List TimelineBucket → List TimelineBucket
bump target error [] = []
bump zero error (b ∷ bs) =
    record b { count = b.count + 1; error_or_worse = b.error_or_worse + (if error then 1 else 0) }
    ∷ bs
bump (suc target) error (b ∷ bs) = b ∷ bump target error bs

unfoldable pub bucket_index : Settings → TimedSample → ℕ
bucket_index c s =
    let delta = sub_i64 s.micros c.earliest_us in
    let i = (if ltb_ℤ delta (pos 0) then 0 else pos_part delta / c.width_us) in
    if ltb max_buckets i then max_buckets else i

-- The buckets after a sample. At least one is there once the loop has pushed.
unfoldable pub count_sample : Settings → TimedSample → List TimelineBucket → List TimelineBucket
count_sample c s bs =
    let index = bucket_index c s in
    let grown = grow (suc index) c index bs in
    bump (if ltb index (length grown) then index else length grown - 1) s.error grown

abbrev pub gap_between : ℤ → ℤ → TimelineGap
gap_between prev now = record {
  before_gap = from_micros prev;
  after_gap = from_micros now;
  seconds = tdiv (sub_i64 now prev) 1000000;
}

unfoldable pub add_gap : Settings → Option ℤ → ℤ → List TimelineGap → List TimelineGap
add_gap c none now gs = gs
add_gap c (some prev) now gs = elim c.gap_us [
  | none ↦ gs
  | some gap_us ↦
      if ltb (length gs) max_gaps
        && (not (ltb_ℤ (sub_i64 now prev) (pos 0)) && ltb_ℤ (pos gap_us) (sub_i64 now prev))
      then gs ++ gap_between prev now ∷ []
      else gs
]

-- The pass over the samples, behind `prev`.
unfoldable pub pass : Settings → Option ℤ → List TimedSample → Timeline → Timeline
pass c prev [] tl = tl
pass c prev (s ∷ ss) tl =
    pass c (some s.micros) ss
      (record tl { buckets = count_sample c s tl.buckets; gaps = add_gap c prev s.micros tl.gaps })

unfoldable pub pass_sorted : ℤ → ℤ → List TimedSample → Timeline → Timeline
pass_sorted width threshold [] tl = tl
pass_sorted width threshold (s ∷ ss) tl =
    pass
      (record {
        earliest_us = s.micros;
        width_us = if ltb (in_micros width) 1 then 1 else in_micros width;
        gap_us = if ltb_ℤ (pos 0) threshold then some (in_micros threshold) else none;
      })
      none (s ∷ ss) tl

unfoldable pub build_timeline : EventStream → ℤ → ℤ → Timeline
build_timeline stream bucket_width_seconds gap_threshold_seconds =
    let width = (if ltb_ℤ bucket_width_seconds (pos 1) then pos 1 else bucket_width_seconds) in
    pass_sorted width gap_threshold_seconds (sort_samples (samples_of stream.events)) (record {
      bucket_width_seconds = width;
      buckets = [];
      gaps = [];
      untimed_events = untimed_of stream.events;
    })

abbrev pub no_bucket : TimelineBucket
no_bucket = record { start = invalid; count = 0; error_or_worse = 0 }
