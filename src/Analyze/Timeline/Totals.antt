-- ===== src/Analyze/Timeline/Totals.antt =====
-- Every event is counted once, within the caps.
use chrono_sift.Common.{
  ℕ, zero, suc, ◌+◌, ◌-◌, ◌≤◌, ◌<◌, ◌≡◌, Bool, false, ◌&&◌, List, [], ◌∷◌, ◌++◌, Option, none, some,
  ltb, leb, if◌then◌else◌, length, arith, refl, ◌∙◌, inl, inr, Bool-cases, length-append,
}
use chrono_sift.Common.Int.{ℤ, ltb_ℤ, pos}
use chrono_sift.Event.Severity.{Severity, at_least_as_severe}
use chrono_sift.Event.Record.{LogEvent}
use chrono_sift.Event.Stream.{EventStream}
use chrono_sift.Analyze.Timeline.{
  gap_between, max_buckets, max_gaps, TimelineBucket, TimelineGap, Timeline, TimedSample, Settings,
  new_bucket, grow, bump, count_sample, add_gap, pass, pass_sorted, samples_of, untimed_of,
  insert_sample, sort_samples, build_timeline, bucket_index,
}

abbrev pub count_total : List TimelineBucket → ℕ
count_total [] = 0
count_total (b ∷ bs) = b.count + count_total bs

abbrev pub error_total : List TimelineBucket → ℕ
error_total [] = 0
error_total (b ∷ bs) = b.error_or_worse + error_total bs

abbrev one_if : Bool → ℕ
one_if b = if b then 1 else 0

bump-totals :
    (target : ℕ) (error : Bool) (bs : List TimelineBucket)
    → target < length bs
    → (count_total (bump target error bs) ≡ count_total bs + 1)
      × (error_total (bump target error bs) ≡ error_total bs + one_if error)
      × (length (bump target error bs) ≡ length bs)
unfolding bump
bump-totals target error [] h = absurd (omega arith)
bump-totals zero error (b ∷ bs) h = (omega arith, omega arith, refl)
bump-totals (suc target) error (b ∷ bs) h =
    let later = bump-totals target error bs (omega arith) in
    (omega (arith, later.0), omega (arith, later.1), omega (arith, later.2))

totals-push :
    (bs : List TimelineBucket) (c : Settings) (n : ℕ)
    → (count_total (bs ++ new_bucket c n ∷ []) ≡ count_total bs)
      × (error_total (bs ++ new_bucket c n ∷ []) ≡ error_total bs)
unfolding new_bucket
totals-push [] c n = (omega arith, omega arith)
totals-push (b ∷ bs) c n =
    let later = totals-push bs c n in (omega (arith, later.0), omega (arith, later.1))

-- The loop that pushes has ended, within the cap, and has changed no count.
record IsGrown (index : ℕ) (bs grown : List TimelineBucket) : Type 0 where
  counts : count_total grown ≡ count_total bs
  errors : error_total grown ≡ error_total bs
  longer : length bs ≤ length grown
  capped : length grown ≤ max_buckets
  ended : (leb (length grown) index && ltb (length grown) max_buckets) ≡ false

grow-IsGrown :
    (fuel : ℕ) (c : Settings) (index : ℕ) (bs : List TimelineBucket)
    → length bs ≤ max_buckets
    → index < fuel + length bs
    → IsGrown index bs (grow fuel c index bs)
unfolding grow
grow-IsGrown zero c index bs h k = record {
  counts = refl;
  errors = refl;
  longer = omega arith;
  capped = h;
  ended = ground (arith, k);
}
grow-IsGrown (suc fuel) c index bs h k =
    elim (Bool-cases (leb (length bs) index && ltb (length bs) max_buckets)) [
      | inr q ↦
          rw q
            (record { counts = refl; errors = refl; longer = omega arith; capped = h; ended = q })
      | inl p ↦
          let len = length-append {0} bs (new_bucket c (length bs) ∷ []) in
          let pushed = totals-push bs c (length bs) in
          let small : length bs < max_buckets = ground (arith, p) in
          let more =
            grow-IsGrown fuel c index (bs ++ new_bucket c (length bs) ∷ [])
              (omega (arith, len, small)) (omega (arith, len, k)) in
          rw p (record {
            counts = more.counts ∙ pushed.0;
            errors = more.errors ∙ pushed.1;
            longer = omega (arith, more.longer, len);
            capped = more.capped;
            ended = more.ended;
          })
    ]

target_within :
    (index n : ℕ)
    → n ≤ max_buckets
    → (leb n index && ltb n max_buckets) ≡ false
    → (if ltb index n then index else n - 1) < n
target_within index n h e = ground (arith, e)

-- What a sample does to the buckets.
record IsCounted (error : Bool) (bs now : List TimelineBucket) : Type 0 where
  counts : count_total now ≡ count_total bs + 1
  errors : error_total now ≡ error_total bs + one_if error
  capped : length now ≤ max_buckets

count_sample-IsCounted :
    (c : Settings) (s : TimedSample) (bs : List TimelineBucket)
    → length bs ≤ max_buckets
    → IsCounted s.error bs (count_sample c s bs)
unfolding count_sample
count_sample-IsCounted c s bs h =
    let index = bucket_index c s in
    let grown = grow (suc index) c index bs in
    let g = grow-IsGrown (suc index) c index bs h (omega arith) in
    let target = if ltb index (length grown) then index else length grown - 1 in
    let b =
      bump-totals target s.error grown (target_within index (length grown) g.capped g.ended) in
    record {
      counts = omega (arith, b.0, g.counts);
      errors = omega (arith, b.1, g.errors);
      capped = omega (arith, b.2, g.capped);
    }

add_gap-capped :
    (c : Settings) (prev : Option ℤ) (now : ℤ) (gs : List TimelineGap)
    → length gs ≤ max_gaps
    → length (add_gap c prev now gs) ≤ max_gaps
unfolding add_gap
add_gap-capped c none now gs h = h
add_gap-capped c (some prev) now gs h =
    ground (arith, length-append {0} gs (gap_between prev now ∷ []))

abbrev errors_in : List TimedSample → ℕ
errors_in [] = 0
errors_in (s ∷ ss) = one_if s.error + errors_in ss

-- What the pass over samples does.
record IsPassed (ss : List TimedSample) (tl now : Timeline) : Type 0 where
  counts : count_total now.buckets ≡ count_total tl.buckets + length ss
  errors : error_total now.buckets ≡ error_total tl.buckets + errors_in ss
  few_buckets : length now.buckets ≤ max_buckets
  few_gaps : length now.gaps ≤ max_gaps
  untimed : now.untimed_events ≡ tl.untimed_events

pass-IsPassed :
    (c : Settings) (prev : Option ℤ) (ss : List TimedSample) (tl : Timeline)
    → length tl.buckets ≤ max_buckets
    → length tl.gaps ≤ max_gaps
    → IsPassed ss tl (pass c prev ss tl)
unfolding pass
pass-IsPassed c prev [] tl h k = record {
  counts = omega arith;
  errors = omega arith;
  few_buckets = h;
  few_gaps = k;
  untimed = refl;
}
pass-IsPassed c prev (s ∷ ss) tl h k =
    let one = count_sample-IsCounted c s tl.buckets h in
    let next : Timeline = record tl {
      buckets = count_sample c s tl.buckets;
      gaps = add_gap c prev s.micros tl.gaps;
    } in
    let more =
      pass-IsPassed c (some s.micros) ss next one.capped
        (add_gap-capped c prev s.micros tl.gaps k) in
    record {
      counts = omega (arith, more.counts, one.counts);
      errors = omega (arith, more.errors, one.errors);
      few_buckets = more.few_buckets;
      few_gaps = more.few_gaps;
      untimed = more.untimed;
    }

pass_sorted-IsPassed :
    (width threshold : ℤ) (ss : List TimedSample) (tl : Timeline)
    → length tl.buckets ≤ max_buckets
    → length tl.gaps ≤ max_gaps
    → IsPassed ss tl (pass_sorted width threshold ss tl)
unfolding pass_sorted
pass_sorted-IsPassed width threshold [] tl h k = record {
  counts = omega arith;
  errors = omega arith;
  few_buckets = h;
  few_gaps = k;
  untimed = refl;
}
pass_sorted-IsPassed width threshold (s ∷ ss) tl h k = pass-IsPassed _ none (s ∷ ss) tl h k

insert_sample-totals :
    (s : TimedSample) (ts : List TimedSample)
    → (length (insert_sample s ts) ≡ suc (length ts))
      × (errors_in (insert_sample s ts) ≡ one_if s.error + errors_in ts)
unfolding insert_sample
insert_sample-totals s [] = (refl, refl)
insert_sample-totals s (t ∷ ts) =
    let later = insert_sample-totals s ts in
    elim (Bool-cases (ltb_ℤ t.micros s.micros)) [
      | inl p ↦ rw p (omega (arith, later.0), omega (arith, later.1))
      | inr q ↦ rw q (refl, refl)
    ]

sort_samples-totals :
    (ss : List TimedSample)
    → (length (sort_samples ss) ≡ length ss) × (errors_in (sort_samples ss) ≡ errors_in ss)
unfolding sort_samples
sort_samples-totals [] = (refl, refl)
sort_samples-totals (s ∷ ss) =
    let later = sort_samples-totals ss in
    let here = insert_sample-totals s (sort_samples ss) in
    (omega (arith, later.0, here.0), omega (arith, later.1, here.1))

-- The events with a time that are errors or worse.
abbrev pub severe_timed : List LogEvent → ℕ
severe_timed [] = 0
severe_timed (e ∷ es) =
    (if e.timestamp.valid && at_least_as_severe e.severity Severity.error then 1 else 0)
    + severe_timed es

samples_of-totals :
    (es : List LogEvent)
    → (length (samples_of es) + untimed_of es ≡ length es)
      × (errors_in (samples_of es) ≡ severe_timed es)
unfolding samples_of untimed_of
samples_of-totals [] = (omega arith, refl)
samples_of-totals (e ∷ es) =
    let later = samples_of-totals es in
    elim (Bool-cases e.timestamp.valid) [
      | inl p ↦ rw p (omega (arith, later.0), omega (arith, later.1))
      | inr q ↦ rw q (omega (arith, later.0), omega (arith, later.1))
    ]

-- Whatever the width and the threshold, a timeline counts each event once, in a bucket or as untimed,
-- and each event with a time that is an error or worse once among the errors; and it has at most
-- 100000 buckets and 4096 gaps.
pub build_timeline_lem :
    (stream : EventStream) (width threshold : ℤ)
    → (count_total (build_timeline stream width threshold).buckets
          + (build_timeline stream width threshold).untimed_events
        ≡ length stream.events)
      × (error_total (build_timeline stream width threshold).buckets ≡ severe_timed stream.events)
      × (length (build_timeline stream width threshold).buckets ≤ max_buckets)
      × (length (build_timeline stream width threshold).gaps ≤ max_gaps)
unfolding build_timeline
build_timeline_lem stream width threshold =
    let samples = samples_of-totals stream.events in
    let sorted = sort_samples-totals (samples_of stream.events) in
    let passed =
      pass_sorted-IsPassed _ threshold (sort_samples (samples_of stream.events))
        (record {
          bucket_width_seconds = if ltb_ℤ width (pos 1) then pos 1 else width;
          buckets = [];
          gaps = [];
          untimed_events = untimed_of stream.events;
        })
        (omega arith) (omega arith) in
    (
      omega (arith, passed.counts, passed.untimed, samples.0, sorted.0),
      omega (arith, passed.errors, samples.1, sorted.1),
      passed.few_buckets,
      passed.few_gaps,
    )
