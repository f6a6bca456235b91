-- ===== src/Analyze/Timeline/Render.antt =====
-- `Timeline::render` (src/analyze/timeline.cpp).
use chrono_sift.Common.{
  ℕ, zero, suc, not, List, [], ◌∷◌, ◌++◌, ltb, if◌then◌else◌, length, null, get_or, Bytes, codes,
}
use chrono_sift.Core.Number.{to_string, to_string_ℤ}
use chrono_sift.Core.Timestamp.{to_iso8601}
use chrono_sift.Analyze.Timeline.{Timeline, TimelineBucket, TimelineGap, no_bucket, peak_bucket}

-- The two listings of `render`, with `n` rows still to be shown.
unfoldable pub bucket_rows : ℕ → List TimelineBucket → Bytes
bucket_rows n [] = []
bucket_rows zero (b ∷ bs) =
    codes "    ... (" ++ (to_string (length (b ∷ bs)) ++ codes " more buckets)\n")
bucket_rows (suc n) (b ∷ bs) =
    codes "    "
    ++ (to_iso8601 b.start
        ++ (codes "  count="
            ++ (to_string b.count
                ++ (codes "  err=" ++ (to_string b.error_or_worse ++ (b'\n' ∷ bucket_rows n bs))))))

unfoldable pub gap_rows : ℕ → List TimelineGap → Bytes
gap_rows n [] = []
gap_rows zero (g ∷ gs) = codes "    ... (" ++ (to_string (length (g ∷ gs)) ++ codes " more gaps)\n")
gap_rows (suc n) (g ∷ gs) =
    codes "    "
    ++ (to_iso8601 g.before_gap
        ++ (codes "  ->  "
            ++ (to_iso8601 g.after_gap
                ++ (codes "   (" ++ (to_string_ℤ g.seconds ++ (codes "s)\n" ++ gap_rows n gs))))))

abbrev header_line : Bytes → Bytes → Bytes
header_line label value = label ++ (value ++ b'\n' ∷ [])

abbrev peak_line : Timeline → Bytes
peak_line tl =
    let peak = peak_bucket tl in
    let b = get_or tl.buckets peak no_bucket in
    if ltb peak (length tl.buckets)
    then codes "Peak bucket:            "
      ++ (to_iso8601 b.start ++ (codes "  (" ++ (to_string b.count ++ codes " events)\n")))
    else []

-- `Timeline::render`
unfoldable pub render : Timeline → Bytes
render tl =
    header_line (codes "Bucket width (seconds): ") (to_string_ℤ tl.bucket_width_seconds)
    ++ (header_line (codes "Buckets:                ") (to_string (length tl.buckets))
        ++ (header_line (codes "Untimed events:         ") (to_string tl.untimed_events)
            ++ (header_line (codes "Gaps recorded:          ") (to_string (length tl.gaps))
                ++ (peak_line tl
                    ++ (b'\n'
                        ∷ ((if null tl.buckets
                              then codes "(no timed events)\n"
                              else codes "Histogram:\n" ++ bucket_rows 200 tl.buckets)
                            ++ (if not (null tl.gaps)
                                then codes "\nGaps (> threshold):\n" ++ gap_rows 200 tl.gaps
                                else [])))))))
