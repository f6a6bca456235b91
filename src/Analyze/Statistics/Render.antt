-- ===== src/Analyze/Statistics/Render.antt =====
-- `StreamStatistics::render` (src/analyze/statistics.cpp).
use chrono_sift.Common.{ℕ, ◌-◌, List, [], ◌∷◌, ◌++◌, leb, if◌then◌else◌, null, Bytes, codes}
use chrono_sift.Core.Text.{truncate, sanitize_printable}
use chrono_sift.Core.Number.{to_string, to_string_ℤ}
use chrono_sift.Core.Timestamp.{to_iso8601}
use chrono_sift.Analyze.Counter.{Counter, Count, distinct, top}
use chrono_sift.Analyze.Statistics.{StreamStatistics, span_seconds}

unfoldable pub count_rows : List Count → Bytes
count_rows [] = []
count_rows (r ∷ rs) =
    codes "    "
    ++ (truncate (sanitize_printable r.key) 100
        ++ (codes "  " ++ (to_string r.count ++ (b'\n' ∷ count_rows rs))))

unfoldable pub render_counter : Bytes → Counter → ℕ → Bytes
render_counter title c limit =
    let rows = top c limit in
    title
    ++ (codes " ("
        ++ (to_string (distinct c)
            ++ (codes " distinct, "
                ++ (to_string c.total
                    ++ (codes " total):\n"
                        ++ (if null rows then codes "    (none)\n" else count_rows rows))))))

-- A line of a label and its value.
abbrev row : Bytes → Bytes → Bytes
row label value = label ++ (value ++ b'\n' ∷ [])

-- A counter's ten first, and an empty line.
abbrev block : Bytes → Counter → Bytes
block title c = render_counter title c 10 ++ b'\n' ∷ []

-- `render`
unfoldable pub render : StreamStatistics → Bytes
render st =
    row (codes "Total events:       ") (to_string st.total_events)
    ++ (row (codes "Timed events:       ") (to_string st.timed_events)
        ++ (row (codes "Untimed events:     ") (
              to_string (
                if leb st.timed_events st.total_events
                then st.total_events - st.timed_events
                else 0))
            ++ (row (codes "Error or worse:     ") (to_string st.error_or_worse)
                ++ (row (codes "Earliest:           ") (to_iso8601 st.earliest)
                    ++ (row (codes "Latest:             ") (to_iso8601 st.latest)
                        ++ (row (codes "Span (seconds):     ") (to_string_ℤ (span_seconds st))
                            ++ (b'\n'
                                ∷ (block (codes "By source format") st.by_source
                                    ++ (block (codes "By severity") st.by_severity
                                        ++ (block (codes "By host") st.by_host
                                            ++ (block (codes "By app") st.by_app
                                                ++ (block (codes "Top source IPs") st.top_source_ips
                                                    ++ (block (codes "Top users") st.top_users
                                                        ++ (block (codes "HTTP status classes")
                                                            st.http_status_class
                                                            ++ render_counter
                                                            (codes "Top signatures") st.by_signature
                                                            10))))))))))))))
