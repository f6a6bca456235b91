-- ===== src/Json/Mapper/Examples.antt =====
-- The mapping at sample lines.
use chrono_sift.Core.Diagnostics.Capped.{emit_all}
use chrono_sift.Common.{Bytes, some, ◌≡◌, codes}
use chrono_sift.Common.Int.{pos}
use chrono_sift.Core.Text.{split_lines}
use chrono_sift.Core.Diagnostics.{default_sink}
use chrono_sift.Json.Samples.{sample_floats}
use chrono_sift.Json.Scan.{default_limits}
use chrono_sift.Json.Mapper.{Parsing, parse_stream}
use chrono_sift.Json.Mapper.Lines.{parse_stream_lem, AreEventsOf, kept, failures}

abbrev sample_lines : Bytes
sample_lines = codes "{\"level\":3,\"msg\":\"x\"}\n  \nnot json\n"

parse_stream_lem_example :
    (p : Parsing) × (parse_stream default_limits sample_floats sample_lines default_sink (pos 1970)
      ≡ some p)
    × AreEventsOf default_limits sample_floats
        (pos 1970)
        0
        (kept (split_lines sample_lines))
        p.stream.events
    × (p.diags
        ≡ emit_all default_sink
            (failures default_limits sample_floats (pos 1970) 0 (split_lines sample_lines)))
parse_stream_lem_example =
    parse_stream_lem default_limits sample_floats sample_lines default_sink (pos 1970)
