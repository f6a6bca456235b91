-- ===== src/Json/Parser/Examples.antt =====
-- The parser at sample texts.
use chrono_sift.Common.{Bytes, some, ◌≡◌, refl, codes}
use chrono_sift.Core.Status.{Result}
use chrono_sift.Json.Value.{JsonValue}
use chrono_sift.Json.Samples.{sample_floats}
use chrono_sift.Json.Scan.{default_limits, malformed, skip_ws}
use chrono_sift.Json.Parser.{parse, parse_value, value_at, parse_array, finish}
use chrono_sift.Json.Parser.Total.{parse_lem, IsJsonOutcome}

parse_sample :
    parse default_limits sample_floats (codes "[]]")
    ≡ some (malformed (codes "trailing data after JSON value"))
unfolding parse skip_ws parse_value value_at parse_array finish
parse_sample = refl

abbrev deep_text : Bytes
deep_text = codes "[[1, {\"a\" : 2.5e3}], \"x\\n\"]"

parse_lem_example :
    (r : Result JsonValue) × (parse default_limits sample_floats deep_text ≡ some r)
    × IsJsonOutcome default_limits r
parse_lem_example = parse_lem default_limits sample_floats deep_text
