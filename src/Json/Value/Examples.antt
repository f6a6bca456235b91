-- ===== src/Json/Value/Examples.antt =====
-- The rendering at sample values.
use chrono_sift.Common.{codes, ◌≡◌, refl}
use chrono_sift.Common.Int.{pos}
use chrono_sift.Json.Samples.{sample_floats}
use chrono_sift.Json.Value.{JsonValue, render, item, no_items, member, no_members}

abbrev sample_value : JsonValue
sample_value = JsonValue.object (
    member (codes "a")
      (JsonValue.array (item (JsonValue.int (pos 3)) (item JsonValue.null no_items)))
      (member (codes "b") (JsonValue.string (codes "x\n")) no_members))

render_sample : render sample_floats sample_value ≡ codes "{\"a\":[3,null],\"b\":\"x\\n\"}"
unfolding render chrono_sift.Core.Number.to_string_ℤ chrono_sift.Core.Number.to_string
    chrono_sift.Core.Number.decimal_onto
render_sample = refl
