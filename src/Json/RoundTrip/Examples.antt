-- ===== src/Json/RoundTrip/Examples.antt =====
-- The round trip at a sample value.
use chrono_sift.Common.{eqb, codes, ◌≡◌, refl, some, arith, [], ◌∷◌}
use chrono_sift.Common.Int.{negsuc}
use chrono_sift.Core.Status.{success}
use chrono_sift.Json.Value.{JsonValue, item, no_items, member, no_members, render, depth, find_in}
use chrono_sift.Json.Limits.{IsWithin, nodes}
use chrono_sift.Json.Scan.{default_limits}
use chrono_sift.Json.Samples.{sample_floats}
use chrono_sift.Json.Parser.{parse}
use chrono_sift.Json.RoundTrip.Texts.{IsPlain}
use chrono_sift.Json.RoundTrip.Values.{parse-render}

abbrev sample : JsonValue
sample = JsonValue.object (
    member (codes "a\"")
      (JsonValue.array (item (JsonValue.int (negsuc 11)) (item JsonValue.null no_items)))
      (member (codes "b") (JsonValue.string (0x01 ∷ b'\\' ∷ 0xff ∷ [])) no_members))

sample-IsWithin : IsWithin default_limits sample
unfolding IsWithin find_in eqb
sample-IsWithin = (
  omega arith,
  (
    omega arith,
    refl,
    (omega arith, ((omega arith, omega arith), (tt, tt))),
    (omega arith, refl, omega arith, tt),
  ),
)

sample-IsPlain : IsPlain sample
unfolding IsPlain
sample-IsPlain = ((tt, (tt, tt)), (tt, tt))

parse-render_example :
    parse default_limits sample_floats (render sample_floats sample) ≡ some (success sample)
unfolding depth nodes
parse-render_example =
    parse-render default_limits sample_floats sample sample-IsWithin sample-IsPlain (omega arith)
      (omega arith)
