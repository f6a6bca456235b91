-- ===== src/Json/Scan/Examples.antt =====
-- The scanners at sample texts.
use chrono_sift.Common.{some, ◌≡◌, refl, codes, read, ◌++◌, ◌∷◌, []}
use chrono_sift.Core.Status.{success}
use chrono_sift.Json.Scan.{parse_string, default_limits, string_from, skip_ws}

skip_ws_sample : skip_ws (codes " \n\tx ") ≡ codes "x "
unfolding skip_ws
skip_ws_sample = refl

parse_string_sample :
    parse_string default_limits (codes "a\\u0041\\n\\ud83d\\ude00\",")
    ≡ some (success (read (codes "aA\n" ++ (0xf0 ∷ 0x9f ∷ 0x98 ∷ 0x80 ∷ [])) (codes ",")))
unfolding parse_string string_from chrono_sift.Json.Scan.string_piece
    chrono_sift.Json.Scan.read_hex4 chrono_sift.Json.Scan.unicode_escape
    chrono_sift.Json.Scan.low_surrogate
parse_string_sample = refl
