-- ===== src/Event/Record/Examples.antt =====
-- Two messages of one shape.
use chrono_sift.Common.{false, ◌≤◌, ◌≡◌, codes, length, Bytes, refl}
use chrono_sift.Core.Chars.{is_digit}
use chrono_sift.Event.Record.{message_shape}
use chrono_sift.Event.Record.Shape.{HasNoDigit, Alike, message_shape_lem}

abbrev short_message : Bytes
short_message = codes "p1"

abbrev long_message : Bytes
long_message = codes "p25"

alike : Alike false short_message long_message
unfolding is_digit
alike = Alike.same refl (Alike.run refl refl (Alike.right refl Alike.end))

message_shape_lem_example :
    HasNoDigit (message_shape short_message)
    × (length (message_shape short_message) ≤ 120)
    × (message_shape short_message ≡ message_shape long_message)
message_shape_lem_example = message_shape_lem short_message long_message alike
