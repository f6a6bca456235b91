-- ===== src/Serialize/Writer/Examples.antt =====
-- JSON lines at a sample event.
use chrono_sift.Common.{true, ◌≡◌, ◌∷◌, [], codes, refl, some, arith, ℕ, Bytes}
use chrono_sift.Common.Int.{pos}
use chrono_sift.Core.Status.{success}
use chrono_sift.Event.Severity.{severity_name}
use chrono_sift.Event.Fields.{FieldValue, value_string}
use chrono_sift.Event.Record.{LogEvent, blank, source_format_name}
use chrono_sift.Json.Value.{Floats, render, quoted_body, find_in, depth}
use chrono_sift.Json.Limits.{IsWithin, nodes}
use chrono_sift.Json.Scan.{default_limits}
use chrono_sift.Json.Parser.{parse}
use chrono_sift.Serialize.Writer.{json_escape, event_to_json}
use chrono_sift.Serialize.Writer.Objects.{
  EventFits, event_object, json_escape-quoted_body, event_to_json-render,
}
use chrono_sift.Serialize.Writer.Parsed.{parse-event_to_json}

json_escape-quoted_body_example : json_escape (0x07 ∷ b'"' ∷ []) ≡ quoted_body (0x07 ∷ b'"' ∷ [])
json_escape-quoted_body_example = json_escape-quoted_body (0x07 ∷ b'"' ∷ [])

-- A stand-in for the floating-point operations.
abbrev no_floats : Floats
no_floats = record {
  strtod = λ s. some 0;
  format_17g = λ d. codes "0";
  of_i64 = λ i. 0;
  trunc_i64 = λ d. pos 0;
  mul = λ a b. 0;
  le = λ a b. true;
}

abbrev format_zero : ℕ → Bytes
format_zero d = codes "0"

abbrev sample_event : LogEvent
sample_event = record blank {
  record_index = 7;
  host = codes "web-1";
  message = codes "a\"b";
  fields = record { key = codes "k"; value = FieldValue.text (codes "v") } ∷ [];
}

sample_event-EventFits : EventFits default_limits format_zero sample_event
unfolding IsWithin find_in severity_name source_format_name value_string
sample_event-EventFits = (
  tt,
  (
    omega arith,
    (
      omega arith,
      (
        (omega arith, omega arith),
        (
          omega arith,
          (
            tt,
            (
              tt,
              (
                tt,
                (
                  tt,
                  (
                    tt,
                    (
                      tt,
                      (
                        tt,
                        (
                          tt,
                          (
                            tt,
                            (
                              tt,
                              (
                                tt,
                                (
                                  tt,
                                  (
                                    tt,
                                    (
                                      tt,
                                      (
                                        omega arith,
                                        ((omega arith, (omega arith, refl, omega arith, tt)), tt),
                                      ),
                                    ),
                                  ),
                                ),
                              ),
                            ),
                          ),
                        ),
                      ),
                    ),
                  ),
                ),
              ),
            ),
          ),
        ),
      ),
    ),
  ),
)

event_to_json-render_example :
    event_to_json format_zero sample_event
    ≡ render no_floats (event_object format_zero sample_event)
event_to_json-render_example =
    event_to_json-render no_floats default_limits format_zero sample_event sample_event-EventFits

parse-event_to_json_example :
    parse default_limits no_floats (event_to_json format_zero sample_event)
    ≡ some (success (event_object format_zero sample_event))
unfolding depth nodes
parse-event_to_json_example =
    parse-event_to_json default_limits no_floats format_zero sample_event sample_event-EventFits
      (omega arith) (omega arith) (omega arith) (omega arith)
