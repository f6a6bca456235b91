-- ===== src/Cef/Events/Examples.antt =====
-- The CEF parser at a sample record.
use chrono_sift.Core.Diagnostics.Capped.{emit_all}
use chrono_sift.Common.{◌≡◌, ◌∷◌, [], codes, some, refl, arith, true, Bytes}
use chrono_sift.Core.Status.{success}
use chrono_sift.Core.Diagnostics.{default_sink}
use chrono_sift.Core.Chars.{is_alnum, is_alpha, is_digit}
use chrono_sift.Cef.Record.{CefRecord, default_options}
use chrono_sift.Cef.Extensions.{is_key_char}
use chrono_sift.Cef.Events.{parse_line, Parsing, parse_stream}
use chrono_sift.Cef.Events.RoundTrip.{cef_text, IsWritable, parse_line-cef_text}
use chrono_sift.Cef.Events.Lines.{parse_stream-AreEventsOf, AreEventsOf, failures, lines_of}

abbrev login : CefRecord
login = record {
  valid = true;
  version = 1;
  device_vendor = codes "Ven|dor";
  device_product = codes "Product";
  device_version = codes "1.0";
  signature_id = codes "100";
  name = codes "Login failed";
  severity = codes "5";
  extensions =
      record { key = codes "src"; value = codes "10.0.0.1" }
      ∷ record { key = codes "msg"; value = codes "a=b c" }
      ∷ [];
}

login-IsWritable : IsWritable default_options login
unfolding is_key_char is_alnum is_alpha is_digit
login-IsWritable = record {
  is_valid = refl;
  version_fits = omega arith;
  fields_fit =
      (omega arith, (omega arith, (omega arith, (omega arith, (omega arith, (omega arith, tt))))));
  extensions_fit = omega arith;
  extensions_few = omega arith;
  extensions_named = (
    (
      record {
        key_chars = (refl, (refl, (refl, tt)));
        key_short = omega arith;
        value_short = omega arith;
      },
      omega arith,
    ),
    (
      (
        record {
          key_chars = (refl, (refl, (refl, tt)));
          key_short = omega arith;
          value_short = omega arith;
        },
        omega arith,
      ),
      tt,
    ),
  );
}

parse_line-cef_text_example : parse_line default_options (cef_text login) ≡ some (success login)
parse_line-cef_text_example = parse_line-cef_text default_options login login-IsWritable

abbrev two_lines : Bytes
two_lines = codes "CEF:0|a|b|c|1|n|3|src=1\n\nnoise"

parse_stream-AreEventsOf_example :
    (p : Parsing) × (parse_stream default_options two_lines default_sink ≡ some p)
    × AreEventsOf default_options 0 (lines_of two_lines) p.stream.events
    × (p.diags ≡ emit_all default_sink (failures default_options 0 (lines_of two_lines)))
parse_stream-AreEventsOf_example = parse_stream-AreEventsOf default_options two_lines default_sink
