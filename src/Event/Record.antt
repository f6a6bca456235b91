-- ===== src/Event/Record.antt =====
-- `LogEvent` (include/event/event.hpp, src/event/event.cpp).
pub mod Shape
mod Examples
use chrono_sift.Common.{
  ℕ, zero, suc, ◌+◌, Bool, true, false, not, List, [], ◌∷◌, ◌++◌, ltb, leb, ◌==◌, if◌then◌else◌,
  Bytes, codes, length, null,
}
use chrono_sift.Common.Int.{ℤ, negsuc}
use chrono_sift.Core.Chars.{is_digit}
use chrono_sift.Core.Text.{truncate, sanitize_printable}
use chrono_sift.Core.Number.{to_string}
use chrono_sift.Core.Timestamp.{Timestamp, invalid, to_iso8601}
use chrono_sift.Event.Severity.{Severity, severity_name}
use chrono_sift.Event.Fields.{FieldMap}

pub data SourceFormat : Type 0 where
  unknown syslog json web_access win_event : SourceFormat

unfoldable pub source_format_name : SourceFormat → Bytes
source_format_name SourceFormat.unknown = codes "unknown"
source_format_name SourceFormat.syslog = codes "syslog"
source_format_name SourceFormat.json = codes "json"
source_format_name SourceFormat.web_access = codes "web-access"
source_format_name SourceFormat.win_event = codes "win-event"

pub record LogEvent : Type 0 where
  pub timestamp : Timestamp
  pub severity : Severity
  pub source : SourceFormat
  pub host : Bytes
  pub app : Bytes
  pub pid : ℤ
  pub message : Bytes
  pub user : Bytes
  pub src_ip : Bytes
  pub dst_ip : Bytes
  pub src_port : ℕ
  pub dst_port : ℕ
  pub http_method : Bytes
  pub http_path : Bytes
  pub http_status : ℕ
  pub byte_count : ℕ
  pub event_id : ℕ
  pub channel : Bytes
  pub provider : Bytes
  pub record_index : ℕ
  pub fields : FieldMap

-- The defaults.
abbrev pub blank : LogEvent
blank = record {
  timestamp = invalid;
  severity = Severity.unknown;
  source = SourceFormat.unknown;
  host = [];
  app = [];
  pid = negsuc 0;
  message = [];
  user = [];
  src_ip = [];
  dst_ip = [];
  src_port = 0;
  dst_port = 0;
  http_method = [];
  http_path = [];
  http_status = 0;
  byte_count = 0;
  event_id = 0;
  channel = [];
  provider = [];
  record_index = 0;
  fields = [];
}

abbrev pub has_time : LogEvent → Bool
has_time e = e.timestamp.valid

-- `if (!s.empty()) { out += label; out += s; }`
abbrev labelled : Bytes → Bytes → Bytes
labelled label s = if not (null s) then label ++ s else []

abbrev http_part : LogEvent → Bytes
http_part e =
    if not (e.http_status == 0)
    then codes "  "
      ++ (e.http_method
          ++ (codes " " ++ (truncate e.http_path 80 ++ (codes " " ++ to_string e.http_status))))
    else []

-- `LogEvent::summary`
unfoldable pub summary : LogEvent → Bytes
summary e =
    to_iso8601 e.timestamp
    ++ (codes "  "
        ++ (severity_name e.severity
            ++ (codes "  "
                ++ (source_format_name e.source
                    ++ (labelled (codes "  host=") e.host
                        ++ (labelled (codes "  app=") e.app
                            ++ ((if not (e.event_id == 0)
                                  then codes "  id=" ++ to_string e.event_id
                                  else [])
                                ++ (labelled (codes "  src=") e.src_ip
                                    ++ (http_part e
                                        ++ (if not (null e.message)
                                            then codes "  "
                                              ++ truncate (sanitize_printable e.message) 160
                                            else []))))))))))

-- The loop of `message_shape`: the bytes left, and whether the last one was a digit, so that `i`
-- stands within a run that has given its `#`. It stops once 120 bytes are out.
unfoldable pub shape_from : Bool → ℕ → Bytes → Bytes
shape_from inside n [] = []
shape_from inside n (c ∷ s) =
    let passed = shape_from true n s in
    let digit = b'#' ∷ shape_from true (n + 1) s in
    let other = c ∷ shape_from false (n + 1) s in
    if is_digit c
    then (if inside then passed else if leb 120 n then [] else digit)
    else if leb 120 n
    then []
    else other

unfoldable pub message_shape : Bytes → Bytes
message_shape msg = shape_from false 0 msg

-- `LogEvent::signature`
unfoldable pub signature : LogEvent → Bytes
signature e =
    source_format_name e.source
    ++ (b'|'
        ∷ ((if not (null e.provider) then e.provider else if not (null e.app) then e.app else [])
            ++ (b'|'
                ∷ (if not (e.event_id == 0)
                    then to_string e.event_id
                    else if not (e.http_status == 0)
                    then e.http_method ++ (b' ' ∷ to_string e.http_status)
                    else message_shape e.message))))
