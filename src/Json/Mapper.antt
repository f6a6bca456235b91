-- ===== src/Json/Mapper.antt =====
-- The mapping of JSON lines to events (src/jsonlog/log_mapper.cpp).
pub mod Lines
mod Examples
use chrono_sift.Common.{
  ℕ, zero, suc, ◌+◌, ◌≤◌, Bool, true, false, not, ◌&&◌, List, [], ◌∷◌, ◌++◌, Option, none, some,
  leb, if◌then◌else◌, Bytes, codes, null as is_empty,
}
use chrono_sift.Common.Int.{ℤ, pos, negsuc, ltb_ℤ}
use chrono_sift.Core.Text.{trim, split_lines}
use chrono_sift.Core.Number.{parse_i64, to_string}
use chrono_sift.Core.Status.{Result, success, failure}
use chrono_sift.Core.Timestamp.{Timestamp, invalid, from_micros, from_unix_seconds}
use chrono_sift.Core.Timestamp.Named.{parse_any_time}
use chrono_sift.Core.Diagnostics.{DiagLevel, DiagnosticSink, report}
use chrono_sift.Event.Severity.{Severity, severity_from_syslog, severity_from_word}
use chrono_sift.Event.Fields.{FieldValue, FieldMap, set}
use chrono_sift.Event.Record.{LogEvent, blank, SourceFormat}
use chrono_sift.Event.Stream.{EventStream, empty_stream, add}
use chrono_sift.Json.Value.{
  JsonValue, Items, no_items, item, Members, no_members, member, Floats, find, to_display_string,
  two_63, minus_two_63,
}
use chrono_sift.Json.Scan.{JsonLimits}
use chrono_sift.Json.Parser.{parse}

abbrev timestamp_aliases : List Bytes
timestamp_aliases =
    codes "timestamp"
    ∷ codes "time"
    ∷ codes "@timestamp"
    ∷ codes "ts"
    ∷ codes "eventTime"
    ∷ codes "date"
    ∷ []

abbrev severity_aliases : List Bytes
severity_aliases = codes "level" ∷ codes "severity" ∷ codes "syslog_level" ∷ codes "loglevel" ∷ []

abbrev message_aliases : List Bytes
message_aliases = codes "message" ∷ codes "msg" ∷ codes "log" ∷ codes "event" ∷ codes "text" ∷ []

abbrev host_aliases : List Bytes
host_aliases = codes "host" ∷ codes "hostname" ∷ codes "source_host" ∷ codes "computer" ∷ []

abbrev app_aliases : List Bytes
app_aliases =
    codes "app"
    ∷ codes "application"
    ∷ codes "program"
    ∷ codes "service"
    ∷ codes "logger"
    ∷ codes "tag"
    ∷ []

abbrev user_aliases : List Bytes
user_aliases =
    codes "user" ∷ codes "username" ∷ codes "account" ∷ codes "user_name" ∷ codes "subject" ∷ []

abbrev src_ip_aliases : List Bytes
src_ip_aliases =
    codes "src_ip" ∷ codes "source_ip" ∷ codes "client_ip" ∷ codes "remote_addr" ∷ codes "ip" ∷ []

unfoldable pub probe : JsonValue → List Bytes → Option JsonValue
probe obj [] = none
probe obj (a ∷ aliases) = elim (find obj a) [ some v ↦ some v | none ↦ probe obj aliases ]

unfoldable pub to_field_value : Floats → JsonValue → FieldValue
to_field_value fl (JsonValue.bool b) = FieldValue.bool b
to_field_value fl (JsonValue.int i) = FieldValue.int i
to_field_value fl (JsonValue.double d) = FieldValue.double d
to_field_value fl (JsonValue.string s) = FieldValue.text s
to_field_value fl JsonValue.null = FieldValue.empty
to_field_value fl v = FieldValue.text (to_display_string fl v)

-- The key of a child under a prefix.
abbrev child_key : Bytes → Bytes → Bytes
child_key prefix key = if is_empty prefix then key else prefix ++ b'.' ∷ key

-- `flatten`, and its loops; `i` is the index of the first item left.
unfoldable mutual
  pub flatten : Floats → JsonValue → Bytes → FieldMap → FieldMap
  flatten fl (JsonValue.object no_members) prefix fields =
      set fields prefix (FieldValue.text (codes "{}"))
  flatten fl (JsonValue.object (member k v ms)) prefix fields =
      flatten_members fl (member k v ms) prefix fields
  flatten fl (JsonValue.array no_items) prefix fields =
      set fields prefix (FieldValue.text (codes "[]"))
  flatten fl (JsonValue.array (item v xs)) prefix fields =
      flatten_items fl 0 (item v xs) prefix fields
  flatten fl JsonValue.null prefix fields = set fields prefix (to_field_value fl JsonValue.null)
  flatten fl (JsonValue.bool b) prefix fields =
      set fields prefix (to_field_value fl (JsonValue.bool b))
  flatten fl (JsonValue.int i) prefix fields =
      set fields prefix (to_field_value fl (JsonValue.int i))
  flatten fl (JsonValue.double d) prefix fields =
      set fields prefix (to_field_value fl (JsonValue.double d))
  flatten fl (JsonValue.string s) prefix fields =
      set fields prefix (to_field_value fl (JsonValue.string s))

  pub flatten_items : Floats → ℕ → Items → Bytes → FieldMap → FieldMap
  flatten_items fl i no_items prefix fields = fields
  flatten_items fl i (item v xs) prefix fields =
      flatten_items fl (suc i) xs prefix (flatten fl v (child_key prefix (to_string i)) fields)

  pub flatten_members : Floats → Members → Bytes → FieldMap → FieldMap
  flatten_members fl no_members prefix fields = fields
  flatten_members fl (member k v ms) prefix fields =
      flatten_members fl ms prefix (flatten fl v (child_key prefix k) fields)

-- 1000000.0
abbrev million : ℕ
million = 0x412e848000000000

-- The two clamps in front of the cast.
abbrev clamp_micros : Floats → ℕ → ℕ
clamp_micros fl micros =
    let high = if fl.le two_63 micros then two_63 else micros in
    if fl.le high minus_two_63 then minus_two_63 else high

unfoldable pub resolve_time : Floats → JsonValue → ℤ → Timestamp
resolve_time fl (JsonValue.int i) assume_year = from_unix_seconds i
resolve_time fl (JsonValue.double d) assume_year =
    from_micros (fl.trunc_i64 (clamp_micros fl (fl.mul d million)))
resolve_time fl (JsonValue.string s) assume_year = parse_any_time s assume_year
resolve_time fl _ assume_year = invalid

-- `n >= 0 && n <= 7`, with the number.
abbrev syslog_level : ℤ → Option ℕ
syslog_level (pos n) = if leb n 7 then some n else none
syslog_level (negsuc n) = none

abbrev level_or_word : Option ℕ → Bytes → Severity
level_or_word none word = severity_from_word word
level_or_word (some n) word = severity_from_syslog n

abbrev number_level : Option ℤ → Option ℕ
number_level none = none
number_level (some n) = syslog_level n

unfoldable pub resolve_severity : Floats → JsonValue → Severity
resolve_severity fl (JsonValue.int i) =
    level_or_word (syslog_level i) (to_display_string fl (JsonValue.int i))
resolve_severity fl (JsonValue.string s) = level_or_word (number_level (parse_i64 s)) s
resolve_severity fl _ = Severity.unknown

-- The text of an alias that is there.
abbrev alias_text : Floats → JsonValue → List Bytes → Bytes
alias_text fl obj aliases = elim (probe obj aliases) [ none ↦ [] | some v ↦ to_display_string fl v ]

-- `ev.source = SourceFormat::Json`
abbrev json_event : LogEvent
json_event = record blank { source = SourceFormat.json }

unfoldable pub map_object : Floats → JsonValue → ℤ → LogEvent
map_object fl obj assume_year = record json_event {
  timestamp = elim (probe obj timestamp_aliases) [
    | none ↦ invalid
    | some v ↦ resolve_time fl v assume_year
  ];
  severity = elim (probe obj severity_aliases) [
    | none ↦ Severity.unknown
    | some v ↦ resolve_severity fl v
  ];
  message = alias_text fl obj message_aliases;
  host = alias_text fl obj host_aliases;
  app = alias_text fl obj app_aliases;
  user = alias_text fl obj user_aliases;
  src_ip = alias_text fl obj src_ip_aliases;
  fields = flatten fl obj [] [];
}

unfoldable pub map_to_event : Floats → JsonValue → ℤ → LogEvent
map_to_event fl (JsonValue.object ms) assume_year = map_object fl (JsonValue.object ms) assume_year
map_to_event fl v assume_year = record json_event { message = to_display_string fl v }

-- The raw event of a line that does not parse.
abbrev pub raw_event : Bytes → LogEvent
raw_event raw = record json_event { severity = Severity.unknown; message = raw }

-- The event of a parsed line.
unfoldable pub line_event : Floats → ℤ → Bytes → Result JsonValue → LogEvent
line_event fl assume_year raw (success v) = map_to_event fl v assume_year
line_event fl assume_year raw (failure st) = raw_event raw

-- The diagnostic of a line; `line` is its number.
unfoldable pub line_diag : DiagnosticSink → ℕ → Result JsonValue → DiagnosticSink
line_diag diags line (success v) = diags
line_diag diags line (failure st) =
    report DiagLevel.warning diags (codes "jsonlog.parse")
      (codes "line failed to parse as JSON: " ++ st.message) line

-- What `parse_stream` has made.
pub record Parsing : Type 0 where
  pub stream : EventStream
  pub diags : DiagnosticSink
  pub record_index : ℕ

-- The line numbered `line`.
unfoldable pub parsed_line : Floats → ℤ → ℕ → Bytes → Parsing → Result JsonValue → Parsing
parsed_line fl assume_year line raw p r = record {
  stream =
      add p.stream (record (line_event fl assume_year raw r) { record_index = suc p.record_index });
  diags = line_diag p.diags line r;
  record_index = suc p.record_index;
}

-- The loop over the lines, `none` where the parser would run out of fuel; `li` lines came before.
unfoldable pub lines_from : JsonLimits → Floats → ℤ → ℕ → List Bytes → Parsing → Option Parsing
lines_from limits fl assume_year li [] p = some p
lines_from limits fl assume_year li (raw ∷ lines) p = elim (is_empty (trim raw)) [
  | true ↦ lines_from limits fl assume_year (suc li) lines p
  | false ↦ elim (parse limits fl raw) [
    | none ↦ none
    | some r ↦
        lines_from limits fl assume_year (suc li) lines
          (parsed_line fl assume_year (li + 1) raw p r)
  ]
]

unfoldable pub parse_stream : JsonLimits → Floats → Bytes → DiagnosticSink → ℤ → Option Parsing
parse_stream limits fl bytes diags assume_year =
    lines_from limits fl assume_year 0 (split_lines bytes)
      (record { stream = empty_stream; diags = diags; record_index = 0 })
