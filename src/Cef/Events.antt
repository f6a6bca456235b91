-- ===== src/Cef/Events.antt =====
-- `parse_line`, `to_event` and `parse_stream` (src/cef/parser.cpp).
pub mod Returns
pub mod Lines
pub mod RoundTrip
mod Examples
use chrono_sift.Common.{
  ◌-◌, ℕ, suc, ◌+◌, ◌*◌, ◌/◌, ◌^◌, Bool, true, false, not, ◌||◌, List, [], ◌∷◌, ◌++◌, Option, none,
  some, leb, ◌==◌, if◌then◌else◌, Bytes, codes, null, eqb,
}
use chrono_sift.Common.Int.{ℤ, pos}
use chrono_sift.Core.Text.{trim, truncate, split_lines}
use chrono_sift.Core.Number.{parse_u64}
use chrono_sift.Core.Status.{
  StatusCode, Status, status, Result, success, failure, clamp_value, status_string,
}
use chrono_sift.Core.Timestamp.{Timestamp, invalid, from_micros}
use chrono_sift.Core.Timestamp.Named.{parse_any_time}
use chrono_sift.Core.Diagnostics.{DiagLevel, DiagnosticSink, report}
use chrono_sift.Event.Severity.{severity_from_syslog}
use chrono_sift.Event.Fields.{FieldMap, set_string, set_int}
use chrono_sift.Event.Record.{LogEvent, blank}
use chrono_sift.Event.Stream.{EventStream, empty_stream, add}
use chrono_sift.Cef.Record.{CefExtension, CefRecord, ParseOptions, only_digits, normalized_severity}
use chrono_sift.Cef.Header.{split_header}
use chrono_sift.Cef.Extensions.{Pairs, parse_extensions}

abbrev u32_clamp : ℕ → ℕ
u32_clamp n = clamp_value n 0 0xffffffff

-- `static_cast<u32>` of a clamped number, 0 where the text is none.
abbrev number_or_zero : Option ℕ → ℕ
number_or_zero none = 0
number_or_zero (some n) = u32_clamp n

abbrev incomplete : Option (Result CefRecord)
incomplete = some (failure (status StatusCode.malformed (codes "cef: incomplete header")))

-- The record of the header's eight parts. The status of the extensions is dropped.
unfoldable pub record_of : ParseOptions → List Bytes → Option (Result CefRecord)
record_of opts (version ∷ vendor ∷ product ∷ device ∷ signature ∷ name ∷ severity ∷ ext ∷ _) =
    elim (parse_extensions opts ext) [
      | none ↦ none
      | some p ↦ some (
          success (record {
            valid = true;
            version = number_or_zero (parse_u64 version);
            device_vendor = vendor;
            device_product = product;
            device_version = device;
            signature_id = signature;
            name = name;
            severity = severity;
            extensions = p.out;
          }))
    ]
record_of opts _ = incomplete

-- `none` where `parse_extensions` would run out of fuel.
unfoldable pub parse_line : ParseOptions → Bytes → Option (Result CefRecord)
parse_line opts line =
    if null line
    then some (failure (status StatusCode.empty (codes "empty cef line")))
    else elim (split_header opts line) [
      | failure st ↦ some (failure st)
      | success f ↦ record_of opts f
    ]

unfoldable pub make_provider : CefRecord → Bytes
make_provider r =
    let v = trim r.device_vendor in
    let p = trim r.device_product in if null v then p else if null p then v else v ++ b' ' ∷ p

-- `kMaxMs`
abbrev max_ms : ℕ
max_ms = (2 ^ 63 - 1) / 1000

abbrev from_ms : Option ℕ → Timestamp
from_ms none = invalid
from_ms (some ms) = if leb ms max_ms then from_micros (pos (ms * 1000)) else invalid

unfoldable pub parse_rt : ParseOptions → Bytes → Timestamp
parse_rt opts rt =
    let s = trim rt in
    if null s
    then invalid
    else if only_digits s
    then from_ms (parse_u64 s)
    else parse_any_time s opts.assume_year

unfoldable pub parse_port : Bytes → ℕ
parse_port s = number_or_zero (parse_u64 (trim s))

-- One extension, before it is put into the field map.
unfoldable pub promote : ParseOptions → LogEvent → Bytes → Bytes → LogEvent
promote opts ev k v =
    if eqb k (codes "src") || eqb k (codes "dvc")
    then (if null ev.src_ip then record ev { src_ip = v } else ev)
    else if eqb k (codes "dst")
    then (if null ev.dst_ip then record ev { dst_ip = v } else ev)
    else if eqb k (codes "spt")
    then (if ev.src_port == 0 then record ev { src_port = parse_port v } else ev)
    else if eqb k (codes "dpt")
    then (if ev.dst_port == 0 then record ev { dst_port = parse_port v } else ev)
    else if eqb k (codes "suser") || eqb k (codes "duser")
    then (if null ev.user then record ev { user = v } else ev)
    else if eqb k (codes "rt")
    then (let ts = parse_rt opts v in if ts.valid then record ev { timestamp = ts } else ev)
    else if eqb k (codes "msg")
    then record ev { message = v }
    else ev

-- The loop over the extensions.
unfoldable pub promote_all : ParseOptions → LogEvent → List CefExtension → LogEvent
promote_all opts ev [] = ev
promote_all opts ev (e ∷ es) =
    let next = promote opts ev e.key e.value in
    promote_all opts (record next { fields = set_string next.fields e.key e.value }) es

abbrev keep_text : Bytes → Bytes → FieldMap → FieldMap
keep_text key value fields = if not (null value) then set_string fields key value else fields

-- The event in front of the loop.
unfoldable pub event_start : CefRecord → LogEvent
event_start r = record blank {
  severity = severity_from_syslog (normalized_severity r);
  provider = make_provider r;
  app = trim r.device_product;
  channel = trim r.device_product;
  message = r.name;
  event_id =
      let sid = trim r.signature_id in if null sid then 0 else number_or_zero (parse_u64 sid);
}

unfoldable pub to_event : ParseOptions → CefRecord → LogEvent
to_event opts r =
    let ev = promote_all opts (event_start r) r.extensions in
    let f1 = keep_text (codes "cef.signatureId") r.signature_id ev.fields in
    let f2 = keep_text (codes "cef.name") r.name f1 in
    let f3 = keep_text (codes "cef.deviceVersion") r.device_version f2 in
    record ev { fields = set_int f3 (codes "cef.version") (pos r.version) }

abbrev pub is_empty_code : StatusCode → Bool
is_empty_code StatusCode.empty = true
is_empty_code _ = false

-- The event of a line, before it gets its index.
unfoldable pub line_event : ParseOptions → Bytes → Result CefRecord → LogEvent
line_event opts raw (success r) =
    let ev = to_event opts r in record ev { message = truncate ev.message opts.max_field_bytes }
line_event opts raw (failure st) =
    if is_empty_code st.code
    then blank
    else record blank { message = truncate raw opts.max_field_bytes }

unfoldable pub line_diag : DiagnosticSink → ℕ → Result CefRecord → DiagnosticSink
line_diag diags index (success r) = diags
line_diag diags index (failure st) =
    if is_empty_code st.code
    then diags
    else report DiagLevel.warning diags (codes "cef.line") (status_string st) index

pub record Parsing : Type 0 where
  pub stream : EventStream
  pub diags : DiagnosticSink

-- The line with this index.
unfoldable pub parsed_line : ParseOptions → ℕ → Bytes → Parsing → Result CefRecord → Parsing
parsed_line opts index raw p r = record {
  stream = add p.stream (record (line_event opts raw r) { record_index = index });
  diags = line_diag p.diags index r;
}

-- The loop over the lines, of which `i` came before.
unfoldable pub lines_from : ParseOptions → ℕ → List Bytes → Parsing → Option Parsing
lines_from opts i [] p = some p
lines_from opts i (raw ∷ lines) p = elim (parse_line opts raw) [
  | none ↦ none
  | some r ↦ lines_from opts (suc i) lines (parsed_line opts (i + 1) raw p r)
]

unfoldable pub parse_stream : ParseOptions → Bytes → DiagnosticSink → Option Parsing
parse_stream opts text diags =
    let start : Parsing = record { stream = empty_stream; diags = diags } in
    if null text then some start else lines_from opts 0 (split_lines text) start
