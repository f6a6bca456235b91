-- ===== src/Serialize/Writer.antt =====
-- JSON lines (include/serialize/writer.hpp, src/serialize/writer.cpp). The C library's `%g` is the
-- parameter `format_g`, as in the rendering of field values.
pub mod Objects
pub mod Parsed
mod Examples
use chrono_sift.Common.{
  ℕ, zero, suc, ◌+◌, ◌/◌, ◌^◌, Bool, true, false, not, List, [], ◌∷◌, ◌++◌, ltb, ◌==◌,
  if◌then◌else◌, Bytes, codes, null, bit_and,
}
use chrono_sift.Common.Int.{ℤ, pos, negsuc, ltb_ℤ}
use chrono_sift.Core.Number.{to_string, to_string_ℤ}
use chrono_sift.Core.Encoding.{hex_lower}
use chrono_sift.Core.Timestamp.{to_iso8601}
use chrono_sift.Event.Severity.{severity_name}
use chrono_sift.Event.Fields.{FieldMap, value_string}
use chrono_sift.Event.Record.{LogEvent, source_format_name}
use chrono_sift.Event.Stream.{EventStream}

abbrev hex_digit : ℕ → ℕ
hex_digit nibble = hex_lower (bit_and nibble 0x0f)

-- The six characters of `append_u_escape`.
abbrev u_escape : ℕ → Bytes
u_escape byte =
    b'\\'
    ∷ b'u'
    ∷ hex_digit (bit_and (byte / 2 ^ 12) 0x0f)
    ∷ hex_digit (bit_and (byte / 2 ^ 8) 0x0f)
    ∷ hex_digit (bit_and (byte / 2 ^ 4) 0x0f)
    ∷ hex_digit (bit_and byte 0x0f)
    ∷ []

-- One round of the loop.
unfoldable pub escape_char : ℕ → Bytes
escape_char c =
    if c == b'"'
    then codes "\\\""
    else if c == b'\\'
    then codes "\\\\"
    else if c == 0x08
    then codes "\\b"
    else if c == 0x0c
    then codes "\\f"
    else if c == b'\n'
    then codes "\\n"
    else if c == b'\r'
    then codes "\\r"
    else if c == b'\t'
    then codes "\\t"
    else if ltb c 0x20
    then u_escape c
    else c ∷ []

unfoldable pub json_escape : Bytes → Bytes
json_escape [] = []
json_escape (c ∷ s) = escape_char c ++ json_escape s

-- What `append_json_string` and `append_json_key` append.
unfoldable pub json_string : Bytes → Bytes
json_string s = b'"' ∷ (json_escape s ++ b'"' ∷ [])

unfoldable pub json_key : Bytes → Bytes
json_key key = b'"' ∷ (json_escape key ++ codes "\":")

-- `out` and `first`.
pub record Writer : Type 0 where
  pub out : Bytes
  pub first : Bool

-- A member behind `sep()`: `append_string_member` and `append_number_member`, whose value is the
-- text of `std::to_string`.
unfoldable pub write : Bytes → Bytes → Writer → Writer
write key value w = record {
  out = (if w.first then w.out else w.out ++ b',' ∷ []) ++ (json_key key ++ value);
  first = false;
}

unfoldable pub write_string : Bytes → Bytes → Writer → Writer
write_string key value w = write key (json_string value) w

-- The members under a test.
unfoldable pub write_string_if : Bool → Bytes → Bytes → Writer → Writer
write_string_if test key value w = if test then write_string key value w else w

unfoldable pub write_number_if : Bool → Bytes → Bytes → Writer → Writer
write_number_if test key value w = if test then write key value w else w

-- `if (!value.empty())` and `if (value != 0)`
abbrev write_text : Bytes → Bytes → Writer → Writer
write_text key value w = write_string_if (not (null value)) key value w

abbrev write_count : Bytes → ℕ → Writer → Writer
write_count key value w = write_number_if (not (value == 0)) key (to_string value) w

-- The loop over the entries of the nested object.
unfoldable pub field_entries : (ℕ → Bytes) → Bool → FieldMap → Bytes
field_entries format_g first [] = []
field_entries format_g first (e ∷ es) =
    (if first then [] else b',' ∷ [])
    ++ (json_string e.key
        ++ b':' ∷ (json_string (value_string format_g e.value) ++ field_entries format_g false es))

unfoldable pub fields_object : (ℕ → Bytes) → FieldMap → Bytes
fields_object format_g es = b'{' ∷ (field_entries format_g true es ++ b'}' ∷ [])

abbrev write_fields : (ℕ → Bytes) → FieldMap → Writer → Writer
write_fields format_g es w =
    if not (null es) then write (codes "fields") (fields_object format_g es) w else w

unfoldable pub event_to_json : (ℕ → Bytes) → LogEvent → Bytes
event_to_json format_g e =
    let w0 : Writer = record { out = b'{' ∷ []; first = true } in
    let w1 = write_string_if e.timestamp.valid (codes "timestamp") (to_iso8601 e.timestamp) w0 in
    let w2 = write_string_if true (codes "severity") (severity_name e.severity) w1 in
    let w3 = write_string_if true (codes "source") (source_format_name e.source) w2 in
    let w4 = write_number_if true (codes "record_index") (to_string e.record_index) w3 in
    let w5 = write_text (codes "host") e.host w4 in
    let w6 = write_text (codes "app") e.app w5 in
    let w7 = write_number_if (not (ltb_ℤ e.pid (pos 0))) (codes "pid") (to_string_ℤ e.pid) w6 in
    let w8 = write_text (codes "user") e.user w7 in
    let w9 = write_text (codes "src_ip") e.src_ip w8 in
    let w10 = write_text (codes "dst_ip") e.dst_ip w9 in
    let w11 = write_count (codes "src_port") e.src_port w10 in
    let w12 = write_count (codes "dst_port") e.dst_port w11 in
    let w13 = write_text (codes "http_method") e.http_method w12 in
    let w14 = write_text (codes "http_path") e.http_path w13 in
    let w15 = write_count (codes "http_status") e.http_status w14 in
    let w16 = write_count (codes "bytes") e.byte_count w15 in
    let w17 = write_count (codes "event_id") e.event_id w16 in
    let w18 = write_text (codes "channel") e.channel w17 in
    let w19 = write_text (codes "provider") e.provider w18 in
    let w20 = write_text (codes "message") e.message w19 in
    let w21 = write_fields format_g e.fields w20 in w21.out ++ b'}' ∷ []

-- The loop of `to_ndjson`.
unfoldable pub ndjson_lines : (ℕ → Bytes) → Bool → List LogEvent → Bytes
ndjson_lines format_g first [] = []
ndjson_lines format_g first (e ∷ es) =
    (if first then [] else b'\n' ∷ [])
    ++ (event_to_json format_g e ++ ndjson_lines format_g false es)

unfoldable pub to_ndjson : (ℕ → Bytes) → EventStream → Bytes
to_ndjson format_g stream =
    if null stream.events then [] else ndjson_lines format_g true stream.events ++ b'\n' ∷ []
