-- ===== src/Serialize/Csv.antt =====
-- The CSV table (src/serialize/writer.cpp).
pub mod Reader
mod Examples
use chrono_sift.Common.{
  ℕ, Bool, true, false, ◌||◌, List, [], ◌∷◌, ◌++◌, ◌==◌, if◌then◌else◌, Bytes, codes,
}
use chrono_sift.Common.Int.{pos, ltb_ℤ}
use chrono_sift.Core.Number.{to_string, to_string_ℤ}
use chrono_sift.Core.Timestamp.{to_iso8601}
use chrono_sift.Event.Severity.{severity_name}
use chrono_sift.Event.Record.{LogEvent, source_format_name}
use chrono_sift.Event.Stream.{EventStream}

abbrev pub is_special : ℕ → Bool
is_special c = c == b',' || c == b'"' || c == b'\r' || c == b'\n'

unfoldable pub needs_quote : Bytes → Bool
needs_quote [] = false
needs_quote (c ∷ s) = is_special c || needs_quote s

unfoldable pub double_quotes : Bytes → Bytes
double_quotes [] = []
double_quotes (c ∷ s) = (if c == b'"' then codes "\"\"" else c ∷ []) ++ double_quotes s

unfoldable pub csv_quote : Bytes → Bytes
unfolding needs_quote double_quotes
csv_quote s = if needs_quote s then b'"' ∷ (double_quotes s ++ b'"' ∷ []) else s

abbrev pub csv_columns : List Bytes
csv_columns =
    codes "timestamp"
    ∷ codes "severity"
    ∷ codes "source"
    ∷ codes "record_index"
    ∷ codes "host"
    ∷ codes "app"
    ∷ codes "pid"
    ∷ codes "user"
    ∷ codes "src_ip"
    ∷ codes "dst_ip"
    ∷ codes "src_port"
    ∷ codes "dst_port"
    ∷ codes "http_method"
    ∷ codes "http_path"
    ∷ codes "http_status"
    ∷ codes "bytes"
    ∷ codes "event_id"
    ∷ codes "channel"
    ∷ codes "provider"
    ∷ codes "message"
    ∷ []

-- `cell_str` on each cell in turn, and the loop of `csv_header`. The flag is `first`.
unfoldable pub csv_cells : Bool → List Bytes → Bytes
unfolding csv_quote
csv_cells first [] = []
csv_cells first (v ∷ vs) = (if first then [] else b',' ∷ []) ++ (csv_quote v ++ csv_cells false vs)

unfoldable pub csv_header : Bytes
unfolding csv_cells
csv_header = csv_cells true csv_columns

-- The text that `cell_num` quotes.
abbrev cell_num : ℕ → Bytes
cell_num v = if v == 0 then [] else to_string v

-- The arguments of `cell_str` in `append_csv_row`, in order.
abbrev pub row_cells : LogEvent → List Bytes
row_cells e =
    (if e.timestamp.valid then to_iso8601 e.timestamp else [])
    ∷ severity_name e.severity
    ∷ source_format_name e.source
    ∷ to_string e.record_index
    ∷ e.host
    ∷ e.app
    ∷ (if ltb_ℤ e.pid (pos 0) then [] else to_string_ℤ e.pid)
    ∷ e.user
    ∷ e.src_ip
    ∷ e.dst_ip
    ∷ cell_num e.src_port
    ∷ cell_num e.dst_port
    ∷ e.http_method
    ∷ e.http_path
    ∷ cell_num e.http_status
    ∷ cell_num e.byte_count
    ∷ cell_num e.event_id
    ∷ e.channel
    ∷ e.provider
    ∷ e.message
    ∷ []

unfoldable pub append_csv_row : Bytes → LogEvent → Bytes
unfolding csv_cells
append_csv_row out e = out ++ csv_cells true (row_cells e)

-- The loop of `to_csv`.
unfoldable pub csv_rows : Bytes → List LogEvent → Bytes
unfolding append_csv_row
csv_rows out [] = out
csv_rows out (e ∷ es) = csv_rows (append_csv_row out e ++ b'\n' ∷ []) es

unfoldable pub to_csv : EventStream → Bytes
unfolding csv_rows csv_header
to_csv stream = csv_rows (csv_header ++ b'\n' ∷ []) stream.events
