-- ===== src/Json/Mapper/Lines.antt =====
-- `parse_stream` gives one event for each line that is not blank.
use chrono_sift.Common.{
  ℕ, suc, ◌+◌, ◌≡◌, refl, ◌∙◌, sym, inl, inr, ◌⊎◌, Bool-cases, true, false, List, [], ◌∷◌, ◌++◌,
  some, Option, append_assoc, append-nil, Bytes, codes, null as is_empty,
}
use chrono_sift.Common.Int.{ℤ}
use chrono_sift.Core.Status.{Result, success, failure, Status}
use chrono_sift.Core.Text.{trim, split_lines}
use chrono_sift.Core.Diagnostics.{DiagLevel, Diagnostic, DiagnosticSink, report}
use chrono_sift.Core.Diagnostics.Capped.{emit_all}
use chrono_sift.Event.Severity.{Severity}
use chrono_sift.Event.Record.{LogEvent, SourceFormat}
use chrono_sift.Event.Stream.{empty_stream, add}
use chrono_sift.Json.Value.{JsonValue, Floats}
use chrono_sift.Json.Scan.{JsonLimits}
use chrono_sift.Json.Parser.{parse}
use chrono_sift.Json.Parser.Total.{parse_lem}
use chrono_sift.Json.Mapper.{
  map_object, map_to_event, line_event, line_diag, Parsing, parsed_line, lines_from, parse_stream,
}

-- The lines that are not blank.
unfoldable pub kept : List Bytes → List Bytes
kept [] = []
kept (raw ∷ lines) = elim (is_empty (trim raw)) [ true ↦ kept lines | false ↦ raw ∷ kept lines ]

-- The diagnostic of the line numbered `line`, if it is no JSON text.
abbrev pub failure_at : ℕ → Option (Result JsonValue) → List Diagnostic
failure_at line (some (failure st)) =
    record {
      level = DiagLevel.warning;
      place = codes "jsonlog.parse";
      detail = codes "line failed to parse as JSON: " ++ st.message;
      line = line;
      offset = 0;
    }
    ∷ []
failure_at line _ = []

module _ (limits : JsonLimits) (fl : Floats) (assume_year : ℤ) where
  -- `e` keeps a line that is no JSON text.
  abbrev pub KeepsRaw : Bytes → LogEvent → Type 0
  KeepsRaw raw e =
      (st : Status) × (parse limits fl raw ≡ some (failure st))
      × (e.message ≡ raw)
      × (e.severity ≡ Severity.unknown)
      × (e.timestamp.valid ≡ false)
      × (e.fields ≡ [])

  -- `e` is the event of the value that a line is the text of.
  abbrev pub MapsValue : Bytes → LogEvent → Type 0
  MapsValue raw e =
      (v : JsonValue) × (parse limits fl raw ≡ some (success v))
      × (e ≡ record (map_to_event fl v assume_year) { record_index = e.record_index })

  abbrev pub IsEventOf : Bytes → ℕ → LogEvent → Type 0
  IsEventOf raw i e =
      (e.record_index ≡ i) × (e.source ≡ SourceFormat.json) × (MapsValue raw e ⊎ KeepsRaw raw e)

  -- The events are those of the lines, one for one, numbered from `i + 1` on.
  unfoldable pub AreEventsOf : ℕ → List Bytes → List LogEvent → Type 0
  AreEventsOf i [] [] = Unit
  AreEventsOf i (raw ∷ lines) (e ∷ es) = IsEventOf raw (suc i) e × AreEventsOf (suc i) lines es
  AreEventsOf i _ _ = ⊥

  -- The diagnostics of the lines that are no JSON texts; the first line is numbered `li + 1`.
  unfoldable pub failures : ℕ → List Bytes → List Diagnostic
  failures li [] = []
  failures li (raw ∷ lines) = elim (is_empty (trim raw)) [
    | true ↦ failures (suc li) lines
    | false ↦ failure_at (li + 1) (parse limits fl raw) ++ failures (suc li) lines
  ]

  map_to_event-source : (v : JsonValue) → (map_to_event fl v assume_year).source ≡ SourceFormat.json
  unfolding map_to_event map_object
  map_to_event-source JsonValue.null = refl
  map_to_event-source (JsonValue.bool b) = refl
  map_to_event-source (JsonValue.int i) = refl
  map_to_event-source (JsonValue.double d) = refl
  map_to_event-source (JsonValue.string s) = refl
  map_to_event-source (JsonValue.array xs) = refl
  map_to_event-source (JsonValue.object ms) = refl

  line_event-IsEventOf :
      (raw : Bytes) (i : ℕ) (r : Result JsonValue)
      → parse limits fl raw ≡ some r
      → IsEventOf raw i (record (line_event fl assume_year raw r) { record_index = i })
  unfolding line_event
  line_event-IsEventOf raw i (success v) e = (refl, map_to_event-source v, inl (v, e, refl))
  line_event-IsEventOf raw i (failure st) e = (refl, refl, inr (st, e, refl, refl, refl, refl))

  emit_all-line_diag :
      (diags : DiagnosticSink) (line : ℕ) (r : Result JsonValue) (ds : List Diagnostic)
      → emit_all (line_diag diags line r) ds ≡ emit_all diags (failure_at line (some r) ++ ds)
  unfolding emit_all line_diag report
  emit_all-line_diag diags line (success v) ds = refl
  emit_all-line_diag diags line (failure st) ds = refl

  -- What the loop makes of lines behind a state.
  record Read (li : ℕ) (lines : List Bytes) (p : Parsing) : Type 0 where
    state : Parsing
    returns : lines_from limits fl assume_year li lines p ≡ some state
    events : List LogEvent
    added : state.stream.events ≡ p.stream.events ++ events
    matched : AreEventsOf p.record_index (kept lines) events
    told : state.diags ≡ emit_all p.diags (failures li lines)

  read_line :
      (li : ℕ) (raw : Bytes) (lines : List Bytes) (p : Parsing) (r : Result JsonValue)
      → is_empty (trim raw) ≡ false
      → parse limits fl raw ≡ some r
      → Read (suc li) lines (parsed_line fl assume_year (li + 1) raw p r)
      → Read li (raw ∷ lines) p
  unfolding lines_from kept AreEventsOf failures parsed_line add
  read_line li raw lines p r n e next =
      let event = record (line_event fl assume_year raw r) { record_index = suc p.record_index } in
      record {
        state = next.state;
        returns = rw (n, lines_from) (rw (e, lines_from) next.returns);
        events = event ∷ next.events;
        added = next.added ∙ append_assoc p.stream.events (event ∷ []) next.events;
        matched = rw (n, kept) (line_event-IsEventOf raw (suc p.record_index) r e, next.matched);
        told =
            rw (n, failures)
              (rw e (next.told ∙ emit_all-line_diag p.diags (li + 1) r (failures (suc li) lines)));
      }

  lines_from-Read : (li : ℕ) (lines : List Bytes) (p : Parsing) → Read li lines p
  unfolding lines_from kept AreEventsOf failures emit_all
  lines_from-Read li [] p = record {
    state = p;
    returns = refl;
    events = [];
    added = sym (append-nil p.stream.events);
    matched = tt;
    told = refl;
  }
  lines_from-Read li (raw ∷ lines) p = elim (Bool-cases (is_empty (trim raw))) [
    | inl y ↦
        let next = lines_from-Read (suc li) lines p in
        record {
          state = next.state;
          returns = rw (y, lines_from) next.returns;
          events = next.events;
          added = next.added;
          matched = rw (y, kept) next.matched;
          told = rw (y, failures) next.told;
        }
    | inr n ↦
        let (r, e, more) = parse_lem limits fl raw in
        read_line li raw lines p r n e
          (lines_from-Read (suc li) lines (parsed_line fl assume_year (li + 1) raw p r))
  ]

-- `parse_stream` ends on every artifact. It gives exactly one event for each line that is not blank, in
-- order and numbered from 1, all with the source json: that of the value where the line parses, else
-- one with the raw line for its message, unknown severity, no time and no fields. And it emits a
-- warning for each line that does not parse, and nothing else, under its number among all lines.
pub parse_stream_lem :
    (limits : JsonLimits) (fl : Floats) (bytes : Bytes) (diags : DiagnosticSink) (assume_year : ℤ)
    → (p : Parsing) × (parse_stream limits fl bytes diags assume_year ≡ some p)
      × AreEventsOf limits fl assume_year 0 (kept (split_lines bytes)) p.stream.events
      × (p.diags ≡ emit_all diags (failures limits fl assume_year 0 (split_lines bytes)))
unfolding parse_stream
parse_stream_lem limits fl bytes diags assume_year =
    let start : Parsing = record { stream = empty_stream; diags = diags; record_index = 0 } in
    let r = lines_from-Read limits fl assume_year 0 (split_lines bytes) start in
    (r.state, r.returns, rw r.added r.matched, r.told)
