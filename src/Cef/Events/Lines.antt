-- ===== src/Cef/Events/Lines.antt =====
-- `parse_stream` gives one event for each line.
use chrono_sift.Common.{
  ℕ, suc, ◌+◌, ◌≡◌, refl, ◌∙◌, sym, false, List, [], ◌∷◌, ◌++◌, some, Option, append_assoc, arith,
  append-nil, Bytes, null, if◌then◌else◌, ◌⊎◌, inl, inr, codes,
}
use chrono_sift.Core.Status.{Result, success, failure, Status, StatusCode, status, status_string}
use chrono_sift.Core.Text.{split_lines, truncate}
use chrono_sift.Core.Diagnostics.{DiagLevel, Diagnostic, DiagnosticSink, report}
use chrono_sift.Core.Diagnostics.Capped.{emit_all}
use chrono_sift.Event.Severity.{Severity}
use chrono_sift.Event.Record.{LogEvent, SourceFormat}
use chrono_sift.Event.Stream.{empty_stream, add}
use chrono_sift.Cef.Record.{CefRecord, ParseOptions}
use chrono_sift.Cef.Events.{
  parse_line, to_event, line_event, line_diag, Parsing, parsed_line, lines_from, parse_stream,
  is_empty_code,
}
use chrono_sift.Cef.Events.Returns.{IsLoud, parse_line-nil, parse_line-Returns}

-- The diagnostic of the line numbered `line`, if it is neither empty nor a record.
abbrev pub failure_at : ℕ → Bytes → Option (Result CefRecord) → List Diagnostic
failure_at line (c ∷ raw) (some (failure st)) =
    record {
      level = DiagLevel.warning;
      place = codes "cef.line";
      detail = status_string st;
      line = line;
      offset = 0;
    }
    ∷ []
failure_at line _ _ = []

module _ (opts : ParseOptions) where
  -- `e` keeps a line that is no record, cut to the limit.
  abbrev pub KeepsRaw : Bytes → LogEvent → Type 0
  KeepsRaw raw e =
      (st : Status) × (parse_line opts raw ≡ some (failure st))
      × (e.message ≡ truncate raw opts.max_field_bytes)
      × (e.source ≡ SourceFormat.unknown)
      × (e.severity ≡ Severity.unknown)
      × (e.timestamp.valid ≡ false)
      × (e.fields ≡ [])

  -- `e` is the event of the record that a line holds, its message cut to the limit.
  abbrev pub MapsRecord : Bytes → LogEvent → Type 0
  MapsRecord raw e =
      (r : CefRecord) × (parse_line opts raw ≡ some (success r))
      × (e ≡ record (to_event opts r) {
        message = truncate (to_event opts r).message opts.max_field_bytes;
        record_index = e.record_index;
      })

  abbrev pub IsEventOf : Bytes → ℕ → LogEvent → Type 0
  IsEventOf raw i e = (e.record_index ≡ i) × (MapsRecord raw e ⊎ KeepsRaw raw e)

  -- The events are those of the lines, one for one, numbered from `i + 1` on.
  unfoldable pub AreEventsOf : ℕ → List Bytes → List LogEvent → Type 0
  AreEventsOf i [] [] = Unit
  AreEventsOf i (raw ∷ lines) (e ∷ es) = IsEventOf raw (i + 1) e × AreEventsOf (suc i) lines es
  AreEventsOf i _ _ = ⊥

  -- The diagnostics of the lines, numbered likewise.
  unfoldable pub failures : ℕ → List Bytes → List Diagnostic
  failures i [] = []
  failures i (raw ∷ lines) = failure_at (i + 1) raw (parse_line opts raw) ++ failures (suc i) lines

  truncate-nil : (max : ℕ) → truncate [] max ≡ []
  unfolding truncate
  truncate-nil max = ground arith

  -- What a line gives: its event and its diagnostic.
  record ReadAs (i : ℕ) (raw : Bytes) (diags : DiagnosticSink) : Type 0 where
    outcome : Result CefRecord
    returns : parse_line opts raw ≡ some outcome
    matched : IsEventOf raw (i + 1) (record (line_event opts raw outcome) { record_index = i + 1 })
    told :
        (ds : List Diagnostic)
        → emit_all (line_diag diags (i + 1) outcome) ds
          ≡ emit_all diags (failure_at (i + 1) raw (some outcome) ++ ds)

  empty_line : (i : ℕ) (diags : DiagnosticSink) → ReadAs i [] diags
  unfolding line_event line_diag
  empty_line i diags = record {
    outcome = failure (status StatusCode.empty (codes "empty cef line"));
    returns = parse_line-nil opts;
    matched = (
      refl,
      inr (_, parse_line-nil opts, sym (truncate-nil opts.max_field_bytes), refl, refl, refl, refl),
    );
    told = λ ds. refl;
  }

  full_line :
      (i c : ℕ) (raw : Bytes) (diags : DiagnosticSink) (r : Result CefRecord)
      → parse_line opts (c ∷ raw) ≡ some r
      → IsLoud r
      → ReadAs i (c ∷ raw) diags
  unfolding line_event line_diag emit_all report
  full_line i c raw diags (success r) e l = record {
    outcome = success r;
    returns = e;
    matched = (refl, inl (r, e, refl));
    told = λ ds. refl;
  }
  full_line i c raw diags (failure st) e l =
      let loud : is_empty_code st.code ≡ false = l in
      record {
        outcome = failure st;
        returns = e;
        matched = (
          refl,
          inr (st, e, rw loud refl, rw loud refl, rw loud refl, rw loud refl, rw loud refl),
        );
        told = λ ds. rw loud refl;
      }

  line_at : (i : ℕ) (raw : Bytes) (diags : DiagnosticSink) → ReadAs i raw diags
  line_at i [] diags = empty_line i diags
  line_at i (c ∷ raw) diags =
      let (r, e, l) = parse_line-Returns opts c raw in full_line i c raw diags r e l

  -- What the loop makes of lines behind a state.
  record Read (i : ℕ) (lines : List Bytes) (p : Parsing) : Type 0 where
    pub state : Parsing
    pub returns : lines_from opts i lines p ≡ some state
    pub events : List LogEvent
    pub added : state.stream.events ≡ p.stream.events ++ events
    pub matched : AreEventsOf i lines events
    pub told : state.diags ≡ emit_all p.diags (failures i lines)

  lines_from-Read : (i : ℕ) (lines : List Bytes) (p : Parsing) → Read i lines p
  unfolding lines_from AreEventsOf failures parsed_line add emit_all
  lines_from-Read i [] p = record {
    state = p;
    returns = refl;
    events = [];
    added = sym (append-nil p.stream.events);
    matched = tt;
    told = refl;
  }
  lines_from-Read i (raw ∷ lines) p =
      let line = line_at i raw p.diags in
      let event = record (line_event opts raw line.outcome) { record_index = i + 1 } in
      let next = lines_from-Read (suc i) lines (parsed_line opts (i + 1) raw p line.outcome) in
      record {
        state = next.state;
        returns = rw (line.returns, lines_from) next.returns;
        events = event ∷ next.events;
        added = next.added ∙ append_assoc p.stream.events (event ∷ []) next.events;
        matched = (line.matched, next.matched);
        told = rw line.returns (next.told ∙ line.told (failures (suc i) lines));
      }

-- The lines of a text; an empty text has none.
abbrev pub lines_of : Bytes → List Bytes
lines_of text = if null text then [] else split_lines text

-- `parse_stream` ends on every artifact. It gives exactly one event for each line, in order and with the
-- line's number: that of the record where the line parses, with its message cut to the limit, else one
-- with the line itself for its message, cut likewise, no source, no severity, no time and no fields.
-- And it emits a warning for each line that is neither empty nor a record, and nothing else.
pub parse_stream-AreEventsOf :
    (opts : ParseOptions) (text : Bytes) (diags : DiagnosticSink)
    → (p : Parsing) × (parse_stream opts text diags ≡ some p)
      × AreEventsOf opts 0 (lines_of text) p.stream.events
      × (p.diags ≡ emit_all diags (failures opts 0 (lines_of text)))
unfolding parse_stream AreEventsOf failures emit_all
parse_stream-AreEventsOf opts [] diags = (_, refl, tt, refl)
parse_stream-AreEventsOf opts (c ∷ text) diags =
    let start : Parsing = record { stream = empty_stream; diags = diags } in
    let r = lines_from-Read opts 0 (split_lines (c ∷ text)) start in
    (r.state, r.returns, rw r.added r.matched, r.told)
