-- ===== src/Core/Diagnostics.antt =====
-- Parser diagnostics (include/core/diagnostics.hpp, src/core/diagnostics.cpp).
pub mod Capped
mod Examples
use chrono_sift.Common.{
  ℕ, ◌+◌, Bool, true, false, not, List, [], ◌∷◌, ◌++◌, ltb, leb, ◌==◌, if◌then◌else◌, Bytes, codes,
  length,
}
use chrono_sift.Core.Number.{to_string}

pub data DiagLevel : Type 0 where
  debug info warning error : DiagLevel

-- `static_cast<int>(level)`
unfoldable pub rank : DiagLevel → ℕ
rank DiagLevel.debug = 0
rank DiagLevel.info = 1
rank DiagLevel.warning = 2
rank DiagLevel.error = 3

unfoldable pub diag_level_name : DiagLevel → Bytes
diag_level_name DiagLevel.debug = codes "debug"
diag_level_name DiagLevel.info = codes "info"
diag_level_name DiagLevel.warning = codes "warning"
diag_level_name DiagLevel.error = codes "error"

pub record Diagnostic : Type 0 where
  pub level : DiagLevel
  pub place : Bytes
  pub detail : Bytes
  pub line : ℕ
  pub offset : ℕ

pub position_string : ℕ → ℕ → Bytes
position_string line offset =
    if not (line == 0)
    then codes " (line "
      ++ (to_string line
          ++ ((if not (offset == 0) then codes ", offset " ++ to_string offset else [])
              ++ codes ")"))
    else if not (offset == 0)
    then codes " (offset " ++ (to_string offset ++ codes ")")
    else []

pub diagnostic_string : Diagnostic → Bytes
unfolding diag_level_name position_string
diagnostic_string d =
    codes "["
    ++ (diag_level_name d.level
        ++ (codes "] "
            ++ (d.place ++ (position_string d.line d.offset ++ (codes ": " ++ d.detail)))))

pub record DiagnosticSink : Type 0 where
  pub entries : List Diagnostic
  pub max_entries : ℕ
  pub dropped : ℕ

abbrev pub sink : ℕ → DiagnosticSink
sink max = record { entries = []; max_entries = max; dropped = 0 }

-- `DiagnosticSink()`
abbrev pub default_sink : DiagnosticSink
default_sink = sink 4096

unfoldable pub emit : DiagnosticSink → Diagnostic → DiagnosticSink
emit s d =
    if leb s.max_entries (length s.entries)
    then record s { dropped = s.dropped + 1 }
    else record s { entries = s.entries ++ d ∷ [] }

-- `debug`, `info`, `warn` and `error`, by their level; `offset` is left at 0.
unfoldable pub report : DiagLevel → DiagnosticSink → Bytes → Bytes → ℕ → DiagnosticSink
unfolding emit
report level s place detail line =
    emit s (record { level = level; place = place; detail = detail; line = line; offset = 0 })

pub count_entries : DiagLevel → List Diagnostic → ℕ
unfolding rank
count_entries level [] = 0
count_entries level (d ∷ ds) =
    (if leb (rank level) (rank d.level) then 1 else 0) + count_entries level ds

abbrev pub count_at_least : DiagnosticSink → DiagLevel → ℕ
count_at_least s level = count_entries level s.entries

abbrev pub has_errors : DiagnosticSink → Bool
has_errors s = ltb 0 (count_at_least s DiagLevel.error)

pub render_entries : List Diagnostic → Bytes
unfolding diagnostic_string
render_entries [] = []
render_entries (d ∷ ds) = diagnostic_string d ++ (b'\n' ∷ render_entries ds)

pub render : DiagnosticSink → Bytes
unfolding render_entries
render s =
    render_entries s.entries
    ++ (if not (s.dropped == 0)
        then codes "... " ++ (to_string s.dropped ++ codes " further diagnostic(s) suppressed\n")
        else [])
