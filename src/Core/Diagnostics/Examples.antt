-- ===== src/Core/Diagnostics/Examples.antt =====
-- Three messages in a sink for two.
use chrono_sift.Common.{ℕ, ◌-◌, ◌≤◌, ◌≡◌, List, [], ◌∷◌, codes, length, take}
use chrono_sift.Core.Diagnostics.{Diagnostic, DiagLevel, sink}
use chrono_sift.Core.Diagnostics.Capped.{emit_all, emit_all_capped}

abbrev problem : DiagLevel → ℕ → Diagnostic
problem level line = record {
  level = level;
  place = codes "syslog";
  detail = codes "bad priority";
  line = line;
  offset = 0;
}

abbrev three : List Diagnostic
three = problem DiagLevel.warning 1 ∷ problem DiagLevel.error 2 ∷ problem DiagLevel.info 3 ∷ []

emit_all_capped_example :
    ((emit_all (sink 2) three).entries ≡ take 2 three)
    × ((emit_all (sink 2) three).dropped ≡ length three - 2)
    × (length (emit_all (sink 2) three).entries ≤ 2)
emit_all_capped_example = emit_all_capped 2 three
