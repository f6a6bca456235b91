-- ===== src/Event/Fields/Examples.antt =====
-- A map of one entry.
use chrono_sift.Common.{◌≡◌, ◌++◌, [], ◌∷◌, Bytes, some, codes, eqb, if◌then◌else◌}
use chrono_sift.Common.Int.{pos}
use chrono_sift.Event.Fields.{FieldMap, FieldValue, find, set, has}
use chrono_sift.Event.Fields.Lookup.{keys, HasUniqueKeys, set_lem}

abbrev one : FieldMap
one = record { key = codes "pid"; value = FieldValue.int (pos 7) } ∷ []

set_lem_example :
    ((j : Bytes)
      → find (set one (codes "user") FieldValue.empty) j
        ≡ (if eqb (codes "user") j then some FieldValue.empty else find one j))
    × (keys (set one (codes "user") FieldValue.empty)
        ≡ (if has one (codes "user") then keys one else keys one ++ codes "user" ∷ []))
    × HasUniqueKeys (keys (set one (codes "user") FieldValue.empty))
set_lem_example = set_lem one (codes "user") FieldValue.empty (tt, tt)
