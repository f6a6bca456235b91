-- ===== src/Analyze/Counter/Examples.antt =====
-- Weights whose sum exceeds the width.
use chrono_sift.Common.{[], ◌∷◌, ◌≡◌, ◌≤◌, ◌⊎◌, min, List, codes, arith}
use chrono_sift.Core.Number.{u64_max}
use chrono_sift.Analyze.Counter.{Count, no_counts, get, distinct, max_distinct_keys}
use chrono_sift.Analyze.Counter.Weights.{add_all, weight, weight_of}
use chrono_sift.Analyze.Counter.Tally.{get-add_all}

abbrev weights : List Count
weights =
    record { key = codes "a"; count = 2 }
    ∷ record { key = codes "b"; count = u64_max }
    ∷ record { key = codes "b"; count = 7 }
    ∷ []

get-add_all_example :
    ((add_all no_counts weights).total ≡ min u64_max (weight weights))
    × (distinct (add_all no_counts weights) ≤ max_distinct_keys)
    × ((get (add_all no_counts weights) (codes "b") ≡ min u64_max (weight_of (codes "b") weights))
        ⊎ ((get (add_all no_counts weights) (codes "b") ≡ 0)
            × (max_distinct_keys ≤ distinct (add_all no_counts weights))))
get-add_all_example =
    get-add_all weights (codes "b") (omega arith, (omega arith, (omega arith, tt)))
