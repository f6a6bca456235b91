-- ===== src/Analyze/Counter.antt =====
-- `Counter` (include/analyze/statistics.hpp, src/analyze/statistics.cpp). `std::sort` is the standard
-- library's: an insertion sort.
pub mod Weights
pub mod Tally
mod Examples
use chrono_sift.Common.{
  ℕ, ◌+◌, ◌-◌, Bool, true, false, not, ◌&&◌, List, [], ◌∷◌, ◌++◌, Option, none, some, ltb, leb,
  ◌==◌, if◌then◌else◌, length, take, Bytes, eqb,
}
use chrono_sift.Core.Number.{u64_max}

-- `kMaxDistinctKeys`
abbrev pub max_distinct_keys : ℕ
max_distinct_keys = 200000

pub record Count : Type 0 where
  pub key : Bytes
  pub count : ℕ

pub record Counter : Type 0 where
  pub entries : List Count
  pub total : ℕ

abbrev pub no_counts : Counter
no_counts = record { entries = []; total = 0 }

-- `a > UINT64_MAX - n ? UINT64_MAX : a + n`
unfoldable pub saturate : ℕ → ℕ → ℕ
saturate a n = if ltb (u64_max - n) a then u64_max else a + n

-- The first entry of a key, in the search of `add` and of `get`.
unfoldable pub find : List Count → Bytes → Option ℕ
find [] key = none
find (e ∷ es) key = let later = find es key in if eqb e.key key then some e.count else later

-- What `add` does to that entry.
unfoldable pub raise : List Count → Bytes → ℕ → List Count
raise [] key n = []
raise (e ∷ es) key n =
    let later = raise es key n in
    if eqb e.key key then record e { count = saturate e.count n } ∷ es else e ∷ later

-- The entries after `add` of a weight that is not 0.
unfoldable pub entries_with : List Count → Bytes → ℕ → List Count
entries_with es key n = elim (find es key) [
  | some m ↦ raise es key n
  | none ↦
      if leb max_distinct_keys (length es) then es else es ++ record { key = key; count = n } ∷ []
]

unfoldable pub add : Counter → Bytes → ℕ → Counter
add c key n =
    if n == 0
    then c
    else record { entries = entries_with c.entries key n; total = saturate c.total n }

unfoldable pub get : Counter → Bytes → ℕ
get c key = elim (find c.entries key) [ none ↦ 0 | some n ↦ n ]

-- `distinct`
abbrev pub distinct : Counter → ℕ
distinct c = length c.entries

-- `operator<` of strings, by unsigned bytes.
unfoldable pub less : Bytes → Bytes → Bool
less s [] = false
less [] (d ∷ t) = true
less (c ∷ s) (d ∷ t) = let later = less s t in if c == d then later else ltb c d

-- The order of `top`: by count, descending, then by key.
unfoldable pub above : Count → Count → Bool
above a b = if not (a.count == b.count) then ltb b.count a.count else less a.key b.key

unfoldable pub insert_count : Count → List Count → List Count
insert_count a [] = a ∷ []
insert_count a (b ∷ bs) =
    let later = insert_count a bs in if above b a then b ∷ later else a ∷ b ∷ bs

unfoldable pub sort_counts : List Count → List Count
sort_counts [] = []
sort_counts (a ∷ cs) = insert_count a (sort_counts cs)

unfoldable pub top : Counter → ℕ → List Count
top c limit =
    let out = sort_counts c.entries in
    if not (limit == 0) && ltb limit (length out) then take limit out else out
