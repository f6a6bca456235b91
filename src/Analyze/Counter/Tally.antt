-- ===== src/Analyze/Counter/Tally.antt =====
-- A counter as a table of sums.
use chrono_sift.Common.{
  ℕ, ◌+◌, ◌≤◌, ◌≡◌, min, true, false, List, [], ◌∷◌, ◌++◌, none, some, leb, ◌==◌, ==_iff,
  if◌then◌else◌, length, Bytes, eqb, All, Bool-cases, Option-cases, inl, inr, ◌⊎◌, refl, arith,
  length-append,
}
use chrono_sift.Core.Number.{u64_max}
use chrono_sift.Analyze.Counter.{
  max_distinct_keys, Count, Counter, no_counts, find, raise, entries_with, add, get, distinct,
}
use chrono_sift.Analyze.Counter.Weights.{
  weight_of, weight, FitsU64, add_all, saturate-min, length-raise, IsCounted, raise-IsCounted,
  push-IsCounted, full-IsCounted,
}

raised_entry :
    (es : List Count) (key : Bytes) (n m : ℕ)
    → find es key ≡ some m
    → entries_with es key n ≡ raise es key n
unfolding entries_with
raised_entry es key n m found = ground (arith, found)

kept_entries :
    (es : List Count) (key : Bytes) (n : ℕ)
    → find es key ≡ none
    → leb max_distinct_keys (length es) ≡ true
    → entries_with es key n ≡ es
unfolding entries_with
kept_entries es key n missing full = ground (arith, missing)

new_entry :
    (es : List Count) (key : Bytes) (n : ℕ)
    → find es key ≡ none
    → leb max_distinct_keys (length es) ≡ false
    → entries_with es key n ≡ es ++ record { key = key; count = n } ∷ []
unfolding entries_with
new_entry es key n missing room = ground (arith, missing)

entries_with-IsCounted :
    (es : List Count) (key k : Bytes) (n w : ℕ)
    → n ≤ u64_max
    → IsCounted es k w
    → IsCounted (entries_with es key n) k (w + (if eqb key k then n else 0))
entries_with-IsCounted es key k n w h old = elim (Option-cases (find es key)) [
  | inr (m, found) ↦ rw (raised_entry es key n m found) (raise-IsCounted es key k n m w h found old)
  | inl missing ↦ elim (Bool-cases (leb max_distinct_keys (length es))) [
    | inr room ↦
        rw (new_entry es key n missing room) (push-IsCounted es key k n w h missing room old)
    | inl full ↦
        rw (kept_entries es key n missing full) (full-IsCounted es key k n w missing full old)
  ]
]

length-entries_with :
    (es : List Count) (key : Bytes) (n : ℕ)
    → length es ≤ max_distinct_keys
    → length (entries_with es key n) ≤ max_distinct_keys
unfolding entries_with
length-entries_with es key n h =
    ground
      (arith, length-raise es key n, length-append {0} es (record { key = key; count = n } ∷ []))

-- A counter after weights of which `t` is the sum, and `w` that of a key.
record Tallies (c : Counter) (t : ℕ) (k : Bytes) (w : ℕ) : Type 0 where
  total : c.total ≡ min u64_max t
  capped : distinct c ≤ max_distinct_keys
  counted : IsCounted c.entries k w

add-Tallies :
    (c : Counter) (t : ℕ) (k : Bytes) (w : ℕ) (a : Count)
    → FitsU64 a
    → Tallies c t k w
    → Tallies (add c a.key a.count) (t + a.count) k (w + (if eqb a.key k then a.count else 0))
unfolding add
add-Tallies c t k w a h old = elim (Bool-cases (a.count == 0)) [
  | inl nothing ↦
      let none_more : w + (if eqb a.key k then a.count else 0) ≡ w = ground arith in
      rw nothing (record {
        total = omega (arith, (==_iff a.count 0).0 nothing, old.total);
        capped = old.capped;
        counted = rw none_more old.counted;
      })
  | inr more ↦ rw more (record {
    total = rw old.total (saturate-min t a.count h);
    capped = length-entries_with c.entries a.key a.count old.capped;
    counted = entries_with-IsCounted c.entries a.key k a.count w h old.counted;
  })
]

add_all-Tallies :
    (c : Counter) (t : ℕ) (k : Bytes) (w : ℕ) (cs : List Count)
    → All FitsU64 cs
    → Tallies c t k w
    → Tallies (add_all c cs) (t + weight cs) k (w + weight_of k cs)
add_all-Tallies c t k w [] h old =
    let all : t + 0 ≡ t = omega arith in let its : w + 0 ≡ w = omega arith in rw (all, its) old
add_all-Tallies c t k w (a ∷ cs) h old =
    let here = if eqb a.key k then a.count else 0 in
    let next =
      add_all-Tallies (add c a.key a.count) (t + a.count) k (w + here) cs h.1
        (add-Tallies c t k w a h.0 old) in
    let all : t + (a.count + weight cs) ≡ t + a.count + weight cs = omega arith in
    let its : w + (here + weight_of k cs) ≡ w + here + weight_of k cs = omega arith in
    rw (all, its) next

-- Weights of at most 2^64 - 1, added to an empty counter in any number: the total is their sum, at
-- most 2^64 - 1; no more than 200000 keys are kept; and get gives the sum of the weights of a key, at
-- most 2^64 - 1, unless it gives 0 with 200000 other keys kept.
pub get-add_all :
    (cs : List Count) (k : Bytes)
    → All FitsU64 cs
    → ((add_all no_counts cs).total ≡ min u64_max (weight cs))
      × (distinct (add_all no_counts cs) ≤ max_distinct_keys)
      × ((get (add_all no_counts cs) k ≡ min u64_max (weight_of k cs))
          ⊎ ((get (add_all no_counts cs) k ≡ 0)
              × (max_distinct_keys ≤ distinct (add_all no_counts cs))))
unfolding get find
get-add_all cs k h =
    let t =
      add_all-Tallies no_counts 0 k 0 cs h
        (record { total = omega arith; capped = omega arith; counted = inr (refl, inl refl) }) in
    (
      omega (arith, t.total),
      t.capped,
      elim t.counted [
        | inl it ↦ inl (ground (arith, it))
        | inr (it, inl z) ↦ inl (ground (arith, it, z))
        | inr (it, inr full) ↦ inr (ground (arith, it), full)
      ],
    )
