-- ===== src/Analyze/Counter/Weights.antt =====
-- What a counter counts.
use chrono_sift.Common.{
  ℕ, ◌+◌, ◌≤◌, ◌≡◌, min, true, false, List, [], ◌∷◌, ◌++◌, Option, none, some, leb, if◌then◌else◌,
  length, Bytes, eqb, eqb_iff, Bool-cases, inl, inr, ◌⊎◌, refl, sym, ap, arith,
}
use chrono_sift.Core.Number.{u64_max}
use chrono_sift.Analyze.Counter.{max_distinct_keys, Count, Counter, saturate, find, raise, add}

-- The weights of a key, and of all keys.
abbrev pub weight_of : Bytes → List Count → ℕ
weight_of k [] = 0
weight_of k (a ∷ cs) = (if eqb a.key k then a.count else 0) + weight_of k cs

abbrev pub weight : List Count → ℕ
weight [] = 0
weight (a ∷ cs) = a.count + weight cs

abbrev pub FitsU64 : Count → Type 0
FitsU64 a = a.count ≤ u64_max

-- `add` of each in turn.
abbrev pub add_all : Counter → List Count → Counter
add_all c [] = c
add_all c (a ∷ cs) = add_all (add c a.key a.count) cs

abbrev raised : ℕ → Option ℕ → Option ℕ
raised n none = none
raised n (some m) = some (saturate m n)

find-raise :
    (es : List Count) (k j : Bytes) (n : ℕ)
    → find (raise es k n) j ≡ (if eqb k j then raised n (find es j) else find es j)
unfolding find raise
find-raise [] k j n = ground arith
find-raise (e ∷ es) k j n =
    ground (arith, eqb_iff k j, eqb_iff e.key k, eqb_iff e.key j, find-raise es k j n)

pub length-raise : (es : List Count) (k : Bytes) (n : ℕ) → length (raise es k n) ≡ length es
unfolding raise
length-raise [] k n = refl
length-raise (e ∷ es) k n = ground (arith, length-raise es k n)

abbrev or_new : Bytes → ℕ → Bytes → Option ℕ → Option ℕ
or_new k n j none = if eqb k j then some n else none
or_new k n j (some m) = some m

find-push :
    (es : List Count) (k j : Bytes) (n : ℕ)
    → find (es ++ record { key = k; count = n } ∷ []) j ≡ or_new k n j (find es j)
unfolding find
find-push [] k j n = refl
find-push (e ∷ es) k j n = ground (arith, find-push es k j n)

pub saturate-min : (t n : ℕ) → n ≤ u64_max → saturate (min u64_max t) n ≡ min u64_max (t + n)
unfolding saturate
saturate-min t n h = ground arith

-- The entries hold the saturated weight of a key; or they lack it, since it has none, or since they
-- are full.
abbrev pub IsCounted : List Count → Bytes → ℕ → Type 0
IsCounted es k w =
    (find es k ≡ some (min u64_max w))
    ⊎ ((find es k ≡ none) × ((w ≡ 0) ⊎ (max_distinct_keys ≤ length es)))

pub raise-IsCounted :
    (es : List Count) (key k : Bytes) (n m w : ℕ)
    → n ≤ u64_max
    → find es key ≡ some m
    → IsCounted es k w
    → IsCounted (raise es key n) k (w + (if eqb key k then n else 0))
raise-IsCounted es key k n m w h found old = elim (Bool-cases (eqb key k)) [
  | inl same ↦
      let here : find es k ≡ some m = rw (sym ((eqb_iff key k).0 same)) found in
      elim old [
        | inl o ↦ inl (rw (find-raise es key k n, same, o) (ap some (saturate-min w n h)))
        | inr (o, why) ↦ absurd (ground arith)
      ]
  | inr other ↦ elim old [
    | inl o ↦
        inl (rw (find-raise es key k n, other, o) (ap (λ x. some (min u64_max x)) (omega arith)))
    | inr (o, inl z) ↦ inr (rw (find-raise es key k n, other) o, inl (rw other (omega (arith, z))))
    | inr (o, inr full) ↦
        inr (rw (find-raise es key k n, other) o, inr (rw (length-raise es key n) full))
  ]
]

pub push-IsCounted :
    (es : List Count) (key k : Bytes) (n w : ℕ)
    → n ≤ u64_max
    → find es key ≡ none
    → leb max_distinct_keys (length es) ≡ false
    → IsCounted es k w
    → IsCounted (es ++ record { key = key; count = n } ∷ []) k (w + (if eqb key k then n else 0))
push-IsCounted es key k n w h missing room old = elim (Bool-cases (eqb key k)) [
  | inl same ↦
      let here : find es k ≡ none = rw (sym ((eqb_iff key k).0 same)) missing in
      elim old [
        | inl o ↦ absurd (ground arith)
        | inr (o, inl z) ↦ inl (rw (find-push es key k n, o, same) (ap some (ground arith)))
        | inr (o, inr full) ↦ absurd (ground arith)
      ]
  | inr other ↦ elim old [
    | inl o ↦
        inl (rw (find-push es key k n, o, other) (ap (λ x. some (min u64_max x)) (omega arith)))
    | inr (o, inl z) ↦
        inr (rw (find-push es key k n, o, other) refl, inl (rw other (omega (arith, z))))
    | inr (o, inr full) ↦ absurd (ground arith)
  ]
]

pub full-IsCounted :
    (es : List Count) (key k : Bytes) (n w : ℕ)
    → find es key ≡ none
    → leb max_distinct_keys (length es) ≡ true
    → IsCounted es k w
    → IsCounted es k (w + (if eqb key k then n else 0))
full-IsCounted es key k n w missing full old = elim (Bool-cases (eqb key k)) [
  | inl same ↦ inr (rw (sym ((eqb_iff key k).0 same)) missing, inr (ground arith))
  | inr other ↦
      let none_more : w + (if eqb key k then n else 0) ≡ w = rw other (omega arith) in
      rw none_more old
]
