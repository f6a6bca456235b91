-- ===== src/Core/Text/Fields.antt =====
-- `split` (src/core/string_util.cpp), with a limit and without empty fields.
use chrono_sift.Common.{
  ℕ, ◌+◌, ◌-◌, ◌≤◌, ◌≡◌, min, true, false, ◌&&◌, ◌||◌, List, [], ◌∷◌, ◌++◌, inl, inr, arith, ltb,
  ◌==◌, if◌then◌else◌, Bytes, length, Bool-cases, All-append, ==_iff, ◌⊎◌,
}
use chrono_sift.Core.Text.{split_from, split, join}
use chrono_sift.Core.Text.Split.{Lacks, drop_empty, join-split, split-skip_empty}

-- How often `d` stands in a text.
abbrev pub occurrences : ℕ → Bytes → ℕ
occurrences d [] = 0
occurrences d (c ∷ s) = (if c == d then 1 else 0) + occurrences d s

-- No field but the last holds the delimiter.
abbrev pub AllButLast : ℕ → List Bytes → Type 0
AllButLast d [] = Unit
AllButLast d (p ∷ []) = Unit
AllButLast d (p ∷ q ∷ ps) = Lacks d p × AllButLast d (q ∷ ps)

-- What `max` cuts at most leave of a text: 0 is no limit.
pub record IsSplit (s : Bytes) (d max : ℕ) (parts : List Bytes) : Type 0 where
  pub joined : join parts (d ∷ []) ≡ s
  pub cuts : length parts ≡ (if max == 0 then occurrences d s else min max (occurrences d s)) + 1
  pub lack : AllButLast d parts

AllButLast-cons :
    (d : ℕ) (p : Bytes) (ps : List Bytes) → Lacks d p → AllButLast d ps → AllButLast d (p ∷ ps)
AllButLast-cons d p [] h k = tt
AllButLast-cons d p (q ∷ ps) h k = (h, k)

length-unlimited :
    (d n : ℕ) (cur s : Bytes) → length (split_from d false 0 n cur s) ≡ occurrences d s + 1
unfolding split_from
length-unlimited d n cur [] = omega arith
length-unlimited d n cur (c ∷ s) =
    ground (arith, length-unlimited d (n + 1) [] s, length-unlimited d n (cur ++ c ∷ []) s)

length-limited :
    (d max n : ℕ) (cur s : Bytes)
    → (max == 0) ≡ false
    → n ≤ max
    → length (split_from d false max n cur s) ≡ min (max - n) (occurrences d s) + 1
unfolding split_from
length-limited d max n cur [] m h = omega arith
length-limited d max n cur (c ∷ s) m h = elim (Bool-cases (ltb n max)) [
  | inl room ↦
      let next = length-limited d max (n + 1) [] s m (ground arith) in
      ground (arith, room, next, length-limited d max n (cur ++ c ∷ []) s m h)
  | inr full ↦ ground (arith, full, length-limited d max n (cur ++ c ∷ []) s m h)
]

length-split :
    (s : Bytes) (d max : ℕ)
    → length (split s d false max)
      ≡ (if max == 0 then occurrences d s else min max (occurrences d s)) + 1
unfolding split
length-split s d max = elim (Bool-cases (max == 0)) [
  | inl z ↦ rw ((==_iff max 0).0 z) (length-unlimited d 0 [] s)
  | inr m ↦ rw m (omega (arith, length-limited d max 0 [] s m (omega arith)))
]

split_from-AllButLast :
    (d max n : ℕ) (cur s : Bytes)
    → Lacks d cur ⊎ ((max == 0 || ltb n max) ≡ false)
    → AllButLast d (split_from d false max n cur s)
unfolding split_from
split_from-AllButLast d max n cur [] h = tt
split_from-AllButLast d max n cur (c ∷ s) (inr full) = rw full (
    let no : (c == d && false) ≡ false = ground arith in
    rw no (split_from-AllButLast d max n (cur ++ c ∷ []) s (inr full)))
split_from-AllButLast d max n cur (c ∷ s) (inl h) = elim (Bool-cases (max == 0 || ltb n max)) [
  | inr full ↦ rw full (
      let no : (c == d && false) ≡ false = ground arith in
      rw no (split_from-AllButLast d max n (cur ++ c ∷ []) s (inr full)))
  | inl room ↦ elim (Bool-cases (c == d)) [
    | inl cut ↦
        rw (room, cut)
          (AllButLast-cons d cur _ h (split_from-AllButLast d max (n + 1) [] s (inl tt)))
    | inr keep ↦
        rw (room, keep)
          (split_from-AllButLast d max n (cur ++ c ∷ []) s
            (inl (All-append (λ a. (a == d) ≡ false) cur (c ∷ []) h (keep, tt))))
  ]
]

-- Without `skip_empty`, `split` cuts the text at its first `max` delimiters, or at all of them when `max`
-- is 0 or there are fewer: joined by the delimiter the fields give the text, they are one more than the
-- cuts, and none but the last holds the delimiter. With `skip_empty` it gives the same fields without
-- the empty ones.
pub split-IsSplit :
    (s : Bytes) (d max : ℕ)
    → IsSplit s d max (split s d false max)
      × (split s d true max ≡ drop_empty (split s d false max))
unfolding split
split-IsSplit s d max = (
  record {
    joined = join-split s d max;
    cuts = length-split s d max;
    lack = split_from-AllButLast d max 0 [] s (inl tt);
  },
  split-skip_empty s d max,
)
