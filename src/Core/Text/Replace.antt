-- ===== src/Core/Text/Replace.antt =====
-- `find` and `replace_all`.
use chrono_sift.Common.{
  ℕ, zero, suc, ◌+◌, ◌≤◌, ◌<◌, ◌≡◌, true, false, [], ◌∷◌, ◌++◌, Option, none, some, arith, refl,
  sym, ap, ◌∙◌, Bytes, length, take, drop, null, eqb, eqb_iff, leb, Bool-cases, Option-cases, inl,
  inr, take-append-drop, length-drop,
}
use chrono_sift.Core.Text.{starts_with, find, replace_from, replace_all}

starts_with-splits :
    (s prefix : Bytes)
    → starts_with s prefix ≡ true
    → (prefix ++ drop (length prefix) s ≡ s) × (length prefix ≤ length s)
unfolding starts_with
starts_with-splits s prefix h =
    let fits : leb (length prefix) (length s) ≡ true = ground (arith, h) in
    let same : eqb (take (length prefix) s) prefix ≡ true = ground (arith, h) in
    (
      ap (λ t. t ++ drop (length prefix) s) (sym ((eqb_iff (take (length prefix) s) prefix).0 same))
          ∙ take-append-drop (length prefix) s,
      ground (arith, fits),
    )

-- The text splits at the place found, and the needle stands there.
abbrev pub Splits : Bytes → Bytes → ℕ → Type 0
Splits needle s i =
    (take i s ++ (needle ++ drop (i + length needle) s) ≡ s) × (i + length needle ≤ length s)

abbrev Found : Bytes → Bytes → Option ℕ → Type 0
Found needle s none = Unit
Found needle s (some i) = Splits needle s i

Splits-zero : (needle s : Bytes) → starts_with s needle ≡ true → Splits needle s 0
Splits-zero needle s h =
    let n : 0 + length needle ≡ length needle = omega arith in
    let split = starts_with-splits s needle h in (rw n split.0, omega (arith, split.1))

Splits-suc :
    (needle : Bytes) (c : ℕ) (s : Bytes) (i : ℕ) → Splits needle s i → Splits needle (c ∷ s) (suc i)
Splits-suc needle c s i h =
    let n : suc i + length needle ≡ suc (i + length needle) = omega arith in
    (rw n (ap (λ t. c ∷ t) h.0), omega (arith, h.1))

find-Found : (needle s : Bytes) → Found needle s (find needle s)
unfolding find
find-Found [] [] = (refl, omega arith)
find-Found (x ∷ needle) [] = tt
find-Found needle (c ∷ s) = elim (Bool-cases (starts_with (c ∷ s) needle)) [
  | inl y ↦ rw (y, find) (Splits-zero needle (c ∷ s) y)
  | inr n ↦ rw (n, find) (later needle c s (find needle s) (find-Found needle s))
]
  where
    later :
        (needle : Bytes) (c : ℕ) (s : Bytes) (o : Option ℕ)
        → Found needle s o
        → Found needle (c ∷ s) (elim o [ some i ↦ some (suc i) | none ↦ none ])
    later needle c s none h = tt
    later needle c s (some i) h = Splits-suc needle c s i h

pub find-Splits : (needle s : Bytes) (i : ℕ) → find needle s ≡ some i → Splits needle s i
find-Splits needle s i e = rw e at (find-Found needle s)

-- The rest after a needle that is not empty is shorter than the text.
pub rest_shorter :
    (needle s : Bytes) (i : ℕ)
    → null needle ≡ false
    → find needle s ≡ some i
    → length (drop (i + length needle) s) < length s
rest_shorter [] s i h e = absurd (ground arith)
rest_shorter (x ∷ needle) s i h e =
    omega (arith, (find-Splits (x ∷ needle) s i e).1, length-drop {0} (i + length (x ∷ needle)) s)

pub replace_from-found :
    (f i : ℕ) (s from to : Bytes)
    → find from s ≡ some i
    → replace_from (suc f) s from to
      ≡ take i s ++ (to ++ replace_from f (drop (i + length from) s) from to)
unfolding replace_from
replace_from-found f i s from to e = rw (e, replace_from) refl

pub replace_from-absent :
    (f : ℕ) (s from to : Bytes) → find from s ≡ none → replace_from (suc f) s from to ≡ s
unfolding replace_from
replace_from-absent f s from to e = rw (e, replace_from) refl

replace_from-same : (f : ℕ) (s from : Bytes) → replace_from f s from from ≡ s
unfolding replace_from
replace_from-same zero s from = refl
replace_from-same (suc f) s from = elim (Option-cases (find from s)) [
  | inl n ↦ rw (n, replace_from) refl
  | inr (i, e) ↦
      rw (e, replace_from)
        (ap (λ t. take i s ++ (from ++ t)) (replace_from-same f (drop (i + length from) s) from)
          ∙ (find-Splits from s i e).0)
]

-- To put a text in place of itself changes nothing.
pub replace_all_same : (s from : Bytes) → replace_all s from from ≡ s
unfolding replace_all
replace_all_same s from = elim (Bool-cases (null from)) [
  | inl y ↦ rw y refl
  | inr n ↦ rw n (replace_from-same (suc (length s)) s from)
]
