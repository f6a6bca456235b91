-- ===== src/Event/Record/Shape.antt =====
-- `message_shape`: what makes two messages the same kind of event.
use chrono_sift.Common.{
  ℕ, ◌+◌, ◌≤◌, Bool, true, false, [], ◌∷◌, ◌≡◌, refl, sym, ap, ◌∙◌, arith, leb, if◌then◌else◌,
  Bytes, All, length, Bool-cases, inl, inr,
}
use chrono_sift.Core.Chars.{is_digit}
use chrono_sift.Event.Record.{shape_from, message_shape}

abbrev pub HasNoDigit : Bytes → Type 0
HasNoDigit s = All (λ c. is_digit c ≡ false) s

pick :
    (inside full : Bool) (passed out : Bytes)
    → HasNoDigit passed
    → HasNoDigit out
    → HasNoDigit (if inside then passed else if full then [] else out)
pick true full passed out h k = h
pick false true passed out h k = tt
pick false false passed out h k = k

hash : is_digit b'#' ≡ false
unfolding is_digit
hash = refl

shape_from-HasNoDigit : (inside : Bool) (n : ℕ) (s : Bytes) → HasNoDigit (shape_from inside n s)
unfolding shape_from
shape_from-HasNoDigit inside n [] = tt
shape_from-HasNoDigit inside n (c ∷ s) =
    let passed = shape_from-HasNoDigit true n s in
    let digit = shape_from-HasNoDigit true (n + 1) s in
    let other = shape_from-HasNoDigit false (n + 1) s in
    elim (Bool-cases (is_digit c)) [
      | inl p ↦ rw p (pick inside (leb 120 n) _ _ passed (hash, digit))
      | inr q ↦ rw q (pick false (leb 120 n) [] _ tt (q, other))
    ]

shape_from-bound :
    (inside : Bool) (n : ℕ) (s : Bytes) → n ≤ 120 → n + length (shape_from inside n s) ≤ 120
unfolding shape_from
shape_from-bound inside n [] h = omega arith
shape_from-bound inside n (c ∷ s) h = ground (
  arith,
  shape_from-bound true n s,
  shape_from-bound true (n + 1) s,
  shape_from-bound false (n + 1) s,
)

-- Two messages that differ only in their runs of digits. The flag: both are within such a run.
pub data Alike : Bool → Bytes → Bytes → Type 0 where
  end : {inside : Bool} → Alike inside [] []
  same :
      {inside : Bool} {c : ℕ} {s t : Bytes}
      → is_digit c ≡ false
      → Alike false s t
      → Alike inside (c ∷ s) (c ∷ t)
  run :
      {c d : ℕ} {s t : Bytes}
      → is_digit c ≡ true
      → is_digit d ≡ true
      → Alike true s t
      → Alike false (c ∷ s) (d ∷ t)
  left : {c : ℕ} {s t : Bytes} → is_digit c ≡ true → Alike true s t → Alike true (c ∷ s) t
  right : {d : ℕ} {s t : Bytes} → is_digit d ≡ true → Alike true s t → Alike true s (d ∷ t)

shape_from-other :
    (inside : Bool) (n c : ℕ) (s : Bytes)
    → is_digit c ≡ false
    → shape_from inside n (c ∷ s) ≡ (if leb 120 n then [] else c ∷ shape_from false (n + 1) s)
unfolding shape_from
shape_from-other inside n c s h = rw h

shape_from-run :
    (n c : ℕ) (s : Bytes)
    → is_digit c ≡ true
    → shape_from false n (c ∷ s) ≡ (if leb 120 n then [] else b'#' ∷ shape_from true (n + 1) s)
unfolding shape_from
shape_from-run n c s h = rw h

shape_from-inside :
    (n c : ℕ) (s : Bytes) → is_digit c ≡ true → shape_from true n (c ∷ s) ≡ shape_from true n s
unfolding shape_from
shape_from-inside n c s h = rw h

shape_from-Alike :
    (n : ℕ) {inside : Bool} {s t : Bytes}
    → Alike inside s t
    → shape_from inside n s ≡ shape_from inside n t
shape_from-Alike n end = refl
shape_from-Alike n (same {inside} {c} {s} {t} p a) =
    shape_from-other inside n c s p
    ∙ ap (λ (u : Bytes). if leb 120 n then [] else c ∷ u) (shape_from-Alike (n + 1) a)
    ∙ sym (shape_from-other inside n c t p)
shape_from-Alike n (run {c} {d} {s} {t} p q a) =
    shape_from-run n c s p
    ∙ ap (λ (u : Bytes). if leb 120 n then [] else b'#' ∷ u) (shape_from-Alike (n + 1) a)
    ∙ sym (shape_from-run n d t q)
shape_from-Alike n (left {c} {s} p a) = shape_from-inside n c s p ∙ shape_from-Alike n a
shape_from-Alike n (right {d} {s} {t} q a) = shape_from-Alike n a ∙ sym (shape_from-inside n d t q)

-- Messages that differ only in their runs of digits have the same shape, which has no digit and at
-- most 120 bytes.
pub message_shape_lem :
    (s t : Bytes)
    → Alike false s t
    → HasNoDigit (message_shape s)
      × (length (message_shape s) ≤ 120)
      × (message_shape s ≡ message_shape t)
unfolding message_shape
message_shape_lem s t a = (
  shape_from-HasNoDigit false 0 s,
  omega (arith, shape_from-bound false 0 s (omega arith)),
  shape_from-Alike 0 a,
)
