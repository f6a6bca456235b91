-- ===== src/Core/Number/Signed.antt =====
-- `parse_i64` (src/core/string_util.cpp) against the value of a signed numeral.
use chrono_sift.Common.{
  ℕ, zero, suc, ◌+◌, ◌/◌, ◌%◌, ◌≤◌, ◌<◌, Bool, true, false, not, ◌&&◌, ◌||◌, [], ◌∷◌, inl, inr, ◌≡◌,
  refl, sym, ap, ◌∙◌, arith, ltb, leb, ◌==◌, if◌then◌else◌, Bytes, null, Bool-cases, Option, none,
  some,
}
use chrono_sift.Common.Int.{ℤ, pos, negsuc, pos_part, neg_part}
use chrono_sift.Core.Number.{
  u64_max, i64_max, bound_i64, signed_digits, parse_i64, decimal_onto, to_string, to_string_ℤ,
}
use chrono_sift.Core.Number.Decimal.{
  value_from, all_digits, digits_from-value, to_string-ne-nil, to_string-read,
}

-- Plus or minus a magnitude.
abbrev pub signed : Bool → ℕ → ℤ
signed neg zero = pos 0
signed neg (suc m) = if neg then negsuc m else pos (suc m)

-- The reading of digits under a sign: non-empty, all digits, and in the range of the type.
abbrev pub signed_value : Bool → Bytes → Option ℤ
signed_value neg s =
    if not (null s) && (all_digits s && leb (value_from 0 s) (if neg then i64_max + 1 else i64_max))
    then some (signed neg (value_from 0 s))
    else none

-- The reading of a text: an optional sign, then digits.
abbrev pub integer_value : Bytes → Option ℤ
integer_value [] = none
integer_value (c ∷ s) =
    if c == b'+' || c == b'-' then signed_value (c == b'-') s else signed_value false (c ∷ s)

bound_i64-value :
    (neg : Bool) (m : ℕ)
    → bound_i64 neg m
      ≡ (if leb m (if neg then i64_max + 1 else i64_max) then some (signed neg m) else none)
unfolding bound_i64
bound_i64-value true zero = refl
bound_i64-value true (suc m) = ground arith
bound_i64-value false zero = refl
bound_i64-value false (suc m) = ground arith

signed_digits-value : (neg : Bool) (s : Bytes) → signed_digits neg s ≡ signed_value neg s
unfolding signed_digits
signed_digits-value neg [] = refl
signed_digits-value neg (c ∷ s) =
    rw (digits_from-value 0 (c ∷ s) (omega arith))
      (go neg (all_digits (c ∷ s)) (value_from 0 (c ∷ s)))
  where
    go :
        (neg b : Bool) (v : ℕ)
        → elim (if b && leb v u64_max then some v else none) [
          | none ↦ none
          | some mag ↦ bound_i64 neg mag
        ]
          ≡ (if b && leb v (if neg then i64_max + 1 else i64_max)
              then some (signed neg v)
              else none)
    go neg false v = refl
    go true true v = ground (arith, bound_i64-value true v)
    go false true v = ground (arith, bound_i64-value false v)

-- `parse_i64` accepts exactly an optional sign in front of digits whose signed value lies in the
-- range of `i64`, and returns that value.
pub parse_i64-value : (s : Bytes) → parse_i64 s ≡ integer_value s
unfolding parse_i64
parse_i64-value [] = refl
parse_i64-value (c ∷ s) =
    rw (signed_digits-value (c == b'-') s, signed_digits-value false (c ∷ s)) refl

abbrev pub IsI64 : ℤ → Type 0
IsI64 z = (pos_part z ≤ i64_max) × (neg_part z ≤ i64_max + 1)

signed_value-IsI64 : (neg : Bool) (s : Bytes) {z : ℤ} → signed_value neg s ≡ some z → IsI64 z
signed_value-IsI64 neg s {z} h = go neg (not (null s)) (all_digits s) (value_from 0 s) h
  where
    go :
        (neg a b : Bool) (v : ℕ)
        → (if a && (b && leb v (if neg then i64_max + 1 else i64_max))
            then some (signed neg v)
            else none)
          ≡ some z
        → IsI64 z
    go true a b zero e = ground arith
    go true a b (suc v) e = ground arith
    go false a b zero e = ground arith
    go false a b (suc v) e = ground arith

-- What `parse_i64` returns is in the range of `i64`.
pub parse_i64-IsI64 : (s : Bytes) (z : ℤ) → parse_i64 s ≡ some z → IsI64 z
parse_i64-IsI64 s z h = go s (sym (parse_i64-value s) ∙ h)
  where
    go : (s : Bytes) → integer_value s ≡ some z → IsI64 z
    go [] e = cc
    go (c ∷ s) e =
        ground (
          arith,
          signed_value-IsI64 (c == b'-') s {z = z},
          signed_value-IsI64 false (c ∷ s) {z = z},
        )

-- A printed number starts with a digit.
decimal_onto-first :
    (fuel n : ℕ) (acc : Bytes)
    → n < fuel
    → (d : ℕ) × (s : Bytes) × (decimal_onto fuel n acc ≡ (b'0' + d) ∷ s) × (d ≤ 9)
unfolding decimal_onto
decimal_onto-first zero n acc h = absurd (omega arith)
decimal_onto-first (suc fuel) n acc h = elim (Bool-cases (ltb n 10)) [
  | inl small ↦ (n, acc, rw small, ground arith)
  | inr big ↦
      let (d, s, e, le) = decimal_onto-first fuel (n / 10) ((b'0' + n % 10) ∷ acc) (ground arith) in
      (d, s, rw big e, le)
]

pub to_string-first : (n : ℕ) → (d : ℕ) × (s : Bytes) × (to_string n ≡ (b'0' + d) ∷ s) × (d ≤ 9)
unfolding to_string
to_string-first n = decimal_onto-first (suc n) n [] (omega arith)

signed_digits-to_string :
    (neg : Bool) (n : ℕ) → n ≤ u64_max → signed_digits neg (to_string n) ≡ bound_i64 neg n
unfolding signed_digits
signed_digits-to_string neg n h = rw (to_string-ne-nil n) (rw (to_string-read n h))

parse_i64-unsigned :
    (d : ℕ) (s : Bytes) → d ≤ 9 → parse_i64 ((b'0' + d) ∷ s) ≡ signed_digits false ((b'0' + d) ∷ s)
unfolding parse_i64
parse_i64-unsigned d s h = ground arith

parse_i64-minus : (s : Bytes) → parse_i64 (b'-' ∷ s) ≡ signed_digits true s
unfolding parse_i64
parse_i64-minus s = refl

bound_i64-negative : (n : ℕ) → IsI64 (negsuc n) → bound_i64 true (suc n) ≡ some (negsuc n)
unfolding bound_i64
bound_i64-negative n h = ground arith

-- `parse_i64` reads back what `std::to_string` prints, over the whole range.
pub parse_i64-to_string : (z : ℤ) → IsI64 z → parse_i64 (to_string_ℤ z) ≡ some z
unfolding to_string_ℤ
parse_i64-to_string (pos n) h =
    let (d, s, e, le) = to_string-first n in
    ap parse_i64 e
    ∙ parse_i64-unsigned d s le
    ∙ ap (signed_digits false) (sym e)
    ∙ signed_digits-to_string false n (omega arith)
    ∙ go n h
  where
    go : (n : ℕ) → IsI64 (pos n) → bound_i64 false n ≡ some (pos n)
    go zero h = unfold bound_i64 in refl
    go (suc n) h = unfold bound_i64 in ground arith
parse_i64-to_string (negsuc n) h =
    parse_i64-minus (to_string (suc n))
    ∙ signed_digits-to_string true (suc n) (omega arith)
    ∙ bound_i64-negative n h
