-- ===== src/Core/Number/Decimal.antt =====
-- `parse_u64` and `parse_i64` against the value of a decimal numeral, and `std::to_string`.
use native.Mathlib.Nat.{zero-add}
use chrono_sift.Common.{
  ℕ, zero, suc, ◌+◌, ◌-◌, ◌*◌, ◌/◌, ◌%◌, ◌≤◌, ◌<◌, Bool, true, false, not, ◌&&◌, [], ◌∷◌, inl, inr,
  ◌≡◌, refl, ◌∙◌, arith, ltb, leb, if◌then◌else◌, Bytes, null, Bool-cases, none, some,
}
use chrono_sift.Core.Chars.{is_digit}
use chrono_sift.Core.Number.{u64_max, digits_from, parse_u64, decimal_onto, to_string}

-- The value of a run of digits behind digits of the value `v`.
abbrev pub value_from : ℕ → Bytes → ℕ
value_from v [] = v
value_from v (c ∷ s) = value_from (v * 10 + (c - b'0')) s

abbrev pub all_digits : Bytes → Bool
all_digits [] = true
all_digits (c ∷ s) = is_digit c && all_digits s

value_from-le : (v : ℕ) (s : Bytes) → v ≤ value_from v s
value_from-le v [] = omega arith
value_from-le v (c ∷ s) = omega (arith, value_from-le (v * 10 + (c - b'0')) s)

-- The test for overflow in the loop is exact.
pub digits_from-value :
    (v : ℕ) (s : Bytes)
    → v ≤ u64_max
    → digits_from v s
      ≡ (if all_digits s && leb (value_from v s) u64_max then some (value_from v s) else none)
unfolding digits_from
digits_from-value v [] h = ground arith
digits_from-value v (c ∷ s) h = elim (Bool-cases (is_digit c)) [
  | inr bad ↦ rw bad
  | inl good ↦
      let d = c - b'0' in
      let small : d ≤ 9 = unfold is_digit in ground arith in
      elim (Bool-cases (ltb ((u64_max - d) / 10) v)) [
        | inl over ↦
            let big : u64_max < v * 10 + d = ground arith in
            let no_fit : leb (value_from (v * 10 + d) s) u64_max ≡ false =
              ground (arith, value_from-le (v * 10 + d) s) in
            rw (good, over, no_fit) (and-false (all_digits s))
        | inr fits ↦ rw (good, fits) (digits_from-value (v * 10 + d) s (ground arith))
      ]
]
  where
    and-false :
        (b : Bool) → none ≡ (if b && false then some (value_from (v * 10 + (c - b'0')) s) else none)
    and-false true = refl
    and-false false = refl

-- `parse_u64` accepts exactly the non-empty digit strings of a value that fits 64 bits, and returns
-- that value.
pub parse_u64-value :
    (s : Bytes)
    → parse_u64 s ≡ (
        if not (null s) && (all_digits s && leb (value_from 0 s) u64_max)
        then some (value_from 0 s)
        else none)
unfolding parse_u64
parse_u64-value [] = refl
parse_u64-value (c ∷ s) = digits_from-value 0 (c ∷ s) (omega arith)

-- The digits of a number behind a `v` of any value.
digits_from-digit :
    (v d : ℕ) (s : Bytes)
    → d ≤ 9
    → v * 10 + d ≤ u64_max
    → digits_from v ((b'0' + d) ∷ s) ≡ digits_from (v * 10 + d) s
unfolding digits_from is_digit
digits_from-digit v d s h fits =
    let e : b'0' + d - b'0' ≡ d = omega arith in
    let a : leb b'0' (b'0' + d) ≡ true = ground arith in
    let b : leb (b'0' + d) b'9' ≡ true = ground arith in
    let o : ltb ((u64_max - d) / 10) v ≡ false = ground arith in rw (e, a, b, o)

-- What `decimal_onto` puts in front of `acc` reads as the number.
decimal_onto-read :
    (fuel n : ℕ) (acc : Bytes)
    → n < fuel
    → n ≤ u64_max
    → digits_from 0 (decimal_onto fuel n acc) ≡ digits_from n acc
unfolding decimal_onto
decimal_onto-read zero n acc h fits = absurd (omega arith)
decimal_onto-read (suc fuel) n acc h fits = elim (Bool-cases (ltb n 10)) [
  | inl small ↦ rw small (digits_from-digit 0 n acc (ground arith) (omega arith) ∙ rw zero-add)
  | inr big ↦
      let e : n / 10 * 10 + n % 10 ≡ n = omega arith in
      rw big (
        decimal_onto-read fuel (n / 10) ((b'0' + n % 10) ∷ acc) (ground arith) (omega arith)
        ∙ digits_from-digit (n / 10) (n % 10) acc (omega arith) (omega arith)
        ∙ rw e)
]

decimal_onto-ne-nil : (fuel n : ℕ) (acc : Bytes) → n < fuel → null (decimal_onto fuel n acc) ≡ false
unfolding decimal_onto
decimal_onto-ne-nil zero n acc h = absurd (omega arith)
decimal_onto-ne-nil (suc fuel) n acc h = elim (Bool-cases (ltb n 10)) [
  | inl small ↦ rw small
  | inr big ↦ rw big (decimal_onto-ne-nil fuel (n / 10) _ (ground arith))
]

pub to_string-ne-nil : (n : ℕ) → null (to_string n) ≡ false
unfolding to_string
to_string-ne-nil n = decimal_onto-ne-nil (suc n) n [] (omega arith)

pub to_string-read : (n : ℕ) → n ≤ u64_max → digits_from 0 (to_string n) ≡ some n
unfolding to_string digits_from
to_string-read n fits = decimal_onto-read (suc n) n [] (omega arith) fits

-- `parse_u64` reads back what `std::to_string` prints.
pub parse_u64-to_string : (n : ℕ) → n ≤ u64_max → parse_u64 (to_string n) ≡ some n
unfolding parse_u64
parse_u64-to_string n fits = rw (to_string-ne-nil n) (to_string-read n fits)
