-- ===== src/Json/Scan/Numbers.antt =====
-- `parse_number` gives numbers in range.
use chrono_sift.Common.{
  ◌||◌, take, leb, ◌&&◌, ◌==◌, Option-cases, ℕ, ◌-◌, ◌≤◌, ◌≡◌, refl, inl, inr, Bool-cases, Bool,
  true, false, [], ◌∷◌, Option, none, some, arith, length, Bytes, Read, read,
}
use chrono_sift.Core.Status.{Result, success, failure}
use chrono_sift.Core.Number.Signed.{parse_i64-IsI64}
use chrono_sift.Json.Limits.{IsWithin, nodes}
use chrono_sift.Json.Value.{depth, JsonValue, Floats}
use chrono_sift.Json.Scan.{
  parse_i64, double_value, scanned, starts_with_digit, skip_sign, skip_minus, JsonLimits,
  integer_part, fraction_part, exponent_part, scan_number, number_value, parse_number, Scanned,
}
use chrono_sift.Json.Scan.Took.{length-skip_digits, IsJsonError, Took}

-- A failure with one of the codes, or a position with at most `n` bytes left.
abbrev Stops : ℕ → Result Scanned → Type 0
Stops n (failure st) = IsJsonError st
Stops n (success q) = length q.rest ≤ n

abbrev StopsAt : ℕ → Result Bytes → Type 0
StopsAt n (failure st) = IsJsonError st
StopsAt n (success t) = length t ≤ n

length-skip_minus : (s : Bytes) → length (skip_minus s) ≤ length s
unfolding skip_minus
length-skip_minus [] = omega arith
length-skip_minus (c ∷ s) = ground arith

length-skip_sign : (s : Bytes) → length (skip_sign s) ≤ length s
length-skip_sign [] = omega arith
length-skip_sign (c ∷ s) = ground arith

integer_part-StopsAt : (s : Bytes) → StopsAt (length s) (integer_part s)
unfolding integer_part
integer_part-StopsAt [] = inl refl
integer_part-StopsAt (c ∷ s) = elim (Bool-cases (c == b'0')) [
  | inl y ↦ rw y (omega arith)
  | inr n ↦ elim (Bool-cases (leb b'1' c && leb c b'9')) [
    | inl y ↦ rw (n, y) (omega (arith, length-skip_digits s))
    | inr m ↦ rw (n, m) (inl refl)
  ]
]

fraction_part-Stops : (s : Bytes) → Stops (length s) (fraction_part s)
unfolding fraction_part
fraction_part-Stops [] = omega arith
fraction_part-Stops (c ∷ s) = elim (Bool-cases (c == b'.')) [
  | inl y ↦ elim (Bool-cases (starts_with_digit s)) [
    | inl z ↦ rw (y, z) (omega (arith, length-skip_digits s))
    | inr n ↦ rw (y, n) (inl refl)
  ]
  | inr n ↦ rw n (omega arith)
]

exponent_part-Stops :
    (double : Bool) (s : Bytes) → Stops (length s) (exponent_part (scanned double s))
unfolding exponent_part
exponent_part-Stops double [] = omega arith
exponent_part-Stops double (c ∷ s) = elim (Bool-cases (c == b'e' || c == b'E')) [
  | inl y ↦ elim (Bool-cases (starts_with_digit (skip_sign s))) [
    | inl z ↦ rw (y, z) (omega (arith, length-skip_digits (skip_sign s), length-skip_sign s))
    | inr n ↦ rw (y, n) (inl refl)
  ]
  | inr n ↦ rw n (omega arith)
]

Stops-weaken : (r : Result Scanned) {m n : ℕ} → Stops m r → m ≤ n → Stops n r
Stops-weaken (failure st) h le = h
Stops-weaken (success q) h le = omega arith

scan_number-Stops : (s : Bytes) → Stops (length s) (scan_number s)
unfolding scan_number
scan_number-Stops s =
    integer (integer_part (skip_minus s)) (integer_part-StopsAt (skip_minus s))
      (length-skip_minus s)
  where
    fraction :
        {m n : ℕ} (r : Result Scanned)
        → Stops m r
        → m ≤ n
        → Stops n (elim r as (λ x. Result Scanned) [
          | failure st ↦ failure st
          | success q ↦ exponent_part q
        ])
    fraction (failure st) h le = h
    fraction (success q) h le =
        Stops-weaken (exponent_part q) (exponent_part-Stops q.is_double q.rest) (omega arith)

    integer :
        {m n : ℕ} (r : Result Bytes)
        → StopsAt m r
        → m ≤ n
        → Stops n (elim r as (λ x. Result Scanned) [
          | failure st ↦ failure st
          | success t ↦ elim (fraction_part t) as (λ x. Result Scanned) [
            | failure st ↦ failure st
            | success q ↦ exponent_part q
          ]
        ])
    integer (failure st) h le = h
    integer (success t) h le = fraction (fraction_part t) (fraction_part-Stops t) (omega arith)

-- A scalar within the limits.
abbrev pub IsScalarWithin : JsonLimits → JsonValue → Type 0
IsScalarWithin l v = IsWithin l v × (depth v ≡ 1) × (nodes v ≡ 1)

abbrev IsNumber : JsonLimits → Result JsonValue → Type 0
IsNumber l (failure st) = IsJsonError st
IsNumber l (success v) = IsScalarWithin l v

double_value-IsNumber : (l : JsonLimits) (o : Option ℕ) → IsNumber l (double_value o)
unfolding IsWithin depth nodes
double_value-IsNumber l none = inl refl
double_value-IsNumber l (some d) = (tt, refl, refl)

number_value-IsNumber :
    (l : JsonLimits) (fl : Floats) (double : Bool) (token : Bytes)
    → IsNumber l (number_value fl double token)
unfolding number_value IsWithin depth nodes
number_value-IsNumber l fl true token = double_value-IsNumber l (fl.strtod token)
number_value-IsNumber l fl false token = elim (Option-cases (parse_i64 token)) [
  | inl n ↦ rw (n, number_value) (double_value-IsNumber l (fl.strtod token))
  | inr (z, e) ↦ rw (e, number_value) (parse_i64-IsI64 token z e, refl, refl)
]

-- `parse_number` returns a number, in the range of `i64` where it is an integer, or a failure.
pub parse_number-Took :
    (l : JsonLimits) (fl : Floats) (s : Bytes)
    → Took (IsScalarWithin l) (length s) (parse_number fl s)
unfolding parse_number
parse_number-Took l fl s = scan (scan_number s) (scan_number-Stops s)
  where
    value :
        (n : ℕ) (rest : Bytes) (r : Result JsonValue)
        → IsNumber l r
        → length rest ≤ n
        → Took (IsScalarWithin l) n (elim r as (λ x. Result (Read JsonValue)) [
          | failure st ↦ failure st
          | success v ↦ success (read v rest)
        ])
    value n rest (failure st) h le = h
    value n rest (success v) h le = (h, le)

    scan :
        (r : Result Scanned)
        → Stops (length s) r
        → Took (IsScalarWithin l) (length s) (elim r as (λ x. Result (Read JsonValue)) [
          | failure st ↦ failure st
          | success n ↦
              elim (number_value fl n.is_double (take (length s - length n.rest) s))
                as (λ x. Result (Read JsonValue)) [
                  | failure st ↦ failure st
                  | success v ↦ success (read v n.rest)
                ]
        ])
    scan (failure st) h = h
    scan (success n) h =
        value (length s) n.rest _
          (number_value-IsNumber l fl n.is_double (take (length s - length n.rest) s)) h
