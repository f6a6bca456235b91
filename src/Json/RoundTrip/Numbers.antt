-- ===== src/Json/RoundTrip/Numbers.antt =====
-- `parse_number` reads back what `render_int` writes.
use chrono_sift.Common.{
  ℕ, zero, suc, ◌+◌, ◌-◌, ◌*◌, ◌/◌, ◌%◌, ◌≤◌, ◌<◌, ◌≡◌, refl, ◌∙◌, ap, inl, inr, Bool-cases, true,
  false, ◌&&◌, ◌||◌, [], ◌∷◌, ◌++◌, arith, length, length-append, null as is_empty, ◌^◌, take,
  take-append, Bytes, read, ltb, leb, ◌==◌,
}
use chrono_sift.Common.Int.{ℤ, pos, negsuc}
use chrono_sift.Core.Chars.{is_digit}
use chrono_sift.Core.Status.{success}
use chrono_sift.Core.Number.{decimal_onto, to_string, to_string_ℤ}
use chrono_sift.Core.Number.Decimal.{all_digits, to_string-ne-nil}
use chrono_sift.Core.Number.Signed.{to_string-first, IsI64, parse_i64-to_string}
use chrono_sift.Json.Value.{JsonValue, Floats, printed, render_int}
use chrono_sift.Json.Scan.{
  skip_digits, skip_minus, integer_part, fraction_part, exponent_part, scan_number, number_value,
  parse_number, scanned,
}

-- No byte that would go on with a number.
abbrev pub Stopped : Bytes → Type 0
Stopped [] = Unit
Stopped (c ∷ s) = (is_digit c ≡ false) × ((c == b'.') ≡ false) × ((c == b'e' || c == b'E') ≡ false)

skip_digits-run :
    (s rest : Bytes) → all_digits s ≡ true → Stopped rest → skip_digits (s ++ rest) ≡ rest
unfolding skip_digits
skip_digits-run [] [] h k = refl
skip_digits-run [] (c ∷ rest) h k = rw k.0
skip_digits-run (c ∷ s) rest h k = elim (Bool-cases (is_digit c)) [
  | inl y ↦ rw y (skip_digits-run s rest (ground arith) k)
  | inr n ↦ cc
]

-- A printed number: its first digit, which is not zero unless the number is, and more digits.
record IsPrinted (n : ℕ) (text : Bytes) : Type 0 where
  first : ℕ
  others : Bytes
  is_text : text ≡ (b'0' + first) ∷ others
  small : first ≤ 9
  positive : 0 < n → 0 < first
  digits : all_digits others ≡ true

digit_char : (d : ℕ) → d ≤ 9 → is_digit (b'0' + d) ≡ true
unfolding is_digit
digit_char d h = ground arith

decimal_onto-IsPrinted :
    (fuel n : ℕ) (acc : Bytes)
    → n < fuel
    → all_digits acc ≡ true
    → IsPrinted n (decimal_onto fuel n acc)
unfolding decimal_onto
decimal_onto-IsPrinted zero n acc h k = absurd (omega arith)
decimal_onto-IsPrinted (suc fuel) n acc h k = elim (Bool-cases (ltb n 10)) [
  | inl y ↦ record {
    first = n;
    others = acc;
    is_text = rw y;
    small = ground arith;
    positive = λ p. p;
    digits = k;
  }
  | inr m ↦
      let r =
        decimal_onto-IsPrinted fuel (n / 10) ((b'0' + n % 10) ∷ acc) (ground arith)
          (rw (digit_char (n % 10) (omega arith)) k) in
      record {
        first = r.first;
        others = r.others;
        is_text = rw m r.is_text;
        small = r.small;
        positive = λ p. r.positive (ground arith);
        digits = r.digits;
      }
]

integer_part-run :
    (n : ℕ) (text rest : Bytes)
    → IsPrinted n text
    → 0 < n
    → Stopped rest
    → integer_part (text ++ rest) ≡ success rest
unfolding integer_part
integer_part-run n text rest p h k =
    let d = p.first in
    let a : (b'0' + d == b'0') ≡ false = ground (arith, p.positive h) in
    let b : (leb b'1' (b'0' + d) && leb (b'0' + d) b'9') ≡ true =
      ground (arith, p.positive h, p.small) in
    rw p.is_text (rw (a, b) (ap success (skip_digits-run p.others rest p.digits k)))

integer_part-to_string :
    (n : ℕ) (rest : Bytes) → Stopped rest → integer_part (to_string n ++ rest) ≡ success rest
unfolding integer_part to_string decimal_onto
integer_part-to_string zero rest k = refl
integer_part-to_string (suc n) rest k =
    integer_part-run (suc n) (to_string (suc n)) rest
      (decimal_onto-IsPrinted (suc (suc n)) (suc n) [] (omega arith) refl) (omega arith) k

fraction_part-Stopped :
    (rest : Bytes) → Stopped rest → fraction_part rest ≡ success (scanned false rest)
unfolding fraction_part
fraction_part-Stopped [] k = refl
fraction_part-Stopped (c ∷ s) k = rw k.1

exponent_part-Stopped :
    (rest : Bytes)
    → Stopped rest
    → exponent_part (scanned false rest) ≡ success (scanned false rest)
unfolding exponent_part
exponent_part-Stopped [] k = refl
exponent_part-Stopped (c ∷ s) k = rw k.2

skip_minus-to_string :
    (n : ℕ) (rest : Bytes) → skip_minus (to_string n ++ rest) ≡ to_string n ++ rest
unfolding skip_minus to_string
skip_minus-to_string n rest =
    let p = decimal_onto-IsPrinted (suc n) n [] (omega arith) refl in
    let a : (b'0' + p.first == b'-') ≡ false = ground arith in rw p.is_text (rw a)

skip_minus-minus : (s : Bytes) → skip_minus (b'-' ∷ s) ≡ s
unfolding skip_minus
skip_minus-minus s = refl

scanned_from :
    (s t rest : Bytes)
    → skip_minus s ≡ t
    → integer_part t ≡ success rest
    → Stopped rest
    → scan_number s ≡ success (scanned false rest)
unfolding scan_number
scanned_from s t rest e h k =
    rw (e, scan_number)
      (rw (h, scan_number)
        (rw (fraction_part-Stopped rest k, scan_number) (exponent_part-Stopped rest k)))

scan_number-to_string_ℤ :
    (z : ℤ) (rest : Bytes)
    → Stopped rest
    → scan_number (to_string_ℤ z ++ rest) ≡ success (scanned false rest)
unfolding to_string_ℤ
scan_number-to_string_ℤ (pos n) rest k =
    scanned_from _ _ rest (skip_minus-to_string n rest) (integer_part-to_string n rest k) k
scan_number-to_string_ℤ (negsuc n) rest k =
    scanned_from _ _ rest (skip_minus-minus (to_string (suc n) ++ rest))
      (integer_part-to_string (suc n) rest k) k

token : (s rest : Bytes) → take (length (s ++ rest) - length rest) (s ++ rest) ≡ s
token s rest =
    ap (λ k. take k (s ++ rest)) (omega (arith, length-append {0} s rest)) ∙ take-append s rest

parse_number-to_string_ℤ :
    (fl : Floats) (z : ℤ) (rest : Bytes)
    → IsI64 z
    → Stopped rest
    → parse_number fl (to_string_ℤ z ++ rest) ≡ success (read (JsonValue.int z) rest)
unfolding parse_number number_value
parse_number-to_string_ℤ fl z rest h k =
    rw (scan_number-to_string_ℤ z rest k, parse_number)
      (rw (token (to_string_ℤ z) rest) (rw (parse_i64-to_string z h, number_value)))

-- A power of ten.
abbrev ten : ℕ → ℕ
ten zero = 1
ten (suc k) = 10 * ten k

length-decimal_onto :
    (fuel n k : ℕ) (acc : Bytes)
    → n < fuel
    → n < ten (suc k)
    → length (decimal_onto fuel n acc) ≤ suc k + length acc
unfolding decimal_onto
length-decimal_onto zero n k acc h b = absurd (omega arith)
length-decimal_onto (suc fuel) n zero acc h b =
    let y : ltb n 10 ≡ true = ground arith in rw y (omega arith)
length-decimal_onto (suc fuel) n (suc k) acc h b = elim (Bool-cases (ltb n 10)) [
  | inl y ↦ rw y (omega arith)
  | inr m ↦ rw m (
      omega (
        arith,
        length-decimal_onto fuel (n / 10) k ((b'0' + n % 10) ∷ acc) (ground arith) (omega arith),
      ))
]

length-to_string : (n : ℕ) → n < 10 ^ 19 → length (to_string n) ≤ 19
unfolding to_string
length-to_string n h =
    omega (arith, length-decimal_onto (suc n) n 18 [] (omega arith) (omega arith))

length-to_string_ℤ : (z : ℤ) → IsI64 z → length (to_string_ℤ z) ≤ 20
unfolding to_string_ℤ
length-to_string_ℤ (pos n) h = omega (arith, length-to_string n (omega (arith, h.0)))
length-to_string_ℤ (negsuc n) h = omega (arith, length-to_string (suc n) (omega (arith, h.1)))

to_string_ℤ-ne-nil : (z : ℤ) → is_empty (to_string_ℤ z) ≡ false
unfolding to_string_ℤ
to_string_ℤ-ne-nil (pos n) = to_string-ne-nil n
to_string_ℤ-ne-nil (negsuc n) = refl

-- An `i64` fits the buffer of `render_int`.
pub render_int-to_string_ℤ : (z : ℤ) → IsI64 z → render_int z ≡ to_string_ℤ z
unfolding render_int printed
render_int-to_string_ℤ z h =
    let fits : leb 32 (length (to_string_ℤ z)) ≡ false = ground (arith, length-to_string_ℤ z h) in
    rw (to_string_ℤ-ne-nil z) (rw fits)

-- An `i64` that `render_int` wrote is read back by `parse_number` in front of any byte that would not
-- go on with the number.
pub parse_number-render_int :
    (fl : Floats) (z : ℤ) (rest : Bytes)
    → IsI64 z
    → Stopped rest
    → parse_number fl (render_int z ++ rest) ≡ success (read (JsonValue.int z) rest)
parse_number-render_int fl z rest h k =
    ap (λ s. parse_number fl (s ++ rest)) (render_int-to_string_ℤ z h)
    ∙ parse_number-to_string_ℤ fl z rest h k

-- What `render_int` writes starts with a digit or a minus sign.
pub render_int-first :
    (z : ℤ)
    → IsI64 z
    → (c : ℕ) × (s : Bytes) × (render_int z ≡ c ∷ s) × ((c == b'-' || is_digit c) ≡ true)
unfolding to_string_ℤ
render_int-first (pos n) h =
    let (d, s, e, k) = to_string-first n in
    (b'0' + d, s, render_int-to_string_ℤ (pos n) h ∙ e, rw (digit_char d k) (ground arith))
render_int-first (negsuc n) h = (b'-', to_string (suc n), render_int-to_string_ℤ (negsuc n) h, refl)
