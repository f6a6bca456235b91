-- ===== src/Json/Scan.antt =====
-- The scalars of `JsonParser` (include/jsonlog/json_parser.hpp, src/jsonlog/json_parser.cpp). A
-- position in the text is the list of the bytes from it on.
pub mod Took
pub mod Strings
pub mod Numbers
mod Examples
use chrono_sift.Common.{
  ℕ, zero, suc, ◌+◌, ◌-◌, ◌*◌, ◌^◌, Bool, true, false, ◌&&◌, ◌||◌, [], ◌∷◌, ◌++◌, Option, none,
  some, ltb, leb, ◌==◌, if◌then◌else◌, Bytes, codes, length, take, Read, read,
}
use chrono_sift.Core.Chars.{is_digit}
use chrono_sift.Core.Number.{parse_i64}
use chrono_sift.Core.Encoding.{hex_nibble, nibbles, utf8, is_high, is_low}
use chrono_sift.Core.Status.{StatusCode, status, Result, success, failure}
use chrono_sift.Json.Value.{JsonValue, Floats}

pub record JsonLimits : Type 0 where
  pub max_depth : ℕ
  pub max_array_items : ℕ
  pub max_object_members : ℕ
  pub max_string_bytes : ℕ
  pub max_total_values : ℕ

-- `JsonLimits()`
abbrev pub default_limits : JsonLimits
default_limits = record {
  max_depth = 64;
  max_array_items = 2 ^ 16;
  max_object_members = 2 ^ 16;
  max_string_bytes = 2 ^ 20;
  max_total_values = 2 ^ 20;
}

abbrev pub malformed {ℓ} : {A : Type ℓ} → Bytes → Result A
malformed message = failure (status StatusCode.malformed message)

abbrev pub truncated {ℓ} : {A : Type ℓ} → Bytes → Result A
truncated message = failure (status StatusCode.truncated message)

abbrev pub over_limit {ℓ} : {A : Type ℓ} → Bytes → Result A
over_limit message = failure (status StatusCode.limit_exceeded message)

abbrev pub is_ws : ℕ → Bool
is_ws c = c == b' ' || c == b'\t' || c == b'\n' || c == b'\r'

unfoldable pub skip_ws : Bytes → Bytes
skip_ws [] = []
skip_ws (c ∷ s) = let rest = skip_ws s in if is_ws c then rest else c ∷ s

-- `(value << 4) | nib`, four times.
abbrev pub hex4 : Option ℕ → Option ℕ → Option ℕ → Option ℕ → Option ℕ
hex4 (some a) (some b) (some c) (some d) = some (nibbles (nibbles (nibbles (nibbles 0 a) b) c) d)
hex4 _ _ _ _ = none

abbrev pub read_from {ℓ} : {A : Type ℓ} → Option A → Bytes → Option (Read A)
read_from none s = none
read_from (some x) s = some (read x s)

-- `none` where it returns false.
unfoldable pub read_hex4 : Bytes → Option (Read ℕ)
unfolding hex_nibble
read_hex4 (a ∷ b ∷ c ∷ d ∷ s) =
    read_from (hex4 (hex_nibble a) (hex_nibble b) (hex_nibble c) (hex_nibble d)) s
read_hex4 _ = none

-- The low surrogate of the `\uXXXX` at the front, if one is there.
unfoldable pub low_surrogate : Bytes → Option (Read ℕ)
unfolding read_hex4
low_surrogate (a ∷ b ∷ s) =
    if a == b'\\' && b == b'u'
    then elim (read_hex4 s) [ none ↦ none | some r ↦ if is_low r.got then some r else none ]
    else none
low_surrogate _ = none

-- The bytes of a `\u` escape with the value `cp`, in front of the text `s`.
unfoldable pub unicode_escape : ℕ → Bytes → Read Bytes
unfolding utf8
unicode_escape cp s =
    if is_high cp
    then elim (low_surrogate s) [
      | some r ↦ read (utf8 (0x10000 + (cp - 0xd800) * 2 ^ 10 + (r.got - 0xdc00))) r.rest
      | none ↦ read (utf8 0xfffd) s
    ]
    else if is_low cp
    then read (utf8 0xfffd) s
    else read (utf8 cp) s

-- The escapes of one character, and the bytes they stand for.
unfoldable pub simple_escape : ℕ → Option ℕ
simple_escape c =
    if c == b'"'
    then some b'"'
    else if c == b'\\'
    then some b'\\'
    else if c == b'/'
    then some b'/'
    else if c == b'b'
    then some 0x08
    else if c == b'f'
    then some 0x0c
    else if c == b'n'
    then some b'\n'
    else if c == b'r'
    then some b'\r'
    else if c == b't'
    then some b'\t'
    else none

-- The escape after a backslash: the bytes it appends.
unfoldable pub escape : Bytes → Result (Read Bytes)
unfolding simple_escape
escape [] = truncated (codes "unterminated escape in string")
escape (c ∷ s) = elim (simple_escape c) [
  | some b ↦ success (read (b ∷ []) s)
  | none ↦ elim (c == b'u') [
    | true ↦ elim (read_hex4 s) [
      | none ↦ malformed (codes "invalid \\u escape in string")
      | some r ↦ success (unicode_escape r.got r.rest)
    ]
    | false ↦ malformed (codes "invalid escape in string")
  ]
]

-- A round of the loop of `parse_string` at a byte that is no quote: the bytes it appends.
unfoldable pub string_piece : ℕ → Bytes → Result (Read Bytes)
unfolding escape
string_piece c s =
    if c == b'\\'
    then escape s
    else if ltb c 0x20
    then malformed (codes "control character in string")
    else success (read (c ∷ []) s)

-- `if (out.size() > limits_.max_string_bytes)`
abbrev check_bytes : ℕ → Bytes → Bytes → Result (Read Bytes)
check_bytes limit out s =
    if ltb limit (length out)
    then over_limit (codes "string exceeds byte limit")
    else success (read out s)

-- The loop, on fuel; `none` where it runs out.
unfoldable pub string_from : ℕ → ℕ → Bytes → Bytes → Option (Result (Read Bytes))
string_from limit zero out s = none
string_from limit (suc fuel) out [] = some (truncated (codes "unterminated string"))
string_from limit (suc fuel) out (c ∷ s) = elim (c == b'"') [
  | true ↦ some (check_bytes limit out s)
  | false ↦ elim (string_piece c s) [
    | failure st ↦ some (failure st)
    | success r ↦ elim (check_bytes limit (out ++ r.got) r.rest) [
      | failure st ↦ some (failure st)
      | success q ↦ string_from limit fuel q.got q.rest
    ]
  ]
]

-- `parse_string`, after the opening quote.
unfoldable pub parse_string : JsonLimits → Bytes → Option (Result (Read Bytes))
parse_string limits s = string_from limits.max_string_bytes (suc (length s)) [] s

unfoldable pub skip_digits : Bytes → Bytes
skip_digits [] = []
skip_digits (c ∷ s) = let rest = skip_digits s in if is_digit c then rest else c ∷ s

abbrev pub starts_with_digit : Bytes → Bool
starts_with_digit [] = false
starts_with_digit (c ∷ s) = is_digit c

-- The position behind a part of a number, and `is_double` there.
pub record Scanned : Type 0 where
  pub is_double : Bool
  pub rest : Bytes

abbrev pub scanned : Bool → Bytes → Scanned
scanned is_double s = record { is_double = is_double; rest = s }

unfoldable pub skip_minus : Bytes → Bytes
skip_minus [] = []
skip_minus (c ∷ s) = if c == b'-' then s else c ∷ s

unfoldable pub integer_part : Bytes → Result Bytes
integer_part [] = malformed (codes "invalid number")
integer_part (c ∷ s) =
    if c == b'0'
    then success s
    else if leb b'1' c && leb c b'9'
    then success (skip_digits s)
    else malformed (codes "invalid number")

unfoldable pub fraction_part : Bytes → Result Scanned
fraction_part [] = success (scanned false [])
fraction_part (c ∷ s) =
    if c == b'.'
    then (if starts_with_digit s
        then success (scanned true (skip_digits s))
        else malformed (codes "missing fraction digits"))
    else success (scanned false (c ∷ s))

abbrev skip_sign : Bytes → Bytes
skip_sign [] = []
skip_sign (c ∷ s) = if c == b'+' || c == b'-' then s else c ∷ s

unfoldable pub exponent_part : Scanned → Result Scanned
exponent_part n = elim n.rest [
  | [] ↦ success n
  | c ∷ s ↦
      if c == b'e' || c == b'E'
      then (if starts_with_digit (skip_sign s)
          then success (scanned true (skip_digits (skip_sign s)))
          else malformed (codes "missing exponent digits"))
      else success n
]

-- The checks of a number: where its text ends.
unfoldable pub scan_number : Bytes → Result Scanned
scan_number s = elim (integer_part (skip_minus s)) [
  | failure st ↦ failure st
  | success t ↦ elim (fraction_part t) [ failure st ↦ failure st | success n ↦ exponent_part n ]
]

abbrev double_value : Option ℕ → Result JsonValue
double_value none = malformed (codes "unparseable number")
double_value (some d) = success (JsonValue.double d)

-- The value of a number's text.
unfoldable pub number_value : Floats → Bool → Bytes → Result JsonValue
number_value fl true token = double_value (fl.strtod token)
number_value fl false token = elim (parse_i64 token) [
  | some iv ↦ success (JsonValue.int iv)
  | none ↦ double_value (fl.strtod token)
]

unfoldable pub parse_number : Floats → Bytes → Result (Read JsonValue)
parse_number fl s = elim (scan_number s) [
  | failure st ↦ failure st
  | success n ↦ elim (number_value fl n.is_double (take (length s - length n.rest) s)) [
    | failure st ↦ failure st
    | success v ↦ success (read v n.rest)
  ]
]
