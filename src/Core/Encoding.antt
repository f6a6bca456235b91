-- ===== src/Core/Encoding.antt =====
-- Hex, percent, base64 and UTF codecs (src/core/encoding.cpp). A failing `Result` carries the
-- source's code and message. `hex_nibble` and `base64_value` return -1 for a bad character, which
-- is `none` here.
pub mod Hex
pub mod Percent
pub mod Groups
pub mod Base64
pub mod Utf8
pub mod Transcode
mod Examples
use chrono_sift.Common.{
  ℕ, zero, suc, ◌+◌, ◌-◌, ◌*◌, ◌/◌, ◌%◌, ◌^◌, Bool, true, false, not, ◌&&◌, ◌||◌, List, [], ◌∷◌,
  ◌++◌, Option, none, some, ltb, leb, ◌==◌, if◌then◌else◌, Bytes, codes, length, get_or, take, drop,
  bit_and, bit_or, min,
}
use chrono_sift.Core.Chars.{is_space}
use chrono_sift.Core.Status.{StatusCode, Result, success, failure, status}

unfoldable pub hex_nibble : ℕ → Option ℕ
hex_nibble c =
    if leb b'0' c && leb c b'9'
    then some (c - b'0')
    else if leb b'a' c && leb c b'f'
    then some (c - b'a' + 10)
    else if leb b'A' c && leb c b'F'
    then some (c - b'A' + 10)
    else none

-- `kHexLower[i]` for `i` below 16.
unfoldable pub hex_lower : ℕ → ℕ
hex_lower i = get_or (codes "0123456789abcdef") i 0

unfoldable pub to_hex : Bytes → Bytes
unfolding hex_lower
to_hex [] = []
to_hex (b ∷ bytes) = hex_lower (bit_and (b / 16) 0xf) ∷ hex_lower (bit_and b 0xf) ∷ to_hex bytes

-- `(hi << 4) | lo`
abbrev pub nibbles : ℕ → ℕ → ℕ
nibbles hi lo = bit_or (hi * 2 ^ 4) lo

-- The loop of `from_hex`, over pairs of characters, behind the bytes decoded so far.
unfoldable pub hex_from : Bytes → Bytes → Result Bytes
hex_from out (h ∷ l ∷ text) =
    let bad = failure (status StatusCode.invalid_field (codes "non-hex character")) in
    elim (hex_nibble h) [
      | none ↦ bad
      | some hi ↦ elim (hex_nibble l) [
        | none ↦ bad
        | some lo ↦ hex_from (out ++ nibbles hi lo ∷ []) text
      ]
    ]
hex_from out _ = success out

unfoldable pub from_hex : Bytes → Result Bytes
from_hex text =
    if not (length text % 2 == 0)
    then failure (status StatusCode.invalid_field (codes "hex string has odd length"))
    else hex_from [] text

-- The value of two hex digits.
abbrev pub hex_pair : Option ℕ → Option ℕ → Option ℕ
hex_pair (some hi) (some lo) = some (nibbles hi lo)
hex_pair _ _ = none

-- One byte of `percent_decode` where the next two are not a good escape.
unfoldable pub plain : ℕ → ℕ
plain c = if c == b'+' then b' ' else c

-- `percent_decode`: an escape is taken only where two hex digits follow; a `%` before anything else
-- stays as it is.
unfoldable pub percent_decode : Bytes → Bytes
percent_decode [] = []
percent_decode (c ∷ []) = plain c ∷ []
percent_decode (c ∷ h ∷ []) = plain c ∷ percent_decode (h ∷ [])
percent_decode (c ∷ h ∷ l ∷ text) = elim (c == b'%') [
  | true ↦ elim (hex_pair (hex_nibble h) (hex_nibble l)) [
    | some v ↦ v ∷ percent_decode text
    | none ↦ c ∷ percent_decode (h ∷ l ∷ text)
  ]
  | false ↦ plain c ∷ percent_decode (h ∷ l ∷ text)
]

unfoldable pub base64_value : ℕ → Option ℕ
base64_value c =
    if leb b'A' c && leb c b'Z'
    then some (c - b'A')
    else if leb b'a' c && leb c b'z'
    then some (c - b'a' + 26)
    else if leb b'0' c && leb c b'9'
    then some (c - b'0' + 52)
    else if c == b'+'
    then some 62
    else if c == b'/'
    then some 63
    else none

-- The loop's variables: the accumulator (32 bits), the bits that it still holds, the sextets seen,
-- and the bytes out.
pub record Sextets : Type 0 where
  pub acc : ℕ
  pub bits : ℕ
  pub seen : ℕ
  pub out : Bytes

-- One sextet.
unfoldable pub sextet : Sextets → ℕ → Sextets
sextet s v =
    let acc = bit_or (s.acc * 2 ^ 6 % 2 ^ 32) v in
    let bits = s.bits + 6 in
    if leb 8 bits
    then record {
      acc = acc;
      bits = bits - 8;
      seen = s.seen + 1;
      out = s.out ++ bit_and (acc / 2 ^ (bits - 8)) 0xff ∷ [];
    }
    else record { acc = acc; bits = bits; seen = s.seen + 1; out = s.out }

-- `none` is the invalid character.
unfoldable pub base64_loop : Sextets → Bytes → Option Sextets
base64_loop s [] = some s
base64_loop s (c ∷ text) =
    let skipped = base64_loop s text in
    if is_space c
    then skipped
    else if c == b'='
    then some s
    else elim (base64_value c) [ none ↦ none | some v ↦ base64_loop (sextet s v) text ]

unfoldable pub base64_decode : Bytes → Result Bytes
base64_decode text = elim (base64_loop (record { acc = 0; bits = 0; seen = 0; out = [] }) text) [
  | none ↦ failure (status StatusCode.invalid_field (codes "invalid base64 character"))
  | some s ↦
      if s.seen % 4 == 1
      then failure (status StatusCode.invalid_field (codes "truncated base64 group"))
      else success s.out
]

-- The class of a lead byte above 0x7f: continuation bytes, bits of the code point, least code point.
pub record Lead : Type 0 where
  pub extra : ℕ
  pub cp : ℕ
  pub min_cp : ℕ

unfoldable pub lead : ℕ → Option Lead
lead b =
    if bit_and b 0xe0 == 0xc0
    then some (record { extra = 1; cp = bit_and b 0x1f; min_cp = 0x80 })
    else if bit_and b 0xf0 == 0xe0
    then some (record { extra = 2; cp = bit_and b 0x0f; min_cp = 0x800 })
    else if bit_and b 0xf8 == 0xf0
    then some (record { extra = 3; cp = bit_and b 0x07; min_cp = 0x10000 })
    else none

-- The loop over `extra` continuation bytes; `none` where a byte is bad. The cursor has been checked.
unfoldable pub continuation : ℕ → ℕ → Bytes → Option ℕ
continuation zero cp s = some cp
continuation (suc k) cp [] = none
continuation (suc k) cp (cb ∷ s) =
    let rest = continuation k (bit_or (cp * 2 ^ 6 % 2 ^ 32) (bit_and cb 0x3f)) s in
    if not (bit_and cb 0xc0 == 0x80) then none else rest

-- Not overlong, in range, no surrogate.
unfoldable pub is_scalar : ℕ → ℕ → Bool
is_scalar min_cp cp =
    if ltb cp min_cp
    then false
    else if ltb 0x10ffff cp
    then false
    else not (leb 0xd800 cp && leb cp 0xdfff)

-- `is_valid_utf8` over the bytes from `i` on, on fuel: each round passes a byte. The result is the
-- number of code points, `none` where the function returns false.
unfoldable pub utf8_from : ℕ → ℕ → Bytes → Option ℕ
utf8_from fuel cps [] = some cps
utf8_from zero cps (b ∷ s) = none
utf8_from (suc fuel) cps (b ∷ s) = elim (ltb b 0x80) [
  | true ↦ utf8_from fuel (cps + 1) s
  | false ↦ elim (lead b) [
    | none ↦ none
    | some l ↦ elim (leb (length (b ∷ s)) l.extra) [
      | true ↦ none
      | false ↦ elim (continuation l.extra l.cp s) [
        | none ↦ none
        | some cp ↦ elim (is_scalar l.min_cp cp) [
          | false ↦ none
          | true ↦ utf8_from fuel (cps + 1) (drop l.extra s)
        ]
      ]
    ]
  ]
]

unfoldable pub is_valid_utf8 : Bytes → Option ℕ
is_valid_utf8 bytes = utf8_from (length bytes) 0 bytes

-- What `append_utf8` appends.
unfoldable pub utf8 : ℕ → Bytes
utf8 cp =
    if ltb cp 0x80
    then cp ∷ []
    else if ltb cp 0x800
    then bit_or 0xc0 (cp / 2 ^ 6) ∷ bit_or 0x80 (bit_and cp 0x3f) ∷ []
    else if ltb cp 0x10000
    then bit_or 0xe0 (cp / 2 ^ 12)
      ∷ bit_or 0x80 (bit_and (cp / 2 ^ 6) 0x3f)
      ∷ bit_or 0x80 (bit_and cp 0x3f)
      ∷ []
    else bit_or 0xf0 (cp / 2 ^ 18)
      ∷ bit_or 0x80 (bit_and (cp / 2 ^ 12) 0x3f)
      ∷ bit_or 0x80 (bit_and (cp / 2 ^ 6) 0x3f)
      ∷ bit_or 0x80 (bit_and cp 0x3f)
      ∷ []

-- A UTF-16 unit at the front of the bytes.
abbrev pub unit : Bytes → ℕ
unit bytes = bit_or (get_or bytes 0 0) (get_or bytes 1 0 * 2 ^ 8)

abbrev pub is_high : ℕ → Bool
is_high w = leb 0xd800 w && leb w 0xdbff

abbrev pub is_low : ℕ → Bool
is_low w = leb 0xdc00 w && leb w 0xdfff

-- The loop of `utf16le_to_utf8` over the `n` units left, on fuel.
unfoldable pub utf16_from : ℕ → ℕ → Bytes → Bytes
utf16_from zero n bytes = []
utf16_from (suc fuel) zero bytes = []
utf16_from (suc fuel) (suc n) bytes =
    let w = unit bytes in
    let w2 = unit (drop 2 bytes) in
    elim (is_high w) [
      | true ↦ elim (ltb 0 n && is_low w2) [
        | true ↦
            utf8 (0x10000 + (w - 0xd800) * 2 ^ 10 + (w2 - 0xdc00))
            ++ utf16_from fuel (n - 1) (drop 4 bytes)
        | false ↦ utf8 0xfffd ++ utf16_from fuel n (drop 2 bytes)
      ]
      | false ↦ elim (is_low w) [
        | true ↦ utf8 0xfffd ++ utf16_from fuel n (drop 2 bytes)
        | false ↦ utf8 w ++ utf16_from fuel n (drop 2 bytes)
      ]
    ]

unfoldable pub utf16le_to_utf8 : Bytes → ℕ → Bytes
utf16le_to_utf8 bytes units =
    let avail_units = length bytes / 2 in
    let n = if ltb avail_units units then avail_units else units in utf16_from n n bytes
