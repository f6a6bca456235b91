-- ===== src/Core/Encoding/Transcode.antt =====
-- `utf16le_to_utf8`: its output is valid UTF-8, whatever the input.
use chrono_sift.Common.{
  ℕ, zero, suc, ◌+◌, ◌-◌, ◌*◌, ◌/◌, ◌^◌, ◌≤◌, ◌<◌, ◌&&◌, List, [], ◌∷◌, ◌++◌, inl, inr, ◌≡◌, refl,
  ap, ◌∙◌, arith, ltb, if◌then◌else◌, Bytes, IsByte, length, All, get_or, drop, All-drop,
  Bool-cases, some, bit_or,
}
use chrono_sift.Common.Bits.{two_pow, bit_or-disjoint}
use chrono_sift.Core.Encoding.{
  utf8, unit, is_high, is_low, utf16_from, utf16le_to_utf8, is_valid_utf8,
}
use chrono_sift.Core.Encoding.Utf8.{IsScalar, encode_all, is_valid_utf8-encode_all}

get_or-IsByte : (s : Bytes) (i : ℕ) → All IsByte s → get_or s i 0 < 256
get_or-IsByte [] i h = omega arith
get_or-IsByte (c ∷ s) zero h = h.0
get_or-IsByte (c ∷ s) (suc i) h = get_or-IsByte s i h.1

unit-lt : (s : Bytes) → All IsByte s → unit s < 0x10000
unit-lt s h =
    let a = get_or s 0 0 in
    let b = get_or s 1 0 in
    let e : b * 2 ^ 8 ≡ two_pow 8 * b = omega arith in
    let d = ap (bit_or a) e ∙ bit_or-disjoint 8 a b (get_or-IsByte s 0 h) in
    omega (arith, d, get_or-IsByte s 0 h, get_or-IsByte s 1 h)

-- The output is the encoding of scalar values, at most one for each unit.
record Scalars (n : ℕ) (out : Bytes) : Type 0 where
  values : List ℕ
  encoded : out ≡ encode_all values
  scalar : All IsScalar values
  few : length values ≤ n

Scalars-nil : (n : ℕ) → Scalars n []
Scalars-nil n = record { values = []; encoded = refl; scalar = tt; few = omega arith }

Scalars-cons :
    (cp n m : ℕ) (out : Bytes) → IsScalar cp → n < m → Scalars n out → Scalars m (utf8 cp ++ out)
Scalars-cons cp n m out sc lt s = record {
  values = cp ∷ s.values;
  encoded = ap (λ t. utf8 cp ++ t) s.encoded;
  scalar = (sc, s.scalar);
  few = omega (arith, s.few);
}

replacement : IsScalar 0xfffd
replacement = record { in_range = omega arith; no_surrogate = inr (omega arith) }

utf16_from-Scalars :
    (fuel n : ℕ) (bytes : Bytes) → All IsByte bytes → Scalars n (utf16_from fuel n bytes)
unfolding utf16_from
utf16_from-Scalars zero n bytes h = Scalars-nil n
utf16_from-Scalars (suc fuel) zero bytes h = Scalars-nil 0
utf16_from-Scalars (suc fuel) (suc n) bytes h =
    let w = unit bytes in
    let w2 = unit (drop 2 bytes) in
    let next = utf16_from-Scalars fuel n (drop 2 bytes) (All-drop IsByte 2 bytes h) in
    let lone = Scalars-cons 0xfffd n (suc n) _ replacement (omega arith) next in
    elim (Bool-cases (is_high w)) [
      | inl high ↦ elim (Bool-cases (ltb 0 n && is_low w2)) [
        | inl pair ↦
            let cp = 0x10000 + (w - 0xd800) * 2 ^ 10 + (w2 - 0xdc00) in
            let sc : IsScalar cp = record {
              in_range = ground arith;
              no_surrogate = inr (ground arith);
            } in
            let later =
              utf16_from-Scalars fuel (n - 1) (drop 4 bytes) (All-drop IsByte 4 bytes h) in
            rw (high, utf16_from)
              (rw (pair, utf16_from) (Scalars-cons cp (n - 1) (suc n) _ sc (omega arith) later))
        | inr single ↦ rw (high, utf16_from) (rw (single, utf16_from) lone)
      ]
      | inr other ↦ elim (Bool-cases (is_low w)) [
        | inl low ↦ rw (other, utf16_from) (rw (low, utf16_from) lone)
        | inr plain ↦
            let lt = unit-lt bytes h in
            let sc : IsScalar w = record {
              in_range = omega (arith, lt);
              no_surrogate = ground arith;
            } in
            rw (other, utf16_from)
              (rw (plain, utf16_from) (Scalars-cons w n (suc n) _ sc (omega arith) next))
      ]
    ]

-- Whatever bytes and count of units come in, lone surrogates and a count beyond the input included,
-- the text that comes out is valid UTF-8, with at most one code point for each unit.
pub utf16le_to_utf8-valid :
    (bytes : Bytes) (units : ℕ)
    → All IsByte bytes
    → (k : ℕ) × (is_valid_utf8 (utf16le_to_utf8 bytes units) ≡ some k) × (k ≤ units)
unfolding utf16le_to_utf8
utf16le_to_utf8-valid bytes units h =
    let n = if ltb (length bytes / 2) units then length bytes / 2 else units in
    let s = utf16_from-Scalars n n bytes h in
    let le : n ≤ units = ground arith in
    (
      length s.values,
      ap is_valid_utf8 s.encoded ∙ is_valid_utf8-encode_all s.values s.scalar,
      omega (arith, s.few, le),
    )
