-- ===== src/Core/Encoding/Percent.antt =====
-- `percent_decode` against the grammar of an encoded text.
use chrono_sift.Core.Encoding.Hex.{nibbles-sum}
use chrono_sift.Common.{
  ℕ, ◌≤◌, false, [], ◌∷◌, ◌≡◌, refl, ap, ◌∙◌, arith, ◌==◌, Bytes, length, some, ◌*◌, ◌+◌, ◌<◌, ◌⊎◌,
  inl, inr, none, Option-cases, Bool-cases, leb, ◌&&◌,
}
use mathlib.Core.Path.{ap₂}
use chrono_sift.Core.Encoding.{hex_nibble, hex_pair, plain, percent_decode}

-- The hex digits of either case, with their values.
abbrev pub IsHexDigit : ℕ → ℕ → Type 0
IsHexDigit c v =
    ((48 ≤ c) × (c ≤ 57) × (c ≡ 48 + v))
    ⊎ (((65 ≤ c) × (c ≤ 70) × (c + 10 ≡ 65 + v)) ⊎ ((97 ≤ c) × (c ≤ 102) × (c + 10 ≡ 97 + v)))

-- The text does not begin with two hex digits.
abbrev pub NoHexPair : Bytes → Type 0
NoHexPair (h ∷ l ∷ text) = ((v : ℕ) → ¬ IsHexDigit h v) ⊎ ((v : ℕ) → ¬ IsHexDigit l v)
NoHexPair _ = Unit

-- `text` encodes `s`: a byte stands for itself, `+` for a space, and `%` with two hex digits, the
-- higher first, for the byte of that value; a `%` before anything else stands for itself.
pub data Encodes : Bytes → Bytes → Type 0 where
  end : Encodes [] []
  itself :
      {c : ℕ} {text s : Bytes}
      → (c == b'%') ≡ false
      → (c == b'+') ≡ false
      → Encodes text s
      → Encodes (c ∷ text) (c ∷ s)
  plus : {text s : Bytes} → Encodes text s → Encodes (b'+' ∷ text) (b' ' ∷ s)
  escape :
      {h l : ℕ} {text s : Bytes} (hi lo : ℕ)
      → IsHexDigit h hi
      → IsHexDigit l lo
      → Encodes text s
      → Encodes (b'%' ∷ h ∷ l ∷ text) ((16 * hi + lo) ∷ s)
  stray : {text s : Bytes} → NoHexPair text → Encodes text s → Encodes (b'%' ∷ text) (b'%' ∷ s)

hex_nibble-digit : (c v : ℕ) → IsHexDigit c v → (hex_nibble c ≡ some v) × (v < 16)
unfolding hex_nibble
hex_nibble-digit c v (inl d) = (ground (arith, d), omega (arith, d))
hex_nibble-digit c v (inr (inl d)) = (ground (arith, d), omega (arith, d))
hex_nibble-digit c v (inr (inr d)) = (ground (arith, d), omega (arith, d))

digit-hex_nibble : (c v : ℕ) → hex_nibble c ≡ some v → IsHexDigit c v
unfolding hex_nibble
digit-hex_nibble c v h = elim (Bool-cases (leb b'0' c && leb c b'9')) [
  | inl d ↦ inl (ground arith, ground arith, ground arith)
  | inr m ↦ elim (Bool-cases (leb b'a' c && leb c b'f')) [
    | inl d ↦ inr (inr (ground arith, ground arith, ground arith))
    | inr n ↦ inr (inl (ground arith, ground arith, ground arith))
  ]
]

hex_pair-digits :
    (h l hi lo : ℕ)
    → IsHexDigit h hi
    → IsHexDigit l lo
    → hex_pair (hex_nibble h) (hex_nibble l) ≡ some (16 * hi + lo)
hex_pair-digits h l hi lo p q =
    let a = hex_nibble-digit h hi p in
    let b = hex_nibble-digit l lo q in rw (a.0, b.0) (ap some (nibbles-sum hi lo b.1))

percent_decode-plain :
    (c : ℕ) (text : Bytes)
    → (c == b'%') ≡ false
    → percent_decode (c ∷ text) ≡ plain c ∷ percent_decode text
unfolding percent_decode
percent_decode-plain c [] e = refl
percent_decode-plain c (h ∷ []) e = refl
percent_decode-plain c (h ∷ l ∷ text) e = rw (e, percent_decode)

percent_decode-nil : percent_decode [] ≡ []
unfolding percent_decode
percent_decode-nil = refl

percent_decode-escape :
    (h l v : ℕ) (text : Bytes)
    → hex_pair (hex_nibble h) (hex_nibble l) ≡ some v
    → percent_decode (b'%' ∷ h ∷ l ∷ text) ≡ v ∷ percent_decode text
unfolding percent_decode
percent_decode-escape h l v text e = rw (e, percent_decode)

hex_pair-none :
    (h l : ℕ) (text : Bytes)
    → NoHexPair (h ∷ l ∷ text)
    → hex_pair (hex_nibble h) (hex_nibble l) ≡ none
hex_pair-none h l text n = elim (Option-cases (hex_nibble h)) [
  | inl a ↦ rw a refl
  | inr (hi, a) ↦ elim (Option-cases (hex_nibble l)) [
    | inl b ↦ rw (a, b) refl
    | inr (lo, b) ↦ elim n [
      | inl x ↦ absurd (x hi (digit-hex_nibble h hi a))
      | inr y ↦ absurd (y lo (digit-hex_nibble l lo b))
    ]
  ]
]

percent_decode-stray :
    (text : Bytes) → NoHexPair text → percent_decode (b'%' ∷ text) ≡ b'%' ∷ percent_decode text
unfolding percent_decode plain
percent_decode-stray [] n = refl
percent_decode-stray (h ∷ []) n = refl
percent_decode-stray (h ∷ l ∷ text) n = rw (hex_pair-none h l text n, percent_decode) refl

plain-itself : (c : ℕ) → (c == b'+') ≡ false → plain c ≡ c
unfolding plain
plain-itself c h = rw h

plain-plus : plain b'+' ≡ b' '
unfolding plain
plain-plus = refl

-- An encoded text decodes to what it encodes, where `%` and two hex digits of either case encode a byte,
-- `+` a space, a `%` before anything else itself, and any other byte itself.
pub percent_decode-Encodes : {text s : Bytes} → Encodes text s → percent_decode text ≡ s
percent_decode-Encodes end = percent_decode-nil
percent_decode-Encodes (itself {c} {text} p q t) =
    percent_decode-plain c text p
    ∙ ap₂ (λ (x : ℕ) u. x ∷ u) (plain-itself c q) (percent_decode-Encodes t)
percent_decode-Encodes (plus {text} t) =
    percent_decode-plain b'+' text refl
    ∙ ap₂ (λ (x : ℕ) u. x ∷ u) plain-plus (percent_decode-Encodes t)
percent_decode-Encodes (escape {h} {l} {text} hi lo p q t) =
    percent_decode-escape h l (16 * hi + lo) text (hex_pair-digits h l hi lo p q)
    ∙ ap (λ u. (16 * hi + lo) ∷ u) (percent_decode-Encodes t)
percent_decode-Encodes (stray {text} n t) =
    percent_decode-stray text n ∙ ap (λ u. b'%' ∷ u) (percent_decode-Encodes t)

-- Decoding makes no text longer.
pub length-percent_decode : (text : Bytes) → length (percent_decode text) ≤ length text
unfolding percent_decode
length-percent_decode [] = omega arith
length-percent_decode (c ∷ []) = omega arith
length-percent_decode (c ∷ h ∷ []) = omega (arith, length-percent_decode (h ∷ []))
length-percent_decode (c ∷ h ∷ l ∷ text) =
    ground (arith, length-percent_decode text, length-percent_decode (h ∷ l ∷ text))
