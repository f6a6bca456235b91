-- ===== src/Core/Span/Endian.antt =====
-- The loads as place-value sums, and as inverses of the encodings in either byte order.
use chrono_sift.Common.{
  ℕ, zero, suc, ◌+◌, ◌*◌, ◌/◌, ◌%◌, ◌^◌, ◌<◌, ◌≡◌, ◌∙◌, ap, arith, [], ◌∷◌, ◌++◌, Bytes, bit_or,
}
use mathlib.Core.Path.{ap₂}
use chrono_sift.Common.Bits.{two_pow, bit_or-disjoint, bit_or-disjoint_high}
use chrono_sift.Core.Span.{
  shl, load_u16_le, load_u16_be, load_u32_le, load_u32_be, load_u64_le, load_u64_be,
}

-- The encodings: `n` bytes of `v`, the lowest first, or the highest first.
abbrev pub bytes_le : ℕ → ℕ → Bytes
bytes_le zero v = []
bytes_le (suc n) v = (v % 256) ∷ bytes_le n (v / 256)

abbrev pub bytes_be : ℕ → ℕ → Bytes
bytes_be zero v = []
bytes_be (suc n) v = bytes_be n (v / 256) ++ (v % 256) ∷ []

or_shl_8 : (a b : ℕ) → a < 256 → b < 256 → bit_or a (shl 32 8 b) ≡ a + 256 * b
or_shl_8 a b ha hb =
    let e : shl 32 8 b ≡ two_pow 8 * b = omega arith in ap (bit_or a) e ∙ bit_or-disjoint 8 a b ha

or_shl_16 : (a b : ℕ) → a < 65536 → b < 256 → bit_or a (shl 32 16 b) ≡ a + 65536 * b
or_shl_16 a b ha hb =
    let e : shl 32 16 b ≡ two_pow 16 * b = omega arith in
    ap (bit_or a) e ∙ bit_or-disjoint 16 a b ha

or_shl_24 : (a b : ℕ) → a < 16777216 → b < 256 → bit_or a (shl 32 24 b) ≡ a + 16777216 * b
or_shl_24 a b ha hb =
    let e : shl 32 24 b ≡ two_pow 24 * b = omega arith in
    ap (bit_or a) e ∙ bit_or-disjoint 24 a b ha

pub or_bytes :
    (a b c d : ℕ)
    → a < 256
    → b < 256
    → c < 256
    → d < 256
    → bit_or (bit_or (bit_or a (shl 32 8 b)) (shl 32 16 c)) (shl 32 24 d)
      ≡ a + 256 * b + 65536 * c + 16777216 * d
or_bytes a b c d ha hb hc hd =
    ap (λ t. bit_or (bit_or t (shl 32 16 c)) (shl 32 24 d)) (or_shl_8 a b ha hb)
    ∙ ap (λ t. bit_or t (shl 32 24 d)) (or_shl_16 (a + 256 * b) c (omega arith) hc)
    ∙ or_shl_24 (a + 256 * b + 65536 * c) d (omega arith) hd

or_words_le : (lo hi : ℕ) → lo < 2 ^ 32 → hi < 2 ^ 32 → bit_or lo (shl 64 32 hi) ≡ lo + 2 ^ 32 * hi
or_words_le lo hi hl hh =
    let e : shl 64 32 hi ≡ two_pow 32 * hi = omega arith in
    ap (bit_or lo) e ∙ bit_or-disjoint 32 lo hi hl

or_words_be : (hi lo : ℕ) → hi < 2 ^ 32 → lo < 2 ^ 32 → bit_or (shl 64 32 hi) lo ≡ 2 ^ 32 * hi + lo
or_words_be hi lo hh hl =
    let e : shl 64 32 hi ≡ two_pow 32 * hi = omega arith in
    ap (λ t. bit_or t lo) e ∙ bit_or-disjoint_high 32 hi lo hl

load_u32_le_sum :
    (a b c d : ℕ) (rest : Bytes)
    → a < 256
    → b < 256
    → c < 256
    → d < 256
    → load_u32_le (a ∷ b ∷ c ∷ d ∷ rest) ≡ a + 256 * b + 65536 * c + 16777216 * d
unfolding load_u32_le
load_u32_le_sum a b c d rest = or_bytes a b c d

load_u32_be_sum :
    (a b c d : ℕ) (rest : Bytes)
    → a < 256
    → b < 256
    → c < 256
    → d < 256
    → load_u32_be (d ∷ c ∷ b ∷ a ∷ rest) ≡ a + 256 * b + 65536 * c + 16777216 * d
unfolding load_u32_be
load_u32_be_sum a b c d rest = or_bytes a b c d

pub loads_le :
    (v : ℕ) (rest : Bytes)
    → (v < 2 ^ 16 → load_u16_le (bytes_le 2 v ++ rest) ≡ v)
      × (v < 2 ^ 32 → load_u32_le (bytes_le 4 v ++ rest) ≡ v)
      × (v < 2 ^ 64 → load_u64_le (bytes_le 8 v ++ rest) ≡ v)
unfolding load_u16_le load_u64_le
loads_le v rest = (
  λ h. or_shl_8 (v % 256) (v / 256 % 256) (omega arith) (omega arith) ∙ omega arith,
  λ h.
      load_u32_le_sum (v % 256) (v / 256 % 256) (v / 256 / 256 % 256) (v / 256 / 256 / 256 % 256)
        rest (omega arith) (omega arith) (omega arith) (omega arith)
      ∙ omega arith,
  λ h.
      let lo =
        load_u32_le_sum (v % 256) (v / 256 % 256) (v / 256 / 256 % 256) (v / 256 / 256 / 256 % 256)
          (bytes_le 4 (v / 256 / 256 / 256 / 256) ++ rest) (omega arith) (omega arith) (omega arith)
          (omega arith) in
      let hi =
        load_u32_le_sum (v / 256 / 256 / 256 / 256 % 256) (v / 256 / 256 / 256 / 256 / 256 % 256)
          (v / 256 / 256 / 256 / 256 / 256 / 256 % 256)
          (v / 256 / 256 / 256 / 256 / 256 / 256 / 256 % 256) rest (omega arith) (omega arith)
          (omega arith) (omega arith) in
      ap₂ (λ l k. bit_or l (shl 64 32 k)) lo hi
      ∙ or_words_le _ _ (omega arith) (omega arith)
      ∙ omega arith,
)

pub loads_be :
    (v : ℕ) (rest : Bytes)
    → (v < 2 ^ 16 → load_u16_be (bytes_be 2 v ++ rest) ≡ v)
      × (v < 2 ^ 32 → load_u32_be (bytes_be 4 v ++ rest) ≡ v)
      × (v < 2 ^ 64 → load_u64_be (bytes_be 8 v ++ rest) ≡ v)
unfolding load_u16_be load_u64_be
loads_be v rest = (
  λ h. or_shl_8 (v % 256) (v / 256 % 256) (omega arith) (omega arith) ∙ omega arith,
  λ h.
      load_u32_be_sum (v % 256) (v / 256 % 256) (v / 256 / 256 % 256) (v / 256 / 256 / 256 % 256)
        rest (omega arith) (omega arith) (omega arith) (omega arith)
      ∙ omega arith,
  λ h.
      let lo =
        load_u32_be_sum (v % 256) (v / 256 % 256) (v / 256 / 256 % 256) (v / 256 / 256 / 256 % 256)
          rest (omega arith) (omega arith) (omega arith) (omega arith) in
      let hi =
        load_u32_be_sum (v / 256 / 256 / 256 / 256 % 256) (v / 256 / 256 / 256 / 256 / 256 % 256)
          (v / 256 / 256 / 256 / 256 / 256 / 256 % 256)
          (v / 256 / 256 / 256 / 256 / 256 / 256 / 256 % 256) (bytes_be 4 v ++ rest) (omega arith)
          (omega arith) (omega arith) (omega arith) in
      ap₂ (λ k l. bit_or (shl 64 32 k) l) hi lo
      ∙ or_words_be _ _ (omega arith) (omega arith)
      ∙ omega arith,
)

-- Each little-endian load reads back what the encoding of a value in its range wrote.
pub load_le-bytes_le :
    (u v w : ℕ) (rest : Bytes)
    → u < 2 ^ 16
    → v < 2 ^ 32
    → w < 2 ^ 64
    → (load_u16_le (bytes_le 2 u ++ rest) ≡ u)
      × (load_u32_le (bytes_le 4 v ++ rest) ≡ v)
      × (load_u64_le (bytes_le 8 w ++ rest) ≡ w)
load_le-bytes_le u v w rest h k l =
    ((loads_le u rest).0 h, (loads_le v rest).1 k, (loads_le w rest).2 l)

-- Each big-endian load reads back what the encoding of a value in its range wrote.
pub load_be-bytes_be :
    (u v w : ℕ) (rest : Bytes)
    → u < 2 ^ 16
    → v < 2 ^ 32
    → w < 2 ^ 64
    → (load_u16_be (bytes_be 2 u ++ rest) ≡ u)
      × (load_u32_be (bytes_be 4 v ++ rest) ≡ v)
      × (load_u64_be (bytes_be 8 w ++ rest) ≡ w)
load_be-bytes_be u v w rest h k l =
    ((loads_be u rest).0 h, (loads_be v rest).1 k, (loads_be w rest).2 l)
