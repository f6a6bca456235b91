-- ===== src/Core/Encoding/Groups.antt =====
-- The letters of base64, and what the loop of `base64_decode` makes of a group of four.
use chrono_sift.Common.{
  ℕ, ◌+◌, ◌*◌, ◌/◌, ◌%◌, ◌^◌, ◌<◌, Bool, true, false, not, ◌&&◌, [], ◌∷◌, ◌++◌, ◌≡◌, refl, ap, ◌∙◌,
  arith, ◌==◌, Bytes, get_or, Option, none, some, bit_or, codes,
}
use chrono_sift.Common.Bits.{every_below, every_below_sound, bit_or-disjoint_high, bit_and_0xff}
use chrono_sift.Core.Chars.{is_space}
use chrono_sift.Core.Encoding.{base64_value, Sextets, sextet, base64_loop}

-- The alphabet of RFC 4648, section 4.
abbrev pub letter : ℕ → ℕ
letter v = get_or (codes "ABCDEFGHIJKLMNOPQRSTUVWXYZabcdefghijklmnopqrstuvwxyz0123456789+/") v 0

abbrev pub encode_three : ℕ → ℕ → ℕ → Bytes → Bytes
encode_three a b c rest =
    letter (a / 4)
    ∷ letter (a % 4 * 16 + b / 16)
    ∷ letter (b % 16 * 4 + c / 64)
    ∷ letter (c % 64)
    ∷ rest

abbrev letter_test : ℕ → Bool
letter_test v =
    not (is_space (letter v))
    && not (letter v == b'=')
    && elim (base64_value (letter v)) [ none ↦ false | some w ↦ w == v ]

letter_table : every_below 64 letter_test ≡ true
unfolding every_below base64_value is_space
letter_table = refl

test-parts :
    (a b : Bool) (o : Option ℕ) (v : ℕ)
    → not a && not b && elim o [ none ↦ false | some w ↦ w == v ] ≡ true
    → (a ≡ false) × (b ≡ false) × (o ≡ some v)
test-parts a b o v h = ground arith

-- One letter is one sextet.
pub base64_loop-letter :
    (s : Sextets) (v : ℕ) (text : Bytes)
    → v < 64
    → base64_loop s (letter v ∷ text) ≡ base64_loop (sextet s v) text
unfolding base64_loop
base64_loop-letter s v text h =
    let t =
      test-parts (is_space (letter v)) (letter v == b'=') (base64_value (letter v)) v
        (every_below_sound 64 letter_test v letter_table h) in
    rw (t.0, t.1, base64_loop) (rw (t.2, base64_loop))

-- At a group's start.
abbrev pub start : ℕ → ℕ → Bytes → Sextets
start acc seen out = record { acc = acc; bits = 0; seen = seen; out = out }

shifted : (acc v : ℕ) → v < 64 → bit_or (acc * 2 ^ 6 % 2 ^ 32) v ≡ 64 * (acc % 2 ^ 26) + v
shifted acc v h =
    let e : acc * 2 ^ 6 % 2 ^ 32 ≡ 64 * (acc % 2 ^ 26) = omega arith in
    ap (λ t. bit_or t v) e ∙ bit_or-disjoint_high 6 (acc % 2 ^ 26) v h

abbrev pub push6 : ℕ → ℕ → ℕ
push6 acc v = 64 * (acc % 2 ^ 26) + v

module _ (acc seen : ℕ) (out : Bytes) where
  sextet_0 :
      (v : ℕ)
      → v < 64
      → sextet (record { acc = acc; bits = 0; seen = seen; out = out }) v
        ≡ record { acc = push6 acc v; bits = 6; seen = seen + 1; out = out }
  unfolding sextet
  sextet_0 v h = rw (shifted acc v h)

  sextet_6 :
      (v : ℕ)
      → v < 64
      → sextet (record { acc = acc; bits = 6; seen = seen; out = out }) v ≡ record {
        acc = push6 acc v;
        bits = 4;
        seen = seen + 1;
        out = out ++ (push6 acc v / 2 ^ 4 % 256) ∷ [];
      }
  unfolding sextet
  sextet_6 v h = rw (shifted acc v h, bit_and_0xff (push6 acc v / 2 ^ 4))

  pub sextet_4 :
      (v : ℕ)
      → v < 64
      → sextet (record { acc = acc; bits = 4; seen = seen; out = out }) v ≡ record {
        acc = push6 acc v;
        bits = 2;
        seen = seen + 1;
        out = out ++ (push6 acc v / 2 ^ 2 % 256) ∷ [];
      }
  unfolding sextet
  sextet_4 v h = rw (shifted acc v h, bit_and_0xff (push6 acc v / 2 ^ 2))

  sextet_2 :
      (v : ℕ)
      → v < 64
      → sextet (record { acc = acc; bits = 2; seen = seen; out = out }) v ≡ record {
        acc = push6 acc v;
        bits = 0;
        seen = seen + 1;
        out = out ++ (push6 acc v / 2 ^ 0 % 256) ∷ [];
      }
  unfolding sextet
  sextet_2 v h = rw (shifted acc v h, bit_and_0xff (push6 acc v / 2 ^ 0))

-- Where four sextets carry the accumulator.
abbrev pub push24 : ℕ → ℕ → ℕ → ℕ → ℕ → ℕ
push24 acc v1 v2 v3 v4 = push6 (push6 (push6 (push6 acc v1) v2) v3) v4

pub two_letters :
    (acc seen : ℕ) (out text : Bytes) (v1 v2 : ℕ)
    → v1 < 64
    → v2 < 64
    → base64_loop (start acc seen out) (letter v1 ∷ letter v2 ∷ text)
      ≡ base64_loop
          (record {
            acc = push6 (push6 acc v1) v2;
            bits = 4;
            seen = seen + 1 + 1;
            out = out ++ (push6 (push6 acc v1) v2 / 2 ^ 4 % 256) ∷ [];
          })
          text
two_letters acc seen out text v1 v2 h1 h2 =
    base64_loop-letter (start acc seen out) v1 (letter v2 ∷ text) h1
    ∙ ap (λ s. base64_loop s (letter v2 ∷ text)) (sextet_0 acc seen out v1 h1)
    ∙ base64_loop-letter _ v2 text h2
    ∙ ap (λ s. base64_loop s text) (sextet_6 (push6 acc v1) (seen + 1) out v2 h2)

pub first_byte :
    (acc a b : ℕ)
    → a < 256
    → b < 256
    → push6 (push6 acc (a / 4)) (a % 4 * 16 + b / 16) / 2 ^ 4 % 256 ≡ a
first_byte acc a b ha hb = omega arith

second_byte :
    (acc b c : ℕ) (x : ℕ)
    → b < 256
    → c < 256
    → push6 (push6 acc (x * 16 + b / 16)) (b % 16 * 4 + c / 64) / 2 ^ 2 % 256 ≡ b
second_byte acc b c x hb hc = omega arith

third_byte : (acc c x : ℕ) → c < 256 → push6 (push6 acc (x * 4 + c / 64)) (c % 64) / 2 ^ 0 % 256 ≡ c
third_byte acc c x hc = omega arith

pub one_group :
    (acc seen : ℕ) (out text : Bytes) (a b c : ℕ)
    → a < 256
    → b < 256
    → c < 256
    → base64_loop (start acc seen out) (encode_three a b c text)
      ≡ base64_loop
          (start
            (push24 acc (a / 4) (a % 4 * 16 + b / 16) (b % 16 * 4 + c / 64) (c % 64))
            (seen + 1 + 1 + 1 + 1)
            (((out ++ a ∷ []) ++ b ∷ []) ++ c ∷ []))
          text
one_group acc seen out text a b c ha hb hc =
    let v1 = a / 4 in
    let v2 = a % 4 * 16 + b / 16 in
    let v3 = b % 16 * 4 + c / 64 in
    let v4 = c % 64 in
    let acc2 = push6 (push6 acc v1) v2 in
    let acc3 = push6 acc2 v3 in
    two_letters acc seen out (letter v3 ∷ letter v4 ∷ text) v1 v2 (omega arith) (omega arith)
    ∙ ap
        (λ (x : ℕ).
          base64_loop (record { acc = acc2; bits = 4; seen = seen + 1 + 1; out = out ++ x ∷ [] })
            (letter v3 ∷ letter v4 ∷ text))
        (first_byte acc a b ha hb)
    ∙ base64_loop-letter _ v3 (letter v4 ∷ text) (omega arith)
    ∙ ap (λ s. base64_loop s (letter v4 ∷ text))
        (sextet_4 acc2 (seen + 1 + 1) (out ++ a ∷ []) v3 (omega arith))
    ∙ ap
        (λ (x : ℕ).
          base64_loop
            (record {
              acc = acc3;
              bits = 2;
              seen = seen + 1 + 1 + 1;
              out = (out ++ a ∷ []) ++ x ∷ [];
            })
            (letter v4 ∷ text))
        (second_byte (push6 acc v1) b c (a % 4) hb hc)
    ∙ base64_loop-letter _ v4 text (omega arith)
    ∙ ap (λ s. base64_loop s text)
        (sextet_2 acc3 (seen + 1 + 1 + 1) ((out ++ a ∷ []) ++ b ∷ []) v4 (omega arith))
    ∙ ap
        (λ (x : ℕ).
          base64_loop
            (start (push6 acc3 v4) (seen + 1 + 1 + 1 + 1) (((out ++ a ∷ []) ++ b ∷ []) ++ x ∷ []))
            text)
        (third_byte acc2 c (b % 16) hc)
