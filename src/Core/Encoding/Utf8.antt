-- ===== src/Core/Encoding/Utf8.antt =====
-- What `append_utf8` writes, `is_valid_utf8` accepts.
use chrono_sift.Common.{
  zero, [], inr, inl, Bool-cases, ◌++◌, length-append, All, ◌/◌, List, drop, length, leb, ltb, ℕ,
  suc, ◌+◌, ◌*◌, ◌%◌, ◌^◌, ◌≤◌, ◌<◌, Bool, true, false, ◌&&◌, ◌∷◌, ◌⊎◌, ◌≡◌, refl, sym, ap, ◌∙◌,
  arith, ◌==◌, Bytes, Option, none, some, bit_or, bit_and,
}
use native.Mathlib.Nat.{add-zero}
use chrono_sift.Common.Bits.{
  two_pow, every_below, every_below_sound, bit_or-disjoint_high, bit_and_0x3f,
}
use chrono_sift.Core.Encoding.{is_valid_utf8, utf8, is_scalar, utf8_from, Lead, lead, continuation}

-- A Unicode scalar value.
pub record IsScalar (cp : ℕ) : Type 0 where
  pub in_range : cp ≤ 0x10ffff
  pub no_surrogate : (cp < 0xd800) ⊎ (0xdfff < cp)

or_lead : (k hi b x : ℕ) → two_pow k * hi ≡ b → x < two_pow k → bit_or b x ≡ b + x
or_lead k hi b x e h =
    ap (λ t. bit_or t x) (sym e) ∙ bit_or-disjoint_high k hi x h ∙ ap (λ t. t + x) e

abbrev lead_is : ℕ → ℕ → ℕ → Option Lead → Bool
lead_is extra cp min_cp none = false
lead_is extra cp min_cp (some l) = l.extra == extra && l.cp == cp && l.min_cp == min_cp

lead_is-eq :
    (extra cp min_cp : ℕ) (o : Option Lead)
    → lead_is extra cp min_cp o ≡ true
    → o ≡ some (record { extra = extra; cp = cp; min_cp = min_cp })
lead_is-eq extra cp min_cp none h = cc
lead_is-eq extra cp min_cp (some l) h = ground arith

lead_two : every_below 32 (λ x. lead_is 1 x 0x80 (lead (0xc0 + x))) ≡ true
unfolding every_below lead
lead_two = refl

lead_three : every_below 16 (λ x. lead_is 2 x 0x800 (lead (0xe0 + x))) ≡ true
unfolding every_below lead
lead_three = refl

lead_four : every_below 8 (λ x. lead_is 3 x 0x10000 (lead (0xf0 + x))) ≡ true
unfolding every_below lead
lead_four = refl

continuation_table : every_below 64 (λ y. bit_and (0x80 + y) 0xc0 == 0x80) ≡ true
unfolding every_below
continuation_table = refl

continuation-step :
    (k cp y : ℕ) (s : Bytes)
    → cp < 2 ^ 26
    → y < 64
    → continuation (suc k) cp (bit_or 0x80 y ∷ s) ≡ continuation k (64 * cp + y) s
unfolding continuation
continuation-step k cp y s hc hy =
    let b : bit_or 0x80 y ≡ 0x80 + y = or_lead 6 2 0x80 y refl hy in
    let c : (bit_and (0x80 + y) 0xc0 == 0x80) ≡ true =
      every_below_sound 64 _ y continuation_table hy in
    let m : bit_and (0x80 + y) 0x3f ≡ y = bit_and_0x3f (0x80 + y) ∙ omega arith in
    let w : cp * 2 ^ 6 % 2 ^ 32 ≡ 64 * cp = omega arith in
    rw (b, continuation) (rw (c, continuation) (rw (m, w, bit_or-disjoint_high 6 cp y hy)))

utf8_from-step :
    (fuel k b : ℕ) (s : Bytes) (extra bits min_cp cp : ℕ)
    → ltb b 0x80 ≡ false
    → lead b ≡ some (record { extra = extra; cp = bits; min_cp = min_cp })
    → leb (length (b ∷ s)) extra ≡ false
    → continuation extra bits s ≡ some cp
    → is_scalar min_cp cp ≡ true
    → utf8_from (suc fuel) k (b ∷ s) ≡ utf8_from fuel (k + 1) (drop extra s)
unfolding utf8_from
utf8_from-step fuel k b s extra bits min_cp cp p q r c d =
    rw (p, utf8_from) (rw (q, utf8_from) (rw (r, utf8_from) (rw (c, utf8_from) (rw d))))

is_scalar-IsScalar : (min_cp cp : ℕ) → min_cp ≤ cp → IsScalar cp → is_scalar min_cp cp ≡ true
unfolding is_scalar
is_scalar-IsScalar min_cp cp h s = ground arith

continuation-done : (cp : ℕ) (s : Bytes) → continuation 0 cp s ≡ some cp
unfolding continuation
continuation-done cp s = refl

two_bytes :
    (fuel k cp : ℕ) (rest : Bytes)
    → 0x80 ≤ cp
    → cp < 0x800
    → IsScalar cp
    → utf8_from (suc fuel) k (bit_or 0xc0 (cp / 2 ^ 6) ∷ bit_or 0x80 (bit_and cp 0x3f) ∷ rest)
      ≡ utf8_from fuel (k + 1) rest
two_bytes fuel k cp rest lo hi sc =
    let x = cp / 2 ^ 6 in
    let e : bit_or 0xc0 x ≡ 0xc0 + x = or_lead 6 3 0xc0 x refl (omega arith) in
    let y = cp % 64 in
    rw (e, bit_and_0x3f cp)
      (utf8_from-step fuel k (0xc0 + x) (bit_or 0x80 y ∷ rest) 1 x 0x80 cp (ground arith)
        (lead_is-eq 1 x 0x80 _ (every_below_sound 32 _ x lead_two (omega arith))) (ground arith)
        (continuation-step 0 x y rest (omega arith) (omega arith)
          ∙ continuation-done (64 * x + y) rest
          ∙ ap some (omega arith))
        (is_scalar-IsScalar 0x80 cp lo sc))

three_bytes :
    (fuel k cp : ℕ) (rest : Bytes)
    → 0x800 ≤ cp
    → cp < 0x10000
    → IsScalar cp
    → utf8_from (suc fuel) k (
        bit_or 0xe0 (cp / 2 ^ 12)
        ∷ bit_or 0x80 (bit_and (cp / 2 ^ 6) 0x3f)
        ∷ bit_or 0x80 (bit_and cp 0x3f)
        ∷ rest)
      ≡ utf8_from fuel (k + 1) rest
three_bytes fuel k cp rest lo hi sc =
    let x = cp / 2 ^ 12 in
    let y = cp / 2 ^ 6 % 64 in
    let z = cp % 64 in
    let e : bit_or 0xe0 x ≡ 0xe0 + x = or_lead 4 14 0xe0 x refl (omega arith) in
    rw (e, bit_and_0x3f (cp / 2 ^ 6), bit_and_0x3f cp)
      (utf8_from-step fuel k (0xe0 + x) (bit_or 0x80 y ∷ bit_or 0x80 z ∷ rest) 2 x 0x800 cp
        (ground arith) (lead_is-eq 2 x 0x800 _ (every_below_sound 16 _ x lead_three (omega arith)))
        (ground arith)
        (continuation-step 1 x y (bit_or 0x80 z ∷ rest) (omega arith) (omega arith)
          ∙ continuation-step 0 (64 * x + y) z rest (omega arith) (omega arith)
          ∙ continuation-done (64 * (64 * x + y) + z) rest
          ∙ ap some (omega arith))
        (is_scalar-IsScalar 0x800 cp lo sc))

four_bytes :
    (fuel k cp : ℕ) (rest : Bytes)
    → 0x10000 ≤ cp
    → IsScalar cp
    → utf8_from (suc fuel) k (
        bit_or 0xf0 (cp / 2 ^ 18)
        ∷ bit_or 0x80 (bit_and (cp / 2 ^ 12) 0x3f)
        ∷ bit_or 0x80 (bit_and (cp / 2 ^ 6) 0x3f)
        ∷ bit_or 0x80 (bit_and cp 0x3f)
        ∷ rest)
      ≡ utf8_from fuel (k + 1) rest
four_bytes fuel k cp rest lo sc =
    let w = cp / 2 ^ 18 in
    let x = cp / 2 ^ 12 % 64 in
    let y = cp / 2 ^ 6 % 64 in
    let z = cp % 64 in
    let small : cp ≤ 0x10ffff = sc.in_range in
    let e : bit_or 0xf0 w ≡ 0xf0 + w = or_lead 3 30 0xf0 w refl (omega arith) in
    rw (e, bit_and_0x3f (cp / 2 ^ 12), bit_and_0x3f (cp / 2 ^ 6), bit_and_0x3f cp)
      (utf8_from-step fuel k (0xf0 + w) (bit_or 0x80 x ∷ bit_or 0x80 y ∷ bit_or 0x80 z ∷ rest) 3 w
        0x10000 cp (ground arith)
        (lead_is-eq 3 w 0x10000 _ (every_below_sound 8 _ w lead_four (omega arith))) (ground arith)
        (continuation-step 2 w x (bit_or 0x80 y ∷ bit_or 0x80 z ∷ rest) (omega arith) (omega arith)
          ∙ continuation-step 1 (64 * w + x) y (bit_or 0x80 z ∷ rest) (omega arith) (omega arith)
          ∙ continuation-step 0 (64 * (64 * w + x) + y) z rest (omega arith) (omega arith)
          ∙ continuation-done (64 * (64 * (64 * w + x) + y) + z) rest
          ∙ ap some (omega arith))
        (is_scalar-IsScalar 0x10000 cp lo sc))

one_byte :
    (fuel k cp : ℕ) (rest : Bytes)
    → ltb cp 0x80 ≡ true
    → utf8_from (suc fuel) k (cp ∷ rest) ≡ utf8_from fuel (k + 1) rest
unfolding utf8_from
one_byte fuel k cp rest h = rw (h, utf8_from)

-- The check passes over each encoded scalar value in one round, and counts it.
pub utf8_from-utf8 :
    (fuel k cp : ℕ) (rest : Bytes)
    → IsScalar cp
    → utf8_from (suc fuel) k (utf8 cp ++ rest) ≡ utf8_from fuel (k + 1) rest
unfolding utf8
utf8_from-utf8 fuel k cp rest sc = elim (Bool-cases (ltb cp 0x80)) [
  | inl one ↦ rw one (one_byte fuel k cp rest one)
  | inr more ↦ elim (Bool-cases (ltb cp 0x800)) [
    | inl two ↦ rw (more, two) (two_bytes fuel k cp rest (ground arith) (ground arith) sc)
    | inr more' ↦ elim (Bool-cases (ltb cp 0x10000)) [
      | inl three ↦
          rw (more, more', three) (three_bytes fuel k cp rest (ground arith) (ground arith) sc)
      | inr four ↦ rw (more, more', four) (four_bytes fuel k cp rest (ground arith) sc)
    ]
  ]
]

-- A text of scalar values.
abbrev pub encode_all : List ℕ → Bytes
encode_all [] = []
encode_all (cp ∷ cps) = utf8 cp ++ encode_all cps

utf8_from-encode_all :
    (cps : List ℕ) (fuel k : ℕ)
    → All IsScalar cps
    → length cps ≤ fuel
    → utf8_from fuel k (encode_all cps) ≡ some (k + length cps)
utf8_from-encode_all [] fuel k h le = rw add-zero (unfold utf8_from in refl)
utf8_from-encode_all (cp ∷ cps) zero k h le = absurd (omega arith)
utf8_from-encode_all (cp ∷ cps) (suc fuel) k h le =
    utf8_from-utf8 fuel k cp (encode_all cps) h.0
    ∙ utf8_from-encode_all cps fuel (k + 1) h.1 (omega arith)
    ∙ ap some (omega arith)

length-utf8 : (cp : ℕ) → 0 < length (utf8 cp)
unfolding utf8
length-utf8 cp = ground arith

length-encode_all : (cps : List ℕ) → length cps ≤ length (encode_all cps)
length-encode_all [] = omega arith
length-encode_all (cp ∷ cps) =
    omega
      (arith, length-append {0} (utf8 cp) (encode_all cps), length-utf8 cp, length-encode_all cps)

-- A text that `append_utf8` built from scalar values is valid, with one code point for each.
pub is_valid_utf8-encode_all :
    (cps : List ℕ) → All IsScalar cps → is_valid_utf8 (encode_all cps) ≡ some (length cps)
unfolding is_valid_utf8
is_valid_utf8-encode_all cps h =
    utf8_from-encode_all cps (length (encode_all cps)) 0 h (length-encode_all cps)
    ∙ ap some (omega arith)
