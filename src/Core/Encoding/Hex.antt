-- ===== src/Core/Encoding/Hex.antt =====
-- `to_hex` and `from_hex` undo one another.
use chrono_sift.Common.{
  ℕ, ◌+◌, ◌*◌, ◌/◌, ◌%◌, ◌^◌, ◌<◌, Bool, true, false, [], ◌∷◌, ◌++◌, inl, inr, ◌≡◌, refl, sym, ap,
  ◌∙◌, arith, ◌==◌, Bytes, IsByte, length, All, append-nil, append_assoc, Option-cases, Option,
  none, some, bit_or, ==_iff,
}
use mathlib.Core.Path.{ap₂}
use chrono_sift.Common.Bits.{every_below, every_below_sound, bit_or-disjoint_high, bit_and_0xf}
use chrono_sift.Core.Chars.{ascii_to_lower}
use chrono_sift.Core.Text.{to_lower}
use chrono_sift.Core.Status.{success}
use chrono_sift.Core.Encoding.{hex_nibble, hex_lower, to_hex, nibbles, hex_from, from_hex}

abbrev is_some_of : Option ℕ → ℕ → Bool
is_some_of none n = false
is_some_of (some m) n = m == n

is_some_of-eq : (o : Option ℕ) (n : ℕ) → is_some_of o n ≡ true → o ≡ some n
is_some_of-eq none n h = cc
is_some_of-eq (some m) n h = ap some ((==_iff m n).0 h)

hex_table : every_below 16 (λ i. is_some_of (hex_nibble (hex_lower i)) i) ≡ true
unfolding every_below hex_nibble hex_lower
hex_table = refl

pub hex_nibble-hex_lower : (i : ℕ) → i < 16 → hex_nibble (hex_lower i) ≡ some i
hex_nibble-hex_lower i h = is_some_of-eq _ i (every_below_sound 16 _ i hex_table h)

abbrev lower_test : ℕ → Bool
lower_test c = elim (hex_nibble c) [ none ↦ true | some v ↦ hex_lower v == ascii_to_lower c ]

lower_table : every_below 128 lower_test ≡ true
unfolding every_below hex_nibble hex_lower ascii_to_lower
lower_table = refl

hex_nibble-range : (c v : ℕ) → hex_nibble c ≡ some v → (c < 128) × (v < 16)
unfolding hex_nibble
hex_nibble-range c v h = ground arith

hex_lower-hex_nibble : (c v : ℕ) → hex_nibble c ≡ some v → hex_lower v ≡ ascii_to_lower c
hex_lower-hex_nibble c v h =
    let t = every_below_sound 128 lower_test c lower_table (hex_nibble-range c v h).0 in
    ground (arith, t)

pub nibbles-sum : (hi lo : ℕ) → lo < 16 → nibbles hi lo ≡ 16 * hi + lo
nibbles-sum hi lo h =
    let e : hi * 2 ^ 4 ≡ 16 * hi = omega arith in
    ap (λ t. bit_or t lo) e ∙ bit_or-disjoint_high 4 hi lo h

length-to_hex : (bs : Bytes) → length (to_hex bs) ≡ 2 * length bs
unfolding to_hex
length-to_hex [] = refl
length-to_hex (b ∷ bs) = omega (arith, length-to_hex bs)

to_hex-cons :
    (b : ℕ) (bs : Bytes)
    → to_hex (b ∷ bs) ≡ hex_lower (b / 16 % 16) ∷ hex_lower (b % 16) ∷ to_hex bs
unfolding to_hex
to_hex-cons b bs = rw (bit_and_0xf (b / 16), bit_and_0xf b)

hex_from-pair :
    (h l hi lo : ℕ) (out text : Bytes)
    → hex_nibble h ≡ some hi
    → hex_nibble l ≡ some lo
    → hex_from out (h ∷ l ∷ text) ≡ hex_from (out ++ nibbles hi lo ∷ []) text
unfolding hex_from
hex_from-pair h l hi lo out text p q = rw (p, hex_from) (rw (q, hex_from))

hex_from-to_hex : (bs out : Bytes) → All IsByte bs → hex_from out (to_hex bs) ≡ success (out ++ bs)
unfolding hex_from
hex_from-to_hex [] out h = unfold to_hex in ap success (sym (append-nil out))
hex_from-to_hex (b ∷ bs) out h =
    let hi = hex_nibble-hex_lower (b / 16 % 16) (omega arith) in
    let lo = hex_nibble-hex_lower (b % 16) (omega arith) in
    let e : nibbles (b / 16 % 16) (b % 16) ≡ b =
      omega (arith, nibbles-sum (b / 16 % 16) (b % 16) (omega arith), h.0) in
    ap (hex_from out) (to_hex-cons b bs)
    ∙ hex_from-pair _ _ (b / 16 % 16) (b % 16) out (to_hex bs) hi lo
    ∙ ap (λ x. hex_from (out ++ x ∷ []) (to_hex bs)) e
    ∙ hex_from-to_hex bs (out ++ b ∷ []) h.1
    ∙ ap success (append_assoc out (b ∷ []) bs)

-- Decoding a hex dump of bytes gives the bytes back.
pub from_hex-to_hex : (bs : Bytes) → All IsByte bs → from_hex (to_hex bs) ≡ success bs
unfolding from_hex
from_hex-to_hex bs h =
    let even : length (to_hex bs) % 2 ≡ 0 = omega (arith, length-to_hex bs) in
    rw even (hex_from-to_hex bs [] h)

to_hex-append : (a b : Bytes) → to_hex (a ++ b) ≡ to_hex a ++ to_hex b
unfolding to_hex
to_hex-append [] b = refl
to_hex-append (x ∷ a) b = rw (to_hex-append a b)

to_hex-nibbles :
    (h l hi lo : ℕ)
    → hex_nibble h ≡ some hi
    → hex_nibble l ≡ some lo
    → to_hex (nibbles hi lo ∷ []) ≡ to_lower (h ∷ l ∷ [])
unfolding to_lower
to_hex-nibbles h l hi lo p q =
    let sum = nibbles-sum hi lo (hex_nibble-range l lo q).1 in
    let high : nibbles hi lo / 16 % 16 ≡ hi =
      omega (arith, sum, hex_nibble-range h hi p, hex_nibble-range l lo q) in
    let low : nibbles hi lo % 16 ≡ lo = omega (arith, sum, hex_nibble-range l lo q) in
    to_hex-cons (nibbles hi lo) []
    ∙ ap₂ (λ (x : ℕ) (y : ℕ). x ∷ y ∷ to_hex []) (ap hex_lower high ∙ hex_lower-hex_nibble h hi p)
        (ap hex_lower low ∙ hex_lower-hex_nibble l lo q)
    ∙ (unfold to_hex in refl)

hex_from-inv :
    (h l : ℕ) (out text r : Bytes)
    → hex_from out (h ∷ l ∷ text) ≡ success r
    → (hi : ℕ) × (lo : ℕ) × (hex_nibble h ≡ some hi)
      × (hex_nibble l ≡ some lo)
      × (hex_from (out ++ nibbles hi lo ∷ []) text ≡ success r)
unfolding hex_from
hex_from-inv h l out text r e = elim (Option-cases (hex_nibble h)) [
  | inl p ↦ absurd (ground arith)
  | inr (hi, p) ↦ elim (Option-cases (hex_nibble l)) [
    | inl q ↦ absurd (ground arith)
    | inr (lo, q) ↦ (hi, lo, p, q, sym (hex_from-pair h l hi lo out text p q) ∙ e)
  ]
]

hex_from_sound :
    (text out r : Bytes)
    → length text % 2 ≡ 0
    → hex_from out text ≡ success r
    → to_hex r ≡ to_hex out ++ to_lower text
unfolding to_lower
hex_from_sound [] out r even h =
    let e : out ≡ r = unfold hex_from in cc in ap to_hex (sym e) ∙ sym (append-nil (to_hex out))
hex_from_sound (c ∷ []) out r even h = absurd (omega arith)
hex_from_sound (h ∷ l ∷ text) out r even e =
    let (hi, lo, p, q, rest) = hex_from-inv h l out text r e in
    hex_from_sound text (out ++ nibbles hi lo ∷ []) r (omega arith) rest
    ∙ ap (λ t. t ++ to_lower text)
        (to_hex-append out (nibbles hi lo ∷ [])
          ∙ ap (λ t. to_hex out ++ t) (to_hex-nibbles h l hi lo p q))
    ∙ append_assoc (to_hex out) (to_lower (h ∷ l ∷ [])) (to_lower text)

from_hex-even :
    (text r : Bytes)
    → from_hex text ≡ success r
    → (length text % 2 ≡ 0) × (hex_from [] text ≡ success r)
unfolding from_hex
from_hex-even text r h = ground arith

-- What `from_hex` accepts is a hex dump of what it returns, up to the case of the digits.
pub to_hex-from_hex : (text r : Bytes) → from_hex text ≡ success r → to_hex r ≡ to_lower text
to_hex-from_hex text r h =
    let (even, e) = from_hex-even text r h in
    hex_from_sound text [] r even e ∙ (unfold to_hex in refl)
