-- ===== src/Core/Timestamp/Padded.antt =====
-- Numbers printed with leading zeros, and read back by `read_digits` and by the fraction loop.
use chrono_sift.Common.{
  le→not_ltb, ℕ, zero, suc, ◌+◌, ◌-◌, ◌*◌, ◌/◌, ◌%◌, ◌≤◌, ◌<◌, ◌≡◌, true, false, [], ◌∷◌, ◌++◌,
  some, refl, sym, ap, ◌∙◌, arith, ltb, Bytes, length, Bool-cases, inl, inr, length-append,
}
use chrono_sift.Core.Chars.{is_digit}
use chrono_sift.Core.Number.{to_string, decimal_onto}
use chrono_sift.Core.Timestamp.{zeros, pad}
use chrono_sift.Core.Timestamp.Iso.{digits_loop, read_digits, fraction}

-- The last `w` digits of a number, in front of `acc`.
unfoldable pub fixed : ℕ → ℕ → Bytes → Bytes
fixed zero n acc = acc
fixed (suc w) n acc = fixed w (n / 10) ((b'0' + n % 10) ∷ acc)

abbrev pub ten : ℕ → ℕ
ten zero = 1
ten (suc w) = 10 * ten w

zeros-snoc : (w : ℕ) (acc : Bytes) → zeros w ++ b'0' ∷ acc ≡ b'0' ∷ (zeros w ++ acc)
unfolding zeros
zeros-snoc zero acc = refl
zeros-snoc (suc w) acc = ap (λ s. b'0' ∷ s) (zeros-snoc w acc)

fixed-zero : (w : ℕ) (acc : Bytes) → fixed w 0 acc ≡ zeros w ++ acc
unfolding fixed zeros
fixed-zero zero acc = refl
fixed-zero (suc w) acc = fixed-zero w (b'0' ∷ acc) ∙ zeros-snoc w acc

padded-decimal :
    (fuel w n : ℕ) (acc : Bytes)
    → n < fuel
    → n < ten w
    → 1 ≤ w
    → zeros (w + length acc - length (decimal_onto fuel n acc)) ++ decimal_onto fuel n acc
      ≡ fixed w n acc
unfolding decimal_onto fixed
padded-decimal zero w n acc h k l = absurd (omega arith)
padded-decimal (suc fuel) zero n acc h k l = absurd (omega arith)
padded-decimal (suc fuel) (suc w) n acc h k l = elim (Bool-cases (ltb n 10)) [
  | inl small ↦
      let q : n / 10 ≡ 0 = ground (arith, small) in
      let r : n % 10 ≡ n = ground (arith, small) in
      let len : suc w + length acc - suc (length acc) ≡ w = omega arith in
      rw (small, q, r, len) (sym (fixed-zero w ((b'0' + n) ∷ acc)))
  | inr big ↦
      let len : suc w + length acc ≡ w + suc (length acc) = omega arith in
      rw (big, len)
        (padded-decimal fuel w (n / 10) ((b'0' + n % 10) ∷ acc) (ground (arith, big, h))
          (omega (arith, k)) (positive w n k (ground (arith, big))))
]
  where
    positive : (w n : ℕ) → n < 10 * ten w → 10 ≤ n → 1 ≤ w
    positive zero n k b = absurd (omega (arith, k, b))
    positive (suc w) n k b = omega arith

pub pad-fixed : (w n : ℕ) → n < ten w → 1 ≤ w → pad w (to_string n) ≡ fixed w n []
unfolding to_string
pad-fixed w n h k =
    let len : w + 0 ≡ w = omega arith in rw len at (padded-decimal (suc n) w n [] (omega arith) h k)

digit : (n : ℕ) → (is_digit (b'0' + n % 10) ≡ true) × (n / 10 * 10 + (b'0' + n % 10 - b'0') ≡ n)
unfolding is_digit
digit n = (ground arith, omega arith)

digits_loop-step :
    (k n : ℕ) (s : Bytes) → digits_loop (suc k) (n / 10) ((b'0' + n % 10) ∷ s) ≡ digits_loop k n s
unfolding digits_loop
digits_loop-step k n s = rw ((digit n).0, (digit n).1) refl

digits_loop-done : (n : ℕ) (s : Bytes) → digits_loop 0 n s ≡ some (n, s)
unfolding digits_loop
digits_loop-done n s = refl

digits_loop-fixed :
    (w k n : ℕ) (acc s : Bytes)
    → n < ten w
    → digits_loop (w + k) 0 (fixed w n acc ++ s) ≡ digits_loop k n (acc ++ s)
unfolding fixed
digits_loop-fixed zero k n acc s h =
    let z : n ≡ 0 = omega (arith, h) in let e : 0 + k ≡ k = omega arith in rw (z, e) refl
digits_loop-fixed (suc w) k n acc s h =
    let e : suc w + k ≡ w + suc k = omega arith in
    rw e (
      digits_loop-fixed w (suc k) (n / 10) ((b'0' + n % 10) ∷ acc) s (omega (arith, h))
      ∙ digits_loop-step k n (acc ++ s))

length-fixed : (w n : ℕ) (acc : Bytes) → length (fixed w n acc) ≡ w + length acc
unfolding fixed
length-fixed zero n acc = omega arith
length-fixed (suc w) n acc = omega (arith, length-fixed w (n / 10) ((b'0' + n % 10) ∷ acc))

pub read_digits-fixed :
    (w n : ℕ) (s : Bytes) → n < ten w → read_digits w (fixed w n [] ++ s) ≡ some (n, s)
unfolding read_digits
read_digits-fixed w n s h =
    let long : ltb (length (fixed w n [] ++ s)) w ≡ false =
      le→not_ltb _ _ (omega (arith, length-append {0} (fixed w n []) s, length-fixed w n [])) in
    let e : w + 0 ≡ w = omega arith in
    rw long (rw (sym (digits_loop-done n s)) (rw e at (digits_loop-fixed w 0 n [] s h)))

fraction-step :
    (k n : ℕ) (s : Bytes) → fraction (suc k) (n / 10) ((b'0' + n % 10) ∷ s) ≡ fraction k n s
unfolding fraction
fraction-step k n s = rw ((digit n).0, (digit n).1) refl

fraction-done : (n : ℕ) → fraction 0 n (b'Z' ∷ []) ≡ (n, b'Z' ∷ [])
unfolding fraction is_digit
fraction-done n = refl

fraction-fixed :
    (w k n : ℕ) (acc s : Bytes)
    → n < ten w
    → fraction (w + k) 0 (fixed w n acc ++ s) ≡ fraction k n (acc ++ s)
unfolding fixed
fraction-fixed zero k n acc s h =
    let z : n ≡ 0 = omega (arith, h) in let e : 0 + k ≡ k = omega arith in rw (z, e) refl
fraction-fixed (suc w) k n acc s h =
    let e : suc w + k ≡ w + suc k = omega arith in
    rw e (
      fraction-fixed w (suc k) (n / 10) ((b'0' + n % 10) ∷ acc) s (omega (arith, h))
      ∙ fraction-step k n (acc ++ s))

-- Six digits and no seventh.
pub fraction-six : (n : ℕ) → n < ten 6 → fraction 6 0 (fixed 6 n [] ++ b'Z' ∷ []) ≡ (n, b'Z' ∷ [])
fraction-six n h = fraction-fixed 6 0 n [] (b'Z' ∷ []) h ∙ fraction-done n
