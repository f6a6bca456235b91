-- ===== src/Common/Bits.antt =====
-- Laws of `&` with a mask of ones and of `|` on disjoint bits, at every width.
use Prim.Native.Nat.{
  ℕ, zero, suc, ◌+◌, ◌*◌, ◌/◌, ◌%◌, ◌≤◌, ◌<◌, min, max, bit_and, bit_or, digits, bit_and-bitwise,
  bit_or-bitwise,
}
use mathlib.Core.Path.{◌≡◌, refl, sym, ap, ◌∙◌}
use mathlib.Core.Bool.{Bool, true, ◌&&◌}
use native.Mathlib.Omega.{arith}

-- A test of all numbers below a bound, by evaluation.
unfoldable pub every_below : ℕ → (ℕ → Bool) → Bool
every_below zero test = true
every_below (suc k) test = every_below k test && test k

pub every_below_sound :
    (k : ℕ) (test : ℕ → Bool) (i : ℕ) → every_below k test ≡ true → i < k → test i ≡ true
unfolding every_below
every_below_sound zero test i all less = absurd (omega arith)
every_below_sound (suc k) test i all less = ground (arith, every_below_sound k test i)

-- The digitwise operations that the native ones stand for: `rest` is what a number gives once the
-- other has no digits left, and `op` works on a digit of each.
module _ (rest : ℕ → ℕ) (op : ℕ → ℕ → ℕ) where
  digits_enough : (a k l b : ℕ) → a ≤ k → a ≤ l → digits rest op k a b ≡ digits rest op l a b
  digits_enough zero zero zero b h₁ h₂ = refl
  digits_enough zero zero (suc l) b h₁ h₂ = refl
  digits_enough zero (suc k) zero b h₁ h₂ = refl
  digits_enough zero (suc k) (suc l) b h₁ h₂ = refl
  digits_enough (suc a) zero l b h₁ h₂ = absurd (omega (arith, h₁))
  digits_enough (suc a) (suc k) zero b h₁ h₂ = absurd (omega (arith, h₂))
  digits_enough (suc a) (suc k) (suc l) b h₁ h₂ =
      ap (λ high. high * 2 + op (suc a % 2) (b % 2))
        (digits_enough (suc a / 2) k l (b / 2) (omega (arith, h₁)) (omega (arith, h₂)))

  -- The lowest digit, apart from the others.
  digits_low :
      (a b : ℕ)
      → digits rest op (suc a) (suc a) b
        ≡ digits rest op (suc a / 2) (suc a / 2) (b / 2) * 2 + op (suc a % 2) (b % 2)
  digits_low a b =
      ap (λ high. high * 2 + op (suc a % 2) (b % 2))
        (digits_enough (suc a / 2) a (suc a / 2) (b / 2) (omega arith) (omega arith))

nothing_and : (b : ℕ) → bit_and 0 b ≡ 0
nothing_and b = bit_and-bitwise 0 b

nothing_or : (b : ℕ) → bit_or 0 b ≡ b
nothing_or b = bit_or-bitwise 0 b

pub and_low_digit : (a b : ℕ) → bit_and a b ≡ bit_and (a / 2) (b / 2) * 2 + min (a % 2) (b % 2)
and_low_digit zero b = omega (arith, nothing_and b, nothing_and (b / 2))
and_low_digit (suc a) b =
    let whole = bit_and-bitwise (suc a) b in
    let high = bit_and-bitwise (suc a / 2) (b / 2) in
    whole ∙ digits_low (λ x. zero) min a b ∙ ap (λ x. x * 2 + min (suc a % 2) (b % 2)) (sym high)

pub or_low_digit : (a b : ℕ) → bit_or a b ≡ bit_or (a / 2) (b / 2) * 2 + max (a % 2) (b % 2)
or_low_digit zero b = omega (arith, nothing_or b, nothing_or (b / 2))
or_low_digit (suc a) b =
    let whole = bit_or-bitwise (suc a) b in
    let high = bit_or-bitwise (suc a / 2) (b / 2) in
    whole ∙ digits_low (λ x. x) max a b ∙ ap (λ x. x * 2 + max (suc a % 2) (b % 2)) (sym high)

-- 2 ^ k and 2 ^ k - 1, by recursion; at a numeral they compute.
abbrev pub two_pow : ℕ → ℕ
two_pow zero = 1
two_pow (suc k) = 2 * two_pow k

abbrev pub ones : ℕ → ℕ
ones zero = 0
ones (suc k) = 2 * ones k + 1

pub bit_or-disjoint : (k a b : ℕ) → a < two_pow k → bit_or a (two_pow k * b) ≡ a + two_pow k * b
bit_or-disjoint zero zero b h = omega (arith, nothing_or (1 * b))
bit_or-disjoint zero (suc a) b h = absurd (omega arith)
bit_or-disjoint (suc k) a b h =
    let e : (2 * two_pow k * b) / 2 ≡ two_pow k * b = omega arith in
    let step = or_low_digit a (2 * two_pow k * b) in
    let step' : bit_or a (2 * two_pow k * b)
        ≡ bit_or (a / 2) (two_pow k * b) * 2 + max (a % 2) ((2 * two_pow k * b) % 2) =
      rw e at step in
    omega (arith, step', bit_or-disjoint k (a / 2) b (omega arith))

or_nothing_from : (a k : ℕ) → a ≤ k → bit_or a 0 ≡ a
or_nothing_from zero k h = nothing_or 0
or_nothing_from (suc a) zero h = absurd (omega (arith, h))
or_nothing_from (suc a) (suc k) h =
    omega (arith, or_low_digit (suc a) 0, or_nothing_from (suc a / 2) k (omega (arith, h)))

pub bit_or-zero : (a : ℕ) → bit_or a 0 ≡ a
bit_or-zero a = or_nothing_from a a (omega arith)

pub bit_or-disjoint_high :
    (k b a : ℕ) → a < two_pow k → bit_or (two_pow k * b) a ≡ two_pow k * b + a
bit_or-disjoint_high zero b zero h = omega (arith, bit_or-zero (1 * b))
bit_or-disjoint_high zero b (suc a) h = absurd (omega arith)
bit_or-disjoint_high (suc k) b a h =
    let e : (2 * two_pow k * b) / 2 ≡ two_pow k * b = omega arith in
    let step = or_low_digit (2 * two_pow k * b) a in
    let step' : bit_or (2 * two_pow k * b) a
        ≡ bit_or (two_pow k * b) (a / 2) * 2 + max ((2 * two_pow k * b) % 2) (a % 2) =
      rw e at step in
    omega (arith, step', bit_or-disjoint_high k b (a / 2) (omega arith))

and_nothing_from : (a k : ℕ) → a ≤ k → bit_and a 0 ≡ 0
and_nothing_from zero k h = nothing_and 0
and_nothing_from (suc a) zero h = absurd (omega (arith, h))
and_nothing_from (suc a) (suc k) h =
    omega (arith, and_low_digit (suc a) 0, and_nothing_from (suc a / 2) k (omega (arith, h)))

-- A mask of k ones keeps the remainder by 2 ^ k.
pub bit_and_mask :
    (k x : ℕ)
    → (q : ℕ) × (x ≡ two_pow k * q + bit_and x (ones k)) × (bit_and x (ones k) < two_pow k)
bit_and_mask zero x =
    let z = and_nothing_from x x (omega arith) in (x, omega (arith, z), omega (arith, z))
bit_and_mask (suc k) x =
    let (q, e, lt) = bit_and_mask k (x / 2) in
    let m : (2 * ones k + 1) / 2 ≡ ones k = omega arith in
    let step = and_low_digit x (2 * ones k + 1) in
    let step' : bit_and x (2 * ones k + 1)
        ≡ bit_and (x / 2) (ones k) * 2 + min (x % 2) ((2 * ones k + 1) % 2) =
      rw m at step in
    (q, omega (arith, step', e), omega (arith, step', lt))

pub bit_and_0x3f : (x : ℕ) → bit_and x 0x3f ≡ x % 64
bit_and_0x3f x = let (q, e, lt) = bit_and_mask 6 x in omega (arith, e, lt)

pub bit_and_0xf : (x : ℕ) → bit_and x 0xf ≡ x % 16
bit_and_0xf x = let (q, e, lt) = bit_and_mask 4 x in omega (arith, e, lt)

pub bit_and_0xff : (x : ℕ) → bit_and x 0xff ≡ x % 256
bit_and_0xff x = let (q, e, lt) = bit_and_mask 8 x in omega (arith, e, lt)
