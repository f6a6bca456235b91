-- ===== src/Core/Number.antt =====
-- `parse_u64` and `parse_i64` (src/core/string_util.cpp), and the standard library's decimal
-- `std::to_string`. The number out is `none` where the function returns false.
pub mod Decimal
pub mod Signed
mod Examples
use chrono_sift.Common.{
  arith, ◌≡◌, ℕ, zero, suc, ◌+◌, ◌-◌, ◌*◌, ◌/◌, ◌%◌, ◌^◌, Bool, true, false, not, ◌&&◌, ◌||◌, List,
  [], ◌∷◌, ◌++◌, Option, none, some, ltb, leb, ◌==◌, if◌then◌else◌, Bytes, null,
}
use chrono_sift.Common.Int.{◌≤ℤ◌, ℤ, pos, negsuc}
use chrono_sift.Core.Chars.{is_digit}

abbrev pub u64_max : ℕ
u64_max = 2 ^ 64 - 1

abbrev pub i64_max : ℕ
i64_max = 2 ^ 63 - 1

-- An i64 result that overflows, which C++ leaves undefined, is taken to wrap around.
unfoldable pub wrap_i64 : ℤ → ℤ
wrap_i64 (pos n) = let w = n % 2 ^ 64 in if leb w i64_max then pos w else negsuc (2 ^ 64 - 1 - w)
wrap_i64 (negsuc n) = let w = n % 2 ^ 64 in if leb w i64_max then negsuc w else pos (2 ^ 64 - 1 - w)

abbrev pub FitsI64 : ℤ → Type 0
FitsI64 z = (negsuc i64_max ≤ℤ z) × (z ≤ℤ pos i64_max)

pub wrap_i64_fits : (z : ℤ) → FitsI64 z → wrap_i64 z ≡ z
unfolding wrap_i64
wrap_i64_fits (pos n) h = ground arith
wrap_i64_fits (negsuc n) h = ground arith

-- The digit loop, which both functions have.
unfoldable pub digits_from : ℕ → Bytes → Option ℕ
digits_from value [] = some value
digits_from value (c ∷ s) =
    let digit = c - b'0' in
    let rest = digits_from (value * 10 + digit) s in
    if not (is_digit c) then none else if ltb ((u64_max - digit) / 10) value then none else rest

unfoldable pub parse_u64 : Bytes → Option ℕ
parse_u64 s = if null s then none else digits_from 0 s

-- The bound on the magnitude. `neg` with a magnitude `m` gives -m, which is INT64_MIN at the bound.
unfoldable pub bound_i64 : Bool → ℕ → Option ℤ
bound_i64 neg zero = some (pos 0)
bound_i64 neg (suc m) =
    if neg
    then (if ltb (i64_max + 1) (suc m) then none else some (negsuc m))
    else (if ltb i64_max (suc m) then none else some (pos (suc m)))

unfoldable pub signed_digits : Bool → Bytes → Option ℤ
signed_digits neg s =
    if null s then none else elim (digits_from 0 s) [ none ↦ none | some mag ↦ bound_i64 neg mag ]

unfoldable pub parse_i64 : Bytes → Option ℤ
parse_i64 [] = none
parse_i64 (c ∷ s) =
    if c == b'+' || c == b'-' then signed_digits (c == b'-') s else signed_digits false (c ∷ s)

-- `std::to_string` of an unsigned number: its digits, in front of `acc`. The fuel is above the
-- number, which a division by ten makes smaller.
unfoldable pub decimal_onto : ℕ → ℕ → Bytes → Bytes
decimal_onto zero n acc = acc
decimal_onto (suc fuel) n acc =
    let rest = decimal_onto fuel (n / 10) ((b'0' + n % 10) ∷ acc) in
    if ltb n 10 then (b'0' + n) ∷ acc else rest

unfoldable pub to_string : ℕ → Bytes
to_string n = decimal_onto (suc n) n []

-- `std::to_string` of a signed number.
unfoldable pub to_string_ℤ : ℤ → Bytes
to_string_ℤ (pos n) = to_string n
to_string_ℤ (negsuc n) = b'-' ∷ to_string (suc n)
