-- ===== src/Json/Scan/Took.antt =====
-- What the scanners of scalars take: the codes of their failures, and how much they leave.
use chrono_sift.Common.{ℕ, ◌≤◌, ◌≡◌, ◌⊎◌, [], ◌∷◌, Option, some, arith, length, Bytes, Read}
use chrono_sift.Core.Status.{StatusCode, Status, Result, success, failure}
use chrono_sift.Json.Scan.{skip_ws, skip_digits}

-- The codes of the parser's failures.
abbrev pub IsJsonError : Status → Type 0
IsJsonError st =
    (st.code ≡ StatusCode.malformed)
    ⊎ (st.code ≡ StatusCode.truncated)
    ⊎ (st.code ≡ StatusCode.limit_exceeded)

pub length-skip_ws : (s : Bytes) → length (skip_ws s) ≤ length s
unfolding skip_ws
length-skip_ws [] = omega arith
length-skip_ws (c ∷ s) = ground (arith, length-skip_ws s)

pub length-skip_digits : (s : Bytes) → length (skip_digits s) ≤ length s
unfolding skip_digits
length-skip_digits [] = omega arith
length-skip_digits (c ∷ s) = ground (arith, length-skip_digits s)

-- A failure with one of the codes, or a result that `P` holds of and at most `n` bytes left.
abbrev pub Took {ℓ} : {A : Type ℓ} → (A → Type 0) → ℕ → Result (Read A) → Type 0
Took P n (failure st) = IsJsonError st
Took P n (success r) = P r.got × (length r.rest ≤ n)

-- A loop ends with a result that `Took` describes.
abbrev pub Ends {ℓ} : {A : Type ℓ} → (A → Type 0) → ℕ → Option (Result (Read A)) → Type ℓ
Ends {A = A} P n o = (r : Result (Read A)) × (o ≡ some r) × Took P n r

pub Took-weaken {ℓ} :
    {A : Type ℓ} (P : A → Type 0) (r : Result (Read A)) {m n : ℕ} → Took P m r → m ≤ n → Took P n r
Took-weaken P (failure st) h le = h
Took-weaken P (success r) h le = (h.0, omega (arith, h.1))
