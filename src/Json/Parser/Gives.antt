-- ===== src/Json/Parser/Gives.antt =====
-- What the calls of `JsonParser` give.
use chrono_sift.Common.{
  ℕ, suc, ◌+◌, ◌≤◌, ◌<◌, ◌≡◌, refl, inl, inr, Bool-cases, [], ◌∷◌, some, arith, length, Bytes, ◌==◌,
  if◌then◌else◌,
}
use chrono_sift.Core.Status.{Result, success, failure}
use chrono_sift.Json.Value.{depth}
use chrono_sift.Json.Limits.{IsWithin, nodes}
use chrono_sift.Json.Scan.{malformed, truncated, JsonLimits, skip_ws}
use chrono_sift.Json.Scan.Took.{IsJsonError, length-skip_ws}
use chrono_sift.Json.Parser.{Outcome, ◌>>=◌, Parsed, Next, more, closed, after_child}

-- A value read at depth `d` where `total` values had been counted and `n` bytes were left: it is
-- within the limits, its depth keeps the limit, the count has grown by its values and keeps the
-- limit.
abbrev pub IsParsed : JsonLimits → ℕ → ℕ → ℕ → Parsed → Type 0
IsParsed l d total n p =
    IsWithin l p.value
    × (depth p.value + d ≤ suc l.max_depth)
    × (total + nodes p.value ≤ p.total)
    × (p.total ≤ l.max_total_values)
    × (length p.rest ≤ n)

-- A call ends, with a failure or with a result that `P` holds of.
abbrev pub Holds {ℓ} : {A : Type ℓ} → (A → Type 0) → Result A → Type 0
Holds P (failure st) = IsJsonError st
Holds P (success x) = P x

abbrev pub Gives {ℓ} : {A : Type ℓ} → (A → Type 0) → Outcome A → Type ℓ
Gives {A = A} P o = (r : Result A) × (o ≡ some r) × Holds P r

-- A chain of calls.
pub bind-Gives :
    {A : Type 0} {B : Type 0} (P : A → Type 0) (Q : B → Type 0) (o : Outcome A) (f : A → Outcome B)
    → Gives P o
    → ((x : A) → P x → Gives Q (f x))
    → Gives Q (o >>= f)
bind-Gives P Q o f (failure st, e, h) k = rw e (failure st, refl, h)
bind-Gives P Q o f (success x, e, h) k = rw e (k x h)

-- What stands behind a child: fewer bytes.
abbrev pub NextWithin : ℕ → Next → Type 0
NextWithin n (more t) = length t < n
NextWithin n (closed t) = length t < n

pub after_child-Holds :
    (close : ℕ) (u t e s : Bytes) → Holds (NextWithin (length s)) (after_child close u t e s)
unfolding after_child
after_child-Holds close u t e s = behind (skip_ws s) (length-skip_ws s)
  where
    trailing :
        (n : ℕ) (w : Bytes)
        → length w < n
        → Holds (NextWithin n) (elim w as (λ x. Result Next) [
          | [] ↦ success (more [])
          | d ∷ v ↦ if d == close then malformed t else success (more (d ∷ v))
        ])
    trailing n [] h = h
    trailing n (d ∷ v) h = elim (Bool-cases (d == close)) [
      | inl y ↦ rw y (inl refl)
      | inr m ↦ rw m h
    ]

    behind :
        {n : ℕ} (w : Bytes)
        → length w ≤ n
        → Holds (NextWithin n) (elim w as (λ x. Result Next) [
          | [] ↦ truncated u
          | c ∷ v ↦
              if c == b','
              then elim (skip_ws v) as (λ x. Result Next) [
                | [] ↦ success (more [])
                | d ∷ x ↦ if d == close then malformed t else success (more (d ∷ x))
              ]
              else if c == close
              then success (closed v)
              else malformed e
        ])
    behind [] h = inr (inl refl)
    behind {n = n} (c ∷ v) h = elim (Bool-cases (c == b',')) [
      | inl y ↦ rw y (trailing n (skip_ws v) (omega (arith, length-skip_ws v)))
      | inr m ↦ elim (Bool-cases (c == close)) [
        | inl y ↦ rw (m, y) (omega arith)
        | inr k ↦ rw (m, k) (inl refl)
      ]
    ]
