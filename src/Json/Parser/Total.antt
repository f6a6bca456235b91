-- ===== src/Json/Parser/Total.antt =====
-- `JsonParser` always ends, and what it accepts is within its limits.
use chrono_sift.Common.{
  ◌||◌, length-drop, drop, codes, ℕ, zero, suc, ◌+◌, ◌≤◌, ◌≡◌, refl, inl, inr, ◌⊎◌, Bool-cases, [],
  ◌∷◌, some, arith, length, Bytes, Read, ltb, ◌==◌,
}
use chrono_sift.Core.Status.{status, StatusCode, Result, success, failure}
use chrono_sift.Json.Value.{JsonValue, depth, Floats}
use chrono_sift.Json.Limits.{IsWithin, nodes}
use chrono_sift.Json.Scan.{malformed, truncated, JsonLimits, skip_ws}
use chrono_sift.Json.Scan.Took.{IsJsonError, Took, Ends, length-skip_ws}
use chrono_sift.Json.Scan.Strings.{Short, parse_string-Ends}
use chrono_sift.Json.Scan.Numbers.{IsScalarWithin, parse_number-Took}
use chrono_sift.Json.Parser.{
  is_digit, is_empty, parse_number, parse_string, starts_with, over_limit, Outcome, ◌>>=◌, Parsed,
  parsed, Child, literal, string_value, number_parsed, value_at, parse_value, finish, parse,
}
use chrono_sift.Json.Parser.Arrays.{parse_array-Gives}
use chrono_sift.Json.Parser.Objects.{parse_object-Gives}
use chrono_sift.Json.Parser.Gives.{IsParsed, Gives}

scalar-IsParsed :
    (l : JsonLimits) (d total n : ℕ) (v : JsonValue) (t : Bytes)
    → d ≤ l.max_depth
    → suc total ≤ l.max_total_values
    → IsScalarWithin l v
    → length t ≤ n
    → IsParsed l d total n (parsed v (suc total) t)
scalar-IsParsed l d total n v t hd ht (w, e, f) h = (w, omega (arith, e), omega (arith, f), ht, h)

literal-Gives :
    (l : JsonLimits) (d total : ℕ) (word : Bytes) (v : JsonValue) (s : Bytes)
    → d ≤ l.max_depth
    → suc total ≤ l.max_total_values
    → IsScalarWithin l v
    → Gives (IsParsed l d total (length s)) (some (literal word v (suc total) s))
unfolding literal
literal-Gives l d total word v s hd ht w = elim (Bool-cases (starts_with s word)) [
  | inr m ↦ rw m (malformed _, refl, inl refl)
  | inl y ↦ rw y (
    success _,
    refl,
    scalar-IsParsed l d total (length s) v (drop (length word) s) hd ht w
        (omega (arith, length-drop {0} (length word) s)),
  )
]

string_value-Gives :
    (l : JsonLimits) (d total : ℕ) (s : Bytes)
    → d ≤ l.max_depth
    → suc total ≤ l.max_total_values
    → Gives (IsParsed l d total (length s)) (string_value (suc total) (parse_string l s))
unfolding IsWithin depth nodes
string_value-Gives l d total s hd ht = go (parse_string-Ends l s)
  where
    go :
        Ends (Short l.max_string_bytes) (length s) (parse_string l s)
        → Gives (IsParsed l d total (length s)) (string_value (suc total) (parse_string l s))
    go (failure st, e, h) = rw e (failure st, refl, h)
    go (success r, e, h) = rw e (
      success _,
      refl,
      scalar-IsParsed l d total (length s) (JsonValue.string r.got) r.rest hd ht (h.0, refl, refl)
          h.1,
    )

number-Gives :
    (l : JsonLimits) (fl : Floats) (d total : ℕ) (s : Bytes)
    → d ≤ l.max_depth
    → suc total ≤ l.max_total_values
    → Gives (IsParsed l d total (length s)) (some (number_parsed (suc total) (parse_number fl s)))
number-Gives l fl d total s hd ht = go (parse_number fl s) (parse_number-Took l fl s)
  where
    go :
        (r : Result (Read JsonValue))
        → Took (IsScalarWithin l) (length s) r
        → Gives (IsParsed l d total (length s)) (some (number_parsed (suc total) r))
    go (failure st) h = (failure st, refl, h)
    go (success r) h =
        (success _, refl, scalar-IsParsed l d total (length s) r.got r.rest hd ht h.0 h.1)

Gives-weaken :
    (l : JsonLimits) (d total : ℕ) {m n : ℕ} (o : Outcome Parsed)
    → Gives (IsParsed l d total m) o
    → m ≤ n
    → Gives (IsParsed l d total n) o
Gives-weaken l d total o (failure st, e, h) le = (failure st, e, h)
Gives-weaken l d total o (success p, e, (a, b, c, f, g)) le =
    (success p, e, (a, b, c, f, omega arith))

module _ (l : JsonLimits) (fl : Floats) where
  value_at-Gives :
      (d total c : ℕ) (s : Bytes) (child : Child)
      → d ≤ l.max_depth
      → suc total ≤ l.max_total_values
      → ((t : ℕ) (u : Bytes) → Gives (IsParsed l (suc d) t (length u)) (child t u))
      → Gives (IsParsed l d total (suc (length s))) (value_at l fl child (suc total) c s)
  unfolding value_at IsWithin depth nodes
  value_at-Gives d total c s child hd ht ih =
      let le : length s ≤ suc (length s) = omega arith in
      elim (Bool-cases (c == b'{')) [
        | inl y ↦ rw y (Gives-weaken l d total _ (parse_object-Gives l d hd child ih total s ht) le)
        | inr n1 ↦ elim (Bool-cases (c == b'[')) [
          | inl y ↦
              rw (n1, y)
                (Gives-weaken l d total _ (parse_array-Gives l d hd child ih total s ht) le)
          | inr n2 ↦ elim (Bool-cases (c == b'"')) [
            | inl y ↦
                rw (n1, n2, y) (Gives-weaken l d total _ (string_value-Gives l d total s hd ht) le)
            | inr n3 ↦ elim (Bool-cases (c == b't')) [
              | inl y ↦
                  rw (n1, n2, n3, y) (literal-Gives l d total _ _ (c ∷ s) hd ht (tt, refl, refl))
              | inr n4 ↦ elim (Bool-cases (c == b'f')) [
                | inl y ↦
                    rw (n1, n2, n3, n4, y)
                      (literal-Gives l d total _ _ (c ∷ s) hd ht (tt, refl, refl))
                | inr n5 ↦ elim (Bool-cases (c == b'n')) [
                  | inl y ↦
                      rw (n1, n2, n3, n4, n5, y)
                        (literal-Gives l d total _ _ (c ∷ s) hd ht (tt, refl, refl))
                  | inr n6 ↦ elim (Bool-cases (c == b'-' || is_digit c)) [
                    | inl y ↦
                        rw (n1, n2, n3, n4, n5, n6, y) (number-Gives l fl d total (c ∷ s) hd ht)
                    | inr n7 ↦ rw (n1, n2, n3, n4, n5, n6, n7) (malformed _, refl, inl refl)
                  ]
                ]
              ]
            ]
          ]
        ]
      ]

  at_value :
      (fuel d total n : ℕ) (w : Bytes)
      → d ≤ l.max_depth
      → suc total ≤ l.max_total_values
      → ((t : ℕ) (u : Bytes)
          → Gives (IsParsed l (suc d) t (length u)) (parse_value l fl fuel (suc d) t u))
      → length w ≤ n
      → Gives (IsParsed l d total n) (elim w as (λ x. Outcome Parsed) [
        | [] ↦ some (truncated (codes "expected a value, found end"))
        | c ∷ t ↦ value_at l fl (parse_value l fl fuel (suc d)) (suc total) c t
      ])
  at_value fuel d total n [] hd ht ih le = (truncated _, refl, inr (inl refl))
  at_value fuel d total n (c ∷ t) hd ht ih le =
      Gives-weaken l d total _ (value_at-Gives d total c t (parse_value l fl fuel (suc d)) hd ht ih)
        le

  parse_value-Gives :
      (fuel d total : ℕ) (s : Bytes)
      → d ≤ suc l.max_depth
      → suc (suc l.max_depth) ≤ d + fuel
      → Gives (IsParsed l d total (length s)) (parse_value l fl fuel d total s)
  unfolding parse_value
  parse_value-Gives zero d total s hd hf = absurd (omega arith)
  parse_value-Gives (suc fuel) d total s hd hf = elim (Bool-cases (ltb l.max_depth d)) [
    | inl y ↦ rw (y, parse_value) (over_limit _, refl, inr (inr refl))
    | inr n ↦ elim (Bool-cases (ltb l.max_total_values (suc total))) [
      | inl y ↦ rw (n, parse_value) (rw (y, parse_value) (over_limit _, refl, inr (inr refl)))
      | inr m ↦
          rw (n, parse_value)
            (rw (m, parse_value)
              (at_value fuel d total (length s) (skip_ws s) (ground (arith, n)) (ground (arith, m))
                (λ t u. parse_value-Gives fuel (suc d) t u (ground (arith, n)) (omega arith))
                (length-skip_ws s)))
    ]
  ]

-- A value within the limits, or one of the four codes of a failure.
abbrev pub IsJsonOutcome : JsonLimits → Result JsonValue → Type 0
IsJsonOutcome l (failure st) = (st.code ≡ StatusCode.empty) ⊎ IsJsonError st
IsJsonOutcome l (success v) =
    IsWithin l v × (depth v ≤ suc l.max_depth) × (nodes v ≤ l.max_total_values)

finish-IsJsonOutcome :
    (l : JsonLimits) (n : ℕ) (p : Parsed) → IsParsed l 0 0 n p → IsJsonOutcome l (finish p)
unfolding finish
finish-IsJsonOutcome l n p (w, e, c, b, h) = elim (Bool-cases (is_empty (skip_ws p.rest))) [
  | inl y ↦ rw y (w, omega arith, omega arith)
  | inr m ↦ rw m (inr (inl refl))
]

-- `JsonParser::parse` ends on every text under every limits. It returns a value with integers in the
-- range of `i64`, strings and keys of at most `max_string_bytes` bytes, arrays and objects of at most
-- `max_array_items` items and `max_object_members` members, no key twice in an object, nesting of at
-- most `max_depth` levels below the root, and at most `max_total_values` values; or a failure with
-- the code empty, malformed, truncated or limit-exceeded.
pub parse_lem :
    (l : JsonLimits) (fl : Floats) (text : Bytes)
    → (r : Result JsonValue) × (parse l fl text ≡ some r) × IsJsonOutcome l r
unfolding parse
parse_lem l fl text = elim (Bool-cases (is_empty (skip_ws text))) [
  | inl y ↦ (failure (status StatusCode.empty (codes "no JSON value present")), rw y refl, inl refl)
  | inr n ↦ rw n (
      go (
        parse_value-Gives l fl (suc (suc l.max_depth)) 0 0 (skip_ws text) (omega arith)
          (omega arith)))
]
  where
    go :
        {o : Outcome Parsed}
        → Gives (IsParsed l 0 0 (length (skip_ws text))) o
        → (r : Result JsonValue) × ((o >>= λ p. some (finish p)) ≡ some r) × IsJsonOutcome l r
    go (failure st, e, h) = (failure st, rw e refl, inr h)
    go (success p, e, h) = (finish p, rw e refl, finish-IsJsonOutcome l (length (skip_ws text)) p h)
