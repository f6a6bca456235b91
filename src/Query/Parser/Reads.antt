-- ===== src/Query/Parser/Reads.antt =====
-- What the readers of the parser give: bounded parts, and fewer bytes than before.
use chrono_sift.Core.Text.{space_run}
use chrono_sift.Common.{
  Read, length-drop, All-append, ◌⊎◌, length-append, ℕ, ◌+◌, ◌≤◌, ◌<◌, ◌≡◌, ◌≢◌, Bool, true, false,
  [], ◌∷◌, ◌++◌, Option, none, some, arith, ltb, ◌==◌, Bytes, length, null, All, Bool-cases, inl,
  inr, refl,
}
use chrono_sift.Core.Status.{StatusCode, Status, Result, success, failure}
use chrono_sift.Query.Filter.{Op, Predicate}
use chrono_sift.Query.Parser.{
  with_field, with_op, with_value, bare_value, not_space, max_token_len, is_field_char, parse_op,
  run_from, quoted_from, read_value, parse_predicate, skip_spaces,
}

-- A read value of `from` bytes at most, none of them gone unseen.
abbrev Ran : (ℕ → Bool) → ℕ → Option (Read Bytes) → Type 0
Ran test n none = Unit
Ran test n (some r) =
    All (λ c. test c ≡ true) r.got
    × (length r.got ≤ max_token_len)
    × (length r.got + length r.rest ≡ n)

not_ltb→le : (a b : ℕ) → ltb a b ≡ false → b ≤ a
not_ltb→le a b h = ground arith

run_from-Ran :
    (test : ℕ → Bool) (out s : Bytes) (n : ℕ)
    → length out + length s ≡ n
    → All (λ c. test c ≡ true) out
    → length out ≤ max_token_len
    → Ran test n (run_from test out s)
unfolding run_from
run_from-Ran test out [] n e h k = (h, k, e)
run_from-Ran test out (c ∷ s) n e h k = elim (Bool-cases (test c)) [
  | inr q ↦ rw q (h, k, e)
  | inl p ↦ elim (Bool-cases (ltb max_token_len (length (out ++ c ∷ [])))) [
    | inl y ↦ rw (p, y) tt
    | inr b ↦
        rw (p, b)
          (run_from-Ran test (out ++ c ∷ []) s n (omega (arith, length-append {0} out (c ∷ [])))
            (All-append (λ d. test d ≡ true) out (c ∷ []) h (p, tt)) (not_ltb→le _ _ b))
  ]
]

-- The codes with which the parser fails.
abbrev pub IsSyntaxError : Status → Type 0
IsSyntaxError st =
    (st.code ≡ StatusCode.malformed)
    ⊎ ((st.code ≡ StatusCode.invalid_field) ⊎ (st.code ≡ StatusCode.limit_exceeded))

-- A failure, or a value of bounded length with at most `n` bytes left.
abbrev Took : ℕ → Result (Read Bytes) → Type 0
Took n (failure st) = IsSyntaxError st
Took n (success r) = (length r.got ≤ max_token_len) × (length r.rest ≤ n)

Took-mono : (n m : ℕ) (r : Result (Read Bytes)) → n ≤ m → Took n r → Took m r
Took-mono n m (failure st) h t = t
Took-mono n m (success r) h t = (t.0, omega (arith, t.1))

quoted_from-Took :
    (escaped : Bool) (out s : Bytes)
    → length out ≤ max_token_len
    → Took (length s) (quoted_from escaped out s)
unfolding quoted_from
quoted_from-Took true out [] h =
    elim (Bool-cases (ltb max_token_len (length (out ++ b'\\' ∷ [])))) [
      | inl y ↦ rw y (inr (inr refl))
      | inr n ↦ rw n (inl refl)
    ]
quoted_from-Took false out [] h = inl refl
quoted_from-Took true out (c ∷ s) h =
    elim (Bool-cases (ltb max_token_len (length (out ++ c ∷ [])))) [
      | inl y ↦ rw y (inr (inr refl))
      | inr n ↦ rw n (
          Took-mono _ _ _ (omega arith)
            (quoted_from-Took false (out ++ c ∷ []) s (not_ltb→le _ _ n)))
    ]
quoted_from-Took false out (c ∷ s) h = elim (Bool-cases (c == b'\\')) [
  | inl y ↦ rw y (Took-mono _ _ _ (omega arith) (quoted_from-Took true out s h))
  | inr n ↦ elim (Bool-cases (c == b'"')) [
    | inl y ↦ rw (n, y) (h, omega arith)
    | inr m ↦ elim (Bool-cases (ltb max_token_len (length (out ++ c ∷ [])))) [
      | inl y ↦ rw (n, m, y) (inr (inr refl))
      | inr k ↦
          rw (n, m, k)
            (Took-mono _ _ _ (omega arith)
              (quoted_from-Took false (out ++ c ∷ []) s (not_ltb→le _ _ k)))
    ]
  ]
]

bare_value-Took : (o : Option (Read Bytes)) (n : ℕ) → Ran not_space n o → Took n (bare_value o)
bare_value-Took none n h = inr (inr refl)
bare_value-Took (some r) n h = elim (Bool-cases (null r.got)) [
  | inl y ↦ rw y (inl refl)
  | inr q ↦ rw q (h.1, omega (arith, h.2))
]

read_value-Took : (s : Bytes) → Took (length s) (read_value s)
unfolding read_value
read_value-Took [] = inl refl
read_value-Took (c ∷ s) = elim (Bool-cases (c == b'"')) [
  | inl y ↦ rw y (Took-mono _ _ _ (omega arith) (quoted_from-Took false [] s (omega arith)))
  | inr n ↦ rw n (
      bare_value-Took (run_from not_space [] (c ∷ s)) (length (c ∷ s))
        (run_from-Ran not_space [] (c ∷ s) (length (c ∷ s)) (omega arith) tt (omega arith)))
]

pub length-skip_spaces : (s : Bytes) → length (skip_spaces s) ≤ length s
unfolding skip_spaces
length-skip_spaces s = omega (arith, length-drop {0} (space_run s) s)

-- Nothing, or an operator and fewer bytes.
abbrev OpTook : ℕ → Option (Read Op) → Type 0
OpTook n none = Unit
OpTook n (some r) = length r.rest < n

parse_op-OpTook : (s : Bytes) → OpTook (length s) (parse_op s)
unfolding parse_op
parse_op-OpTook [] = tt
parse_op-OpTook (c ∷ s) = ground (arith, length-drop {0} 1 s)

-- A field name of field characters, and bounded lengths.
pub record IsPredicate (p : Predicate) : Type 0 where
  pub named : length p.field ≢ 0
  pub field_chars : All (λ c. is_field_char c ≡ true) p.field
  pub short_field : length p.field ≤ max_token_len
  pub short_value : length p.value ≤ max_token_len

-- A failure, or a predicate and fewer than `n` bytes left.
abbrev pub PredicateTook : ℕ → Result (Read Predicate) → Type 0
PredicateTook n (failure st) = IsSyntaxError st
PredicateTook n (success r) = IsPredicate r.got × (length r.rest < n)

with_value-PredicateTook :
    (field : Bytes) (op : Op) (n m : ℕ) (r : Result (Read Bytes))
    → length field ≢ 0
    → All (λ c. is_field_char c ≡ true) field
    → length field ≤ max_token_len
    → m < n
    → Took m r
    → PredicateTook n (with_value field op r)
with_value-PredicateTook field op n m (failure st) a b c h t = t
with_value-PredicateTook field op n m (success r) a b c h t =
    (record { named = a; field_chars = b; short_field = c; short_value = t.0 }, omega (arith, t.1))

with_op-PredicateTook :
    (field : Bytes) (n : ℕ) (r : Option (Read Op))
    → length field ≢ 0
    → All (λ c. is_field_char c ≡ true) field
    → length field ≤ max_token_len
    → OpTook n r
    → PredicateTook n (with_op field r)
with_op-PredicateTook field n none a b c t = inl refl
with_op-PredicateTook field n (some r) a b c t =
    with_value-PredicateTook field r.got n (length (skip_spaces r.rest)) _ a b c
      (omega (arith, t, length-skip_spaces r.rest)) (read_value-Took (skip_spaces r.rest))

OpTook-mono : (n m : ℕ) (r : Option (Read Op)) → n ≤ m → OpTook n r → OpTook m r
OpTook-mono n m none h t = tt
OpTook-mono n m (some r) h t = omega (arith, t)

not_null : (s : Bytes) → null s ≡ false → length s ≢ 0
not_null s h = ground arith

with_field-PredicateTook :
    (o : Option (Read Bytes)) (n : ℕ) → Ran is_field_char n o → PredicateTook n (with_field o)
with_field-PredicateTook none n h = inr (inr refl)
with_field-PredicateTook (some r) n h =
    let t = skip_spaces r.rest in
    elim (Bool-cases (null r.got)) [
      | inl y ↦ rw y (inr (inl refl))
      | inr p ↦ elim (Bool-cases (null t)) [
        | inl y ↦ rw (p, y) (inl refl)
        | inr q ↦
            rw (p, q)
              (with_op-PredicateTook r.got n (parse_op t) (not_null r.got p) h.0 h.1 (
                OpTook-mono (length t) n (parse_op t)
                  (omega (arith, h.2, length-skip_spaces r.rest)) (parse_op-OpTook t)))
      ]
    ]

PredicateTook-mono :
    (n m : ℕ) (r : Result (Read Predicate)) → n ≤ m → PredicateTook n r → PredicateTook m r
PredicateTook-mono n m (failure st) h t = t
PredicateTook-mono n m (success r) h t = (t.0, omega (arith, t.1))

pub parse_predicate-PredicateTook : (s : Bytes) → PredicateTook (length s) (parse_predicate s)
unfolding parse_predicate
parse_predicate-PredicateTook s =
    let t = skip_spaces s in
    PredicateTook-mono (length t) (length s) _ (length-skip_spaces s) (
      with_field-PredicateTook (run_from is_field_char [] t) (length t)
        (run_from-Ran is_field_char [] t (length t) (omega arith) tt (omega arith)))
