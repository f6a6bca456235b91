-- ===== src/Json/Scan/Strings.antt =====
-- `parse_string` always ends, and keeps its limit.
use chrono_sift.Common.{
  ◌&&◌, ◌==◌, codes, Option-cases, ℕ, zero, suc, ◌≤◌, ◌<◌, refl, inl, inr, Bool-cases, Bool, true,
  false, [], ◌∷◌, ◌++◌, Option, none, some, arith, length, Bytes, Read, read, if◌then◌else◌, ltb,
}
use chrono_sift.Core.Status.{Result, success, failure}
use chrono_sift.Json.Scan.{
  malformed, truncated, is_high, hex_nibble, simple_escape, is_low, hex4, read_from, JsonLimits,
  read_hex4, low_surrogate, unicode_escape, escape, string_piece, check_bytes, string_from,
  parse_string,
}
use chrono_sift.Json.Scan.Took.{Took-weaken, Ends, Took}

abbrev Anything {ℓ} : {A : Type ℓ} → A → Type 0
Anything x = Unit

abbrev RestWithin {ℓ} : {A : Type ℓ} → ℕ → Option (Read A) → Type 0
RestWithin n none = Unit
RestWithin n (some r) = length r.rest ≤ n

read_from-RestWithin :
    {A : Type 0} (o : Option A) (s : Bytes) {n : ℕ} → length s ≤ n → RestWithin n (read_from o s)
read_from-RestWithin none s h = tt
read_from-RestWithin (some x) s h = h

RestWithin-weaken :
    {A : Type 0} (o : Option (Read A)) {m n : ℕ} → RestWithin m o → m ≤ n → RestWithin n o
RestWithin-weaken none h le = tt
RestWithin-weaken (some r) h le = omega arith

Ends-weaken {ℓ} :
    {A : Type ℓ} (P : A → Type 0) (o : Option (Result (Read A))) {m n : ℕ}
    → Ends P m o
    → m ≤ n
    → Ends P n o
Ends-weaken P o (r, e, t) le = (r, e, Took-weaken P r t le)

length-read_hex4 : (s : Bytes) → RestWithin (length s) (read_hex4 s)
unfolding read_hex4
length-read_hex4 (a ∷ b ∷ c ∷ d ∷ s) =
    read_from-RestWithin (hex4 (hex_nibble a) (hex_nibble b) (hex_nibble c) (hex_nibble d)) s
      (omega arith)
length-read_hex4 _ = tt

if-RestWithin :
    {A : Type 0} (n : ℕ) (b : Bool) (o : Option (Read A))
    → RestWithin n o
    → RestWithin n (if b then o else none)
if-RestWithin n true o h = h
if-RestWithin n false o h = tt

kept_low :
    (n : ℕ) (o : Option (Read ℕ))
    → RestWithin n o
    → RestWithin n (elim o [ none ↦ none | some r ↦ if is_low r.got then some r else none ])
kept_low n none h = tt
kept_low n (some r) h = if-RestWithin n (is_low r.got) (some r) h

length-low_surrogate : (s : Bytes) → RestWithin (length s) (low_surrogate s)
unfolding low_surrogate
length-low_surrogate (a ∷ b ∷ s) =
    if-RestWithin (suc (suc (length s))) (a == b'\\' && b == b'u') _ (
      kept_low (suc (suc (length s))) (read_hex4 s)
        (RestWithin-weaken (read_hex4 s) (length-read_hex4 s) (omega arith)))
length-low_surrogate _ = tt

unicode_case :
    (high low : Bool) (x y z : Bytes) (s : Bytes) (f : ℕ → Bytes) (o : Option (Read ℕ))
    → RestWithin (length s) o
    → length
        (if high
          then elim o [ some r ↦ read (f r.got) r.rest | none ↦ read x s ]
          else if low
          then read y s
          else read z s).rest
      ≤ length s
unicode_case true low x y z s f none h = omega arith
unicode_case true low x y z s f (some r) h = h
unicode_case false true x y z s f o h = omega arith
unicode_case false false x y z s f o h = omega arith

length-unicode_escape : (cp : ℕ) (s : Bytes) → length (unicode_escape cp s).rest ≤ length s
unfolding unicode_escape
length-unicode_escape cp s =
    unicode_case (is_high cp) (is_low cp) _ _ _ s _ (low_surrogate s) (length-low_surrogate s)

escaped_unicode :
    (n : ℕ) (o : Option (Read ℕ))
    → RestWithin n o
    → Took {A = Bytes} Anything n (elim o as (λ x. Result (Read Bytes)) [
      | none ↦ malformed (codes "invalid \\u escape in string")
      | some r ↦ success (unicode_escape r.got r.rest)
    ])
escaped_unicode n none h = inl refl
escaped_unicode n (some r) h = (tt, omega (arith, length-unicode_escape r.got r.rest))

escape-Took : (s : Bytes) → Took Anything (length s) (escape s)
unfolding escape
escape-Took [] = inr (inl refl)
escape-Took (c ∷ s) = elim (Option-cases (simple_escape c)) [
  | inr (b, e) ↦ rw (e, escape) (tt, omega arith)
  | inl e ↦ elim (Bool-cases (c == b'u')) [
    | inl y ↦
        rw (e, escape)
          (rw (y, escape)
            (escaped_unicode (suc (length s)) (read_hex4 s)
              (RestWithin-weaken (read_hex4 s) (length-read_hex4 s) (omega arith))))
    | inr n ↦ rw (e, escape) (rw (n, escape) (inl refl))
  ]
]

string_piece-Took : (c : ℕ) (s : Bytes) → Took Anything (length s) (string_piece c s)
unfolding string_piece
string_piece-Took c s = elim (Bool-cases (c == b'\\')) [
  | inl y ↦ rw y (escape-Took s)
  | inr n ↦ elim (Bool-cases (ltb c 0x20)) [
    | inl y ↦ rw (n, y) (inl refl)
    | inr m ↦ rw (n, m) (tt, omega arith)
  ]
]

-- At most `limit` bytes.
abbrev pub Short : ℕ → Bytes → Type 0
Short limit out = length out ≤ limit

check_bytes-Took :
    (limit : ℕ) (out s : Bytes) → Took (Short limit) (length s) (check_bytes limit out s)
check_bytes-Took limit out s = elim (Bool-cases (ltb limit (length out))) [
  | inl y ↦ rw y (inr (inr refl))
  | inr n ↦ rw n (ground arith, omega arith)
]

next_piece :
    (limit fuel n : ℕ) (c : Result (Read Bytes))
    → ((out s : Bytes)
        → length s < fuel
        → Ends (Short limit) (length s) (string_from limit fuel out s))
    → n < fuel
    → Took (Short limit) n c
    → Ends (Short limit) n (elim c [
      | failure st ↦ some (failure st)
      | success q ↦ string_from limit fuel q.got q.rest
    ])
next_piece limit fuel n (failure st) ih h t = (failure st, refl, t)
next_piece limit fuel n (success q) ih h t =
    let (r, e, k) = ih q.got q.rest (omega (arith, h, t.1)) in
    (r, e, Took-weaken (Short limit) r k t.1)

piece_round :
    (limit fuel n : ℕ) (out : Bytes) (p : Result (Read Bytes))
    → ((out s : Bytes)
        → length s < fuel
        → Ends (Short limit) (length s) (string_from limit fuel out s))
    → n < fuel
    → Took Anything n p
    → Ends (Short limit) n (elim p [
      | failure st ↦ some (failure st)
      | success r ↦ elim (check_bytes limit (out ++ r.got) r.rest) [
        | failure st ↦ some (failure st)
        | success q ↦ string_from limit fuel q.got q.rest
      ]
    ])
piece_round limit fuel n out (failure st) ih h t = (failure st, refl, t)
piece_round limit fuel n out (success r) ih h t =
    next_piece limit fuel n (check_bytes limit (out ++ r.got) r.rest) ih h
      (Took-weaken (Short limit) _ (check_bytes-Took limit (out ++ r.got) r.rest) t.1)

string_from-Ends :
    (limit fuel : ℕ) (out s : Bytes)
    → length s < fuel
    → Ends (Short limit) (length s) (string_from limit fuel out s)
unfolding string_from
string_from-Ends limit zero out s h = absurd (omega arith)
string_from-Ends limit (suc fuel) out [] h = (truncated _, refl, inr (inl refl))
string_from-Ends limit (suc fuel) out (c ∷ s) h = elim (Bool-cases (c == b'"')) [
  | inl y ↦
      rw (y, string_from)
        (
          check_bytes limit out s,
          refl,
          Took-weaken (Short limit) (check_bytes limit out s) (check_bytes-Took limit out s)
              (omega arith),
        )
  | inr n ↦
      rw (n, string_from)
        (Ends-weaken (Short limit) _
          (piece_round limit fuel (length s) out (string_piece c s) (string_from-Ends limit fuel)
            (omega (arith, h)) (string_piece-Took c s))
          (omega arith))
]

-- `parse_string` ends on every text, with a string within the limit or a failure.
pub parse_string-Ends :
    (l : JsonLimits) (s : Bytes) → Ends (Short l.max_string_bytes) (length s) (parse_string l s)
unfolding parse_string
parse_string-Ends l s = string_from-Ends l.max_string_bytes (suc (length s)) [] s (omega arith)
