-- ===== src/Cef/Extensions/Bounds.antt =====
-- `parse_extensions` always ends, within the limits.
use chrono_sift.Common.{
  codes, ℕ, zero, suc, ◌+◌, ◌≤◌, ◌<◌, ◌≡◌, refl, inl, inr, ◌⊎◌, Bool-cases, true, false, List, [],
  ◌∷◌, ◌++◌, Option, some, Option-cases, arith, leb, ◌==◌, Bytes, length, null, Read, All,
  All-append, All-take, length-append, length-take,
}
use chrono_sift.Core.Status.{StatusCode}
use chrono_sift.Cef.Record.{CefExtension, ParseOptions}
use chrono_sift.Cef.Header.{push_bounded}
use chrono_sift.Cef.Extensions.{
  codes, status, good, is_key_char, read_key, is_pair_boundary, skip_blanks, resync, value_escape,
  value_from, Pairs, pair_at, pairs_from, parse_extensions,
}

-- A pair as the parser makes them under the cap.
pub record IsPair (cap : ℕ) (e : CefExtension) : Type 0 where
  pub key_chars : All (λ c. is_key_char c ≡ true) e.key
  pub key_short : length e.key ≤ cap
  pub value_short : length e.value ≤ cap

length-push_bounded :
    (out : Bytes) (c cap : ℕ) → length out ≤ cap → length (push_bounded out c cap) ≤ cap
unfolding push_bounded
length-push_bounded out c cap h = ground (arith, length-append {0} out (c ∷ []))

-- A value within the cap, and at most `n` bytes behind it.
abbrev Took : ℕ → ℕ → Read Bytes → Type 0
Took cap n r = (length r.got ≤ cap) × (length r.rest ≤ n)

Took-grow : {cap m n : ℕ} (r : Read Bytes) → Took cap m r → m ≤ n → Took cap n r
Took-grow r h le = (h.0, omega (arith, h.1))

value_from-Took :
    (cap : ℕ) (value s : Bytes) → length value ≤ cap → Took cap (length s) (value_from cap value s)
unfolding value_from
value_from-Took cap value [] h = (h, omega arith)
value_from-Took cap value (c ∷ []) h = (length-push_bounded value c cap h, omega arith)
value_from-Took cap value (c ∷ n ∷ s) h =
    let next : (d : ℕ)
        → Took cap (suc (suc (length s))) (value_from cap (push_bounded value d cap) (n ∷ s)) =
      λ d.
        Took-grow _
          (value_from-Took cap (push_bounded value d cap) (n ∷ s)
            (length-push_bounded value d cap h))
          (omega arith) in
    elim (Bool-cases (c == b'\\')) [
      | inl y ↦ elim (Option-cases (value_escape n)) [
        | inl e ↦ rw (y, value_from) (rw (e, value_from) (next b'\\'))
        | inr (d, e) ↦
            rw (y, value_from)
              (rw (e, value_from)
                (Took-grow _
                  (value_from-Took cap (push_bounded value d cap) s
                    (length-push_bounded value d cap h))
                  (omega arith)))
      ]
      | inr m ↦ elim (Bool-cases (c == b' ')) [
        | inr k ↦ rw (m, value_from) (rw (k, value_from) (next c))
        | inl y ↦ elim (Bool-cases (is_pair_boundary (n ∷ s))) [
          | inl z ↦ rw (m, value_from) (rw (y, value_from) (rw (z, value_from) (h, omega arith)))
          | inr k ↦ rw (m, value_from) (rw (y, value_from) (rw (k, value_from) (next b' ')))
        ]
      ]
    ]

read_key-chars :
    (s : Bytes)
    → All (λ c. is_key_char c ≡ true) (read_key s).got
      × (length (read_key s).got + length (read_key s).rest ≡ length s)
unfolding read_key
read_key-chars [] = (tt, refl)
read_key-chars (c ∷ s) = elim (Bool-cases (is_key_char c)) [
  | inl y ↦ let (a, e) = read_key-chars s in rw y ((y, a), omega arith)
  | inr n ↦ rw n (tt, omega arith)
]

length-skip_blanks : (s : Bytes) → length (skip_blanks s) ≤ length s
unfolding skip_blanks
length-skip_blanks [] = omega arith
length-skip_blanks (c ∷ s) = ground (arith, length-skip_blanks s)

length-resync : (s : Bytes) → length (resync s) ≤ length s
unfolding resync
length-resync [] = omega arith
length-resync (c ∷ s) = ground (arith, length-resync s, length-skip_blanks (c ∷ s))

-- The limits of a state of the loop.
record IsWithin (opts : ParseOptions) (out : List CefExtension) : Type 0 where
  pairs : All (IsPair opts.max_field_bytes) out
  few : length out ≤ opts.max_extensions

-- The loop ends, with the pairs so far and more within the limits, and a good status or one for too
-- many pairs.
abbrev pub PairsWithin : ParseOptions → Pairs → Type 0
PairsWithin opts p =
    All (IsPair opts.max_field_bytes) p.out
    × (length p.out ≤ opts.max_extensions)
    × ((p.state.code ≡ StatusCode.ok) ⊎ (p.state.code ≡ StatusCode.limit_exceeded))

abbrev Ends : ParseOptions → Option Pairs → Type 0
Ends opts o = (p : Pairs) × (o ≡ some p) × PairsWithin opts p

pair_at-IsPair :
    (cap n : ℕ) (s : Bytes) (v : Read Bytes)
    → Took cap n v
    → IsPair cap (pair_at cap (read_key s).got v)
pair_at-IsPair cap n s v h = record {
  key_chars = All-take (λ c. is_key_char c ≡ true) cap (read_key s).got (read_key-chars s).0;
  key_short = omega (arith, length-take {0} cap (read_key s).got);
  value_short = h.0;
}

-- Behind a key.
after_key-Ends :
    (opts : ParseOptions) (fuel : ℕ) (out : List CefExtension) (s w : Bytes)
    → ((out : List CefExtension) (s : Bytes)
        → length s < fuel
        → IsWithin opts out
        → Ends opts (pairs_from opts fuel out s))
    → length w < fuel
    → IsWithin opts out
    → length out < opts.max_extensions
    → Ends opts (elim w as (λ x. Option Pairs) [
      | [] ↦ pairs_from opts fuel out []
      | d ∷ t ↦ elim (d == b'=') as (λ x. Option Pairs) [
        | false ↦ pairs_from opts fuel out (resync (d ∷ t))
        | true ↦ elim (null (read_key s).got) as (λ x. Option Pairs) [
          | true ↦ pairs_from opts fuel out (resync t)
          | false ↦
              pairs_from opts fuel
                (out
                  ++ pair_at opts.max_field_bytes
                      (read_key s).got
                      (value_from opts.max_field_bytes [] t)
                    ∷ [])
                (skip_blanks (value_from opts.max_field_bytes [] t).rest)
        ]
      ]
    ])
after_key-Ends opts fuel out s [] ih h i room = ih out [] h i
after_key-Ends opts fuel out s (d ∷ t) ih h i room = elim (Bool-cases (d == b'=')) [
  | inr n ↦ rw n (ih out (resync (d ∷ t)) (omega (arith, length-resync (d ∷ t))) i)
  | inl y ↦ elim (Bool-cases (null (read_key s).got)) [
    | inl z ↦ rw (y, z) (ih out (resync t) (omega (arith, length-resync t)) i)
    | inr k ↦
        let cap = opts.max_field_bytes in
        let v = value_from cap [] t in
        let took = value_from-Took cap [] t (omega arith) in
        let pair = pair_at cap (read_key s).got v in
        rw (y, k)
          (ih (out ++ pair ∷ []) (skip_blanks v.rest)
            (omega (arith, length-skip_blanks v.rest, took.1))
            (record {
              pairs =
                  All-append (IsPair cap) out (pair ∷ []) i.pairs
                    (pair_at-IsPair cap (length t) s v took, tt);
              few = omega (arith, length-append {0} out (pair ∷ []));
            }))
  ]
]

key_rest : (c : ℕ) (s : Bytes) → is_key_char c ≡ true → length (read_key (c ∷ s)).rest ≤ length s
unfolding read_key
key_rest c s y = rw y (omega (arith, (read_key-chars s).1))

pairs_from-Ends :
    (opts : ParseOptions) (fuel : ℕ) (out : List CefExtension) (s : Bytes)
    → length s < fuel
    → IsWithin opts out
    → Ends opts (pairs_from opts fuel out s)
unfolding pairs_from
pairs_from-Ends opts zero out s h i = absurd (omega arith)
pairs_from-Ends opts (suc fuel) out [] h i =
    (record { state = good; out = out }, refl, (i.pairs, i.few, inl refl))
pairs_from-Ends opts (suc fuel) out (c ∷ s) h i =
    elim (Bool-cases (leb opts.max_extensions (length out))) [
      | inl y ↦ (
        record {
          state = status StatusCode.limit_exceeded (codes "cef: too many extension pairs");
          out = out;
        },
        rw (y, pairs_from) refl,
        (i.pairs, i.few, inr refl),
      )
      | inr n ↦ elim (Bool-cases (is_key_char c)) [
        | inr m ↦
            rw (n, pairs_from)
              (rw (m, pairs_from) (pairs_from-Ends opts fuel out s (omega arith) i))
        | inl y ↦
            rw (n, pairs_from)
              (rw (y, pairs_from)
                (after_key-Ends opts fuel out (c ∷ s) (read_key (c ∷ s)).rest
                  (pairs_from-Ends opts fuel) (omega (arith, key_rest c s y)) i
                  (ground (arith, n))))
      ]
    ]

-- `parse_extensions` ends on every text, with at most `max_extensions` pairs, each of a key of key
-- characters and a value, neither longer than `max_field_bytes`; its status is good or says that there
-- were too many pairs.
pub parse_extensions_lem :
    (opts : ParseOptions) (text : Bytes)
    → (p : Pairs) × (parse_extensions opts text ≡ some p) × PairsWithin opts p
unfolding parse_extensions
parse_extensions_lem opts text =
    pairs_from-Ends opts (suc (length text)) [] (skip_blanks text)
      (omega (arith, length-skip_blanks text)) (record { pairs = tt; few = omega arith })
