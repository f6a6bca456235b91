-- ===== src/Query/Parser/Total.antt =====
-- The parser always ends, and what it accepts is a well-formed filter.
use chrono_sift.Query.Parser.Reads.{
  IsPredicate, IsSyntaxError, PredicateTook, parse_predicate-PredicateTook, length-skip_spaces,
}
use chrono_sift.Core.Text.{word_run}
use chrono_sift.Common.{
  Read, ◌&&◌, codes, take, ◌-◌, drop, length-drop, All-append, length-append, ℕ, zero, suc, ◌≤◌,
  ◌<◌, ◌≡◌, true, [], ◌∷◌, Option, some, arith, leb, if◌then◌else◌, Bytes, length, null, All,
  Bool-cases, inl, inr, refl,
}
use chrono_sift.Core.Status.{Result, success, failure}
use chrono_sift.Query.Filter.{Conj, Predicate, Filter, empty_filter, add}
use chrono_sift.Query.Parser.{
  took_keyword, token_iequals, took_predicate, max_predicates, parse_predicate, Loop, start, round,
  finish, parse_loop, parse_filter, skip_spaces,
}

-- A filter as the parser makes them: one conjunction less than predicates, and 256 predicates at
-- most.
pub record IsWellFormed (f : Filter) : Type 0 where
  pub joined : length f.conjunctions ≡ length f.predicates - 1
  pub all_predicates : All IsPredicate f.predicates
  pub bounded : length f.predicates ≤ max_predicates

add-joined :
    (f : Filter) (p : Predicate) (c : Conj)
    → length f.conjunctions ≡ length f.predicates - 1
    → length (add f p c).conjunctions ≡ length (add f p c).predicates - 1
unfolding add
add-joined f p c h =
    ground
      (arith, h, length-append {0} f.conjunctions (c ∷ []), length-append {0} f.predicates (p ∷ []))

pub add-IsWellFormed :
    (f : Filter) (p : Predicate) (c : Conj)
    → IsWellFormed f
    → IsPredicate p
    → length f.predicates < max_predicates
    → IsWellFormed (add f p c)
unfolding add
add-IsWellFormed f p c w h k = record {
  joined = add-joined f p c w.joined;
  all_predicates = All-append IsPredicate f.predicates (p ∷ []) w.all_predicates (h, tt);
  bounded = omega (arith, length-append {0} f.predicates (p ∷ []));
}

record IsLoop (l : Loop) : Type 0 where
  well_formed : IsWellFormed l.filter
  counted : l.count ≡ length l.filter.predicates

-- A failure, or a loop state and fewer than `n` bytes left.
abbrev RoundTook : ℕ → Result (Read Loop) → Type 0
RoundTook n (failure st) = IsSyntaxError st
RoundTook n (success r) = IsLoop r.got × (length r.rest < n)

add-counted :
    (f : Filter) (p : Predicate) (c : Conj) (n : ℕ)
    → n ≡ length f.predicates
    → suc n ≡ length (add f p c).predicates
unfolding add
add-counted f p c n h = omega (arith, length-append {0} f.predicates (p ∷ []))

took_predicate-RoundTook :
    (l : Loop) (n : ℕ) (r : Result (Read Predicate))
    → IsLoop l
    → l.count < max_predicates
    → PredicateTook n r
    → RoundTook n (took_predicate l r)
took_predicate-RoundTook l n (failure st) i h t = t
took_predicate-RoundTook l n (success r) i h t =
    let conj = if l.have_predicate then l.pending_conj else Conj.and in
    (
      record {
        well_formed =
            add-IsWellFormed l.filter r.got conj i.well_formed t.0 (omega (arith, i.counted));
        counted = add-counted l.filter r.got conj l.count i.counted;
      },
      t.1,
    )

joined_by :
    (l : Loop) (c : Conj)
    → IsLoop l
    → IsLoop (record l { pending_conj = c; expecting_predicate = true })
joined_by l c i = record { well_formed = i.well_formed; counted = i.counted }

keyword_at :
    (l : Loop) (s : Bytes)
    → IsLoop l
    → (k : ℕ) → RoundTook (length s) (took_keyword l (take k s) (drop k s))
unfolding token_iequals
keyword_at l s i zero = inl refl
keyword_at l [] i (suc k) = inl refl
keyword_at l (c ∷ s) i (suc k) =
    let word = c ∷ take k s in
    let shorter : length (drop k s) < suc (length s) = omega (arith, length-drop {0} k s) in
    elim (Bool-cases (token_iequals word (codes "AND"))) [
      | inl y ↦ rw y (joined_by l Conj.and i, shorter)
      | inr n ↦ elim (Bool-cases (token_iequals word (codes "OR"))) [
        | inl y ↦ rw (n, y) (joined_by l Conj.or i, shorter)
        | inr m ↦ rw (n, m) (inl refl)
      ]
    ]

took_keyword-RoundTook :
    (l : Loop) (s : Bytes)
    → IsLoop l
    → RoundTook (length s) (took_keyword l (take (word_run s) s) (drop (word_run s) s))
took_keyword-RoundTook l s i = keyword_at l s i (word_run s)

round-RoundTook : (l : Loop) (s : Bytes) → IsLoop l → RoundTook (length s) (round l s)
unfolding round
round-RoundTook l s i = elim (Bool-cases l.expecting_predicate) [
  | inr q ↦ rw q (took_keyword-RoundTook l s i)
  | inl p ↦ elim (Bool-cases (leb max_predicates l.count)) [
    | inl y ↦ rw (p, y) (inr (inr refl))
    | inr n ↦
        rw (p, n)
          (took_predicate-RoundTook l (length s) (parse_predicate s) i (ground (arith, n))
            (parse_predicate-PredicateTook s))
  ]
]

-- A well-formed filter, or one of the three codes of a syntax error.
abbrev pub IsOutcome : Result Filter → Type 0
IsOutcome (failure st) = IsSyntaxError st
IsOutcome (success f) = IsWellFormed f

finish-IsOutcome : (l : Loop) → IsLoop l → IsOutcome (finish l)
finish-IsOutcome l i = elim (Bool-cases (l.expecting_predicate && l.have_predicate)) [
  | inl y ↦ rw y (inl refl)
  | inr n ↦ rw n i.well_formed
]

-- What the loop gives: never nothing.
abbrev Ends : Option (Result Filter) → Type 0
Ends o = (r : Result Filter) × (o ≡ some r) × IsOutcome r

next_round :
    (fuel n : ℕ) (res : Result (Read Loop))
    → ((l : Loop) (s : Bytes) → IsLoop l → length s < fuel → Ends (parse_loop fuel l s))
    → n ≤ fuel
    → RoundTook n res
    → Ends (elim res [ failure st ↦ some (failure st) | success r ↦ parse_loop fuel r.got r.rest ])
next_round fuel n (failure st) ih h t = (failure st, refl, t)
next_round fuel n (success r) ih h t = ih r.got r.rest t.0 (omega (arith, h, t.1))

parse_loop-some :
    (fuel : ℕ) (l : Loop) (s : Bytes) → IsLoop l → length s < fuel → Ends (parse_loop fuel l s)
unfolding parse_loop
parse_loop-some zero l s i h = absurd (omega arith)
parse_loop-some (suc fuel) l s i h =
    let t = skip_spaces s in
    elim (Bool-cases (null t)) [
      | inl y ↦ (finish l, rw y refl, finish-IsOutcome l i)
      | inr n ↦ rw n (
          next_round fuel (length t) (round l t) (parse_loop-some fuel)
            (omega (arith, h, length-skip_spaces s)) (round-RoundTook l t i))
    ]

start-IsLoop : IsLoop start
start-IsLoop = record {
  well_formed = record { joined = refl; all_predicates = tt; bounded = omega arith };
  counted = refl;
}

-- `parse_filter` returns for every text: the fuel is enough. It returns a filter with one conjunction
-- less than predicates, at most 256 of them, each with a field name of field characters, and a name
-- and a value of at most 4096 bytes; or a failure with the code malformed, invalid-field or
-- limit-exceeded.
pub parse_filter_lem :
    (expr : Bytes) → (r : Result Filter) × (parse_filter expr ≡ some r) × IsOutcome r
unfolding parse_filter
parse_filter_lem expr =
    let t = skip_spaces expr in
    elim (Bool-cases (null t)) [
      | inl y ↦ (success empty_filter, rw y refl, start-IsLoop.well_formed)
      | inr n ↦ rw n (parse_loop-some (suc (length t)) start t start-IsLoop (omega arith))
    ]
