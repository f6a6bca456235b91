-- ===== src/Query/Parser/Written.antt =====
-- Filters written out, with every value quoted, and how a single predicate is read back.
use chrono_sift.Common.{
  read, le→not_ltb, ℕ, ◌+◌, ◌≤◌, ◌≡◌, Bool, true, false, ◌||◌, List, [], ◌∷◌, ◌++◌, some, arith,
  ltb, ◌==◌, if◌then◌else◌, Bytes, codes, length, null, All, Bool-cases, inl, inr, refl,
  append_assoc, length-append, append-nil, ◌∙◌, ap,
}
use chrono_sift.Core.Chars.{is_space, is_alpha, is_digit}
use chrono_sift.Core.Status.{success}
use chrono_sift.Core.Text.{space_run}
use chrono_sift.Query.Filter.{Op, Conj, Predicate, Filter}
use chrono_sift.Query.Parser.{
  max_token_len, is_field_char, parse_op, run_from, quoted_from, read_value, parse_predicate,
  skip_spaces, with_field, with_op, with_value,
}
use chrono_sift.Query.Parser.Reads.{IsPredicate}

abbrev pub op_symbol : Op → Bytes
op_symbol Op.eq = codes "="
op_symbol Op.ne = codes "!="
op_symbol Op.has = codes "~"
op_symbol Op.has_not = codes "!~"
op_symbol Op.lt = codes "<"
op_symbol Op.le = codes "<="
op_symbol Op.gt = codes ">"
op_symbol Op.ge = codes ">="

-- The rest of a quoted value, its closing quote, and the text after it.
abbrev pub quoted_onto : Bytes → Bytes → Bytes
quoted_onto [] tail = b'"' ∷ tail
quoted_onto (c ∷ value) tail =
    let more = quoted_onto value tail in
    if c == b'\\' || c == b'"' then b'\\' ∷ c ∷ more else c ∷ more

abbrev pub predicate_onto : Predicate → Bytes → Bytes
predicate_onto p tail = p.field ++ (op_symbol p.op ++ b'"' ∷ quoted_onto p.value tail)

abbrev pub conj_word : Conj → Bytes
conj_word Conj.and = codes " AND"
conj_word Conj.or = codes " OR"

abbrev pub later_text : List Predicate → List Conj → Bytes
later_text (p ∷ ps) (c ∷ cs) = conj_word c ++ (b' ' ∷ predicate_onto p (later_text ps cs))
later_text _ _ = []

abbrev pub filter_text : Filter → Bytes
filter_text f = elim f.predicates [
  | [] ↦ []
  | p ∷ ps ↦ predicate_onto p (later_text ps f.conjunctions)
]

-- The text after a run: nothing, or a byte that does not belong to it.
abbrev Stops : (ℕ → Bool) → Bytes → Type 0
Stops test [] = Unit
Stops test (c ∷ s) = test c ≡ false

run_from-stop :
    (test : ℕ → Bool) (out s : Bytes) → Stops test s → run_from test out s ≡ some (read out s)
unfolding run_from
run_from-stop test out [] h = refl
run_from-stop test out (c ∷ s) h = rw h refl

run_from-step :
    (test : ℕ → Bool) (out : Bytes) (c : ℕ) (s : Bytes)
    → test c ≡ true
    → length (out ++ c ∷ []) ≤ max_token_len
    → run_from test out (c ∷ s) ≡ run_from test (out ++ c ∷ []) s
unfolding run_from
run_from-step test out c s h k = rw (h, le→not_ltb _ _ k) refl

run_from-append :
    (test : ℕ → Bool) (out run s : Bytes)
    → All (λ c. test c ≡ true) run
    → length out + length run ≤ max_token_len
    → Stops test s
    → run_from test out (run ++ s) ≡ some (read (out ++ run) s)
run_from-append test out [] s h k stop = rw (append-nil out) (run_from-stop test out s stop)
run_from-append test out (c ∷ run) s h k stop =
    run_from-step test out c (run ++ s) h.0 (omega (arith, length-append {0} out (c ∷ [])))
    ∙ run_from-append test (out ++ c ∷ []) run s h.1 (omega (arith, length-append {0} out (c ∷ [])))
        stop
    ∙ rw (append_assoc out (c ∷ []) run) refl

quoted_from-quoted_onto :
    (out value tail : Bytes)
    → length out + length value ≤ max_token_len
    → quoted_from false out (quoted_onto value tail) ≡ success (read (out ++ value) tail)
unfolding quoted_from
quoted_from-quoted_onto out [] tail h = rw (append-nil out) refl
quoted_from-quoted_onto out (c ∷ value) tail h =
    let short : ltb max_token_len (length (out ++ c ∷ [])) ≡ false =
      le→not_ltb _ _ (omega (arith, length-append {0} out (c ∷ []))) in
    let later =
      quoted_from-quoted_onto (out ++ c ∷ []) value tail
        (omega (arith, length-append {0} out (c ∷ [])))
      ∙ ap (λ v. success (read v tail)) (append_assoc out (c ∷ []) value) in
    elim (Bool-cases (c == b'\\')) [
      | inl y ↦ rw y (rw short later)
      | inr n ↦ elim (Bool-cases (c == b'"')) [
        | inl y ↦ rw (n, y) (rw short later)
        | inr m ↦ rw (n, m) (rw (n, m) (rw short later))
      ]
    ]

pub skip_spaces-stop : (c : ℕ) (s : Bytes) → is_space c ≡ false → skip_spaces (c ∷ s) ≡ c ∷ s
unfolding skip_spaces space_run
skip_spaces-stop c s h = rw h refl

pub field_char-not_space : (c : ℕ) → is_field_char c ≡ true → is_space c ≡ false
unfolding is_field_char is_space is_alpha is_digit
field_char-not_space c h = ground arith

parse_op-op_symbol :
    (op : Op) (s : Bytes) → parse_op (op_symbol op ++ b'"' ∷ s) ≡ some (read op (b'"' ∷ s))
unfolding parse_op
parse_op-op_symbol Op.eq s = refl
parse_op-op_symbol Op.ne s = refl
parse_op-op_symbol Op.has s = refl
parse_op-op_symbol Op.has_not s = refl
parse_op-op_symbol Op.lt s = refl
parse_op-op_symbol Op.le s = refl
parse_op-op_symbol Op.gt s = refl
parse_op-op_symbol Op.ge s = refl

op_symbol-Stops : (op : Op) (s : Bytes) → Stops is_field_char (op_symbol op ++ s)
unfolding is_field_char is_alpha is_digit
op_symbol-Stops Op.eq s = refl
op_symbol-Stops Op.ne s = refl
op_symbol-Stops Op.has s = refl
op_symbol-Stops Op.has_not s = refl
op_symbol-Stops Op.lt s = refl
op_symbol-Stops Op.le s = refl
op_symbol-Stops Op.gt s = refl
op_symbol-Stops Op.ge s = refl

skip_spaces-op_symbol : (op : Op) (s : Bytes) → skip_spaces (op_symbol op ++ s) ≡ op_symbol op ++ s
unfolding skip_spaces space_run is_space
skip_spaces-op_symbol Op.eq s = refl
skip_spaces-op_symbol Op.ne s = refl
skip_spaces-op_symbol Op.has s = refl
skip_spaces-op_symbol Op.has_not s = refl
skip_spaces-op_symbol Op.lt s = refl
skip_spaces-op_symbol Op.le s = refl
skip_spaces-op_symbol Op.gt s = refl
skip_spaces-op_symbol Op.ge s = refl

op_symbol-null : (op : Op) (s : Bytes) → null (op_symbol op ++ s) ≡ false
op_symbol-null Op.eq s = refl
op_symbol-null Op.ne s = refl
op_symbol-null Op.has s = refl
op_symbol-null Op.has_not s = refl
op_symbol-null Op.lt s = refl
op_symbol-null Op.le s = refl
op_symbol-null Op.gt s = refl
op_symbol-null Op.ge s = refl

with_op-quote :
    (field : Bytes) (op : Op) (s : Bytes)
    → with_op field (some (read op (b'"' ∷ s))) ≡ with_value field op (quoted_from false [] s)
unfolding skip_spaces space_run is_space read_value
with_op-quote field op s = refl

with_field-op :
    (c : ℕ) (field : Bytes) (op : Op) (s : Bytes)
    → with_field (some (read (c ∷ field) (op_symbol op ++ b'"' ∷ s)))
      ≡ with_value (c ∷ field) op (quoted_from false [] s)
with_field-op c field op s =
    rw (skip_spaces-op_symbol op (b'"' ∷ s), op_symbol-null op (b'"' ∷ s), parse_op-op_symbol op s)
      (with_op-quote (c ∷ field) op s)

parse_predicate-parts :
    (c : ℕ) (field : Bytes) (op : Op) (value tail : Bytes)
    → All (λ d. is_field_char d ≡ true) (c ∷ field)
    → length (c ∷ field) ≤ max_token_len
    → length value ≤ max_token_len
    → parse_predicate (predicate_onto (record { field = c ∷ field; op = op; value = value }) tail)
      ≡ success (read (record { field = c ∷ field; op = op; value = value }) tail)
unfolding parse_predicate
parse_predicate-parts c field op value tail h k m =
    let s = quoted_onto value tail in
    let rest = op_symbol op ++ b'"' ∷ s in
    ap (λ t. with_field (run_from is_field_char [] t))
      (skip_spaces-stop c (field ++ rest) (field_char-not_space c h.0))
    ∙ ap with_field (
        run_from-append is_field_char [] (c ∷ field) rest h (omega arith)
          (op_symbol-Stops op (b'"' ∷ s)))
    ∙ with_field-op c field op s
    ∙ ap (with_value (c ∷ field) op) (quoted_from-quoted_onto [] value tail (omega arith))

of_fields :
    (field : Bytes) (op : Op) (value tail : Bytes)
    → IsPredicate (record { field = field; op = op; value = value })
    → parse_predicate (predicate_onto (record { field = field; op = op; value = value }) tail)
      ≡ success (read (record { field = field; op = op; value = value }) tail)
of_fields [] op value tail h = absurd (h.named refl)
of_fields (c ∷ field) op value tail h =
    parse_predicate-parts c field op value tail h.field_chars h.short_field h.short_value

pub parse_predicate-predicate_onto :
    (p : Predicate) (tail : Bytes)
    → IsPredicate p
    → parse_predicate (predicate_onto p tail) ≡ success (read p tail)
parse_predicate-predicate_onto p tail h = of_fields p.field p.op p.value tail h
