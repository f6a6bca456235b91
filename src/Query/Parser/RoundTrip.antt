-- ===== src/Query/Parser/RoundTrip.antt =====
-- A filter that is written out is read back as it was.
use chrono_sift.Common.{
  read, ℕ, zero, suc, ◌+◌, ◌-◌, ◌*◌, ◌≤◌, ◌<◌, ◌≡◌, ◌≢◌, true, false, List, [], ◌∷◌, ◌++◌, some,
  arith, leb, Bytes, length, null, All, refl, append_assoc, length-append, append-nil, ◌∙◌,
}
use chrono_sift.Core.Chars.{is_space, ascii_to_lower}
use chrono_sift.Core.Status.{success}
use chrono_sift.Core.Text.{space_run, word_run}
use chrono_sift.Query.Filter.{Conj, Predicate, Filter, add}
use chrono_sift.Query.Parser.{
  max_predicates, is_field_char, Loop, start, round, parse_loop, parse_filter, skip_spaces,
  token_iequals,
}
use chrono_sift.Query.Parser.Reads.{IsPredicate}
use chrono_sift.Query.Parser.Total.{IsWellFormed}
use chrono_sift.Query.Parser.Written.{
  predicate_onto, quoted_onto, op_symbol, conj_word, later_text, filter_text,
  parse_predicate-predicate_onto, skip_spaces-stop, field_char-not_space,
}

-- The loop between two predicates, and after a conjunction.
abbrev between : List Predicate → List Conj → Conj → ℕ → Loop
between ps cs c n = record {
  filter = record { predicates = ps; conjunctions = cs };
  expecting_predicate = false;
  pending_conj = c;
  have_predicate = true;
  count = n;
}

abbrev after_word : List Predicate → List Conj → Conj → ℕ → Loop
after_word ps cs c n = record {
  filter = record { predicates = ps; conjunctions = cs };
  expecting_predicate = true;
  pending_conj = c;
  have_predicate = true;
  count = n;
}

parse_loop-word :
    (fuel : ℕ) (ps : List Predicate) (cs : List Conj) (d c : Conj) (n : ℕ) (s : Bytes)
    → parse_loop (suc fuel) (between ps cs d n) (conj_word c ++ b' ' ∷ s)
      ≡ parse_loop fuel (after_word ps cs c n) (b' ' ∷ s)
unfolding parse_loop skip_spaces space_run word_run is_space round token_iequals ascii_to_lower
parse_loop-word fuel ps cs d Conj.and n s = refl
parse_loop-word fuel ps cs d Conj.or n s = refl

-- A round of the loop whose text, spaces skipped, is `t`.
parse_loop-round :
    (fuel : ℕ) (l next : Loop) (s t rest : Bytes)
    → skip_spaces s ≡ t
    → null t ≡ false
    → round l t ≡ success (read next rest)
    → parse_loop (suc fuel) l s ≡ parse_loop fuel next rest
unfolding parse_loop
parse_loop-round fuel l next s t rest e n r = rw (e, n) (rw r refl)

skip_spaces-field :
    (field s : Bytes)
    → length field ≢ 0
    → All (λ c. is_field_char c ≡ true) field
    → (skip_spaces (field ++ s) ≡ field ++ s) × (null (field ++ s) ≡ false)
skip_spaces-field [] s h k = absurd (h refl)
skip_spaces-field (c ∷ field) s h k =
    (skip_spaces-stop c (field ++ s) (field_char-not_space c k.0), refl)

skip_spaces-predicate :
    (p : Predicate) (tail : Bytes)
    → IsPredicate p
    → (skip_spaces (predicate_onto p tail) ≡ predicate_onto p tail)
      × (null (predicate_onto p tail) ≡ false)
skip_spaces-predicate p tail h = skip_spaces-field p.field _ h.named h.field_chars

skip_spaces-blank : (s : Bytes) → skip_spaces (b' ' ∷ s) ≡ skip_spaces s
unfolding skip_spaces space_run is_space
skip_spaces-blank s = refl

not_full : (n : ℕ) → n < max_predicates → leb max_predicates n ≡ false
not_full n h = ground arith

round-later :
    (q : Predicate) (qs : List Predicate) (cs : List Conj) (c : Conj) (n : ℕ) (p : Predicate)
    (tail : Bytes)
    → n < max_predicates
    → IsPredicate p
    → round (after_word (q ∷ qs) cs c n) (predicate_onto p tail)
      ≡ success (read (between ((q ∷ qs) ++ p ∷ []) (cs ++ c ∷ []) c (suc n)) tail)
unfolding round add
round-later q qs cs c n p tail h w = rw (not_full n h, parse_predicate-predicate_onto p tail w) refl

round-first :
    (p : Predicate) (tail : Bytes)
    → IsPredicate p
    → round start (predicate_onto p tail) ≡ success (read (between (p ∷ []) [] Conj.and 1) tail)
unfolding round add
round-first p tail w = rw (parse_predicate-predicate_onto p tail w) refl

parse_loop-end :
    (fuel : ℕ) (ps : List Predicate) (cs : List Conj) (c : Conj) (n : ℕ)
    → parse_loop (suc fuel) (between ps cs c n) []
      ≡ some (success (record { predicates = ps; conjunctions = cs }))
unfolding parse_loop skip_spaces space_run
parse_loop-end fuel ps cs c n = refl

parse_loop-later_text :
    (fuel : ℕ) (q : Predicate) (qs : List Predicate) (cs : List Conj) (d : Conj) (n : ℕ)
    (ps : List Predicate) (later : List Conj)
    → All IsPredicate ps
    → length later ≡ length ps
    → n + length ps ≤ max_predicates
    → 2 * length ps < fuel
    → parse_loop fuel (between (q ∷ qs) cs d n) (later_text ps later)
      ≡ some (success (record { predicates = (q ∷ qs) ++ ps; conjunctions = cs ++ later }))
parse_loop-later_text zero q qs cs d n ps later w e m h = absurd (omega arith)
parse_loop-later_text (suc fuel) q qs cs d n [] [] w e m h =
    rw (append-nil qs, append-nil cs) (parse_loop-end fuel (q ∷ qs) cs d n)
parse_loop-later_text (suc fuel) q qs cs d n [] (c ∷ later) w e m h = absurd (omega arith)
parse_loop-later_text (suc fuel) q qs cs d n (p ∷ ps) [] w e m h = absurd (omega arith)
parse_loop-later_text (suc zero) q qs cs d n (p ∷ ps) (c ∷ later) w e m h = absurd (omega arith)
parse_loop-later_text (suc (suc fuel)) q qs cs d n (p ∷ ps) (c ∷ later) w e m h =
    let tail = later_text ps later in
    let text = predicate_onto p tail in
    let skipped = skip_spaces-predicate p tail w.0 in
    parse_loop-word (suc fuel) (q ∷ qs) cs d c n text
    ∙ parse_loop-round fuel _ _ (b' ' ∷ text) text tail (skip_spaces-blank text ∙ skipped.0)
        skipped.1 (round-later q qs cs c n p tail (omega arith) w.0)
    ∙ parse_loop-later_text fuel q (qs ++ p ∷ []) (cs ++ c ∷ []) c (suc n) ps later w.1
        (omega arith) (omega arith) (omega arith)
    ∙ rw (append_assoc qs (p ∷ []) ps, append_assoc cs (c ∷ []) later) refl

length-conj_word : (c : Conj) (s : Bytes) → 2 + length s ≤ length (conj_word c ++ s)
length-conj_word Conj.and s = omega arith
length-conj_word Conj.or s = omega arith

length-quoted_onto : (value tail : Bytes) → length tail ≤ length (quoted_onto value tail)
length-quoted_onto [] tail = omega arith
length-quoted_onto (c ∷ value) tail = ground (arith, length-quoted_onto value tail)

length-predicate_onto :
    (p : Predicate) (tail : Bytes) → length tail ≤ length (predicate_onto p tail)
length-predicate_onto p tail =
    let s = quoted_onto p.value tail in
    omega (
      arith,
      length-append {0} p.field (op_symbol p.op ++ b'"' ∷ s),
      length-append {0} (op_symbol p.op) (b'"' ∷ s),
      length-quoted_onto p.value tail,
    )

length-later_text :
    (ps : List Predicate) (later : List Conj)
    → length later ≡ length ps
    → 2 * length ps ≤ length (later_text ps later)
length-later_text [] [] h = omega arith
length-later_text [] (c ∷ later) h = absurd (omega arith)
length-later_text (p ∷ ps) [] h = absurd (omega arith)
length-later_text (p ∷ ps) (c ∷ later) h =
    let tail = later_text ps later in
    omega (
      arith,
      length-later_text ps later (omega arith),
      length-conj_word c (b' ' ∷ predicate_onto p tail),
      length-predicate_onto p tail,
    )

first_shorter :
    (p : Predicate) (ps : List Predicate) (cs : List Conj)
    → IsPredicate p
    → length cs ≡ length ps
    → 2 * length ps < length (predicate_onto p (later_text ps cs))
first_shorter p ps cs w h =
    let s = quoted_onto p.value (later_text ps cs) in
    omega (
      arith,
      length-append {0} p.field (op_symbol p.op ++ b'"' ∷ s),
      length-append {0} (op_symbol p.op) (b'"' ∷ s),
      length-quoted_onto p.value (later_text ps cs),
      length-later_text ps cs h,
    )

skip_spaces-nil : skip_spaces [] ≡ []
unfolding skip_spaces space_run
skip_spaces-nil = refl

parse_filter-text :
    (ps : List Predicate) (cs : List Conj)
    → All IsPredicate ps
    → length cs ≡ length ps - 1
    → length ps ≤ max_predicates
    → parse_filter (filter_text (record { predicates = ps; conjunctions = cs }))
      ≡ some (success (record { predicates = ps; conjunctions = cs }))
unfolding parse_filter
parse_filter-text [] [] w h k = rw skip_spaces-nil refl
parse_filter-text [] (c ∷ cs) w h k = absurd (omega arith)
parse_filter-text (p ∷ ps) cs w h k =
    let tail = later_text ps cs in
    let text = predicate_onto p tail in
    let skipped = skip_spaces-predicate p tail w.0 in
    rw (skipped.0, skipped.1)
      (parse_loop-round (length text) start _ text text tail skipped.0 skipped.1
          (round-first p tail w.0)
        ∙ parse_loop-later_text (length text) p [] [] Conj.and 1 ps cs w.1 (omega arith)
            (omega arith) (first_shorter p ps cs w.0 (omega arith)))

-- Every well-formed filter is read back from its text, in which the values are quoted: the parser
-- gives the predicates and conjunctions that were written, in order.
pub parse_filter-filter_text :
    (f : Filter) → IsWellFormed f → parse_filter (filter_text f) ≡ some (success f)
parse_filter-filter_text f w =
    parse_filter-text f.predicates f.conjunctions w.all_predicates w.joined w.bounded
