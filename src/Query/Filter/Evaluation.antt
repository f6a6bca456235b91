-- ===== src/Query/Filter/Evaluation.antt =====
-- How predicates and filters evaluate.
use chrono_sift.Common.{
  ℕ, ◌-◌, ◌≡◌, Bool, true, false, not, ◌&&◌, List, [], ◌∷◌, ◌++◌, arith, if◌then◌else◌, Bytes,
  length, null, refl,
}
use chrono_sift.Event.Record.{LogEvent}
use chrono_sift.Query.Filter.{
  Op, Conj, Predicate, Filter, add, predicate_matches, filter_matches, matches_from, combine,
  Resolved, resolve, apply_op, ordered, Cmp,
}

matches_from-append :
    (format_g : ℕ → Bytes) (e : LogEvent) (acc : Bool) (ps : List Predicate) (cs : List Conj)
    (p : Predicate) (c : Conj)
    → length cs ≡ length ps
    → matches_from format_g e acc (ps ++ p ∷ []) (cs ++ c ∷ [])
      ≡ combine c (matches_from format_g e acc ps cs) (predicate_matches format_g p e)
unfolding matches_from
matches_from-append format_g e acc [] [] p c h = refl
matches_from-append format_g e acc [] (d ∷ cs) p c h = absurd (omega arith)
matches_from-append format_g e acc (q ∷ ps) [] p c h = absurd (omega arith)
matches_from-append format_g e acc (q ∷ ps) (d ∷ cs) p c h =
    matches_from-append format_g e (combine d acc (predicate_matches format_g q e)) ps cs p c
      (omega arith)

matches-add :
    (format_g : ℕ → Bytes) (ps : List Predicate) (cs : List Conj) (p : Predicate) (c : Conj)
    (e : LogEvent)
    → length cs ≡ length ps - 1
    → filter_matches format_g (add (record { predicates = ps; conjunctions = cs }) p c) e ≡ (
        if null ps
        then predicate_matches format_g p e
        else combine c
            (filter_matches format_g (record { predicates = ps; conjunctions = cs }) e)
            (predicate_matches format_g p e))
unfolding filter_matches add matches_from
matches-add format_g [] cs p c e h = refl
matches-add format_g (q ∷ ps) cs p c e h =
    matches_from-append format_g e (predicate_matches format_g q e) ps cs p c (omega arith)

-- Filters are evaluated from left to right, without precedence: with one conjunction less than
-- predicates, a filter to which a predicate was added matches as the filter before and the predicate
-- do, joined by the conjunction it was added with; the first predicate alone decides.
pub filter_matches-add :
    (format_g : ℕ → Bytes) (f : Filter) (p : Predicate) (c : Conj) (e : LogEvent)
    → length f.conjunctions ≡ length f.predicates - 1
    → filter_matches format_g (add f p c) e ≡ (
        if null f.predicates
        then predicate_matches format_g p e
        else combine c (filter_matches format_g f e) (predicate_matches format_g p e))
filter_matches-add format_g f p c e h = matches-add format_g f.predicates f.conjunctions p c e h

abbrev pub complement : Op → Op
complement Op.eq = Op.ne
complement Op.ne = Op.eq
complement Op.has = Op.has_not
complement Op.has_not = Op.has
complement Op.lt = Op.ge
complement Op.ge = Op.lt
complement Op.le = Op.gt
complement Op.gt = Op.le

abbrev pub is_ordering : Op → Bool
is_ordering Op.lt = true
is_ordering Op.ge = true
is_ordering Op.le = true
is_ordering Op.gt = true
is_ordering _ = false

not-not : (b : Bool) → b ≡ not (not b)
not-not true = refl
not-not false = refl

ordered-complement :
    (op : Op) (present : Bool) (cmp : Cmp)
    → is_ordering op ≡ true
    → (if not present then false else ordered (complement op) cmp) ≡ (
        if is_ordering op && not present
        then false
        else not (if not present then false else ordered op cmp))
unfolding ordered
ordered-complement op present cmp h = ground arith

apply_op-complement :
    (op : Op) (lname : Bytes) (r : Resolved) (e : LogEvent) (value : Bytes)
    → apply_op (complement op) lname r e value
      ≡ (if is_ordering op && not r.present then false else not (apply_op op lname r e value))
unfolding apply_op
apply_op-complement Op.eq lname r e value = refl
apply_op-complement Op.ne lname r e value = not-not _
apply_op-complement Op.has lname r e value = refl
apply_op-complement Op.has_not lname r e value = not-not _
apply_op-complement Op.lt lname r e value = ordered-complement Op.lt r.present _ refl
apply_op-complement Op.le lname r e value = ordered-complement Op.le r.present _ refl
apply_op-complement Op.gt lname r e value = ordered-complement Op.gt r.present _ refl
apply_op-complement Op.ge lname r e value = ordered-complement Op.ge r.present _ refl

-- The operators come in complementary pairs, `=` and `!=`, `~` and `!~`, `<` and `>=`, `<=` and `>`:
-- for every event one of the two matches and the other does not, but for an ordering operator on a
-- field that the event does not have, where neither matches.
pub predicate_matches-complement :
    (format_g : ℕ → Bytes) (p : Predicate) (e : LogEvent)
    → predicate_matches format_g (record p { op = complement p.op }) e ≡ (
        if is_ordering p.op && not (resolve format_g p.field e).present
        then false
        else not (predicate_matches format_g p e))
unfolding predicate_matches
predicate_matches-complement format_g p e =
    apply_op-complement p.op _ (resolve format_g p.field e) e p.value
