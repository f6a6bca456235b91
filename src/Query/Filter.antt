-- ===== src/Query/Filter.antt =====
-- `Predicate` and `Filter` and how they are evaluated (src/query/filter.cpp). The C library's `%g`
-- is the parameter `format_g`.
pub mod Evaluation
pub mod Ranks
mod Examples
use chrono_sift.Common.{
  ℕ, zero, suc, Bool, true, false, not, ◌&&◌, ◌||◌, List, [], ◌∷◌, ◌++◌, Option, none, some, ltb,
  leb, ◌==◌, if◌then◌else◌, Bytes, codes, length, null, eqb,
}
use chrono_sift.Common.Int.{ℤ, pos, negsuc, ltb_ℤ, ◌-ℤ◌}
use chrono_sift.Core.Text.{to_lower, ascii_iequals, contains}
use chrono_sift.Core.Number.{parse_i64, to_string}
use chrono_sift.Event.Severity.{Severity, rank, of_rank, severity_name, severity_from_word}
use chrono_sift.Event.Fields.{find, value_string}
use chrono_sift.Event.Record.{LogEvent, source_format_name}

pub data Op : Type 0 where
  eq ne has has_not lt le gt ge : Op

pub data Conj : Type 0 where
  and or : Conj

pub record Predicate : Type 0 where
  pub field : Bytes
  pub op : Op
  pub value : Bytes

pub record Filter : Type 0 where
  pub predicates : List Predicate
  pub conjunctions : List Conj

abbrev pub empty_filter : Filter
empty_filter = record { predicates = []; conjunctions = [] }

-- `Filter::add`
unfoldable pub add : Filter → Predicate → Conj → Filter
add f p conj_with_previous = record {
  predicates = f.predicates ++ p ∷ [];
  conjunctions =
      if not (null f.predicates) then f.conjunctions ++ conj_with_previous ∷ [] else f.conjunctions;
}

abbrev non_empty : Bytes → Option Bytes
non_empty s = if null s then none else some s

-- The value of a built-in field; `none` where `resolve_string` returns false.
unfoldable pub resolve_string : Bytes → LogEvent → Option Bytes
resolve_string lname e =
    if eqb lname (codes "severity")
    then some (severity_name e.severity)
    else if eqb lname (codes "source")
    then some (source_format_name e.source)
    else if eqb lname (codes "host")
    then non_empty e.host
    else if eqb lname (codes "app")
    then non_empty e.app
    else if eqb lname (codes "user")
    then non_empty e.user
    else if eqb lname (codes "src_ip")
    then non_empty e.src_ip
    else if eqb lname (codes "dst_ip")
    then non_empty e.dst_ip
    else if eqb lname (codes "src_port")
    then some (to_string e.src_port)
    else if eqb lname (codes "dst_port")
    then some (to_string e.dst_port)
    else if eqb lname (codes "status")
    then some (to_string e.http_status)
    else if eqb lname (codes "method")
    then non_empty e.http_method
    else if eqb lname (codes "path")
    then non_empty e.http_path
    else if eqb lname (codes "event_id")
    then some (to_string e.event_id)
    else if eqb lname (codes "channel")
    then non_empty e.channel
    else if eqb lname (codes "provider")
    then non_empty e.provider
    else if eqb lname (codes "message")
    then non_empty e.message
    else none

unfoldable pub is_numeric_field : Bytes → Bool
is_numeric_field lname =
    eqb lname (codes "src_port")
    || eqb lname (codes "dst_port")
    || eqb lname (codes "status")
    || eqb lname (codes "event_id")

unfoldable pub severity_rank : Severity → ℕ
severity_rank Severity.unknown = 1000
severity_rank s = rank s

unfoldable pub severity_value_rank : Bytes → ℕ
severity_value_rank value = elim (parse_i64 value) [
  | none ↦ severity_rank (severity_from_word value)
  | some (negsuc n) ↦ 0
  | some (pos num) ↦ if ltb 8 num then 1000 else severity_rank (of_rank num)
]

-- The sign of `cmp`.
pub data Cmp : Type 0 where
  less same greater : Cmp

unfoldable pub three_way : ℤ → ℤ → Cmp
three_way a b = if ltb_ℤ a b then Cmp.less else if ltb_ℤ b a then Cmp.greater else Cmp.same

-- `std::string::compare`
unfoldable pub compare_bytes : Bytes → Bytes → Cmp
compare_bytes [] [] = Cmp.same
compare_bytes [] (y ∷ b) = Cmp.less
compare_bytes (x ∷ a) [] = Cmp.greater
compare_bytes (x ∷ a) (y ∷ b) =
    let rest = compare_bytes a b in
    if ltb x y then Cmp.less else if ltb y x then Cmp.greater else rest

-- The last `switch`, on the ordering operators.
unfoldable pub ordered : Op → Cmp → Bool
ordered Op.lt Cmp.less = true
ordered Op.le Cmp.less = true
ordered Op.le Cmp.same = true
ordered Op.gt Cmp.greater = true
ordered Op.ge Cmp.greater = true
ordered Op.ge Cmp.same = true
ordered _ _ = false

-- What `matches` finds out about the left-hand side.
pub record Resolved : Type 0 where
  pub lhs : Bytes
  pub present : Bool
  pub is_dynamic : Bool

unfoldable pub resolve : (ℕ → Bytes) → Bytes → LogEvent → Resolved
resolve format_g field e = elim (resolve_string (to_lower field) e) [
  | some s ↦ record { lhs = s; present = true; is_dynamic = false }
  | none ↦ elim (find e.fields field) [
    | some v ↦ record { lhs = value_string format_g v; present = true; is_dynamic = true }
    | none ↦ record { lhs = []; present = false; is_dynamic = false }
  ]
]

-- Integers where both sides parse, else the bytes.
abbrev compare_numbers : Bytes → Bytes → Cmp
compare_numbers lhs value = elim (parse_i64 lhs) [
  | none ↦ compare_bytes lhs value
  | some a ↦ elim (parse_i64 value) [ none ↦ compare_bytes lhs value | some b ↦ three_way a b ]
]

unfoldable pub compare_values : Bytes → Resolved → LogEvent → Bytes → Cmp
compare_values lname r e value =
    if eqb lname (codes "severity")
    then three_way (pos 0 -ℤ pos (severity_rank e.severity))
        (pos 0 -ℤ pos (severity_value_rank value))
    else if not r.is_dynamic && is_numeric_field lname
    then compare_numbers r.lhs value
    else if r.is_dynamic
    then compare_numbers r.lhs value
    else compare_bytes r.lhs value

unfoldable pub apply_op : Op → Bytes → Resolved → LogEvent → Bytes → Bool
apply_op Op.eq lname r e value = ascii_iequals r.lhs value
apply_op Op.ne lname r e value = not (ascii_iequals r.lhs value)
apply_op Op.has lname r e value = contains (to_lower r.lhs) (to_lower value)
apply_op Op.has_not lname r e value = not (contains (to_lower r.lhs) (to_lower value))
apply_op op lname r e value =
    if not r.present then false else ordered op (compare_values lname r e value)

-- `Predicate::matches`
unfoldable pub predicate_matches : (ℕ → Bytes) → Predicate → LogEvent → Bool
predicate_matches format_g p e =
    apply_op p.op (to_lower p.field) (resolve format_g p.field e) e p.value

-- The result so far, joined with the next predicate's.
abbrev pub combine : Conj → Bool → Bool → Bool
combine Conj.and acc rhs = acc && rhs
combine Conj.or acc rhs = acc || rhs

-- The loop of `Filter::matches`, over the predicates from `i` on and the conjunctions from `i - 1`
-- on; one that is missing is an AND.
unfoldable pub matches_from : (ℕ → Bytes) → LogEvent → Bool → List Predicate → List Conj → Bool
matches_from format_g e acc [] cs = acc
matches_from format_g e acc (p ∷ ps) [] =
    matches_from format_g e (acc && predicate_matches format_g p e) ps []
matches_from format_g e acc (p ∷ ps) (c ∷ cs) =
    matches_from format_g e (combine c acc (predicate_matches format_g p e)) ps cs

-- `Filter::matches`
unfoldable pub filter_matches : (ℕ → Bytes) → Filter → LogEvent → Bool
filter_matches format_g f e = elim f.predicates [
  | [] ↦ true
  | p ∷ ps ↦ matches_from format_g e (predicate_matches format_g p e) ps f.conjunctions
]
