-- ===== src/Query/Parser.antt =====
-- The parser of filter expressions (src/query/filter.cpp). A position in the text is the list of
-- the bytes from it on.
pub mod Reads
pub mod Total
pub mod Written
pub mod RoundTrip
mod Examples
use chrono_sift.Common.{
  Read, read, ℕ, zero, suc, Bool, true, false, not, ◌&&◌, ◌||◌, List, [], ◌∷◌, ◌++◌, Option, none,
  some, ltb, leb, ◌==◌, if◌then◌else◌, Bytes, codes, length, get_or, take, drop, null,
}
use chrono_sift.Core.Chars.{ascii_to_lower, is_alnum, is_space}
use chrono_sift.Core.Text.{space_run, word_run}
use chrono_sift.Core.Number.{to_string}
use chrono_sift.Core.Status.{StatusCode, Status, status, Result, success, failure}
use chrono_sift.Query.Filter.{Op, Conj, Predicate, Filter, empty_filter, add}

-- `kMaxPredicates` and `kMaxTokenLen`
abbrev pub max_predicates : ℕ
max_predicates = 256

abbrev pub max_token_len : ℕ
max_token_len = 4096

unfoldable pub is_field_char : ℕ → Bool
unfolding is_alnum
is_field_char c = is_alnum c || c == b'_' || c == b'.' || c == b'[' || c == b']'

-- The token against the keyword up to the keyword's NUL.
unfoldable pub token_iequals : Bytes → Bytes → Bool
token_iequals [] kw = null kw
token_iequals (c ∷ t) [] = false
token_iequals (c ∷ t) (k ∷ kw) =
    let rest = token_iequals t kw in
    if not (ascii_to_lower c == ascii_to_lower k) then false else rest

unfoldable pub skip_spaces : Bytes → Bytes
skip_spaces s = drop (space_run s) s

-- `parse_op`; `none` where it returns false. The second byte is NUL at the end of the text.
unfoldable pub parse_op : Bytes → Option (Read Op)
parse_op [] = none
parse_op (c0 ∷ s) =
    let c1 = get_or s 0 0 in
    if c0 == b'!' && c1 == b'='
    then some (read Op.ne (drop 1 s))
    else if c0 == b'!' && c1 == b'~'
    then some (read Op.has_not (drop 1 s))
    else if c0 == b'<' && c1 == b'='
    then some (read Op.le (drop 1 s))
    else if c0 == b'>' && c1 == b'='
    then some (read Op.ge (drop 1 s))
    else if c0 == b'='
    then some (read Op.eq s)
    else if c0 == b'~'
    then some (read Op.has s)
    else if c0 == b'<'
    then some (read Op.lt s)
    else if c0 == b'>'
    then some (read Op.gt s)
    else none

-- The loop over a field name or a bare value: the bytes that pass `test`, after `out`; `none` once
-- they are too many.
unfoldable pub run_from : (ℕ → Bool) → Bytes → Bytes → Option (Read Bytes)
run_from test out [] = some (read out [])
run_from test out (c ∷ s) =
    let more = run_from test (out ++ c ∷ []) s in
    if test c
    then (if ltb max_token_len (length (out ++ c ∷ [])) then none else more)
    else some (read out (c ∷ s))

abbrev quoted_too_long : Result (Read Bytes)
quoted_too_long = failure (status StatusCode.limit_exceeded (codes "quoted value too long"))

abbrev unterminated : Result (Read Bytes)
unterminated = failure (status StatusCode.malformed (codes "unterminated quoted value"))

-- `if (out.size() > kMaxTokenLen)` in front of the next round.
abbrev check_size : Bytes → Result (Read Bytes) → Result (Read Bytes)
check_size out next = if ltb max_token_len (length out) then quoted_too_long else next

-- The loop over a quoted value, after the opening quote. The flag: the last byte is a backslash
-- whose byte is still to come.
unfoldable pub quoted_from : Bool → Bytes → Bytes → Result (Read Bytes)
quoted_from true out [] = check_size (out ++ b'\\' ∷ []) unterminated
quoted_from false out [] = unterminated
quoted_from true out (c ∷ s) =
    let out1 = out ++ c ∷ [] in let next = quoted_from false out1 s in check_size out1 next
quoted_from false out (c ∷ s) =
    let escape = quoted_from true out s in
    let out1 = out ++ c ∷ [] in
    let next = quoted_from false out1 s in
    if c == b'\\' then escape else if c == b'"' then success (read out s) else check_size out1 next

abbrev not_space : ℕ → Bool
not_space c = not (is_space c)

abbrev pub bare_value : Option (Read Bytes) → Result (Read Bytes)
bare_value none = failure (status StatusCode.limit_exceeded (codes "value token too long"))
bare_value (some r) =
    if null r.got then failure (status StatusCode.malformed (codes "empty value")) else success r

unfoldable pub read_value : Bytes → Result (Read Bytes)
read_value [] = failure (status StatusCode.malformed (codes "missing value after operator"))
read_value (c ∷ s) =
    if c == b'"' then quoted_from false [] s else bare_value (run_from not_space [] (c ∷ s))

abbrev quote_field : Bytes → Bytes
quote_field field = b'\'' ∷ (field ++ b'\'' ∷ [])

-- From the value on.
abbrev with_value : Bytes → Op → Result (Read Bytes) → Result (Read Predicate)
with_value field op (failure st) = failure st
with_value field op (success r) =
    success (read (record { field = field; op = op; value = r.got }) r.rest)

abbrev with_op : Bytes → Option (Read Op) → Result (Read Predicate)
with_op field none =
    failure
      (status StatusCode.malformed (codes "expected an operator after field " ++ quote_field field))
with_op field (some r) = with_value field r.got (read_value (skip_spaces r.rest))

abbrev with_field : Option (Read Bytes) → Result (Read Predicate)
with_field none = failure (status StatusCode.limit_exceeded (codes "field name too long"))
with_field (some r) =
    let t = skip_spaces r.rest in
    if null r.got
    then failure (status StatusCode.invalid_field (codes "expected a field name"))
    else if null t
    then failure
        (status StatusCode.malformed (codes "missing operator after field " ++ quote_field r.got))
    else with_op r.got (parse_op t)

unfoldable pub parse_predicate : Bytes → Result (Read Predicate)
parse_predicate text = with_field (run_from is_field_char [] (skip_spaces text))

-- The variables of the loop of `parse_filter`.
pub record Loop : Type 0 where
  pub filter : Filter
  pub expecting_predicate : Bool
  pub pending_conj : Conj
  pub have_predicate : Bool
  pub count : ℕ

abbrev pub start : Loop
start = record {
  filter = empty_filter;
  expecting_predicate = true;
  pending_conj = Conj.and;
  have_predicate = false;
  count = 0;
}

abbrev took_predicate : Loop → Result (Read Predicate) → Result (Read Loop)
took_predicate l (failure st) = failure st
took_predicate l (success r) = success (
    read
      (record l {
        filter = add l.filter r.got (if l.have_predicate then l.pending_conj else Conj.and);
        have_predicate = true;
        count = suc l.count;
        expecting_predicate = false;
      })
      r.rest)

abbrev took_keyword : Loop → Bytes → Bytes → Result (Read Loop)
took_keyword l word rest =
    if token_iequals word (codes "AND")
    then success (read (record l { pending_conj = Conj.and; expecting_predicate = true }) rest)
    else if token_iequals word (codes "OR")
    then success (read (record l { pending_conj = Conj.or; expecting_predicate = true }) rest)
    else failure (
        status StatusCode.malformed (codes "expected AND or OR but found '" ++ (word ++ codes "'")))

-- A round of the loop, at a byte that is no space.
unfoldable pub round : Loop → Bytes → Result (Read Loop)
round l s =
    if l.expecting_predicate
    then (if leb max_predicates l.count
        then failure (
            status StatusCode.limit_exceeded (
              codes "filter has too many predicates (max "
              ++ (to_string max_predicates ++ codes ")")))
        else took_predicate l (parse_predicate s))
    else took_keyword l (take (word_run s) s) (drop (word_run s) s)

-- After the loop.
abbrev pub finish : Loop → Result Filter
finish l =
    if l.expecting_predicate && l.have_predicate
    then failure (status StatusCode.malformed (codes "expression ends with a dangling AND/OR"))
    else success l.filter

-- The loop, on fuel; `none` where it runs out.
unfoldable pub parse_loop : ℕ → Loop → Bytes → Option (Result Filter)
parse_loop zero l s = none
parse_loop (suc fuel) l s =
    let t = skip_spaces s in
    if null t then some (finish l) else elim (round l t) [
      | failure st ↦ some (failure st)
      | success r ↦ parse_loop fuel r.got r.rest
    ]

unfoldable pub parse_filter : Bytes → Option (Result Filter)
parse_filter expr =
    let t = skip_spaces expr in
    if null t then some (success empty_filter) else parse_loop (suc (length t)) start t
