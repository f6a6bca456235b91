-- ===== src/Json/Parser.antt =====
-- `JsonParser` (src/jsonlog/json_parser.cpp). `total_values_` is passed along; after a failure the
-- next `parse` resets it.
pub mod Gives
pub mod Arrays
pub mod Objects
pub mod Total
mod Examples
use chrono_sift.Common.{
  read, ℕ, zero, suc, Bool, true, false, not, ◌||◌, [], ◌∷◌, Option, none, some, ltb, leb, ◌==◌,
  if◌then◌else◌, Bytes, codes, length, drop, null as is_empty, Read,
}
use chrono_sift.Core.Chars.{is_digit}
use chrono_sift.Core.Text.{starts_with}
use chrono_sift.Core.Status.{StatusCode, status, Result, success, failure}
use chrono_sift.Json.Value.{
  JsonValue, Items, no_items, Members, no_members, push_item, set_in, Floats,
}
use chrono_sift.Json.Scan.{
  JsonLimits, malformed, truncated, over_limit, skip_ws, parse_string, parse_number,
}

-- `none` where a loop or the recursion runs out of fuel.
abbrev pub Outcome {ℓ} : Type ℓ → Type ℓ
Outcome A = Option (Result A)

module _ {ℓ κ} {A : Type ℓ} {B : Type κ} where
  infixl 1 ◌>>=◌
  abbrev pub ◌>>=◌ : Outcome A → (A → Outcome B) → Outcome B
  none >>= f = none
  some (failure st) >>= f = some (failure st)
  some (success x) >>= f = f x

-- A value read, the values counted so far, and the bytes after it.
pub record Parsed : Type 0 where
  pub value : JsonValue
  pub total : ℕ
  pub rest : Bytes

abbrev pub parsed : JsonValue → ℕ → Bytes → Parsed
parsed v total s = record { value = v; total = total; rest = s }

-- A call of `parse_value` at the depth of the children.
abbrev pub Child : Type 0
Child = ℕ → Bytes → Outcome Parsed

-- What stands behind an element or a member: another one, or the end. `trailing` is the message
-- for a comma in front of the end.
pub data Next : Type 0 where
  more : Bytes → Next
  closed : Bytes → Next

unfoldable pub after_child : ℕ → Bytes → Bytes → Bytes → Bytes → Result Next
after_child close unterminated trailing expected s = elim (skip_ws s) [
  | [] ↦ truncated unterminated
  | c ∷ t ↦
      if c == b','
      then elim (skip_ws t) [
        | [] ↦ success (more [])
        | d ∷ u ↦ if d == close then malformed trailing else success (more (d ∷ u))
      ]
      else if c == close
      then success (closed t)
      else malformed expected
]

-- Behind an element of an array, and behind a member of an object.
unfoldable pub after_element : Bytes → Result Next
unfolding after_child
after_element =
    after_child b']' (codes "unterminated array") (codes "trailing comma in array")
      (codes "expected ',' or ']' in array")

unfoldable pub after_member : Bytes → Result Next
unfolding after_child
after_member =
    after_child b'}' (codes "unterminated object") (codes "trailing comma in object")
      (codes "expected ',' or '}' in object")

module _ (limits : JsonLimits) (child : Child) where
  -- The loop of `parse_array`, on fuel.
  unfoldable pub array_from : ℕ → ℕ → Items → ℕ → Bytes → Outcome Parsed
  array_from zero count xs total s = none
  array_from (suc fuel) count xs total s = elim (leb limits.max_array_items count) [
    | true ↦ some (over_limit (codes "array exceeds item limit"))
    | false ↦ do
      r ← child total s
      n ← some (after_element r.rest)
      elim n [
        | closed t ↦ some (success (parsed (JsonValue.array (push_item xs r.value)) r.total t))
        | more t ↦ array_from fuel (suc count) (push_item xs r.value) r.total t
      ]
  ]

  -- `parse_array`, after the bracket.
  unfoldable pub parse_array : ℕ → Bytes → Outcome Parsed
  parse_array total s = elim (skip_ws s) [
    | [] ↦ array_from 1 0 no_items total []
    | c ∷ t ↦
        if c == b']'
        then some (success (parsed (JsonValue.array no_items) total t))
        else array_from (suc (length (c ∷ t))) 0 no_items total (c ∷ t)
  ]

  -- The colon behind a key, and the bytes after it.
  unfoldable pub after_key : Read Bytes → Result (Read Bytes)
  after_key k = elim (skip_ws k.rest) [
    | [] ↦ malformed (codes "expected ':' after object key")
    | d ∷ u ↦
        if not (d == b':')
        then malformed (codes "expected ':' after object key")
        else success (read k.got u)
  ]

  unfoldable pub parse_key : Bytes → Outcome (Read Bytes)
  parse_key s = elim (skip_ws s) [
    | [] ↦ some (malformed (codes "expected string key in object"))
    | c ∷ t ↦
        if not (c == b'"')
        then some (malformed (codes "expected string key in object"))
        else (do k ← parse_string limits t; some (after_key k))
  ]

  -- The loop of `parse_object`, on fuel.
  unfoldable pub object_from : ℕ → ℕ → Members → ℕ → Bytes → Outcome Parsed
  object_from zero count ms total s = none
  object_from (suc fuel) count ms total s = elim (leb limits.max_object_members count) [
    | true ↦ some (over_limit (codes "object exceeds member limit"))
    | false ↦ do
      k ← parse_key s
      r ← child total k.rest
      n ← some (after_member r.rest)
      elim n [
        | closed t ↦ some (success (parsed (JsonValue.object (set_in ms k.got r.value)) r.total t))
        | more t ↦ object_from fuel (suc count) (set_in ms k.got r.value) r.total t
      ]
  ]

  -- `parse_object`, after the brace.
  unfoldable pub parse_object : ℕ → Bytes → Outcome Parsed
  parse_object total s = elim (skip_ws s) [
    | [] ↦ object_from 1 0 no_members total []
    | c ∷ t ↦
        if c == b'}'
        then some (success (parsed (JsonValue.object no_members) total t))
        else object_from (suc (length (c ∷ t))) 0 no_members total (c ∷ t)
  ]

-- `true`, `false` and `null`.
unfoldable pub literal : Bytes → JsonValue → ℕ → Bytes → Result Parsed
literal word v total s =
    if starts_with s word
    then success (parsed v total (drop (length word) s))
    else malformed (codes "invalid literal")

abbrev string_value : ℕ → Outcome (Read Bytes) → Outcome Parsed
string_value total o = do r ← o; some (success (parsed (JsonValue.string r.got) total r.rest))

abbrev number_parsed : ℕ → Result (Read JsonValue) → Result Parsed
number_parsed total (failure st) = failure st
number_parsed total (success r) = success (parsed r.got total r.rest)

-- The switch of `parse_value`, at the byte `c` with `s` behind it.
unfoldable pub value_at : JsonLimits → Floats → Child → ℕ → ℕ → Bytes → Outcome Parsed
value_at limits fl child total c s =
    if c == b'{'
    then parse_object limits child total s
    else if c == b'['
    then parse_array limits child total s
    else if c == b'"'
    then string_value total (parse_string limits s)
    else if c == b't'
    then some (literal (codes "true") (JsonValue.bool true) total (c ∷ s))
    else if c == b'f'
    then some (literal (codes "false") (JsonValue.bool false) total (c ∷ s))
    else if c == b'n'
    then some (literal (codes "null") JsonValue.null total (c ∷ s))
    else if c == b'-' || is_digit c
    then some (number_parsed total (parse_number fl (c ∷ s)))
    else some (malformed (codes "unexpected character"))

-- `parse_value`, on fuel: each level of nesting takes one.
unfoldable pub parse_value : JsonLimits → Floats → ℕ → ℕ → Child
parse_value limits fl zero depth total s = none
parse_value limits fl (suc fuel) depth total s = elim (ltb limits.max_depth depth) [
  | true ↦ some (over_limit (codes "maximum nesting depth exceeded"))
  | false ↦ elim (ltb limits.max_total_values (suc total)) [
    | true ↦ some (over_limit (codes "maximum total values exceeded"))
    | false ↦ elim (skip_ws s) [
      | [] ↦ some (truncated (codes "expected a value, found end"))
      | c ∷ t ↦ value_at limits fl (parse_value limits fl fuel (suc depth)) (suc total) c t
    ]
  ]
]

-- After the value.
unfoldable pub finish : Parsed → Result JsonValue
finish r =
    if is_empty (skip_ws r.rest)
    then success r.value
    else malformed (codes "trailing data after JSON value")

-- `JsonParser::parse`. The fuel is one more than the number of depths that pass the limit.
unfoldable pub parse : JsonLimits → Floats → Bytes → Outcome JsonValue
parse limits fl text =
    if is_empty (skip_ws text)
    then some (failure (status StatusCode.empty (codes "no JSON value present")))
    else (do
      r ← parse_value limits fl (suc (suc limits.max_depth)) 0 0 (skip_ws text)
      some (finish r))
