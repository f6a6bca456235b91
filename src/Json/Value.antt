-- ===== src/Json/Value.antt =====
-- `JsonValue` and its compact rendering (include/jsonlog/json_value.hpp, src/jsonlog/json_value.cpp).
-- A double is its bit pattern; what the C library and the processor do with it is a parameter.
mod Examples
use chrono_sift.Common.{
  ℕ, zero, suc, ◌+◌, ◌/◌, Bool, true, false, List, [], ◌∷◌, ◌++◌, Option, none, some, ltb, leb,
  ◌==◌, if◌then◌else◌, Bytes, codes, length, take, null as is_empty, eqb, max, bit_and,
}
use chrono_sift.Common.Int.{ℤ, pos, negsuc}
use chrono_sift.Core.Number.{to_string_ℤ, i64_max}
use chrono_sift.Core.Encoding.{hex_lower}

-- A `std::vector` of values and one of members are types of their own, since the value type holds
-- them.
mutual
  pub data JsonValue : Type 0 where
    null : JsonValue
    bool : Bool → JsonValue
    int : ℤ → JsonValue
    double : ℕ → JsonValue
    string : Bytes → JsonValue
    array : Items → JsonValue
    object : Members → JsonValue

  pub data Items : Type 0 where
    no_items : Items
    item : JsonValue → Items → Items

  pub data Members : Type 0 where
    no_members : Members
    member : Bytes → JsonValue → Members → Members

-- The floating-point operations of the C library and the processor, on bit patterns.
pub record Floats : Type 0 where
  -- `strtod` on a whole token; `none` where it converts nothing
  pub strtod : Bytes → Option ℕ
  -- the text that `%.17g` prints
  pub format_17g : ℕ → Bytes
  -- the conversion of an `i64` to a double
  pub of_i64 : ℤ → ℕ
  -- the conversion of a double that is in range to an `i64`
  pub trunc_i64 : ℕ → ℤ
  -- `*`
  pub mul : ℕ → ℕ → ℕ
  -- `<=`
  pub le : ℕ → ℕ → Bool

-- 2^63 and -2^63 as doubles (the literal 9223372036854775807.0 is 2^63).
abbrev pub two_63 : ℕ
two_63 = 0x43e0000000000000

abbrev pub minus_two_63 : ℕ
minus_two_63 = 0xc3e0000000000000

unfoldable pub as_int : Floats → JsonValue → ℤ
as_int fl (JsonValue.int i) = i
as_int fl (JsonValue.double d) =
    if fl.le two_63 d
    then pos i64_max
    else if fl.le d minus_two_63
    then negsuc i64_max
    else fl.trunc_i64 d
as_int fl (JsonValue.bool b) = if b then pos 1 else pos 0
as_int fl _ = pos 0

-- 1.0 and 0.0
unfoldable pub as_double : Floats → JsonValue → ℕ
as_double fl (JsonValue.double d) = d
as_double fl (JsonValue.int i) = fl.of_i64 i
as_double fl (JsonValue.bool b) = if b then 0x3ff0000000000000 else 0
as_double fl _ = 0

unfoldable pub push_item : Items → JsonValue → Items
push_item no_items v = item v no_items
push_item (item w xs) v = item w (push_item xs v)

unfoldable pub push_back : JsonValue → JsonValue → JsonValue
unfolding push_item
push_back (JsonValue.array xs) v = JsonValue.array (push_item xs v)
push_back _ v = JsonValue.array (item v no_items)

-- The loop of `set_member`, and what stands after it.
unfoldable pub set_in : Members → Bytes → JsonValue → Members
set_in no_members key v = member key v no_members
set_in (member k w ms) key v =
    let rest = set_in ms key v in if eqb k key then member k v ms else member k w rest

unfoldable pub set_member : JsonValue → Bytes → JsonValue → JsonValue
unfolding set_in
set_member (JsonValue.object ms) key v = JsonValue.object (set_in ms key v)
set_member _ key v = JsonValue.object (member key v no_members)

unfoldable pub find_in : Members → Bytes → Option JsonValue
find_in no_members key = none
find_in (member k w ms) key = let rest = find_in ms key in if eqb k key then some w else rest

unfoldable pub find : JsonValue → Bytes → Option JsonValue
unfolding find_in
find (JsonValue.object ms) key = find_in ms key
find _ key = none

-- What `snprintf` into a buffer of `size` bytes leaves of a text, as both number renderers take it.
unfoldable pub printed : ℕ → Bytes → Bytes
printed size text =
    if is_empty text
    then codes "0"
    else if leb (suc size) (length text)
    then take size text
    else text

unfoldable pub render_double : Floats → ℕ → Bytes
unfolding printed
render_double fl d = printed 63 (fl.format_17g d)

unfoldable pub render_int : ℤ → Bytes
unfolding printed
render_int v = printed 31 (to_string_ℤ v)

-- One character of a JSON string.
unfoldable pub quoted_char : ℕ → Bytes
unfolding hex_lower
quoted_char c =
    if c == b'"'
    then codes "\\\""
    else if c == b'\\'
    then codes "\\\\"
    else if c == 0x08
    then codes "\\b"
    else if c == 0x0c
    then codes "\\f"
    else if c == b'\n'
    then codes "\\n"
    else if c == b'\r'
    then codes "\\r"
    else if c == b'\t'
    then codes "\\t"
    else if ltb c 0x20
    then codes "\\u00" ++ hex_lower (bit_and (c / 16) 0xf) ∷ hex_lower (bit_and c 0xf) ∷ []
    else c ∷ []

-- The loop of `append_json_quoted`.
unfoldable pub quoted_body : Bytes → Bytes
unfolding quoted_char
quoted_body [] = []
quoted_body (c ∷ s) = quoted_char c ++ quoted_body s

unfoldable pub json_quoted : Bytes → Bytes
unfolding quoted_body
json_quoted s = b'"' ∷ (quoted_body s ++ b'"' ∷ [])

-- `if (i) out.push_back(',')`
abbrev pub comma_unless : Bool → Bytes
comma_unless first = if first then [] else b',' ∷ []

-- `render_compact`, and the loops of `render_array` and `render_object`.
unfoldable mutual
  unfolding json_quoted render_int render_double

  pub render : Floats → JsonValue → Bytes
  render fl JsonValue.null = codes "null"
  render fl (JsonValue.bool b) = if b then codes "true" else codes "false"
  render fl (JsonValue.int i) = render_int i
  render fl (JsonValue.double d) = render_double fl d
  render fl (JsonValue.string s) = json_quoted s
  render fl (JsonValue.array xs) = b'[' ∷ (render_items fl true xs ++ b']' ∷ [])
  render fl (JsonValue.object ms) = b'{' ∷ (render_members fl true ms ++ b'}' ∷ [])

  pub render_items : Floats → Bool → Items → Bytes
  render_items fl first no_items = []
  render_items fl first (item v xs) =
      comma_unless first ++ (render fl v ++ render_items fl false xs)

  pub render_members : Floats → Bool → Members → Bytes
  render_members fl first no_members = []
  render_members fl first (member k v ms) =
      comma_unless first ++ (json_quoted k ++ b':' ∷ (render fl v ++ render_members fl false ms))

unfoldable pub to_display_string : Floats → JsonValue → Bytes
unfolding render
to_display_string fl JsonValue.null = codes "null"
to_display_string fl (JsonValue.bool b) = if b then codes "true" else codes "false"
to_display_string fl (JsonValue.int i) = render_int i
to_display_string fl (JsonValue.double d) = render_double fl d
to_display_string fl (JsonValue.string s) = s
to_display_string fl v = render fl v

-- `depth`, and its loops over the children.
unfoldable mutual
  pub depth : JsonValue → ℕ
  depth (JsonValue.array xs) = depth_items xs + 1
  depth (JsonValue.object ms) = depth_members ms + 1
  depth _ = 1

  pub depth_items : Items → ℕ
  depth_items no_items = 0
  depth_items (item v xs) = max (depth v) (depth_items xs)

  pub depth_members : Members → ℕ
  depth_members no_members = 0
  depth_members (member k v ms) = max (depth v) (depth_members ms)
