-- ===== src/Core/Text.antt =====
-- String helpers (src/core/string_util.cpp). An index loop over `s[i]` is a recursion on the bytes
-- from `i` on; `s.substr(start, i - start)` of such a loop is the list `cur` of the bytes passed
-- since `start`. `find`, `substr`, `compare` and `std::to_string` are the standard library's.
pub mod Trim
pub mod Split
pub mod Fields
pub mod Lines
pub mod Words
pub mod Replace
pub mod Replaced
mod Examples
use chrono_sift.Common.{
  ℕ, zero, suc, ◌+◌, ◌-◌, ◌/◌, ◌%◌, Bool, true, false, not, ◌&&◌, ◌||◌, List, [], ◌∷◌, ◌++◌, map,
  Option, none, some, ltb, leb, ◌==◌, if◌then◌else◌, Bytes, codes, length, get_or, take, drop, null,
  eqb, bit_and,
}
use chrono_sift.Core.Chars.{ascii_to_lower, ascii_to_upper, is_space}

unfoldable pub to_lower : Bytes → Bytes
to_lower s = map ascii_to_lower s

unfoldable pub to_upper : Bytes → Bytes
to_upper s = map ascii_to_upper s

-- The loop of `ascii_iequals`, over two strings of one length.
iequals_from : Bytes → Bytes → Bool
iequals_from (x ∷ a) (y ∷ b) =
    if not (ascii_to_lower x == ascii_to_lower y) then false else iequals_from a b
iequals_from _ _ = true

unfoldable pub ascii_iequals : Bytes → Bytes → Bool
unfolding iequals_from
ascii_iequals a b = if not (length a == length b) then false else iequals_from a b

-- `while (i < s.size() && is_space(s[i])) ++i;`: how far `i` moves over the bytes from `i` on.
unfoldable pub space_run : Bytes → ℕ
space_run [] = 0
space_run (c ∷ s) = if is_space c then suc (space_run s) else 0

-- `while (n > i && is_space(s[n - 1])) --n;`: where `n` stops.
unfoldable pub trim_end : Bytes → ℕ → ℕ → ℕ
trim_end s i zero = zero
trim_end s i (suc n) =
    let rest = trim_end s i n in if ltb i (suc n) && is_space (get_or s n 0) then rest else suc n

pub trim_left : Bytes → Bytes
unfolding space_run
trim_left s = drop (space_run s) s

pub trim_right : Bytes → Bytes
unfolding trim_end
trim_right s = take (trim_end s 0 (length s)) s

unfoldable pub trim : Bytes → Bytes
unfolding space_run trim_end
trim s = let i = space_run s in let n = trim_end s i (length s) in take (n - i) (drop i s)

unfoldable pub starts_with : Bytes → Bytes → Bool
starts_with s prefix = leb (length prefix) (length s) && eqb (take (length prefix) s) prefix

pub ends_with : Bytes → Bytes → Bool
ends_with s suffix =
    leb (length suffix) (length s) && eqb (drop (length s - length suffix) s) suffix

-- `std::string::find`: the first place at which `needle` stands.
unfoldable pub find : Bytes → Bytes → Option ℕ
unfolding starts_with
find needle [] = if null needle then some 0 else none
find needle (c ∷ s) = elim (starts_with (c ∷ s) needle) [
  | true ↦ some 0
  | false ↦ elim (find needle s) [ some i ↦ some (suc i) | none ↦ none ]
]

unfoldable pub contains : Bytes → Bytes → Bool
unfolding find
contains s needle = elim (find needle s) [ some i ↦ true | none ↦ false ]

-- `if (!skip_empty || !field.empty()) out.push_back(field)`, in front of the later fields.
unfoldable pub push_field : Bool → Bytes → List Bytes → List Bytes
push_field skip_empty field out = if not skip_empty || not (null field) then field ∷ out else out

unfoldable pub split_from : ℕ → Bool → ℕ → ℕ → Bytes → Bytes → List Bytes
unfolding push_field
split_from delim skip_empty max_splits splits cur [] = push_field skip_empty cur []
split_from delim skip_empty max_splits splits cur (c ∷ s) =
    let next = split_from delim skip_empty max_splits (splits + 1) [] s in
    let same = split_from delim skip_empty max_splits splits (cur ++ c ∷ []) s in
    if c == delim && (max_splits == 0 || ltb splits max_splits)
    then push_field skip_empty cur next
    else same

unfoldable pub split : Bytes → ℕ → Bool → ℕ → List Bytes
unfolding split_from
split s delim skip_empty max_splits = split_from delim skip_empty max_splits 0 [] s

-- `while (i < s.size() && !is_space(s[i])) ++i;`
unfoldable pub word_run : Bytes → ℕ
word_run [] = 0
word_run (c ∷ s) = if not (is_space c) then suc (word_run s) else 0

-- The outer loop of `split_whitespace`, on fuel: each round that goes on passes a byte.
unfoldable pub words_from : ℕ → Bytes → List Bytes
unfolding space_run word_run
words_from zero s = []
words_from (suc fuel) s =
    let t = drop (space_run s) s in
    let n = word_run t in
    let rest = words_from fuel (drop n t) in if null t then [] else take n t ∷ rest

unfoldable pub split_whitespace : Bytes → List Bytes
unfolding words_from
split_whitespace s = words_from (length s) s

-- `if (end > start && s[end - 1] == '\r') --end;` on the bytes of the line.
unfoldable pub strip_cr : Bytes → Bytes
strip_cr line =
    if ltb 0 (length line) && (get_or line (length line - 1) 0 == b'\r')
    then take (length line - 1) line
    else line

unfoldable pub lines_from : Bytes → Bytes → List Bytes
unfolding strip_cr
lines_from cur [] = if ltb 0 (length cur) then strip_cr cur ∷ [] else []
lines_from cur (c ∷ s) =
    let next = lines_from [] s in
    let same = lines_from (cur ++ c ∷ []) s in if c == b'\n' then strip_cr cur ∷ next else same

unfoldable pub split_lines : Bytes → List Bytes
unfolding lines_from
split_lines s = lines_from [] s

-- The loop of `join`; the flag is `i != 0`.
unfoldable pub join_from : Bool → List Bytes → Bytes → Bytes
join_from later [] sep = []
join_from later (p ∷ parts) sep = (if later then sep else []) ++ (p ++ join_from true parts sep)

unfoldable pub join : List Bytes → Bytes → Bytes
unfolding join_from
join parts sep = join_from false parts sep

-- The loop of `replace_all` over the bytes from `pos` on, on fuel: `from` is not empty, so each
-- round that goes on passes a byte.
unfoldable pub replace_from : ℕ → Bytes → Bytes → Bytes → Bytes
unfolding find
replace_from zero s from to = s
replace_from (suc fuel) s from to = elim (find from s) [
  | none ↦ s
  | some found ↦ take found s ++ (to ++ replace_from fuel (drop (found + length from) s) from to)
]

pub replace_all : Bytes → Bytes → Bytes → Bytes
unfolding replace_from
replace_all s from to = if null from then s else replace_from (suc (length s)) s from to

-- `"0123456789abcdef"[i]` for `i` below 16.
unfoldable pub hex_char : ℕ → ℕ
hex_char i = get_or (codes "0123456789abcdef") i 0

unfoldable pub escape_byte : ℕ → Bytes
unfolding hex_char
escape_byte c =
    if c == b'\t'
    then codes "\\t"
    else if c == b'\n'
    then codes "\\n"
    else if c == b'\r'
    then codes "\\r"
    else if leb 0x20 c && ltb c 0x7f
    then c ∷ []
    else codes "\\x" ++ hex_char (bit_and (c / 16) 0xf) ∷ hex_char (bit_and c 0xf) ∷ []

unfoldable pub sanitize_printable : Bytes → Bytes
unfolding escape_byte
sanitize_printable [] = []
sanitize_printable (c ∷ s) = escape_byte c ++ sanitize_printable s

unfoldable pub truncate : Bytes → ℕ → Bytes
truncate s max =
    if leb (length s) max
    then s
    else if leb max 3
    then take max s
    else take (max - 3) s ++ codes "..."
