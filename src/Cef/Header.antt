-- ===== src/Cef/Header.antt =====
-- `split_header` (src/cef/parser.cpp). A position in the line is the list of the bytes from it on.
pub mod RoundTrip
use chrono_sift.Common.{
  ℕ, zero, suc, ◌+◌, ◌-◌, ◌*◌, ◌%◌, ◌^◌, Bool, true, false, ◌||◌, List, [], ◌∷◌, ◌++◌, Option, none,
  some, ltb, leb, ◌==◌, if◌then◌else◌, Bytes, codes, length, take, drop, null, Read, read,
}
use chrono_sift.Core.Chars.{is_digit}
use chrono_sift.Core.Text.{find}
use chrono_sift.Core.Number.{to_string}
use chrono_sift.Core.Status.{StatusCode, status, Result, success, failure, clamp_value}
use chrono_sift.Cef.Record.{ParseOptions}

-- `kMarker` and `kPostVersionFieldCount`
abbrev pub marker : Bytes
marker = codes "CEF:"

abbrev pub post_version_field_count : ℕ
post_version_field_count = 6

-- The flag that it returns is not used.
unfoldable pub push_bounded : Bytes → ℕ → ℕ → Bytes
push_bounded out c limit = if leb limit (length out) then out else out ++ c ∷ []

-- The variables of the loop of `read_version`, `v` being 64 bits wide.
pub record Version : Type 0 where
  pub v : ℕ
  pub overflow : Bool
  pub rest : Bytes

unfoldable pub version_from : ℕ → Bool → Bytes → Version
version_from v overflow [] = record { v = v; overflow = overflow; rest = [] }
version_from v overflow (c ∷ s) =
    let next = (v * 10 + (c - b'0')) % 2 ^ 64 in
    let more = version_from next (overflow || ltb next v) s in
    if is_digit c then more else record { v = v; overflow = overflow; rest = c ∷ s }

-- Without digits the version is the 0 that the loop starts from.
unfoldable pub read_version : Bytes → Read ℕ
read_version s =
    let w = version_from 0 false s in
    read (if w.overflow then 0xffffffff else clamp_value w.v 0 0xffffffff) w.rest

-- The loop over a header field: what it holds, and the bytes from its end on.
unfoldable pub field_from : ℕ → Bytes → Bytes → Read Bytes
field_from cap field [] = read field []
field_from cap field (c ∷ []) = elim (c == b'|') [
  | true ↦ read field (c ∷ [])
  | false ↦ read (push_bounded field c cap) []
]
field_from cap field (c ∷ n ∷ s) = elim (c == b'\\') [
  | true ↦ elim (n == b'|' || n == b'\\') [
    | true ↦ field_from cap (push_bounded field n cap) s
    | false ↦ field_from cap (push_bounded field b'\\' cap) (n ∷ s)
  ]
  | false ↦ elim (c == b'|') [
    | true ↦ read field (c ∷ n ∷ s)
    | false ↦ field_from cap (push_bounded field c cap) (n ∷ s)
  ]
]

-- The loop over the fields; `k` are left.
unfoldable pub fields_from : ℕ → ℕ → List Bytes → Bytes → Result (Read (List Bytes))
fields_from cap zero fields s = success (read fields s)
fields_from cap (suc zero) fields s =
    let r = field_from cap [] s in success (read (fields ++ r.got ∷ []) r.rest)
fields_from cap (suc (suc k)) fields s =
    let r = field_from cap [] s in
    let more = fields_from cap (suc k) (fields ++ r.got ∷ []) (drop 1 r.rest) in
    if null r.rest
    then failure (status StatusCode.truncated (codes "cef: fewer than seven header fields"))
    else more

-- What remains behind the fields, cut to the cap.
abbrev pub extension_text : ℕ → Bytes → Bytes
extension_text cap [] = []
extension_text cap (c ∷ s) = if c == b'|' then take cap s else take cap (c ∷ s)

abbrev pub with_fields : ℕ → Result (Read (List Bytes)) → Result (List Bytes)
with_fields cap (failure st) = failure st
with_fields cap (success r) = success (r.got ++ extension_text cap r.rest ∷ [])

abbrev pub after_version : ℕ → Read ℕ → Result (List Bytes)
after_version cap w =
    let no_separator =
      failure (status StatusCode.malformed (codes "cef: missing field separator after version")) in
    elim w.rest [
      | [] ↦ no_separator
      | c ∷ s ↦
          if c == b'|'
          then with_fields cap (fields_from cap post_version_field_count (to_string w.got ∷ []) s)
          else no_separator
    ]

unfoldable pub split_header : ParseOptions → Bytes → Result (List Bytes)
split_header opts line = elim (find marker line) [
  | none ↦ failure (status StatusCode.malformed (codes "cef: missing 'CEF:' marker"))
  | some i ↦ after_version opts.max_field_bytes (read_version (drop (i + 4) line))
]
