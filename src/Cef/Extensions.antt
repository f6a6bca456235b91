-- ===== src/Cef/Extensions.antt =====
-- `parse_extensions` (src/cef/parser.cpp). A position in the text is the list of the bytes from it
-- on.
pub mod Bounds
pub mod RoundTrip
mod Examples
use chrono_sift.Common.{
  ℕ, zero, suc, Bool, true, false, not, ◌||◌, List, [], ◌∷◌, ◌++◌, Option, none, some, leb, ◌==◌,
  if◌then◌else◌, Bytes, codes, length, take, null, Read, read,
}
use chrono_sift.Core.Chars.{is_alnum}
use chrono_sift.Core.Status.{StatusCode, status, Status, good}
use chrono_sift.Cef.Record.{CefExtension, ParseOptions}
use chrono_sift.Cef.Header.{push_bounded}

unfoldable pub is_key_char : ℕ → Bool
is_key_char c = is_alnum c || c == b'.' || c == b'_' || c == b'-'

-- `read_key`: the run of key characters, and the bytes behind it.
unfoldable pub read_key : Bytes → Read Bytes
read_key [] = read [] []
read_key (c ∷ s) =
    let r = read_key s in if is_key_char c then record r { got = c ∷ r.got } else read [] (c ∷ s)

abbrev pub starts_with_eq : Bytes → Bool
starts_with_eq [] = false
starts_with_eq (c ∷ s) = c == b'='

-- Behind a space.
unfoldable pub is_pair_boundary : Bytes → Bool
is_pair_boundary t = let r = read_key t in if null r.got then false else starts_with_eq r.rest

unfoldable pub skip_blanks : Bytes → Bytes
skip_blanks [] = []
skip_blanks (c ∷ s) = let rest = skip_blanks s in if c == b' ' then rest else c ∷ s

-- To the next space, and behind the spaces there.
unfoldable pub resync : Bytes → Bytes
resync [] = []
resync (c ∷ s) = let rest = resync s in if c == b' ' then skip_blanks (c ∷ s) else rest

-- The escapes of a value.
unfoldable pub value_escape : ℕ → Option ℕ
value_escape n =
    if n == b'='
    then some b'='
    else if n == b'\\'
    then some b'\\'
    else if n == b'n'
    then some b'\n'
    else if n == b'r'
    then some b'\r'
    else none

-- The loop over a value.
unfoldable pub value_from : ℕ → Bytes → Bytes → Read Bytes
value_from cap value [] = read value []
value_from cap value (c ∷ []) = read (push_bounded value c cap) []
value_from cap value (c ∷ n ∷ s) = elim (c == b'\\') [
  | true ↦ elim (value_escape n) [
    | some d ↦ value_from cap (push_bounded value d cap) s
    | none ↦ value_from cap (push_bounded value b'\\' cap) (n ∷ s)
  ]
  | false ↦ elim (c == b' ') [
    | true ↦ elim (is_pair_boundary (n ∷ s)) [
      | true ↦ read value (c ∷ n ∷ s)
      | false ↦ value_from cap (push_bounded value b' ' cap) (n ∷ s)
    ]
    | false ↦ value_from cap (push_bounded value c cap) (n ∷ s)
  ]
]

-- The status that is returned, and `out`.
pub record Pairs : Type 0 where
  pub state : Status
  pub out : List CefExtension

-- The pair of a key, whose value starts at `s`.
abbrev pub pair_at : ℕ → Bytes → Read Bytes → CefExtension
pair_at cap key r = record { key = take cap key; value = r.got }

-- The loop, on fuel; `none` where it runs out.
unfoldable pub pairs_from : ParseOptions → ℕ → List CefExtension → Bytes → Option Pairs
pairs_from opts zero out s = none
pairs_from opts (suc fuel) out [] = some (record { state = good; out = out })
pairs_from opts (suc fuel) out (c ∷ s) = elim (leb opts.max_extensions (length out)) [
  | true ↦ some (record {
    state = status StatusCode.limit_exceeded (codes "cef: too many extension pairs");
    out = out;
  })
  | false ↦ elim (is_key_char c) [
    | false ↦ pairs_from opts fuel out s
    | true ↦
        let k = read_key (c ∷ s) in
        elim k.rest [
          | [] ↦ pairs_from opts fuel out []
          | d ∷ t ↦ elim (d == b'=') [
            | false ↦ pairs_from opts fuel out (resync (d ∷ t))
            | true ↦ elim (null k.got) [
              | true ↦ pairs_from opts fuel out (resync t)
              | false ↦
                  let v = value_from opts.max_field_bytes [] t in
                  pairs_from opts fuel (out ++ pair_at opts.max_field_bytes k.got v ∷ [])
                    (skip_blanks v.rest)
            ]
          ]
        ]
  ]
]

-- `parse_extensions` from position 0, into an empty `out`.
unfoldable pub parse_extensions : ParseOptions → Bytes → Option Pairs
parse_extensions opts text = pairs_from opts (suc (length text)) [] (skip_blanks text)
