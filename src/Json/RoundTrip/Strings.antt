-- ===== src/Json/RoundTrip/Strings.antt =====
-- `parse_string` reads back what `append_json_quoted` writes.
use chrono_sift.Common.{
  ℕ, zero, suc, ◌+◌, ◌/◌, ◌≤◌, ◌<◌, ◌≡◌, refl, ◌∙◌, ap, sym, inl, inr, Bool-cases, Bool, true,
  false, [], ◌∷◌, ◌++◌, some, none, Option, arith, length, length-append, Bytes, read, ltb, ◌==◌,
  ==_iff, append_assoc, append-nil, bit_and,
}
use chrono_sift.Core.Status.{success}
use chrono_sift.Common.Bits.{every_below, every_below_sound}
use chrono_sift.Core.Encoding.{hex_nibble, hex_lower, utf8, is_high, is_low}
use chrono_sift.Json.Value.{quoted_char, quoted_body}
use chrono_sift.Json.Scan.{
  JsonLimits, read_hex4, unicode_escape, escape, simple_escape, string_piece, string_from,
  parse_string, hex4, read_from,
}

-- A round that appends `piece` within the limit.
string_from-piece :
    (limit fuel : ℕ) (out : Bytes) (c : ℕ) (s : Bytes) (piece t : Bytes)
    → (c == b'"') ≡ false
    → string_piece c s ≡ success (read piece t)
    → length (out ++ piece) ≤ limit
    → string_from limit (suc fuel) out (c ∷ s) ≡ string_from limit fuel (out ++ piece) t
unfolding string_from
string_from-piece limit fuel out c s piece t q e h =
    let fits : ltb limit (length (out ++ piece)) ≡ false = ground arith in
    rw (q, string_from) (rw (e, string_from) (rw fits))

abbrev is_some_of : Option ℕ → ℕ → Bool
is_some_of none v = false
is_some_of (some w) v = w == v

is_some_of-eq : (o : Option ℕ) (v : ℕ) → is_some_of o v ≡ true → o ≡ some v
is_some_of-eq none v h = cc
is_some_of-eq (some w) v h = ap some ((==_iff w v).0 h)

-- The four digits of a control byte.
abbrev control_digits : ℕ → Option ℕ
control_digits c =
    hex4 (hex_nibble b'0') (hex_nibble b'0') (hex_nibble (hex_lower (bit_and (c / 16) 0xf)))
      (hex_nibble (hex_lower (bit_and c 0xf)))

control_table : every_below 32 (λ c. is_some_of (control_digits c) c) ≡ true
unfolding every_below hex_nibble hex_lower
control_table = refl

read_hex4-control :
    (c : ℕ) (t : Bytes)
    → c < 32
    → read_hex4 (b'0' ∷ b'0' ∷ hex_lower (bit_and (c / 16) 0xf) ∷ hex_lower (bit_and c 0xf) ∷ t)
      ≡ some (read c t)
unfolding read_hex4
read_hex4-control c t h =
    ap (λ o. read_from o t)
      (is_some_of-eq (control_digits c) c
        (every_below_sound 32 (λ x. is_some_of (control_digits x) x) c control_table h))

unicode_escape-ascii : (c : ℕ) (t : Bytes) → c < 128 → unicode_escape c t ≡ read (c ∷ []) t
unfolding unicode_escape utf8
unicode_escape-ascii c t h =
    let a : is_high c ≡ false = ground arith in
    let b : is_low c ≡ false = ground arith in
    let d : ltb c 0x80 ≡ true = ground arith in rw (a, b, d)

control-piece :
    (c : ℕ) (t : Bytes)
    → c < 32
    → string_piece b'\\'
        (b'u' ∷ b'0' ∷ b'0' ∷ hex_lower (bit_and (c / 16) 0xf) ∷ hex_lower (bit_and c 0xf) ∷ t)
      ≡ success (read (c ∷ []) t)
unfolding string_piece escape simple_escape
control-piece c t h =
    rw (read_hex4-control c t h, escape) (ap success (unicode_escape-ascii c t (omega arith)))

-- A text that one round reads as the character `c`.
abbrev pub EscapeOf : ℕ → Bytes → Type 0
EscapeOf c text =
    (a : ℕ) × (u : Bytes) × (text ≡ a ∷ u)
    × ((a == b'"') ≡ false)
    × ((t : Bytes) → string_piece a (u ++ t) ≡ success (read (c ∷ []) t))

simple_escape-EscapeOf :
    (c k e : ℕ) → (c == k) ≡ true → simple_escape e ≡ some k → EscapeOf c (b'\\' ∷ e ∷ [])
unfolding string_piece escape
simple_escape-EscapeOf c k e y h =
    let same : k ≡ c = sym ((==_iff c k).0 y) in
    (b'\\', e ∷ [], refl, refl, λ t. rw (h, escape) (ap (λ x. success (read (x ∷ []) t)) same))

control-EscapeOf :
    (c : ℕ)
    → c < 32
    → EscapeOf c (
        b'\\'
        ∷ b'u'
        ∷ b'0'
        ∷ b'0'
        ∷ hex_lower (bit_and (c / 16) 0xf)
        ∷ hex_lower (bit_and c 0xf)
        ∷ [])
control-EscapeOf c h = (b'\\', _, refl, refl, λ t. control-piece c t h)

plain-EscapeOf :
    (c : ℕ) → (c == b'"') ≡ false → (c == b'\\') ≡ false → ltb c 0x20 ≡ false → EscapeOf c (c ∷ [])
unfolding string_piece
plain-EscapeOf c q b p = (c, [], refl, q, λ t. rw (b, p))

quoted_char-EscapeOf : (c : ℕ) → EscapeOf c (quoted_char c)
unfolding quoted_char simple_escape
quoted_char-EscapeOf c = elim (Bool-cases (c == b'"')) [
  | inl y ↦ rw y (simple_escape-EscapeOf c b'"' b'"' y refl)
  | inr n1 ↦ elim (Bool-cases (c == b'\\')) [
    | inl y ↦ rw (n1, y) (simple_escape-EscapeOf c b'\\' b'\\' y refl)
    | inr n2 ↦ elim (Bool-cases (c == 0x08)) [
      | inl y ↦ rw (n1, n2, y) (simple_escape-EscapeOf c 0x08 b'b' y refl)
      | inr n3 ↦ elim (Bool-cases (c == 0x0c)) [
        | inl y ↦ rw (n1, n2, n3, y) (simple_escape-EscapeOf c 0x0c b'f' y refl)
        | inr n4 ↦ elim (Bool-cases (c == b'\n')) [
          | inl y ↦ rw (n1, n2, n3, n4, y) (simple_escape-EscapeOf c b'\n' b'n' y refl)
          | inr n5 ↦ elim (Bool-cases (c == b'\r')) [
            | inl y ↦ rw (n1, n2, n3, n4, n5, y) (simple_escape-EscapeOf c b'\r' b'r' y refl)
            | inr n6 ↦ elim (Bool-cases (c == b'\t')) [
              | inl y ↦ rw (n1, n2, n3, n4, n5, n6, y) (simple_escape-EscapeOf c b'\t' b't' y refl)
              | inr n7 ↦ elim (Bool-cases (ltb c 0x20)) [
                | inl y ↦ rw (n1, n2, n3, n4, n5, n6, n7, y) (control-EscapeOf c (ground arith))
                | inr n8 ↦ rw (n1, n2, n3, n4, n5, n6, n7, n8) (plain-EscapeOf c n1 n2 n8)
              ]
            ]
          ]
        ]
      ]
    ]
  ]
]

-- One character is read back in one round.
escape-read :
    (limit fuel : ℕ) (out : Bytes) (c : ℕ) (text t : Bytes)
    → EscapeOf c text
    → length (out ++ c ∷ []) ≤ limit
    → string_from limit (suc fuel) out (text ++ t) ≡ string_from limit fuel (out ++ c ∷ []) t
escape-read limit fuel out c text t (a, u, e, q, k) h =
    ap (λ x. string_from limit (suc fuel) out (x ++ t)) e
    ∙ string_from-piece limit fuel out a (u ++ t) (c ∷ []) t q (k t) h

string_from-quote :
    (limit fuel : ℕ) (out t : Bytes)
    → length out ≤ limit
    → string_from limit (suc fuel) out (b'"' ∷ t) ≡ some (success (read out t))
unfolding string_from
string_from-quote limit fuel out t h =
    let fits : ltb limit (length out) ≡ false = ground arith in rw fits

pub string_from-quoted_body :
    (limit fuel : ℕ) (s out t : Bytes)
    → length out + length s ≤ limit
    → length s < fuel
    → string_from limit fuel out (quoted_body s ++ b'"' ∷ t) ≡ some (success (read (out ++ s) t))
unfolding quoted_body
string_from-quoted_body limit zero s out t h f = absurd (omega arith)
string_from-quoted_body limit (suc fuel) [] out t h f =
    string_from-quote limit fuel out t (omega arith)
    ∙ ap (λ x. some (success (read x t))) (sym (append-nil out))
string_from-quoted_body limit (suc fuel) (c ∷ s) out t h f =
    ap (string_from limit (suc fuel) out) (append_assoc (quoted_char c) (quoted_body s) (b'"' ∷ t))
    ∙ escape-read limit fuel out c (quoted_char c) (quoted_body s ++ b'"' ∷ t)
        (quoted_char-EscapeOf c) (omega (arith, length-append {0} out (c ∷ [])))
    ∙ string_from-quoted_body limit fuel s (out ++ c ∷ []) t
        (omega (arith, length-append {0} out (c ∷ []))) (omega arith)
    ∙ ap (λ x. some (success (read x t))) (append_assoc out (c ∷ []) s)

length-EscapeOf : (c : ℕ) (text : Bytes) → EscapeOf c text → 0 < length text
length-EscapeOf c text (a, u, e, q, k) = rw e (omega arith)

length-quoted_body : (s : Bytes) → length s ≤ length (quoted_body s)
unfolding quoted_body
length-quoted_body [] = omega arith
length-quoted_body (c ∷ s) = omega (
  arith,
  length-append {0} (quoted_char c) (quoted_body s),
  length-quoted_body s,
  length-EscapeOf c (quoted_char c) (quoted_char-EscapeOf c),
)

-- A string within the limit that `append_json_quoted` wrote is read back by `parse_string`, whatever
-- follows its closing quote.
pub parse_string-quoted_body :
    (l : JsonLimits) (s rest : Bytes)
    → length s ≤ l.max_string_bytes
    → parse_string l (quoted_body s ++ b'"' ∷ rest) ≡ some (success (read s rest))
unfolding parse_string
parse_string-quoted_body l s rest h =
    string_from-quoted_body l.max_string_bytes (suc (length (quoted_body s ++ b'"' ∷ rest))) s []
      rest (omega arith)
      (omega (arith, length-append {0} (quoted_body s) (b'"' ∷ rest), length-quoted_body s))
