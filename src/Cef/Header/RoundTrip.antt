-- ===== src/Cef/Header/RoundTrip.antt =====
-- `split_header` reads back a header that is written out with its escapes.
use chrono_sift.Common.{
  ℕ, zero, suc, ◌+◌, ◌-◌, ◌*◌, ◌/◌, ◌%◌, ◌^◌, ◌≤◌, ◌<◌, ◌≡◌, refl, ◌∙◌, ap, sym, inl, inr,
  Bool-cases, true, false, ◌||◌, List, [], ◌∷◌, ◌++◌, some, arith, length, length-append,
  append_assoc, append-nil, Bytes, read, ltb, leb, ◌==◌, if◌then◌else◌, All, take_all, eqb,
}
use chrono_sift.Core.Chars.{is_digit}
use chrono_sift.Core.Text.{find, starts_with}
use chrono_sift.Core.Number.{decimal_onto, to_string}
use chrono_sift.Core.Status.{success, clamp_value}
use chrono_sift.Cef.Record.{ParseOptions}
use chrono_sift.Cef.Header.{
  marker, push_bounded, version_from, read_version, field_from, fields_from, split_header,
}

-- A field as it is written.
abbrev pub header_escape : Bytes → Bytes
header_escape [] = []
header_escape (c ∷ s) =
    if c == b'|' || c == b'\\' then b'\\' ∷ c ∷ header_escape s else c ∷ header_escape s

-- The end of the line, or a separator.
abbrev pub Separated : Bytes → Type 0
Separated [] = Unit
Separated (c ∷ s) = c ≡ b'|'

pub push_bounded-room :
    (out : Bytes) (c cap : ℕ) → length out < cap → push_bounded out c cap ≡ out ++ c ∷ []
unfolding push_bounded
push_bounded-room out c cap h = let room : leb cap (length out) ≡ false = ground arith in rw room

field_from-plain :
    (cap : ℕ) (field : Bytes) (c : ℕ) (s : Bytes)
    → (c == b'\\') ≡ false
    → (c == b'|') ≡ false
    → field_from cap field (c ∷ s) ≡ field_from cap (push_bounded field c cap) s
unfolding field_from
field_from-plain cap field c [] h k = rw (k, field_from)
field_from-plain cap field c (n ∷ s) h k = rw (h, field_from) (rw (k, field_from))

field_from-escaped :
    (cap : ℕ) (field : Bytes) (c : ℕ) (s : Bytes)
    → (c == b'|' || c == b'\\') ≡ true
    → field_from cap field (b'\\' ∷ c ∷ s) ≡ field_from cap (push_bounded field c cap) s
unfolding field_from
field_from-escaped cap field c s h = rw (h, field_from)

field_from-end : (cap : ℕ) (field t : Bytes) → Separated t → field_from cap field t ≡ read field t
unfolding field_from
field_from-end cap field [] h = refl
field_from-end cap field (c ∷ []) h =
    let bar : (c == b'|') ≡ true = ground arith in rw (bar, field_from)
field_from-end cap field (c ∷ n ∷ t) h =
    let bar : (c == b'|') ≡ true = ground arith in
    let plain : (c == b'\\') ≡ false = ground arith in rw (plain, field_from) (rw (bar, field_from))

field_from-escape :
    (cap : ℕ) (v field t : Bytes)
    → length field + length v ≤ cap
    → Separated t
    → field_from cap field (header_escape v ++ t) ≡ read (field ++ v) t
field_from-escape cap [] field t h k =
    field_from-end cap field t k ∙ ap (λ x. read x t) (sym (append-nil field))
field_from-escape cap (c ∷ v) field t h k =
    let next : field_from cap (push_bounded field c cap) (header_escape v ++ t)
        ≡ read (field ++ c ∷ v) t =
      ap (λ x. field_from cap x (header_escape v ++ t))
        (push_bounded-room field c cap (omega arith))
      ∙ field_from-escape cap v (field ++ c ∷ []) t
          (omega (arith, length-append {0} field (c ∷ []))) k
      ∙ ap (λ x. read x t) (append_assoc field (c ∷ []) v) in
    elim (Bool-cases (c == b'|' || c == b'\\')) [
      | inl y ↦ rw y (field_from-escaped cap field c (header_escape v ++ t) y ∙ next)
      | inr n ↦ rw n (
          field_from-plain cap field c (header_escape v ++ t) (ground (arith, n))
            (ground (arith, n))
          ∙ next)
    ]

-- Fields, in front of `t`.
abbrev pub fields_text : List Bytes → Bytes → Bytes
fields_text [] t = t
fields_text (v ∷ []) t = header_escape v ++ t
fields_text (v ∷ u ∷ vs) t = header_escape v ++ b'|' ∷ fields_text (u ∷ vs) t

fields_from-text :
    (cap : ℕ) (vs fields : List Bytes) (t : Bytes)
    → All (λ v. length v ≤ cap) vs
    → Separated t
    → fields_from cap (length vs) fields (fields_text vs t) ≡ success (read (fields ++ vs) t)
unfolding fields_from
fields_from-text cap [] fields t h k = ap (λ x. success (read x t)) (sym (append-nil fields))
fields_from-text cap (v ∷ []) fields t h k =
    rw (field_from-escape cap v [] t (omega (arith, h.0)) k)
fields_from-text cap (v ∷ u ∷ vs) fields t h k =
    rw (field_from-escape cap v [] (b'|' ∷ fields_text (u ∷ vs) t) (omega (arith, h.0)) refl) (
      fields_from-text cap (u ∷ vs) (fields ++ v ∷ []) t h.1 k
      ∙ ap (λ x. success (read x t)) (append_assoc fields (v ∷ []) (u ∷ vs)))

version_from-digit :
    (v d : ℕ) (s : Bytes)
    → d ≤ 9
    → v * 10 + d < 2 ^ 64
    → version_from v false ((b'0' + d) ∷ s) ≡ version_from (v * 10 + d) false s
unfolding version_from is_digit
version_from-digit v d s h fits =
    let e : (v * 10 + (b'0' + d - b'0')) % 2 ^ 64 ≡ v * 10 + d = omega arith in
    let a : leb b'0' (b'0' + d) ≡ true = ground arith in
    let b : leb (b'0' + d) b'9' ≡ true = ground arith in
    let o : ltb (v * 10 + d) v ≡ false = ground arith in rw (a, b, e, o)

version_from-decimal :
    (fuel n : ℕ) (acc : Bytes)
    → n < fuel
    → n < 2 ^ 64
    → version_from 0 false (decimal_onto fuel n acc) ≡ version_from n false acc
unfolding decimal_onto
version_from-decimal zero n acc h fits = absurd (omega arith)
version_from-decimal (suc fuel) n acc h fits = elim (Bool-cases (ltb n 10)) [
  | inl small ↦ rw small (
      version_from-digit 0 n acc (ground arith) (omega arith)
      ∙ ap (λ x. version_from x false acc) (omega arith))
  | inr big ↦
      let e : n / 10 * 10 + n % 10 ≡ n = omega arith in
      rw big (
        version_from-decimal fuel (n / 10) ((b'0' + n % 10) ∷ acc) (ground arith) (omega arith)
        ∙ version_from-digit (n / 10) (n % 10) acc (omega arith) (omega arith)
        ∙ ap (λ x. version_from x false acc) e)
]

digits-end :
    (acc : Bytes) (fuel n : ℕ) (t : Bytes)
    → decimal_onto fuel n acc ++ t ≡ decimal_onto fuel n (acc ++ t)
unfolding decimal_onto
digits-end acc zero n t = refl
digits-end acc (suc fuel) n t = elim (Bool-cases (ltb n 10)) [
  | inl small ↦ rw small
  | inr big ↦ rw big (digits-end ((b'0' + n % 10) ∷ acc) fuel (n / 10) t)
]

read_version-to_string :
    (n : ℕ) (t : Bytes) → n < 2 ^ 32 → read_version (to_string n ++ b'|' ∷ t) ≡ read n (b'|' ∷ t)
unfolding read_version to_string version_from clamp_value is_digit
read_version-to_string n t h =
    let a : ltb 0xffffffff n ≡ false = ground arith in
    let e : version_from 0 false (decimal_onto (suc n) n [] ++ b'|' ∷ t)
        ≡ record { v = n; overflow = false; rest = b'|' ∷ t } =
      ap (version_from 0 false) (digits-end [] (suc n) n (b'|' ∷ t))
      ∙ version_from-decimal (suc n) n (b'|' ∷ t) (omega arith) (omega arith) in
    rw e (rw a (ground arith))

find-marker : (s : Bytes) → find marker (marker ++ s) ≡ some 0
unfolding find starts_with eqb
find-marker s = let a : leb 4 (length (marker ++ s)) ≡ true = ground arith in rw (a, find)

-- A header.
abbrev pub header_text : ℕ → List Bytes → Bytes → Bytes
header_text version vs ext = marker ++ (to_string version ++ b'|' ∷ fields_text vs (b'|' ∷ ext))

-- A header of a 32-bit version and six fields is split into its parts.
pub split_header-text :
    (opts : ParseOptions) (version : ℕ) (vs : List Bytes) (ext : Bytes)
    → version < 2 ^ 32
    → length vs ≡ 6
    → All (λ v. length v ≤ opts.max_field_bytes) vs
    → length ext ≤ opts.max_field_bytes
    → split_header opts (header_text version vs ext)
      ≡ success (to_string version ∷ (vs ++ ext ∷ []))
unfolding split_header
split_header-text opts version vs ext hv six h he =
    let body = to_string version ++ b'|' ∷ fields_text vs (b'|' ∷ ext) in
    let fields : fields_from opts.max_field_bytes 6 (to_string version ∷ [])
          (fields_text vs (b'|' ∷ ext))
        ≡ success (read (to_string version ∷ vs) (b'|' ∷ ext)) =
      ap
        (λ k.
          fields_from opts.max_field_bytes k (to_string version ∷ []) (fields_text vs (b'|' ∷ ext)))
        (sym six)
      ∙ fields_from-text opts.max_field_bytes vs (to_string version ∷ []) (b'|' ∷ ext) h refl in
    rw (find-marker body, split_header)
      (rw (read_version-to_string version (fields_text vs (b'|' ∷ ext)) hv) (
        rw fields (
          ap (λ x. success (to_string version ∷ (vs ++ x ∷ [])))
            (take_all opts.max_field_bytes ext he))))
