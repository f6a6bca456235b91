-- ===== src/Cef/Extensions/RoundTrip.antt =====
-- `parse_extensions` reads back pairs that are written out with their escapes.
use chrono_sift.Common.{
  ℕ, zero, suc, ◌+◌, ◌≤◌, ◌<◌, ◌≡◌, refl, ◌∙◌, ap, sym, inl, inr, Bool-cases, true, false, ◌||◌,
  List, [], ◌∷◌, ◌++◌, some, arith, length, length-append, append_assoc, append-nil, Bytes, read,
  leb, ◌==◌, if◌then◌else◌, All, take, take_all, null,
}
use chrono_sift.Core.Chars.{is_alnum, is_alpha, is_digit}
use chrono_sift.Core.Status.{good}
use chrono_sift.Cef.Record.{CefExtension, ParseOptions}
use chrono_sift.Cef.Header.{push_bounded}
use chrono_sift.Cef.Header.RoundTrip.{push_bounded-room}
use chrono_sift.Cef.Extensions.{
  is_key_char, read_key, starts_with_eq, is_pair_boundary, skip_blanks, value_escape, value_from,
  pairs_from, parse_extensions,
}
use chrono_sift.Cef.Extensions.Bounds.{IsPair}

-- A value as it is written.
abbrev pub write_value : Bytes → Bytes
write_value [] = []
write_value (c ∷ s) =
    if c == b'=' || c == b'\\' then b'\\' ∷ c ∷ write_value s else c ∷ write_value s

-- The end of the text, or the space in front of the next pair.
abbrev Bounded : Bytes → Type 0
Bounded [] = Unit
Bounded (c ∷ s) = (c ≡ b' ') × (is_pair_boundary s ≡ true)

-- Inside a value no pair starts.
no_eq : (v t : Bytes) → Bounded t → starts_with_eq (read_key (write_value v ++ t)).rest ≡ false
unfolding read_key
no_eq [] [] h = refl
no_eq [] (c ∷ t) h =
    let k : is_key_char c ≡ false = unfold is_key_char is_alnum is_alpha is_digit in ground arith in
    rw k (ground arith)
no_eq (c ∷ v) t h = elim (Bool-cases (c == b'=' || c == b'\\')) [
  | inl y ↦
      let k : is_key_char b'\\' ≡ false = unfold is_key_char is_alnum is_alpha is_digit in refl in
      rw y (rw k refl)
  | inr n ↦ rw n (elim (Bool-cases (is_key_char c)) [
    | inl z ↦ rw z (no_eq v t h)
    | inr m ↦ rw m (ground (arith, n))
  ])
]

no_boundary : (v t : Bytes) → Bounded t → is_pair_boundary (write_value v ++ t) ≡ false
unfolding is_pair_boundary
no_boundary v t h = elim (Bool-cases (null (read_key (write_value v ++ t)).got)) [
  | inl y ↦ rw y
  | inr n ↦ rw n (no_eq v t h)
]

value_from-plain :
    (cap : ℕ) (value : Bytes) (c : ℕ) (s : Bytes)
    → (c == b'\\') ≡ false
    → (c == b' ') ≡ false
    → value_from cap value (c ∷ s) ≡ value_from cap (push_bounded value c cap) s
unfolding value_from
value_from-plain cap value c [] h k = refl
value_from-plain cap value c (n ∷ s) h k = rw (h, value_from) (rw (k, value_from))

value_from-space :
    (cap : ℕ) (value s : Bytes)
    → is_pair_boundary s ≡ false
    → value_from cap value (b' ' ∷ s) ≡ value_from cap (push_bounded value b' ' cap) s
unfolding value_from
value_from-space cap value [] h = refl
value_from-space cap value (n ∷ s) h = rw (h, value_from)

value_escape_self : (c : ℕ) → (c == b'=' || c == b'\\') ≡ true → value_escape c ≡ some c
unfolding value_escape
value_escape_self c h = ground (arith, h)

value_from-escaped :
    (cap : ℕ) (value : Bytes) (c : ℕ) (s : Bytes)
    → (c == b'=' || c == b'\\') ≡ true
    → value_from cap value (b'\\' ∷ c ∷ s) ≡ value_from cap (push_bounded value c cap) s
unfolding value_from
value_from-escaped cap value c s h = rw (value_escape_self c h, value_from)

value_from-end : (cap : ℕ) (value t : Bytes) → Bounded t → value_from cap value t ≡ read value t
unfolding value_from
value_from-end cap value [] h = refl
value_from-end cap value (c ∷ []) h = absurd (unfold is_pair_boundary read_key in ground arith)
value_from-end cap value (c ∷ n ∷ t) h =
    let plain : (c == b'\\') ≡ false = ground arith in
    let space : (c == b' ') ≡ true = ground arith in
    rw (plain, value_from) (rw (space, value_from) (rw (h.1, value_from)))

value_from-write :
    (cap : ℕ) (v value t : Bytes)
    → length value + length v ≤ cap
    → Bounded t
    → value_from cap value (write_value v ++ t) ≡ read (value ++ v) t
value_from-write cap [] value t h k =
    value_from-end cap value t k ∙ ap (λ x. read x t) (sym (append-nil value))
value_from-write cap (c ∷ v) value t h k =
    let next : value_from cap (push_bounded value c cap) (write_value v ++ t)
        ≡ read (value ++ c ∷ v) t =
      ap (λ x. value_from cap x (write_value v ++ t)) (push_bounded-room value c cap (omega arith))
      ∙ value_from-write cap v (value ++ c ∷ []) t (omega (arith, length-append {0} value (c ∷ [])))
          k
      ∙ ap (λ x. read x t) (append_assoc value (c ∷ []) v) in
    elim (Bool-cases (c == b'=' || c == b'\\')) [
      | inl y ↦ rw y (value_from-escaped cap value c (write_value v ++ t) y ∙ next)
      | inr n ↦ rw n (elim (Bool-cases (c == b' ')) [
        | inr m ↦ value_from-plain cap value c (write_value v ++ t) (ground (arith, n)) m ∙ next
        | inl z ↦
            let same : c ≡ b' ' = ground arith in
            ap (λ x. value_from cap value (x ∷ (write_value v ++ t))) same
            ∙ value_from-space cap value (write_value v ++ t) (no_boundary v t k)
            ∙ ap (λ x. value_from cap (push_bounded value x cap) (write_value v ++ t)) (sym same)
            ∙ next
      ])
    ]

-- Pairs as they are written.
abbrev pub pairs_text : List CefExtension → Bytes
pairs_text [] = []
pairs_text (p ∷ []) = p.key ++ b'=' ∷ (write_value p.value ++ [])
pairs_text (p ∷ q ∷ ps) = p.key ++ b'=' ∷ (write_value p.value ++ b' ' ∷ pairs_text (q ∷ ps))

-- A pair with a key.
abbrev pub IsNamed : ℕ → CefExtension → Type 0
IsNamed cap p = IsPair cap p × (0 < length p.key)

read_key-run :
    (k s : Bytes) → All (λ c. is_key_char c ≡ true) k → read_key (k ++ b'=' ∷ s) ≡ read k (b'=' ∷ s)
unfolding read_key
read_key-run [] s h =
    let e : is_key_char b'=' ≡ false = unfold is_key_char is_alnum is_alpha is_digit in refl in rw e
read_key-run (c ∷ k) s h = rw (h.0) (rw (read_key-run k s h.1) refl)

pair_boundary :
    (k s : Bytes)
    → All (λ c. is_key_char c ≡ true) k
    → 0 < length k
    → is_pair_boundary (k ++ b'=' ∷ s) ≡ true
unfolding is_pair_boundary
pair_boundary [] s h n = absurd (omega arith)
pair_boundary (c ∷ k) s h n = rw (read_key-run (c ∷ k) s h) refl

key_step :
    (opts : ParseOptions) (fuel : ℕ) (out : List CefExtension) (c : ℕ) (k v t : Bytes)
    → IsNamed opts.max_field_bytes (record { key = c ∷ k; value = v })
    → length out < opts.max_extensions
    → Bounded t
    → pairs_from opts (suc fuel) out ((c ∷ k) ++ b'=' ∷ (write_value v ++ t))
      ≡ pairs_from opts fuel (out ++ record { key = c ∷ k; value = v } ∷ []) (skip_blanks t)
unfolding pairs_from
key_step opts fuel out c k v t h room b =
    let cap = opts.max_field_bytes in
    let a : leb opts.max_extensions (length out) ≡ false = ground arith in
    let key = read_key-run (c ∷ k) (write_value v ++ t) h.0.key_chars in
    let value = value_from-write cap v [] t (omega (arith, h.0.value_short)) b in
    let whole : take cap (c ∷ k) ≡ c ∷ k = take_all cap (c ∷ k) h.0.key_short in
    rw (a, pairs_from)
      (rw (h.0.key_chars.0, pairs_from)
        (rw (key, pairs_from) (rw (key, pairs_from) (rw key (rw value (rw whole refl))))))

pair_step :
    (opts : ParseOptions) (fuel : ℕ) (out : List CefExtension) (p : CefExtension) (t : Bytes)
    → IsNamed opts.max_field_bytes p
    → length out < opts.max_extensions
    → Bounded t
    → pairs_from opts (suc fuel) out (p.key ++ b'=' ∷ (write_value p.value ++ t))
      ≡ pairs_from opts fuel (out ++ p ∷ []) (skip_blanks t)
pair_step opts fuel out p t h room b = go p.key refl
  where
    go :
        (k : Bytes)
        → k ≡ p.key
        → pairs_from opts (suc fuel) out (p.key ++ b'=' ∷ (write_value p.value ++ t))
          ≡ pairs_from opts fuel (out ++ p ∷ []) (skip_blanks t)
    go [] e = absurd (omega (arith, h.1, ap length e))
    go (c ∷ k) e =
        ap (λ x. pairs_from opts (suc fuel) out (x ++ b'=' ∷ (write_value p.value ++ t))) (sym e)
        ∙ key_step opts fuel out c k p.value t
            (rw e (
              record {
                key_chars = h.0.key_chars;
                key_short = h.0.key_short;
                value_short = h.0.value_short;
              },
              omega (arith, h.1, ap length e),
            ))
            room b
        ∙ ap
            (λ x.
              pairs_from opts fuel (out ++ record { key = x; value = p.value } ∷ [])
                (skip_blanks t))
            e

key_no_blank : (c : ℕ) → is_key_char c ≡ true → (c == b' ') ≡ false
unfolding is_key_char is_alnum is_alpha is_digit
key_no_blank c h = ground (arith, h)

at_key :
    (k s : Bytes) → All (λ c. is_key_char c ≡ true) k → 0 < length k → skip_blanks (k ++ s) ≡ k ++ s
unfolding skip_blanks
at_key [] s h n = absurd (omega arith)
at_key (c ∷ k) s h n = let no_blank : (c == b' ') ≡ false = key_no_blank c h.0 in rw no_blank

skip_blanks-pairs :
    (cap : ℕ) (ps : List CefExtension)
    → All (IsNamed cap) ps
    → skip_blanks (pairs_text ps) ≡ pairs_text ps
unfolding skip_blanks
skip_blanks-pairs cap [] h = refl
skip_blanks-pairs cap (p ∷ []) h = at_key p.key _ h.0.0.key_chars h.0.1
skip_blanks-pairs cap (p ∷ q ∷ ps) h = at_key p.key _ h.0.0.key_chars h.0.1

pairs_text-boundary :
    (cap : ℕ) (p : CefExtension) (ps : List CefExtension)
    → All (IsNamed cap) (p ∷ ps)
    → is_pair_boundary (pairs_text (p ∷ ps)) ≡ true
pairs_text-boundary cap p [] h = pair_boundary p.key _ h.0.0.key_chars h.0.1
pairs_text-boundary cap p (q ∷ ps) h = pair_boundary p.key _ h.0.0.key_chars h.0.1

skip_blanks-nil : skip_blanks [] ≡ []
unfolding skip_blanks
skip_blanks-nil = refl

skip_blank : (s : Bytes) → skip_blanks (b' ' ∷ s) ≡ skip_blanks s
unfolding skip_blanks
skip_blank s = refl

pairs_from-done :
    (opts : ParseOptions) (fuel : ℕ) (out : List CefExtension)
    → pairs_from opts (suc fuel) out [] ≡ some (record { state = good; out = out })
unfolding pairs_from
pairs_from-done opts fuel out = refl

pairs_from-text :
    (opts : ParseOptions) (ps : List CefExtension) (fuel : ℕ) (out : List CefExtension)
    → length ps < fuel
    → length out + length ps ≤ opts.max_extensions
    → All (IsNamed opts.max_field_bytes) ps
    → pairs_from opts fuel out (pairs_text ps) ≡ some (record { state = good; out = out ++ ps })
pairs_from-text opts ps zero out f m h = absurd (omega arith)
pairs_from-text opts [] (suc fuel) out f m h =
    pairs_from-done opts fuel out
    ∙ ap (λ x. some (record { state = good; out = x })) (sym (append-nil out))
pairs_from-text opts (p ∷ []) (suc zero) out f m h = absurd (omega arith)
pairs_from-text opts (p ∷ []) (suc (suc fuel)) out f m h =
    pair_step opts (suc fuel) out p [] h.0 (omega arith) tt
    ∙ ap (pairs_from opts (suc fuel) (out ++ p ∷ [])) skip_blanks-nil
    ∙ pairs_from-done opts fuel (out ++ p ∷ [])
pairs_from-text opts (p ∷ q ∷ ps) (suc fuel) out f m h =
    pair_step opts fuel out p (b' ' ∷ pairs_text (q ∷ ps)) h.0 (omega arith)
      (refl, pairs_text-boundary opts.max_field_bytes q ps h.1)
    ∙ ap (pairs_from opts fuel (out ++ p ∷ []))
        (skip_blank (pairs_text (q ∷ ps)) ∙ skip_blanks-pairs opts.max_field_bytes (q ∷ ps) h.1)
    ∙ pairs_from-text opts (q ∷ ps) fuel (out ++ p ∷ []) (omega arith)
        (omega (arith, length-append {0} out (p ∷ []))) h.1
    ∙ ap (λ x. some (record { state = good; out = x })) (append_assoc out (p ∷ []) (q ∷ ps))

length-pairs_text : (ps : List CefExtension) → length ps ≤ length (pairs_text ps)
length-pairs_text [] = omega arith
length-pairs_text (p ∷ []) =
    omega (arith, length-append {0} p.key (b'=' ∷ (write_value p.value ++ [])))
length-pairs_text (p ∷ q ∷ ps) = omega (
  arith,
  length-append {0} p.key (b'=' ∷ (write_value p.value ++ b' ' ∷ pairs_text (q ∷ ps))),
  length-append {0} (write_value p.value) (b' ' ∷ pairs_text (q ∷ ps)),
  length-pairs_text (q ∷ ps),
)

-- Named pairs within the limits, written with spaces between them and `=` and `\` escaped in their
-- values, are read back.
pub parse_extensions-pairs_text :
    (opts : ParseOptions) (ps : List CefExtension)
    → length ps ≤ opts.max_extensions
    → All (IsNamed opts.max_field_bytes) ps
    → parse_extensions opts (pairs_text ps) ≡ some (record { state = good; out = ps })
unfolding parse_extensions
parse_extensions-pairs_text opts ps m h =
    ap (pairs_from opts (suc (length (pairs_text ps))) [])
      (skip_blanks-pairs opts.max_field_bytes ps h)
    ∙ pairs_from-text opts ps (suc (length (pairs_text ps))) []
        (omega (arith, length-pairs_text ps)) (omega arith) h
