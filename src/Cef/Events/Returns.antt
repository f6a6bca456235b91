-- ===== src/Cef/Events/Returns.antt =====
-- `parse_line` ends, and calls no line empty but the empty one.
use chrono_sift.Common.{
  ℕ, suc, ◌+◌, ◌≡◌, refl, true, List, [], ◌∷◌, ◌++◌, some, none, Option, Bytes, null, zero, false,
  ◌==◌, drop, Bool-cases, Option-cases, inl, inr, Read, read, codes,
}
use chrono_sift.Core.Status.{Result, success, failure, StatusCode, status}
use chrono_sift.Core.Text.{find}
use chrono_sift.Cef.Record.{CefRecord, ParseOptions}
use chrono_sift.Cef.Header.{
  split_header, fields_from, field_from, with_fields, after_version, marker, read_version,
}
use chrono_sift.Core.Number.{parse_u64}
use chrono_sift.Cef.Extensions.{Pairs, parse_extensions}
use chrono_sift.Cef.Extensions.Bounds.{parse_extensions_lem}
use chrono_sift.Cef.Events.{number_or_zero, record_of, parse_line, is_empty_code}

-- The code of a failure, if there is one, is not that of an empty line.
abbrev pub IsLoud {ℓ} : {A : Type ℓ} → Result A → Type 0
IsLoud (success a) = Unit
IsLoud (failure st) = is_empty_code st.code ≡ false

fields_from-IsLoud :
    (cap k : ℕ) (fields : List Bytes) (s : Bytes) → IsLoud (fields_from cap k fields s)
unfolding fields_from
fields_from-IsLoud cap zero fields s = tt
fields_from-IsLoud cap (suc zero) fields s = tt
fields_from-IsLoud cap (suc (suc k)) fields s =
    let r = field_from cap [] s in
    elim (Bool-cases (null r.rest)) [
      | inl y ↦ rw y refl
      | inr n ↦ rw n (fields_from-IsLoud cap (suc k) (fields ++ r.got ∷ []) (drop 1 r.rest))
    ]

with_fields-IsLoud :
    (cap : ℕ) (r : Result (Read (List Bytes))) → IsLoud r → IsLoud (with_fields cap r)
with_fields-IsLoud cap (success r) h = tt
with_fields-IsLoud cap (failure st) h = h

after_version-IsLoud : (cap got : ℕ) (t : Bytes) → IsLoud (after_version cap (read got t))
after_version-IsLoud cap got [] = refl
after_version-IsLoud cap got (c ∷ s) = elim (Bool-cases (c == b'|')) [
  | inl y ↦ rw y (with_fields-IsLoud cap _ (fields_from-IsLoud cap _ _ s))
  | inr n ↦ rw n refl
]

split_header-IsLoud : (opts : ParseOptions) (line : Bytes) → IsLoud (split_header opts line)
unfolding split_header
split_header-IsLoud opts line = elim (Option-cases (find marker line)) [
  | inl n ↦ rw (n, IsLoud) refl
  | inr (i, e) ↦
      let w = read_version (drop (i + 4) line) in
      rw (e, IsLoud) (after_version-IsLoud opts.max_field_bytes w.got w.rest)
]

abbrev pub Returns : Option (Result CefRecord) → Type 0
Returns o = (r : Result CefRecord) × (o ≡ some r) × IsLoud r

extended :
    (o : Option Pairs) (p : Pairs)
    → o ≡ some p
    → (f : Pairs → CefRecord)
    → Returns
        (elim o as (λ x. Option (Result CefRecord)) [ none ↦ none | some q ↦ some (success (f q)) ])
extended none p e f = cc
extended (some q) p e f = (success (f q), refl, tt)

record_of-Returns : (opts : ParseOptions) (f : List Bytes) → Returns (record_of opts f)
unfolding record_of
record_of-Returns opts
      (version ∷ vendor ∷ product ∷ device ∷ signature ∷ name ∷ severity ∷ ext ∷ more) =
    let (p, e, k) = parse_extensions_lem opts ext in
    extended (parse_extensions opts ext) p e λ q. record {
      valid = true;
      version = number_or_zero (parse_u64 version);
      device_vendor = vendor;
      device_product = product;
      device_version = device;
      signature_id = signature;
      name = name;
      severity = severity;
      extensions = q.out;
    }
record_of-Returns opts _ = (failure _, refl, refl)

pub parse_line-nil :
    (opts : ParseOptions)
    → parse_line opts [] ≡ some (failure (status StatusCode.empty (codes "empty cef line")))
unfolding parse_line
parse_line-nil opts = refl

pub parse_line-Returns :
    (opts : ParseOptions) (c : ℕ) (line : Bytes) → Returns (parse_line opts (c ∷ line))
unfolding parse_line
parse_line-Returns opts c line =
    go (split_header opts (c ∷ line)) (split_header-IsLoud opts (c ∷ line))
  where
    go :
        (h : Result (List Bytes))
        → IsLoud h
        → Returns (elim h as (λ x. Option (Result CefRecord)) [
          | failure st ↦ some (failure st)
          | success f ↦ record_of opts f
        ])
    go (failure st) l = (failure st, refl, l)
    go (success f) l = record_of-Returns opts f
