-- ===== src/Cef/Record.antt =====
-- `CefRecord` (include/cef/cef_record.hpp, src/cef/cef_record.cpp) and `ParseOptions`
-- (include/cef/parser.hpp).
use chrono_sift.Common.{
  ℕ, ◌^◌, Bool, true, false, ◌&&◌, ◌||◌, List, [], ◌∷◌, Option, none, some, leb, if◌then◌else◌,
  Bytes, codes, null, eqb,
}
use chrono_sift.Common.Int.{ℤ, pos}
use chrono_sift.Core.Chars.{is_digit}
use chrono_sift.Core.Text.{trim, to_lower}
use chrono_sift.Core.Number.{parse_u64}

pub record CefExtension : Type 0 where
  pub key : Bytes
  pub value : Bytes

pub record CefRecord : Type 0 where
  pub valid : Bool
  pub version : ℕ
  pub device_vendor : Bytes
  pub device_product : Bytes
  pub device_version : Bytes
  pub signature_id : Bytes
  pub name : Bytes
  pub severity : Bytes
  pub extensions : List CefExtension

pub record ParseOptions : Type 0 where
  pub assume_year : ℤ
  pub max_extensions : ℕ
  pub max_field_bytes : ℕ

-- `ParseOptions()`
abbrev pub default_options : ParseOptions
default_options = record { assume_year = pos 1970; max_extensions = 1024; max_field_bytes = 2 ^ 16 }

unfoldable pub find_ext : Bytes → List CefExtension → Option Bytes
find_ext key [] = none
find_ext key (e ∷ es) = let later = find_ext key es in if eqb e.key key then some e.value else later

-- `ext` and `has_ext`
unfoldable pub ext : CefRecord → Bytes → Bytes
ext r key = elim (find_ext key r.extensions) [ none ↦ [] | some v ↦ v ]

unfoldable pub has_ext : CefRecord → Bytes → Bool
has_ext r key = elim (find_ext key r.extensions) [ none ↦ false | some v ↦ true ]

unfoldable pub only_digits : Bytes → Bool
only_digits [] = true
only_digits (c ∷ s) = is_digit c && only_digits s

unfoldable pub number_band : Option ℕ → ℕ
number_band none = 2
number_band (some n) = if leb n 3 then 6 else if leb n 6 then 4 else if leb n 8 then 3 else 2

unfoldable pub word_band : Bytes → ℕ
word_band w =
    if eqb w (codes "low")
    then 6
    else if eqb w (codes "medium")
    then 4
    else if eqb w (codes "high")
    then 3
    else if eqb w (codes "very-high") || eqb w (codes "critical")
    then 2
    else 8

unfoldable pub normalized_severity : CefRecord → ℕ
normalized_severity r =
    let s = trim r.severity in
    if null s
    then 8
    else if only_digits s
    then number_band (parse_u64 s)
    else word_band (to_lower s)
