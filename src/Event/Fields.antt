-- ===== src/Event/Fields.antt =====
-- `FieldValue` and `FieldMap` (include/event/field.hpp, src/event/field.cpp). A double is its bit
-- pattern; the C library's `%g`, which renders one, is the parameter `format_g`.
pub mod Lookup
mod Examples
use chrono_sift.Common.{
  ℕ, Bool, true, false, List, [], ◌∷◌, ◌++◌, Option, none, some, if◌then◌else◌, Bytes, codes, eqb,
  length, null,
}
use chrono_sift.Common.Int.{ℤ}
use chrono_sift.Core.Number.{to_string_ℤ}

pub data FieldValue : Type 0 where
  empty : FieldValue
  text : Bytes → FieldValue
  int : ℤ → FieldValue
  double : ℕ → FieldValue
  bool : Bool → FieldValue

unfoldable pub value_string : (ℕ → Bytes) → FieldValue → Bytes
value_string format_g FieldValue.empty = []
value_string format_g (FieldValue.text s) = s
value_string format_g (FieldValue.int i) = to_string_ℤ i
value_string format_g (FieldValue.double d) = format_g d
value_string format_g (FieldValue.bool b) = if b then codes "true" else codes "false"

pub record Entry : Type 0 where
  pub key : Bytes
  pub value : FieldValue

abbrev pub FieldMap : Type 0
FieldMap = List Entry

-- `set`: the value of the first entry of that key is replaced in place, or a new entry appended.
unfoldable pub set : FieldMap → Bytes → FieldValue → FieldMap
set [] key value = record { key = key; value = value } ∷ []
set (e ∷ es) key value =
    if eqb e.key key then record e { value = value } ∷ es else e ∷ set es key value

-- `set_string` and `set_int`
abbrev pub set_string : FieldMap → Bytes → Bytes → FieldMap
set_string m key value = set m key (FieldValue.text value)

abbrev pub set_int : FieldMap → Bytes → ℤ → FieldMap
set_int m key value = set m key (FieldValue.int value)

unfoldable pub find : FieldMap → Bytes → Option FieldValue
find [] key = none
find (e ∷ es) key = let later = find es key in if eqb e.key key then some e.value else later

pub has : FieldMap → Bytes → Bool
has m key = elim (find m key) [ none ↦ false | some v ↦ true ]

unfoldable pub get_string : (ℕ → Bytes) → FieldMap → Bytes → Bytes → Bytes
get_string format_g m key fallback = elim (find m key) [
  | none ↦ fallback
  | some v ↦ value_string format_g v
]
