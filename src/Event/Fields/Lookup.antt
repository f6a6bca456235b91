-- ===== src/Event/Fields/Lookup.antt =====
-- `FieldMap` as a map that keeps its order.
use chrono_sift.Common.{
  All-append, Bool, true, false, List, [], ◌∷◌, ◌++◌, ◌≡◌, refl, sym, arith, some, if◌then◌else◌,
  Bytes, eqb, eqb_iff, eqb_refl, All, Bool-cases, inl, inr,
}
use chrono_sift.Event.Fields.{FieldValue, FieldMap, set, find, has}

abbrev pub keys : FieldMap → List Bytes
keys [] = []
keys (e ∷ es) = e.key ∷ keys es

-- No key twice.
abbrev pub HasUniqueKeys : List Bytes → Type 0
HasUniqueKeys [] = Unit
HasUniqueKeys (k ∷ ks) = All (λ j. eqb j k ≡ false) ks × HasUniqueKeys ks

eqb_sym_false : (a b : Bytes) → eqb a b ≡ false → eqb b a ≡ false
eqb_sym_false a b h = elim (Bool-cases (eqb b a)) [
  | inl same ↦
      let e : a ≡ b = sym ((eqb_iff b a).0 same) in
      absurd (ground (arith, eqb_refl b, h, e, eqb_iff a b))
  | inr other ↦ other
]

find-set :
    (m : FieldMap) (k j : Bytes) (v : FieldValue)
    → find (set m k v) j ≡ (if eqb k j then some v else find m j)
unfolding find set
find-set [] k j v = refl
find-set (e ∷ m) k j v =
    ground (arith, eqb_iff k j, eqb_iff e.key k, eqb_iff e.key j, find-set m k j v)

keys-set :
    (m : FieldMap) (k : Bytes) (v : FieldValue)
    → keys (set m k v) ≡ (if has m k then keys m else keys m ++ k ∷ [])
unfolding find set has
keys-set [] k v = refl
keys-set (e ∷ m) k v = elim (Bool-cases (eqb e.key k)) [
  | inl here ↦ ground arith
  | inr later ↦ ground (arith, keys-set m k v)
]

absent_key : (m : FieldMap) (k : Bytes) → has m k ≡ false → All (λ j. eqb j k ≡ false) (keys m)
unfolding find has
absent_key [] k h = tt
absent_key (e ∷ m) k h = elim (Bool-cases (eqb e.key k)) [
  | inl here ↦ absurd (ground arith)
  | inr later ↦ (later, absent_key m k (ground arith))
]

unique_snoc :
    (ks : List Bytes) (k : Bytes)
    → HasUniqueKeys ks
    → All (λ j. eqb j k ≡ false) ks
    → HasUniqueKeys (ks ++ k ∷ [])
unique_snoc [] k u h = (tt, tt)
unique_snoc (j ∷ ks) k u h = (
  All-append (λ i. eqb i j ≡ false) ks (k ∷ []) u.0 (eqb_sym_false j k h.0, tt),
  unique_snoc ks k u.1 h.1,
)

-- On a map in which no key stands twice, `set` changes what `find` returns for that key and for no
-- other; a key that is there keeps its place, a new one goes to the end, and no key comes to stand
-- twice.
pub set_lem :
    (m : FieldMap) (k : Bytes) (v : FieldValue)
    → HasUniqueKeys (keys m)
    → ((j : Bytes) → find (set m k v) j ≡ (if eqb k j then some v else find m j))
      × (keys (set m k v) ≡ (if has m k then keys m else keys m ++ k ∷ []))
      × HasUniqueKeys (keys (set m k v))
set_lem m k v u = (λ j. find-set m k j v, keys-set m k v, rw (keys-set m k v) (go (has m k) refl u))
  where
    go :
        (b : Bool)
        → has m k ≡ b
        → HasUniqueKeys (keys m)
        → HasUniqueKeys (if b then keys m else keys m ++ k ∷ [])
    go true e u = u
    go false e u = unique_snoc (keys m) k u (absent_key m k e)
