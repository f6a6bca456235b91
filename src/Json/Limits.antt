-- ===== src/Json/Limits.antt =====
-- What `JsonLimits` bounds in a value (include/jsonlog/json_parser.hpp).
use chrono_sift.Common.{
  eqb_refl, Bytes, ℕ, suc, ◌+◌, ◌≤◌, ◌≡◌, refl, false, inl, inr, Bool-cases, none, eqb, eqb_iff,
  max, arith, length,
}
use chrono_sift.Core.Number.Signed.{IsI64}
use chrono_sift.Json.Value.{
  JsonValue, Items, no_items, item, Members, no_members, member, push_item, set_in, find_in, depth,
  depth_items, depth_members,
}
use chrono_sift.Json.Scan.{JsonLimits}

abbrev pub count_items : Items → ℕ
count_items no_items = 0
count_items (item v xs) = suc (count_items xs)

abbrev pub count_members : Members → ℕ
count_members no_members = 0
count_members (member k v ms) = suc (count_members ms)

-- The number of values of a tree.
unfoldable mutual
  pub nodes : JsonValue → ℕ
  nodes (JsonValue.array xs) = suc (nodes_items xs)
  nodes (JsonValue.object ms) = suc (nodes_members ms)
  nodes _ = 1

  pub nodes_items : Items → ℕ
  nodes_items no_items = 0
  nodes_items (item v xs) = nodes v + nodes_items xs

  pub nodes_members : Members → ℕ
  nodes_members no_members = 0
  nodes_members (member k v ms) = nodes v + nodes_members ms

-- Integers in the range of `i64`, and everywhere few enough bytes, items and members, and no key
-- twice.
unfoldable mutual
  pub IsWithin : JsonLimits → JsonValue → Type 0
  IsWithin l (JsonValue.int i) = IsI64 i
  IsWithin l (JsonValue.string s) = length s ≤ l.max_string_bytes
  IsWithin l (JsonValue.array xs) = (count_items xs ≤ l.max_array_items) × AreWithin l xs
  IsWithin l (JsonValue.object ms) = (count_members ms ≤ l.max_object_members) × MembersWithin l ms
  IsWithin l _ = Unit

  pub AreWithin : JsonLimits → Items → Type 0
  AreWithin l no_items = Unit
  AreWithin l (item v xs) = IsWithin l v × AreWithin l xs

  pub MembersWithin : JsonLimits → Members → Type 0
  MembersWithin l no_members = Unit
  MembersWithin l (member k v ms) =
      (length k ≤ l.max_string_bytes) × (find_in ms k ≡ none) × IsWithin l v × MembersWithin l ms

pub count-push_item :
    (xs : Items) (v : JsonValue) → count_items (push_item xs v) ≡ suc (count_items xs)
unfolding push_item
count-push_item no_items v = refl
count-push_item (item w xs) v = rw (count-push_item xs v)

pub depth-push_item :
    (xs : Items) (v : JsonValue) → depth_items (push_item xs v) ≡ max (depth_items xs) (depth v)
unfolding push_item depth_items
depth-push_item no_items v = omega arith
depth-push_item (item w xs) v = rw (depth-push_item xs v) (omega arith)

pub nodes-push_item :
    (xs : Items) (v : JsonValue) → nodes_items (push_item xs v) ≡ nodes_items xs + nodes v
unfolding push_item nodes_items
nodes-push_item no_items v = omega arith
nodes-push_item (item w xs) v = rw (nodes-push_item xs v) (omega arith)

pub push_item-AreWithin :
    (l : JsonLimits) (xs : Items) (v : JsonValue)
    → AreWithin l xs
    → IsWithin l v
    → AreWithin l (push_item xs v)
unfolding push_item AreWithin
push_item-AreWithin l no_items v h hv = (hv, tt)
push_item-AreWithin l (item w xs) v h hv = (h.0, push_item-AreWithin l xs v h.1 hv)

pub count-set_in :
    (ms : Members) (k : Bytes) (v : JsonValue)
    → count_members (set_in ms k v) ≤ suc (count_members ms)
unfolding set_in
count-set_in no_members k v = omega arith
count-set_in (member j w ms) k v = ground (arith, count-set_in ms k v)

pub depth-set_in :
    (ms : Members) (k : Bytes) (v : JsonValue)
    → depth_members (set_in ms k v) ≤ max (depth_members ms) (depth v)
unfolding set_in depth_members
depth-set_in no_members k v = omega arith
depth-set_in (member j w ms) k v = elim (Bool-cases (eqb j k)) [
  | inl y ↦ rw y (omega arith)
  | inr n ↦ rw n (omega (arith, depth-set_in ms k v))
]

pub nodes-set_in :
    (ms : Members) (k : Bytes) (v : JsonValue)
    → nodes_members (set_in ms k v) ≤ nodes_members ms + nodes v
unfolding set_in nodes_members
nodes-set_in no_members k v = omega arith
nodes-set_in (member j w ms) k v = ground (arith, nodes-set_in ms k v)

-- The other keys stay absent.
find_in-set_in-none :
    (ms : Members) (k : Bytes) (v : JsonValue) (j : Bytes)
    → find_in ms j ≡ none
    → eqb k j ≡ false
    → find_in (set_in ms k v) j ≡ none
unfolding set_in find_in
find_in-set_in-none no_members k v j h n = rw n
find_in-set_in-none (member i w ms) k v j h n =
    ground (arith, find_in-set_in-none ms k v j, eqb_iff i k, n)

eqb-false : (a b : Bytes) → eqb a b ≡ false → eqb b a ≡ false
eqb-false a b h = elim (Bool-cases (eqb b a)) [
  | inl y ↦ cc ((eqb_iff b a).0 y, eqb_refl b)
  | inr n ↦ n
]

pub set_in-MembersWithin :
    (l : JsonLimits) (ms : Members) (k : Bytes) (v : JsonValue)
    → MembersWithin l ms
    → length k ≤ l.max_string_bytes
    → IsWithin l v
    → MembersWithin l (set_in ms k v)
unfolding set_in MembersWithin find_in
set_in-MembersWithin l no_members k v h hk hv = (hk, refl, hv, tt)
set_in-MembersWithin l (member j w ms) k v h hk hv = elim (Bool-cases (eqb j k)) [
  | inl y ↦ rw y (h.0, h.1, hv, h.3)
  | inr n ↦ rw n (
    h.0,
    find_in-set_in-none ms k v j h.1 (eqb-false j k n),
    h.2,
    set_in-MembersWithin l ms k v h.3 hk hv,
  )
]
