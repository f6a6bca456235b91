-- ===== src/Json/Parser/Objects.antt =====
-- `parse_object` ends, within the limits.
use chrono_sift.Common.{
  read, not, codes, ℕ, zero, suc, ◌+◌, ◌≤◌, ◌<◌, refl, inl, inr, Bool-cases, [], ◌∷◌, some, arith,
  length, Bytes, Read, leb, ◌==◌, if◌then◌else◌,
}
use chrono_sift.Core.Status.{Result, success, failure}
use chrono_sift.Json.Value.{JsonValue, Members, no_members, depth, depth_members, set_in}
use chrono_sift.Json.Limits.{
  nodes-set_in, depth-set_in, count-set_in, set_in-MembersWithin, IsWithin, MembersWithin, nodes,
  nodes_members, count_members,
}
use chrono_sift.Json.Scan.{malformed, JsonLimits, skip_ws}
use chrono_sift.Json.Scan.Took.{Ends, length-skip_ws}
use chrono_sift.Json.Scan.Strings.{Short, parse_string-Ends}
use chrono_sift.Json.Parser.{
  parse_string, over_limit, Outcome, ◌>>=◌, Parsed, parsed, Child, Next, more, closed, after_member,
  after_key, parse_key, object_from, parse_object,
}
use chrono_sift.Json.Parser.Gives.{
  IsParsed, Holds, Gives, NextWithin, bind-Gives, after_child-Holds,
}

-- A key within the limit, and at most `n` bytes behind it.
abbrev KeyRead : JsonLimits → ℕ → Read Bytes → Type 0
KeyRead l n k = (length k.got ≤ l.max_string_bytes) × (length k.rest ≤ n)

after_key-Holds :
    (l : JsonLimits) (child : Child) (n : ℕ) (k : Read Bytes)
    → KeyRead l n k
    → Holds (KeyRead l n) (after_key l child k)
unfolding after_key
after_key-Holds l child n k h = behind (skip_ws k.rest) (length-skip_ws k.rest)
  where
    behind :
        (w : Bytes)
        → length w ≤ length k.rest
        → Holds (KeyRead l n) (elim w as (λ x. Result (Read Bytes)) [
          | [] ↦ malformed (codes "expected ':' after object key")
          | c ∷ u ↦
              if not (c == b':')
              then malformed (codes "expected ':' after object key")
              else success (read k.got u)
        ])
    behind [] le = inl refl
    behind (c ∷ u) le = elim (Bool-cases (c == b':')) [
      | inl y ↦ rw y (h.0, omega (arith, h.1))
      | inr m ↦ rw m (inl refl)
    ]

string-Gives : (l : JsonLimits) (s : Bytes) → Gives (KeyRead l (length s)) (parse_string l s)
string-Gives l s = go (parse_string-Ends l s)
  where
    go :
        Ends (Short l.max_string_bytes) (length s) (parse_string l s)
        → Gives (KeyRead l (length s)) (parse_string l s)
    go (failure st, e, h) = (failure st, e, h)
    go (success r, e, h) = (success r, e, h)

parse_key-Gives :
    (l : JsonLimits) (child : Child) (s : Bytes)
    → Gives (KeyRead l (length s)) (parse_key l child s)
unfolding parse_key
parse_key-Gives l child s = at_key (skip_ws s) (length-skip_ws s)
  where
    at_key :
        (w : Bytes)
        → length w ≤ length s
        → Gives (KeyRead l (length s)) (elim w as (λ x. Outcome (Read Bytes)) [
          | [] ↦ some (malformed (codes "expected string key in object"))
          | c ∷ t ↦
              if not (c == b'"')
              then some (malformed (codes "expected string key in object"))
              else (parse_string l t >>= λ k. some (after_key l child k))
        ])
    at_key [] le = (malformed _, refl, inl refl)
    at_key (c ∷ t) le = elim (Bool-cases (c == b'"')) [
      | inr m ↦ rw m (malformed _, refl, inl refl)
      | inl y ↦ rw y (
          bind-Gives (KeyRead l (length t)) _ (parse_string l t) _ (string-Gives l t) λ k hk. (
            after_key l child k,
            refl,
            after_key-Holds l child (length s) k (hk.0, omega (arith, hk.1)),
          ))
    ]

module _ (l : JsonLimits) (d : ℕ) (small : d ≤ l.max_depth) (child : Child)
    (ih : (total : ℕ) (s : Bytes)
      → Gives (IsParsed l (suc d) total (length s)) (child total s)) where
  -- An object under construction, whose own value was counted after `total0`.
  record IsPartObject (total0 total : ℕ) (ms : Members) : Type 0 where
    within : MembersWithin l ms
    deep : depth_members ms + suc d ≤ suc l.max_depth
    counted : suc (total0 + nodes_members ms) ≤ total
    bounded : total ≤ l.max_total_values

  set_in-IsPartObject :
      (total0 total n : ℕ) (ms : Members) (k : Bytes) (r : Parsed)
      → IsPartObject total0 total ms
      → length k ≤ l.max_string_bytes
      → IsParsed l (suc d) total n r
      → IsPartObject total0 r.total (set_in ms k r.value)
  set_in-IsPartObject total0 total n ms k r i hk h = record {
    within = set_in-MembersWithin l ms k r.value i.within hk h.0;
    deep = omega (arith, depth-set_in ms k r.value, i.deep, h.1);
    counted = omega (arith, nodes-set_in ms k r.value, i.counted, h.2);
    bounded = h.3;
  }

  object-IsParsed :
      (total0 total : ℕ) (ms : Members) (t : Bytes) (n : ℕ)
      → IsPartObject total0 total ms
      → count_members ms ≤ l.max_object_members
      → length t ≤ n
      → IsParsed l d total0 n (parsed (JsonValue.object ms) total t)
  unfolding IsWithin depth nodes
  object-IsParsed total0 total ms t n i c h =
      ((c, i.within), omega (arith, i.deep), omega (arith, i.counted), i.bounded, h)

  -- What the loop gives on this fuel.
  abbrev ObjectGives : ℕ → Type 0
  ObjectGives fuel =
      (count : ℕ) (ms : Members) (total : ℕ) (s : Bytes) (total0 n : ℕ)
      → length s < fuel
      → length s ≤ n
      → count_members ms ≤ count
      → IsPartObject total0 total ms
      → Gives (IsParsed l d total0 n) (object_from l child fuel count ms total s)

  next_member :
      (fuel count : ℕ) (ms : Members) (key : Bytes) (total m total0 n : ℕ) (k : Next) (r : Parsed)
      → ObjectGives fuel
      → m ≤ fuel
      → m ≤ n
      → count_members ms ≤ count
      → count < l.max_object_members
      → length key ≤ l.max_string_bytes
      → IsPartObject total0 total ms
      → IsParsed l (suc d) total m r
      → NextWithin (length r.rest) k
      → Gives (IsParsed l d total0 n) (elim k as (λ x. Outcome Parsed) [
        | closed t ↦ some (success (parsed (JsonValue.object (set_in ms key r.value)) r.total t))
        | more t ↦ object_from l child fuel (suc count) (set_in ms key r.value) r.total t
      ])
  next_member fuel count ms key total m total0 n (closed t) r ih' hf hn c room short i hr hk = (
    success _,
    refl,
    object-IsParsed total0 r.total (set_in ms key r.value) t n
        (set_in-IsPartObject total0 total m ms key r i short hr)
        (omega (arith, count-set_in ms key r.value)) (omega (arith, hr.4)),
  )
  next_member fuel count ms key total m total0 n (more t) r ih' hf hn c room short i hr hk =
      ih' (suc count) (set_in ms key r.value) r.total t total0 n (omega (arith, hr.4))
        (omega (arith, hr.4)) (omega (arith, count-set_in ms key r.value))
        (set_in-IsPartObject total0 total m ms key r i short hr)

  object_from-Gives : (fuel : ℕ) → ObjectGives fuel
  unfolding object_from after_member
  object_from-Gives zero count ms total s total0 n h le c i = absurd (omega arith)
  object_from-Gives (suc fuel) count ms total s total0 n h le c i =
      elim (Bool-cases (leb l.max_object_members count)) [
        | inl y ↦ rw (y, object_from) (over_limit _, refl, inr (inr refl))
        | inr room ↦
            rw (room, object_from)
              (bind-Gives (KeyRead l (length s)) _ (parse_key l child s) _
                (parse_key-Gives l child s)
                λ key hq.
                  bind-Gives (IsParsed l (suc d) total (length key.rest)) _ (child total key.rest) _
                    (ih total key.rest)
                    λ r hr.
                      bind-Gives (NextWithin (length r.rest)) _ (some (after_member r.rest)) _
                        (after_member r.rest, refl, after_child-Holds b'}' _ _ _ r.rest)
                        λ k hk.
                          next_member fuel count ms key.got total (length key.rest) total0 n k r
                            (object_from-Gives fuel) (omega (arith, hq.1)) (omega (arith, hq.1)) c
                            (ground arith) hq.0 i hr hk)
      ]

  pub parse_object-Gives :
      (total : ℕ) (s : Bytes)
      → suc total ≤ l.max_total_values
      → Gives (IsParsed l d total (length s)) (parse_object l child (suc total) s)
  unfolding parse_object
  parse_object-Gives total s h = at_start (skip_ws s) (length-skip_ws s)
    where
      start : IsPartObject total (suc total) no_members
      start =
          unfold MembersWithin depth nodes in
          record { within = tt; deep = omega arith; counted = omega arith; bounded = h }

      at_start :
          (w : Bytes)
          → length w ≤ length s
          → Gives (IsParsed l d total (length s)) (elim w as (λ x. Outcome Parsed) [
            | [] ↦ object_from l child 1 0 no_members (suc total) []
            | c ∷ t ↦
                if c == b'}'
                then some (success (parsed (JsonValue.object no_members) (suc total) t))
                else object_from l child (suc (length (c ∷ t))) 0 no_members (suc total) (c ∷ t)
          ])
      at_start [] k =
          object_from-Gives 1 0 no_members (suc total) [] total (length s) (omega arith) k
            (omega arith) start
      at_start (c ∷ t) k = elim (Bool-cases (c == b'}')) [
        | inl y ↦ rw y (
          success _,
          refl,
          object-IsParsed total (suc total) no_members t (length s) start (omega arith)
              (omega arith),
        )
        | inr n ↦ rw n (
            object_from-Gives (suc (suc (length t))) 0 no_members (suc total) (c ∷ t) total
              (length s) (omega arith) k (omega arith) start)
      ]
