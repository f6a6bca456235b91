-- ===== src/Json/Parser/Arrays.antt =====
-- `parse_array` ends, within the limits.
use chrono_sift.Common.{
  ℕ, zero, suc, ◌+◌, ◌≤◌, ◌<◌, ◌≡◌, refl, inl, inr, Bool-cases, [], ◌∷◌, some, arith, length, Bytes,
  leb, ◌==◌, if◌then◌else◌,
}
use chrono_sift.Core.Status.{success}
use chrono_sift.Json.Value.{JsonValue, Items, no_items, depth, depth_items, push_item}
use chrono_sift.Json.Limits.{
  count-push_item, nodes-push_item, depth-push_item, push_item-AreWithin, IsWithin, AreWithin,
  nodes, nodes_items, count_items,
}
use chrono_sift.Json.Scan.{JsonLimits, skip_ws}
use chrono_sift.Json.Scan.Took.{length-skip_ws}
use chrono_sift.Json.Parser.{
  over_limit, Outcome, Parsed, parsed, Child, Next, more, closed, after_element, array_from,
  parse_array,
}
use chrono_sift.Json.Parser.Gives.{IsParsed, Gives, NextWithin, bind-Gives, after_child-Holds}

module _ (l : JsonLimits) (d : ℕ) (small : d ≤ l.max_depth) (child : Child)
    (ih : (total : ℕ) (s : Bytes)
      → Gives (IsParsed l (suc d) total (length s)) (child total s)) where
  -- An array under construction, whose own value was counted after `total0`.
  record IsPartArray (total0 total : ℕ) (xs : Items) : Type 0 where
    within : AreWithin l xs
    deep : depth_items xs + suc d ≤ suc l.max_depth
    counted : suc (total0 + nodes_items xs) ≤ total
    bounded : total ≤ l.max_total_values

  push_item-IsPartArray :
      (total0 total n : ℕ) (xs : Items) (r : Parsed)
      → IsPartArray total0 total xs
      → IsParsed l (suc d) total n r
      → IsPartArray total0 r.total (push_item xs r.value)
  push_item-IsPartArray total0 total n xs r i h = record {
    within = push_item-AreWithin l xs r.value i.within h.0;
    deep = omega (arith, depth-push_item xs r.value, i.deep, h.1);
    counted = omega (arith, nodes-push_item xs r.value, i.counted, h.2);
    bounded = h.3;
  }

  array-IsParsed :
      (total0 total : ℕ) (xs : Items) (t : Bytes) (n : ℕ)
      → IsPartArray total0 total xs
      → count_items xs ≤ l.max_array_items
      → length t ≤ n
      → IsParsed l d total0 n (parsed (JsonValue.array xs) total t)
  unfolding IsWithin depth nodes
  array-IsParsed total0 total xs t n i c h =
      ((c, i.within), omega (arith, i.deep), omega (arith, i.counted), i.bounded, h)

  -- What the loop gives on this fuel.
  abbrev ArrayGives : ℕ → Type 0
  ArrayGives fuel =
      (count : ℕ) (xs : Items) (total : ℕ) (s : Bytes) (total0 n : ℕ)
      → length s < fuel
      → length s ≤ n
      → count ≡ count_items xs
      → IsPartArray total0 total xs
      → Gives (IsParsed l d total0 n) (array_from l child fuel count xs total s)

  next_element :
      (fuel count : ℕ) (xs : Items) (total m total0 n : ℕ) (k : Next) (r : Parsed)
      → ArrayGives fuel
      → m ≤ fuel
      → m ≤ n
      → count ≡ count_items xs
      → count < l.max_array_items
      → IsPartArray total0 total xs
      → IsParsed l (suc d) total m r
      → NextWithin (length r.rest) k
      → Gives (IsParsed l d total0 n) (elim k as (λ x. Outcome Parsed) [
        | closed t ↦ some (success (parsed (JsonValue.array (push_item xs r.value)) r.total t))
        | more t ↦ array_from l child fuel (suc count) (push_item xs r.value) r.total t
      ])
  next_element fuel count xs total m total0 n (closed t) r ih' hf hn c room i hr hk = (
    success _,
    refl,
    array-IsParsed total0 r.total (push_item xs r.value) t n
        (push_item-IsPartArray total0 total m xs r i hr) (omega (arith, count-push_item xs r.value))
        (omega (arith, hr.4)),
  )
  next_element fuel count xs total m total0 n (more t) r ih' hf hn c room i hr hk =
      ih' (suc count) (push_item xs r.value) r.total t total0 n (omega (arith, hr.4))
        (omega (arith, hr.4)) (omega (arith, count-push_item xs r.value))
        (push_item-IsPartArray total0 total m xs r i hr)

  array_from-Gives : (fuel : ℕ) → ArrayGives fuel
  unfolding array_from after_element
  array_from-Gives zero count xs total s total0 n h le c i = absurd (omega arith)
  array_from-Gives (suc fuel) count xs total s total0 n h le c i =
      elim (Bool-cases (leb l.max_array_items count)) [
        | inl y ↦ rw (y, array_from) (over_limit _, refl, inr (inr refl))
        | inr room ↦
            rw (room, array_from)
              (bind-Gives (IsParsed l (suc d) total (length s)) _ (child total s) _ (ih total s)
                λ r hr.
                  bind-Gives (NextWithin (length r.rest)) _ (some (after_element r.rest)) _
                    (after_element r.rest, refl, after_child-Holds b']' _ _ _ r.rest)
                    λ k hk.
                      next_element fuel count xs total (length s) total0 n k r
                        (array_from-Gives fuel) (omega arith) le c (ground arith) i hr hk)
      ]

  pub parse_array-Gives :
      (total : ℕ) (s : Bytes)
      → suc total ≤ l.max_total_values
      → Gives (IsParsed l d total (length s)) (parse_array l child (suc total) s)
  unfolding parse_array
  parse_array-Gives total s h = at_start (skip_ws s) (length-skip_ws s)
    where
      start : IsPartArray total (suc total) no_items
      start =
          unfold AreWithin depth nodes in
          record { within = tt; deep = omega arith; counted = omega arith; bounded = h }

      at_start :
          (w : Bytes)
          → length w ≤ length s
          → Gives (IsParsed l d total (length s)) (elim w as (λ x. Outcome Parsed) [
            | [] ↦ array_from l child 1 0 no_items (suc total) []
            | c ∷ t ↦
                if c == b']'
                then some (success (parsed (JsonValue.array no_items) (suc total) t))
                else array_from l child (suc (length (c ∷ t))) 0 no_items (suc total) (c ∷ t)
          ])
      at_start [] k =
          array_from-Gives 1 0 no_items (suc total) [] total (length s) (omega arith) k refl start
      at_start (c ∷ t) k = elim (Bool-cases (c == b']')) [
        | inl y ↦ rw y (
          success _,
          refl,
          array-IsParsed total (suc total) no_items t (length s) start (omega arith) (omega arith),
        )
        | inr n ↦ rw n (
            array_from-Gives (suc (suc (length t))) 0 no_items (suc total) (c ∷ t) total (length s)
              (omega arith) k refl start)
      ]
