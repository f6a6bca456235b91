-- ===== src/Json/RoundTrip/Arrays.antt =====
-- The loop of `parse_array` over rendered elements.
use chrono_sift.Common.{
  ℕ, zero, suc, ◌+◌, ◌≤◌, ◌<◌, ◌≡◌, refl, ◌∙◌, ap, sym, false, ◌∷◌, ◌++◌, some, arith, length,
  length-append, Bytes, leb,
}
use chrono_sift.Core.Chars.{is_digit}
use chrono_sift.Core.Status.{success}
use chrono_sift.Json.Value.{
  JsonValue, Items, no_items, item, Floats, render, render_items, push_item, depth, depth_items,
}
use chrono_sift.Json.Limits.{IsWithin, AreWithin, count_items, nodes, nodes_items}
use chrono_sift.Json.Scan.{JsonLimits, skip_ws}
use chrono_sift.Json.Parser.{Child, parsed, parse_value, array_from, parse_array}
use chrono_sift.Json.RoundTrip.Numbers.{Stopped}
use chrono_sift.Json.RoundTrip.Texts.{
  IsPlain, ArePlain, skip_ws-first, StartsValue, render-StartsValue, after_element-closed,
  after_element-more, append_items, append_items_lem, array_text, more_items_text,
}
use chrono_sift.Json.RoundTrip.Steps.{HasRoom, parse_value-at, value_at-array, ReadsBack}

module _ (l : JsonLimits) (fl : Floats) where
  -- Where the array's text goes on behind its first element.
  abbrev items_tail : Items → Bytes → Bytes
  items_tail ys rest = render_items fl false ys ++ b']' ∷ rest

  items_tail-Stopped : (ys : Items) (rest : Bytes) → Stopped (items_tail ys rest)
  unfolding render_items is_digit
  items_tail-Stopped no_items rest = (refl, refl, refl)
  items_tail-Stopped (item v ys) rest = (refl, refl, refl)

  -- An element in front of the end of its array.
  element-last :
      (fuel d f count total : ℕ) (xs : Items) (v : JsonValue) (rest : Bytes)
      → ReadsBack l fl v
      → IsWithin l v
      → IsPlain v
      → HasRoom l fl fuel (suc d) total (depth v) (nodes v)
      → count < l.max_array_items
      → array_from l
          (parse_value l fl fuel (suc d))
          (suc f)
          count
          xs
          total
          (render fl v ++ items_tail no_items rest)
        ≡ some (success (parsed (JsonValue.array (push_item xs v)) (total + nodes v) rest))
  unfolding array_from render_items
  element-last fuel d f count total xs v rest ih w p r h =
      let a : leb l.max_array_items count ≡ false = ground arith in
      rw (a, array_from)
        (rw (ih fuel (suc d) total (b']' ∷ rest) w p r (unfold is_digit in (refl, refl, refl)))
          (rw (after_element-closed rest)))

  -- An element in front of another one.
  element-more :
      (fuel d f count total : ℕ) (xs : Items) (v u : JsonValue) (ys : Items) (rest : Bytes)
      → ReadsBack l fl v
      → IsWithin l v
      → IsPlain v
      → IsWithin l u
      → IsPlain u
      → HasRoom l fl fuel (suc d) total (depth v) (nodes v)
      → count < l.max_array_items
      → array_from l
          (parse_value l fl fuel (suc d))
          (suc f)
          count
          xs
          total
          (render fl v ++ items_tail (item u ys) rest)
        ≡ array_from l
            (parse_value l fl fuel (suc d))
            f
            (suc count)
            (push_item xs v)
            (total + nodes v)
            (render fl u ++ items_tail ys rest)
  unfolding array_from
  element-more fuel d f count total xs v u ys rest ih w p wu pu r h =
      let a : leb l.max_array_items count ≡ false = ground arith in
      let t = render fl u ++ (render_items fl false ys ++ b']' ∷ rest) in
      rw (more_items_text fl u ys (b']' ∷ rest)) (
        rw (a, array_from)
          (rw (ih fuel (suc d) total (b',' ∷ t) w p r (unfold is_digit in (refl, refl, refl)))
            (rw (after_element-more t (render-StartsValue l fl u _ wu pu)))))

  -- The loop reads a non-empty sequence of elements.
  abbrev pub ItemsRead : Items → Type 0
  ItemsRead no_items = Unit
  ItemsRead (item v ys) =
      (fuel d f count total : ℕ) (xs : Items) (rest : Bytes)
      → AreWithin l (item v ys)
      → ArePlain (item v ys)
      → HasRoom l fl fuel (suc d) total (depth_items (item v ys)) (nodes_items (item v ys))
      → count_items (item v ys) ≤ f
      → count + count_items (item v ys) ≤ l.max_array_items
      → array_from l (parse_value l fl fuel (suc d)) f count xs total
          (render fl v ++ items_tail ys rest)
        ≡ some (
            success (
              parsed (JsonValue.array (append_items xs (item v ys)))
                (total + nodes_items (item v ys)) rest))

  pub ItemsRead-cons :
      (v : JsonValue) (ys : Items) → ReadsBack l fl v → ItemsRead ys → ItemsRead (item v ys)
  unfolding AreWithin ArePlain depth nodes
  ItemsRead-cons v ys hv hys fuel d zero count total xs rest w p r hf hc = absurd (omega arith)
  ItemsRead-cons v no_items hv hys fuel d (suc f) count total xs rest w p r hf hc =
      element-last fuel d f count total xs v rest hv w.0 p.0
        (record {
          deep = omega (arith, r.deep);
          fueled = omega (arith, r.fueled);
          counted = omega (arith, r.counted);
        })
        (omega arith)
      ∙ ap (λ n. some (success (parsed (JsonValue.array (push_item xs v)) n rest))) (omega arith)
  ItemsRead-cons v (item u ys) hv hys fuel d (suc f) count total xs rest w p r hf hc =
      element-more fuel d f count total xs v u ys rest hv w.0 p.0 w.1.0 p.1.0
        (record {
          deep = omega (arith, r.deep);
          fueled = omega (arith, r.fueled);
          counted = omega (arith, r.counted);
        })
        (omega arith)
      ∙ hys fuel d f (suc count) (total + nodes v) (push_item xs v) rest w.1 p.1
          (record {
            deep = omega (arith, r.deep);
            fueled = omega (arith, r.fueled);
            counted = omega (arith, r.counted);
          })
          (omega arith) (omega arith)
      ∙ ap
          (λ n.
            some (success (parsed (JsonValue.array (append_items xs (item v (item u ys)))) n rest)))
          (omega arith)

  parse_array-start :
      (child : Child) (total : ℕ) (t : Bytes)
      → StartsValue t
      → parse_array l child total t ≡ array_from l child (suc (length t)) 0 no_items total t
  unfolding parse_array
  parse_array-start child total t (c, s, e, (w, b)) =
      ap (parse_array l child total) e
      ∙ go
      ∙ ap (λ x. array_from l child (suc (length x)) 0 no_items total x) (sym e)
    where
      go :
          parse_array l child total (c ∷ s)
          ≡ array_from l child (suc (length (c ∷ s))) 0 no_items total (c ∷ s)
      go = rw (skip_ws-first c s w, parse_array) (rw b)

  parse_array-empty :
      (child : Child) (total : ℕ) (rest : Bytes)
      → parse_array l child total (b']' ∷ rest)
        ≡ some (success (parsed (JsonValue.array no_items) total rest))
  unfolding parse_array skip_ws
  parse_array-empty child total rest = refl

  length-items_tail : (ys : Items) (rest : Bytes) → count_items ys ≤ length (items_tail ys rest)
  unfolding render_items
  length-items_tail no_items rest = omega arith
  length-items_tail (item v ys) rest = omega (
    arith,
    length-items_tail ys rest,
    length-append {0} (render fl v ++ render_items fl false ys) (b']' ∷ rest),
    length-append {0} (render fl v) (render_items fl false ys),
    length-append {0} (render_items fl false ys) (b']' ∷ rest),
  )

  pub array-ReadsBack : (xs : Items) → ItemsRead xs → ReadsBack l fl (JsonValue.array xs)
  unfolding render IsWithin AreWithin IsPlain ArePlain depth nodes
  array-ReadsBack xs h zero d total rest w p r k = absurd (omega (arith, r.fueled))
  array-ReadsBack no_items h (suc f) d total rest w p r k =
      parse_value-at l fl f d total b'[' _ (omega (arith, r.deep)) (omega (arith, r.counted)) refl
      ∙ value_at-array l fl (parse_value l fl f (suc d)) (suc total) _
      ∙ parse_array-empty (parse_value l fl f (suc d)) (suc total) rest
      ∙ ap (λ n. some (success (parsed (JsonValue.array no_items) n rest))) (omega arith)
  array-ReadsBack (item v ys) h (suc f) d total rest w p r k =
      let child = parse_value l fl f (suc d) in
      let t = render fl v ++ items_tail ys rest in
      parse_value-at l fl f d total b'[' _ (omega (arith, r.deep)) (omega (arith, r.counted)) refl
      ∙ value_at-array l fl child (suc total) _
      ∙ ap (parse_array l child (suc total)) (array_text fl v ys rest)
      ∙ parse_array-start child (suc total) t (render-StartsValue l fl v _ w.1.0 p.0)
      ∙ h f d (suc (length t)) 0 (suc total) no_items rest w.1 p
          (record {
            deep = omega (arith, r.deep);
            fueled = omega (arith, r.fueled);
            counted = omega (arith, r.counted);
          })
          (omega (
            arith,
            length-append {0} (render fl v) (items_tail ys rest),
            length-items_tail ys rest,
          ))
          (omega (arith, w.0))
      ∙ ap
          (λ x.
            some (success (parsed (JsonValue.array x) (suc total + nodes_items (item v ys)) rest)))
          (append_items_lem (item v ys))
      ∙ ap (λ n. some (success (parsed (JsonValue.array (item v ys)) n rest))) (omega arith)
