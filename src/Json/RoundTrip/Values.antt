-- ===== src/Json/RoundTrip/Values.antt =====
-- `JsonParser::parse` reads back what `render_compact` writes.
use chrono_sift.Common.Int.{ℤ}
use chrono_sift.Core.Text.{starts_with}
use chrono_sift.Common.{
  null as is_empty, codes, eqb, ℕ, zero, suc, ◌+◌, ◌≤◌, ◌≡◌, refl, ◌∙◌, ap, sym, true, false, ◌||◌,
  [], ◌∷◌, ◌++◌, some, arith, length, append_assoc, append-nil, Bytes, read, ◌==◌, leb,
}
use chrono_sift.Core.Chars.{is_digit}
use chrono_sift.Core.Status.{success}
use chrono_sift.Json.Value.{
  JsonValue, Items, no_items, item, Members, no_members, member, Floats, render, json_quoted,
  quoted_body, depth,
}
use chrono_sift.Json.Limits.{IsWithin, nodes}
use chrono_sift.Json.Scan.{parse_number, JsonLimits, is_ws, skip_ws}
use chrono_sift.Json.Parser.{Child, parsed, value_at, parse_value, literal, finish, parse}
use chrono_sift.Json.RoundTrip.Strings.{parse_string-quoted_body}
use chrono_sift.Json.RoundTrip.Numbers.{render_int-first, parse_number-render_int}
use chrono_sift.Json.RoundTrip.Texts.{IsPlain, skip_ws-first, render-first}
use chrono_sift.Json.RoundTrip.Steps.{HasRoom, parse_value-at, ReadsBack}
use chrono_sift.Json.RoundTrip.Arrays.{ItemsRead, ItemsRead-cons, array-ReadsBack}
use chrono_sift.Json.RoundTrip.Objects.{MembersRead, MembersRead-cons, object-ReadsBack}

module _ (l : JsonLimits) (fl : Floats) where
  value_at-number :
      (child : Child) (total c : ℕ) (t : Bytes) (i : ℤ) (rest : Bytes)
      → (c == b'-' || is_digit c) ≡ true
      → parse_number fl (c ∷ t) ≡ success (read (JsonValue.int i) rest)
      → value_at l fl child total c t ≡ some (success (parsed (JsonValue.int i) total rest))
  unfolding value_at is_digit
  value_at-number child total c t i rest h e =
      let n1 : (c == b'{') ≡ false = ground arith in
      let n2 : (c == b'[') ≡ false = ground arith in
      let n3 : (c == b'"') ≡ false = ground arith in
      let n4 : (c == b't') ≡ false = ground arith in
      let n5 : (c == b'f') ≡ false = ground arith in
      let n6 : (c == b'n') ≡ false = ground arith in rw (n1, n2, n3, n4, n5, n6, h, e)

  value_at-string :
      (child : Child) (total : ℕ) (s rest : Bytes)
      → length s ≤ l.max_string_bytes
      → value_at l fl child total b'"' ((quoted_body s ++ b'"' ∷ []) ++ rest)
        ≡ some (success (parsed (JsonValue.string s) total rest))
  unfolding value_at
  value_at-string child total s rest h =
      rw (append_assoc (quoted_body s) (b'"' ∷ []) rest) (rw (parse_string-quoted_body l s rest h))

  value_at-null :
      (child : Child) (total : ℕ) (rest : Bytes)
      → value_at l fl child total b'n' (codes "ull" ++ rest)
        ≡ some (success (parsed JsonValue.null total rest))
  unfolding value_at literal starts_with eqb
  value_at-null child total rest =
      let a : leb 4 (length (codes "null" ++ rest)) ≡ true = ground arith in rw a

  value_at-true :
      (child : Child) (total : ℕ) (rest : Bytes)
      → value_at l fl child total b't' (codes "rue" ++ rest)
        ≡ some (success (parsed (JsonValue.bool true) total rest))
  unfolding value_at literal starts_with eqb
  value_at-true child total rest =
      let a : leb 4 (length (codes "true" ++ rest)) ≡ true = ground arith in rw a

  value_at-false :
      (child : Child) (total : ℕ) (rest : Bytes)
      → value_at l fl child total b'f' (codes "alse" ++ rest)
        ≡ some (success (parsed (JsonValue.bool false) total rest))
  unfolding value_at literal starts_with eqb
  value_at-false child total rest =
      let a : leb 5 (length (codes "false" ++ rest)) ≡ true = ground arith in rw a

  scalar-ReadsBack :
      (v : JsonValue) (fuel d total c : ℕ) (t rest : Bytes)
      → (render fl v ++ rest) ≡ c ∷ t
      → is_ws c ≡ false
      → nodes v ≡ 1
      → HasRoom l fl fuel d total 1 1
      → ((f : ℕ)
          → value_at l fl (parse_value l fl f (suc d)) (suc total) c t
            ≡ some (success (parsed v (suc total) rest)))
      → parse_value l fl fuel d total (render fl v ++ rest)
        ≡ some (success (parsed v (total + nodes v) rest))
  scalar-ReadsBack v zero d total c t rest e w n r h = absurd (omega (arith, r.fueled))
  scalar-ReadsBack v (suc f) d total c t rest e w n r h =
      ap (parse_value l fl (suc f) d total) e
      ∙ parse_value-at l fl f d total c t (omega (arith, r.deep)) (omega (arith, r.counted)) w
      ∙ h f
      ∙ ap (λ x. some (success (parsed v x rest))) (omega (arith, n))

  int-ReadsBack : (z : ℤ) → ReadsBack l fl (JsonValue.int z)
  unfolding render IsWithin depth nodes
  int-ReadsBack z fuel d total rest w p r k =
      let (c, s, e, h) = render_int-first z w in
      scalar-ReadsBack (JsonValue.int z) fuel d total c (s ++ rest) rest (ap (λ x. x ++ rest) e)
        (unfold is_digit in ground arith) refl r
        λ f.
          value_at-number (parse_value l fl f (suc d)) (suc total) c (s ++ rest) z rest h
            (ap (λ x. parse_number fl (x ++ rest)) (sym e) ∙ parse_number-render_int fl z rest w k)

  mutual
    unfolding render IsWithin IsPlain depth nodes json_quoted

    value-ReadsBack : (v : JsonValue) → ReadsBack l fl v
    value-ReadsBack JsonValue.null fuel d total rest w p r k =
        scalar-ReadsBack JsonValue.null fuel d total b'n' _ rest refl refl refl r
          λ f. value_at-null (parse_value l fl f (suc d)) (suc total) rest
    value-ReadsBack (JsonValue.bool true) fuel d total rest w p r k =
        scalar-ReadsBack (JsonValue.bool true) fuel d total b't' _ rest refl refl refl r
          λ f. value_at-true (parse_value l fl f (suc d)) (suc total) rest
    value-ReadsBack (JsonValue.bool false) fuel d total rest w p r k =
        scalar-ReadsBack (JsonValue.bool false) fuel d total b'f' _ rest refl refl refl r
          λ f. value_at-false (parse_value l fl f (suc d)) (suc total) rest
    value-ReadsBack (JsonValue.int z) fuel d total rest w p r k =
        int-ReadsBack z fuel d total rest w p r k
    value-ReadsBack (JsonValue.double x) fuel d total rest w p r k = absurd p
    value-ReadsBack (JsonValue.string s) fuel d total rest w p r k =
        scalar-ReadsBack (JsonValue.string s) fuel d total b'"' _ rest refl refl refl r
          λ f. value_at-string (parse_value l fl f (suc d)) (suc total) s rest w
    value-ReadsBack (JsonValue.array xs) fuel d total rest w p r k =
        array-ReadsBack l fl xs (items-ItemsRead xs) fuel d total rest w p r k
    value-ReadsBack (JsonValue.object ms) fuel d total rest w p r k =
        object-ReadsBack l fl ms (members-MembersRead ms) fuel d total rest w p r k

    items-ItemsRead : (xs : Items) → ItemsRead l fl xs
    items-ItemsRead no_items = tt
    items-ItemsRead (item v ys) = ItemsRead-cons l fl v ys (value-ReadsBack v) (items-ItemsRead ys)

    members-MembersRead : (ms : Members) → MembersRead l fl ms
    members-MembersRead no_members = tt
    members-MembersRead (member k v ns) =
        MembersRead-cons l fl k v ns (value-ReadsBack v) (members-MembersRead ns)

-- A value without doubles, within the limits, with at most `max_depth` levels of nesting below its
-- root and at most `max_total_values` values in it, is read back by `parse` from its rendering.
pub parse-render :
    (l : JsonLimits) (fl : Floats) (v : JsonValue)
    → IsWithin l v
    → IsPlain v
    → depth v ≤ suc l.max_depth
    → nodes v ≤ l.max_total_values
    → parse l fl (render fl v) ≡ some (success v)
unfolding parse finish skip_ws
parse-render l fl v w p deep few =
    let (c, s, e, (ws, close)) = render-first l fl v w p in
    let text : skip_ws (render fl v) ≡ render fl v ++ [] =
      ap skip_ws e ∙ skip_ws-first c s ws ∙ sym e ∙ sym (append-nil (render fl v)) in
    let full : is_empty (skip_ws (render fl v)) ≡ false =
      ap is_empty (ap skip_ws e ∙ skip_ws-first c s ws) in
    let read_back =
      value-ReadsBack l fl v (suc (suc l.max_depth)) 0 0 [] w p
        (record { deep = omega arith; fueled = omega arith; counted = omega arith }) tt in
    rw full (rw text (rw read_back refl))
