-- ===== src/Json/RoundTrip/Objects.antt =====
-- The loop of `parse_object` over rendered members.
use chrono_sift.Common.{
  ℕ, zero, suc, ◌+◌, ◌≤◌, ◌<◌, ◌≡◌, refl, ◌∙◌, ap, false, ◌∷◌, ◌++◌, some, arith, length,
  length-append, Bytes, leb,
}
use chrono_sift.Core.Chars.{is_digit}
use chrono_sift.Core.Status.{success}
use chrono_sift.Json.Value.{
  JsonValue, Members, no_members, member, Floats, render, render_members, json_quoted, set_in,
  depth, depth_members,
}
use chrono_sift.Json.Limits.{IsWithin, MembersWithin, count_members, nodes, nodes_members}
use chrono_sift.Json.Scan.{JsonLimits, skip_ws}
use chrono_sift.Json.Parser.{Child, parsed, parse_value, object_from, parse_object}
use chrono_sift.Json.RoundTrip.Texts.{
  IsPlain, MembersPlain, parse_key-json_quoted, after_member-closed, after_member-more, set_all,
  set_all_lem, members_text, object_text, more_members_text,
}
use chrono_sift.Json.RoundTrip.Steps.{HasRoom, parse_value-at, value_at-object, ReadsBack}

module _ (l : JsonLimits) (fl : Floats) where
  -- The same for the members of an object.
  member-last :
      (fuel d f count total : ℕ) (ms : Members) (k : Bytes) (v : JsonValue) (rest : Bytes)
      → ReadsBack l fl v
      → length k ≤ l.max_string_bytes
      → IsWithin l v
      → IsPlain v
      → HasRoom l fl fuel (suc d) total (depth v) (nodes v)
      → count < l.max_object_members
      → object_from l
          (parse_value l fl fuel (suc d))
          (suc f)
          count
          ms
          total
          (members_text fl k v no_members (b'}' ∷ rest))
        ≡ some (success (parsed (JsonValue.object (set_in ms k v)) (total + nodes v) rest))
  unfolding object_from render_members
  member-last fuel d f count total ms k v rest ih hk w p r h =
      let a : leb l.max_object_members count ≡ false = ground arith in
      let child = parse_value l fl fuel (suc d) in
      rw (a, object_from)
        (rw (parse_key-json_quoted l child k (render fl v ++ b'}' ∷ rest) hk) (
          rw (ih fuel (suc d) total (b'}' ∷ rest) w p r (unfold is_digit in (refl, refl, refl)))
            (rw (after_member-closed rest))))

  member-more :
      (fuel d f count total : ℕ) (ms : Members) (k : Bytes) (v : JsonValue) (j : Bytes)
      (u : JsonValue) (ns : Members) (rest : Bytes)
      → ReadsBack l fl v
      → length k ≤ l.max_string_bytes
      → IsWithin l v
      → IsPlain v
      → HasRoom l fl fuel (suc d) total (depth v) (nodes v)
      → count < l.max_object_members
      → object_from l
          (parse_value l fl fuel (suc d))
          (suc f)
          count
          ms
          total
          (members_text fl k v (member j u ns) (b'}' ∷ rest))
        ≡ object_from l
            (parse_value l fl fuel (suc d))
            f
            (suc count)
            (set_in ms k v)
            (total + nodes v)
            (members_text fl j u ns (b'}' ∷ rest))
  unfolding object_from
  member-more fuel d f count total ms k v j u ns rest ih hk w p r h =
      let a : leb l.max_object_members count ≡ false = ground arith in
      let child = parse_value l fl fuel (suc d) in
      let t = members_text fl j u ns (b'}' ∷ rest) in
      rw (more_members_text fl j u ns (b'}' ∷ rest)) (
        rw (a, object_from)
          (rw (parse_key-json_quoted l child k (render fl v ++ b',' ∷ t) hk) (
            rw (ih fuel (suc d) total (b',' ∷ t) w p r (unfold is_digit in (refl, refl, refl))) (
              rw (
                after_member-more j
                  (b':' ∷ (render fl u ++ (render_members fl false ns ++ b'}' ∷ rest))))))))

  abbrev pub MembersRead : Members → Type 0
  MembersRead no_members = Unit
  MembersRead (member k v ns) =
      (fuel d f count total : ℕ) (ms : Members) (rest : Bytes)
      → MembersWithin l (member k v ns)
      → MembersPlain (member k v ns)
      → HasRoom l fl fuel (suc d) total (depth_members (member k v ns))
          (nodes_members (member k v ns))
      → count_members (member k v ns) ≤ f
      → count + count_members (member k v ns) ≤ l.max_object_members
      → object_from l (parse_value l fl fuel (suc d)) f count ms total
          (members_text fl k v ns (b'}' ∷ rest))
        ≡ some (
            success (
              parsed (JsonValue.object (set_all ms (member k v ns)))
                (total + nodes_members (member k v ns)) rest))

  pub MembersRead-cons :
      (k : Bytes) (v : JsonValue) (ns : Members)
      → ReadsBack l fl v
      → MembersRead ns
      → MembersRead (member k v ns)
  unfolding MembersWithin MembersPlain depth nodes
  MembersRead-cons k v ns hv hns fuel d zero count total ms rest w p r hf hc = absurd (omega arith)
  MembersRead-cons k v no_members hv hns fuel d (suc f) count total ms rest w p r hf hc =
      member-last fuel d f count total ms k v rest hv w.0 w.2 p.0
        (record {
          deep = omega (arith, r.deep);
          fueled = omega (arith, r.fueled);
          counted = omega (arith, r.counted);
        })
        (omega arith)
      ∙ ap (λ n. some (success (parsed (JsonValue.object (set_in ms k v)) n rest))) (omega arith)
  MembersRead-cons k v (member j u ns) hv hns fuel d (suc f) count total ms rest w p r hf hc =
      member-more fuel d f count total ms k v j u ns rest hv w.0 w.2 p.0
        (record {
          deep = omega (arith, r.deep);
          fueled = omega (arith, r.fueled);
          counted = omega (arith, r.counted);
        })
        (omega arith)
      ∙ hns fuel d f (suc count) (total + nodes v) (set_in ms k v) rest w.3 p.1
          (record {
            deep = omega (arith, r.deep);
            fueled = omega (arith, r.fueled);
            counted = omega (arith, r.counted);
          })
          (omega arith) (omega arith)
      ∙ ap
          (λ n.
            some (
              success (parsed (JsonValue.object (set_all ms (member k v (member j u ns)))) n rest)))
          (omega arith)

  parse_object-start :
      (child : Child) (total : ℕ) (k t : Bytes)
      → parse_object l child total (json_quoted k ++ t)
        ≡ object_from l child
            (suc (length (json_quoted k ++ t)))
            0
            no_members
            total
            (json_quoted k ++ t)
  unfolding parse_object json_quoted skip_ws
  parse_object-start child total k t = refl

  parse_object-empty :
      (child : Child) (total : ℕ) (rest : Bytes)
      → parse_object l child total (b'}' ∷ rest)
        ≡ some (success (parsed (JsonValue.object no_members) total rest))
  unfolding parse_object skip_ws
  parse_object-empty child total rest = refl

  length-members_tail :
      (ns : Members) (rest : Bytes)
      → count_members ns ≤ length (render_members fl false ns ++ b'}' ∷ rest)
  unfolding render_members
  length-members_tail no_members rest = omega arith
  length-members_tail (member k v ns) rest =
      let tail = render_members fl false ns ++ b'}' ∷ rest in
      omega (
        arith,
        length-members_tail ns rest,
        ap length (more_members_text fl k v ns (b'}' ∷ rest)),
        length-append {0} (json_quoted k) (b':' ∷ (render fl v ++ tail)),
        length-append {0} (render fl v) tail,
      )

  pub object-ReadsBack : (ms : Members) → MembersRead ms → ReadsBack l fl (JsonValue.object ms)
  unfolding render IsWithin MembersWithin IsPlain MembersPlain depth nodes
  object-ReadsBack ms h zero d total rest w p r k = absurd (omega (arith, r.fueled))
  object-ReadsBack no_members h (suc f) d total rest w p r k =
      parse_value-at l fl f d total b'{' _ (omega (arith, r.deep)) (omega (arith, r.counted)) refl
      ∙ value_at-object l fl (parse_value l fl f (suc d)) (suc total) _
      ∙ parse_object-empty (parse_value l fl f (suc d)) (suc total) rest
      ∙ ap (λ n. some (success (parsed (JsonValue.object no_members) n rest))) (omega arith)
  object-ReadsBack (member j v ns) h (suc f) d total rest w p r k =
      let child = parse_value l fl f (suc d) in
      let u = b':' ∷ (render fl v ++ (render_members fl false ns ++ b'}' ∷ rest)) in
      parse_value-at l fl f d total b'{' _ (omega (arith, r.deep)) (omega (arith, r.counted)) refl
      ∙ value_at-object l fl child (suc total) _
      ∙ ap (parse_object l child (suc total)) (object_text fl j v ns rest)
      ∙ parse_object-start child (suc total) j u
      ∙ h f d (suc (length (json_quoted j ++ u))) 0 (suc total) no_members rest w.1 p
          (record {
            deep = omega (arith, r.deep);
            fueled = omega (arith, r.fueled);
            counted = omega (arith, r.counted);
          })
          (omega (
            arith,
            length-append {0} (json_quoted j) u,
            length-members_tail ns rest,
            length-append {0} (render fl v) (render_members fl false ns ++ b'}' ∷ rest),
          ))
          (omega (arith, w.0))
      ∙ ap
          (λ x. some (
            success (parsed (JsonValue.object x) (suc total + nodes_members (member j v ns)) rest)))
          (set_all_lem l (member j v ns) w.1)
      ∙ ap (λ n. some (success (parsed (JsonValue.object (member j v ns)) n rest))) (omega arith)
