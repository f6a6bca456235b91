-- ===== src/Json/RoundTrip/Texts.antt =====
-- The texts that `render_compact` writes, as the parser meets them.
use chrono_sift.Common.{
  ℕ, ◌≤◌, ◌≡◌, refl, ◌∙◌, ap, sym, true, false, [], ◌∷◌, ◌++◌, some, none, arith, length,
  append_assoc, Bytes, read, ◌==◌, eqb, eqb_iff,
}
use chrono_sift.Core.Chars.{is_digit}
use chrono_sift.Core.Status.{success}
use chrono_sift.Json.Value.{
  JsonValue, Items, no_items, item, Members, no_members, member, Floats, render, render_items,
  render_members, json_quoted, quoted_body, push_item, set_in, find_in,
}
use chrono_sift.Json.Limits.{IsWithin, MembersWithin}
use chrono_sift.Json.Scan.{JsonLimits, is_ws, skip_ws}
use chrono_sift.Json.Parser.{Child, parse_key, after_key, after_element, after_member, more, closed}
use chrono_sift.Json.RoundTrip.Strings.{parse_string-quoted_body}
use chrono_sift.Json.RoundTrip.Numbers.{render_int-first}

-- A value without doubles.
unfoldable mutual
  pub IsPlain : JsonValue → Type 0
  IsPlain (JsonValue.double d) = ⊥
  IsPlain (JsonValue.array xs) = ArePlain xs
  IsPlain (JsonValue.object ms) = MembersPlain ms
  IsPlain _ = Unit

  pub ArePlain : Items → Type 0
  ArePlain no_items = Unit
  ArePlain (item v xs) = IsPlain v × ArePlain xs

  pub MembersPlain : Members → Type 0
  MembersPlain no_members = Unit
  MembersPlain (member k v ms) = IsPlain v × MembersPlain ms

pub skip_ws-first : (c : ℕ) (s : Bytes) → is_ws c ≡ false → skip_ws (c ∷ s) ≡ c ∷ s
unfolding skip_ws
skip_ws-first c s h = rw h

-- The first byte of a value.
abbrev pub IsStart : ℕ → Type 0
IsStart c = (is_ws c ≡ false) × ((c == b']') ≡ false)

pub render-first :
    (l : JsonLimits) (fl : Floats) (v : JsonValue)
    → IsWithin l v
    → IsPlain v
    → (c : ℕ) × (s : Bytes) × (render fl v ≡ c ∷ s) × IsStart c
unfolding render IsWithin IsPlain json_quoted
render-first l fl JsonValue.null w p = (b'n', _, refl, (refl, refl))
render-first l fl (JsonValue.bool true) w p = (b't', _, refl, (refl, refl))
render-first l fl (JsonValue.bool false) w p = (b'f', _, refl, (refl, refl))
render-first l fl (JsonValue.int i) w p =
    let (c, s, e, k) = render_int-first i w in
    (c, s, e, (unfold is_digit in ground arith, unfold is_digit in ground arith))
render-first l fl (JsonValue.double d) w p = absurd p
render-first l fl (JsonValue.string s) w p = (b'"', _, refl, (refl, refl))
render-first l fl (JsonValue.array xs) w p = (b'[', _, refl, (refl, refl))
render-first l fl (JsonValue.object ms) w p = (b'{', _, refl, (refl, refl))

-- A text that starts as a value does.
abbrev pub StartsValue : Bytes → Type 0
StartsValue t = (c : ℕ) × (s : Bytes) × (t ≡ c ∷ s) × IsStart c

pub render-StartsValue :
    (l : JsonLimits) (fl : Floats) (v : JsonValue) (t : Bytes)
    → IsWithin l v
    → IsPlain v
    → StartsValue (render fl v ++ t)
render-StartsValue l fl v t w p =
    let (c, s, e, k) = render-first l fl v w p in (c, s ++ t, ap (λ x. x ++ t) e, k)

pub parse_key-json_quoted :
    (l : JsonLimits) (child : Child) (k t : Bytes)
    → length k ≤ l.max_string_bytes
    → parse_key l child (json_quoted k ++ b':' ∷ t) ≡ some (success (read k t))
unfolding parse_key json_quoted skip_ws after_key
parse_key-json_quoted l child k t h =
    rw (append_assoc (quoted_body k) (b'"' ∷ []) (b':' ∷ t))
      (rw (parse_string-quoted_body l k (b':' ∷ t) h, parse_key))

pub after_element-closed : (t : Bytes) → after_element (b']' ∷ t) ≡ success (closed t)
unfolding after_element skip_ws
after_element-closed t = refl

pub after_element-more : (t : Bytes) → StartsValue t → after_element (b',' ∷ t) ≡ success (more t)
unfolding after_element skip_ws
after_element-more t (c, s, e, (w, b)) =
    ap (λ x. after_element (b',' ∷ x)) e ∙ go ∙ ap (λ x. success (more x)) (sym e)
  where
    go : after_element (b',' ∷ c ∷ s) ≡ success (more (c ∷ s))
    go = rw (w, skip_ws) (rw b)

pub after_member-closed : (t : Bytes) → after_member (b'}' ∷ t) ≡ success (closed t)
unfolding after_member skip_ws
after_member-closed t = refl

pub after_member-more :
    (k t : Bytes) → after_member (b',' ∷ (json_quoted k ++ t)) ≡ success (more (json_quoted k ++ t))
unfolding after_member skip_ws json_quoted
after_member-more k t = refl

-- The elements behind those of `xs`.
abbrev pub append_items : Items → Items → Items
append_items xs no_items = xs
append_items xs (item v ys) = append_items (push_item xs v) ys

abbrev join_items : Items → Items → Items
join_items no_items ys = ys
join_items (item v xs) ys = item v (join_items xs ys)

join-push_item :
    (xs ys : Items) (v : JsonValue) → join_items (push_item xs v) ys ≡ join_items xs (item v ys)
unfolding push_item
join-push_item no_items ys v = refl
join-push_item (item w xs) ys v = ap (item w) (join-push_item xs ys v)

join_items-nil : (xs : Items) → join_items xs no_items ≡ xs
join_items-nil no_items = refl
join_items-nil (item w xs) = ap (item w) (join_items-nil xs)

append-join_items : (xs ys : Items) → append_items xs ys ≡ join_items xs ys
append-join_items xs no_items = sym (join_items-nil xs)
append-join_items xs (item v ys) = append-join_items (push_item xs v) ys ∙ join-push_item xs ys v

pub append_items_lem : (ys : Items) → append_items no_items ys ≡ ys
append_items_lem ys = append-join_items no_items ys

-- The members set after those of `ms`.
abbrev pub set_all : Members → Members → Members
set_all ms no_members = ms
set_all ms (member k v ns) = set_all (set_in ms k v) ns

abbrev join_members : Members → Members → Members
join_members no_members ns = ns
join_members (member k v ms) ns = member k v (join_members ms ns)

join_members-nil : (ms : Members) → join_members ms no_members ≡ ms
join_members-nil no_members = refl
join_members-nil (member k v ms) = ap (member k v) (join_members-nil ms)

-- A key that stands behind others is none of them.
key-apart :
    (ms ns : Members) (j k : Bytes) (v : JsonValue)
    → find_in (join_members ms (member k v ns)) j ≡ none
    → eqb j k ≡ false
unfolding find_in
key-apart no_members ns j k v h = ground (arith, eqb_iff j k, eqb_iff k j, h)
key-apart (member i w ms) ns j k v h = key-apart ms ns j k v (ground (arith, h))

join-set_in :
    (l : JsonLimits) (ms ns : Members) (k : Bytes) (v : JsonValue)
    → MembersWithin l (join_members ms (member k v ns))
    → join_members (set_in ms k v) ns ≡ join_members ms (member k v ns)
unfolding set_in MembersWithin
join-set_in l no_members ns k v h = refl
join-set_in l (member j w ms) ns k v h =
    let apart : eqb j k ≡ false = key-apart ms ns j k v h.1 in
    rw (apart, set_in) (ap (member j w) (join-set_in l ms ns k v h.3))

set-join_members :
    (l : JsonLimits) (ms ns : Members)
    → MembersWithin l (join_members ms ns)
    → set_all ms ns ≡ join_members ms ns
set-join_members l ms no_members h = sym (join_members-nil ms)
set-join_members l ms (member k v ns) h =
    let e = join-set_in l ms ns k v h in set-join_members l (set_in ms k v) ns (rw e h) ∙ e

pub set_all_lem : (l : JsonLimits) (ns : Members) → MembersWithin l ns → set_all no_members ns ≡ ns
set_all_lem l ns h = set-join_members l no_members ns h

pub array_text :
    (fl : Floats) (v : JsonValue) (ys : Items) (rest : Bytes)
    → (render_items fl true (item v ys) ++ b']' ∷ []) ++ rest
      ≡ render fl v ++ (render_items fl false ys ++ b']' ∷ rest)
unfolding render_items
array_text fl v ys rest =
    append_assoc (render fl v ++ render_items fl false ys) (b']' ∷ []) rest
    ∙ append_assoc (render fl v) (render_items fl false ys) (b']' ∷ rest)

pub more_items_text :
    (fl : Floats) (v : JsonValue) (ys : Items) (t : Bytes)
    → render_items fl false (item v ys) ++ t
      ≡ b',' ∷ (render fl v ++ (render_items fl false ys ++ t))
unfolding render_items
more_items_text fl v ys t =
    ap (λ x. b',' ∷ x) (append_assoc (render fl v) (render_items fl false ys) t)

-- The text of members in front of `t`.
abbrev pub members_text : Floats → Bytes → JsonValue → Members → Bytes → Bytes
members_text fl k v ns t =
    json_quoted k ++ b':' ∷ (render fl v ++ (render_members fl false ns ++ t))

members_assoc :
    (fl : Floats) (k : Bytes) (v : JsonValue) (ns : Members) (t : Bytes)
    → (json_quoted k ++ b':' ∷ (render fl v ++ render_members fl false ns)) ++ t
      ≡ members_text fl k v ns t
members_assoc fl k v ns t =
    append_assoc (json_quoted k) _ t
    ∙ ap (λ x. json_quoted k ++ b':' ∷ x)
        (append_assoc (render fl v) (render_members fl false ns) t)

pub object_text :
    (fl : Floats) (k : Bytes) (v : JsonValue) (ns : Members) (rest : Bytes)
    → (render_members fl true (member k v ns) ++ b'}' ∷ []) ++ rest
      ≡ members_text fl k v ns (b'}' ∷ rest)
unfolding render_members
object_text fl k v ns rest =
    append_assoc (json_quoted k ++ b':' ∷ (render fl v ++ render_members fl false ns)) (b'}' ∷ [])
      rest
    ∙ members_assoc fl k v ns (b'}' ∷ rest)

pub more_members_text :
    (fl : Floats) (k : Bytes) (v : JsonValue) (ns : Members) (t : Bytes)
    → render_members fl false (member k v ns) ++ t ≡ b',' ∷ members_text fl k v ns t
unfolding render_members
more_members_text fl k v ns t = ap (λ x. b',' ∷ x) (members_assoc fl k v ns t)
