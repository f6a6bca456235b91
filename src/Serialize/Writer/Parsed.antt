-- ===== src/Serialize/Writer/Parsed.antt =====
-- `event_to_json` and `JsonParser` together.
use chrono_sift.Common.{
  ℕ, suc, ◌≤◌, ◌≡◌, refl, ◌∙◌, ap, Bool, true, false, not, ◌&&◌, ◌||◌, List, [], ◌∷◌, Option, none,
  some, arith, leb, if◌then◌else◌, Bytes, length, All, eqb,
}
use chrono_sift.Common.Int.{ℤ}
use chrono_sift.Core.Status.{success}
use chrono_sift.Event.Fields.{FieldMap}
use chrono_sift.Event.Record.{LogEvent}
use chrono_sift.Json.Value.{JsonValue, Members, member, Floats, find_in, depth}
use chrono_sift.Json.Limits.{IsWithin, MembersWithin, count_members, nodes}
use chrono_sift.Json.Scan.{JsonLimits}
use chrono_sift.Json.Parser.{parse}
use chrono_sift.Json.RoundTrip.Texts.{IsPlain, MembersPlain}
use chrono_sift.Json.RoundTrip.Values.{parse-render}
use chrono_sift.Serialize.Writer.{event_to_json}
use chrono_sift.Serialize.Writer.Objects.{
  Slot, field_members, fields_slot, event_slots, present, event_object, ValueWithin, EventFits,
  event_to_json-render,
}

abbrev key_in : Bytes → List Slot → Bool
key_in k [] = false
key_in k (s ∷ ss) = eqb s.key k || key_in k ss

-- Short keys, none of them twice.
abbrev good_keys : List Slot → Bool
good_keys [] = true
good_keys (s ∷ ss) = leb (length s.key) 12 && (not (key_in s.key ss) && good_keys ss)

find_in-present : (k : Bytes) (ss : List Slot) → key_in k ss ≡ false → find_in (present ss) k ≡ none
unfolding find_in
find_in-present k [] h = refl
find_in-present k (s ∷ ss) h =
    go s.value (find_in-present k ss (ground (arith, h))) (ground (arith, h))
  where
    go :
        (o : Option JsonValue)
        → find_in (present ss) k ≡ none
        → eqb s.key k ≡ false
        → find_in
            (elim o as (λ x. Members) [ none ↦ present ss | some v ↦ member s.key v (present ss) ])
            k
          ≡ none
    go none rest apart = rest
    go (some v) rest apart = rw apart rest

present-MembersWithin :
    (l : JsonLimits) (ss : List Slot)
    → 12 ≤ l.max_string_bytes
    → good_keys ss ≡ true
    → All (λ s. ValueWithin l s.value) ss
    → MembersWithin l (present ss)
unfolding MembersWithin
present-MembersWithin l [] m g h = tt
present-MembersWithin l (s ∷ ss) m g h =
    go s.value h.0 (present-MembersWithin l ss m (ground (arith, g)) h.1)
  where
    short : length s.key ≤ l.max_string_bytes
    short = ground (arith, g)

    apart : key_in s.key ss ≡ false
    apart = ground (arith, g)

    go :
        (o : Option JsonValue)
        → ValueWithin l o
        → MembersWithin l (present ss)
        → MembersWithin l
            (elim o as (λ x. Members) [ none ↦ present ss | some v ↦ member s.key v (present ss) ])
    go none w rest = rest
    go (some v) w rest = (short, find_in-present s.key ss apart, w, rest)

abbrev PlainValue : Option JsonValue → Type 0
PlainValue none = Unit
PlainValue (some v) = IsPlain v

present-MembersPlain :
    (ss : List Slot) → All (λ s. PlainValue s.value) ss → MembersPlain (present ss)
unfolding MembersPlain
present-MembersPlain [] h = tt
present-MembersPlain (s ∷ ss) h = go s.value h.0 (present-MembersPlain ss h.1)
  where
    go :
        (o : Option JsonValue)
        → PlainValue o
        → MembersPlain (present ss)
        → MembersPlain
            (elim o as (λ x. Members) [ none ↦ present ss | some v ↦ member s.key v (present ss) ])
    go none w rest = rest
    go (some v) w rest = (w, rest)

if-plain_text : (b : Bool) (s : Bytes) → PlainValue (if b then some (JsonValue.string s) else none)
unfolding IsPlain
if-plain_text true s = tt
if-plain_text false s = tt

if-plain_number : (b : Bool) (z : ℤ) → PlainValue (if b then some (JsonValue.int z) else none)
unfolding IsPlain
if-plain_number true z = tt
if-plain_number false z = tt

field_members-plain :
    (format_g : ℕ → Bytes) (es : FieldMap) → MembersPlain (field_members format_g es)
unfolding MembersPlain IsPlain
field_members-plain format_g [] = tt
field_members-plain format_g (e ∷ es) = (tt, field_members-plain format_g es)

fields-plain : (format_g : ℕ → Bytes) (es : FieldMap) → PlainValue (fields_slot format_g es).value
unfolding IsPlain
fields-plain format_g [] = tt
fields-plain format_g (e ∷ es) = field_members-plain format_g (e ∷ es)

event_slots-plain :
    (format_g : ℕ → Bytes) (e : LogEvent) → All (λ s. PlainValue s.value) (event_slots format_g e)
unfolding IsPlain
event_slots-plain format_g e = (
  if-plain_text _ _,
  (
    tt,
    (
      tt,
      (
        tt,
        (
          if-plain_text _ _,
          (
            if-plain_text _ _,
            (
              if-plain_number _ _,
              (
                if-plain_text _ _,
                (
                  if-plain_text _ _,
                  (
                    if-plain_text _ _,
                    (
                      if-plain_number _ _,
                      (
                        if-plain_number _ _,
                        (
                          if-plain_text _ _,
                          (
                            if-plain_text _ _,
                            (
                              if-plain_number _ _,
                              (
                                if-plain_number _ _,
                                (
                                  if-plain_number _ _,
                                  (
                                    if-plain_text _ _,
                                    (
                                      if-plain_text _ _,
                                      (if-plain_text _ _, (fields-plain format_g e.fields, tt)),
                                    ),
                                  ),
                                ),
                              ),
                            ),
                          ),
                        ),
                      ),
                    ),
                  ),
                ),
              ),
            ),
          ),
        ),
      ),
    ),
  ),
)

event_slots-keys : (format_g : ℕ → Bytes) (e : LogEvent) → good_keys (event_slots format_g e) ≡ true
unfolding eqb
event_slots-keys format_g e = refl

-- What `event_to_json` writes, `JsonParser::parse` reads back as the object of the event's members,
-- for an event whose values, their number and their nesting keep the parser's limits, under which a
-- key may have 12 bytes.
pub parse-event_to_json :
    (l : JsonLimits) (fl : Floats) (format_g : ℕ → Bytes) (e : LogEvent)
    → EventFits l format_g e
    → 12 ≤ l.max_string_bytes
    → count_members (present (event_slots format_g e)) ≤ l.max_object_members
    → depth (event_object format_g e) ≤ suc l.max_depth
    → nodes (event_object format_g e) ≤ l.max_total_values
    → parse l fl (event_to_json format_g e) ≡ some (success (event_object format_g e))
unfolding IsWithin IsPlain
parse-event_to_json l fl format_g e h m c d n =
    ap (parse l fl) (event_to_json-render fl l format_g e h)
    ∙ parse-render l fl (event_object format_g e)
        (c, present-MembersWithin l (event_slots format_g e) m (event_slots-keys format_g e) h)
        (present-MembersPlain (event_slots format_g e) (event_slots-plain format_g e)) d n
