-- ===== src/Serialize/Writer/Objects.antt =====
-- `json_escape` against `append_json_quoted`, and `event_to_json` against an object that
-- `render_compact` renders.
use chrono_sift.Common.Bits.{every_below, every_below_sound}
use chrono_sift.Common.{
  eqb, eqb_iff, ℕ, ◌/◌, ◌≡◌, refl, ◌∙◌, ap, sym, inl, inr, Bool-cases, Bool, true, false, not, List,
  [], ◌∷◌, ◌++◌, Option, none, some, arith, ltb, ◌==◌, if◌then◌else◌, Bytes, codes, null, All,
  append_assoc, append-nil, bit_and, ◌<◌,
}
use chrono_sift.Common.Int.{ℤ, pos, ltb_ℤ}
use chrono_sift.Core.Number.{to_string_ℤ}
use chrono_sift.Core.Encoding.{hex_lower}
use chrono_sift.Core.Timestamp.{to_iso8601}
use chrono_sift.Event.Severity.{severity_name}
use chrono_sift.Event.Fields.{FieldMap, value_string}
use chrono_sift.Event.Record.{LogEvent, source_format_name}
use chrono_sift.Json.Value.{
  comma_unless, JsonValue, Members, no_members, member, Floats, quoted_char, quoted_body,
  json_quoted, render, render_members,
}
use chrono_sift.Json.Limits.{IsWithin}
use chrono_sift.Json.Scan.{JsonLimits}
use chrono_sift.Json.RoundTrip.Numbers.{render_int-to_string_ℤ}
use chrono_sift.Serialize.Writer.{
  write_fields, Writer, u_escape, escape_char, json_escape, json_string, json_key, write,
  write_string, write_string_if, write_number_if, field_entries, fields_object, event_to_json,
}

abbrev short_escape : ℕ → Bytes
short_escape c = codes "\\u00" ++ hex_lower (bit_and (c / 16) 0xf) ∷ hex_lower (bit_and c 0xf) ∷ []

u_escape_table : every_below 32 (λ c. eqb (u_escape c) (short_escape c)) ≡ true
unfolding every_below eqb hex_lower
u_escape_table = refl

u_escape-control : (c : ℕ) → c < 32 → u_escape c ≡ short_escape c
u_escape-control c h =
    (eqb_iff (u_escape c) (short_escape c)).0
      (every_below_sound 32 (λ x. eqb (u_escape x) (short_escape x)) c u_escape_table h)

escape_char-quoted_char : (c : ℕ) → escape_char c ≡ quoted_char c
unfolding escape_char quoted_char
escape_char-quoted_char c = elim (Bool-cases (ltb c 0x20)) [
  | inl y ↦ rw (y, u_escape-control c (ground arith)) refl
  | inr n ↦ rw n refl
]

-- The escaping of the serializer and that of `append_json_quoted` agree on every byte string.
pub json_escape-quoted_body : (s : Bytes) → json_escape s ≡ quoted_body s
unfolding json_escape quoted_body
json_escape-quoted_body [] = refl
json_escape-quoted_body (c ∷ s) = rw (escape_char-quoted_char c, json_escape-quoted_body s)

json_string-quoted : (s : Bytes) → json_string s ≡ json_quoted s
unfolding json_string json_quoted
json_string-quoted s = rw (json_escape-quoted_body s)

json_key-quoted : (s : Bytes) → json_key s ≡ json_quoted s ++ b':' ∷ []
unfolding json_key json_quoted
json_key-quoted s =
    rw (json_escape-quoted_body s)
      (ap (λ x. b'"' ∷ x) (sym (append_assoc (quoted_body s) (b'"' ∷ []) (b':' ∷ []))))

-- A member that may be left out.
pub record Slot : Type 0 where
  pub key : Bytes
  pub value : Option JsonValue

abbrev pub text_slot : Bool → Bytes → Bytes → Slot
text_slot test k v = record { key = k; value = if test then some (JsonValue.string v) else none }

abbrev pub number_slot : Bool → Bytes → ℤ → Slot
number_slot test k z = record { key = k; value = if test then some (JsonValue.int z) else none }

abbrev pub field_members : (ℕ → Bytes) → FieldMap → Members
field_members format_g [] = no_members
field_members format_g (e ∷ es) =
    member e.key (JsonValue.string (value_string format_g e.value)) (field_members format_g es)

abbrev pub fields_slot : (ℕ → Bytes) → FieldMap → Slot
fields_slot format_g es = record {
  key = codes "fields";
  value = if not (null es) then some (JsonValue.object (field_members format_g es)) else none;
}

-- The members of an event, in the canonical order.
abbrev pub event_slots : (ℕ → Bytes) → LogEvent → List Slot
event_slots format_g e =
    text_slot e.timestamp.valid (codes "timestamp") (to_iso8601 e.timestamp)
    ∷ text_slot true (codes "severity") (severity_name e.severity)
    ∷ text_slot true (codes "source") (source_format_name e.source)
    ∷ number_slot true (codes "record_index") (pos e.record_index)
    ∷ text_slot (not (null e.host)) (codes "host") e.host
    ∷ text_slot (not (null e.app)) (codes "app") e.app
    ∷ number_slot (not (ltb_ℤ e.pid (pos 0))) (codes "pid") e.pid
    ∷ text_slot (not (null e.user)) (codes "user") e.user
    ∷ text_slot (not (null e.src_ip)) (codes "src_ip") e.src_ip
    ∷ text_slot (not (null e.dst_ip)) (codes "dst_ip") e.dst_ip
    ∷ number_slot (not (e.src_port == 0)) (codes "src_port") (pos e.src_port)
    ∷ number_slot (not (e.dst_port == 0)) (codes "dst_port") (pos e.dst_port)
    ∷ text_slot (not (null e.http_method)) (codes "http_method") e.http_method
    ∷ text_slot (not (null e.http_path)) (codes "http_path") e.http_path
    ∷ number_slot (not (e.http_status == 0)) (codes "http_status") (pos e.http_status)
    ∷ number_slot (not (e.byte_count == 0)) (codes "bytes") (pos e.byte_count)
    ∷ number_slot (not (e.event_id == 0)) (codes "event_id") (pos e.event_id)
    ∷ text_slot (not (null e.channel)) (codes "channel") e.channel
    ∷ text_slot (not (null e.provider)) (codes "provider") e.provider
    ∷ text_slot (not (null e.message)) (codes "message") e.message
    ∷ fields_slot format_g e.fields
    ∷ []

-- The members that are there.
abbrev pub present : List Slot → Members
present [] = no_members
present (s ∷ ss) = elim s.value [ none ↦ present ss | some v ↦ member s.key v (present ss) ]

-- The object that an event is written as.
abbrev pub event_object : (ℕ → Bytes) → LogEvent → JsonValue
event_object format_g e = JsonValue.object (present (event_slots format_g e))

abbrev pub ValueWithin : JsonLimits → Option JsonValue → Type 0
ValueWithin l none = Unit
ValueWithin l (some v) = IsWithin l v

-- The values of the event's members keep the limits.
abbrev pub EventFits : JsonLimits → (ℕ → Bytes) → LogEvent → Type 0
EventFits l format_g e = All (λ s. ValueWithin l s.value) (event_slots format_g e)

module _ (fl : Floats) where
  write_slot : Slot → Writer → Writer
  write_slot s w = elim s.value [ none ↦ w | some v ↦ write s.key (render fl v) w ]

  write_all : List Slot → Writer → Writer
  unfolding write_slot
  write_all [] w = w
  write_all (s ∷ ss) w = write_all ss (write_slot s w)

  write-out :
      (k value : Bytes) (w : Writer)
      → (write k value w).out ≡ w.out ++ (comma_unless w.first ++ (json_quoted k ++ b':' ∷ value))
  unfolding write
  write-out k value w = rw (json_key-quoted k) (go w.first)
    where
      go :
          (b : Bool)
          → (if b then w.out else w.out ++ b',' ∷ []) ++ ((json_quoted k ++ b':' ∷ []) ++ value)
            ≡ w.out ++ (comma_unless b ++ (json_quoted k ++ b':' ∷ value))
      go true = ap (λ x. w.out ++ x) (append_assoc (json_quoted k) (b':' ∷ []) value)
      go false =
          append_assoc w.out (b',' ∷ []) _
          ∙ ap (λ x. w.out ++ b',' ∷ x) (append_assoc (json_quoted k) (b':' ∷ []) value)

  write-first : (k value : Bytes) (w : Writer) → (write k value w).first ≡ false
  unfolding write
  write-first k value w = refl

  slot-out :
      (s : Slot) (ss : List Slot) (w : Writer)
      → ((w : Writer) → (write_all ss w).out ≡ w.out ++ render_members fl w.first (present ss))
      → (o : Option JsonValue)
      → (write_all ss
          (elim o as (λ x. Writer) [ none ↦ w | some v ↦ write s.key (render fl v) w ])).out
        ≡ w.out
          ++ render_members fl w.first (elim o as (λ x. Members) [
            | none ↦ present ss
            | some v ↦ member s.key v (present ss)
          ])
  unfolding render_members
  slot-out s ss w ih none = ih w
  slot-out s ss w ih (some v) =
      let more = render_members fl false (present ss) in
      let m = json_quoted s.key ++ b':' ∷ render fl v in
      ih (write s.key (render fl v) w)
      ∙ ap (λ x. (write s.key (render fl v) w).out ++ render_members fl x (present ss))
          (write-first s.key (render fl v) w)
      ∙ ap (λ x. x ++ more) (write-out s.key (render fl v) w)
      ∙ append_assoc w.out (comma_unless w.first ++ m) more
      ∙ ap (λ x. w.out ++ x)
          (append_assoc (comma_unless w.first) m more
            ∙ ap (λ x. comma_unless w.first ++ x)
                (append_assoc (json_quoted s.key) (b':' ∷ render fl v) more))

  write_all-out :
      (ss : List Slot) (w : Writer)
      → (write_all ss w).out ≡ w.out ++ render_members fl w.first (present ss)
  unfolding write_all write_slot render_members
  write_all-out [] w = sym (append-nil w.out)
  write_all-out (s ∷ ss) w = slot-out s ss w (write_all-out ss) s.value

  string_if-slot :
      (b : Bool) (k v : Bytes) (w : Writer)
      → write_string_if b k v w ≡ write_slot (text_slot b k v) w
  unfolding write_string_if write_string write_slot render
  string_if-slot true k v w = rw (json_string-quoted v)
  string_if-slot false k v w = refl

  number_if-slot :
      (l : JsonLimits) (b : Bool) (k : Bytes) (z : ℤ) (w : Writer)
      → ValueWithin l (number_slot b k z).value
      → write_number_if b k (to_string_ℤ z) w ≡ write_slot (number_slot b k z) w
  unfolding write_number_if write_slot render IsWithin
  number_if-slot l true k z w h = rw (render_int-to_string_ℤ z h)
  number_if-slot l false k z w h = refl

  field_entries-members :
      (format_g : ℕ → Bytes) (first : Bool) (es : FieldMap)
      → field_entries format_g first es ≡ render_members fl first (field_members format_g es)
  unfolding field_entries render_members render
  field_entries-members format_g first [] = refl
  field_entries-members format_g first (e ∷ es) = rw (
    json_string-quoted e.key,
    json_string-quoted (value_string format_g e.value),
    field_entries-members format_g false es,
  )

  fields-slot :
      (format_g : ℕ → Bytes) (es : FieldMap) (w : Writer)
      → (if not (null es) then write (codes "fields") (fields_object format_g es) w else w)
        ≡ write_slot (fields_slot format_g es) w
  unfolding write_slot fields_object render
  fields-slot format_g [] w = refl
  fields-slot format_g (e ∷ es) w = rw (field_entries-members format_g true (e ∷ es))

  run : List (Writer → Writer) → Writer → Writer
  run [] w = w
  run (f ∷ fs) w = run fs (f w)

  -- Each step writes its slot.
  abbrev Writes : List (Writer → Writer) → List Slot → Type 0
  Writes [] [] = Unit
  Writes (f ∷ fs) (s ∷ ss) = ((w : Writer) → f w ≡ write_slot s w) × Writes fs ss
  Writes _ _ = ⊥

  run-Writes :
      (fs : List (Writer → Writer)) (ss : List Slot) (w : Writer)
      → Writes fs ss
      → run fs w ≡ write_all ss w
  unfolding run write_all
  run-Writes [] [] w h = refl
  run-Writes (f ∷ fs) (s ∷ ss) w h = rw (h.0 w) (run-Writes fs ss (write_slot s w) h.1)
  run-Writes [] (s ∷ ss) w h = absurd h
  run-Writes (f ∷ fs) [] w h = absurd h

  -- The statements of `event_to_json`.
  abbrev statements : (ℕ → Bytes) → LogEvent → List (Writer → Writer)
  statements format_g e =
      write_string_if e.timestamp.valid (codes "timestamp") (to_iso8601 e.timestamp)
      ∷ write_string_if true (codes "severity") (severity_name e.severity)
      ∷ write_string_if true (codes "source") (source_format_name e.source)
      ∷ write_number_if true (codes "record_index") (to_string_ℤ (pos e.record_index))
      ∷ write_string_if (not (null e.host)) (codes "host") e.host
      ∷ write_string_if (not (null e.app)) (codes "app") e.app
      ∷ write_number_if (not (ltb_ℤ e.pid (pos 0))) (codes "pid") (to_string_ℤ e.pid)
      ∷ write_string_if (not (null e.user)) (codes "user") e.user
      ∷ write_string_if (not (null e.src_ip)) (codes "src_ip") e.src_ip
      ∷ write_string_if (not (null e.dst_ip)) (codes "dst_ip") e.dst_ip
      ∷ write_number_if (not (e.src_port == 0)) (codes "src_port") (to_string_ℤ (pos e.src_port))
      ∷ write_number_if (not (e.dst_port == 0)) (codes "dst_port") (to_string_ℤ (pos e.dst_port))
      ∷ write_string_if (not (null e.http_method)) (codes "http_method") e.http_method
      ∷ write_string_if (not (null e.http_path)) (codes "http_path") e.http_path
      ∷ write_number_if (not (e.http_status == 0)) (codes "http_status")
          (to_string_ℤ (pos e.http_status))
      ∷ write_number_if (not (e.byte_count == 0)) (codes "bytes") (to_string_ℤ (pos e.byte_count))
      ∷ write_number_if (not (e.event_id == 0)) (codes "event_id") (to_string_ℤ (pos e.event_id))
      ∷ write_string_if (not (null e.channel)) (codes "channel") e.channel
      ∷ write_string_if (not (null e.provider)) (codes "provider") e.provider
      ∷ write_string_if (not (null e.message)) (codes "message") e.message
      ∷ write_fields format_g e.fields
      ∷ []

  statements-Writes :
      (l : JsonLimits) (format_g : ℕ → Bytes) (e : LogEvent)
      → EventFits l format_g e
      → Writes (statements format_g e) (event_slots format_g e)
  statements-Writes l format_g e h = (
    string_if-slot e.timestamp.valid (codes "timestamp") (to_iso8601 e.timestamp),
    (
      string_if-slot true (codes "severity") (severity_name e.severity),
      (
        string_if-slot true (codes "source") (source_format_name e.source),
        (
          λ w. number_if-slot l true (codes "record_index") (pos e.record_index) w h.1.1.1.0,
          (
            string_if-slot (not (null e.host)) (codes "host") e.host,
            (
              string_if-slot (not (null e.app)) (codes "app") e.app,
              (
                λ w.
                    number_if-slot l (not (ltb_ℤ e.pid (pos 0))) (codes "pid") e.pid w
                      h.1.1.1.1.1.1.0,
                (
                  string_if-slot (not (null e.user)) (codes "user") e.user,
                  (
                    string_if-slot (not (null e.src_ip)) (codes "src_ip") e.src_ip,
                    (
                      string_if-slot (not (null e.dst_ip)) (codes "dst_ip") e.dst_ip,
                      (
                        λ w.
                            number_if-slot l (not (e.src_port == 0)) (codes "src_port")
                              (pos e.src_port) w h.1.1.1.1.1.1.1.1.1.1.0,
                        (
                          λ w.
                              number_if-slot l (not (e.dst_port == 0)) (codes "dst_port")
                                (pos e.dst_port) w h.1.1.1.1.1.1.1.1.1.1.1.0,
                          (
                            string_if-slot (not (null e.http_method)) (codes "http_method")
                                e.http_method,
                            (
                              string_if-slot (not (null e.http_path)) (codes "http_path")
                                  e.http_path,
                              (
                                λ w.
                                    number_if-slot l (not (e.http_status == 0))
                                      (codes "http_status") (pos e.http_status) w
                                      h.1.1.1.1.1.1.1.1.1.1.1.1.1.1.0,
                                (
                                  λ w.
                                      number_if-slot l (not (e.byte_count == 0)) (codes "bytes")
                                        (pos e.byte_count) w h.1.1.1.1.1.1.1.1.1.1.1.1.1.1.1.0,
                                  (
                                    λ w.
                                        number_if-slot l (not (e.event_id == 0)) (codes "event_id")
                                          (pos e.event_id) w h.1.1.1.1.1.1.1.1.1.1.1.1.1.1.1.1.0,
                                    (
                                      string_if-slot (not (null e.channel)) (codes "channel")
                                          e.channel,
                                      (
                                        string_if-slot (not (null e.provider)) (codes "provider")
                                            e.provider,
                                        (
                                          string_if-slot (not (null e.message)) (codes "message")
                                              e.message,
                                          (fields-slot format_g e.fields, tt),
                                        ),
                                      ),
                                    ),
                                  ),
                                ),
                              ),
                            ),
                          ),
                        ),
                      ),
                    ),
                  ),
                ),
              ),
            ),
          ),
        ),
      ),
    ),
  )

  event_to_json-statements :
      (format_g : ℕ → Bytes) (e : LogEvent)
      → event_to_json format_g e
        ≡ (run (statements format_g e) (record { out = b'{' ∷ []; first = true })).out ++ b'}' ∷ []
  unfolding event_to_json run to_string_ℤ
  event_to_json-statements format_g e = refl

  -- An event whose values keep some limits (numbers in the range of `i64`, and no key twice among its
  -- fields) is written by `event_to_json` as `render_compact` renders the object of its members: the
  -- members that are set, in the canonical order, and the fields as an object of strings.
  pub event_to_json-render :
      (l : JsonLimits) (format_g : ℕ → Bytes) (e : LogEvent)
      → EventFits l format_g e
      → event_to_json format_g e ≡ render fl (event_object format_g e)
  unfolding render
  event_to_json-render l format_g e h =
      let w0 : Writer = record { out = b'{' ∷ []; first = true } in
      event_to_json-statements format_g e
      ∙ ap (λ w. w.out ++ b'}' ∷ [])
          (run-Writes (statements format_g e) (event_slots format_g e) w0
            (statements-Writes l format_g e h))
      ∙ ap (λ x. x ++ b'}' ∷ []) (write_all-out (event_slots format_g e) w0)
