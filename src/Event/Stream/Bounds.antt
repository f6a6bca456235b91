-- ===== src/Event/Stream/Bounds.antt =====
-- `earliest` and `latest` of a stream that was filled by `add`.
use chrono_sift.Common.{
  ◌⊎◌, true, not, ◌||◌, List, [], ◌∷◌, ◌++◌, ◌≡◌, refl, sym, ap, ◌∙◌, arith, All, Bool-cases, inl,
  inr, All-append, append-nil, append_assoc,
}
use chrono_sift.Common.Int.{ltb_ℤ, ◌≤ℤ◌}
use chrono_sift.Core.Timestamp.{Timestamp}
use chrono_sift.Event.Record.{LogEvent}
use chrono_sift.Event.Stream.{EventStream, empty_stream, first_of, last_of, add}

unfoldable pub add_all : EventStream → List LogEvent → EventStream
add_all s [] = s
add_all s (e ∷ es) = add_all (add s e) es

-- A timed event lies between `lo` and `hi`, which are times then.
abbrev pub Within : Timestamp → Timestamp → Timestamp → Type 0
Within lo hi t =
    t.valid ≡ true
    → (lo.valid ≡ true) × (hi.valid ≡ true) × (lo.micros ≤ℤ t.micros) × (t.micros ≤ℤ hi.micros)

abbrev pub Covers : Timestamp → Timestamp → LogEvent → Type 0
Covers lo hi e = Within lo hi e.timestamp

-- `t` is the time of one of the events.
pub data IsTimeOf (t : Timestamp) : List LogEvent → Type 0 where
  here : {e : LogEvent} {es : List LogEvent} → e.timestamp ≡ t → IsTimeOf t (e ∷ es)
  there : {e : LogEvent} {es : List LogEvent} → IsTimeOf t es → IsTimeOf t (e ∷ es)

pub record IsBounded (s : EventStream) : Type 0 where
  pub both : s.earliest.valid ≡ s.latest.valid
  pub covers : All (Covers s.earliest s.latest) s.events
  pub earliest_real : s.earliest.valid ≡ true → IsTimeOf s.earliest s.events
  pub latest_real : s.latest.valid ≡ true → IsTimeOf s.latest s.events

IsTimeOf-append : {t : Timestamp} (es fs : List LogEvent) → IsTimeOf t es → IsTimeOf t (es ++ fs)
IsTimeOf-append _ fs (here p) = here p
IsTimeOf-append (e ∷ es) fs (there m) = there (IsTimeOf-append es fs m)

IsTimeOf-last :
    {t : Timestamp} (es : List LogEvent) (e : LogEvent)
    → e.timestamp ≡ t
    → IsTimeOf t (es ++ e ∷ [])
IsTimeOf-last [] e p = here p
IsTimeOf-last (f ∷ es) e p = there (IsTimeOf-last es e p)

widen :
    (lo hi t x : Timestamp)
    → (lo.valid ≡ hi.valid)
    → Within lo hi x
    → Within (first_of t lo) (last_of t hi) x
unfolding first_of last_of
widen lo hi t x same w v = ground (arith, w v)

include : (lo hi t : Timestamp) → (lo.valid ≡ hi.valid) → Within (first_of t lo) (last_of t hi) t
unfolding first_of last_of
include lo hi t same v = ground arith

validity :
    (lo hi t : Timestamp) → lo.valid ≡ hi.valid → (first_of t lo).valid ≡ (last_of t hi).valid
unfolding first_of last_of
validity lo hi t same = ground arith

first_of-cases : (t lo : Timestamp) → (first_of t lo ≡ t) ⊎ (first_of t lo ≡ lo)
unfolding first_of
first_of-cases t lo = elim (Bool-cases t.valid) [
  | inr q ↦ inr (rw q)
  | inl p ↦ elim (Bool-cases (not lo.valid || ltb_ℤ t.micros lo.micros)) [
    | inl a ↦ inl (rw (p, a))
    | inr b ↦ inr (rw (p, b))
  ]
]

last_of-cases : (t hi : Timestamp) → (last_of t hi ≡ t) ⊎ (last_of t hi ≡ hi)
unfolding last_of
last_of-cases t hi = elim (Bool-cases t.valid) [
  | inr q ↦ inr (rw q)
  | inl p ↦ elim (Bool-cases (not hi.valid || ltb_ℤ hi.micros t.micros)) [
    | inl a ↦ inl (rw (p, a))
    | inr b ↦ inr (rw (p, b))
  ]
]

-- A bound that is the new event's time or the old bound is the time of an event.
bound-IsTimeOf :
    (es : List LogEvent) (e : LogEvent) (old new : Timestamp)
    → (new ≡ e.timestamp) ⊎ (new ≡ old)
    → (old.valid ≡ true → IsTimeOf old es)
    → new.valid ≡ true
    → IsTimeOf new (es ++ e ∷ [])
bound-IsTimeOf es e old new (inl p) m v = IsTimeOf-last es e (sym p)
bound-IsTimeOf es e old new (inr p) m v =
    IsTimeOf-append es (e ∷ []) (rw p (m (sym (ap (λ t. t.valid) p) ∙ v)))

Covers-grow :
    (lo hi t : Timestamp) (es : List LogEvent)
    → lo.valid ≡ hi.valid
    → All (Covers lo hi) es
    → All (Covers (first_of t lo) (last_of t hi)) es
Covers-grow lo hi t [] same h = tt
Covers-grow lo hi t (f ∷ es) same h =
    (widen lo hi t f.timestamp same h.0, Covers-grow lo hi t es same h.1)

add-IsBounded : (s : EventStream) (e : LogEvent) → IsBounded s → IsBounded (add s e)
unfolding add
add-IsBounded s e h =
    let lo = s.earliest in
    let hi = s.latest in
    let t = e.timestamp in
    record {
      both = validity lo hi t h.both;
      covers =
          All-append (Covers (first_of t lo) (last_of t hi)) s.events (e ∷ [])
            (Covers-grow lo hi t s.events h.both h.covers) (include lo hi t h.both, tt);
      earliest_real = bound-IsTimeOf s.events e lo _ (first_of-cases t lo) h.earliest_real;
      latest_real = bound-IsTimeOf s.events e hi _ (last_of-cases t hi) h.latest_real;
    }

-- Adding an event keeps a stream's bounds: `earliest` and `latest` are both times or both unset,
-- each one that is set is the time of an event of the stream, and no event with a time lies outside.
pub add_all-IsBounded :
    (s : EventStream) (es : List LogEvent) → IsBounded s → IsBounded (add_all s es)
unfolding add_all
add_all-IsBounded s [] h = h
add_all-IsBounded s (e ∷ es) h = add_all-IsBounded (add s e) es (add-IsBounded s e h)

empty_stream-IsBounded : IsBounded empty_stream
empty_stream-IsBounded = record {
  both = refl;
  covers = tt;
  earliest_real = λ v. absurd (ground arith);
  latest_real = λ v. absurd (ground arith);
}

events-add_all : (s : EventStream) (es : List LogEvent) → (add_all s es).events ≡ s.events ++ es
unfolding add_all add
events-add_all s [] = sym (append-nil s.events)
events-add_all s (e ∷ es) = events-add_all (add s e) es ∙ append_assoc s.events (e ∷ []) es

-- The stream that `add` fills from the empty one holds the events in the order in which they came,
-- and its `earliest` and `latest` bound the times of the events that have one, and are themselves
-- times of events, unless no event has a time.
pub add_all_lem :
    (es : List LogEvent)
    → ((add_all empty_stream es).events ≡ es) × IsBounded (add_all empty_stream es)
add_all_lem es =
    (events-add_all empty_stream es, add_all-IsBounded empty_stream es empty_stream-IsBounded)
