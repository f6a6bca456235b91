-- ===== src/Event/Stream/Sorted.antt =====
-- `sort_by_time` sorts, and stably.
use chrono_sift.Common.Int.{◌≤ℤ◌}
use chrono_sift.Common.{
  suc, false, List, [], ◌∷◌, ◌≡◌, refl, ap, ◌∙◌, arith, if◌then◌else◌, All, length, Bool-cases, inl,
  inr, true, sym, ◌⊎◌,
}
use chrono_sift.Core.Timestamp.{Timestamp, before, same_time}
use chrono_sift.Core.Timestamp.Order.{later, before_asym, before_trans}
use chrono_sift.Event.Record.{LogEvent}
use chrono_sift.Event.Stream.{EventStream, insert, sort, sort_by_time}

-- In order of time: an unknown time comes in front of every known one, and an earlier one in front of a
-- later one.
abbrev pub InOrder : Timestamp → Timestamp → Type 0
InOrder a b =
    ((a.valid ≡ false) × (b.valid ≡ true)) ⊎ ((a.valid ≡ b.valid) × (a.micros ≤ℤ b.micros))

before-InOrder : (a b : Timestamp) → before b a ≡ false → InOrder a b
unfolding before
before-InOrder a b h = elim (Bool-cases a.valid) [
  | inl p ↦ elim (Bool-cases b.valid) [
    | inl q ↦ inr (p ∙ sym q, ground arith)
    | inr q ↦ absurd (ground arith)
  ]
  | inr p ↦ elim (Bool-cases b.valid) [ inl q ↦ inl (p, q) | inr q ↦ inr (p ∙ sym q, ground arith) ]
]

abbrev NotAfter : LogEvent → LogEvent → Type 0
NotAfter e f = before f.timestamp e.timestamp ≡ false

-- The code's order, of each event and all that follow.
abbrev Ordered : List LogEvent → Type 0
Ordered [] = Unit
Ordered (e ∷ es) = All (NotAfter e) es × Ordered es

-- Each event is in order with all that follow.
abbrev pub IsSorted : List LogEvent → Type 0
IsSorted [] = Unit
IsSorted (e ∷ es) = All (λ f. InOrder e.timestamp f.timestamp) es × IsSorted es

-- The events of one timestamp, in order.
abbrev pub at_time : Timestamp → List LogEvent → List LogEvent
at_time t [] = []
at_time t (e ∷ es) = if same_time e.timestamp t then e ∷ at_time t es else at_time t es

-- What stands in front of `f` and `fs` stands in front of them after `insert` too.
NotAfter-insert :
    (e f : LogEvent) (fs : List LogEvent)
    → NotAfter e f
    → All (NotAfter e) fs
    → All (NotAfter e) (insert f fs)
unfolding insert
NotAfter-insert e f [] p h = (p, tt)
NotAfter-insert e f (g ∷ fs) p h = elim (Bool-cases (before g.timestamp f.timestamp)) [
  | inl q ↦ rw q (h.0, NotAfter-insert e f fs p h.1)
  | inr q ↦ rw q (p, h)
]

NotAfter-trans :
    (e f : LogEvent) (fs : List LogEvent) → NotAfter e f → All (NotAfter f) fs → All (NotAfter e) fs
NotAfter-trans e f [] p h = tt
NotAfter-trans e f (g ∷ fs) p h =
    (before_trans e.timestamp f.timestamp g.timestamp p h.0, NotAfter-trans e f fs p h.1)

insert-Ordered : (e : LogEvent) (fs : List LogEvent) → Ordered fs → Ordered (insert e fs)
unfolding insert
insert-Ordered e [] h = (tt, tt)
insert-Ordered e (f ∷ fs) h = elim (Bool-cases (before f.timestamp e.timestamp)) [
  | inl p ↦
      rw p (
        NotAfter-insert f e fs (before_asym f.timestamp e.timestamp p) h.0,
        insert-Ordered e fs h.1,
      )
  | inr q ↦ rw q ((q, NotAfter-trans e f fs q h.0), h)
]

-- Inserting passes only events of other times.
at_time-insert :
    (t : Timestamp) (e : LogEvent) (fs : List LogEvent)
    → at_time t (insert e fs) ≡ at_time t (e ∷ fs)
unfolding insert
at_time-insert t e [] = refl
at_time-insert t e (f ∷ fs) = elim (Bool-cases (before f.timestamp e.timestamp)) [
  | inr q ↦ rw q refl
  | inl p ↦ elim (Bool-cases (same_time f.timestamp t)) [
    | inr n ↦ rw (p, n) (at_time-insert t e fs)
    | inl y ↦
        rw (p, y)
          (rw (later f.timestamp e.timestamp t p y) (
            ap (λ es. f ∷ es)
              (at_time-insert t e fs ∙ rw (later f.timestamp e.timestamp t p y) refl)))
  ]
]

sort-Ordered : (es : List LogEvent) → Ordered (sort es)
unfolding sort
sort-Ordered [] = tt
sort-Ordered (e ∷ es) = insert-Ordered e (sort es) (sort-Ordered es)

All-InOrder :
    (e : LogEvent) (es : List LogEvent)
    → All (NotAfter e) es
    → All (λ f. InOrder e.timestamp f.timestamp) es
All-InOrder e [] h = tt
All-InOrder e (f ∷ es) h = (before-InOrder e.timestamp f.timestamp h.0, All-InOrder e es h.1)

Ordered-IsSorted : (es : List LogEvent) → Ordered es → IsSorted es
Ordered-IsSorted [] h = tt
Ordered-IsSorted (e ∷ es) h = (All-InOrder e es h.0, Ordered-IsSorted es h.1)

at_time-sort : (t : Timestamp) (es : List LogEvent) → at_time t (sort es) ≡ at_time t es
unfolding sort
at_time-sort t [] = refl
at_time-sort t (e ∷ es) =
    at_time-insert t e (sort es)
    ∙ ap (λ fs. if same_time e.timestamp t then e ∷ fs else fs) (at_time-sort t es)

length-insert : (e : LogEvent) (fs : List LogEvent) → length (insert e fs) ≡ suc (length fs)
unfolding insert
length-insert e [] = refl
length-insert e (f ∷ fs) = ground (arith, length-insert e fs)

length-sort : (es : List LogEvent) → length (sort es) ≡ length es
unfolding sort
length-sort [] = refl
length-sort (e ∷ es) = length-insert e (sort es) ∙ ap suc (length-sort es)

-- `sort_by_time` puts the events without a time first and the others in ascending order, keeps for every time the events of that
-- time with their order, and their number, and leaves `earliest` and `latest` as they were.
pub sort_by_time_lem :
    (s : EventStream)
    → IsSorted (sort_by_time s).events
      × ((t : Timestamp) → at_time t (sort_by_time s).events ≡ at_time t s.events)
      × (length (sort_by_time s).events ≡ length s.events)
      × ((sort_by_time s).earliest ≡ s.earliest)
      × ((sort_by_time s).latest ≡ s.latest)
unfolding sort_by_time
sort_by_time_lem s = (
  Ordered-IsSorted (sort s.events) (sort-Ordered s.events),
  λ t. at_time-sort t s.events,
  length-sort s.events,
  refl,
  refl,
)
