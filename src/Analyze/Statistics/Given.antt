-- ===== src/Analyze/Statistics/Given.antt =====
-- What the loop over the events adds to each counter.
use chrono_sift.Common.{
  ℕ, ◌+◌, ◌≤◌, ◌≡◌, Bool, false, not, List, [], ◌∷◌, Option, none, some, if◌then◌else◌, length,
  null, Bytes, eqb, All, Bool-cases, inl, inr, refl, ◌∙◌, arith, ◌==◌,
}
use chrono_sift.Event.Severity.{Severity, severity_name}
use chrono_sift.Event.Record.{LogEvent, source_format_name, signature}
use chrono_sift.Event.Stream.{count_timed, count_severe}
use chrono_sift.Analyze.Counter.{Count, Counter}
use chrono_sift.Analyze.Counter.Weights.{weight_of, FitsU64, add_all}
use chrono_sift.Analyze.Statistics.{
  StreamStatistics, add_set, add_class, http_status_class_name, count_event, count_events,
}

-- A key that an event gives to a counter, when it gives one.
abbrev pub Keyed : Type 0
Keyed = LogEvent → Option Bytes

abbrev pub if_set : Bytes → Option Bytes
if_set key = if not (null key) then some key else none

abbrev pub class_of : ℕ → Option Bytes
class_of status = if not (status == 0) then if_set (http_status_class_name status) else none

-- What each counter is given.
abbrev pub source_key : Keyed
source_key e = some (source_format_name e.source)

abbrev pub severity_key : Keyed
severity_key e = some (severity_name e.severity)

abbrev pub host_key : Keyed
host_key e = if_set e.host

abbrev pub app_key : Keyed
app_key e = if_set e.app

abbrev pub signature_key : Keyed
signature_key e = some (signature e)

abbrev pub ip_key : Keyed
ip_key e = if_set e.src_ip

abbrev pub user_key : Keyed
user_key e = if_set e.user

abbrev pub class_key : Keyed
class_key e = class_of e.http_status

abbrev gives : Bytes → Option Bytes → Bool
gives k none = false
gives k (some j) = eqb j k

-- The number of events that give a key.
abbrev pub giving : Keyed → Bytes → List LogEvent → ℕ
giving w k [] = 0
giving w k (e ∷ es) = (if gives k (w e) then 1 else 0) + giving w k es

-- The weights that a counter is given.
abbrev once : Option Bytes → List Count → List Count
once none cs = cs
once (some k) cs = record { key = k; count = 1 } ∷ cs

abbrev pub given : Keyed → List LogEvent → List Count
given w [] = []
given w (e ∷ es) = once (w e) (given w es)

add_set-once :
    (c : Counter) (key : Bytes) (cs : List Count)
    → add_all (add_set c key) cs ≡ add_all c (once (if_set key) cs)
add_set-once c [] cs = refl
add_set-once c (b ∷ key) cs = refl

add_class-once :
    (c : Counter) (status : ℕ) (cs : List Count)
    → add_all (add_class c status) cs ≡ add_all c (once (class_of status) cs)
add_class-once c status cs = elim (Bool-cases (status == 0)) [
  | inl nothing ↦ rw nothing refl
  | inr more ↦ rw more (add_set-once c (http_status_class_name status) cs)
]

weight_of-once :
    (k : Bytes) (o : Option Bytes) (cs : List Count)
    → weight_of k (once o cs) ≡ (if gives k o then 1 else 0) + weight_of k cs
weight_of-once k none cs = omega arith
weight_of-once k (some j) cs = refl

pub weight_of-given :
    (w : Keyed) (k : Bytes) (es : List LogEvent) → weight_of k (given w es) ≡ giving w k es
weight_of-given w k [] = refl
weight_of-given w k (e ∷ es) =
    omega (arith, weight_of-once k (w e) (given w es), weight_of-given w k es)

once-FitsU64 : (o : Option Bytes) (cs : List Count) → All FitsU64 cs → All FitsU64 (once o cs)
once-FitsU64 none cs h = h
once-FitsU64 (some k) cs h = (omega arith, h)

pub given-FitsU64 : (w : Keyed) (es : List LogEvent) → All FitsU64 (given w es)
given-FitsU64 w [] = tt
given-FitsU64 w (e ∷ es) = once-FitsU64 (w e) (given w es) (given-FitsU64 w es)

pub giving-length : (w : Keyed) (k : Bytes) (es : List LogEvent) → giving w k es ≤ length es
giving-length w k [] = omega arith
giving-length w k (e ∷ es) = ground (arith, giving-length w k es)

-- What the loop over the events does to the counters.
pub record AreGiven (st : StreamStatistics) (es : List LogEvent) (now : StreamStatistics)
    : Type 0 where
  pub total : now.total_events ≡ st.total_events
  pub earliest : now.earliest ≡ st.earliest
  pub latest : now.latest ≡ st.latest
  pub timed : now.timed_events ≡ st.timed_events + count_timed es
  pub errors : now.error_or_worse ≡ st.error_or_worse + count_severe Severity.error es
  pub source : now.by_source ≡ add_all st.by_source (given source_key es)
  pub severity : now.by_severity ≡ add_all st.by_severity (given severity_key es)
  pub host : now.by_host ≡ add_all st.by_host (given host_key es)
  pub app : now.by_app ≡ add_all st.by_app (given app_key es)
  pub signed : now.by_signature ≡ add_all st.by_signature (given signature_key es)
  pub ip : now.top_source_ips ≡ add_all st.top_source_ips (given ip_key es)
  pub user : now.top_users ≡ add_all st.top_users (given user_key es)
  pub classes : now.http_status_class ≡ add_all st.http_status_class (given class_key es)

pub count_events-AreGiven :
    (st : StreamStatistics) (es : List LogEvent) → AreGiven st es (count_events st es)
unfolding count_events count_event count_timed count_severe
count_events-AreGiven st [] = record {
  total = refl;
  earliest = refl;
  latest = refl;
  timed = omega arith;
  errors = omega arith;
  source = refl;
  severity = refl;
  host = refl;
  app = refl;
  signed = refl;
  ip = refl;
  user = refl;
  classes = refl;
}
count_events-AreGiven st (e ∷ es) =
    let more = count_events-AreGiven (count_event st e) es in
    record {
      total = more.total;
      earliest = more.earliest;
      latest = more.latest;
      timed = ground (arith, more.timed);
      errors = ground (arith, more.errors);
      source = more.source;
      severity = more.severity;
      host = more.host ∙ add_set-once st.by_host e.host (given host_key es);
      app = more.app ∙ add_set-once st.by_app e.app (given app_key es);
      signed = more.signed;
      ip = more.ip ∙ add_set-once st.top_source_ips e.src_ip (given ip_key es);
      user = more.user ∙ add_set-once st.top_users e.user (given user_key es);
      classes =
          more.classes ∙ add_class-once st.http_status_class e.http_status (given class_key es);
    }
