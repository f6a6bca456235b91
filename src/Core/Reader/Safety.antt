-- ===== src/Core/Reader/Safety.antt =====
-- Any sequence of calls keeps the reader in its window and the first failure in place.
use chrono_sift.Common.{refl, [], not, ap, ◌∙◌, ◌∷◌, List, Bytes, ◌≤◌, true, ◌≡◌, arith, length}
use chrono_sift.Core.Reader.{is_ok, reader, after_all, ByteReader, error, Call, after}

-- The cursor is within the span.
pub record IsValid (r : ByteReader) : Type 0 where
  pub within : r.pos ≤ length r.span

-- `r` has become `t`: the span is the same, the cursor is in the window, and a failure has stayed.
pub record Follows (r t : ByteReader) : Type 0 where
  pub valid : IsValid t
  pub span_same : t.span ≡ r.span
  pub sticky : error r ≡ true → t.status ≡ r.status

pub after-Follows : (r : ByteReader) (c : Call) → IsValid r → Follows r (after r c)
unfolding after
after-Follows r (Call.seek_to n) v = ground arith
after-Follows r (Call.skip_by n) v = ground arith
after-Follows r (Call.bytes n) v = ground arith
after-Follows r _ v = ground arith

pub after_all-Follows : (cs : List Call) (r : ByteReader) → IsValid r → Follows r (after_all r cs)
unfolding after_all
after_all-Follows [] r v = record { valid = v; span_same = refl; sticky = λ h. refl }
after_all-Follows (c ∷ cs) r v =
    let one = after-Follows r c v in
    let rest = after_all-Follows cs (after r c) one.valid in
    record {
      valid = rest.valid;
      span_same = rest.span_same ∙ one.span_same;
      sticky = λ h. rest.sticky (ap (λ s. not (is_ok s.code)) (one.sticky h) ∙ h) ∙ one.sticky h;
    }

-- Whatever calls a decoder makes on a new reader, the span stays the same and the cursor within it;
-- and once a call has failed, no later call changes the status.
pub calls-safe :
    (s : Bytes) (before later : List Call)
    → Follows (reader s) (after_all (reader s) before)
      × Follows (after_all (reader s) before) (after_all (after_all (reader s) before) later)
calls-safe s before later =
    let one = after_all-Follows before (reader s) (record { within = omega arith }) in
    (one, after_all-Follows later (after_all (reader s) before) one.valid)
