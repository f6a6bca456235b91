-- ===== src/Core/Reader/Batch.antt =====
-- A decoder may make a batch of reads and test `error` once at the end.
use chrono_sift.Common.{
  ◌⊎◌, inr, leb→le, inl, ℕ, ◌+◌, ◌-◌, ◌≤◌, ◌<◌, Bool, true, false, not, List, [], ◌∷◌, ◌≡◌, arith,
  ◌∙◌, ap, leb, length, Bool-cases,
}
use chrono_sift.Core.Status.{is_ok}
use chrono_sift.Core.Reader.{ByteReader, error, Call, after, after_all}
use chrono_sift.Core.Reader.Safety.{IsValid, after-Follows, after_all-Follows}

-- The bytes that a read passes.
abbrev pub width : Call → ℕ
width (Call.seek_to n) = 0
width (Call.skip_by n) = n
width (Call.bytes n) = n
width Call.u8 = 1
width Call.u16_le = 2
width Call.u16_be = 2
width Call.u32_le = 4
width Call.u32_be = 4
width Call.u64_le = 8
width Call.u64_be = 8

abbrev pub total : List Call → ℕ
total [] = 0
total (c ∷ cs) = width c + total cs

-- Reads and skips, no seek.
abbrev pub is_read : Call → Bool
is_read (Call.seek_to n) = false
is_read _ = true

abbrev pub AllReads : List Call → Type 0
AllReads [] = Unit
AllReads (c ∷ cs) = (is_read c ≡ true) × AllReads cs

-- The outcome of reads of `n` bytes together, from a reader with no failure.
abbrev pub Reads : ByteReader → ℕ → ByteReader → Type 0
Reads r n t =
    (r.pos + n ≤ length r.span → t ≡ record r { pos = r.pos + n })
    × (length r.span < r.pos + n → error t ≡ true)

after-Reads :
    (r : ByteReader) (c : Call)
    → IsValid r
    → error r ≡ false
    → is_read c ≡ true
    → Reads r (width c) (after r c)
unfolding after
after-Reads r (Call.seek_to n) v e h = cc
after-Reads r (Call.skip_by n) v e h = ground arith
after-Reads r (Call.bytes n) v e h = ground arith
after-Reads r _ v e h = ground arith

over_stays_over :
    (r : ByteReader) (n m : ℕ)
    → r.pos ≤ length r.span
    → n ≤ length r.span - r.pos
    → length r.span < r.pos + (n + m)
    → length r.span < r.pos + n + m
over_stays_over r n m v h k = omega arith

pub batch-Reads :
    (cs : List Call) (r : ByteReader)
    → IsValid r
    → error r ≡ false
    → AllReads cs
    → Reads r (total cs) (after_all r cs)
unfolding after_all
batch-Reads [] r v e h =
    let same : r.pos + 0 ≡ r.pos = omega arith in
    (λ le. rw same, λ lt. absurd (omega (arith, v.within)))
batch-Reads (c ∷ cs) r v e h = elim (Bool-cases (leb (r.pos + width c) (length r.span))) [
  | inl fits ↦
      let step = (after-Reads r c v e h.0).0 (leb→le _ _ fits) in
      let q : ByteReader = record r { pos = r.pos + width c } in
      let rest = batch-Reads cs q (record { within = leb→le _ _ fits }) e h.1 in
      let regroup : r.pos + width c + total cs ≡ r.pos + (width c + total cs) = omega arith in
      (
        λ le.
            ap (λ t. after_all t cs) step
            ∙ rest.0 (omega (arith, regroup))
            ∙ ap (λ (n : ℕ). record r { pos = n }) regroup,
        λ lt. ap (λ t. error (after_all t cs)) step ∙ rest.1 (omega (arith, regroup)),
      )
  | inr short ↦
      let over : length r.span < r.pos + width c = ground arith in
      let bad = (after-Reads r c v e h.0).1 over in
      let rest = after_all-Follows cs (after r c) (after-Follows r c v).valid in
      (
        λ le. absurd (omega (arith, over)),
        λ lt. ap (λ s. not (is_ok s.code)) (rest.sticky bad) ∙ bad,
      )
]

-- A batch of reads and skips from a reader with no failure: if the bytes that they ask for together
-- are there, all succeed and the cursor has passed just these; if not, `error` is set at the end.
pub batch_lem :
    (cs : List Call) (r : ByteReader)
    → IsValid r
    → error r ≡ false
    → AllReads cs
    → ((r.pos + total cs ≤ length r.span) × (after_all r cs ≡ record r { pos = r.pos + total cs }))
      ⊎ ((length r.span < r.pos + total cs) × (error (after_all r cs) ≡ true))
batch_lem cs r v e h =
    let out = batch-Reads cs r v e h in
    elim (Bool-cases (leb (r.pos + total cs) (length r.span))) [
      | inl fits ↦ let le = leb→le _ _ fits in inl (le, out.0 le)
      | inr short ↦ let lt : length r.span < r.pos + total cs = ground arith in inr (lt, out.1 lt)
    ]
