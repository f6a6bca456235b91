-- ===== src/Analyze/Timeline/Peak.antt =====
-- The busiest bucket.
use chrono_sift.Common.{
  ◌≢◌, append-nil, All-append, ℕ, zero, suc, ◌+◌, ◌≤◌, ◌<◌, ◌≡◌, List, [], ◌∷◌, ◌++◌, ltb, length,
  arith, refl, inl, inr, Bool-cases, get_or, All, sym, ◌∙◌, length-append, append_assoc,
}
use chrono_sift.Analyze.Timeline.{TimelineBucket, Timeline, peak_from, peak_bucket, no_bucket}

abbrev pub count_at : List TimelineBucket → ℕ → ℕ
count_at bs i = (get_or bs i no_bucket).count

-- `i` is a place of the list, and no count is above the count there.
pub record IsPeak (bs : List TimelineBucket) (i : ℕ) : Type 0 where
  pub placed : i < length bs
  pub highest : All (λ b. b.count ≤ count_at bs i) bs

get_or-append :
    (bs cs : List TimelineBucket) (i : ℕ) → i < length bs → count_at (bs ++ cs) i ≡ count_at bs i
get_or-append [] cs i h = absurd (omega arith)
get_or-append (b ∷ bs) cs zero h = refl
get_or-append (b ∷ bs) cs (suc i) h = get_or-append bs cs i (omega arith)

get_or-last :
    (bs : List TimelineBucket) (b : TimelineBucket) → count_at (bs ++ b ∷ []) (length bs) ≡ b.count
get_or-last [] b = refl
get_or-last (c ∷ bs) b = get_or-last bs b

All-le :
    (n m : ℕ) (bs : List TimelineBucket)
    → n ≤ m
    → All (λ b. b.count ≤ n) bs
    → All (λ b. b.count ≤ m) bs
All-le n m [] h a = tt
All-le n m (b ∷ bs) h a = (omega (arith, a.0), All-le n m bs h a.1)

-- A next bucket that is not busier leaves the peak in place; a busier one is the new peak.
IsPeak-stays :
    (bs : List TimelineBucket) (b : TimelineBucket) (i : ℕ)
    → IsPeak bs i
    → b.count ≤ count_at bs i
    → IsPeak (bs ++ b ∷ []) i
IsPeak-stays bs b i p h = record {
  placed = omega (arith, p.placed, length-append {0} bs (b ∷ []));
  highest =
      rw (get_or-append bs (b ∷ []) i p.placed)
        (All-append (λ c. c.count ≤ count_at bs i) bs (b ∷ []) p.highest (h, tt));
}

IsPeak-moves :
    (bs : List TimelineBucket) (b : TimelineBucket) (i : ℕ)
    → IsPeak bs i
    → count_at bs i < b.count
    → IsPeak (bs ++ b ∷ []) (length bs)
IsPeak-moves bs b i p h = record {
  placed = omega (arith, length-append {0} bs (b ∷ []));
  highest = rw (get_or-last bs b) (
      All-append (λ c. c.count ≤ b.count) bs (b ∷ [])
        (All-le (count_at bs i) b.count bs (omega arith) p.highest) (omega arith, tt));
}

peak_from-IsPeak :
    (done rest : List TimelineBucket) (i best top : ℕ)
    → i ≡ length done
    → top ≡ count_at done best
    → IsPeak done best
    → IsPeak (done ++ rest) (peak_from i best top rest)
unfolding peak_from
peak_from-IsPeak done [] i best top e t p = rw (append-nil done) p
peak_from-IsPeak done (b ∷ rest) i best top e t p =
    let len = length-append {0} done (b ∷ []) in
    elim (Bool-cases (ltb top b.count)) [
      | inl y ↦
          rw (y, sym (append_assoc done (b ∷ []) rest), e)
            (peak_from-IsPeak (done ++ b ∷ []) rest (length done + 1) (length done) b.count
              (omega (arith, len)) (sym (get_or-last done b))
              (IsPeak-moves done b best p (ground (arith, y, t))))
      | inr n ↦
          rw (n, sym (append_assoc done (b ∷ []) rest))
            (peak_from-IsPeak (done ++ b ∷ []) rest (i + 1) best top (omega (arith, len, e))
              (t ∙ sym (get_or-append done (b ∷ []) best p.placed))
              (IsPeak-stays done b best p (ground (arith, n, t))))
    ]

-- `peak_bucket` of a timeline with buckets is the place of one whose count no other exceeds.
pub peak_bucket-IsPeak :
    (tl : Timeline) → length tl.buckets ≢ 0 → IsPeak tl.buckets (peak_bucket tl)
unfolding peak_bucket
peak_bucket-IsPeak tl h = of_buckets tl.buckets h
  where
    of_buckets :
        (bs : List TimelineBucket)
        → length bs ≢ 0
        → IsPeak bs (elim bs [ [] ↦ 0 | b ∷ bs ↦ peak_from 1 0 b.count bs ])
    of_buckets [] h = absurd (h refl)
    of_buckets (b ∷ bs) h =
        peak_from-IsPeak (b ∷ []) bs 1 0 b.count (omega arith) refl
          (record { placed = omega arith; highest = (omega arith, tt) })
