-- ===== src/Core/Text/Trim.antt =====
-- `trim` (src/core/string_util.cpp): what it takes away and what it leaves.
use chrono_sift.Common.{
  ℕ, zero, suc, ◌+◌, ◌-◌, ◌≤◌, ◌<◌, Bool, true, false, ◌&&◌, [], ◌∷◌, ◌++◌, inl, inr, ◌≡◌, refl,
  sym, ap, ◌∙◌, arith, ltb, Bytes, length, get_or, take, drop, All, append-nil, append_assoc,
  Bool-cases, take_all, All-append, length-drop,
}
use native.Mathlib.Nat.{zero-add, add-zero, suc-add}
use chrono_sift.Core.Chars.{is_space}
use chrono_sift.Core.Text.{space_run, trim_end, trim}

abbrev pub IsSpace : ℕ → Type 0
IsSpace c = is_space c ≡ true

abbrev pub first_is_space : Bytes → Bool
first_is_space [] = false
first_is_space (c ∷ s) = is_space c

abbrev pub last_is_space : Bytes → Bool
last_is_space [] = false
last_is_space (c ∷ []) = is_space c
last_is_space (c ∷ d ∷ s) = last_is_space (d ∷ s)

-- No whitespace at either end.
pub record IsTrimmed (s : Bytes) : Type 0 where
  pub first : first_is_space s ≡ false
  pub last : last_is_space s ≡ false

last_is_space-append : (s : Bytes) (c : ℕ) → last_is_space (s ++ c ∷ []) ≡ is_space c
last_is_space-append [] c = refl
last_is_space-append (x ∷ []) c = refl
last_is_space-append (x ∷ y ∷ s) c = last_is_space-append (y ∷ s) c

take-suc : (n : ℕ) (s : Bytes) → n < length s → take (suc n) s ≡ take n s ++ get_or s n 0 ∷ []
take-suc n [] h = absurd (omega arith)
take-suc zero (c ∷ s) h = refl
take-suc (suc n) (c ∷ s) h = ap (λ t. c ∷ t) (take-suc n s (omega arith))

get_or-drop : (i k : ℕ) (s : Bytes) → get_or (drop i s) k 0 ≡ get_or s (i + k) 0
get_or-drop zero k s = rw zero-add
get_or-drop (suc i) k [] = refl
get_or-drop (suc i) k (c ∷ s) = rw (suc-add i k) (get_or-drop i k s)

take-add : (i k : ℕ) (s : Bytes) → take (i + k) s ≡ take i s ++ take k (drop i s)
take-add zero k s = rw zero-add
take-add (suc i) zero [] = rw add-zero
take-add (suc i) (suc k) [] = rw (suc-add i (suc k))
take-add (suc i) k (c ∷ s) = rw (suc-add i k) (ap (λ t. c ∷ t) (take-add i k s))

pub space_run-le : (s : Bytes) → space_run s ≤ length s
unfolding space_run
space_run-le [] = omega arith
space_run-le (c ∷ s) = ground (arith, space_run-le s)

All-space_run : (s : Bytes) → All IsSpace (take (space_run s) s)
unfolding space_run
All-space_run [] = tt
All-space_run (c ∷ s) = ground (arith, All-space_run s)

pub first-space_run : (s : Bytes) → first_is_space (drop (space_run s) s) ≡ false
unfolding space_run
first-space_run [] = refl
first-space_run (c ∷ s) = ground (arith, first-space_run s)

-- Where the loop at the end stops.
record Stops (s : Bytes) (i n m : ℕ) : Type 0 where
  cut : Bytes
  splits : take n s ≡ take m s ++ cut
  spaces : All IsSpace cut
  above : i ≤ m
  below : m ≤ n
  stopped : i < m → is_space (get_or s (m - 1) 0) ≡ false

trim_end-Stops : (s : Bytes) (i n : ℕ) → i ≤ n → n ≤ length s → Stops s i n (trim_end s i n)
unfolding trim_end
trim_end-Stops s i zero h le = record {
  cut = [];
  splits = refl;
  spaces = tt;
  above = h;
  below = omega arith;
  stopped = λ lt. absurd (omega arith);
}
trim_end-Stops s i (suc n) h le = elim (Bool-cases (ltb i (suc n) && is_space (get_or s n 0))) [
  | inl more ↦
      let both : (i < suc n) × (is_space (get_or s n 0) ≡ true) = (ground arith, ground arith) in
      let r = trim_end-Stops s i n (omega arith) (omega arith) in
      let m = trim_end s i n in
      let c = get_or s n 0 in
      rw more (record {
        cut = r.cut ++ c ∷ [];
        splits =
            take-suc n s (omega arith)
            ∙ ap (λ t. t ++ c ∷ []) r.splits
            ∙ append_assoc (take m s) r.cut (c ∷ []);
        spaces = All-append IsSpace r.cut (c ∷ []) r.spaces (both.1, tt);
        above = r.above;
        below = omega (arith, r.below);
        stopped = r.stopped;
      })
  | inr done ↦ rw done (record {
    cut = [];
    splits = sym (append-nil _);
    spaces = tt;
    above = h;
    below = omega arith;
    stopped = λ lt. ground arith;
  })
]

first-take : (k : ℕ) (u : Bytes) → first_is_space u ≡ false → first_is_space (take k u) ≡ false
first-take zero u h = refl
first-take (suc k) [] h = refl
first-take (suc k) (c ∷ u) h = h

take-IsTrimmed :
    (k i : ℕ) (s : Bytes)
    → i + k ≤ length s
    → first_is_space (drop i s) ≡ false
    → (i < i + k → is_space (get_or s (i + k - 1) 0) ≡ false)
    → IsTrimmed (take k (drop i s))
take-IsTrimmed zero i s le f l = record { first = refl; last = refl }
take-IsTrimmed (suc k) i s le f l =
    let u = drop i s in
    let e : i + suc k - 1 ≡ i + k = omega arith in
    record {
      first = first-take (suc k) u f;
      last = rw (take-suc k u (omega (arith, length-drop i s))) (
          last_is_space-append (take k u) (get_or u k 0)
          ∙ ap is_space (get_or-drop i k s)
          ∙ rw e at (l (omega arith)));
    }

-- `trim` removes whitespace only, from both ends, and leaves none there.
pub trim_splits :
    (s : Bytes)
    → (l : Bytes) × (r : Bytes) × (s ≡ l ++ (trim s ++ r))
      × All IsSpace l
      × All IsSpace r
      × IsTrimmed (trim s)
unfolding trim
trim_splits s =
    let i = space_run s in
    let n = length s in
    let m = trim_end s i n in
    let st = trim_end-Stops s i n (space_run-le s) (omega arith) in
    let k = m - i in
    let e : i + k ≡ m = omega (arith, st.above) in
    let mid : take m s ≡ take i s ++ take k (drop i s) = rw e at (take-add i k s) in
    (
      take i s,
      st.cut,
      sym (take_all n s (omega arith))
          ∙ st.splits
          ∙ ap (λ t. t ++ st.cut) mid
          ∙ append_assoc (take i s) (take k (drop i s)) st.cut,
      All-space_run s,
      st.spaces,
      take-IsTrimmed k i s (omega (arith, st.below, e)) (first-space_run s)
          (λ lt. rw e (st.stopped (omega (arith, e)))),
    )

space_run-first : (s : Bytes) → first_is_space s ≡ false → space_run s ≡ 0
unfolding space_run
space_run-first [] h = refl
space_run-first (c ∷ s) h = rw h

last-get_or : (s : Bytes) (n : ℕ) → length s ≡ suc n → last_is_space s ≡ is_space (get_or s n 0)
last-get_or [] n h = absurd (omega arith)
last-get_or (c ∷ []) zero h = refl
last-get_or (c ∷ []) (suc n) h = absurd (omega arith)
last-get_or (c ∷ d ∷ s) zero h = absurd (omega arith)
last-get_or (c ∷ d ∷ s) (suc n) h = last-get_or (d ∷ s) n (omega arith)

trim_end-full : (s : Bytes) (n : ℕ) → length s ≡ n → last_is_space s ≡ false → trim_end s 0 n ≡ n
unfolding trim_end
trim_end-full s zero e h = refl
trim_end-full s (suc n) e h = rw (sym (last-get_or s n e) ∙ h) (ground arith)

pub trim-IsTrimmed_id : (s : Bytes) → IsTrimmed s → trim s ≡ s
unfolding trim
trim-IsTrimmed_id s t =
    rw (space_run-first s t.first)
      (rw (trim_end-full s (length s) refl t.last) (take_all (length s - 0) s (omega arith)))

-- Trimming twice is trimming once.
pub trim_idem : (s : Bytes) → trim (trim s) ≡ trim s
trim_idem s = let (l, r, e, hl, hr, t) = trim_splits s in trim-IsTrimmed_id (trim s) t
