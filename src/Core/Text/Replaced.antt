-- ===== src/Core/Text/Replaced.antt =====
-- `replace_all` against a description of the text that it is to give.
use chrono_sift.Common.{
  ℕ, zero, suc, ◌+◌, ◌≤◌, ◌<◌, ◌≡◌, true, false, [], ◌∷◌, ◌++◌, none, some, arith, refl, sym, ap,
  ◌∙◌, Bytes, length, take, drop, null, eqb_refl, leb, Bool-cases, Option-cases, inl, inr,
  length-append, length-take, take-append,
}
use chrono_sift.Core.Text.{starts_with, find, replace_from, replace_all}
use chrono_sift.Core.Text.Replace.{
  Splits, find-Splits, rest_shorter, replace_from-found, replace_from-absent,
}

-- `t` is `s` with `to` for each `from`: `s` holds no `from`, or it begins with `pre` and `from`, of which
-- no place is earlier, and the same goes for all that follows.
pub data Replaces (from to : Bytes) : Bytes → Bytes → Type 0 where
  absent : {s : Bytes} → ((p q : Bytes) → ¬ (s ≡ p ++ (from ++ q))) → Replaces from to s s
  first :
      {s t : Bytes} (pre rest out : Bytes)
      → s ≡ pre ++ (from ++ rest)
      → t ≡ pre ++ (to ++ out)
      → ((p q : Bytes) → s ≡ p ++ (from ++ q) → length pre ≤ length p)
      → Replaces from to rest out
      → Replaces from to s t

starts_with-append : (a b : Bytes) → starts_with (a ++ b) a ≡ true
unfolding starts_with
starts_with-append a b =
    let fits : leb (length a) (length (a ++ b)) ≡ true = ground (arith, length-append {0} a b) in
    rw (fits, take-append a b) (eqb_refl a)

-- `find` stops at an earlier place, or at this one.
find_no_later :
    (from p q : Bytes)
    → null from ≡ false
    → (i : ℕ) × (find from (p ++ (from ++ q)) ≡ some i) × (i ≤ length p)
unfolding find
find_no_later [] p q h = absurd (ground arith)
find_no_later (x ∷ from) [] q h = (0, rw (starts_with-append (x ∷ from) q, find) refl, omega arith)
find_no_later (x ∷ from) (c ∷ p) q h =
    elim (Bool-cases (starts_with (c ∷ (p ++ (x ∷ from ++ q))) (x ∷ from))) [
      | inl y ↦ (0, rw (y, find) refl, omega arith)
      | inr n ↦
          let (i, e, k) = find_no_later (x ∷ from) p q h in
          (suc i, rw (n, find) (rw e refl), omega (arith, k))
    ]

find_absent :
    (from s : Bytes)
    → null from ≡ false
    → find from s ≡ none
    → (p q : Bytes) → ¬ (s ≡ p ++ (from ++ q))
find_absent from s h e p q same =
    let (i, f, k) = find_no_later from p q h in
    let no : none ≡ some i = sym e ∙ ap (find from) same ∙ f in absurd (ground arith)

find_first :
    (from s : Bytes) (i : ℕ)
    → null from ≡ false
    → find from s ≡ some i
    → (p q : Bytes) → s ≡ p ++ (from ++ q)
    → i ≤ length p
find_first from s i h e p q same =
    let (j, f, k) = find_no_later from p q h in
    let met : some i ≡ some j = sym e ∙ ap (find from) same ∙ f in
    let eq : i ≡ j = ground arith in omega (arith, eq, k)

length-pre : (from s : Bytes) (i : ℕ) → Splits from s i → length (take i s) ≡ i
length-pre from s i h = omega (arith, length-take {0} i s, h.1)

replace_from-Replaces :
    (f : ℕ) (s from to : Bytes)
    → null from ≡ false
    → length s < f
    → Replaces from to s (replace_from f s from to)
replace_from-Replaces zero s from to h k = absurd (omega arith)
replace_from-Replaces (suc f) s from to h k = elim (Option-cases (find from s)) [
  | inl n ↦ rw (replace_from-absent f s from to n) (absent (find_absent from s h n))
  | inr (i, e) ↦
      let sp = find-Splits from s i e in
      first (take i s) (drop (i + length from) s) _ (sym sp.0) (replace_from-found f i s from to e)
        (λ p q same. omega (arith, length-pre from s i sp, find_first from s i h e p q same))
        (replace_from-Replaces f (drop (i + length from) s) from to h
          (omega (arith, rest_shorter from s i h e, k)))
]

-- For a `from` that is not empty, `replace_all` puts `to` for the first place of `from`, goes on with all
-- that follows, and leaves a text in which no `from` is left as it is.
pub replace_all-Replaces :
    (s from to : Bytes) → null from ≡ false → Replaces from to s (replace_all s from to)
unfolding replace_all
replace_all-Replaces s from to h =
    rw h (replace_from-Replaces (suc (length s)) s from to h (omega arith))
