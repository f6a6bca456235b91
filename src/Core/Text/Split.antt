-- ===== src/Core/Text/Split.antt =====
-- `split`, `split_whitespace` and `join` (src/core/string_util.cpp).
use chrono_sift.Common.{
  ℕ, ◌+◌, ◌≤◌, ◌<◌, true, false, ◌&&◌, ◌||◌, List, [], ◌∷◌, ◌++◌, inl, inr, ◌≡◌, refl, sym, ap, ◌∙◌,
  arith, ltb, ◌==◌, if◌then◌else◌, Bytes, length, All, null, append-nil, append_assoc, Bool-cases,
  All-append, ==_refl,
}
use chrono_sift.Core.Text.{split_from, split, join_from, join}

abbrev pub Lacks : ℕ → Bytes → Type 0
Lacks d s = All (λ c. (c == d) ≡ false) s

join_later :
    (parts : List Bytes) (sep : Bytes)
    → join_from true parts sep ≡ (if null parts then [] else sep ++ join parts sep)
unfolding join
join_later [] sep = refl
join_later (p ∷ parts) sep = refl

split_from-ne-nil : (d max n : ℕ) (cur s : Bytes) → null (split_from d false max n cur s) ≡ false
unfolding split_from
split_from-ne-nil d max n cur [] = refl
split_from-ne-nil d max n cur (c ∷ s) = ground (arith, split_from-ne-nil d max n (cur ++ c ∷ []) s)

split_from-join :
    (d max n : ℕ) (cur s : Bytes) → join (split_from d false max n cur s) (d ∷ []) ≡ cur ++ s
unfolding split_from join
split_from-join d max n cur [] = refl
split_from-join d max n cur (c ∷ s) = elim (Bool-cases (c == d && (max == 0 || ltb n max))) [
  | inl cut ↦
      let e : c ≡ d = ground arith in
      let rest = split_from d false max (n + 1) [] s in
      rw cut (
        ap (λ t. cur ++ t)
          (join_later rest (d ∷ [])
            ∙ rw (split_from-ne-nil d max (n + 1) [] s)
                (ap (λ t. d ∷ t) (split_from-join d max (n + 1) [] s) ∙ ap (λ x. x ∷ s) (sym e))))
  | inr keep ↦ rw keep (split_from-join d max n (cur ++ c ∷ []) s ∙ append_assoc cur (c ∷ []) s)
]

-- Joining the fields of a split by the delimiter gives the text back, whatever the limit.
pub join-split : (s : Bytes) (d max : ℕ) → join (split s d false max) (d ∷ []) ≡ s
unfolding split
join-split s d max = split_from-join d max 0 [] s

split_from-Lacks :
    (d n : ℕ) (cur s : Bytes) → Lacks d cur → All (Lacks d) (split_from d false 0 n cur s)
unfolding split_from
split_from-Lacks d n cur [] h = (h, tt)
split_from-Lacks d n cur (c ∷ s) h = elim (Bool-cases (c == d)) [
  | inl cut ↦ rw cut (h, split_from-Lacks d (n + 1) [] s tt)
  | inr keep ↦
      rw keep (split_from-Lacks d n (cur ++ c ∷ []) s (All-append _ cur (c ∷ []) h (keep, tt)))
]

split_from-bound :
    (d max n : ℕ) (cur s : Bytes)
    → 0 < max
    → n ≤ max
    → n + length (split_from d false max n cur s) ≤ max + 1
unfolding split_from
split_from-bound d max n cur [] p h = omega arith
split_from-bound d max n cur (c ∷ s) p h =
    ground
      (arith, split_from-bound d max (n + 1) [] s p, split_from-bound d max n (cur ++ c ∷ []) s p)

-- With no limit no field holds the delimiter; with a limit of `max`, not 0, there are at most max + 1
-- fields.
pub split_fields :
    (s : Bytes) (d max : ℕ)
    → 0 < max
    → All (Lacks d) (split s d false 0) × (length (split s d false max) ≤ max + 1)
unfolding split
split_fields s d max p =
    (split_from-Lacks d 0 [] s tt, omega (arith, split_from-bound d max 0 [] s p (omega arith)))

abbrev pub drop_empty : List Bytes → List Bytes
drop_empty [] = []
drop_empty (p ∷ ps) = if null p then drop_empty ps else p ∷ drop_empty ps

split_from-skip :
    (d max n : ℕ) (cur s : Bytes)
    → split_from d true max n cur s ≡ drop_empty (split_from d false max n cur s)
unfolding split_from
split_from-skip d max n cur [] = ground arith
split_from-skip d max n cur (c ∷ s) =
    ground (arith, split_from-skip d max (n + 1) [] s, split_from-skip d max n (cur ++ c ∷ []) s)

-- `skip_empty` leaves out the empty fields, and counts their delimiters all the same.
pub split-skip_empty :
    (s : Bytes) (d max : ℕ) → split s d true max ≡ drop_empty (split s d false max)
unfolding split
split-skip_empty s d max = split_from-skip d max 0 [] s

split_from-append :
    (d n : ℕ) (cur p s : Bytes)
    → Lacks d p
    → split_from d false 0 n cur (p ++ s) ≡ split_from d false 0 n (cur ++ p) s
unfolding split_from
split_from-append d n cur [] s h = rw append-nil
split_from-append d n cur (c ∷ p) s h =
    rw h.0 (split_from-append d n (cur ++ c ∷ []) p s h.1 ∙ rw append_assoc)

split_from-join_from :
    (d n : ℕ) (cur p : Bytes) (parts : List Bytes)
    → Lacks d p
    → All (Lacks d) parts
    → split_from d false 0 n cur (p ++ join_from true parts (d ∷ [])) ≡ (cur ++ p) ∷ parts
unfolding split_from join_from
split_from-join_from d n cur p [] h hs = split_from-append d n cur p [] h
split_from-join_from d n cur p (q ∷ parts) h hs =
    split_from-append d n cur p (d ∷ (q ++ join_from true parts (d ∷ []))) h
    ∙ rw ==_refl (ap (λ t. (cur ++ p) ∷ t) (split_from-join_from d (n + 1) [] q parts hs.0 hs.1))

-- Splitting what was joined from fields without the delimiter gives the fields back.
pub split-join :
    (p : Bytes) (parts : List Bytes) (d : ℕ)
    → Lacks d p
    → All (Lacks d) parts
    → split (join (p ∷ parts) (d ∷ [])) d false 0 ≡ p ∷ parts
unfolding split join join_from
split-join p parts d h hs = split_from-join_from d 0 [] p parts h hs
