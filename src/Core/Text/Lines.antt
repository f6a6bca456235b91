-- ===== src/Core/Text/Lines.antt =====
-- `split_lines` (src/core/string_util.cpp).
use chrono_sift.Common.{
  Bool-cases, get_or, ℕ, suc, ◌-◌, Bool, true, false, ◌&&◌, List, [], ◌∷◌, ◌++◌, inl, inr, ◌≡◌,
  refl, ap, ◌∙◌, arith, ltb, ◌==◌, if◌then◌else◌, Bytes, length, get_or, take, All, append-nil,
  append_assoc, Bool-cases, All-append, All-take,
}
use chrono_sift.Core.Text.{strip_cr, lines_from, split_lines}

abbrev pub IsLine : Bytes → Type 0
IsLine s = All (λ c. (c == b'\n') ≡ false) s

-- A carriage return stands at the end.
abbrev pub ends_in_cr : Bytes → Bool
ends_in_cr s = ltb 0 (length s) && (get_or s (length s - 1) 0 == b'\r')

strip_cr-IsLine : (s : Bytes) → IsLine s → IsLine (strip_cr s)
unfolding strip_cr
strip_cr-IsLine s h = elim (Bool-cases (ends_in_cr s)) [
  | inl cr ↦ rw cr (All-take _ (length s - 1) s h)
  | inr plain ↦ rw plain h
]

All-if : (ls : List Bytes) (b : Bool) → All IsLine ls → All IsLine (if b then ls else [])
All-if ls true h = h
All-if ls false h = tt

lines_from-IsLine : (cur s : Bytes) → IsLine cur → All IsLine (lines_from cur s)
unfolding lines_from
lines_from-IsLine cur [] h = All-if _ (ltb 0 (length cur)) (strip_cr-IsLine cur h, tt)
lines_from-IsLine cur (c ∷ s) h = elim (Bool-cases (c == b'\n')) [
  | inl cut ↦ rw cut (strip_cr-IsLine cur h, lines_from-IsLine [] s tt)
  | inr keep ↦
      rw keep (lines_from-IsLine (cur ++ c ∷ []) s (All-append _ cur (c ∷ []) h (keep, tt)))
]

-- No line holds a newline.
pub split_lines-IsLine : (s : Bytes) → All IsLine (split_lines s)
unfolding split_lines
split_lines-IsLine s = lines_from-IsLine [] s tt

-- Lines as a file holds them, each with its terminator.
abbrev pub unlines : Bytes → List Bytes → Bytes
unlines eol [] = []
unlines eol (l ∷ ls) = l ++ (eol ++ unlines eol ls)

abbrev pub IsBareLine : Bytes → Type 0
IsBareLine l = IsLine l × (ends_in_cr l ≡ false)

lines_from-append : (cur l s : Bytes) → IsLine l → lines_from cur (l ++ s) ≡ lines_from (cur ++ l) s
unfolding lines_from
lines_from-append cur [] s h = rw append-nil
lines_from-append cur (c ∷ l) s h =
    rw h.0 (lines_from-append (cur ++ c ∷ []) l s h.1 ∙ rw append_assoc)

length-snoc : (l : Bytes) (c : ℕ) → length (l ++ c ∷ []) ≡ suc (length l)
length-snoc [] c = refl
length-snoc (x ∷ l) c = ap suc (length-snoc l c)

get_or-snoc : (l : Bytes) (c : ℕ) → get_or (l ++ c ∷ []) (length l) 0 ≡ c
get_or-snoc [] c = refl
get_or-snoc (x ∷ l) c = get_or-snoc l c

take-snoc : (l : Bytes) (c : ℕ) → take (length l) (l ++ c ∷ []) ≡ l
take-snoc [] c = refl
take-snoc (x ∷ l) c = ap (λ t. x ∷ t) (take-snoc l c)

strip_cr-snoc : (l : Bytes) → strip_cr (l ++ b'\r' ∷ []) ≡ l
unfolding strip_cr
strip_cr-snoc l =
    let e : suc (length l) - 1 ≡ length l = omega arith in
    let p : ltb 0 (suc (length l)) ≡ true = ground arith in
    rw (length-snoc l b'\r', e, p) (rw (get_or-snoc l b'\r') (take-snoc l b'\r'))

strip_cr-bare : (l : Bytes) → ends_in_cr l ≡ false → strip_cr l ≡ l
unfolding strip_cr
strip_cr-bare l h = rw h

split_lines-unlines_lf :
    (ls : List Bytes) → All IsBareLine ls → split_lines (unlines (b'\n' ∷ []) ls) ≡ ls
unfolding split_lines lines_from
split_lines-unlines_lf [] h = refl
split_lines-unlines_lf (l ∷ ls) h =
    lines_from-append [] l (b'\n' ∷ unlines (b'\n' ∷ []) ls) h.0.0
    ∙ rw (strip_cr-bare l h.0.1) (ap (λ t. l ∷ t) (split_lines-unlines_lf ls h.1))

split_lines-unlines_crlf :
    (ls : List Bytes) → All IsLine ls → split_lines (unlines (b'\r' ∷ b'\n' ∷ []) ls) ≡ ls
unfolding split_lines lines_from
split_lines-unlines_crlf [] h = refl
split_lines-unlines_crlf (l ∷ ls) h =
    lines_from-append [] l (b'\r' ∷ b'\n' ∷ unlines (b'\r' ∷ b'\n' ∷ []) ls) h.0
    ∙ rw (strip_cr-snoc l) (ap (λ t. l ∷ t) (split_lines-unlines_crlf ls h.1))

All-fst : (ls : List Bytes) → All IsBareLine ls → All IsLine ls
All-fst [] h = tt
All-fst (l ∷ ls) h = (h.0.0, All-fst ls h.1)

-- Lines without a newline that do not end in a carriage return are read back, whether they were
-- ended by LF or by CRLF.
pub split_lines-unlines :
    (ls : List Bytes)
    → All IsBareLine ls
    → (split_lines (unlines (b'\n' ∷ []) ls) ≡ ls)
      × (split_lines (unlines (b'\r' ∷ b'\n' ∷ []) ls) ≡ ls)
split_lines-unlines ls h = (split_lines-unlines_lf ls h, split_lines-unlines_crlf ls (All-fst ls h))
