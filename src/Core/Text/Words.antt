-- ===== src/Core/Text/Words.antt =====
-- `split_whitespace` (src/core/string_util.cpp).
use chrono_sift.Common.{
  length-append, Bool-cases, sym, null, length-drop, ℕ, zero, suc, ◌≤◌, ◌<◌, Bool, true, false,
  List, [], ◌∷◌, ◌++◌, inl, inr, ◌≡◌, refl, ap, ◌∙◌, arith, if◌then◌else◌, Bytes, length, take,
  drop, All, take-append, drop-append,
}
use chrono_sift.Core.Chars.{is_space}
use chrono_sift.Core.Text.{space_run, word_run, words_from, split_whitespace, join, join_from}
use mathlib.Core.Bool.{false≢true}
use chrono_sift.Core.Text.Trim.{IsSpace, first_is_space, first-space_run}

-- The words of a text: a field is not empty and holds no whitespace.
pub record IsWord (w : Bytes) : Type 0 where
  pub filled : null w ≡ false
  pub solid : All (λ c. is_space c ≡ false) w

word_run-le : (s : Bytes) → word_run s ≤ length s
unfolding word_run
word_run-le [] = omega arith
word_run-le (c ∷ s) = ground (arith, word_run-le s)

All-word_run : (s : Bytes) → All (λ c. is_space c ≡ false) (take (word_run s) s)
unfolding word_run
All-word_run [] = tt
All-word_run (c ∷ s) = ground (arith, All-word_run s)

abbrev pub solid_bytes : Bytes → Bytes
solid_bytes [] = []
solid_bytes (c ∷ s) = if is_space c then solid_bytes s else c ∷ solid_bytes s

abbrev pub concat : List Bytes → Bytes
concat [] = []
concat (p ∷ ps) = p ++ concat ps

solid_bytes-space_run : (s : Bytes) → solid_bytes (drop (space_run s) s) ≡ solid_bytes s
unfolding space_run
solid_bytes-space_run [] = refl
solid_bytes-space_run (c ∷ s) = ground (arith, solid_bytes-space_run s)

solid_bytes-word_run :
    (s : Bytes) → take (word_run s) s ++ solid_bytes (drop (word_run s) s) ≡ solid_bytes s
unfolding word_run
solid_bytes-word_run [] = refl
solid_bytes-word_run (c ∷ s) = ground (arith, solid_bytes-word_run s)

word_run-pos : (c : ℕ) (s : Bytes) → is_space c ≡ false → 0 < word_run (c ∷ s)
unfolding word_run
word_run-pos c s h = ground arith

first-word_run : (s : Bytes) → first_is_space s ≡ false → null s ≡ false → 0 < word_run s
first-word_run [] h n = absurd (false≢true (sym n))
first-word_run (c ∷ s) h n = word_run-pos c s h

null-take : (n : ℕ) (s : Bytes) → 0 < n → null s ≡ false → null (take n s) ≡ false
null-take zero s h e = absurd (omega arith)
null-take (suc n) [] h e = e
null-take (suc n) (c ∷ s) h e = refl

words_from-IsWord : (fuel : ℕ) (s : Bytes) → All IsWord (words_from fuel s)
unfolding words_from
words_from-IsWord zero s = tt
words_from-IsWord (suc fuel) s =
    let t = drop (space_run s) s in
    elim (Bool-cases (null t)) [
      | inl done ↦ rw done tt
      | inr more ↦
          let some_word =
            null-take (word_run t) t (first-word_run t (first-space_run s) more) more in
          rw more (
            record { filled = some_word; solid = All-word_run t },
            words_from-IsWord fuel (drop (word_run t) t),
          )
    ]

null-eq : (s : Bytes) → null s ≡ true → s ≡ []
null-eq [] h = refl
null-eq (c ∷ s) h = cc

words_from-concat :
    (fuel : ℕ) (s : Bytes) → length s ≤ fuel → concat (words_from fuel s) ≡ solid_bytes s
unfolding words_from
words_from-concat zero [] h = refl
words_from-concat zero (c ∷ s) h = absurd (omega arith)
words_from-concat (suc fuel) s h =
    let t = drop (space_run s) s in
    elim (Bool-cases (null t)) [
      | inl done ↦ rw done (ap solid_bytes (sym (null-eq t done)) ∙ solid_bytes-space_run s)
      | inr more ↦
          let p = first-word_run t (first-space_run s) more in
          let short : length (drop (word_run t) t) ≤ fuel =
            omega
              (arith, length-drop (word_run t) t, length-drop (space_run s) s, word_run-le t, p) in
          rw more (
            ap (λ u. take (word_run t) t ++ u) (words_from-concat fuel (drop (word_run t) t) short)
            ∙ solid_bytes-word_run t
            ∙ solid_bytes-space_run s)
    ]

-- The fields of `split_whitespace` are words, and hold, in order, all bytes that are not whitespace.
pub split_whitespace_words :
    (s : Bytes) → All IsWord (split_whitespace s) × (concat (split_whitespace s) ≡ solid_bytes s)
unfolding split_whitespace
split_whitespace_words s =
    (words_from-IsWord (length s) s, words_from-concat (length s) s (omega arith))

-- Whitespace, or the end, follows.
abbrev ends_word : Bytes → Bool
ends_word [] = true
ends_word (c ∷ s) = is_space c

word_run-append :
    (w s : Bytes)
    → All (λ c. is_space c ≡ false) w
    → ends_word s ≡ true
    → word_run (w ++ s) ≡ length w
unfolding word_run
word_run-append [] [] h e = refl
word_run-append [] (c ∷ s) h e = rw e
word_run-append (c ∷ w) s h e = rw h.0 (ap suc (word_run-append w s h.1 e))

space_run-append : (g w s : Bytes) → All IsSpace g → IsWord w → space_run (g ++ (w ++ s)) ≡ length g
unfolding space_run
space_run-append [] [] s hg hw = absurd (false≢true (sym hw.filled))
space_run-append [] (c ∷ w) s hg hw = rw hw.solid.0
space_run-append (c ∷ g) w s hg hw = rw hg.0 (ap suc (space_run-append g w s hg.1 hw))

null-append : (w s : Bytes) → null w ≡ false → null (w ++ s) ≡ false
null-append [] s h = absurd (false≢true (sym h))
null-append (c ∷ w) s h = refl

words_from-step :
    (fuel : ℕ) (g w s : Bytes)
    → All IsSpace g
    → IsWord w
    → ends_word s ≡ true
    → words_from (suc fuel) (g ++ (w ++ s)) ≡ w ∷ words_from fuel s
unfolding words_from
words_from-step fuel g w s hg hw e = rw (space_run-append g w s hg hw) (
    rw (drop-append g (w ++ s)) (
      rw (null-append w s hw.filled, word_run-append w s hw.solid e)
        (rw (take-append w s, drop-append w s))))

words_from-nil : (fuel : ℕ) → words_from fuel [] ≡ []
unfolding words_from space_run
words_from-nil zero = refl
words_from-nil (suc fuel) = refl

ends_word-join :
    (ws : List Bytes) (sep : Bytes)
    → All IsSpace sep
    → null sep ≡ false
    → ends_word (join_from true ws sep) ≡ true
unfolding join_from
ends_word-join [] sep h n = refl
ends_word-join (w ∷ ws) [] h n = absurd (false≢true (sym n))
ends_word-join (w ∷ ws) (c ∷ sep) h n = h.0

words_from-join_from :
    (fuel : ℕ) (ws : List Bytes) (sep : Bytes)
    → All IsSpace sep
    → null sep ≡ false
    → All IsWord ws
    → length ws ≤ fuel
    → words_from fuel (join_from true ws sep) ≡ ws
unfolding join_from
words_from-join_from fuel [] sep hs n hw le = words_from-nil fuel
words_from-join_from zero (w ∷ ws) sep hs n hw le = absurd (omega arith)
words_from-join_from (suc fuel) (w ∷ ws) sep hs n hw le =
    words_from-step fuel sep w (join_from true ws sep) hs hw.0 (ends_word-join ws sep hs n)
    ∙ ap (λ t. w ∷ t) (words_from-join_from fuel ws sep hs n hw.1 (omega arith))

length-word : (w : Bytes) → null w ≡ false → 0 < length w
length-word [] h = absurd (false≢true (sym h))
length-word (c ∷ w) h = omega arith

length-join_from :
    (ws : List Bytes) (sep : Bytes) → All IsWord ws → length ws ≤ length (join_from true ws sep)
unfolding join_from
length-join_from [] sep h = omega arith
length-join_from (w ∷ ws) sep h = omega (
  arith,
  length-append {0} sep (w ++ join_from true ws sep),
  length-append {0} w (join_from true ws sep),
  length-word w h.0.filled,
  length-join_from ws sep h.1,
)

-- Words joined by a run of whitespace are read back.
pub split_whitespace-join :
    (ws : List Bytes) (sep : Bytes)
    → All IsSpace sep
    → null sep ≡ false
    → All IsWord ws
    → split_whitespace (join ws sep) ≡ ws
unfolding split_whitespace join join_from
split_whitespace-join [] sep hs n hw = words_from-nil 0
split_whitespace-join (w ∷ ws) sep hs n hw = go (length (w ++ join_from true ws sep)) (
    omega (
      arith,
      length-append {0} w (join_from true ws sep),
      length-word w hw.0.filled,
      length-join_from ws sep hw.1,
    ))
  where
    go : (fuel : ℕ) → suc (length ws) ≤ fuel → words_from fuel (w ++ join_from true ws sep) ≡ w ∷ ws
    go zero le = absurd (omega arith)
    go (suc fuel) le =
        words_from-step fuel [] w (join_from true ws sep) tt hw.0 (ends_word-join ws sep hs n)
        ∙ ap (λ t. w ∷ t) (words_from-join_from fuel ws sep hs n hw.1 (omega arith))
