-- ===== src/Core/Diagnostics/Capped.antt =====
-- The cap of a sink: what is kept, what is counted, and the summary counts.
use chrono_sift.Common.{
  inr, inl, length-take, ℕ, zero, suc, ◌+◌, ◌-◌, ◌≤◌, true, false, List, [], ◌∷◌, ◌++◌, ◌≡◌, refl,
  sym, ◌∙◌, ap, arith, leb, length, take, append-nil, append_assoc, Bool-cases, length-append,
}
use chrono_sift.Core.Diagnostics.{
  Diagnostic, DiagLevel, rank, DiagnosticSink, sink, emit, count_entries,
}

unfoldable pub emit_all : DiagnosticSink → List Diagnostic → DiagnosticSink
emit_all s [] = s
emit_all s (d ∷ ds) = emit_all (emit s d) ds

-- `t` is the sink `s` after the messages `ds`: as many as there was room for are kept, in order,
-- and the others counted.
pub record Emitted (s : DiagnosticSink) (ds : List Diagnostic) (t : DiagnosticSink) : Type 0 where
  pub kept : t.entries ≡ s.entries ++ take (s.max_entries - length s.entries) ds
  pub counted : t.dropped ≡ s.dropped + (length ds - (s.max_entries - length s.entries))
  pub cap_same : t.max_entries ≡ s.max_entries

take_none : (n : ℕ) (ds : List Diagnostic) → n ≡ 0 → take n ds ≡ []
take_none zero ds e = refl
take_none (suc n) ds e = absurd (omega arith)

take_some :
    (n m : ℕ) (d : Diagnostic) (ds : List Diagnostic) → n ≡ suc m → take n (d ∷ ds) ≡ d ∷ take m ds
take_some n m d ds e = rw e

take-nil : (n : ℕ) → take {A = Diagnostic} n [] ≡ []
take-nil zero = refl
take-nil (suc n) = refl

emit_full :
    (s : DiagnosticSink) (d : Diagnostic)
    → leb s.max_entries (length s.entries) ≡ true
    → emit s d ≡ record s { dropped = s.dropped + 1 }
unfolding emit
emit_full s d h = rw h

emit_room :
    (s : DiagnosticSink) (d : Diagnostic)
    → leb s.max_entries (length s.entries) ≡ false
    → emit s d ≡ record s { entries = s.entries ++ d ∷ [] }
unfolding emit
emit_room s d h = rw h

emit_all-Emitted : (ds : List Diagnostic) (s : DiagnosticSink) → Emitted s ds (emit_all s ds)
unfolding emit_all
emit_all-Emitted [] s = record {
  kept =
      sym (append-nil s.entries)
      ∙ ap (λ l. s.entries ++ l) (sym (take-nil (s.max_entries - length s.entries)));
  counted = omega arith;
  cap_same = refl;
}
emit_all-Emitted (d ∷ ds) s = elim (Bool-cases (leb s.max_entries (length s.entries))) [
  | inl full ↦
      let r = emit_all-Emitted ds (record s { dropped = s.dropped + 1 }) in
      let z : s.max_entries - length s.entries ≡ 0 = ground arith in
      rw (emit_full s d full) (record {
        kept = r.kept ∙ ap (λ l. s.entries ++ l) (take_none _ ds z ∙ sym (take_none _ (d ∷ ds) z));
        counted = omega (arith, r.counted, z);
        cap_same = r.cap_same;
      })
  | inr room ↦
      let grown = s.entries ++ d ∷ [] in
      let r = emit_all-Emitted ds (record s { entries = grown }) in
      let len = length-append {0} s.entries (d ∷ []) in
      let e : s.max_entries - length s.entries ≡ suc (s.max_entries - length grown) =
        ground (arith, len) in
      rw (emit_room s d room) (record {
        kept =
            r.kept
            ∙ append_assoc s.entries (d ∷ []) (take (s.max_entries - length grown) ds)
            ∙ ap (λ l. s.entries ++ l) (sym (take_some _ _ d ds e));
        counted = omega (arith, r.counted, e);
        cap_same = r.cap_same;
      })
]

-- A sink of capacity `max` keeps the first `max` messages in order and counts the rest.
pub emit_all_capped :
    (max : ℕ) (ds : List Diagnostic)
    → ((emit_all (sink max) ds).entries ≡ take max ds)
      × ((emit_all (sink max) ds).dropped ≡ length ds - max)
      × (length (emit_all (sink max) ds).entries ≤ max)
emit_all_capped max ds =
    let r = emit_all-Emitted ds (sink max) in
    let z : max - 0 ≡ max = omega arith in
    let kept = r.kept ∙ ap (λ (n : ℕ). take n ds) z in
    (kept, omega (arith, r.counted), omega (arith, ap length kept, length-take {0} max ds))

count_entries-le : (level : DiagLevel) (ds : List Diagnostic) → count_entries level ds ≤ length ds
unfolding count_entries
count_entries-le level [] = omega arith
count_entries-le level (d ∷ ds) = ground (arith, count_entries-le level ds)

count_entries_mono :
    (low high : DiagLevel) (ds : List Diagnostic)
    → rank low ≤ rank high
    → count_entries high ds ≤ count_entries low ds
unfolding count_entries
count_entries_mono low high [] h = omega arith
count_entries_mono low high (d ∷ ds) h = ground (arith, count_entries_mono low high ds h)
