-- ===== src/Serialize/Csv/Reader.antt =====
-- The CSV table against a strict reader of RFC 4180 that takes LF for the end of a row too.
use chrono_sift.Common.{
  ℕ, true, false, List, [], ◌∷◌, ◌++◌, ◌==◌, if◌then◌else◌, Bytes, ◌≡◌, refl, ◌∙◌, ap, sym, inl,
  inr, ◌⊎◌, Bool-cases, map, append_assoc, append-nil, arith, length, Option, some, none, null,
}
use chrono_sift.Event.Record.{LogEvent}
use chrono_sift.Event.Stream.{EventStream}
use chrono_sift.Serialize.Csv.{
  needs_quote, double_quotes, csv_quote, csv_columns, csv_cells, csv_header, row_cells,
  append_csv_row, csv_rows, to_csv,
}

-- Where the reader is: at the start of a field, in plain text, in quoted text, behind a quote in
-- quoted text, or behind a CR that is to end a row.
pub data Place : Type 0 where
  start plain quoted behind returned : Place

abbrev add_row : List Bytes → Option (List (List Bytes)) → Option (List (List Bytes))
add_row row none = none
add_row row (some rows) = some (row ∷ rows)

-- The rows at the end of the text.
abbrev last_rows : Place → Bytes → List Bytes → Option (List (List Bytes))
last_rows Place.start field row = some (if null row then [] else (row ++ field ∷ []) ∷ [])
last_rows Place.plain field row = some ((row ++ field ∷ []) ∷ [])
last_rows Place.behind field row = some ((row ++ field ∷ []) ∷ [])
last_rows _ field row = none

-- The rows of a table; `field` and `row` are what has been read of the field and of the row. Plain
-- text holds no comma, quote, CR or LF; quoted text holds all bytes, a quote as two; what follows it is
-- a comma or the end of the row. A row ends in CR LF or in LF. Anything else is an error.
unfoldable pub csv_read : Place → Bytes → List Bytes → Bytes → Option (List (List Bytes))
csv_read place field row [] = last_rows place field row
csv_read Place.quoted field row (c ∷ s) =
    if c == b'"'
    then csv_read Place.behind field row s
    else csv_read Place.quoted (field ++ c ∷ []) row s
csv_read Place.returned field row (c ∷ s) =
    let next_row = add_row (row ++ field ∷ []) (csv_read Place.start [] [] s) in
    if c == b'\n' then next_row else none
csv_read place field row (c ∷ s) =
    let next_field = csv_read Place.start [] (row ++ field ∷ []) s in
    let next_row = add_row (row ++ field ∷ []) (csv_read Place.start [] [] s) in
    let returned = csv_read Place.returned field row s in
    let char = csv_read Place.plain (field ++ c ∷ []) row s in
    let open_quote = csv_read Place.quoted field row s in
    let quote = csv_read Place.quoted (field ++ c ∷ []) row s in
    let other : Option (List (List Bytes)) = elim place [
      | Place.start ↦ if c == b'"' then open_quote else char
      | Place.plain ↦ if c == b'"' then none else char
      | Place.behind ↦ if c == b'"' then quote else none
      | _ ↦ none
    ] in
    if c == b','
    then next_field
    else if c == b'\n'
    then next_row
    else if c == b'\r'
    then returned
    else other

-- The rows of a table.
unfoldable pub read_csv : Bytes → Option (List (List Bytes))
unfolding csv_read
read_csv text = csv_read Place.start [] [] text

-- What a reader does behind the field `v`, at the separator `c`.
abbrev behind_field : ℕ → Bytes → List Bytes → Bytes → Option (List (List Bytes))
behind_field c v row s =
    if c == b','
    then csv_read Place.start [] (row ++ v ∷ []) s
    else add_row (row ++ v ∷ []) (csv_read Place.start [] [] s)

abbrev IsSeparator : ℕ → Type 0
IsSeparator c = (c ≡ b',') ⊎ (c ≡ b'\n')

plain_run :
    (v field : Bytes) (row : List Bytes) (c : ℕ) (s : Bytes)
    → needs_quote v ≡ false
    → IsSeparator c
    → csv_read Place.plain field row (v ++ c ∷ s) ≡ behind_field c (field ++ v) row s
unfolding csv_read needs_quote
plain_run [] field row c s n (inl e) = rw (e, append-nil field)
plain_run [] field row c s n (inr e) = rw (e, append-nil field)
plain_run (a ∷ v) field row c s n h =
    let n1 : (a == b',') ≡ false = ground (arith, n) in
    let n2 : (a == b'\n') ≡ false = ground (arith, n) in
    let n3 : (a == b'\r') ≡ false = ground (arith, n) in
    let n4 : (a == b'"') ≡ false = ground (arith, n) in
    let m : needs_quote v ≡ false = ground (arith, n) in
    rw (n1, n2, n3, n4)
      (plain_run v (field ++ a ∷ []) row c s m h
        ∙ ap (λ x. behind_field c x row s) (append_assoc field (a ∷ []) v))

quoted_run :
    (v field : Bytes) (row : List Bytes) (c : ℕ) (s : Bytes)
    → IsSeparator c
    → csv_read Place.quoted field row (double_quotes v ++ b'"' ∷ c ∷ s)
      ≡ behind_field c (field ++ v) row s
unfolding csv_read double_quotes
quoted_run [] field row c s (inl e) = rw (e, append-nil field)
quoted_run [] field row c s (inr e) = rw (e, append-nil field)
quoted_run (a ∷ v) field row c s h = elim (Bool-cases (a == b'"')) [
  | inl y ↦
      let same : b'"' ≡ a = ground (arith, y) in
      rw y (
        quoted_run v (field ++ b'"' ∷ []) row c s h
        ∙ ap (λ x. behind_field c x row s)
            (append_assoc field (b'"' ∷ []) v ∙ ap (λ x. field ++ x ∷ v) same))
  | inr n ↦ rw n (
      rw n (
        quoted_run v (field ++ a ∷ []) row c s h
        ∙ ap (λ x. behind_field c x row s) (append_assoc field (a ∷ []) v)))
]

plain_start :
    (v : Bytes) (row : List Bytes) (c : ℕ) (s : Bytes)
    → needs_quote v ≡ false
    → IsSeparator c
    → csv_read Place.start [] row (v ++ c ∷ s) ≡ behind_field c v row s
unfolding csv_read needs_quote
plain_start [] row c s n (inl e) = rw e
plain_start [] row c s n (inr e) = rw e
plain_start (a ∷ v) row c s n h =
    let n1 : (a == b',') ≡ false = ground (arith, n) in
    let n2 : (a == b'\n') ≡ false = ground (arith, n) in
    let n3 : (a == b'\r') ≡ false = ground (arith, n) in
    let n4 : (a == b'"') ≡ false = ground (arith, n) in
    let m : needs_quote v ≡ false = ground (arith, n) in
    rw (n1, n2, n3, n4) (plain_run v (a ∷ []) row c s m h)

-- A cell is read back at each separator.
cell_read :
    (v : Bytes) (row : List Bytes) (c : ℕ) (s : Bytes)
    → IsSeparator c
    → csv_read Place.start [] row (csv_quote v ++ c ∷ s) ≡ behind_field c v row s
unfolding csv_quote
cell_read v row c s h = elim (Bool-cases (needs_quote v)) [
  | inl y ↦ rw y (
      ap (λ x. csv_read Place.start [] row (b'"' ∷ x))
        (append_assoc (double_quotes v) (b'"' ∷ []) (c ∷ s))
      ∙ opening (double_quotes v ++ b'"' ∷ c ∷ s)
      ∙ quoted_run v [] row c s h)
  | inr n ↦ rw n (plain_start v row c s n h)
]
  where
    opening : (t : Bytes) → csv_read Place.start [] row (b'"' ∷ t) ≡ csv_read Place.quoted [] row t
    opening t = unfold csv_read in refl

row_read :
    (v : Bytes) (vs row : List Bytes) (s : Bytes)
    → csv_read Place.start [] row (csv_cells true (v ∷ vs) ++ b'\n' ∷ s)
      ≡ add_row (row ++ v ∷ vs) (csv_read Place.start [] [] s)
unfolding csv_cells
row_read v [] row s =
    ap (λ x. csv_read Place.start [] row (x ++ b'\n' ∷ s)) (append-nil (csv_quote v))
    ∙ cell_read v row b'\n' s (inr refl)
row_read v (u ∷ us) row s =
    ap (csv_read Place.start [] row)
      (append_assoc (csv_quote v) (csv_cells false (u ∷ us)) (b'\n' ∷ s))
    ∙ cell_read v row b',' _ (inl refl)
    ∙ row_read u us (row ++ v ∷ []) s
    ∙ ap (λ x. add_row x (csv_read Place.start [] [] s)) (append_assoc row (v ∷ []) (u ∷ us))

-- The rows, in front of `out`.
abbrev rows_text : List LogEvent → Bytes
rows_text [] = []
rows_text (e ∷ es) = csv_cells true (row_cells e) ++ b'\n' ∷ rows_text es

csv_rows-text : (out : Bytes) (es : List LogEvent) → csv_rows out es ≡ out ++ rows_text es
unfolding csv_rows append_csv_row
csv_rows-text out [] = sym (append-nil out)
csv_rows-text out (e ∷ es) =
    csv_rows-text ((out ++ csv_cells true (row_cells e)) ++ b'\n' ∷ []) es
    ∙ append_assoc (out ++ csv_cells true (row_cells e)) (b'\n' ∷ []) (rows_text es)
    ∙ append_assoc out (csv_cells true (row_cells e)) (b'\n' ∷ rows_text es)

rows_read :
    (es : List LogEvent) → csv_read Place.start [] [] (rows_text es) ≡ some (map row_cells es)
rows_read [] = unfold csv_read in refl
rows_read (e ∷ es) = row_read _ _ [] (rows_text es) ∙ ap (add_row (row_cells e)) (rows_read es)

-- A strict reader of RFC 4180, but for rows that end in LF, reads the text of `to_csv` without an error,
-- as the column names and then, for each event in order, the cells of its row, whatever bytes they hold; every row has as many cells as there are
-- columns.
pub read_csv-to_csv :
    (stream : EventStream)
    → (read_csv (to_csv stream) ≡ some (csv_columns ∷ map row_cells stream.events))
      × ((e : LogEvent) → length (row_cells e) ≡ length csv_columns)
unfolding read_csv to_csv csv_header
read_csv-to_csv stream = (
  ap (csv_read Place.start [] []) (
        csv_rows-text (csv_cells true csv_columns ++ b'\n' ∷ []) stream.events
        ∙ append_assoc (csv_cells true csv_columns) (b'\n' ∷ []) (rows_text stream.events))
      ∙ row_read _ _ [] (rows_text stream.events)
      ∙ ap (add_row csv_columns) (rows_read stream.events),
  λ e. refl,
)
