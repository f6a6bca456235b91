-- ===== src/Core/Text/Examples.antt =====
-- Short texts.
use chrono_sift.Core.Text.Replaced.{Replaces, replace_all-Replaces}
use chrono_sift.Core.Text.Fields.{IsSplit, split-IsSplit}
use chrono_sift.Common.{true, ◌≡◌, List, [], ◌∷◌, ◌++◌, All, false, Bytes, codes, refl}
use chrono_sift.Core.Text.{trim, split, join, split_lines, replace_all}
use chrono_sift.Core.Text.Trim.{IsSpace, IsTrimmed, trim_splits}
use chrono_sift.Core.Text.Split.{split-join, drop_empty}
use chrono_sift.Core.Text.Lines.{unlines, split_lines-unlines}

abbrev padded : Bytes
padded = codes " a b\t"

abbrev listed : Bytes
listed = codes "a,,b"

abbrev words : List Bytes
words = codes "GET" ∷ codes "/" ∷ []

trim_splits_example :
    (l : Bytes) × (r : Bytes) × (padded ≡ l ++ (trim padded ++ r))
    × All IsSpace l
    × All IsSpace r
    × IsTrimmed (trim padded)
trim_splits_example = trim_splits padded

split-IsSplit_example :
    IsSplit listed b',' 1 (split listed b',' false 1)
    × (split listed b',' true 1 ≡ drop_empty (split listed b',' false 1))
split-IsSplit_example = split-IsSplit listed b',' 1

split-join_example :
    split (join (codes "a" ∷ [] ∷ codes "b" ∷ []) (b',' ∷ [])) b',' false 0
    ≡ codes "a" ∷ [] ∷ codes "b" ∷ []
split-join_example =
    split-join (codes "a") ([] ∷ codes "b" ∷ []) b',' (refl, tt) (tt, ((refl, tt), tt))

split_lines-unlines_example :
    (split_lines (unlines (b'\n' ∷ []) words) ≡ words)
    × (split_lines (unlines (b'\r' ∷ b'\n' ∷ []) words) ≡ words)
split_lines-unlines_example =
    split_lines-unlines words (((refl, (refl, (refl, tt))), refl), (((refl, tt), refl), tt))

replace_all-Replaces_example :
    Replaces (codes ",") (codes ", ") listed (replace_all listed (codes ",") (codes ", "))
replace_all-Replaces_example = replace_all-Replaces listed (codes ",") (codes ", ") refl
