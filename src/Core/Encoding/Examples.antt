-- ===== src/Core/Encoding/Examples.antt =====
-- Encodings of short texts.
use chrono_sift.Common.{List, ℕ, ◌≤◌, ◌≡◌, [], ◌∷◌, some, arith, refl, inl, inr, codes, length}
use chrono_sift.Core.Status.{success}
use chrono_sift.Core.Encoding.{percent_decode, base64_decode, is_valid_utf8, utf16le_to_utf8}
use chrono_sift.Core.Encoding.Percent.{end, itself, plus, percent_decode-Encodes, escape, stray}
use chrono_sift.Core.Encoding.Base64.{base64_encode, base64_decode-base64_encode}
use chrono_sift.Core.Encoding.Utf8.{encode_all, is_valid_utf8-encode_all}
use chrono_sift.Core.Encoding.Transcode.{utf16le_to_utf8-valid}

percent_decode-Encodes_example : percent_decode (codes "a+%5e%%") ≡ codes "a ^%%"
percent_decode-Encodes_example = percent_decode-Encodes (
    itself refl refl (
      plus (
        escape 5 14 (inl (omega arith, omega arith, omega arith))
          (inr (inr (omega arith, omega arith, omega arith))) (stray tt (stray tt end)))))

base64_decode-base64_encode_example :
    base64_decode (base64_encode (255 ∷ 0 ∷ 7 ∷ 9 ∷ [])) ≡ success (255 ∷ 0 ∷ 7 ∷ 9 ∷ [])
base64_decode-base64_encode_example =
    base64_decode-base64_encode (255 ∷ 0 ∷ 7 ∷ 9 ∷ [])
      (omega arith, (omega arith, (omega arith, (omega arith, tt))))

abbrev two_points : List ℕ
two_points = 65 ∷ 0x10ffff ∷ []

is_valid_utf8-encode_all_example : is_valid_utf8 (encode_all two_points) ≡ some (length two_points)
is_valid_utf8-encode_all_example = is_valid_utf8-encode_all two_points (
  record { in_range = omega arith; no_surrogate = inl (omega arith) },
  (record { in_range = omega arith; no_surrogate = inr (omega arith) }, tt),
)

utf16le_to_utf8-valid_example :
    (k : ℕ) × (is_valid_utf8 (utf16le_to_utf8 (0 ∷ 0xd8 ∷ 65 ∷ 0 ∷ []) 5) ≡ some k) × (k ≤ 5)
utf16le_to_utf8-valid_example =
    utf16le_to_utf8-valid (0 ∷ 0xd8 ∷ 65 ∷ 0 ∷ []) 5
      (omega arith, (omega arith, (omega arith, (omega arith, tt))))
