-- ===== src/Core/Chars.antt =====
-- Character classes and ASCII case folding (src/core/string_util.cpp). A `char` is its byte. Where
-- `char` is signed a byte above 127 is negative, and fails each of these range tests either way.
use chrono_sift.Common.{ℕ, ◌+◌, ◌-◌, Bool, ◌&&◌, ◌||◌, ◌≡◌, leb, ◌==◌, if◌then◌else◌, arith}

unfoldable pub ascii_to_lower : ℕ → ℕ
ascii_to_lower c = if leb b'A' c && leb c b'Z' then c - b'A' + b'a' else c

unfoldable pub ascii_to_upper : ℕ → ℕ
ascii_to_upper c = if leb b'a' c && leb c b'z' then c - b'a' + b'A' else c

unfoldable pub is_space : ℕ → Bool
is_space c = c == b' ' || c == b'\t' || c == b'\r' || c == b'\n' || c == 0x0b || c == 0x0c

unfoldable pub is_digit : ℕ → Bool
is_digit c = leb b'0' c && leb c b'9'

unfoldable pub is_hex_digit : ℕ → Bool
unfolding is_digit
is_hex_digit c = is_digit c || (leb b'a' c && leb c b'f') || (leb b'A' c && leb c b'F')

unfoldable pub is_alpha : ℕ → Bool
is_alpha c = (leb b'a' c && leb c b'z') || (leb b'A' c && leb c b'Z')

unfoldable pub is_alnum : ℕ → Bool
unfolding is_alpha is_digit
is_alnum c = is_alpha c || is_digit c

pub to_lower_idem : (c : ℕ) → ascii_to_lower (ascii_to_lower c) ≡ ascii_to_lower c
unfolding ascii_to_lower
to_lower_idem c = ground arith
