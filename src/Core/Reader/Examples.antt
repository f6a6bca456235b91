-- ===== src/Core/Reader/Examples.antt =====
-- A reader over six bytes.
use chrono_sift.Common.{
  ◌+◌, ◌≤◌, ◌<◌, ◌⊎◌, List, [], ◌∷◌, ◌++◌, ◌≡◌, refl, true, arith, length, Bytes,
}
use chrono_sift.Core.Span.Endian.{bytes_le, bytes_be}
use chrono_sift.Core.Reader.{
  reader, error, Call, after_all, read_u16_le, read_u16_be, read_u32_le, read_u32_be, read_u64_le,
  read_u64_be,
}
use chrono_sift.Core.Reader.Safety.{Follows, calls-safe}
use chrono_sift.Core.Reader.Batch.{total, batch_lem}
use chrono_sift.Core.Reader.Values.{placed, moved, reads-encoded}

abbrev six : Bytes
six = 1 ∷ 2 ∷ 3 ∷ 4 ∷ 5 ∷ 6 ∷ []

abbrev header : List Call
header = Call.u8 ∷ Call.u16_le ∷ Call.skip_by 1 ∷ []

abbrev too_much : List Call
too_much = Call.u32_be ∷ Call.u32_be ∷ Call.seek_to 9 ∷ []

calls-safe_example :
    Follows (reader six) (after_all (reader six) too_much)
    × Follows (after_all (reader six) too_much) (after_all (after_all (reader six) too_much) header)
calls-safe_example = calls-safe six too_much header

batch_lem_example :
    ((0 + total header ≤ length six)
      × (after_all (reader six) header ≡ record (reader six) { pos = 0 + total header }))
    ⊎ ((length six < 0 + total header) × (error (after_all (reader six) header) ≡ true))
batch_lem_example =
    batch_lem header (reader six) (record { within = omega arith }) refl (refl, (refl, (refl, tt)))

reads-encoded_example :
    ((read_u16_le (placed six (bytes_le 2 258 ++ [])) ≡ (moved 2 six (bytes_le 2 258 ++ []), 258))
      × (read_u16_be (placed six (bytes_be 2 258 ++ []))
          ≡ (moved 2 six (bytes_be 2 258 ++ []), 258)))
    × ((read_u32_le (placed six (bytes_le 4 70000 ++ []))
          ≡ (moved 4 six (bytes_le 4 70000 ++ []), 70000))
        × (read_u32_be (placed six (bytes_be 4 70000 ++ []))
            ≡ (moved 4 six (bytes_be 4 70000 ++ []), 70000)))
    × ((read_u64_le (placed six (bytes_le 8 70000 ++ []))
          ≡ (moved 8 six (bytes_le 8 70000 ++ []), 70000))
        × (read_u64_be (placed six (bytes_be 8 70000 ++ []))
            ≡ (moved 8 six (bytes_be 8 70000 ++ []), 70000)))
reads-encoded_example =
    reads-encoded six [] 258 70000 70000 (omega arith) (omega arith) (omega arith)
