-- ===== src/Core/Reader/Values.antt =====
-- What the word reads return.
use chrono_sift.Common.{
  ◌%◌, ◌/◌, ℕ, zero, suc, ◌+◌, ◌<◌, [], ◌∷◌, ◌++◌, ◌≡◌, refl, arith, ◌∙◌, ap, Bytes, length, codes,
  ◌^◌, drop-append, length-append,
}
use chrono_sift.Core.Status.{good}
use chrono_sift.Core.Span.{
  load_u16_le, load_u16_be, load_u32_le, load_u32_be, load_u64_le, load_u64_be,
}
use chrono_sift.Core.Span.Endian.{bytes_le, bytes_be, loads_le, loads_be}
use chrono_sift.Core.Reader.{
  ByteReader, read_word, read_u16_le, read_u16_be, read_u32_le, read_u32_be, read_u64_le,
  read_u64_be,
}

-- A reader with no failure that has passed `before`.
abbrev pub placed : Bytes → Bytes → ByteReader
placed before rest = record { span = before ++ rest; pos = length before; status = good }

abbrev pub moved : ℕ → Bytes → Bytes → ByteReader
moved n before rest = record { span = before ++ rest; pos = length before + n; status = good }

read_word-placed :
    (n : ℕ) (load : Bytes → ℕ) (what before here rest : Bytes)
    → length here ≡ n
    → read_word n load what (placed before (here ++ rest))
      ≡ (moved n before (here ++ rest), load (here ++ rest))
unfolding read_word
read_word-placed n load what before here rest e =
    rw (drop-append before (here ++ rest))
      (ground (arith, length-append {0} before (here ++ rest), length-append {0} here rest))

length-bytes_le : (n v : ℕ) → length (bytes_le n v) ≡ n
length-bytes_le zero v = refl
length-bytes_le (suc n) v = ap suc (length-bytes_le n (v / 256))

length-bytes_be : (n v : ℕ) → length (bytes_be n v) ≡ n
length-bytes_be zero v = refl
length-bytes_be (suc n) v =
    omega (
      arith,
      length-append {0} (bytes_be n (v / 256)) ((v % 256) ∷ []),
      length-bytes_be n (v / 256),
    )

pub reads_placed :
    (before rest : Bytes) (v : ℕ)
    → (v < 2 ^ 16
        → (read_u16_le (placed before (bytes_le 2 v ++ rest))
            ≡ (moved 2 before (bytes_le 2 v ++ rest), v))
          × (read_u16_be (placed before (bytes_be 2 v ++ rest))
              ≡ (moved 2 before (bytes_be 2 v ++ rest), v)))
      × (v < 2 ^ 32
          → (read_u32_le (placed before (bytes_le 4 v ++ rest))
              ≡ (moved 4 before (bytes_le 4 v ++ rest), v))
            × (read_u32_be (placed before (bytes_be 4 v ++ rest))
                ≡ (moved 4 before (bytes_be 4 v ++ rest), v)))
      × (v < 2 ^ 64
          → (read_u64_le (placed before (bytes_le 8 v ++ rest))
              ≡ (moved 8 before (bytes_le 8 v ++ rest), v))
            × (read_u64_be (placed before (bytes_be 8 v ++ rest))
                ≡ (moved 8 before (bytes_be 8 v ++ rest), v)))
reads_placed before rest v =
    let le = loads_le v rest in
    let be = loads_be v rest in
    (
      λ h. (
        word 2 load_u16_le (codes "read_u16_le") (bytes_le 2 v) (length-bytes_le 2 v) (le.0 h),
        word 2 load_u16_be (codes "read_u16_be") (bytes_be 2 v) (length-bytes_be 2 v) (be.0 h),
      ),
      λ h. (
        word 4 load_u32_le (codes "read_u32_le") (bytes_le 4 v) (length-bytes_le 4 v) (le.1 h),
        word 4 load_u32_be (codes "read_u32_be") (bytes_be 4 v) (length-bytes_be 4 v) (be.1 h),
      ),
      λ h. (
        word 8 load_u64_le (codes "read_u64_le") (bytes_le 8 v) (length-bytes_le 8 v) (le.2 h),
        word 8 load_u64_be (codes "read_u64_be") (bytes_be 8 v) (length-bytes_be 8 v) (be.2 h),
      ),
    )
  where
    word :
        (n : ℕ) (load : Bytes → ℕ) (what here : Bytes)
        → length here ≡ n
        → load (here ++ rest) ≡ v
        → read_word n load what (placed before (here ++ rest)) ≡ (moved n before (here ++ rest), v)
    word n load what here e l =
        read_word-placed n load what before here rest e
        ∙ ap (λ x. (moved n before (here ++ rest), x)) l

-- Where the encoding of a value in range stands at the cursor of a reader with no failure, the read of
-- that width and order returns the value and passes its bytes.
pub reads-encoded :
    (before rest : Bytes) (u v w : ℕ)
    → u < 2 ^ 16
    → v < 2 ^ 32
    → w < 2 ^ 64
    → ((read_u16_le (placed before (bytes_le 2 u ++ rest))
          ≡ (moved 2 before (bytes_le 2 u ++ rest), u))
        × (read_u16_be (placed before (bytes_be 2 u ++ rest))
            ≡ (moved 2 before (bytes_be 2 u ++ rest), u)))
      × ((read_u32_le (placed before (bytes_le 4 v ++ rest))
            ≡ (moved 4 before (bytes_le 4 v ++ rest), v))
          × (read_u32_be (placed before (bytes_be 4 v ++ rest))
              ≡ (moved 4 before (bytes_be 4 v ++ rest), v)))
      × ((read_u64_le (placed before (bytes_le 8 w ++ rest))
            ≡ (moved 8 before (bytes_le 8 w ++ rest), w))
          × (read_u64_be (placed before (bytes_be 8 w ++ rest))
              ≡ (moved 8 before (bytes_be 8 w ++ rest), w)))
reads-encoded before rest u v w h k l = (
  (reads_placed before rest u).0 h,
  (reads_placed before rest v).1 k,
  (reads_placed before rest w).2 l,
)
