-- ===== src/Core/Span.antt =====
-- `ByteSpan` (include/core/byte_span.hpp) and the loads of include/core/endian.hpp. A span is the
-- list of the bytes in its window; `data_ + offset` is the list without its first `offset` bytes.
pub mod Endian
use chrono_sift.Common.{
  ℕ, zero, ◌+◌, ◌-◌, ◌*◌, ◌%◌, ◌^◌, Bool, true, false, not, List, [], ◌∷◌, ltb, leb, ◌==◌,
  if◌then◌else◌, Bytes, length, get_or, take, drop, bit_or,
}

unfoldable pub at : Bytes → ℕ → ℕ
at span i = if ltb i (length span) then get_or span i 0 else 0

unfoldable pub subspan : Bytes → ℕ → ℕ → Bytes
subspan span offset len =
    if leb (length span) offset
    then []
    else let avail = length span - offset in
      take (if ltb avail len then avail else len) (drop offset span)

unfoldable pub from : Bytes → ℕ → Bytes
from span offset = if leb (length span) offset then [] else drop offset span

unfoldable pub first : Bytes → ℕ → Bytes
first span len = take (if ltb len (length span) then len else length span) span

-- `starts_with`, against the bytes of the literal before its NUL.
unfoldable pub starts_with : Bytes → Bytes → Bool
starts_with span [] = true
starts_with [] (c ∷ literal) = false
starts_with (b ∷ span) (c ∷ literal) = if not (b == c) then false else starts_with span literal

-- `x << k` in a type of `w` bits.
abbrev pub shl : ℕ → ℕ → ℕ → ℕ
shl w k x = x * 2 ^ k % 2 ^ w

-- The loads read the bytes at the pointer; the caller has checked that they are there.
unfoldable pub load_u16_le : Bytes → ℕ
load_u16_le p = bit_or (get_or p 0 0) (shl 32 8 (get_or p 1 0))

unfoldable pub load_u16_be : Bytes → ℕ
load_u16_be p = bit_or (get_or p 1 0) (shl 32 8 (get_or p 0 0))

unfoldable pub load_u32_le : Bytes → ℕ
load_u32_le p =
    bit_or (bit_or (bit_or (get_or p 0 0) (shl 32 8 (get_or p 1 0))) (shl 32 16 (get_or p 2 0)))
      (shl 32 24 (get_or p 3 0))

unfoldable pub load_u32_be : Bytes → ℕ
load_u32_be p =
    bit_or (bit_or (bit_or (get_or p 3 0) (shl 32 8 (get_or p 2 0))) (shl 32 16 (get_or p 1 0)))
      (shl 32 24 (get_or p 0 0))

unfoldable pub load_u64_le : Bytes → ℕ
load_u64_le p =
    let lo = load_u32_le p in let hi = load_u32_le (drop 4 p) in bit_or lo (shl 64 32 hi)

unfoldable pub load_u64_be : Bytes → ℕ
load_u64_be p =
    let hi = load_u32_be p in let lo = load_u32_be (drop 4 p) in bit_or (shl 64 32 hi) lo
