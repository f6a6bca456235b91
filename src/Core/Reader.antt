-- ===== src/Core/Reader.antt =====
-- `ByteReader` (include/core/byte_reader.hpp, src/core/byte_reader.cpp). A method that changes the
-- reader returns the new one with its result.
pub mod Safety
pub mod Batch
pub mod Values
mod Examples
use chrono_sift.Common.{
  ℕ, zero, suc, ◌+◌, ◌-◌, Bool, true, false, not, ◌&&◌, ◌||◌, List, [], ◌∷◌, ltb, leb, ◌==◌,
  if◌then◌else◌, Bytes, codes, length, get_or, drop,
}
use chrono_sift.Core.Status.{StatusCode, Status, is_ok, good, status}
use chrono_sift.Core.Span.{
  subspan, load_u16_le, load_u16_be, load_u32_le, load_u32_be, load_u64_le, load_u64_be,
}

pub record ByteReader : Type 0 where
  pub span : Bytes
  pub pos : ℕ
  pub status : Status

abbrev pub reader : Bytes → ByteReader
reader s = record { span = s; pos = 0; status = good }

abbrev pub remaining : ByteReader → ℕ
remaining r = if leb r.pos (length r.span) then length r.span - r.pos else 0

abbrev pub error : ByteReader → Bool
error r = not (is_ok r.status.code)

abbrev pub can_read : ByteReader → ℕ → Bool
can_read r n = not (error r) && leb n (remaining r)

-- The first failure stays.
unfoldable pub fail : ByteReader → StatusCode → Bytes → ByteReader
fail r code what = if is_ok r.status.code then record r { status = status code what } else r

unfoldable pub seek : ByteReader → ℕ → ByteReader × Bool
unfolding fail
seek r offset =
    if ltb (length r.span) offset
    then (
      fail (record r { pos = length r.span }) StatusCode.truncated (codes "seek past end"),
      false,
    )
    else (record r { pos = offset }, true)

unfoldable pub skip : ByteReader → ℕ → ByteReader × Bool
unfolding fail
skip r n =
    if error r
    then (r, false)
    else if ltb (remaining r) n
    then (
      fail (record r { pos = length r.span }) StatusCode.truncated (codes "skip past end"),
      false,
    )
    else (record r { pos = r.pos + n }, true)

unfoldable pub read_u8 : ByteReader → ByteReader × ℕ
unfolding fail
read_u8 r =
    if not (can_read r 1)
    then (fail r StatusCode.truncated (codes "read_u8"), 0)
    else (record r { pos = r.pos + 1 }, get_or r.span r.pos 0)

-- The six word reads: `n` bytes at the position, through the load of their width and order.
unfoldable pub read_word : ℕ → (Bytes → ℕ) → Bytes → ByteReader → ByteReader × ℕ
unfolding fail
read_word n load what r =
    if not (can_read r n)
    then (fail r StatusCode.truncated what, 0)
    else (record r { pos = r.pos + n }, load (drop r.pos r.span))

abbrev pub read_u16_le : ByteReader → ByteReader × ℕ
read_u16_le r = read_word 2 load_u16_le (codes "read_u16_le") r

abbrev pub read_u16_be : ByteReader → ByteReader × ℕ
read_u16_be r = read_word 2 load_u16_be (codes "read_u16_be") r

abbrev pub read_u32_le : ByteReader → ByteReader × ℕ
read_u32_le r = read_word 4 load_u32_le (codes "read_u32_le") r

abbrev pub read_u32_be : ByteReader → ByteReader × ℕ
read_u32_be r = read_word 4 load_u32_be (codes "read_u32_be") r

abbrev pub read_u64_le : ByteReader → ByteReader × ℕ
read_u64_le r = read_word 8 load_u64_le (codes "read_u64_le") r

abbrev pub read_u64_be : ByteReader → ByteReader × ℕ
read_u64_be r = read_word 8 load_u64_be (codes "read_u64_be") r

-- `read_string` returns the same bytes as a string.
unfoldable pub read_bytes : ByteReader → ℕ → ByteReader × Bytes
unfolding fail
read_bytes r len =
    if len == 0
    then (r, [])
    else if not (can_read r len)
    then (fail r StatusCode.truncated (codes "read_bytes"), [])
    else (record r { pos = r.pos + len }, subspan r.span r.pos len)

unfoldable pub peek_u8 : ByteReader → ℕ
peek_u8 r = if error r || ltb (remaining r) 1 then 0 else get_or r.span r.pos 0

-- One call of a method, in a sequence that a decoder makes.
pub data Call : Type 0 where
  seek_to skip_by bytes : ℕ → Call
  u8 u16_le u16_be u32_le u32_be u64_le u64_be : Call

pub after : ByteReader → Call → ByteReader
unfolding seek skip read_u8 read_word read_bytes
after r (Call.seek_to n) = (seek r n).0
after r (Call.skip_by n) = (skip r n).0
after r (Call.bytes n) = (read_bytes r n).0
after r Call.u8 = (read_u8 r).0
after r Call.u16_le = (read_u16_le r).0
after r Call.u16_be = (read_u16_be r).0
after r Call.u32_le = (read_u32_le r).0
after r Call.u32_be = (read_u32_be r).0
after r Call.u64_le = (read_u64_le r).0
after r Call.u64_be = (read_u64_be r).0

pub after_all : ByteReader → List Call → ByteReader
after_all r [] = r
after_all r (c ∷ cs) = after_all (after r c) cs
