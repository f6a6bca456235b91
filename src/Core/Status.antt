-- ===== src/Core/Status.antt =====
-- Status and result types (include/core/status.hpp, src/core/status.cpp), and the overflow and
-- clamping helpers of include/core/types.hpp.
use chrono_sift.Common.{
  not, null, ◌++◌, ℕ, ◌-◌, ◌^◌, Bool, true, false, [], ltb, if◌then◌else◌, Bytes, codes,
}

pub data StatusCode : Type 0 where
  ok truncated malformed invalid_field unsupported limit_exceeded empty : StatusCode

unfoldable pub status_code_name : StatusCode → Bytes
status_code_name StatusCode.ok = codes "ok"
status_code_name StatusCode.truncated = codes "truncated"
status_code_name StatusCode.malformed = codes "malformed"
status_code_name StatusCode.invalid_field = codes "invalid-field"
status_code_name StatusCode.unsupported = codes "unsupported"
status_code_name StatusCode.limit_exceeded = codes "limit-exceeded"
status_code_name StatusCode.empty = codes "empty"

abbrev pub is_ok : StatusCode → Bool
is_ok StatusCode.ok = true
is_ok _ = false

pub record Status : Type 0 where
  pub code : StatusCode
  pub message : Bytes

-- `Status()`
abbrev pub good : Status
good = record { code = StatusCode.ok; message = [] }

abbrev pub status : StatusCode → Bytes → Status
status c m = record { code = c; message = m }

-- `Result<T>`: a value, or the status of a failure.
pub data Result {ℓ} (A : Type ℓ) : Type ℓ where
  success : A → Result A
  failure : Status → Result A

-- `add_overflows_u64`
pub add_overflows_u64 : ℕ → ℕ → Bool
add_overflows_u64 a b = ltb (2 ^ 64 - 1 - b) a

-- `clamp_value`, on numbers.
unfoldable pub clamp_value : ℕ → ℕ → ℕ → ℕ
clamp_value value lo hi = if ltb value lo then lo else if ltb hi value then hi else value

-- `Status::to_string`
unfoldable pub status_string : Status → Bytes
unfolding status_code_name
status_string s =
    let out = status_code_name s.code in
    if not (null s.message) then out ++ (codes ": " ++ s.message) else out
