-- ===== src/Core/Timestamp/Order.antt =====
-- `operator<` on timestamps is a strict weak order, and its ties are the equal timestamps.
use chrono_sift.Common.{true, false, ◌≡◌, arith}
use chrono_sift.Core.Timestamp.{Timestamp, before, same_time}

pub before_irrefl : (a : Timestamp) → before a a ≡ false
unfolding before
before_irrefl a = ground arith

-- A later time is not before a time that is not after.
pub before_trans :
    (a b c : Timestamp) → before b a ≡ false → before c b ≡ false → before c a ≡ false
unfolding before
before_trans a b c h k = ground arith

pub same_time-before :
    (a b : Timestamp) → same_time a b ≡ true → (before a b ≡ false) × (before b a ≡ false)
unfolding before same_time
same_time-before a b h = ground arith

pub before_asym : (a b : Timestamp) → before a b ≡ true → before b a ≡ false
unfolding before
before_asym a b h = ground arith

-- Of two times the later one is no other time that the earlier one is.
pub later : (a b t : Timestamp) → before a b ≡ true → same_time a t ≡ true → same_time b t ≡ false
unfolding before same_time
later a b t h k = ground arith
