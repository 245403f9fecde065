-- ===== src/Sequence.antt =====
-- RUDPLink::isSequenceNewer (GameConn/RUDPLink.cpp): the order of the wrapping sequence numbers.
mod Tests
use anger.Common.{ℕ, ◌<◌, ◌≤◌, ◌≡◌, Bool, true, leb, arith}
use anger.Common.Word.{u32_mod, add32, sub32}

-- `UINT_MAX >> 1`
abbrev pub half_range : ℕ
half_range = 2147483647

unfoldable pub is_sequence_newer : ℕ → ℕ → Bool
unfolding sub32
is_sequence_newer incoming having = leb (sub32 incoming having) half_range

-- `k` steps ahead of `having`, counted with wrap-around, is newer exactly for the first half of
-- the range.
pub is_sequence_newer-add :
    (having k : ℕ)
    → having < u32_mod
    → k < u32_mod
    → is_sequence_newer (add32 having k) having ≡ leb k half_range
unfolding is_sequence_newer add32
is_sequence_newer-add having k h hk = ground arith

-- Two different numbers are not each newer than the other.
pub is_sequence_newer_antisymm :
    (a b : ℕ)
    → a < u32_mod
    → b < u32_mod
    → is_sequence_newer a b ≡ true
    → is_sequence_newer b a ≡ true
    → a ≡ b
unfolding is_sequence_newer
is_sequence_newer_antisymm a b ha hb p q = ground arith

-- Numbers that lie less than half the range apart are compared as numbers.
pub is_sequence_newer_small :
    (a b : ℕ) → a ≤ half_range → b ≤ half_range → is_sequence_newer a b ≡ leb b a
unfolding is_sequence_newer
is_sequence_newer_small a b ha hb = ground arith
