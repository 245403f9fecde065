-- ===== src/Util/ByteOrder.antt =====
-- Util::htonl and Util::htons (GameConn/Util.cpp).
use anger.Common.{ℕ, ◌%◌, ◌<◌, ◌≡◌, arith}
use anger.Common.Word.{u32_mod}
use anger.Util.{htonl, htons}

-- Swapping the bytes twice gives the number back, for 32 bits and for 16.
pub htonl-htonl : (v : ℕ) → v < u32_mod → htonl (htonl v) ≡ v
unfolding htonl
htonl-htonl v h = omega arith

pub htons-htons : (v : ℕ) → v < 65536 → htons (htons v) ≡ v
unfolding htons
htons-htons v h = omega arith

pub htonl-lt : (v : ℕ) → v < u32_mod → htonl v < u32_mod
unfolding htonl
htonl-lt v h = omega arith

pub htons-lt : (v : ℕ) → v < 65536 → htons v < 65536
unfolding htons
htons-lt v h = omega arith

-- The 32-bit swap of a 16-bit number leaves nothing in its low 16 bits.
pub htonl_low : (v : ℕ) → v < 65536 → htonl v % 65536 ≡ 0
unfolding htonl
htonl_low v h = omega arith
