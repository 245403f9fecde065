-- ===== src/Common/Word.antt =====
-- Unsigned 32-bit words (`u32_t`) and 8-bit ones as native numbers; arithmetic wraps.
use Prim.Native.Nat.{ℕ, suc, ◌+◌, ◌-◌, ◌%◌, ◌≤◌, ◌<◌}
use mathlib.Core.Path.{◌≡◌}
use mathlib.Core.Logic.{◌≢◌}
use native.Mathlib.Omega.{arith}

abbrev pub u32_mod : ℕ
u32_mod = 4294967296

-- `a + b`
unfoldable pub add32 : ℕ → ℕ → ℕ
add32 a b = (a + b) % u32_mod

-- `a - b`: the modulus is added first, since subtraction on ℕ stops at 0.
unfoldable pub sub32 : ℕ → ℕ → ℕ
sub32 a b = (a + u32_mod - b) % u32_mod

pub add32-lt : (a b : ℕ) → add32 a b < u32_mod
unfolding add32
add32-lt a b = omega arith

pub sub32-lt : (a b : ℕ) → sub32 a b < u32_mod
unfolding sub32
sub32-lt a b = omega arith

pub add32_small : (a b : ℕ) → a + b < u32_mod → add32 a b ≡ a + b
unfolding add32
add32_small a b h = omega arith

pub sub32_small : (a b : ℕ) → b ≤ a → a < u32_mod → sub32 a b ≡ a - b
unfolding sub32
sub32_small a b h k = omega arith

pub add32-sub32 : (a b : ℕ) → a < u32_mod → b < u32_mod → add32 (sub32 a b) b ≡ a
unfolding add32 sub32
add32-sub32 a b ha hb = omega arith

pub sub32-add32 : (a b : ℕ) → a < u32_mod → b < u32_mod → sub32 (add32 a b) b ≡ a
unfolding add32 sub32
sub32-add32 a b ha hb = omega arith

pub sub32_zero : (s : ℕ) → s < u32_mod → sub32 s 0 ≡ s
unfolding sub32
sub32_zero s h = omega arith

pub sub32-sub32 : (s i : ℕ) → s < u32_mod → i < u32_mod → sub32 (sub32 s 1) i ≡ sub32 s (suc i)
unfolding sub32
sub32-sub32 s i h k = omega arith

pub sub32_ne : (s i : ℕ) → s < u32_mod → suc i < u32_mod → sub32 s (suc i) ≢ s
unfolding sub32
sub32_ne s i h k e = omega arith

pub add32_zero : (s : ℕ) → s < u32_mod → add32 s 0 ≡ s
unfolding add32
add32_zero s h = omega arith

pub add32-add32 : (s i : ℕ) → add32 (add32 s 1) i ≡ add32 s (suc i)
unfolding add32
add32-add32 s i = omega arith

pub add32_ne : (s i : ℕ) → s < u32_mod → suc i < u32_mod → add32 s (suc i) ≢ s
unfolding add32
add32_ne s i h k e = omega arith

pub sub32-add32-suc :
    (s i : ℕ) → s < u32_mod → suc i < u32_mod → sub32 (add32 s (suc i)) 1 ≡ add32 s i
unfolding add32 sub32
sub32-add32-suc s i h k = omega arith

pub add32_inj : (s i j : ℕ) → i < u32_mod → j < u32_mod → add32 s i ≡ add32 s j → i ≡ j
unfolding add32
add32_inj s i j h k e = omega arith

-- The distance between two numbers of one stretch, its ends counted in.
pub sub32-add32_span :
    (s n : ℕ) → s < u32_mod → suc n < u32_mod → sub32 (add32 (add32 s n) 1) s ≡ suc n
unfolding add32 sub32
sub32-add32_span s n h k = omega arith

pub add32-suc : (s i : ℕ) → add32 (add32 s i) 1 ≡ add32 s (suc i)
unfolding add32
add32-suc s i = omega arith
