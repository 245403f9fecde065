-- ===== src/Common/Memory.antt =====
-- A buffer in memory, as the bytes found at each offset, and 32-bit words in it. The machine is
-- little-endian (ZERODELAY_LIL_ENDIAN in GameConn/Platform.h).
use Prim.Native.Nat.{ℕ, zero, suc, ◌+◌, ◌*◌, ◌/◌, ◌%◌, ◌<◌}
use mathlib.Core.Path.{◌≡◌, ap, sym, ◌∙◌}
use mathlib.Core.List.{List, [], ◌∷◌}
use native.Mathlib.Omega.{arith}
use anger.Common.Lists.{get_or, length, drop, drop-length, drop-eq-cons}
use anger.Common.Word.{u32_mod}

abbrev pub Memory : Type 0
Memory = ℕ → ℕ

-- `*(u32_t*)(buff + off)`
unfoldable pub u32_at : Memory → ℕ → ℕ
u32_at buff off =
    buff off + buff (off + 1) * 256 + buff (off + 2) * 65536 + buff (off + 3) * 16777216

-- The four bytes of a word, in memory order.
abbrev pub byte0 : ℕ → ℕ
byte0 v = v % 256

abbrev pub byte1 : ℕ → ℕ
byte1 v = v / 256 % 256

abbrev pub byte2 : ℕ → ℕ
byte2 v = v / 65536 % 256

abbrev pub byte3 : ℕ → ℕ
byte3 v = v / 16777216 % 256

abbrev pub u32_bytes : ℕ → List ℕ
u32_bytes v = byte0 v ∷ byte1 v ∷ byte2 v ∷ byte3 v ∷ []

-- The bytes `buff[off] … buff[off + n - 1]`.
unfoldable pub slice : Memory → ℕ → ℕ → List ℕ
slice buff off zero = []
slice buff off (suc n) = buff off ∷ slice buff (off + 1) n

-- A receive buffer after a datagram was written to its start: beyond the datagram, what was there.
unfoldable pub load : Memory → List ℕ → Memory
load stale d i = get_or d i (stale i)

-- A word is read back as it was written.
pub u32_of_bytes :
    (v : ℕ) → v < u32_mod → byte0 v + byte1 v * 256 + byte2 v * 65536 + byte3 v * 16777216 ≡ v
u32_of_bytes v h = omega arith

-- The rest of a datagram, copied out of the receive buffer.
pub slice-load :
    (stale : Memory) (d : List ℕ) (n off : ℕ)
    → off + n ≡ length d
    → slice (load stale d) off n ≡ drop off d
unfolding slice load
slice-load stale d zero off h = rw (off_end off h) (sym (drop-length d))
  where
    off_end : (off : ℕ) → off + 0 ≡ length d → off ≡ length d
    off_end off h = omega arith
slice-load stale d (suc n) off h =
    rw (drop-eq-cons off d (stale off) (omega arith))
      (ap (◌∷◌ (get_or d off (stale off))) (slice-load stale d n (off + 1) (omega arith) ∙ next))
  where
    next : drop (off + 1) d ≡ drop (suc off) d
    next = ap (λ k. drop k d) {y = suc off} (omega arith)
