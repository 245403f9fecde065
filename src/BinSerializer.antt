-- ===== src/BinSerializer.antt =====
-- BinSerializer (GameConn/BinSerializer.h, GameConn/BinSerializer.cpp). A write gives `none` where
-- the source reads or writes outside a buffer, and otherwise its result with the new state.
-- Positions are far below 2^31. What the float product of growTo gives, and what is in new memory,
-- are parameters.
pub mod Scalars
pub mod Texts
pub mod Positions
mod Tests
use anger.Common.{
  ℕ, zero, suc, ◌+◌, ◌-◌, ◌*◌, ◌/◌, ◌%◌, Bool, true, false, not, ◌&&◌, List, [], ◌∷◌, Option, none,
  some, length, get_or, ltb, leb, if◌then◌else◌,
}
use anger.Common.Memory.{Memory, u32_at, u32_bytes, slice}
use anger.Util.{htonl, htons}

pub record Serializer : Type 0 where
  pub data_ptr : Memory
  pub orig_ptr : Memory
  pub write_pos : ℕ
  pub read_pos : ℕ
  pub max_size : ℕ
  pub orig_size : ℕ
  pub owns : Bool

-- A distance to move by.
pub data ℤ : Type 0 where
  pos : ℕ → ℤ
  negsuc : ℕ → ℤ

-- reset
unfoldable pub reset : Serializer → Serializer
reset b = if b.owns then record b { write_pos = 0; read_pos = 0 } else record b {
  max_size = b.orig_size;
  data_ptr = b.orig_ptr;
  write_pos = 0;
  read_pos = 0;
  owns = true;
}

-- The constructor; there is no memory yet.
unfoldable pub new_serializer : Memory → Serializer
unfolding reset
new_serializer nowhere = reset (record {
  data_ptr = nowhere;
  orig_ptr = nowhere;
  write_pos = 0;
  read_pos = 0;
  max_size = 0;
  orig_size = 0;
  owns = false;
})

-- resetTo
unfoldable pub reset_to : Memory → ℕ → ℕ → Serializer → Serializer
reset_to stream_in buff_size write_pos b = record {
  data_ptr = stream_in;
  orig_ptr = if b.owns then b.data_ptr else b.orig_ptr;
  write_pos = write_pos;
  read_pos = 0;
  max_size = buff_size;
  orig_size = if b.owns then b.max_size else b.orig_size;
  owns = false;
}

-- setRead and setWrite for a position that is not negative; another is refused.
unfoldable pub set_read : ℕ → Serializer → Bool × Serializer
set_read r b = if ltb b.write_pos r then (false, b) else (true, record b { read_pos = r })

unfoldable pub set_write : ℕ → Serializer → Bool × Serializer
set_write w b = if ltb b.max_size w then (false, b) else (true, record b { write_pos = w })

-- moveRead and moveWrite
unfoldable pub move_read : ℤ → Serializer → Bool × Serializer
unfolding set_read
move_read (pos n) b = set_read (b.read_pos + n) b
move_read (negsuc n) b = if ltb n b.read_pos then set_read (b.read_pos - (n + 1)) b else (false, b)

unfoldable pub move_write : ℤ → Serializer → Bool × Serializer
unfolding set_write
move_write (pos n) b = set_write (b.write_pos + n) b
move_write (negsuc n) b =
    if ltb n b.write_pos then set_write (b.write_pos - (n + 1)) b else (false, b)

-- Bytes that are put at an offset.
unfoldable pub store : Memory → ℕ → List ℕ → Memory
store m off bytes i = if ltb i off then m i else get_or bytes (i - off) (m i)

-- `*(u16_t*)(buff + off)`
unfoldable pub u16_at : Memory → ℕ → ℕ
u16_at buff off = buff off + buff (off + 1) * 256

abbrev pub u16_bytes : ℕ → List ℕ
u16_bytes v = v % 256 ∷ v / 256 % 256 ∷ []

-- read8, read16 and read32: the number, unless it is not all written.
unfoldable pub read8 : Serializer → Option (ℕ × Serializer)
read8 b =
    if ltb b.write_pos (b.read_pos + 1)
    then none
    else some (b.data_ptr b.read_pos, record b { read_pos = b.read_pos + 1 })

unfoldable pub read16 : Serializer → Option (ℕ × Serializer)
unfolding u16_at htons
read16 b =
    if ltb b.write_pos (b.read_pos + 2)
    then none
    else some (htons (u16_at b.data_ptr b.read_pos), record b { read_pos = b.read_pos + 2 })

unfoldable pub read32 : Serializer → Option (ℕ × Serializer)
unfolding u32_at htonl
read32 b =
    if ltb b.write_pos (b.read_pos + 4)
    then none
    else some (htonl (u32_at b.data_ptr b.read_pos), record b { read_pos = b.read_pos + 4 })

-- read(std::string&): the characters, unless they are not all written.
unfoldable pub read_text : Serializer → Option (List ℕ × Serializer)
read_text b = elim (read16 b) [
  | none ↦ none
  | some (slen, b') ↦
      if ltb b'.write_pos (slen + b'.read_pos)
      then none
      else some (slice b'.data_ptr b'.read_pos slen, record b' { read_pos = b'.read_pos + slen })
]

module _ (scaled : ℕ → ℕ) (fresh : Memory) where
  -- growTo. Nothing is copied if the new memory is too small, and of an old buffer that is smaller,
  -- more is copied than it has.
  unfoldable pub grow_to : ℕ → Serializer → Option Serializer
  grow_to max_size b =
      if not b.owns
      then some b
      else if ltb (scaled max_size) max_size
      then some (record b { data_ptr = fresh; max_size = scaled max_size })
      else if ltb b.max_size max_size
      then none
      else some (record b {
        data_ptr = λ i. if ltb i max_size then b.data_ptr i else fresh i;
        max_size = scaled max_size;
      })

  -- Growing, the test of the size, and the store, which write8, write16 and write32 share.
  unfoldable pub put : List ℕ → Serializer → Option (Bool × Serializer)
  unfolding store grow_to
  put bytes b = elim (grow_to (b.write_pos + length bytes) b) [
    | none ↦ none
    | some b' ↦
        if ltb b'.max_size (b'.write_pos + length bytes)
        then some (false, b')
        else some (
          true,
          record b' {
            data_ptr = store b'.data_ptr b'.write_pos bytes;
            write_pos = b'.write_pos + length bytes;
          },
        )
  ]

  unfoldable pub write8 : ℕ → Serializer → Option (Bool × Serializer)
  unfolding put
  write8 v b = put (v ∷ []) b

  unfoldable pub write16 : ℕ → Serializer → Option (Bool × Serializer)
  unfolding put htons
  write16 v b = put (u16_bytes (htons v)) b

  unfoldable pub write32 : ℕ → Serializer → Option (Bool × Serializer)
  unfolding put htonl
  write32 v b = put (u32_bytes (htonl v)) b

  -- The copying of write(const i8_t*, u16_t), behind the length: refused unless twice the bytes fit
  -- the whole buffer, and then not held against what is left of it.
  unfoldable pub copy_in : List ℕ → Serializer → Option (Bool × Serializer)
  unfolding store move_write
  copy_in bytes b =
      if ltb b.max_size (length bytes + length bytes)
      then some (false, b)
      else if ltb b.max_size (b.write_pos + length bytes)
      then none
      else some (
          move_write (pos (length bytes))
            (record b { data_ptr = store b.data_ptr b.write_pos bytes }))

  -- write(const i8_t*, u16_t)
  unfoldable pub write_bytes : List ℕ → Serializer → Option (Bool × Serializer)
  write_bytes bytes b = elim (grow_to (b.write_pos + length bytes) b) [
    | none ↦ none
    | some b1 ↦
        if ltb b1.max_size (b1.write_pos + length bytes)
        then some (false, b1)
        else elim (write16 (length bytes) b1) [
          | none ↦ none
          | some (false, b2) ↦ some (false, b2)
          | some (true, b2) ↦ copy_in bytes b2
        ]
  ]

  -- write(const std::string&)
  unfoldable pub write_text : List ℕ → Serializer → Option (Bool × Serializer)
  write_text text b =
      if ltb 65535 (length text) then some (false, b) else elim (write16 (length text) b) [
        | none ↦ none
        | some (false, b') ↦ some (false, b')
        | some (true, b') ↦ write_bytes text b'
      ]
