-- ===== src/BinSerializer/Positions.antt =====
-- The positions of a BinSerializer: reads stay behind what is written, and writes inside the buffer.
use anger.Common.{ℕ, zero, suc, ◌≤◌, ◌≡◌, Bool, false, List, Option, none, some, length, arith}
use anger.Common.Memory.{Memory}
use anger.BinSerializer.{
  Serializer, ℤ, pos, negsuc, new_serializer, reset, set_read, set_write, move_read, move_write,
  read8, read16, read32, read_text, grow_to, put, write8, write16, write32, copy_in, write_bytes,
  write_text,
}

pub record IsValid (b : Serializer) : Type 0 where
  pub behind : b.read_pos ≤ b.write_pos
  pub inside : b.write_pos ≤ b.max_size
  pub borrowed : b.owns ≡ false

-- A call of one of the operations.
pub data Call : Type 0 where
  moves_read : ℤ → Call
  moves_write : ℕ → Call
  reads8 : Call
  reads16 : Call
  reads32 : Call
  reads_text : Call
  writes8 : ℕ → Call
  writes16 : ℕ → Call
  writes32 : ℕ → Call
  writes_text : List ℕ → Call

-- The state after a read, whether it gave a value or not.
abbrev kept : {A : Type 0} → Serializer → Option (A × Serializer) → Serializer
kept b none = b
kept b (some (v, b')) = b'

abbrev wrote : Option (Bool × Serializer) → Option Serializer
wrote none = none
wrote (some (done, b)) = some b

-- After a call the positions are still in order, in the same buffer; only the write of a text may
-- have faulted.
abbrev pub Stays : Call → Serializer → Option Serializer → Type 0
Stays (Call.writes_text text) b none = zero ≡ zero
Stays _ b none = zero ≡ suc zero
Stays _ b (some b') = IsValid b' × (b'.max_size ≡ b.max_size)

module _ (scaled : ℕ → ℕ) (fresh : Memory) where
  -- `none` where the source reads or writes outside a buffer.
  unfoldable pub perform : Call → Serializer → Option Serializer
  perform (Call.moves_read n) b = some (move_read n b).1
  perform (Call.moves_write n) b = some (move_write (pos n) b).1
  perform Call.reads8 b = some (kept b (read8 b))
  perform Call.reads16 b = some (kept b (read16 b))
  perform Call.reads32 b = some (kept b (read32 b))
  perform Call.reads_text b = some (kept b (read_text b))
  perform (Call.writes8 v) b = wrote (write8 scaled fresh v b)
  perform (Call.writes16 v) b = wrote (write16 scaled fresh v b)
  perform (Call.writes32 v) b = wrote (write32 scaled fresh v b)
  perform (Call.writes_text text) b = wrote (write_text scaled fresh text b)

  -- On a new serializer there is no memory to grow from: every write of a number or a text faults.
  pub write-new_serializer :
      (nowhere : Memory) (v : ℕ) (text : List ℕ)
      → ((n : ℕ) → n ≤ scaled n)
      → length text ≤ 65535
      → (write8 scaled fresh v (new_serializer nowhere) ≡ none)
        × (write16 scaled fresh v (new_serializer nowhere) ≡ none)
        × (write32 scaled fresh v (new_serializer nowhere) ≡ none)
        × (write_text scaled fresh text (new_serializer nowhere) ≡ none)
  unfolding write8 write16 write32 write_text put grow_to new_serializer reset
  write-new_serializer nowhere v text larger h = (
    ground (arith, larger 1),
    ground (arith, larger 2),
    ground (arith, larger 4),
    ground (arith, larger 2),
  )

  perform_text :
      (text : List ℕ) (b : Serializer)
      → IsValid b
      → Stays (Call.writes_text text) b (wrote (write_text scaled fresh text b))
  unfolding write_text write16 write_bytes put grow_to copy_in move_write set_write
  perform_text text b v = ground (arith, v.behind, v.inside, v.borrowed)

  -- On a buffer that the serializer does not own, no call moves the read position past the write
  -- position or the write position past the buffer, or leaves the buffer; only the write of a text
  -- may write outside it.
  pub perform-Stays : (c : Call) (b : Serializer) → IsValid b → Stays c b (perform c b)
  unfolding perform move_read move_write set_read set_write read8 read16 read32 read_text write8
      write16 write32 put grow_to
  perform-Stays (Call.moves_read (pos n)) b v = ground (arith, v.behind, v.inside, v.borrowed)
  perform-Stays (Call.moves_read (negsuc n)) b v = ground (arith, v.behind, v.inside, v.borrowed)
  perform-Stays (Call.moves_write n) b v = ground (arith, v.behind, v.inside, v.borrowed)
  perform-Stays Call.reads8 b v = ground (arith, v.behind, v.inside, v.borrowed)
  perform-Stays Call.reads16 b v = ground (arith, v.behind, v.inside, v.borrowed)
  perform-Stays Call.reads32 b v = ground (arith, v.behind, v.inside, v.borrowed)
  perform-Stays Call.reads_text b v = ground (arith, v.behind, v.inside, v.borrowed)
  perform-Stays (Call.writes8 n) b v = ground (arith, v.behind, v.inside, v.borrowed)
  perform-Stays (Call.writes16 n) b v = ground (arith, v.behind, v.inside, v.borrowed)
  perform-Stays (Call.writes32 n) b v = ground (arith, v.behind, v.inside, v.borrowed)
  perform-Stays (Call.writes_text text) b v = perform_text text b v
