-- ===== src/Wire.antt =====
-- The layout of a datagram: the offsets of GameConn/RUDPLink.h and the support functions at the
-- end of GameConn/RUDPLink.cpp that write and read headers and cut data into fragments.
pub mod Header
pub mod Fragments
mod Tests
use Prim.Native.Nat.{bit_and, bit_or, min}
use anger.Common.{
  ℕ, zero, suc, ◌+◌, ◌*◌, ◌-◌, Bool, true, false, not, ◌&&◌, ◌||◌, List, [], ◌∷◌, ◌++◌, Option,
  none, some, ltb, leb, ◌==◌, if◌then◌else◌, length, get_or, set, take, drop,
}
use anger.Common.Memory.{Memory, u32_at, u32_bytes, byte0, byte1, byte2, byte3, slice}
use anger.Packet.{HeaderPacketType, to_byte, of_byte, Packet}

abbrev pub off_link : ℕ
off_link = 0

abbrev pub off_type : ℕ
off_type = 4

abbrev pub hdr_generic_size : ℕ
hdr_generic_size = 5

abbrev pub off_norm_chan_n_flags : ℕ
off_norm_chan_n_flags = 5

abbrev pub off_norm_seq : ℕ
off_norm_seq = 6

abbrev pub off_norm_id : ℕ
off_norm_id = 10

abbrev pub off_norm_data : ℕ
off_norm_data = 11

abbrev pub hdr_norm_size : ℕ
hdr_norm_size = 5

abbrev pub off_relnew_seq : ℕ
off_relnew_seq = 5

abbrev pub off_relnew_num : ℕ
off_relnew_num = 9

abbrev pub off_relnew_group_id : ℕ
off_relnew_group_id = 13

abbrev pub hdr_relnew_size : ℕ
hdr_relnew_size = 16

abbrev pub off_ack_chan : ℕ
off_ack_chan = 5

abbrev pub off_ack_num : ℕ
off_ack_num = 6

abbrev pub off_ack_payload : ℕ
off_ack_payload = 10

abbrev pub hdr_ack_size : ℕ
hdr_ack_size = 5

abbrev pub off_ack_relnew_seq : ℕ
off_ack_relnew_seq = 5

-- `off_Ack_Payload - off_Ack_RelNew_Seq`
abbrev pub hdr_ack_relnew_size : ℕ
hdr_ack_relnew_size = 5

-- A bool as a number.
abbrev pub to_bit : Bool → ℕ
to_bit true = 1
to_bit false = 0

-- The flags byte of a normal packet, before the bit of the last fragment is set.
unfoldable pub flags_byte : ℕ → Bool → Bool → ℕ
flags_byte channel relay start = bit_or (bit_or channel (to_bit relay * 8)) (to_bit start * 16)

-- What serializeNormalPacket is given beside the data.
pub record Outgoing : Type 0 where
  pub link_id : ℕ
  pub type : HeaderPacketType
  pub data_id : ℕ
  pub channel : ℕ
  pub relay : Bool

-- One fragment. The four bytes of the sequence number are not written here: they are 0 until
-- `put_sequence` sets them.
unfoldable pub fragment : Outgoing → Bool → List ℕ → List ℕ
unfolding flags_byte
fragment o start payload =
    u32_bytes o.link_id
    ++ (to_byte o.type ∷ flags_byte o.channel o.relay start ∷ 0 ∷ 0 ∷ 0 ∷ 0 ∷ o.data_id ∷ payload)

-- `fragment.data[off_Norm_Seq] = seq`
unfoldable pub put_sequence : ℕ → List ℕ → List ℕ
put_sequence seq d = set (set (set (set d 6 (byte0 seq)) 7 (byte1 seq)) 8 (byte2 seq)) 9 (byte3 seq)

-- `data[off_Norm_ChanNFlags] |= 1 << 5`
unfoldable pub set_last_bit : List ℕ → List ℕ
set_last_bit d = set d off_norm_chan_n_flags (bit_or (get_or d off_norm_chan_n_flags 0) 32)

-- The same on `packs.back()`.
unfoldable pub mark_last : List (List ℕ) → List (List ℕ)
unfolding set_last_bit
mark_last [] = []
mark_last (d ∷ []) = set_last_bit d ∷ []
mark_last (d ∷ e ∷ ds) = d ∷ mark_last (e ∷ ds)

cons_some : List ℕ → Option (List (List ℕ)) → Option (List (List ℕ))
cons_some d none = none
cons_some d (some ds) = some (d ∷ ds)

-- The loop of serializeNormalPacket, on fuel: `rest` is the data from `offset` on, `len` long.
unfoldable pub serialize_loop : ℕ → Outgoing → ℕ → Bool → List ℕ → Option (List (List ℕ))
unfolding fragment cons_some
serialize_loop zero o fragment_size start rest = none
serialize_loop (suc fuel) o fragment_size start rest = elim (ltb 0 (length rest) || start) [
  | false ↦ some []
  | true ↦
      let n = min (length rest) fragment_size in
      cons_some (fragment o start (take n rest))
        (serialize_loop fuel o fragment_size false (drop n rest))
]

-- serializeNormalPacket. Every round but the first takes at least one byte, so that the rounds
-- are at most one more than the bytes, and one more round ends the loop.
unfoldable pub serialize_normal_packet : Outgoing → ℕ → List ℕ → Option (List (List ℕ))
unfolding serialize_loop mark_last
serialize_normal_packet o fragment_size bytes =
    elim (serialize_loop (length bytes + 2) o fragment_size true bytes) [
      | none ↦ none
      | some ds ↦ some (mark_last ds)
    ]

-- deserializeGenericHdr; the second part of the result is `none` for an unknown type.
unfoldable pub deserialize_generic_hdr : Memory → ℕ → Option (ℕ × Option HeaderPacketType)
unfolding u32_at of_byte
deserialize_generic_hdr buff raw_size =
    if ltb raw_size hdr_generic_size
    then none
    else some (u32_at buff off_link, of_byte (buff off_type))

-- `(b & mask) != 0`
unfoldable pub has_bit : ℕ → ℕ → Bool
has_bit b mask = not (bit_and b mask == 0)

pub record NormalHdr : Type 0 where
  pub channel : ℕ
  pub relay : Bool
  pub seq : ℕ
  pub first_fragment : Bool
  pub last_fragment : Bool

-- deserializeNormalHdr
unfoldable pub deserialize_normal_hdr : Memory → ℕ → Option NormalHdr
unfolding u32_at has_bit
deserialize_normal_hdr buff raw_size =
    if leb raw_size hdr_norm_size
    then none
    else some (record {
      channel = bit_and (buff off_norm_chan_n_flags) 7;
      relay = has_bit (buff off_norm_chan_n_flags) 8;
      seq = u32_at buff off_norm_seq;
      first_fragment = has_bit (buff off_norm_chan_n_flags) 16;
      last_fragment = has_bit (buff off_norm_chan_n_flags) 32;
    })

-- createNormalPacket: `raw_size - off` bytes from `buff + off`. `none` is the failure of
-- `new i8_t[len]` for a negative length.
unfoldable pub create_normal_packet :
    Memory → ℕ → ℕ → ℕ → ℕ → Bool → HeaderPacketType → Option Packet
unfolding slice
create_normal_packet buff off raw_size link_id channel relay type =
    if ltb raw_size off
    then none
    else some (record {
      link_id = link_id;
      payload = slice buff off (raw_size - off);
      channel = channel;
      relay = relay;
      first_fragment = false;
      last_fragment = false;
      type = type;
    })
