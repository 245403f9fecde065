-- ===== src/Packet.antt =====
-- Packet and the enumerations of the wire format (GameConn/RecvNode.h, GameConn/CoreNode.h).
use anger.Common.{ℕ, List, Bool, Option, none, some, ◌==◌, if◌then◌else◌}

-- EHeaderPacketType
pub data HeaderPacketType : Type 0 where
  reliable_ordered unreliable_sequenced reliable_newest ack ack_reliable_newest : HeaderPacketType

-- The number of an enumerator.
abbrev pub to_byte : HeaderPacketType → ℕ
to_byte reliable_ordered = 0
to_byte unreliable_sequenced = 1
to_byte reliable_newest = 2
to_byte ack = 3
to_byte ack_reliable_newest = 4

-- The enumerator of a byte from the wire; `none` stands for all other values.
unfoldable pub of_byte : ℕ → Option HeaderPacketType
of_byte b =
    if b == 0
    then some reliable_ordered
    else if b == 1
    then some unreliable_sequenced
    else if b == 2
    then some reliable_newest
    else if b == 3
    then some ack
    else if b == 4
    then some ack_reliable_newest
    else none

-- `payload` is `data`, and its length is `len`. The bit field `flags` is given by its three bits:
-- RelayBit, FirstFragmentBit and LastFragmentBit.
pub record Packet : Type 0 where
  pub link_id : ℕ
  pub payload : List ℕ
  pub channel : ℕ
  pub relay : Bool
  pub first_fragment : Bool
  pub last_fragment : Bool
  pub type : HeaderPacketType

-- ECriticalError
pub data CriticalError : Type 0 where
  serialization_error cannot_find_external_c_function socket_is_null : CriticalError
  too_much_data_to_send invalid_logic : CriticalError
