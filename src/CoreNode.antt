-- ===== src/CoreNode.antt =====
-- CoreNode (GameConn/CoreNode.h, GameConn/CoreNode.cpp): what kind of node this is, the critical
-- errors, and the packets that no other part handles. A method of ZNode that only asks the CoreNode
-- (GameConn/Zerodelay.cpp) stands here too.
pub mod Errors
mod Tests
use anger.Common.{
  ℕ, ◌+◌, ◌/◌, ◌%◌, Bool, true, false, not, ◌&&◌, ◌||◌, List, [], ◌∷◌, ◌++◌, Option, none, some,
  length, drop, leb, ◌==◌, if◌then◌else◌,
}
use anger.Util.{Text, read_string}
use anger.EndPoint.{EndPoint}
use anger.Packet.{
  HeaderPacketType, Packet, CriticalError, serialization_error, cannot_find_external_c_function,
  socket_is_null, too_much_data_to_send, invalid_logic,
}

-- The flags of `critical_errors` are those of ECriticalError.
pub record CoreNode : Type 0 where
  pub is_p2p : Bool
  pub is_listening : Bool
  pub is_super_peer : Bool
  pub critical_errors : ℕ
  pub function_in_error : Text

-- A packet sent on to all but one, the callback for data of the user, and a call of a function of
-- the user.
pub data Effect : Type 0 where
  relay : EndPoint → ℕ → List ℕ → HeaderPacketType → ℕ → Effect
  custom_data : EndPoint → ℕ → List ℕ → ℕ → Effect
  call : Text → EndPoint → List ℕ → ℕ → Effect

-- The flag of an error.
abbrev pub flag_of : CriticalError → ℕ
flag_of serialization_error = 1
flag_of cannot_find_external_c_function = 2
flag_of socket_is_null = 4
flag_of too_much_data_to_send = 8
flag_of invalid_logic = 16

-- Whether a flag is set, and a flag that is set by `|=`.
unfoldable pub has_flag : ℕ → ℕ → Bool
has_flag errors flag = errors / flag % 2 == 1

unfoldable pub set_flag : ℕ → ℕ → ℕ
unfolding has_flag
set_flag errors flag = if has_flag errors flag then errors else errors + flag

-- reset
unfoldable pub reset : CoreNode → CoreNode
reset n = record n {
  critical_errors = 0;
  function_in_error = [];
  is_p2p = false;
  is_listening = false;
  is_super_peer = false;
}

-- setCriticalError
unfoldable pub set_critical_error : CriticalError → Text → CoreNode → CoreNode
unfolding set_flag
set_critical_error error name n = record n {
  critical_errors = set_flag n.critical_errors (flag_of error);
  function_in_error = name;
}

-- hasCriticalErrors
unfoldable pub has_critical_errors : CoreNode → Bool
has_critical_errors n = not (n.critical_errors == 0)

-- ZNode::isAuthorative and isClient
unfoldable pub is_authorative : CoreNode → Bool
is_authorative n = (not n.is_p2p && n.is_listening) || (n.is_p2p && n.is_super_peer)

unfoldable pub is_client : CoreNode → Bool
is_client n = not (n.is_p2p || n.is_listening)

-- recvUserPacket, with the data id and what is behind it
unfoldable pub recv_user_packet : Packet → ℕ → List ℕ → EndPoint → CoreNode → List Effect
recv_user_packet pack id payload e n =
    (if pack.relay && (n.is_listening && not n.is_p2p)
      then Effect.relay e id payload pack.type pack.channel ∷ []
      else [])
    ++ (Effect.custom_data e id payload pack.channel ∷ [])

-- RPC_NAME_MAX_LENGTH
abbrev pub rpc_name_max_length : ℕ
rpc_name_max_length = 128

-- recvRpcPacket; `find_function` is Platform::getPtrFromName, of the name behind the prefix
-- `__rpc_deserialize_`. The function gets the length of the whole payload.
unfoldable pub recv_rpc_packet :
    (Text → Bool) → Text → List ℕ → EndPoint → CoreNode → CoreNode × List Effect
unfolding set_critical_error read_string
recv_rpc_packet find_function here payload e n = elim (read_string rpc_name_max_length payload) [
  | none ↦ (set_critical_error serialization_error here n, [])
  | some (name, k_read) ↦
      if find_function name
      then (n, Effect.call name e (drop k_read payload) (length payload) ∷ [])
      else (set_critical_error cannot_find_external_c_function here n, [])
]

-- UserOffset
abbrev pub user_offset : ℕ
user_offset = 25

-- processUnhandledPacket, with the data id and what is behind it
unfoldable pub process_unhandled_packet :
    (Text → Bool) → Text → Packet → ℕ → List ℕ → EndPoint → CoreNode → CoreNode × List Effect
unfolding recv_user_packet recv_rpc_packet
process_unhandled_packet find_function here pack id payload e n =
    if leb user_offset id
    then (n, recv_user_packet pack id payload e n)
    else if id == 11
    then recv_rpc_packet find_function here payload e n
    else (n, [])
