-- ===== src/ConnectionNode/Receive.antt =====
-- ConnectionNode::recvPacket and the handlers that it calls (GameConn/ConnectionNode.cpp).
use anger.Common.{
  ℕ, Bool, true, false, List, [], ◌∷◌, ◌++◌, Option, none, some, length, drop, get_or, get_elem?,
  ltb, leb, ◌==◌, ◌&&◌, if◌then◌else◌,
}
use anger.Packet.{serialization_error}
use anger.Util.{same_text, Text, read_string, buff_recv_size, deserialize_map}
use anger.EndPoint.{EndPoint, read}
use anger.RecvNode.{same_end_point}
use anger.Connection.State.{Connection, DataPacketType, Clock, Action, new_connection}
use anger.Connection.{
  is_connected, send_connect_accept, on_receive_connect_accept, on_receive_disconnect,
  on_receive_keep_alive_request, on_receive_keep_alive_answer, set_invalid_password,
  set_max_connections_reached, set_invalid_connect_packet,
}
use anger.ConnectionNode.State.{
  ConnectionNode, Effect, Outcome, and_then, find_connection, put_connection, actions_of,
}
use anger.ConnectionNode.Relay.{send_remote_connected, send_remote_disconnected}

-- The data ids of the connection layer, as they are numbered in EDataPacketType.
unfoldable pub of_data_id : ℕ → Option DataPacketType
of_data_id id =
    if id == 0
    then some DataPacketType.connect_request
    else if id == 1
    then some DataPacketType.connect_accept
    else if id == 2
    then some DataPacketType.disconnect
    else if id == 3
    then some DataPacketType.remote_connected
    else if id == 4
    then some DataPacketType.remote_disconnected
    else if id == 5
    then some DataPacketType.keep_alive_request
    else if id == 6
    then some DataPacketType.keep_alive_answer
    else if id == 7
    then some DataPacketType.incorrect_password
    else if id == 8
    then some DataPacketType.max_connections
    else if id == 9
    then some DataPacketType.already_connected
    else if id == 10
    then some DataPacketType.invalid_connect
    else none

-- handleInvalidConnectAttempt
unfoldable pub handle_invalid_connect_attempt : DataPacketType → EndPoint → ConnectionNode → Outcome
handle_invalid_connect_attempt response e n =
    some (n, Effect.send e response [] ∷ Effect.mark_pending_delete e ∷ Effect.block_sends e ∷ [])

-- `deserializeMap(metaData, payload + readBytes, payloadLen - readBytes)`: a length below 0 fails.
unfoldable pub meta_data_behind : ℕ → List ℕ → Option (List (Text × Text))
unfolding deserialize_map
meta_data_behind read_bytes payload =
    if ltb (length payload) read_bytes then none else deserialize_map (drop read_bytes payload)

-- A new connection is added and told of.
unfoldable pub add_incoming : EndPoint → List (Text × Text) → ConnectionNode → Outcome
unfolding send_connect_accept
add_incoming e meta_data n =
    elim (send_connect_accept (new_connection false 8 n.keep_alive_interval_seconds)) [
      | none ↦ none
      | some (c, actions) ↦
          let n' = record n { connections = n.connections ++ ((e, c) ∷ []) } in
          let told = actions_of e actions ++ (Effect.new_connection true e meta_data ∷ []) in
          and_then (some (n', told)) (
            if n.relay_connect_and_disconnect then send_remote_connected e meta_data else λ m.
            some (m, []))
    ]

-- recvConnectPacket, behind the test of the password.
unfoldable pub admit : EndPoint → ℕ → List ℕ → ConnectionNode → Outcome
unfolding handle_invalid_connect_attempt meta_data_behind
admit e read_bytes payload n =
    if leb n.max_incoming_connections (length n.connections)
    then handle_invalid_connect_attempt DataPacketType.max_connections e n
    else elim (meta_data_behind read_bytes payload) [
      | none ↦ some (n, Effect.critical serialization_error ∷ [])
      | some meta_data ↦ add_incoming e meta_data n
    ]

-- recvConnectPacket, on the link of an endpoint
unfoldable pub recv_connect_packet : EndPoint → List ℕ → ConnectionNode → Outcome
unfolding handle_invalid_connect_attempt
recv_connect_packet e payload n = elim (find_connection e n.connections) [
  | some c ↦ handle_invalid_connect_attempt DataPacketType.already_connected e n
  | none ↦ elim (read_string buff_recv_size payload) [
    | none ↦ some (n, Effect.critical serialization_error ∷ [])
    | some (pw, read_bytes) ↦
        if same_text n.password pw
        then admit e read_bytes payload n
        else handle_invalid_connect_attempt DataPacketType.incorrect_password e n
  ]
]

-- What a handler of the connection to an endpoint did.
unfoldable pub after_handler :
    EndPoint → Option (Connection × List Action) → ConnectionNode → Outcome
unfolding put_connection actions_of
after_handler e none n = none
after_handler e (some (c, actions)) n =
    some (record n { connections = put_connection e c n.connections }, actions_of e actions)

-- recvDisconnectPacket; the reason is EDisconnectReason::Closed.
unfoldable pub recv_disconnect_packet : Clock → EndPoint → Connection → ConnectionNode → Outcome
unfolding on_receive_disconnect is_connected
recv_disconnect_packet clock e c n = and_then (after_handler e (on_receive_disconnect clock c) n) (
    if is_connected c.state && n.relay_connect_and_disconnect
    then send_remote_disconnected e 0
    else λ m. some (m, []))

-- The endpoint at the start of a payload.
unfoldable pub read_end_point : List ℕ → Option EndPoint
unfolding read
read_end_point payload = read (λ i. get_or payload i 0) (length payload)

-- recvRemoteConnected, on the connection to `e`
unfoldable pub recv_remote_connected : EndPoint → List ℕ → ConnectionNode → Outcome
unfolding same_end_point deserialize_map
recv_remote_connected e payload n = elim (read_end_point payload) [
  | none ↦ some (n, Effect.critical serialization_error ∷ [])
  | some remote ↦
      if same_end_point e remote
      then some (n, Effect.critical serialization_error ∷ [])
      else elim (deserialize_map (drop 6 payload)) [
        | none ↦ some (n, Effect.critical serialization_error ∷ [])
        | some meta_data ↦ some (n, Effect.new_connection false remote meta_data ∷ [])
      ]
]

-- recvRemoteDisconnected; the byte of the reason is read unchecked.
unfoldable pub recv_remote_disconnected : EndPoint → List ℕ → ConnectionNode → Outcome
unfolding same_end_point
recv_remote_disconnected e payload n = elim (read_end_point payload) [
  | none ↦ some (n, Effect.critical serialization_error ∷ [])
  | some remote ↦
      if same_end_point e remote
      then some (n, Effect.critical serialization_error ∷ [])
      else elim (get_elem? payload 6) [
        | none ↦ none
        | some reason ↦ some (n, Effect.disconnected false remote reason ∷ [])
      ]
]

-- The switch of recvPacket for a packet of the connection `c` to `g`, on the link of `e`.
unfoldable pub recv_known :
    Clock → DataPacketType → EndPoint → EndPoint → List ℕ → Connection → ConnectionNode → Outcome
recv_known clock DataPacketType.connect_request e g payload c n = recv_connect_packet e payload n
recv_known clock DataPacketType.connect_accept e g payload c n =
    after_handler g (on_receive_connect_accept clock c) n
recv_known clock DataPacketType.disconnect e g payload c n = recv_disconnect_packet clock g c n
recv_known clock DataPacketType.remote_connected e g payload c n = recv_remote_connected g payload n
recv_known clock DataPacketType.remote_disconnected e g payload c n =
    recv_remote_disconnected g payload n
recv_known clock DataPacketType.keep_alive_request e g payload c n =
    after_handler g (some (on_receive_keep_alive_request c)) n
recv_known clock DataPacketType.keep_alive_answer e g payload c n =
    after_handler g (some (on_receive_keep_alive_answer clock c)) n
recv_known clock DataPacketType.incorrect_password e g payload c n =
    after_handler g (set_invalid_password c) n
recv_known clock DataPacketType.max_connections e g payload c n =
    after_handler g (set_max_connections_reached c) n
recv_known clock DataPacketType.already_connected e g payload c n =
    after_handler g (set_invalid_connect_packet c) n
recv_known clock DataPacketType.invalid_connect e g payload c n = some (n, [])

-- The connection that is being processed.
unfoldable pub processed : ConnectionNode → Option (EndPoint × Connection)
processed n = elim n.processing [
  | none ↦ none
  | some e ↦ elim (find_connection e n.connections) [ none ↦ none | some c ↦ some (e, c) ]
]

-- A packet that was handled.
unfoldable pub handled : Outcome → Option (Bool × ConnectionNode × List Effect)
handled none = none
handled (some (n, effects)) = some (true, n, effects)

-- recvPacket with a reliable ordered packet of the link of `e`; the Boolean is whether it was handled.
unfoldable pub recv_packet :
    Clock → EndPoint → ℕ → List ℕ → ConnectionNode → Option (Bool × ConnectionNode × List Effect)
unfolding of_data_id handled
recv_packet clock e id payload n = elim (processed n) [
  | none ↦
      if id == 0
      then handled (recv_connect_packet e payload n)
      else handled (handle_invalid_connect_attempt DataPacketType.invalid_connect e n)
  | some (g, c) ↦ elim (of_data_id id) [
    | none ↦ some (false, n, [])
    | some type ↦ handled (recv_known clock type e g payload c n)
  ]
]

-- beginProcessPacketsFor and endProcessPackets
unfoldable pub begin_process_packets_for : EndPoint → ConnectionNode → ConnectionNode
begin_process_packets_for e n = elim (find_connection e n.connections) [
  | none ↦ n
  | some c ↦ record n { processing = some e }
]

unfoldable pub end_process_packets : ConnectionNode → ConnectionNode
end_process_packets n = record n { processing = none }
