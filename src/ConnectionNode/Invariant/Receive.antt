-- ===== src/ConnectionNode/Invariant/Receive.antt =====
-- The handlers of ConnectionNode::recvPacket (GameConn/ConnectionNode.cpp) keep the map of
-- connections.
use anger.Common.{
  ℕ, ◌+◌, ◌≤◌, ◌≡◌, ◌≢◌, refl, Bool, true, false, List, [], ◌∷◌, ◌++◌, Option, none, some, arith,
  length, if◌then◌else◌, Option-cases, Bool-cases, inl, inr, leb, length-append, get_elem?-some,
  ◌&&◌,
}
use anger.Packet.{serialization_error}
use anger.Util.{same_text, Text, read_string, buff_recv_size}
use anger.EndPoint.{EndPoint, read}
use anger.RecvNode.{same_end_point}
use anger.Connection.State.{
  Connection, ConnectionState, DataPacketType, Clock, Action, new_connection,
}
use anger.Connection.{
  Event, step, is_connected, send_connect_accept, on_receive_disconnect, on_receive_connect_accept,
  on_receive_keep_alive_request, on_receive_keep_alive_answer, set_invalid_password,
  set_max_connections_reached, set_invalid_connect_packet,
}
use anger.Connection.Invariant.{IsValid, is_released, step-Fair}
use anger.ConnectionNode.State.{ConnectionNode, Effect, find_connection, actions_of}
use anger.ConnectionNode.Table.{AreConnections, snoc-AreConnections}
use anger.ConnectionNode.Relay.{send_remote_connected, send_remote_disconnected}
use anger.ConnectionNode.Receive.{
  add_incoming, admit, recv_connect_packet, recv_disconnect_packet, recv_remote_connected,
  recv_remote_disconnected, recv_known, read_end_point, meta_data_behind,
  handle_invalid_connect_attempt, after_handler,
}
use anger.ConnectionNode.Invariant.{
  Keeps, Keeps-and_then, unchanged-Keeps, after_handler-Keeps, send_remote_connected-Keeps,
  told_disconnected-Keeps,
}

abbrev failed : List Effect
failed = Effect.critical serialization_error ∷ []

-- The connection of an endpoint that was let in.
abbrev pub incoming : ConnectionNode → Connection
incoming n = record (new_connection false 8 n.keep_alive_interval_seconds) {
  state = ConnectionState.connected;
}

pub incoming-IsValid : (n : ConnectionNode) → IsValid (incoming n)
unfolding is_released new_connection
incoming-IsValid n = record { link_kept = refl; link_gone = λ e. cc }

module _ (n : ConnectionNode) (a : AreConnections n.connections) (e : EndPoint) where
  relayed-Keeps :
      (meta_data : List (Text × Text)) (relay : Bool) (m : ConnectionNode)
      → AreConnections m.connections
      → Keeps m ((if relay then send_remote_connected e meta_data else λ k. some (k, [])) m)
  relayed-Keeps meta_data true m b = send_remote_connected-Keeps m b e meta_data
  relayed-Keeps meta_data false m b = unchanged-Keeps m b []

  add_incoming-Keeps :
      (meta_data : List (Text × Text))
      → find_connection e n.connections ≡ none
      → length n.connections + 1 ≤ n.max_incoming_connections
      → Keeps n (add_incoming e meta_data n)
  unfolding add_incoming send_connect_accept new_connection
  add_incoming-Keeps meta_data f l =
      Keeps-and_then n
        (some (
          record n { connections = n.connections ++ ((e, incoming n) ∷ []) },
          actions_of e (
                Action.set_link_connected true
                ∷ Action.send_system DataPacketType.connect_accept []
                ∷ [])
              ++ (Effect.new_connection true e meta_data ∷ []),
        ))
        (if n.relay_connect_and_disconnect then send_remote_connected e meta_data else λ m.
          some (m, []))
        (
          snoc-AreConnections e (incoming n) n.connections (incoming-IsValid n) f a,
          refl,
          omega (arith, length-append n.connections ((e, incoming n) ∷ [])),
        )
        (relayed-Keeps meta_data n.relay_connect_and_disconnect)

  pub refused-Keeps :
      (response : DataPacketType) → Keeps n (handle_invalid_connect_attempt response e n)
  unfolding handle_invalid_connect_attempt
  refused-Keeps response =
      unchanged-Keeps n a
        (Effect.send e response [] ∷ Effect.mark_pending_delete e ∷ Effect.block_sends e ∷ [])

  admit-Keeps :
      (read_bytes : ℕ) (payload : List ℕ)
      → find_connection e n.connections ≡ none
      → Keeps n (admit e read_bytes payload n)
  unfolding admit
  admit-Keeps read_bytes payload f =
      elim (Bool-cases (leb n.max_incoming_connections (length n.connections))) [
        | inl full ↦ rw full (refused-Keeps DataPacketType.max_connections)
        | inr room ↦ elim (Option-cases (meta_data_behind read_bytes payload)) [
          | inl bad ↦ rw (room, bad) (unchanged-Keeps n a failed)
          | inr (meta_data, good) ↦ rw (room, good) (add_incoming-Keeps meta_data f (ground arith))
        ]
      ]

  pub recv_connect_packet-Keeps : (payload : List ℕ) → Keeps n (recv_connect_packet e payload n)
  unfolding recv_connect_packet
  recv_connect_packet-Keeps payload = elim (Option-cases (find_connection e n.connections)) [
    | inr (c, known) ↦ rw (known, Keeps) (refused-Keeps DataPacketType.already_connected)
    | inl unknown ↦ rw (unknown, Keeps) (read unknown (read_string buff_recv_size payload))
  ]
    where
      checked :
          (right : Bool) (read_bytes : ℕ)
          → find_connection e n.connections ≡ none
          → Keeps n (
              if right
              then admit e read_bytes payload n
              else handle_invalid_connect_attempt DataPacketType.incorrect_password e n)
      checked true read_bytes f = admit-Keeps read_bytes payload f
      checked false read_bytes f = refused-Keeps DataPacketType.incorrect_password

      read :
          find_connection e n.connections ≡ none
          → (r : Option (Text × ℕ))
          → Keeps n (elim r [
            | none ↦ some (n, failed)
            | some (pw, read_bytes) ↦
                if same_text n.password pw
                then admit e read_bytes payload n
                else handle_invalid_connect_attempt DataPacketType.incorrect_password e n
          ])
      read f none = unchanged-Keeps n a failed
      read f (some (pw, read_bytes)) = checked (same_text n.password pw) read_bytes f

  recv_disconnect_packet-Keeps :
      (clock : Clock) (c : Connection) → IsValid c → Keeps n (recv_disconnect_packet clock e c n)
  unfolding recv_disconnect_packet step
  recv_disconnect_packet-Keeps clock c v =
      Keeps-and_then n (after_handler e (on_receive_disconnect clock c) n)
        (if is_connected c.state && n.relay_connect_and_disconnect
          then send_remote_disconnected e 0
          else λ m. some (m, []))
        (after_handler-Keeps n a e c (on_receive_disconnect clock c)
          (step-Fair clock Event.remote_disconnect c v))
        (told_disconnected-Keeps e 0 (is_connected c.state && n.relay_connect_and_disconnect))

  recv_remote_connected-Keeps : (payload : List ℕ) → Keeps n (recv_remote_connected e payload n)
  unfolding recv_remote_connected
  recv_remote_connected-Keeps payload = ground arith

  long_enough :
      (payload : List ℕ) {remote : EndPoint}
      → read_end_point payload ≡ some remote
      → 6 ≤ length payload
  unfolding read_end_point read
  long_enough payload {remote} h = ground arith

  -- The byte of the reason is there unless the payload ends with the endpoint.
  recv_remote_disconnected-Keeps :
      (payload : List ℕ) → length payload ≢ 6 → Keeps n (recv_remote_disconnected e payload n)
  unfolding recv_remote_disconnected
  recv_remote_disconnected-Keeps payload ne = elim (Option-cases (read_end_point payload)) [
    | inl bad ↦ rw (bad, Keeps) (unchanged-Keeps n a failed)
    | inr (remote, good) ↦ elim (Bool-cases (same_end_point e remote)) [
      | inl same ↦ rw (good, same, Keeps) (unchanged-Keeps n a failed)
      | inr other ↦
          let (reason, h) =
            get_elem?-some payload 6 (omega (arith, long_enough payload good, ne)) in
          rw (good, other, h, Keeps)
            (unchanged-Keeps n a (Effect.disconnected false remote reason ∷ []))
    ]
  ]

module _ (n : ConnectionNode) (a : AreConnections n.connections) (e : EndPoint) where
  pub recv_known-Keeps :
      (clock : Clock) (type : DataPacketType) (l : EndPoint) (payload : List ℕ) (c : Connection)
      → IsValid c
      → (type ≡ DataPacketType.remote_disconnected → length payload ≢ 6)
      → Keeps n (recv_known clock type l e payload c n)
  unfolding recv_known step
  recv_known-Keeps clock DataPacketType.connect_request l payload c v w =
      recv_connect_packet-Keeps n a l payload
  recv_known-Keeps clock DataPacketType.connect_accept l payload c v w =
      after_handler-Keeps n a e c (on_receive_connect_accept clock c)
        (step-Fair clock Event.accepted c v)
  recv_known-Keeps clock DataPacketType.disconnect l payload c v w =
      recv_disconnect_packet-Keeps n a e clock c v
  recv_known-Keeps clock DataPacketType.remote_connected l payload c v w =
      recv_remote_connected-Keeps n a e payload
  recv_known-Keeps clock DataPacketType.remote_disconnected l payload c v w =
      recv_remote_disconnected-Keeps n a e payload (w refl)
  recv_known-Keeps clock DataPacketType.keep_alive_request l payload c v w =
      after_handler-Keeps n a e c (some (on_receive_keep_alive_request c))
        (step-Fair clock Event.alive_request c v)
  recv_known-Keeps clock DataPacketType.keep_alive_answer l payload c v w =
      after_handler-Keeps n a e c (some (on_receive_keep_alive_answer clock c))
        (step-Fair clock Event.alive_answer c v)
  recv_known-Keeps clock DataPacketType.incorrect_password l payload c v w =
      after_handler-Keeps n a e c (set_invalid_password c)
        (step-Fair clock Event.refused_password c v)
  recv_known-Keeps clock DataPacketType.max_connections l payload c v w =
      after_handler-Keeps n a e c (set_max_connections_reached c)
        (step-Fair clock Event.refused_full c v)
  recv_known-Keeps clock DataPacketType.already_connected l payload c v w =
      after_handler-Keeps n a e c (set_invalid_connect_packet c)
        (step-Fair clock Event.refused_packet c v)
  recv_known-Keeps clock DataPacketType.invalid_connect l payload c v w = unchanged-Keeps n a []
