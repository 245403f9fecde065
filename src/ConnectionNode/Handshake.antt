-- ===== src/ConnectionNode/Handshake.antt =====
-- The handshake between two nodes: the request that Connection::sendConnectRequest writes
-- (GameConn/Connection.cpp), what ConnectionNode::recvConnectPacket makes of it
-- (GameConn/ConnectionNode.cpp), and what the answer does.
use anger.Common.{
  ℕ, ◌+◌, ◌<◌, ◌≤◌, ◌≡◌, ◌≢◌, refl, true, false, List, [], ◌∷◌, ◌++◌, none, some, arith, length,
  if◌then◌else◌, leb, ◌∙◌, length-append,
}
use anger.Util.{same_text, Text}
use anger.Util.Strings.{
  IsText, ArePairs, IsMap, flat, encode, append_all-encode, read_string-text, drop-terminated,
  deserialize_map-encode,
}
use anger.Link.State.{buff_size}
use anger.EndPoint.{EndPoint}
use anger.Connection.State.{
  Connection, ConnectionState, DataPacketType, ConnectResult, Action, Clock, new_connection,
}
use anger.Connection.{
  send_connect_request, send_connect_accept, on_receive_connect_accept, set_invalid_password,
}
use anger.ConnectionNode.State.{ConnectionNode, Effect, find_connection, actions_of}
use anger.ConnectionNode.Table.{AreConnections, snoc-AreConnections}
use anger.ConnectionNode.Relay.{send_remote_connected}
use anger.ConnectionNode.Relay.Returns.{and_then-some, relayed_connect_returns}
use anger.ConnectionNode.Invariant.Receive.{incoming, incoming-IsValid}
use anger.ConnectionNode.Receive.{
  recv_packet, processed, recv_connect_packet, admit, add_incoming, meta_data_behind, handled,
  handle_invalid_connect_attempt,
}

pub same_text_refl : (a : Text) → same_text a a ≡ true
unfolding same_text
same_text_refl [] = refl
same_text_refl (x ∷ a) = ground (arith, same_text_refl a)

same_text_sound : (a b : Text) → same_text a b ≡ true → a ≡ b
unfolding same_text
same_text_sound [] [] h = refl
same_text_sound [] (y ∷ b) h = cc
same_text_sound (x ∷ a) [] h = cc
same_text_sound (x ∷ a) (y ∷ b) h = ground (arith, same_text_sound a b)

-- The connection of a client that has asked.
abbrev pub requested : Clock → ℕ → ℕ → Connection
requested clock timeout_seconds keep_alive_interval_seconds =
    record (new_connection true timeout_seconds keep_alive_interval_seconds) {
      state = ConnectionState.connecting;
      start_connecting_ts = some clock.now;
    }

send_connect_request-encode :
    (clock : Clock) (pw : Text) (meta_data : List (Text × Text)) (timeout_seconds interval : ℕ)
    → length (encode (pw ∷ flat meta_data)) ≤ buff_size
    → send_connect_request clock pw meta_data (new_connection true timeout_seconds interval) ≡ (
      requested clock timeout_seconds interval,
      true,
      Action.send_system DataPacketType.connect_request (encode (pw ∷ flat meta_data)) ∷ [],
    )
unfolding send_connect_request new_connection
send_connect_request-encode clock pw meta_data timeout_seconds interval h =
    rw (append_all-encode buff_size (pw ∷ flat meta_data) h, send_connect_request) refl

meta_data_behind-encode :
    (pw : Text) (meta_data : List (Text × Text))
    → ArePairs meta_data
    → IsMap meta_data
    → meta_data_behind (length pw + 1) (encode (pw ∷ flat meta_data)) ≡ some meta_data
unfolding meta_data_behind
meta_data_behind-encode pw meta_data a o = ground (
  arith,
  length-append pw (0 ∷ encode (flat meta_data)),
  drop-terminated pw (encode (flat meta_data)),
  deserialize_map-encode meta_data a o,
)

module _ (n : ConnectionNode) (e : EndPoint) (meta_data : List (Text × Text)) where
  -- What is done for an endpoint that is let in, before the others are told.
  abbrev pub welcome : List Effect
  welcome =
      Effect.on_connection e (Action.set_link_connected true)
      ∷ Effect.on_connection e (Action.send_system DataPacketType.connect_accept [])
      ∷ Effect.new_connection true e meta_data
      ∷ []

  abbrev pub joined : ConnectionNode
  joined = record n { connections = n.connections ++ ((e, incoming n) ∷ []) }

  password_checked :
      (pw : Text)
      → IsText pw
      → find_connection e n.connections ≡ none
      → n.password ≡ pw
      → recv_connect_packet e (encode (pw ∷ flat meta_data)) n
        ≡ admit e (length pw + 1) (encode (pw ∷ flat meta_data)) n
  unfolding recv_connect_packet
  password_checked pw t f p =
      rw (f, read_string-text pw (encode (flat meta_data)) t, same, recv_connect_packet) refl
    where
      same : same_text n.password pw ≡ true
      same = rw p (same_text_refl pw)

  connect_accepted :
      (pw : Text)
      → IsText pw
      → ArePairs meta_data
      → IsMap meta_data
      → find_connection e n.connections ≡ none
      → n.password ≡ pw
      → length n.connections < n.max_incoming_connections
      → recv_connect_packet e (encode (pw ∷ flat meta_data)) n ≡ add_incoming e meta_data n
  unfolding admit
  connect_accepted pw t a o f p l =
      password_checked pw t f p ∙ rw (room, meta_data_behind-encode pw meta_data a o, admit) refl
    where
      room : leb n.max_incoming_connections (length n.connections) ≡ false
      room = ground arith

  connect_refused :
      (pw : Text)
      → IsText pw
      → find_connection e n.connections ≡ none
      → n.password ≢ pw
      → recv_connect_packet e (encode (pw ∷ flat meta_data)) n
        ≡ handle_invalid_connect_attempt DataPacketType.incorrect_password e n
  unfolding recv_connect_packet
  connect_refused pw t f p =
      rw (f, read_string-text pw (encode (flat meta_data)) t, wrong, recv_connect_packet) refl
    where
      wrong : same_text n.password pw ≡ false
      wrong = ground (arith, same_text_sound n.password pw)

  joined-AreConnections :
      AreConnections n.connections
      → find_connection e n.connections ≡ none
      → AreConnections joined.connections
  joined-AreConnections a f =
      snoc-AreConnections e (incoming n) n.connections (incoming-IsValid n) f a

  add_incoming-joined :
      AreConnections n.connections
      → find_connection e n.connections ≡ none
      → (told_others : List Effect) × (add_incoming e meta_data n
          ≡ some (joined, welcome ++ told_others))
  unfolding add_incoming send_connect_accept new_connection actions_of
  add_incoming-joined a f =
      let relay = n.relay_connect_and_disconnect in
      let (told_others, h) =
        relayed_connect_returns e meta_data relay joined (joined-AreConnections a f) in
      (
        told_others,
        and_then-some joined welcome
            (if relay then send_remote_connected e meta_data else λ m. some (m, [])) h,
      )

-- The request of a client for a connection, with the password of the server and a map of additional
-- data that fit into the send buffer, is sent whole. A server that has no connection to the client,
-- and room for one, lets it in: the connection is added, the client is sent the answer, the listeners
-- hear of exactly the additional data that the client gave, and then the others are told. The answer
-- makes the client connected and reports success.
pub handshake :
    (asked answered : Clock) (timeout_seconds interval : ℕ) (clock : Clock) (n : ConnectionNode)
    (e : EndPoint) (meta_data : List (Text × Text))
    → AreConnections n.connections
    → IsText n.password
    → ArePairs meta_data
    → IsMap meta_data
    → length (encode (n.password ∷ flat meta_data)) ≤ buff_size
    → processed n ≡ none
    → find_connection e n.connections ≡ none
    → length n.connections < n.max_incoming_connections
    → (bytes : List ℕ) × (told_others : List Effect) × (send_connect_request asked n.password
          meta_data
          (new_connection true timeout_seconds interval)
        ≡ (
          requested asked timeout_seconds interval,
          true,
          Action.send_system DataPacketType.connect_request bytes ∷ [],
        ))
      × (recv_packet clock e 0 bytes n
          ≡ some (true, joined n e meta_data, welcome n e meta_data ++ told_others))
      × (on_receive_connect_accept answered (requested asked timeout_seconds interval)
          ≡ some (
            record (requested asked timeout_seconds interval) {
              state = ConnectionState.connected;
              keep_alive_ts = some answered.now;
            },
            Action.do_connect_result ConnectResult.succes ∷ [],
          ))
unfolding recv_packet handled on_receive_connect_accept new_connection
handshake asked answered timeout_seconds interval clock n e meta_data a t pairs keys fit idle f
      room =
    let (told_others, h) = add_incoming-joined n e meta_data a f in
    (
      encode (n.password ∷ flat meta_data),
      told_others,
      send_connect_request-encode asked n.password meta_data timeout_seconds interval fit,
      rw
          (
            idle,
            connect_accepted n e meta_data n.password t pairs keys f refl room,
            h,
            recv_packet,
            handled,
          )
          refl,
      refl,
    )

-- A request with any other password is refused: the server stays as it is, sends the refusal, and
-- gives up the link without sending more; the refusal ends the attempt of the client.
pub handshake_refused :
    (asked : Clock) (timeout_seconds interval : ℕ) (clock : Clock) (n : ConnectionNode)
    (e : EndPoint) (pw : Text) (meta_data : List (Text × Text))
    → IsText pw
    → n.password ≢ pw
    → length (encode (pw ∷ flat meta_data)) ≤ buff_size
    → processed n ≡ none
    → find_connection e n.connections ≡ none
    → (bytes : List ℕ) × (send_connect_request asked pw meta_data
          (new_connection true timeout_seconds interval)
        ≡ (
          requested asked timeout_seconds interval,
          true,
          Action.send_system DataPacketType.connect_request bytes ∷ [],
        ))
      × (recv_packet clock e 0 bytes n
          ≡ some (
            true,
            n,
            Effect.send e DataPacketType.incorrect_password []
                ∷ Effect.mark_pending_delete e
                ∷ Effect.block_sends e
                ∷ [],
          ))
      × (set_invalid_password (requested asked timeout_seconds interval)
          ≡ some (
            record (requested asked timeout_seconds interval) {
              state = ConnectionState.invalid_password;
            },
            Action.do_connect_result ConnectResult.password_refused ∷ [],
          ))
unfolding recv_packet handled set_invalid_password new_connection handle_invalid_connect_attempt
handshake_refused asked timeout_seconds interval clock n e pw meta_data t wrong fit idle f = (
  encode (pw ∷ flat meta_data),
  send_connect_request-encode asked pw meta_data timeout_seconds interval fit,
  rw (idle, connect_refused n e meta_data pw t f wrong, recv_packet, handled) refl,
  refl,
)
