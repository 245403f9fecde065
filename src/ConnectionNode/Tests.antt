-- ===== src/ConnectionNode/Tests.antt =====
-- Runs of a ConnectionNode, and its theorems at concrete inputs.
use anger.Common.{◌≡◌, refl, ℕ, true, false, List, [], ◌∷◌, none, some, arith, map, ◌++◌}
use anger.Util.{same_text, Text}
use anger.EndPoint.{EndPoint}
use anger.Connection.State.{
  ConnectionState, DataPacketType, ConnectResult, Action, Clock, new_connection,
}
use anger.ConnectionNode.State.{ConnectionNode, Effect, find_connection}
use anger.ConnectionNode.Session.{perform, process_packets, recv_packets, recv_handled, done}
use anger.ConnectionNode.Receive.{
  recv_packet, processed, recv_connect_packet, admit, add_incoming, after_handler,
  begin_process_packets_for, end_process_packets, handled, meta_data_behind, of_data_id,
  recv_disconnect_packet, recv_known,
}
use anger.Util.{read_string, append_all, append_string2}
use anger.ConnectionNode.State.{erase_connection, put_connection}
use anger.ConnectionNode.Relay.{
  send_remote_connected, send_remote_disconnected, send_to_others, told,
}
use anger.Connection.{ask_alive, update_connecting, update_keep_alive}
use anger.ConnectionNode.Update.{
  delete_connection, update_connection, update_entries, update_entry, update_keep_alive_of,
}
use anger.ConnectionNode.Session.{Event, run}
use anger.ConnectionNode.Update.{update}
use anger.RecvNode.{RecvNode}
use anger.Connection.{send_connect_request, on_receive_connect_accept, set_invalid_password}
use anger.Connection.Invariant.{is_released}
use anger.ConnectionNode.Invariant.Receive.{incoming}
use anger.ConnectionNode.Handshake.{requested, joined, welcome, handshake, handshake_refused}
use anger.ConnectionNode.Connect.{ConnectCallResult}
use anger.ConnectionNode.Connecting.{connected_by, connect_again}
use anger.ConnectionNode.Table.{AreConnections}
use anger.ConnectionNode.Survivors.{survivors, stepped, update-survivors}
use anger.ConnectionNode.Invariant.{Keeps}
use anger.ConnectionNode.Invariant.Session.{run-Keeps}

abbrev early : Clock
early = record { now = 10; time_since = λ t. 20 }

abbrev client : EndPoint
client = record { host = 16777343; port = 37151 }

abbrev other : EndPoint
other = record { host = 16777343; port = 37407 }

abbrev password : Text
password = 112 ∷ 119 ∷ []

-- A server without connections.
abbrev server : ConnectionNode
server = record {
  connections = [];
  processing = none;
  relay_connect_and_disconnect = true;
  keep_alive_interval_seconds = 8;
  max_incoming_connections = 2;
  password = password;
}

abbrev request : List ℕ
request = 112 ∷ 119 ∷ 0 ∷ 107 ∷ 0 ∷ 118 ∷ 0 ∷ []

-- Two clients join, one of them leaves, and the server is updated.
abbrev session : List (Clock × Event)
session =
    (early, Event.processed client ((0, request) ∷ []))
    ∷ (early, Event.processed other ((0, request) ∷ []))
    ∷ (early, Event.processed client ((2, []) ∷ []))
    ∷ (early, Event.updated false)
    ∷ []

-- One connection is left.
session-run :
    map (λ x. x.0) (elim (run session server) [ none ↦ [] | some (n, effects) ↦ n.connections ])
    ≡ other ∷ []
unfolding run perform process_packets recv_packets recv_handled done recv_packet processed
    find_connection recv_connect_packet read_string same_text admit add_incoming new_connection
    send_remote_connected append_all append_string2 ask_alive update_connecting update_keep_alive
    after_handler begin_process_packets_for end_process_packets handled meta_data_behind of_data_id
    recv_disconnect_packet recv_known send_remote_disconnected send_to_others told erase_connection
    put_connection delete_connection update update_connection update_entries update_entry
    update_keep_alive_of
session-run = refl

run-Keeps_example : Keeps server (run session server)
run-Keeps_example =
    run-Keeps session server ((λ e. cc, tt), ((λ e. cc, tt), ((λ e. cc, tt), (tt, tt)))) tt

-- A server with a client and a connection that has ended.
abbrev busy : ConnectionNode
busy = record server {
  connections =
      (client, incoming server)
      ∷ (
        other,
        record (incoming server) {
          has_link = false;
          disconnect_called = true;
          state = ConnectionState.disconnected;
        },
      )
      ∷ [];
}

busy-AreConnections : AreConnections busy.connections
unfolding find_connection is_released new_connection
busy-AreConnections = (
  record { link_kept = refl; link_gone = λ e. cc },
  refl,
  (record { link_kept = refl; link_gone = λ e. refl }, refl, tt),
)

update-survivors_example :
    (effects : List Effect) × (update early false busy
      ≡ some (record busy { connections = survivors early busy.connections }, effects))
update-survivors_example = update-survivors early busy busy-AreConnections

-- Only the client is left.
survivors-busy : survivors early busy.connections ≡ (client, incoming server) ∷ []
unfolding survivors stepped new_connection update_connecting update_keep_alive ask_alive
survivors-busy = refl

abbrev pairs : List (Text × Text)
pairs = (107 ∷ [], 118 ∷ []) ∷ []

server-idle : (processed server ≡ none) × (find_connection client server.connections ≡ none)
unfolding processed find_connection
server-idle = (refl, refl)

handshake_example :
    (bytes : List ℕ) × (told_others : List Effect) × (send_connect_request early password pairs
        (new_connection true 8 8)
      ≡ (requested early 8 8, true, Action.send_system DataPacketType.connect_request bytes ∷ []))
    × (recv_packet early client 0 bytes server
        ≡ some (true, joined server client pairs, welcome server client pairs ++ told_others))
    × (on_receive_connect_accept early (requested early 8 8)
        ≡ some (
          record (requested early 8 8) {
            state = ConnectionState.connected;
            keep_alive_ts = some 10;
          },
          Action.do_connect_result ConnectResult.succes ∷ [],
        ))
handshake_example =
    handshake early early 8 8 early server client pairs tt (omega arith) (omega arith) (omega arith)
      (omega arith) server-idle.0 server-idle.1 (omega arith)

handshake_refused_example :
    (bytes : List ℕ) × (send_connect_request early (112 ∷ []) pairs (new_connection true 8 8)
      ≡ (requested early 8 8, true, Action.send_system DataPacketType.connect_request bytes ∷ []))
    × (recv_packet early client 0 bytes server
        ≡ some (
          true,
          server,
          Effect.send client DataPacketType.incorrect_password []
              ∷ Effect.mark_pending_delete client
              ∷ Effect.block_sends client
              ∷ [],
        ))
    × (set_invalid_password (requested early 8 8)
        ≡ some (
          record (requested early 8 8) { state = ConnectionState.invalid_password },
          Action.do_connect_result ConnectResult.password_refused ∷ [],
        ))
handshake_refused_example =
    handshake_refused early 8 8 early server client (112 ∷ []) pairs (omega arith) (λ e. cc)
      (omega arith) server-idle.0 server-idle.1

-- No link is there at first.
abbrev no_links : RecvNode
no_links = record { objects = []; open_links_map = []; open_links_list = []; list_pinned = 0 }

connect_again_example :
    let after = connected_by early client password 8 true pairs 1000 0 0 71 server no_links in
    connected_by early client password 8 true pairs 1000 0 0 71 after.node after.links ≡ record {
      result = ConnectCallResult.already_exists;
      node = after.node;
      links = after.links;
      effects = [];
    }
connect_again_example = connect_again early client password 8 true pairs 1000 0 0 71 server no_links
