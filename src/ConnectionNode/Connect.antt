-- ===== src/ConnectionNode/Connect.antt =====
-- ConnectionNode::connect, disconnect, and what the user asks of the map
-- (GameConn/ConnectionNode.cpp).
use anger.Common.{ℕ, ◌+◌, Bool, true, false, List, [], ◌∷◌, ◌++◌, none, some, if◌then◌else◌}
use anger.Util.{Text}
use anger.EndPoint.{EndPoint}
use anger.RecvNode.{RecvNode, add_link}
use anger.Connection.State.{Connection, ConnectionState, DisconnectReason, Clock, new_connection}
use anger.Connection.{is_connected, disconnect, clean_link, send_connect_request}
use anger.ConnectionNode.State.{
  ConnectionNode, Effect, find_connection, put_connection, erase_connection, actions_of,
}

-- EConnectCallResult
pub data ConnectCallResult : Type 0 where
  succes cannot_resolve_host already_exists too_much_additional_data socket_error :
      ConnectCallResult

-- EDisconnectCallResult
pub data DisconnectCallResult : Type 0 where
  succes not_connected unknown_endpoint : DisconnectCallResult

-- What connect leaves behind.
pub record Connecting : Type 0 where
  pub result : ConnectCallResult
  pub node : ConnectionNode
  pub links : RecvNode
  pub effects : List Effect

-- A connection is made on a new link; the request is sent if asked for.
unfoldable pub open_connection :
    Clock → EndPoint → Text → ℕ → Bool → List (Text × Text) → ConnectionNode → RecvNode → Connecting
unfolding send_connect_request actions_of
open_connection clock e pw timeout_seconds send_request meta_data n links =
    let c = new_connection true timeout_seconds n.keep_alive_interval_seconds in
    let (c', fits, actions) = send_connect_request clock pw meta_data c in
    if send_request
    then record {
      result =
          if fits then ConnectCallResult.succes else ConnectCallResult.too_much_additional_data;
      node = record n { connections = n.connections ++ ((e, c') ∷ []) };
      links = links;
      effects = actions_of e actions;
    }
    else record {
      result = ConnectCallResult.succes;
      node = record n { connections = n.connections ++ ((e, c) ∷ []) };
      links = links;
      effects = [];
    }

-- connect, for an endpoint that is resolved. `socket_open` is the result of openSocketOnPort; the
-- link gets an id that is drawn, at an address that is given.
unfoldable pub connect :
    Clock
    → Bool
    → ℕ
    → ℕ
    → ℕ
    → ℕ
    → EndPoint
    → Text
    → ℕ
    → Bool
    → List (Text × Text)
    → ConnectionNode
    → RecvNode
    → Connecting
unfolding open_connection
connect clock socket_open address stale_seq stale_pinned drawn e pw timeout_seconds send_request
      meta_data n links =
    if socket_open
    then elim (find_connection e n.connections) [
      | some c ↦ record {
        result = ConnectCallResult.already_exists;
        node = n;
        links = links;
        effects = [];
      }
      | none ↦ elim (add_link address stale_seq stale_pinned e drawn links) [
        | none ↦ record {
          result = ConnectCallResult.already_exists;
          node = n;
          links = links;
          effects = [];
        }
        | some (p, links') ↦
            open_connection clock e pw timeout_seconds send_request meta_data n links'
      ]
    ]
    else record { result = ConnectCallResult.socket_error; node = n; links = links; effects = [] }

-- disconnect, for one endpoint
unfoldable pub disconnect_from :
    Clock
    → EndPoint
    → DisconnectReason
    → ConnectionState
    → Bool
    → Bool
    → ConnectionNode
    → DisconnectCallResult × ConnectionNode × List Effect
unfolding disconnect clean_link actions_of
disconnect_from clock e reason new_state send_msg delete_and_remove n =
    elim (find_connection e n.connections) [
      | none ↦ (DisconnectCallResult.unknown_endpoint, n, [])
      | some c ↦
          let (c', actions) = disconnect clock true reason new_state send_msg c in
          let result =
            if is_connected c.state
            then DisconnectCallResult.succes
            else DisconnectCallResult.not_connected in
          if delete_and_remove
          then (
            result,
            record n { connections = erase_connection e n.connections },
            actions_of e (actions ++ (clean_link c').1),
          )
          else (
            result,
            record n { connections = put_connection e c' n.connections },
            actions_of e actions,
          )
    ]

-- What the destructors send and release when all connections are closed.
unfoldable pub close_all : Clock → List (EndPoint × Connection) → List Effect
unfolding disconnect clean_link actions_of
close_all clock [] = []
close_all clock ((e, c) ∷ m) =
    let (c', actions) =
      disconnect clock true DisconnectReason.closed ConnectionState.disconnected true c in
    actions_of e (actions ++ (clean_link c').1) ++ close_all clock m

-- disconnect, from all endpoints
unfoldable pub disconnect_all : Clock → ConnectionNode → ConnectionNode × List Effect
unfolding close_all
disconnect_all clock n =
    (record n { connections = []; processing = none }, close_all clock n.connections)

-- getNumOpenConnections
unfoldable pub get_num_open_connections : List (EndPoint × Connection) → ℕ
unfolding is_connected
get_num_open_connections [] = 0
get_num_open_connections ((e, c) ∷ m) =
    (if is_connected c.state then 1 else 0) + get_num_open_connections m

-- getConnectionListCopy
unfoldable pub get_connection_list_copy : List (EndPoint × Connection) → List EndPoint
unfolding is_connected
get_connection_list_copy [] = []
get_connection_list_copy ((e, c) ∷ m) =
    let rest = get_connection_list_copy m in if is_connected c.state then e ∷ rest else rest

-- isInConnectionList
unfoldable pub is_in_connection_list : EndPoint → ConnectionNode → Bool
is_in_connection_list e n = elim (find_connection e n.connections) [ none ↦ false | some c ↦ true ]

-- setPassword, setMaxIncomingConnections and setRelayConnectAndDisconnectEvents
unfoldable pub set_password : Text → ConnectionNode → ConnectionNode
set_password pw n = record n { password = pw }

unfoldable pub set_max_incoming_connections : ℕ → ConnectionNode → ConnectionNode
set_max_incoming_connections most n = record n { max_incoming_connections = most }

unfoldable pub set_relay_connect_and_disconnect_events : Bool → ConnectionNode → ConnectionNode
set_relay_connect_and_disconnect_events relay n = record n { relay_connect_and_disconnect = relay }
