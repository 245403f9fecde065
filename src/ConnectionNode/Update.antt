-- ===== src/ConnectionNode/Update.antt =====
-- ConnectionNode::update (GameConn/ConnectionNode.cpp).
use anger.Common.{Bool, List, [], ◌∷◌, map, none, some, ◌||◌, ◌&&◌, not, if◌then◌else◌}
use anger.EndPoint.{EndPoint}
use anger.Connection.State.{Connection, Clock}
use anger.Connection.{is_connected, is_connecting, clean_link, update_connecting, update_keep_alive}
use anger.ConnectionNode.State.{
  ConnectionNode, Outcome, and_then, find_connection, erase_connection, actions_of,
}
use anger.ConnectionNode.Relay.{send_remote_disconnected}
use anger.ConnectionNode.Receive.{after_handler}

-- A connection that is neither connecting nor connected is deleted: its destructor gives up the link.
unfoldable pub delete_connection : EndPoint → Connection → ConnectionNode → Outcome
unfolding clean_link erase_connection actions_of
delete_connection e c n =
    some
      (record n { connections = erase_connection e n.connections }, actions_of e (clean_link c).1)

-- updateKeepAlive; the reason is EDisconnectReason::Lost.
unfoldable pub update_keep_alive_of : Clock → EndPoint → Connection → ConnectionNode → Outcome
unfolding after_handler
update_keep_alive_of clock e c n = elim (update_keep_alive clock c) [
  | none ↦ none
  | some (c', actions) ↦ and_then (after_handler e (some (c', actions)) n) (
      if is_connected c.state && (not (is_connected c'.state) && n.relay_connect_and_disconnect)
      then send_remote_disconnected e 1
      else λ m. some (m, []))
]

-- updateConnecting and then updateKeepAlive, on the connection as it is after the first.
unfoldable pub update_connection : Clock → EndPoint → Connection → ConnectionNode → Outcome
unfolding after_handler
update_connection clock e c n = elim (update_connecting clock c) [
  | none ↦ none
  | some (c', actions) ↦
      and_then (after_handler e (some (c', actions)) n) (update_keep_alive_of clock e c')
]

-- One round of the loop.
unfoldable pub update_entry : Clock → EndPoint → ConnectionNode → Outcome
update_entry clock e n = elim (find_connection e n.connections) [
  | none ↦ some (n, [])
  | some c ↦
      if is_connected c.state || is_connecting c.state
      then update_connection clock e c n
      else delete_connection e c n
]

-- The loop of the iterator over the map, by the endpoints that it stands at in turn; update_entry has
-- the connection that is there then. No connection is added meanwhile, and only the one that the
-- iterator stands at is deleted.
unfoldable pub update_entries : Clock → List EndPoint → ConnectionNode → Outcome
update_entries clock [] n = some (n, [])
update_entries clock (e ∷ es) n = and_then (update_entry clock e n) (update_entries clock es)

-- update, with `CoreNode::hasCriticalErrors`
unfoldable pub update : Clock → Bool → ConnectionNode → Outcome
update clock has_critical_errors n =
    if has_critical_errors
    then some (n, [])
    else update_entries clock (map (λ x. x.0) n.connections) n
