-- ===== src/ConnectionNode/Invariant/Update.antt =====
-- ConnectionNode::update and disconnect (GameConn/ConnectionNode.cpp) keep the map of connections.
use anger.Common.{
  refl, Bool, true, false, List, [], ◌∷◌, map, Option, none, some, arith, if◌then◌else◌,
  Option-cases, inl, inr, ◌||◌, ◌&&◌, not,
}
use anger.EndPoint.{EndPoint}
use anger.Connection.State.{Connection, Clock, Action, DisconnectReason, ConnectionState}
use anger.Connection.{is_connected, is_connecting, update_connecting, update_keep_alive}
use anger.Connection.Invariant.{IsValid, Returns, update_connecting-Fair, update_keep_alive-Fair}
use anger.ConnectionNode.State.{ConnectionNode, and_then, find_connection}
use anger.ConnectionNode.Table.{
  AreConnections, found-IsValid, erase_connection-AreConnections, length-erase_connection,
}
use anger.ConnectionNode.Relay.{send_remote_disconnected}
use anger.ConnectionNode.Receive.{after_handler}
use anger.ConnectionNode.Update.{
  delete_connection, update_keep_alive_of, update_connection, update_entry, update_entries, update,
}
use anger.ConnectionNode.Connect.{disconnect_from}
use anger.ConnectionNode.Invariant.{
  Keeps, Keeps-and_then, unchanged-Keeps, after_handler-Keeps, told_disconnected-Keeps,
}

module _ (clock : Clock) (e : EndPoint) where
  delete_connection-Keeps :
      (c : Connection) (n : ConnectionNode)
      → AreConnections n.connections
      → Keeps n (delete_connection e c n)
  unfolding delete_connection
  delete_connection-Keeps c n a = (
    erase_connection-AreConnections e n.connections a,
    refl,
    omega (arith, length-erase_connection e n.connections),
  )

  update_keep_alive_of-Keeps :
      (c : Connection) (n : ConnectionNode)
      → IsValid c
      → AreConnections n.connections
      → Keeps n (update_keep_alive_of clock e c n)
  unfolding update_keep_alive_of
  update_keep_alive_of-Keeps c n v a =
      after (update_keep_alive clock c) (update_keep_alive-Fair clock c v)
    where
      after :
          (r : Option (Connection × List Action))
          → Returns c r
          → Keeps n (elim r [
            | none ↦ none
            | some (c', actions) ↦ and_then (after_handler e (some (c', actions)) n) (
                if is_connected c.state
                  && (not (is_connected c'.state) && n.relay_connect_and_disconnect)
                then send_remote_disconnected e 1
                else λ m. some (m, []))
          ])
      after none h = h
      after (some (c', actions)) h =
          Keeps-and_then n (after_handler e (some (c', actions)) n) _
            (after_handler-Keeps n a e c (some (c', actions)) h)
            (told_disconnected-Keeps e 1 (
              is_connected c.state
              && (not (is_connected c'.state) && n.relay_connect_and_disconnect)))

  update_connection-Keeps :
      (c : Connection) (n : ConnectionNode)
      → IsValid c
      → AreConnections n.connections
      → Keeps n (update_connection clock e c n)
  unfolding update_connection
  update_connection-Keeps c n v a =
      after (update_connecting clock c) (update_connecting-Fair clock c v)
    where
      after :
          (r : Option (Connection × List Action))
          → Returns c r
          → Keeps n (elim r [
            | none ↦ none
            | some (c', actions) ↦
                and_then (after_handler e (some (c', actions)) n) (update_keep_alive_of clock e c')
          ])
      after none h = h
      after (some (c', actions)) h =
          Keeps-and_then n (after_handler e (some (c', actions)) n)
            (update_keep_alive_of clock e c') (after_handler-Keeps n a e c (some (c', actions)) h)
            (λ m b. update_keep_alive_of-Keeps c' m h.valid b)

  update_entry-Keeps :
      (n : ConnectionNode) → AreConnections n.connections → Keeps n (update_entry clock e n)
  unfolding update_entry
  update_entry-Keeps n a = elim (Option-cases (find_connection e n.connections)) [
    | inl f ↦ rw (f, Keeps) (unchanged-Keeps n a [])
    | inr (c, f) ↦
        rw (f, Keeps)
          (alive c (is_connected c.state || is_connecting c.state)
            (found-IsValid e n.connections a f))
  ]
    where
      alive :
          (c : Connection) (b : Bool)
          → IsValid c
          → Keeps n (if b then update_connection clock e c n else delete_connection e c n)
      alive c true v = update_connection-Keeps c n v a
      alive c false v = delete_connection-Keeps c n a

  pub disconnect_from-Keeps :
      (n : ConnectionNode)
      → AreConnections n.connections
      → Keeps n (
          let (result, n', effects) =
            disconnect_from clock e DisconnectReason.closed ConnectionState.disconnected true true
              n in
          some (n', effects))
  unfolding disconnect_from
  disconnect_from-Keeps n a = ground (
    arith,
    erase_connection-AreConnections e n.connections a,
    length-erase_connection e n.connections,
    a,
  )

update_entries-Keeps :
    (clock : Clock) (es : List EndPoint) (n : ConnectionNode)
    → AreConnections n.connections
    → Keeps n (update_entries clock es n)
unfolding update_entries
update_entries-Keeps clock [] n a = unchanged-Keeps n a []
update_entries-Keeps clock (e ∷ es) n a =
    Keeps-and_then n (update_entry clock e n) (update_entries clock es)
      (update_entry-Keeps clock e n a) (update_entries-Keeps clock es)

pub update-Keeps :
    (clock : Clock) (has_critical_errors : Bool) (n : ConnectionNode)
    → AreConnections n.connections
    → Keeps n (update clock has_critical_errors n)
unfolding update
update-Keeps clock true n a = unchanged-Keeps n a []
update-Keeps clock false n a = update_entries-Keeps clock (map (λ x. x.0) n.connections) n a
