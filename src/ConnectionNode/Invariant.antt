-- ===== src/ConnectionNode/Invariant.antt =====
-- Every operation of a ConnectionNode (GameConn/ConnectionNode.cpp) keeps its map of connections,
-- and uses no link that is null.
pub mod Receive
pub mod Update
pub mod Session
use anger.Common.{
  ℕ, ◌+◌, ◌≤◌, ◌≡◌, ◌≢◌, refl, Bool, true, false, List, [], ◌∷◌, ◌++◌, map, Option, none, some,
  arith, length, if◌then◌else◌, Option-cases, Bool-cases, inl, inr, ◌==◌, ltb, leb, ◌&&◌, ◌||◌, not,
}
use Prim.Native.Nat.{max}
use anger.Util.{Text}
use anger.EndPoint.{EndPoint}
use anger.Connection.State.{Connection, DataPacketType, Clock, Action}
use anger.Connection.{
  Event, step, is_connected, is_connecting, update_connecting, update_keep_alive,
}
use anger.Connection.Invariant.{
  IsValid, Fair, Returns, is_released, update_connecting-Fair, update_keep_alive-Fair, step-Fair,
}
use anger.ConnectionNode.State.{
  ConnectionNode, Effect, Outcome, and_then, find_connection, put_connection,
}
use anger.ConnectionNode.Table.{
  AreConnections, found-IsValid, put_connection-AreConnections, snoc-AreConnections,
  erase_connection-AreConnections, length-put_connection, length-erase_connection,
  send_to_others_returns,
}
use anger.ConnectionNode.Relay.{
  send_remote_connected, send_remote_disconnected, send_to_others, told,
}
use anger.Packet.{serialization_error}
use anger.ConnectionNode.Receive.{after_handler, add_incoming, admit, recv_connect_packet}

-- No fault; the map is kept, and it grows over the number of incoming connections only if it was
-- larger before.
abbrev pub Keeps : ConnectionNode → Outcome → Type 0
Keeps n none = ⊥
Keeps n (some (n', effects)) =
    AreConnections n'.connections
    × (n'.max_incoming_connections ≡ n.max_incoming_connections)
    × (length n'.connections ≤ max (length n.connections) n.max_incoming_connections)

pub Keeps-and_then :
    (n : ConnectionNode) (r : Outcome) (f : ConnectionNode → Outcome)
    → Keeps n r
    → ((n' : ConnectionNode) → AreConnections n'.connections → Keeps n' (f n'))
    → Keeps n (and_then r f)
Keeps-and_then n none f h k = h
Keeps-and_then n (some (n', xs)) f (a, m, l) k = rest (f n') (k n' a)
  where
    rest :
        (r : Outcome)
        → Keeps n' r
        → Keeps n (elim r [ none ↦ none | some (n'', ys) ↦ some (n'', xs ++ ys) ])
    rest none q = q
    rest (some (n'', ys)) (b, m', l') = (b, omega arith, omega arith)

module _ (n : ConnectionNode) (a : AreConnections n.connections) where
  pub unchanged-Keeps : (effects : List Effect) → Keeps n (some (n, effects))
  unchanged-Keeps effects = (a, refl, omega arith)

  told-Keeps :
      (e : EndPoint) (type : DataPacketType) (payload : List ℕ)
      → Keeps n (told n (send_to_others e type payload n.connections))
  told-Keeps e type payload =
      let (effects, h) = send_to_others_returns e type payload n.connections a in
      rw h (unfold told in unchanged-Keeps effects)

  written-Keeps :
      (e : EndPoint) (type : DataPacketType) (f : List ℕ → List ℕ) (r : Option (List ℕ))
      → Keeps n (elim r [
        | none ↦ some (n, Effect.critical serialization_error ∷ [])
        | some bytes ↦ told n (send_to_others e type (f bytes) n.connections)
      ])
  written-Keeps e type f none = unchanged-Keeps (Effect.critical serialization_error ∷ [])
  written-Keeps e type f (some bytes) = told-Keeps e type (f bytes)

  send_remote_connected-Keeps :
      (e : EndPoint) (meta_data : List (Text × Text))
      → Keeps n (send_remote_connected e meta_data n)
  unfolding send_remote_connected
  send_remote_connected-Keeps e meta_data = written-Keeps e DataPacketType.remote_connected _ _

  send_remote_disconnected-Keeps :
      (e : EndPoint) (reason : ℕ) → Keeps n (send_remote_disconnected e reason n)
  unfolding send_remote_disconnected
  send_remote_disconnected-Keeps e reason = told-Keeps e DataPacketType.remote_disconnected _

  after_handler-Keeps :
      (e : EndPoint) (c : Connection) (r : Option (Connection × List Action))
      → Returns c r
      → Keeps n (after_handler e r n)
  unfolding after_handler
  after_handler-Keeps e c none h = h
  after_handler-Keeps e c (some (c', actions)) h = (
    put_connection-AreConnections e c' n.connections h.valid a,
    refl,
    omega (arith, length-put_connection e c' n.connections),
  )

pub told_disconnected-Keeps :
    (e : EndPoint) (reason : ℕ) (relay : Bool) (n : ConnectionNode)
    → AreConnections n.connections
    → Keeps n ((if relay then send_remote_disconnected e reason else λ m. some (m, [])) n)
told_disconnected-Keeps e reason true n a = send_remote_disconnected-Keeps n a e reason
told_disconnected-Keeps e reason false n a = unchanged-Keeps n a []
