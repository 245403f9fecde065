-- ===== src/ConnectionNode/Relay.antt =====
-- What a ConnectionNode tells the other connections: sendRemoteConnected and sendRemoteDisconnected
-- (GameConn/ConnectionNode.cpp).
pub mod Returns
use anger.Common.{
  ℕ, ◌-◌, Bool, true, false, List, [], ◌∷◌, ◌++◌, Option, none, some, length, if◌then◌else◌,
}
use anger.Packet.{serialization_error}
use anger.Link.State.{buff_size}
use anger.Util.{Text, append_all}
use anger.Util.Strings.{flat}
use anger.EndPoint.{EndPoint, write}
use anger.RecvNode.{same_end_point}
use anger.Connection.State.{Connection, DataPacketType}
use anger.Connection.{is_connected}
use anger.ConnectionNode.State.{ConnectionNode, Effect, Outcome}

add_effect : Effect → Option (List Effect) → Option (List Effect)
add_effect x none = none
add_effect x (some xs) = some (x ∷ xs)

-- forConnections with an endpoint to exclude, and a message to each that is connected. `getLink()`
-- is used unchecked.
unfoldable pub send_to_others :
    EndPoint → DataPacketType → List ℕ → List (EndPoint × Connection) → Option (List Effect)
unfolding same_end_point is_connected add_effect
send_to_others e type payload [] = some []
send_to_others e type payload ((k, c) ∷ m) =
    let rest = send_to_others e type payload m in
    if same_end_point k e
    then rest
    else if is_connected c.state
    then (if c.has_link then add_effect (Effect.send k type payload) rest else none)
    else rest

-- What was told, for a node that does not change.
unfoldable pub told : ConnectionNode → Option (List Effect) → Outcome
told n none = none
told n (some effects) = some (n, effects)

-- sendRemoteConnected, for a node that relays.
unfoldable pub send_remote_connected : EndPoint → List (Text × Text) → ConnectionNode → Outcome
unfolding write
send_remote_connected e meta_data n = elim (write e buff_size) [
  | none ↦ some (n, Effect.critical serialization_error ∷ [])
  | some address ↦ elim (append_all (buff_size - length address) (flat meta_data)) [
    | none ↦ some (n, Effect.critical serialization_error ∷ [])
    | some pairs ↦
        told n (send_to_others e DataPacketType.remote_connected (address ++ pairs) n.connections)
  ]
]

-- sendRemoteDisconnected, for a node that relays; the reason is one byte.
unfoldable pub send_remote_disconnected : EndPoint → ℕ → ConnectionNode → Outcome
unfolding write
send_remote_disconnected e reason n = elim (write e 128) [
  | none ↦ some (n, Effect.critical serialization_error ∷ [])
  | some address ↦
      told n (
        send_to_others e DataPacketType.remote_disconnected (address ++ (reason ∷ []))
          n.connections)
]
