-- ===== src/ConnectionNode/Relay/Returns.antt =====
-- The messages of a ConnectionNode to its other connections (GameConn/ConnectionNode.cpp) come to
-- an end without a fault, and leave the node as it is.
use anger.Common.{
  ℕ, ◌≡◌, refl, Bool, true, false, List, [], ◌∷◌, ◌++◌, Option, none, some, if◌then◌else◌,
}
use anger.Packet.{serialization_error}
use anger.Util.{Text}
use anger.EndPoint.{EndPoint}
use anger.Connection.State.{DataPacketType}
use anger.ConnectionNode.State.{ConnectionNode, Effect, Outcome, and_then}
use anger.ConnectionNode.Table.{AreConnections, send_to_others_returns}
use anger.ConnectionNode.Relay.{
  send_to_others, send_remote_connected, send_remote_disconnected, told,
}

told-send_to_others :
    (e : EndPoint) (type : DataPacketType) (payload : List ℕ) (n : ConnectionNode)
    → AreConnections n.connections
    → (effects : List Effect) × (told n (send_to_others e type payload n.connections)
        ≡ some (n, effects))
unfolding told
told-send_to_others e type payload n a =
    let (effects, h) = send_to_others_returns e type payload n.connections a in (effects, rw h refl)

pub relayed_returns :
    (e : EndPoint) (reason : ℕ) (relay : Bool) (n : ConnectionNode)
    → AreConnections n.connections
    → (effects : List Effect) × ((if relay then send_remote_disconnected e reason else λ m.
            some (m, []))
          n
        ≡ some (n, effects))
unfolding send_remote_disconnected
relayed_returns e reason false n a = ([], refl)
relayed_returns e reason true n a = told-send_to_others e DataPacketType.remote_disconnected _ n a

pub and_then-some :
    (n : ConnectionNode) (es : List Effect) (f : ConnectionNode → Outcome) {m : ConnectionNode}
    {fs : List Effect}
    → f n ≡ some (m, fs)
    → and_then (some (n, es)) f ≡ some (m, es ++ fs)
and_then-some n es f h = rw (h, and_then) refl

-- A message that is told if its bytes could be written.
abbrev written :
    EndPoint → DataPacketType → (List ℕ → List ℕ) → Option (List ℕ) → ConnectionNode → Outcome
written e type f r n = elim r [
  | none ↦ some (n, Effect.critical serialization_error ∷ [])
  | some bytes ↦ told n (send_to_others e type (f bytes) n.connections)
]

written_returns :
    (e : EndPoint) (type : DataPacketType) (f : List ℕ → List ℕ) (r : Option (List ℕ))
    (n : ConnectionNode)
    → AreConnections n.connections
    → (effects : List Effect) × (written e type f r n ≡ some (n, effects))
written_returns e type f none n a = (Effect.critical serialization_error ∷ [], refl)
written_returns e type f (some bytes) n a = told-send_to_others e type (f bytes) n a

pub relayed_connect_returns :
    (e : EndPoint) (meta_data : List (Text × Text)) (relay : Bool) (n : ConnectionNode)
    → AreConnections n.connections
    → (effects : List Effect) × ((if relay then send_remote_connected e meta_data else λ m.
            some (m, []))
          n
        ≡ some (n, effects))
unfolding send_remote_connected
relayed_connect_returns e meta_data false n a = ([], refl)
relayed_connect_returns e meta_data true n a =
    written_returns e DataPacketType.remote_connected _ _ n a
