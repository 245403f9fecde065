-- ===== src/ConnectionNode/State.antt =====
-- The state of a ConnectionNode (GameConn/ConnectionNode.h), its map of connections, and what its
-- operations do to others.
use anger.Common.{ℕ, Bool, List, [], ◌∷◌, ◌++◌, map, Option, none, some, if◌then◌else◌}
use anger.Packet.{CriticalError}
use anger.EndPoint.{EndPoint}
use anger.RecvNode.{same_end_point}
use anger.Util.{Text}
use anger.Connection.State.{Connection, Action, DataPacketType}

-- What is done to the link of an endpoint or told to the listeners: the actions of a Connection, a
-- message of the node itself, the end of a link, and the two callbacks.
pub data Effect : Type 0 where
  on_connection : EndPoint → Action → Effect
  send : EndPoint → DataPacketType → List ℕ → Effect
  mark_pending_delete : EndPoint → Effect
  block_sends : EndPoint → Effect
  new_connection : Bool → EndPoint → List (Text × Text) → Effect
  disconnected : Bool → EndPoint → ℕ → Effect
  critical : CriticalError → Effect

-- `m_Connections` is a list of the connections by endpoint; the order of `std::map`, that of the
-- memory of the endpoints, is left out. `m_ProcessingConnection` is kept as its endpoint.
pub record ConnectionNode : Type 0 where
  pub connections : List (EndPoint × Connection)
  pub processing : Option EndPoint
  pub relay_connect_and_disconnect : Bool
  pub keep_alive_interval_seconds : ℕ
  pub max_incoming_connections : ℕ
  pub password : Text

-- The result of an operation; `none` is a fault, the use of a link that is null or of memory that is
-- not there.
abbrev pub Outcome : Type 0
Outcome = Option (ConnectionNode × List Effect)

abbrev pub and_then : Outcome → (ConnectionNode → Outcome) → Outcome
and_then none f = none
and_then (some (n, es)) f = elim (f n) [ none ↦ none | some (n', fs) ↦ some (n', es ++ fs) ]

-- `m_Connections.find(endPoint)`
unfoldable pub find_connection : EndPoint → List (EndPoint × Connection) → Option Connection
unfolding same_end_point
find_connection e [] = none
find_connection e ((k, c) ∷ m) = if same_end_point e k then some c else find_connection e m

-- A connection of the map is changed in place.
unfoldable pub put_connection :
    EndPoint → Connection → List (EndPoint × Connection) → List (EndPoint × Connection)
unfolding same_end_point
put_connection e c [] = []
put_connection e c ((k, d) ∷ m) =
    if same_end_point e k then (k, c) ∷ m else (k, d) ∷ put_connection e c m

-- `m_Connections.erase(endPoint)`
unfoldable pub erase_connection :
    EndPoint → List (EndPoint × Connection) → List (EndPoint × Connection)
unfolding same_end_point
erase_connection e [] = []
erase_connection e ((k, d) ∷ m) = if same_end_point e k then m else (k, d) ∷ erase_connection e m

-- The actions of the connection to an endpoint.
unfoldable pub actions_of : EndPoint → List Action → List Effect
actions_of e actions = map (on_connection e) actions
