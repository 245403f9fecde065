-- ===== src/ZNode.antt =====
-- ZNode (GameConn/Zerodelay.cpp): its parts together, and how a packet that a link gives finds the part
-- that handles it.
pub mod Dispatched
pub mod Routing
mod Tests
use anger.Common.{ℕ, Bool, true, false, List, [], ◌∷◌, ◌++◌, map, Option, none, some, if◌then◌else◌}
use anger.Packet.{CriticalError, Packet, reliable_ordered, unreliable_sequenced, reliable_newest}
use anger.Util.{Text}
use anger.EndPoint.{EndPoint}
use anger.Connection.State.{Clock}
use anger.CoreNode.{
  CoreNode, Effect as CoreEffect, process_unhandled_packet, is_authorative, set_critical_error,
}
use anger.ConnectionNode.State.{ConnectionNode, Effect as ConnectionEffect}
use anger.ConnectionNode.Receive.{recv_packet}
use anger.VariableGroupNode.State.{VariableGroupNode, Environment, Effect as GroupEffect}
use anger.VariableGroupNode.Update.{process_event, process_newest}

pub record ZNode : Type 0 where
  pub core : CoreNode
  pub connections : ConnectionNode
  pub groups : VariableGroupNode

-- What a part does beside changing itself. A critical error is set on the core as well.
pub data Effect : Type 0 where
  of_connections : ConnectionEffect → Effect
  of_groups : GroupEffect → Effect
  of_core : CoreEffect → Effect

-- What the variable groups take from the rest of the node.
unfoldable pub environment_of : Environment → ZNode → Environment
environment_of env z = record env { is_authorative = is_authorative z.core; is_p2p = z.core.is_p2p }

-- The functions of the user, and the name of a function and its line, for an error that is set. It is
-- taken to be the same for all errors of a packet.
pub record Program : Type 0 where
  pub find_function : Text → Bool
  pub here : Text

-- The errors that a part sets on the core.
unfoldable pub errors_of_connections : List ConnectionEffect → List CriticalError
errors_of_connections [] = []
errors_of_connections (ConnectionEffect.critical error ∷ es) = error ∷ errors_of_connections es
errors_of_connections (_ ∷ es) = errors_of_connections es

unfoldable pub errors_of_groups : List GroupEffect → List CriticalError
errors_of_groups [] = []
errors_of_groups (GroupEffect.critical error ∷ es) = error ∷ errors_of_groups es
errors_of_groups (_ ∷ es) = errors_of_groups es

unfoldable pub set_errors : Text → List CriticalError → CoreNode → CoreNode
unfolding set_critical_error
set_errors here [] core = core
set_errors here (error ∷ errors) core = set_errors here errors (set_critical_error error here core)

-- The connections, and the groups, after a packet.
unfoldable pub connections_done :
    Program → ConnectionNode → List ConnectionEffect → ZNode → ZNode × List Effect
unfolding errors_of_connections set_errors
connections_done program connections' es z = (
  record z {
    connections = connections';
    core = set_errors program.here (errors_of_connections es) z.core;
  },
  map Effect.of_connections es,
)

unfoldable pub groups_done :
    Program → VariableGroupNode → List GroupEffect → ZNode → ZNode × List Effect
unfolding errors_of_groups set_errors
groups_done program groups' es z = (
  record z { groups = groups'; core = set_errors program.here (errors_of_groups es) z.core },
  map Effect.of_groups es,
)

-- The last of the calls in ZNode::update for a packet with this id and what is behind it.
unfoldable pub to_core : Program → Packet → ℕ → List ℕ → EndPoint → ZNode → ZNode × List Effect
unfolding process_unhandled_packet
to_core program pack id payload e z =
    let (core', es) =
      process_unhandled_packet program.find_function program.here pack id payload e z.core in
    (record z { core = core' }, map Effect.of_core es)

-- A part that did not handle a packet, and the next one.
unfoldable pub also : ZNode × List Effect → (ZNode → ZNode × List Effect) → ZNode × List Effect
also (z, es) next = let (z', fs) = next z in (z', es ++ fs)

-- The calls from the second on, for a reliable ordered or an unreliable sequenced packet.
unfoldable pub to_groups :
    Environment → Program → Packet → ℕ → List ℕ → EndPoint → ZNode → ZNode × List Effect
unfolding process_event environment_of groups_done also
to_groups env program pack id payload e z =
    let (was_handled, groups', es) = process_event (environment_of env z) id payload e z.groups in
    if was_handled
    then groups_done program groups' es z
    else also (groups_done program groups' es z) (to_core program pack id payload e)

-- All three, for a reliable ordered packet.
unfoldable pub to_connections :
    Clock
    → Environment
    → Program
    → Packet
    → ℕ
    → List ℕ
    → EndPoint
    → ZNode
    → Option (ZNode × List Effect)
unfolding recv_packet connections_done also
to_connections clock env program pack id payload e z =
    elim (recv_packet clock e id payload z.connections) [
      | none ↦ none
      | some (true, connections', es) ↦ some (connections_done program connections' es z)
      | some (false, connections', es) ↦ some (
          also (connections_done program connections' es z)
            (to_groups env program pack id payload e))
    ]

-- A reliable newest packet, which only the variable groups handle.
unfoldable pub to_newest : Program → List ℕ → EndPoint → ZNode → Option (ZNode × List Effect)
unfolding process_newest groups_done
to_newest program bytes e z = elim (process_newest bytes e z.groups) [
  | none ↦ none
  | some (was_handled, groups', es) ↦ some (groups_done program groups' es z)
]

-- One packet of ZNode::update. A link gives packets of these three types; a packet without data would
-- be read beyond its end.
unfoldable pub route :
    Clock → Environment → Program → Packet → EndPoint → ZNode → Option (ZNode × List Effect)
route clock env program pack e z = elim pack.type [
  | reliable_ordered ↦ elim pack.payload [
    | [] ↦ none
    | id ∷ payload ↦ to_connections clock env program pack id payload e z
  ]
  | unreliable_sequenced ↦ elim pack.payload [
    | [] ↦ none
    | id ∷ payload ↦ some (to_groups env program pack id payload e z)
  ]
  | reliable_newest ↦ to_newest program pack.payload e z
  | _ ↦ none
]
