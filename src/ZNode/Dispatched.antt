-- ===== src/ZNode/Dispatched.antt =====
-- What a node is to do with a packet that a link gives (GameConn/Zerodelay.cpp, ZNode::update), by the
-- type and the data id of the packet, and what the errors of a part do to the core.
use anger.Common.{
  map, ℕ, ◌≡◌, refl, ap, Bool, true, false, not, List, [], ◌∷◌, Option, none, some, if◌then◌else◌,
  leb, ◌==◌, ◌||◌,
}
use anger.Packet.{
  CriticalError, Packet, reliable_ordered, unreliable_sequenced, reliable_newest, HeaderPacketType,
}
use anger.Util.{Text}
use anger.CoreNode.{CoreNode, set_critical_error}
use anger.CoreNode.Errors.{set_all}
use anger.EndPoint.{EndPoint}
use anger.Connection.State.{Clock, Connection}
use anger.ConnectionNode.State.{ConnectionNode, Effect as ConnectionEffect}
use anger.ConnectionNode.Receive.{recv_packet, processed}
use anger.VariableGroupNode.State.{VariableGroupNode, Environment, Effect as GroupEffect}
use anger.VariableGroupNode.Update.{process_event, process_newest}
use anger.ZNode.{
  ZNode, Effect, Program, to_core, environment_of, connections_done, groups_done,
  errors_of_connections, errors_of_groups, set_errors,
}

-- The data ids of the connections, 0 to 10, and of the variable groups.
abbrev pub is_of_connections : ℕ → Bool
is_of_connections id = leb id 10

abbrev pub is_of_groups : ℕ → Bool
is_of_groups id = (id == 12) || ((id == 13) || ((id == 14) || (id == 16)))

abbrev pub has_connection : Option (EndPoint × Connection) → Bool
has_connection none = false
has_connection (some x) = true

-- The critical errors among effects, each with the name that is set with it, and a node on whose core
-- those of its effects are set.
abbrev pub errors_in : Text → List Effect → List (CriticalError × Text)
errors_in here [] = []
errors_in here (Effect.of_connections (ConnectionEffect.critical error) ∷ es) =
    (error, here) ∷ errors_in here es
errors_in here (Effect.of_groups (GroupEffect.critical error) ∷ es) =
    (error, here) ∷ errors_in here es
errors_in here (x ∷ es) = errors_in here es

abbrev pub with_errors : Program → ZNode × List Effect → ZNode × List Effect
with_errors program (z, es) = (record z { core = set_all (errors_in program.here es) z.core }, es)

module _ (clock : Clock) (env : Environment) (program : Program) (pack : Packet) (id : ℕ)
    (payload : List ℕ) (e : EndPoint) (z : ZNode) where
  -- What one part does with the packet: the connections, if there is no fault, and the groups.
  abbrev pub by_connections : Option (ZNode × List Effect)
  by_connections = elim (recv_packet clock e id payload z.connections) [
    | none ↦ none
    | some (b, connections', es) ↦ some (
        with_errors program (record z { connections = connections' }, map Effect.of_connections es))
  ]

  abbrev pub by_groups : ZNode × List Effect
  by_groups =
      let (b, groups', es) = process_event (environment_of env z) id payload e z.groups in
      with_errors program (record z { groups = groups' }, map Effect.of_groups es)

  -- The part for an unreliable packet, and for a reliable one.
  abbrev pub for_unreliable : ZNode × List Effect
  for_unreliable = if is_of_groups id then by_groups else to_core program pack id payload e z

  abbrev pub for_reliable : Option (ZNode × List Effect)
  for_reliable =
      if not (has_connection (processed z.connections)) || is_of_connections id
      then by_connections
      else some for_unreliable

abbrev pub by_newest : Program → List ℕ → EndPoint → ZNode → Option (ZNode × List Effect)
by_newest program bytes e z = elim (process_newest bytes e z.groups) [
  | none ↦ none
  | some (b, groups', es) ↦
      some (with_errors program (record z { groups = groups' }, map Effect.of_groups es))
]

-- The part that a packet is for.
abbrev pub dispatched :
    Clock
    → Environment
    → Program
    → Packet
    → EndPoint
    → ZNode
    → HeaderPacketType
    → List ℕ
    → Option (ZNode × List Effect)
dispatched clock env program pack e z reliable_ordered (id ∷ payload) =
    for_reliable clock env program pack id payload e z
dispatched clock env program pack e z unreliable_sequenced (id ∷ payload) =
    some (for_unreliable clock env program pack id payload e z)
dispatched clock env program pack e z reliable_newest bytes = by_newest program bytes e z
dispatched clock env program pack e z _ _ = none

set_errors-connections :
    (here : Text) (es : List ConnectionEffect) (core : CoreNode)
    → set_errors here (errors_of_connections es) core
      ≡ set_all (errors_in here (map Effect.of_connections es)) core
unfolding set_errors errors_of_connections set_all
set_errors-connections here [] core = refl
set_errors-connections here (ConnectionEffect.critical error ∷ es) core =
    set_errors-connections here es (set_critical_error error here core)
set_errors-connections here (_ ∷ es) core = set_errors-connections here es core

set_errors-groups :
    (here : Text) (es : List GroupEffect) (core : CoreNode)
    → set_errors here (errors_of_groups es) core
      ≡ set_all (errors_in here (map Effect.of_groups es)) core
unfolding set_errors errors_of_groups set_all
set_errors-groups here [] core = refl
set_errors-groups here (GroupEffect.critical error ∷ es) core =
    set_errors-groups here es (set_critical_error error here core)
set_errors-groups here (_ ∷ es) core = set_errors-groups here es core

pub connections_done-with_errors :
    (program : Program) (n : ConnectionNode) (es : List ConnectionEffect) (z : ZNode)
    → connections_done program n es z
      ≡ with_errors program (record z { connections = n }, map Effect.of_connections es)
unfolding connections_done
connections_done-with_errors program n es z =
    ap (λ c. (record z { connections = n; core = c }, map Effect.of_connections es))
      (set_errors-connections program.here es z.core)

pub groups_done-with_errors :
    (program : Program) (n : VariableGroupNode) (es : List GroupEffect) (z : ZNode)
    → groups_done program n es z
      ≡ with_errors program (record z { groups = n }, map Effect.of_groups es)
unfolding groups_done
groups_done-with_errors program n es z =
    ap (λ c. (record z { groups = n; core = c }, map Effect.of_groups es))
      (set_errors-groups program.here es z.core)
