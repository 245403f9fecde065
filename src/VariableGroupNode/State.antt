-- ===== src/VariableGroupNode/State.antt =====
-- The state of a VariableGroupNode (GameConn/VariableGroupNode.h), what it asks of others, and what
-- it takes from them.
use anger.Common.{
  ℕ, Bool, true, false, ◌||◌, List, [], ◌∷◌, ◌++◌, Option, none, some, ◌==◌, if◌then◌else◌,
}
use anger.Common.OrderedMap.{OrderedMap, find, erase}
use anger.Packet.{CriticalError}
use anger.Util.{Text}
use anger.EndPoint.{EndPoint}
use anger.Link.Newest.{replace_value}
use anger.VariableGroup.{VariableGroup, NetVariable, AckTicket, PostUpdate}

-- sm_AvailableIds
abbrev pub available_ids : ℕ
available_ids = 25

-- GroupPendingData: the name of a function, its terminating zero, and the parameters.
abbrev pub PendingGroup : Type 0
PendingGroup = List ℕ

-- GroupCreateData: the id and the bytes of the event.
abbrev pub BufferedGroup : Type 0
BufferedGroup = ℕ × List ℕ

-- `m_RemoteVariableGroups` is a list by endpoint, in no particular order.
pub record VariableGroupNode : Type 0 where
  pub is_network_id_provider : Bool
  pub unique_ids : List ℕ
  pub pending_groups : List PendingGroup
  pub buffered_groups : List BufferedGroup
  pub variable_groups : OrderedMap VariableGroup
  pub remote_variable_groups : List (EndPoint × OrderedMap VariableGroup)
  pub last_id_pack_request_ts : ℕ
  pub unique_id_counter : ℕ

-- A packet to one endpoint, to all, or to all but one; a value for a reliable newest group; the
-- callbacks of the user; a critical error.
pub data Effect : Type 0 where
  provide_ids : EndPoint → List ℕ → Effect
  request_ids : Effect
  send_create : Option EndPoint → List ℕ → Effect
  send_destroy : List ℕ → Effect
  relay : EndPoint → ℕ → List ℕ → Effect
  send_newest : ℕ → ℕ → List ℕ → Effect
  post_update : PostUpdate → Effect
  group_updated : Option EndPoint → ℕ → Effect
  group_destroyed : Option EndPoint → ℕ → Effect
  critical : CriticalError → Effect

-- The bytes of an event that creates a group, as the calls of the serializer of the node write and
-- read them: function name, parameters, network id and, if it is not the sender, the owner. `none`
-- is the failure of a call. `forward_event` is the event with the owner added for the others.
pub record CreateEvents : Type 0 where
  pub write_event : Text → List ℕ → ℕ → Option EndPoint → Option (List ℕ)
  pub read_event : List ℕ → Option (Text × List ℕ × ℕ × Option EndPoint)
  pub forward_event : List ℕ → EndPoint → Option (List ℕ)

-- The rest of the program: what ZNode and CoreNode say of the node, ZNode::isPacketDelivered, the
-- ticket that a send of an event gives back, if a connection took it, and the variables that the
-- function of the user makes, if there is such a function.
pub record Environment : Type 0 where
  pub is_authorative : Bool
  pub is_p2p : Bool
  pub num_open_connections : ℕ
  pub is_packet_delivered : AckTicket → Bool
  pub ticket_of : ℕ → Option AckTicket
  pub create_events : CreateEvents
  pub user_variables : Text → List ℕ → Option (List NetVariable)

-- bufferGroup
unfoldable pub buffer_group : Environment → ℕ → List ℕ → List BufferedGroup → List BufferedGroup
buffer_group env id bytes buffered =
    if env.is_p2p || env.is_authorative then buffered ++ ((id, bytes) ∷ []) else buffered

-- The loop of unBufferGroup: the first entry with the id is erased.
unfoldable pub erase_buffered : ℕ → List BufferedGroup → List BufferedGroup
erase_buffered id [] = []
erase_buffered id ((j, bytes) ∷ buffered) =
    if j == id then buffered else (j, bytes) ∷ erase_buffered id buffered

-- unBufferGroup
unfoldable pub un_buffer_group : Environment → ℕ → List BufferedGroup → List BufferedGroup
unfolding erase_buffered
un_buffer_group env id buffered =
    if env.is_p2p || env.is_authorative then erase_buffered id buffered else buffered

-- The loop of findGroup over the groups of the other endpoints.
unfoldable pub find_remote : ℕ → List (EndPoint × OrderedMap VariableGroup) → Option VariableGroup
unfolding find
find_remote id [] = none
find_remote id ((e, groups) ∷ m) = elim (find id groups) [
  | none ↦ find_remote id m
  | some g ↦ some g
]

-- findGroup
unfoldable pub find_group : ℕ → VariableGroupNode → Option VariableGroup
unfolding find
find_group id n = elim (find_remote id n.remote_variable_groups) [
  | none ↦ find id n.variable_groups
  | some g ↦ some g
]

-- The group that findGroup finds is changed in place.
unfoldable pub put_remote :
    ℕ
    → VariableGroup
    → List (EndPoint × OrderedMap VariableGroup)
    → List (EndPoint × OrderedMap VariableGroup)
unfolding find replace_value
put_remote id g [] = []
put_remote id g ((e, groups) ∷ m) = elim (find id groups) [
  | none ↦ (e, groups) ∷ put_remote id g m
  | some old ↦ (e, replace_value id g groups) ∷ m
]

unfoldable pub put_group : ℕ → VariableGroup → VariableGroupNode → VariableGroupNode
unfolding replace_value
put_group id g n = elim (find_remote id n.remote_variable_groups) [
  | none ↦ record n { variable_groups = replace_value id g n.variable_groups }
  | some old ↦ record n { remote_variable_groups = put_remote id g n.remote_variable_groups }
]

-- The loop of removeGroup over the groups of the other endpoints.
unfoldable pub remove_remote :
    ℕ → List (EndPoint × OrderedMap VariableGroup) → List (EndPoint × OrderedMap VariableGroup)
unfolding find erase
remove_remote id [] = []
remove_remote id ((e, groups) ∷ m) = elim (find id groups) [
  | none ↦ (e, groups) ∷ remove_remote id m
  | some g ↦ (e, erase id groups) ∷ m
]

-- removeGroup; whether a group was removed.
unfoldable pub remove_group : ℕ → VariableGroupNode → Bool × VariableGroupNode
unfolding find erase
remove_group id n = elim (find_remote id n.remote_variable_groups) [
  | some g ↦ (true, record n { remote_variable_groups = remove_remote id n.remote_variable_groups })
  | none ↦ elim (find id n.variable_groups) [
    | some g ↦ (true, record n { variable_groups = erase id n.variable_groups })
    | none ↦ (false, n)
  ]
]
