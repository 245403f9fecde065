-- ===== src/VariableGroupNode/Create.antt =====
-- How a VariableGroupNode makes groups (GameConn/VariableGroupNode.cpp): of its own, once there are
-- ids for them, and those that other endpoints tell of.
use anger.Common.{
  leb, ℕ, ◌+◌, Bool, true, false, List, [], ◌∷◌, ◌++◌, Option, none, some, length, drop, ltb,
  if◌then◌else◌,
}
use anger.Common.OrderedMap.{OrderedMap, insert}
use anger.Packet.{serialization_error, cannot_find_external_c_function}
use anger.Util.{Text}
use anger.EndPoint.{EndPoint}
use anger.RecvNode.{same_end_point}
use anger.VariableGroup.{
  VariableGroup, VarControl, NetVariable, AckTicket, new_variable_group, set_network_id, set_owner,
}
use anger.VariableGroupNode.State.{
  VariableGroupNode, Effect, Environment, PendingGroup, buffer_group,
}
use anger.VariableGroupNode.Ids.{take_own_ids}

-- RPC_DATA_MAX
abbrev pub rpc_data_max : ℕ
rpc_data_max = 1900

-- deferredCreateGroup. Data that is longer than the buffer is not copied, but its length is kept:
-- `stale` is then what is in memory at the buffer.
unfoldable pub deferred_create_group : List ℕ → List ℕ → VariableGroupNode → VariableGroupNode
deferred_create_group stale param_data n = record n {
  pending_groups =
      n.pending_groups
      ++ ((if leb (length param_data) rpc_data_max then param_data else stale) ∷ []);
}

-- GroupPendingData::funcName and paramData
unfoldable pub func_name : PendingGroup → Text
func_name [] = []
func_name (x ∷ bytes) = let rest = func_name bytes in if ltb 0 x then x ∷ rest else []

unfoldable pub param_data_of : PendingGroup → List ℕ
unfolding func_name
param_data_of bytes = drop (length (func_name bytes) + 1) bytes

-- The group that beginNewGroup makes; the variables add themselves to it, and the ticket is set
-- later.
unfoldable pub make_group :
    Environment → ℕ → Option EndPoint → List NetVariable → Option AckTicket → VariableGroup
unfolding set_network_id set_owner new_variable_group
make_group env id owner vs ticket =
    let g = set_owner owner (set_network_id id new_variable_group) in
    record g {
      control = elim owner [
        | some e ↦ VarControl.remote
        | none ↦ if env.is_authorative then VarControl.full else VarControl.semi
      ];
      variables = vs;
      remote_created_ticket = ticket;
    }

-- The group of another endpoint is inserted if the endpoint is known, and is discarded if not.
unfoldable pub insert_remote :
    EndPoint
    → ℕ
    → VariableGroup
    → List (EndPoint × OrderedMap VariableGroup)
    → List (EndPoint × OrderedMap VariableGroup)
unfolding same_end_point
insert_remote e id g [] = []
insert_remote e id g ((k, groups) ∷ m) =
    if same_end_point e k then (k, insert id g groups) ∷ m else (k, groups) ∷ insert_remote e id g m

-- beginNewGroup, with the group that it makes.
unfoldable pub begin_new_group :
    ℕ → Option EndPoint → VariableGroup → VariableGroupNode → VariableGroupNode
begin_new_group id (some e) g n = record n {
  remote_variable_groups = insert_remote e id g n.remote_variable_groups;
}
begin_new_group id none g n = record n { variable_groups = insert id g n.variable_groups }

-- callCreateVariableGroup: whether a group was made.
unfoldable pub call_create_variable_group :
    Environment
    → Text
    → ℕ
    → List ℕ
    → Option EndPoint
    → Option AckTicket
    → VariableGroupNode
    → Bool × VariableGroupNode × List Effect
call_create_variable_group env name id param_data owner ticket n =
    elim (env.user_variables name param_data) [
      | none ↦ (false, n, Effect.critical cannot_find_external_c_function ∷ [])
      | some vs ↦ (true, begin_new_group id owner (make_group env id owner vs ticket) n, [])
    ]

-- sendCreateVariableGroup for a group of this node, to all, with the bytes kept for those who come
-- later; and the ticket of the first connection that took the event.
unfoldable pub send_create_variable_group :
    Environment
    → Text
    → List ℕ
    → ℕ
    → VariableGroupNode
    → Option AckTicket × VariableGroupNode × List Effect
unfolding buffer_group
send_create_variable_group env name param_data id n =
    elim (env.create_events.write_event name param_data id none) [
      | none ↦ (none, n, Effect.critical serialization_error ∷ [])
      | some bytes ↦ (
        env.ticket_of id,
        record n { buffered_groups = buffer_group env id bytes n.buffered_groups },
        Effect.send_create none bytes ∷ [],
      )
    ]

-- One round of resolvePendingGroups, for the group and the id in front; whether to go on. The ticket
-- of the group is set at the end of the round; nothing looks at it before.
unfoldable pub resolve_group :
    Environment → ℕ → PendingGroup → VariableGroupNode → Bool × VariableGroupNode × List Effect
unfolding param_data_of func_name
resolve_group env id pending n =
    let (ticket, n', sent) =
      send_create_variable_group env (func_name pending) (param_data_of pending) id n in
    let (made, n'', failed) =
      call_create_variable_group env (func_name pending) id (param_data_of pending) none ticket
        n' in
    if made
    then elim ticket [
      | none ↦ (false, n'', sent ++ (failed ++ (Effect.critical serialization_error ∷ [])))
      | some t ↦ (true, n'', sent ++ failed)
    ]
    else (false, n'', sent ++ failed)

-- The loop of resolvePendingGroups: over the pending groups, as long as there are ids.
unfoldable pub resolve_loop :
    Environment → List PendingGroup → VariableGroupNode → VariableGroupNode × List Effect
resolve_loop env [] n = (n, [])
resolve_loop env (pending ∷ later) n = elim n.unique_ids [
  | [] ↦ (n, [])
  | id ∷ ids ↦
      let (go_on, n', es) =
        resolve_group env id pending (record n { unique_ids = ids; pending_groups = later }) in
      let (n'', fs) = resolve_loop env later n' in if go_on then (n'', es ++ fs) else (n', es)
]

-- resolvePendingGroups
unfoldable pub resolve_pending_groups :
    Environment → VariableGroupNode → VariableGroupNode × List Effect
resolve_pending_groups env n = resolve_loop env n.pending_groups (take_own_ids n)
