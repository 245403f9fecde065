-- ===== src/VariableGroupNode/Update.antt =====
-- VariableGroupNode::update, and what connections that come and go mean to the groups
-- (GameConn/VariableGroupNode.cpp).
use anger.Common.{
  ℕ, Bool, true, false, not, ◌&&◌, List, [], ◌∷◌, ◌++◌, map, Option, none, some, if◌then◌else◌,
  ◌==◌,
}
use anger.Common.OrderedMap.{OrderedMap}
use anger.Common.Memory.{u32_bytes}
use anger.Util.{htonl}
use anger.EndPoint.{EndPoint}
use anger.RecvNode.{same_end_point}
use anger.VariableGroup.{VariableGroup, send_group, is_remote_created}
use anger.VariableGroupNode.State.{
  VariableGroupNode, Effect, Environment, BufferedGroup, un_buffer_group,
}
use anger.VariableGroupNode.Ids.{interval_send_id_request, recv_id_request, recv_id_provide}
use anger.VariableGroupNode.Create.{resolve_pending_groups}
use anger.VariableGroupNode.Receive.{
  recv_variable_group_create, recv_variable_group_destroy, recv_variable_group_update,
}

-- The payload that sendDestroyVariableGroup writes: an id in network byte order.
unfoldable pub id_bytes : ℕ → List ℕ
id_bytes id = u32_bytes (htonl id)

-- What the loop of sendUpdatedVariableGroups makes of one group: the group, or `none` if it is
-- deleted, and the effects.
unfoldable pub send_updated_group : Environment → VariableGroup → Option VariableGroup × List Effect
unfolding id_bytes
send_updated_group env g = elim g.network_id [
  | none ↦ (some g, [])
  | some id ↦
      let (created, g') = is_remote_created env.is_packet_delivered g in
      let (sent, items) = send_group g' in
      if not created
      then (some g', [])
      else if g'.dirty && not g'.broken
      then (
        some sent,
        map (λ x. Effect.send_newest id x.0 x.1) items ++ (Effect.group_updated none id ∷ []),
      )
      else if g'.broken && not g'.destroy_sent
      then (none, Effect.send_destroy (id_bytes id) ∷ Effect.group_destroyed none id ∷ [])
      else (some g', [])
]

-- A group that is deleted is taken from those that are kept for who comes later.
unfoldable pub forget_buffered :
    Environment → Option VariableGroup → VariableGroup → List BufferedGroup → List BufferedGroup
unfolding un_buffer_group
forget_buffered env (some g') g buffered = buffered
forget_buffered env none g buffered = elim g.network_id [
  | none ↦ buffered
  | some id ↦ un_buffer_group env id buffered
]

-- The loop of sendUpdatedVariableGroups: the groups and the events that are left.
unfoldable pub send_updated_groups :
    Environment
    → OrderedMap VariableGroup
    → List BufferedGroup
    → OrderedMap VariableGroup × List BufferedGroup × List Effect
send_updated_groups env [] buffered = ([], buffered, [])
send_updated_groups env ((k, g) ∷ m) buffered =
    let (kept, es) = send_updated_group env g in
    let (m', buffered', fs) = send_updated_groups env m (forget_buffered env kept g buffered) in
    elim kept [ none ↦ (m', buffered', es ++ fs) | some g' ↦ ((k, g') ∷ m', buffered', es ++ fs) ]

-- sendUpdatedVariableGroups
unfoldable pub send_updated_variable_groups :
    Environment → VariableGroupNode → VariableGroupNode × List Effect
send_updated_variable_groups env n =
    let (groups, buffered, es) = send_updated_groups env n.variable_groups n.buffered_groups in
    (record n { variable_groups = groups; buffered_groups = buffered }, es)

-- update, with `CoreNode::hasCriticalErrors`
unfoldable pub update :
    Environment → ℕ → (ℕ → Bool) → Bool → VariableGroupNode → VariableGroupNode × List Effect
unfolding interval_send_id_request
update env now half_second has_critical_errors n =
    let (n₁, es) = interval_send_id_request now half_second env.num_open_connections n in
    let (n₂, fs) = resolve_pending_groups env n₁ in
    let (n₃, gs) = send_updated_variable_groups env n₂ in
    if has_critical_errors then (n, []) else (n₃, es ++ (fs ++ gs))

-- `m_RemoteVariableGroups.find(etp)`
unfoldable pub groups_of :
    EndPoint → List (EndPoint × OrderedMap VariableGroup) → Option (OrderedMap VariableGroup)
unfolding same_end_point
groups_of e [] = none
groups_of e ((k, groups) ∷ m) = if same_end_point e k then some groups else groups_of e m

-- `m_RemoteVariableGroups.erase(it)`
unfoldable pub erase_groups_of :
    EndPoint
    → List (EndPoint × OrderedMap VariableGroup)
    → List (EndPoint × OrderedMap VariableGroup)
unfolding same_end_point
erase_groups_of e [] = []
erase_groups_of e ((k, groups) ∷ m) =
    if same_end_point e k then m else (k, groups) ∷ erase_groups_of e m

-- sendAllVariableCreateEventsTo
unfoldable pub send_all_variable_create_events_to : EndPoint → List BufferedGroup → List Effect
send_all_variable_create_events_to e buffered = map (λ x. Effect.send_create (some e) x.1) buffered

-- onNewConnection. An endpoint that is known is an assertion of the source in a debug build, and only
-- logged in others. The library itself does not register the node as a listener of connections.
unfoldable pub on_new_connection :
    Bool → EndPoint → VariableGroupNode → VariableGroupNode × List Effect
unfolding send_all_variable_create_events_to
on_new_connection direct_link e n = elim (groups_of e n.remote_variable_groups) [
  | some groups ↦ (n, [])
  | none ↦ (
    record n { remote_variable_groups = n.remote_variable_groups ++ ((e, []) ∷ []) },
    (if direct_link then send_all_variable_create_events_to e n.buffered_groups else []),
  )
]

-- The loop of onDisconnect over the groups of the endpoint.
unfoldable pub un_buffer_all :
    Environment → OrderedMap VariableGroup → List BufferedGroup → List BufferedGroup
unfolding un_buffer_group
un_buffer_all env [] buffered = buffered
un_buffer_all env ((k, g) ∷ m) buffered = elim g.network_id [
  | none ↦ un_buffer_all env m buffered
  | some id ↦ un_buffer_all env m (un_buffer_group env id buffered)
]

-- onDisconnect
unfoldable pub on_disconnect : Environment → Bool → EndPoint → VariableGroupNode → VariableGroupNode
unfolding un_buffer_all erase_groups_of
on_disconnect env direct_link e n =
    if direct_link then n else elim (groups_of e n.remote_variable_groups) [
      | none ↦ n
      | some groups ↦ record n {
        remote_variable_groups = erase_groups_of e n.remote_variable_groups;
        buffered_groups = un_buffer_all env groups n.buffered_groups;
      }
    ]

-- reset: whether the node provides ids is left as it is.
unfoldable pub reset : VariableGroupNode → VariableGroupNode
reset n = record n {
  unique_ids = [];
  pending_groups = [];
  buffered_groups = [];
  variable_groups = [];
  remote_variable_groups = [];
  last_id_pack_request_ts = 0;
  unique_id_counter = 0;
}

-- setIsNetworkIdProvider
unfoldable pub set_is_network_id_provider : Bool → VariableGroupNode → VariableGroupNode
set_is_network_id_provider is_provider n = record n { is_network_id_provider = is_provider }

-- The result of processPacket: whether the packet was handled, the node and the effects; `none` is a
-- read past the end of the packet.
abbrev pub Processed : Type 0
Processed = Option (Bool × VariableGroupNode × List Effect)

unfoldable pub was_handled :
    VariableGroupNode × List Effect → Bool × VariableGroupNode × List Effect
was_handled (n, es) = (true, n, es)

-- processPacket, with a reliable ordered or an unreliable sequenced packet: its data id and what is
-- behind it.
unfoldable pub process_event :
    Environment → ℕ → List ℕ → EndPoint → VariableGroupNode → Bool × VariableGroupNode × List Effect
unfolding recv_id_request recv_id_provide was_handled
process_event env id payload e n =
    if id == 12
    then was_handled (recv_id_request e n)
    else if id == 13
    then (true, recv_id_provide payload n, [])
    else if id == 14
    then was_handled (recv_variable_group_create env payload e n)
    else if id == 16
    then was_handled (recv_variable_group_destroy env payload e n)
    else (false, n, [])

-- processPacket with a reliable newest packet
unfoldable pub process_newest : List ℕ → EndPoint → VariableGroupNode → Processed
process_newest bytes e n = elim (recv_variable_group_update bytes e n) [
  | none ↦ none
  | some (n', es) ↦ some (true, n', es)
]
