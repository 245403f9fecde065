-- ===== src/VariableGroupNode/Receive.antt =====
-- VariableGroupNode::processPacket and its handlers (GameConn/VariableGroupNode.cpp).
use anger.Common.{
  ℕ, zero, suc, ◌+◌, ◌*◌, Bool, true, false, not, ◌&&◌, ◌||◌, List, [], ◌∷◌, ◌++◌, map, Option,
  none, some, length, drop, ltb, if◌then◌else◌,
}
use anger.Packet.{serialization_error}
use anger.Util.{htonl}
use anger.EndPoint.{EndPoint}
use anger.VariableGroup.{read_group}
use anger.VariableGroupNode.State.{
  VariableGroupNode, Effect, Environment, buffer_group, un_buffer_group, find_group, put_group,
  remove_group,
}
use anger.VariableGroupNode.Create.{call_create_variable_group}

-- The data ids of the variable groups, as they are numbered in EDataPacketType.
abbrev pub variable_group_create_id : ℕ
variable_group_create_id = 14

abbrev pub variable_group_destroy_id : ℕ
variable_group_destroy_id = 16

-- recvVariableGroupCreate, with the payload behind the data id. A server of clients sends the event
-- on to all but the owner and keeps it.
unfoldable pub recv_variable_group_create :
    Environment → List ℕ → EndPoint → VariableGroupNode → VariableGroupNode × List Effect
unfolding buffer_group
recv_variable_group_create env payload e n = elim (env.create_events.read_event payload) [
  | none ↦ (n, Effect.critical serialization_error ∷ [])
  | some (name, param_data, id, owner) ↦
      let owner_end_point : EndPoint = elim owner [ none ↦ e | some o ↦ o ] in
      let create = call_create_variable_group env name id param_data (some owner_end_point) none in
      if env.is_authorative && not env.is_p2p
      then elim (env.create_events.forward_event payload owner_end_point) [
        | none ↦ (n, Effect.critical serialization_error ∷ [])
        | some bytes ↦
            let (made, n', es) =
              create (record n { buffered_groups = buffer_group env id bytes n.buffered_groups }) in
            (n', Effect.relay owner_end_point variable_group_create_id bytes ∷ es)
      ]
      else (let (made, n', es) = create n in (n', es))
]

-- The id in a packet, if it has four bytes; BinSerializer::read32 swaps them.
unfoldable pub read_id : List ℕ → Option ℕ
unfolding htonl
read_id (a ∷ b ∷ c ∷ d ∷ bytes) = some (htonl (a + b * 256 + c * 65536 + d * 16777216))
read_id _ = none

-- The group is removed and deleted, and the listeners hear of it, if there is such a group.
unfoldable pub remove_found : EndPoint → ℕ → VariableGroupNode → VariableGroupNode × List Effect
remove_found e id n = elim (find_group id n) [
  | none ↦ (n, [])
  | some g ↦ ((remove_group id n).1, Effect.group_destroyed (some e) id ∷ [])
]

-- A server, or a node that is not peer to peer, sends the news on and calls unBufferGroup, which
-- forgets the event on a server only, or in peer to peer.
unfoldable pub relay_destroy :
    Environment → ℕ → List ℕ → EndPoint → VariableGroupNode → VariableGroupNode × List Effect
relay_destroy env id payload e n =
    if env.is_authorative || not env.is_p2p
    then (
      record n { buffered_groups = un_buffer_group env id n.buffered_groups },
      Effect.relay e variable_group_destroy_id payload ∷ [],
    )
    else (n, [])

-- recvVariableGroupDestroy, with the payload behind the data id.
unfoldable pub recv_variable_group_destroy :
    Environment → List ℕ → EndPoint → VariableGroupNode → VariableGroupNode × List Effect
recv_variable_group_destroy env payload e n = elim (read_id payload) [
  | none ↦ (n, Effect.critical serialization_error ∷ [])
  | some id ↦
      let (n', relayed) = relay_destroy env id payload e n in
      let (n'', told) = remove_found e id n' in (n'', relayed ++ told)
]

-- What is left of a packet: the bytes, or `none` when the pointer is past its end.
abbrev pub Left : Type 0
Left = Option (List ℕ)

-- The pointer goes some bytes on, from bytes that are there.
unfoldable pub skip_from : ℕ → List ℕ → Left
skip_from k bytes = if ltb (length bytes) k then none else some (drop k bytes)

-- deserializeGroup behind the header of a group, which has the id, the bits and how far it is to the
-- next group: `skipped` is what is left from there.
unfoldable pub deserialize_items :
    ℕ → ℕ → List ℕ → Left → VariableGroupNode → ℕ × Bool × Left × VariableGroupNode × List Effect
deserialize_items id bits rest skipped n = elim (find_group id n) [
  | none ↦ (id, true, skipped, n, [])
  | some g ↦
      let (g', left, updates) = read_group bits rest g in
      let read : Bool × Left = elim left [
        | none ↦ (false, skipped)
        | some left' ↦ (true, some left')
      ] in
      if g.broken
      then (id, true, skipped, n, [])
      else (id, read.0, read.1, put_group id g' n, map Effect.post_update updates)
]

-- deserializeGroup: the id of the group, whether it was read, what is left, the node and the
-- callbacks; `none` is a read past the end of the packet.
unfoldable pub deserialize_group :
    List ℕ → VariableGroupNode → Option (ℕ × Bool × Left × VariableGroupNode × List Effect)
unfolding skip_from
deserialize_group (a ∷ b ∷ c ∷ d ∷ x ∷ y ∷ s ∷ t ∷ rest) n =
    let id = a + b * 256 + c * 65536 + d * 16777216 in
    let skipped = skip_from (s + t * 256) (a ∷ b ∷ c ∷ d ∷ x ∷ y ∷ s ∷ t ∷ rest) in
    some (deserialize_items id (x + y * 256) rest skipped n)
deserialize_group _ n = none

-- What the loop of recvVariableGroupUpdate gives.
abbrev pub Updated : Type 0
Updated = Option (Left × VariableGroupNode × List Effect)

add_effects : List Effect → Updated → Updated
add_effects es none = none
add_effects es (some (left, n, fs)) = some (left, n, es ++ fs)

-- The loop over that many groups.
unfoldable pub update_groups : EndPoint → ℕ → Left → VariableGroupNode → Updated
unfolding add_effects
update_groups e zero left n = some (left, n, [])
update_groups e (suc num_groups) none n = none
update_groups e (suc num_groups) (some bytes) n = elim (deserialize_group bytes n) [
  | none ↦ none
  | some (id, was_read, left, n', es) ↦
      let rest = update_groups e num_groups left n' in
      if was_read
      then add_effects (es ++ (Effect.group_updated (some e) id ∷ [])) rest
      else some (left, n', es ++ (Effect.critical serialization_error ∷ []))
]

-- The test at the end: every byte is read.
unfoldable pub check_left : Updated → Option (VariableGroupNode × List Effect)
check_left none = none
check_left (some (some [], n, es)) = some (n, es)
check_left (some (_, n, es)) = some (n, es ++ (Effect.critical serialization_error ∷ []))

-- recvVariableGroupUpdate; a number of groups that is negative as an `i32_t` runs no round.
unfoldable pub recv_variable_group_update :
    List ℕ → EndPoint → VariableGroupNode → Option (VariableGroupNode × List Effect)
unfolding update_groups check_left
recv_variable_group_update (a ∷ b ∷ c ∷ d ∷ bytes) e n =
    let num_groups = a + b * 256 + c * 65536 + d * 16777216 in
    check_left
      (update_groups e (if ltb num_groups 2147483648 then num_groups else 0) (some bytes) n)
recv_variable_group_update _ e n = none
