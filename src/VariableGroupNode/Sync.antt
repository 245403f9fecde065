-- ===== src/VariableGroupNode/Sync.antt =====
-- A variable group over the network: what RUDPLink::dispatchReliableNewestQueue
-- (GameConn/RUDPLink.cpp) writes, and what VariableGroupNode::recvVariableGroupUpdate
-- (GameConn/VariableGroupNode.cpp) makes of it.
pub mod Variables
pub mod SentItems
pub mod SentGroups
use anger.Common.{
  ℕ, zero, suc, ◌+◌, ◌*◌, ◌/◌, ◌%◌, ◌≡◌, ◌≢◌, ◌<◌, ◌≤◌, refl, ap, Bool, true, false, not, List, [],
  ◌∷◌, ◌++◌, Option, none, some, arith, length, take, drop, length-take, length-append, drop-append,
  map, ltb, leb, if◌then◌else◌, Bool-cases, Option-cases, inl, inr, ◌==◌, sym, ◌∙◌, ◌&&◌,
}
use mathlib.Core.List.{append_assoc, append-nil}
use anger.Common.Memory.{u32_bytes, u32_of_bytes, byte0, byte1, byte2, byte3}
use anger.Common.OrderedMap.{OrderedMap}
use anger.EndPoint.{EndPoint}
use anger.Util.{same_text}
use anger.Sequence.{is_sequence_newer}
use anger.Link.State.{ReliableNewestItem, ReliableNewestDataGroup, buff_size, max_items_per_group}
use anger.Link.Dispatch.{Items, write_items, add_item, write_groups, add_group, group_bytes, Groups}
use anger.VariableGroup.{
  NetVariable, VariableGroup, PostUpdate, read_variable, read_variables, read_group,
}
use anger.VariableGroupNode.State.{VariableGroupNode, Effect, find_group, put_group}
use anger.VariableGroupNode.Receive.{
  Left, deserialize_items, deserialize_group, update_groups, check_left, recv_variable_group_update,
}
use anger.VariableGroupNode.Sync.Variables.{
  AreMatched, is_sent, sent_bytes, took, received, take-append-length, drop-append-length,
  take-append-exact, read_variable-exact, read_variable-sent, even, odd, half_even, half_odd,
  read_variables-skip, read_variables-take, read_variables-none, received_nil, sent_bytes_nil,
}
use anger.VariableGroupNode.Sync.SentItems.{two_to, WellRead, write_items-WellRead}
use anger.VariableGroupNode.Sync.SentGroups.{deserialize_group-received, write_groups-one}

-- One group that is read whole.
recv_variable_group_update-one :
    (bytes : List ℕ) (e : EndPoint) (id : ℕ) (n n' : VariableGroupNode) (updates : List Effect)
    → deserialize_group bytes n ≡ some (id, true, some [], n', updates)
    → recv_variable_group_update (u32_bytes 1 ++ bytes) e n
      ≡ some (n', updates ++ (Effect.group_updated (some e) id ∷ []))
unfolding recv_variable_group_update update_groups check_left
recv_variable_group_update-one bytes e id n n' updates q =
    rw (q, recv_variable_group_update, update_groups)
      (ap (λ xs. some (n', xs)) (append-nil (updates ++ (Effect.group_updated (some e) id ∷ []))))

-- What dispatchReliableNewestQueue writes for one group of sixteen items with a 32-bit id is read
-- back whole on a node that has the group, not broken and with at most sixteen variables, if each item
-- has the length of the variable it stands for and that many bytes, and the items behind the last
-- variable are empty: a variable whose item is sent, which those never changed or acknowledged are
-- too, takes its bytes, every other variable and everything else of the node stay as they are, the
-- listeners hear of the update, and no critical error is set. An item of another length than its
-- variable, as one that was never set has, is outside of this.
pub sync :
    (id : ℕ) (group : ReliableNewestDataGroup) (payload : List ℕ) (e : EndPoint)
    (n : VariableGroupNode) (g : VariableGroup)
    → write_groups 13 ((id, group) ∷ []) ≡ some (1, payload)
    → length group.group_items ≡ max_items_per_group
    → id < 4294967296
    → find_group id n ≡ some g
    → g.broken ≡ false
    → length g.variables ≤ max_items_per_group
    → AreMatched group.group_items g.variables
    → (updates : List PostUpdate) × (recv_variable_group_update (u32_bytes 1 ++ payload) e n
        ≡ some (
          put_group id (record g { variables = received group.group_items g.variables }) n,
          map Effect.post_update updates ++ (Effect.group_updated (some e) id ∷ []),
        ))
sync id group payload e n g h sixteen small found whole few matched =
    let (b, bytes, any, k, p) = write_groups-one 13 id group h in
    let r = write_items-WellRead 21 1 group.group_items g.variables matched k in
    let (updates, q) =
      deserialize_group-received id group.group_items b bytes [] n g r small (bits_small b r) found
        whole few in
    (
      updates,
      ap (λ xs. recv_variable_group_update (u32_bytes 1 ++ xs) e n) p
          ∙ recv_variable_group_update-one _ e id n _ _ q,
    )
  where
    bits_small :
        (b : ℕ) {bytes : List ℕ} → WellRead 1 group.group_items g.variables b bytes → b < 65536
    bits_small b r = omega (arith, r.bits_of_word, r.small, ap two_to sixteen)
