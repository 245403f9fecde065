-- ===== src/VariableGroupNode/Ids.antt =====
-- The network ids: who provides them, who asks for them, and what is made of them
-- (GameConn/VariableGroupNode.cpp).
use anger.Common.{
  ℕ, zero, suc, ◌+◌, ◌*◌, Bool, ◌&&◌, List, [], ◌∷◌, ◌++◌, map, length, ltb, ◌==◌, if◌then◌else◌,
  concat,
}
use anger.Common.Word.{add32}
use anger.Common.Memory.{u32_bytes}
use anger.EndPoint.{EndPoint}
use anger.VariableGroupNode.State.{VariableGroupNode, Effect, available_ids}

-- `m_UniqueIdCounter++`, that many times: the ids, and the counter behind them.
unfoldable pub count_ids : ℕ → ℕ → List ℕ × ℕ
count_ids zero counter = ([], counter)
count_ids (suc n) counter =
    let (ids, counter') = count_ids n (add32 counter 1) in (counter ∷ ids, counter')

-- sendIdPackProvide, asked for at most as many ids as there are in a pack.
unfoldable pub send_id_pack_provide :
    EndPoint → ℕ → VariableGroupNode → VariableGroupNode × List Effect
unfolding count_ids
send_id_pack_provide e num_ids n =
    let wanted = if ltb available_ids num_ids then available_ids else num_ids in
    let (ids, counter) = count_ids wanted n.unique_id_counter in
    (
      record n { unique_id_counter = counter },
      Effect.provide_ids e (concat (map u32_bytes ids)) ∷ [],
    )

-- recvIdRequest
unfoldable pub recv_id_request : EndPoint → VariableGroupNode → VariableGroupNode × List Effect
unfolding send_id_pack_provide
recv_id_request e n =
    if n.is_network_id_provider then send_id_pack_provide e available_ids n else (n, [])

-- The payload as an array of `u32_t`.
unfoldable pub words : List ℕ → List ℕ
words (a ∷ b ∷ c ∷ d ∷ bytes) = (a + b * 256 + c * 65536 + d * 16777216) ∷ words bytes
words _ = []

-- recvIdProvide
unfoldable pub recv_id_provide : List ℕ → VariableGroupNode → VariableGroupNode
unfolding words
recv_id_provide payload n =
    if length payload == 4 * available_ids
    then record n { unique_ids = n.unique_ids ++ words payload }
    else n

-- intervalSendIdRequest; `half_second` says whether half a second went by since a time stamp.
unfoldable pub interval_send_id_request :
    ℕ → (ℕ → Bool) → ℕ → VariableGroupNode → VariableGroupNode × List Effect
interval_send_id_request now half_second num_open_connections n =
    if n.is_network_id_provider
    then (n, [])
    else if ltb 0 num_open_connections
        && (ltb (length n.unique_ids) available_ids && half_second n.last_id_pack_request_ts)
    then (record n { last_id_pack_request_ts = now }, Effect.request_ids ∷ [])
    else (n, [])

-- The ids that a provider takes for its own pending groups, in resolvePendingGroups.
unfoldable pub take_own_ids : VariableGroupNode → VariableGroupNode
unfolding count_ids
take_own_ids n =
    let (ids, counter) = count_ids (length n.pending_groups) n.unique_id_counter in
    if n.is_network_id_provider
    then record n { unique_ids = n.unique_ids ++ ids; unique_id_counter = counter }
    else n
