-- ===== src/RecvNode/Send.antt =====
-- Sending to many links: RecvNode::forEachLink, send, sendReliableNewest and simulatePacketLoss
-- (GameConn/RecvNode.h, GameConn/RecvNode.cpp).
use anger.Common.{ℕ, Bool, true, false, List, [], ◌∷◌, Option, none, some, if◌then◌else◌}
use anger.Common.OrderedMap.{find}
use anger.EndPoint.{EndPoint}
use anger.Packet.{
  HeaderPacketType, reliable_ordered, unreliable_sequenced, CriticalError, invalid_logic,
}
use anger.Link.State.{Link, Effect}
use anger.Link.Send.{Sent, SendCallResult, add_to_send_queue}
use anger.Link.Newest.{add_reliable_newest}
use anger.RecvNode.{LinkObject, RecvNode, same_end_point, look_up, assign, pin_list, unpin_list}

-- What a visit of links gives: the node, and for each link that was visited, in their order, its
-- endpoint and what the callback gave.
abbrev pub Visited : Type 0 → Type 0
Visited A = Option (RecvNode × List (EndPoint × A))

module _ {A : Type 0} (f : Link → Option (Link × A)) where
  unfoldable pub also : EndPoint → A → Visited A → Visited A
  also e a none = none
  also e a (some (n, visited)) = some (n, (e, a) ∷ visited)

  -- The callback for the links at these addresses.
  unfoldable pub for_links : List ℕ → RecvNode → Visited A
  unfolding also find assign
  for_links [] n = some (n, [])
  for_links (p ∷ ps) n = elim (find p n.objects) [
    | none ↦ none
    | some o ↦ elim (f o.link) [
      | none ↦ none
      | some (l, a) ↦
          also o.end_point a (for_links ps (record n { objects = assign p l n.objects }))
    ]
  ]

-- The links of a list but that of an endpoint; a callback does not change the endpoints.
unfoldable pub leave_out : EndPoint → ℕ → LinkObject → Option (List ℕ) → Option (List ℕ)
leave_out e p o none = none
leave_out e p o (some ps) = some (if same_end_point o.end_point e then ps else p ∷ ps)

unfoldable pub all_but : EndPoint → List ℕ → RecvNode → Option (List ℕ)
unfolding leave_out find
all_but e [] n = some []
all_but e (p ∷ ps) n = elim (find p n.objects) [
  | none ↦ none
  | some o ↦ leave_out e p o (all_but e ps n)
]

-- The links that forEachLink goes through: all, all but one, or one.
unfoldable pub chosen : Option EndPoint → Bool → RecvNode → Option (List ℕ)
unfolding all_but look_up
chosen none exclude n = some n.open_links_list
chosen (some e) true n = all_but e n.open_links_list n
chosen (some e) false n = elim (look_up e n.open_links_map) [
  | none ↦ some []
  | some p ↦ some (p ∷ [])
]

unfoldable pub unpinned : {A : Type 0} → Visited A → Visited A
unfolding unpin_list
unpinned none = none
unpinned (some (n, visited)) = some (unpin_list n, visited)

-- forEachLink; the list is pinned meanwhile.
unfoldable pub for_each_link :
    {A : Type 0} → Option EndPoint → Bool → (Link → Option (Link × A)) → RecvNode → Visited A
unfolding unpinned pin_list for_links chosen
for_each_link specific exclude f n = elim (chosen specific exclude n) [
  | none ↦ none
  | some ps ↦ unpinned (for_links f ps (pin_list n))
]

-- What a call of send gives: its result, the node, what each link did, and critical errors.
pub record NodeSent : Type 0 where
  pub call_result : SendCallResult
  pub node : RecvNode
  pub sent : List (EndPoint × Sent)
  pub errors : List CriticalError

unfoldable pub is_not_sent : SendCallResult → Bool
is_not_sent SendCallResult.not_sent = true
is_not_sent _ = false

-- The result of the call, from the results of the links as they come. The result of a link is
-- compared with that of the call, which is not sent there.
unfoldable pub collect : SendCallResult → List (EndPoint × Sent) → SendCallResult
unfolding is_not_sent
collect result [] = result
collect result ((e, s) ∷ visited) =
    collect
      (if is_not_sent result
        then (if is_not_sent s.result then SendCallResult.succes else result)
        else result)
      visited

unfoldable pub is_for_users : HeaderPacketType → Bool
is_for_users reliable_ordered = true
is_for_users unreliable_sequenced = true
is_for_users _ = false

-- The call of addToSendQueue for a link.
unfoldable pub queue_on : ℕ → List ℕ → HeaderPacketType → ℕ → Bool → Link → Option (Link × Sent)
unfolding add_to_send_queue
queue_on id bytes type channel relay l = elim (add_to_send_queue id bytes type channel relay l) [
  | none ↦ none
  | some s ↦ some (s.link, s)
]

unfoldable pub sum_up : Visited Sent → Option NodeSent
unfolding collect
sum_up none = none
sum_up (some (n, visited)) = some (record {
  call_result = collect SendCallResult.not_sent visited;
  node = n;
  sent = visited;
  errors = [];
})

-- send. The ticket of a link is its `trace`.
unfoldable pub send :
    ℕ → List ℕ → Option EndPoint → Bool → HeaderPacketType → ℕ → Bool → RecvNode → Option NodeSent
unfolding is_for_users queue_on sum_up for_each_link
send id bytes specific exclude type channel relay n =
    if is_for_users type
    then sum_up (for_each_link specific exclude (queue_on id bytes type channel relay) n)
    else some (record {
      call_result = SendCallResult.internal_error;
      node = n;
      sent = [];
      errors = invalid_logic ∷ [];
    })

-- sendReliableNewest
unfoldable pub send_reliable_newest :
    ℕ → ℕ → ℕ → List ℕ → Option EndPoint → Bool → RecvNode → Visited (List Effect)
unfolding for_each_link add_reliable_newest
send_reliable_newest id group_id group_bit bytes specific exclude n =
    for_each_link specific exclude (λ l. some (add_reliable_newest id bytes group_id group_bit l)) n
