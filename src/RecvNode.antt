-- ===== src/RecvNode.antt =====
-- RecvNode (GameConn/RecvNode.h, GameConn/RecvNode.cpp): the links by endpoint. A link is an object
-- at an address, which the map and the list share; to use an address without an object is a fault,
-- `none`. Each method holds the mutex of the links; threads, the socket and logging are left out.
pub mod Sweep
pub mod Table
pub mod Send
pub mod Rounds
pub mod Chosen
pub mod Visits
pub mod Newest
mod Tests
use anger.Common.{
  ℕ, zero, suc, ◌+◌, Bool, true, false, not, ◌&&◌, ◌||◌, List, [], ◌∷◌, ◌++◌, Option, none, some,
  length, get_elem?, ltb, leb, ◌==◌, if◌then◌else◌,
}
use anger.Common.Word.{add32, sub32}
use anger.Common.Memory.{Memory, u32_at}
use anger.Common.OrderedMap.{OrderedMap, find, insert, erase}
use anger.Packet.{HeaderPacketType, reliable_ordered, to_byte}
use anger.Wire.{off_link, off_type, off_norm_id, off_norm_data, hdr_generic_size}
use anger.EndPoint.{EndPoint}
use anger.Link.State.{Link, Effect, new_link, pin, unpin, is_pinned, simulate_packet_loss}
use anger.Link.Send.{is_sequence_delivered}
use anger.Link.Receive.{recv_data}
use anger.Util.{buff_recv_size}

pub record LinkObject : Type 0 where
  pub end_point : EndPoint
  pub link : Link

pub record RecvNode : Type 0 where
  pub objects : OrderedMap LinkObject
  pub open_links_map : List (EndPoint × ℕ)
  pub open_links_list : List ℕ
  pub list_pinned : ℕ

-- EndPoint::operator==
unfoldable pub same_end_point : EndPoint → EndPoint → Bool
same_end_point a b = (a.host == b.host) && (a.port == b.port)

-- `m_OpenLinksMap.find(endPoint)`
unfoldable pub look_up : EndPoint → List (EndPoint × ℕ) → Option ℕ
unfolding same_end_point
look_up e [] = none
look_up e ((k, p) ∷ m) = if same_end_point e k then some p else look_up e m

-- `m_OpenLinksMap.erase(endPoint)`
unfoldable pub forget : EndPoint → List (EndPoint × ℕ) → List (EndPoint × ℕ)
unfolding same_end_point
forget e [] = []
forget e ((k, p) ∷ m) = if same_end_point e k then forget e m else (k, p) ∷ forget e m

-- A link object gets a new state.
unfoldable pub assign : ℕ → Link → OrderedMap LinkObject → OrderedMap LinkObject
assign p l [] = []
assign p l ((q, o) ∷ m) =
    if p == q then (q, record o { link = l }) ∷ assign p l m else (q, o) ∷ assign p l m

unfoldable pub with_link : ℕ → (Link → Link) → RecvNode → Option RecvNode
unfolding find assign
with_link p f n = elim (find p n.objects) [
  | none ↦ none
  | some o ↦ some (record n { objects = assign p (f o.link) n.objects })
]

-- getLinkAndPinIt, by index and by endpoint; the address is the result.
unfoldable pub pin_at : Option ℕ → RecvNode → Option (Option ℕ × RecvNode)
unfolding with_link pin
pin_at none n = some (none, n)
pin_at (some p) n = elim (with_link p pin n) [ none ↦ none | some n' ↦ some (some p, n') ]

unfoldable pub get_link_and_pin_index : ℕ → RecvNode → Option (Option ℕ × RecvNode)
unfolding pin_at
get_link_and_pin_index idx n = pin_at (get_elem? n.open_links_list idx) n

unfoldable pub get_link_and_pin_it : EndPoint → RecvNode → Option (Option ℕ × RecvNode)
unfolding pin_at look_up
get_link_and_pin_it e n = pin_at (look_up e n.open_links_map) n

-- unpinLink
unfoldable pub unpin_link : ℕ → RecvNode → Option RecvNode
unfolding with_link unpin
unpin_link p n = with_link p unpin n

-- pinList, isListPinned and unpinList
unfoldable pub pin_list : RecvNode → RecvNode
unfolding add32
pin_list n = record n { list_pinned = add32 n.list_pinned 1 }

unfoldable pub is_list_pinned : RecvNode → Bool
is_list_pinned n = not (n.list_pinned == 0)

unfoldable pub unpin_list : RecvNode → RecvNode
unfolding sub32
unpin_list n = record n { list_pinned = sub32 n.list_pinned 1 }

-- getNumOpenLinks
unfoldable pub get_num_open_links : RecvNode → ℕ
get_num_open_links n = length n.open_links_list

-- getLink: the address of a link, which is not of one that is pending delete unless asked for.
unfoldable pub get_link : EndPoint → Bool → RecvNode → Option (Option ℕ)
unfolding find
get_link e get_if_is_pending_delete n = elim (look_up e n.open_links_map) [
  | none ↦ some none
  | some p ↦ elim (find p n.objects) [
    | none ↦ none
    | some o ↦
        if get_if_is_pending_delete || not o.link.is_pending_delete
        then some (some p)
        else some none
  ]
]

-- addLink, with the link id that was given or drawn; `address` is that of the new object, whose
-- unset members are as they were in memory.
unfoldable pub add_link : ℕ → ℕ → ℕ → EndPoint → ℕ → RecvNode → Option (ℕ × RecvNode)
unfolding insert new_link
add_link address stale_seq stale_pinned e link_id n = elim (look_up e n.open_links_map) [
  | some p ↦ none
  | none ↦ some (
    address,
    record n {
      objects =
          insert address (record { end_point = e; link = new_link link_id stale_seq stale_pinned })
            n.objects;
      open_links_map = n.open_links_map ++ ((e, address) ∷ []);
      open_links_list = n.open_links_list ++ (address ∷ []);
    },
  )
]

-- The loop of isPacketDelivered over the fragments that are left.
unfoldable pub all_delivered : ℕ → ℕ → ℕ → Link → Option Bool
unfolding add32 is_sequence_delivered
all_delivered zero sequence channel l = some true
all_delivered (suc left) sequence channel l =
    let rest = all_delivered left (add32 sequence 1) channel l in
    elim (is_sequence_delivered sequence channel l) [
      | none ↦ none
      | some true ↦ rest
      | some false ↦ some false
    ]

-- isPacketDelivered. The link is pinned meanwhile.
unfoldable pub is_packet_delivered : EndPoint → ℕ → ℕ → ℕ → RecvNode → Option (Bool × RecvNode)
unfolding get_link_and_pin_it find all_delivered unpin_link
is_packet_delivered e sequence num_fragments channel n = elim (get_link_and_pin_it e n) [
  | none ↦ none
  | some (none, n') ↦ some (false, n')
  | some (some p, n') ↦ elim (find p n'.objects) [
    | none ↦ none
    | some o ↦ elim (all_delivered num_fragments sequence channel o.link) [
      | none ↦ none
      | some delivered ↦ elim (unpin_link p n') [ none ↦ none | some n'' ↦ some (delivered, n'') ]
    ]
  ]
]

abbrev pub max_linger_time_ms : ℕ
max_linger_time_ms = 1000

-- A link stays on the list while it is pinned, not pending delete, or lingers.
unfoldable pub stays_open : (ℕ → ℕ) → Link → Bool
unfolding is_pinned
stays_open time_since l =
    is_pinned l
    || (not l.is_pending_delete
        || not (ltb (max_linger_time_ms + max_linger_time_ms) (time_since l.mark_delete_ts)))

keep_on_list : ℕ → Option (List ℕ × RecvNode) → Option (List ℕ × RecvNode)
keep_on_list p none = none
keep_on_list p (some (ps, n)) = some (p ∷ ps, n)

-- The loop of updatePendingDeletes: what stays of the list, and the node.
unfoldable pub sweep : (ℕ → ℕ) → List ℕ → RecvNode → Option (List ℕ × RecvNode)
unfolding keep_on_list
sweep time_since [] n = some ([], n)
sweep time_since (p ∷ ps) n = elim (find p n.objects) [
  | none ↦ none
  | some o ↦ elim (stays_open time_since o.link) [
    | true ↦ keep_on_list p (sweep time_since ps n)
    | false ↦ sweep time_since ps (record n {
      open_links_map = forget o.end_point n.open_links_map;
      objects = erase p n.objects;
    })
  ]
]

-- updatePendingDeletes
unfoldable pub update_pending_deletes : (ℕ → ℕ) → RecvNode → Option RecvNode
update_pending_deletes time_since n =
    if is_list_pinned n then some n else elim (sweep time_since n.open_links_list n) [
      | none ↦ none
      | some (ps, n') ↦ some (record n' { open_links_list = ps })
    ]

-- The rest of recvThread for one datagram, when its link is known.
unfoldable pub give : ℕ → ℕ → Memory → ℕ → RecvNode → Option (RecvNode × List Effect)
unfolding assign
give roll p buff raw_size n = elim (find p n.objects) [
  | none ↦ none
  | some o ↦ elim (recv_data roll buff raw_size o.link) [
    | none ↦ none
    | some (l, effects) ↦ some (record n { objects = assign p l n.objects }, effects)
  ]
]

-- A datagram from an endpoint with no link is dropped unless it is a connect request.
unfoldable pub is_connect_request : Memory → ℕ → Bool
is_connect_request buff raw_size =
    leb off_norm_data raw_size
    && ((buff off_type == to_byte reliable_ordered) && (buff off_norm_id == 0))

unfoldable pub from_unknown :
    ℕ → ℕ → ℕ → ℕ → EndPoint → Memory → ℕ → RecvNode → Option (RecvNode × List Effect)
unfolding is_connect_request add_link
from_unknown roll address stale_seq stale_pinned e buff raw_size n =
    if is_connect_request buff raw_size
    then elim (add_link address stale_seq stale_pinned e (u32_at buff off_link) n) [
      | none ↦ none
      | some (p, n') ↦ give roll p buff raw_size n'
    ]
    else some (n, [])

unfoldable pub from_known :
    ℕ → LinkObject → ℕ → Memory → ℕ → RecvNode → Option (RecvNode × List Effect)
from_known roll o p buff raw_size n =
    if u32_at buff off_link == o.link.link_id then give roll p buff raw_size n else some (n, [])

-- `buff[rawSize] = '\0'`
unfoldable pub terminated : Memory → ℕ → Memory
terminated buff raw_size i = if i == raw_size then 0 else buff i

-- One round of recvThread with a datagram of `raw_size` bytes from `e`. While its link lingers, a
-- zero is put behind the datagram.
unfoldable pub recv_datagram :
    (ℕ → ℕ) → ℕ → ℕ → ℕ → ℕ → EndPoint → Memory → ℕ → RecvNode → Option (RecvNode × List Effect)
unfolding terminated
recv_datagram time_since roll address stale_seq stale_pinned e buff raw_size n =
    if ltb raw_size hdr_generic_size then some (n, []) else elim (look_up e n.open_links_map) [
      | none ↦ from_unknown roll address stale_seq stale_pinned e buff raw_size n
      | some p ↦ elim (find p n.objects) [
        | none ↦ none
        | some o ↦
            if not o.link.is_pending_delete
            then from_known roll o p buff raw_size n
            else if leb buff_recv_size raw_size
            then none
            else if leb max_linger_time_ms (time_since o.link.mark_delete_ts)
            then some (n, [])
            else from_known roll o p (terminated buff raw_size) raw_size n
      ]
    ]
