-- ===== src/Link/Dispatch.antt =====
-- What the send thread does for a link: the dispatch functions of GameConn/RUDPLink.cpp.
use anger.Common.{
  ℕ, ◌+◌, ◌*◌, ◌/◌, ◌%◌, Bool, true, false, List, [], ◌∷◌, ◌++◌, map, Option, none, some,
  if◌then◌else◌, leb, ltb, length, take, concat,
}
use anger.Common.Word.{add32, sub32}
use anger.Common.Memory.{u32_bytes}
use anger.Common.OrderedMap.{OrderedMap}
use anger.Packet.{to_byte, ack, ack_reliable_newest, reliable_newest, too_much_data_to_send}
use anger.Sequence.{is_sequence_newer}
use anger.Link.State.{
  Channel, Link, Effect, transmit, critical, ReliableNewestItem, ReliableNewestDataGroup, buff_size,
}

-- dispatchReliableOrderedQueue: every packet that is not acknowledged is sent again.
unfoldable pub dispatch_reliable_ordered_queue : Link → List Effect
dispatch_reliable_ordered_queue link =
    concat (map (λ ch. map transmit ch.retransmit_queue_reliable) link.channels)

-- dispatchRelOrderedQueueIfLatencyTimePassed; `latency_time` is `(u32_t)(1.3f * getLatency())`.
unfoldable pub dispatch_rel_ordered_queue_if_latency_time_passed : ℕ → ℕ → Link → Link × List Effect
unfolding add32 sub32 dispatch_reliable_ordered_queue
dispatch_rel_ordered_queue_if_latency_time_passed latency_time delta_time link =
    let waited = add32 link.retransmit_waiting_time delta_time in
    if leb latency_time waited
    then (
      record link { retransmit_waiting_time = sub32 waited latency_time },
      dispatch_reliable_ordered_queue link,
    )
    else (record link { retransmit_waiting_time = waited }, [])

-- The loop that fills the ack packet: it stops when `kSizeWritten` has come to the buffer size.
unfoldable pub write_acks : ℕ → List ℕ → List ℕ
write_acks size_written [] = []
write_acks size_written (seq ∷ queue) =
    u32_bytes seq
    ++ (let rest = write_acks (size_written + 4) queue in
        if leb buff_size (size_written + 4) then [] else rest)

-- The ack packet of channel `i`, if there is anything to acknowledge.
unfoldable pub ack_datagram : ℕ → ℕ → List ℕ → List Effect
ack_datagram link_id i acks =
    if ltb 0 (length acks)
    then transmit (u32_bytes link_id ++ (to_byte ack ∷ i ∷ (u32_bytes (length acks / 4) ++ acks)))
      ∷ []
    else []

-- The loop over the channels from the `i`-th on.
unfoldable pub dispatch_acks : ℕ → ℕ → List Channel → List Channel × List Effect
unfolding write_acks ack_datagram
dispatch_acks link_id i [] = ([], [])
dispatch_acks link_id i (ch ∷ chs) =
    let (chs', es) = dispatch_acks link_id (i + 1) chs in
    (record ch { ack_queue = [] } ∷ chs', ack_datagram link_id i (write_acks 0 ch.ack_queue) ++ es)

-- dispatchAckQueue
unfoldable pub dispatch_ack_queue : Link → Link × List Effect
unfolding dispatch_acks
dispatch_ack_queue link =
    let (chs, es) = dispatch_acks link.link_id 0 link.channels in
    (record link { channels = chs }, es)

-- dispatchRelNewestAckQueue. One byte more is sent than is written: `stale` is what was there.
unfoldable pub dispatch_rel_newest_ack_queue : ℕ → Link → List Effect
unfolding sub32
dispatch_rel_newest_ack_queue stale link =
    if link.connected
    then transmit (
        u32_bytes link.link_id
        ++ (to_byte ack_reliable_newest
            ∷ (u32_bytes (sub32 link.recv_seq_reliable_newest 1) ++ (stale ∷ []))))
      ∷ []
    else []

-- What the loop over the items of a group has written: the bits, the bytes, and whether any item
-- was written. `none` is the buffer overrun.
abbrev pub Items : Type 0
Items = Option (ℕ × List ℕ × Bool)

-- The bits of different items have no bit in common: `|=` is `+`.
unfoldable pub add_item : ℕ → List ℕ → Items → Items
add_item bit bytes none = none
add_item bit bytes (some (bits, rest, any)) = some (bit + bits, bytes ++ rest, true)

-- The loop over the items; `size` is `kBytesWritten`, `bit` is `1 << kBit`.
unfoldable pub write_items : ℕ → ℕ → List ReliableNewestItem → Items
unfolding is_sequence_newer add_item
write_items size bit [] = some (0, [], false)
write_items size bit (item ∷ items) =
    let skipped = write_items size (bit * 2) items in
    let written =
      add_item bit (take item.data_len item.buffer)
        (write_items (size + item.data_len) (bit * 2) items) in
    if is_sequence_newer item.local_revision item.remote_revision
    then (if ltb buff_size (size + item.data_len) then none else written)
    else skipped

-- A `u16_t` in memory.
abbrev pub u16_bytes : ℕ → List ℕ
u16_bytes v = v % 256 ∷ v / 256 % 256 ∷ []

-- What the loop over the groups has written: their number and their bytes.
abbrev pub Groups : Type 0
Groups = Option (ℕ × List ℕ)

unfoldable pub add_group : List ℕ → Groups → Groups
add_group bytes none = none
add_group bytes (some (n, rest)) = some (n + 1, bytes ++ rest)

-- The bytes of a group: its id, the bits, the bytes to skip, and the items.
unfoldable pub group_bytes : ℕ → ℕ → List ℕ → List ℕ
group_bytes id bits bytes =
    u32_bytes id ++ (u16_bytes bits ++ (u16_bytes (8 + length bytes) ++ bytes))

-- The loop over the groups. A group of which no item was written is left out. The loop stops
-- behind a group with which the buffer size is reached.
unfoldable pub write_groups : ℕ → OrderedMap ReliableNewestDataGroup → Groups
unfolding write_items add_group group_bytes
write_groups size [] = some (0, [])
write_groups size ((id, group) ∷ m) = elim (write_items (size + 8) 1 group.group_items) [
  | none ↦ none
  | some (bits, bytes, any) ↦ elim any [
    | false ↦ write_groups size m
    | true ↦ elim (leb buff_size (size + 8 + length bytes)) [
      | true ↦ some (1, group_bytes id bits bytes)
      | false ↦ add_group (group_bytes id bits bytes) (write_groups (size + 8 + length bytes) m)
    ]
  ]
]

-- dispatchReliableNewestQueue; 13 is the size of the headers.
unfoldable pub dispatch_reliable_newest_queue : Link → Link × List Effect
unfolding write_groups add32
dispatch_reliable_newest_queue link = elim (write_groups 13 link.send_queue_reliable_newest) [
  | none ↦ (link, critical too_much_data_to_send ∷ [])
  | some (n, bytes) ↦
      if ltb 0 n
      then (
        record link { send_seq_reliable_newest = add32 link.send_seq_reliable_newest 1 },
        transmit (
              u32_bytes link.link_id
              ++ (to_byte reliable_newest
                  ∷ (u32_bytes link.send_seq_reliable_newest ++ (u32_bytes n ++ bytes))))
            ∷ [],
      )
      else (link, [])
]
