-- ===== src/Link/Receive.antt =====
-- What the receive thread does with a datagram: RUDPLink::recvData and the functions that it
-- dispatches to (GameConn/RUDPLink.cpp). Those for reliable newest data stand in Newest.
use anger.Common.{
  ℕ, zero, suc, ◌+◌, ◌*◌, ◌%◌, Bool, true, false, not, ◌&&◌, List, [], ◌∷◌, ◌++◌, Option, none,
  some, if◌then◌else◌, ◌==◌, ltb, leb,
}
use Prim.Native.Nat.{bit_and}
use anger.Common.Word.{u32_mod, add32, sub32}
use anger.Common.Memory.{Memory, u32_at}
use anger.Common.OrderedMap.{OrderedMap, has, insert}
use anger.Packet.{
  Packet, HeaderPacketType, reliable_ordered, unreliable_sequenced, reliable_newest, ack,
  ack_reliable_newest, serialization_error,
}
use anger.Sequence.{is_sequence_newer}
use anger.Wire.{
  NormalHdr, deserialize_generic_hdr, deserialize_normal_hdr, create_normal_packet, off_norm_id,
  off_norm_chan_n_flags, off_norm_seq, hdr_generic_size, hdr_ack_size, off_ack_chan, off_ack_num,
  off_ack_payload,
}
use anger.Reassembly.{try_reassemble_big_packet, incomplete, complete, fault}
use anger.Link.State.{Channel, Link, critical, Outcome, on_channel}
use anger.Link.Send.{sequence_of}
use anger.Link.Newest.{receive_reliable_newest, receive_ack_rel_newest}

-- `std::find`
unfoldable pub contains : ℕ → List ℕ → Bool
contains seq [] = false
contains seq (s ∷ queue) = if s == seq then true else contains seq queue

-- addAckToAckQueue, on the channel
unfoldable pub add_ack : ℕ → Channel → Channel
unfolding contains
add_ack seq ch =
    if contains seq ch.ack_queue then ch else record ch { ack_queue = ch.ack_queue ++ (seq ∷ []) }

-- The packet of a fragment, with its bits.
with_bits : NormalHdr → Packet → Packet
with_bits h p = record p { first_fragment = h.first_fragment; last_fragment = h.last_fragment }

-- A reliable fragment is buffered, and a message that is whole goes to the queue.
accept_reliable_fragment : NormalHdr → Packet → Channel → Option Channel
unfolding insert try_reassemble_big_packet sub32 with_bits
accept_reliable_fragment h p ch =
    let fragments = insert h.seq (with_bits h p) ch.reliable_fragments in
    elim (try_reassemble_big_packet h.seq fragments) [
      | incomplete ↦ some (record ch { reliable_fragments = fragments })
      | complete final_pack seq_begin seq_end left ↦ some (record ch {
        reliable_fragments = left;
        recv_queue_reliable_order =
            insert seq_begin (final_pack, add32 1 (sub32 seq_end seq_begin))
              ch.recv_queue_reliable_order;
      })
      | fault ↦ none
    ]

-- receiveReliableOrdered, behind the header
unfoldable pub accept_reliable_ordered : ℕ → Memory → ℕ → NormalHdr → Channel → Option Channel
unfolding is_sequence_newer has insert create_normal_packet accept_reliable_fragment
accept_reliable_ordered link_id buff raw_size h ch =
    let pack =
      create_normal_packet buff off_norm_id raw_size link_id h.channel h.relay reliable_ordered in
    if not (is_sequence_newer h.seq ch.recv_seq_reliable)
    then some ch
    else if h.first_fragment && h.last_fragment
    then if has h.seq ch.recv_queue_reliable_order then some ch else elim pack [
      | none ↦ none
      | some p ↦ some (record ch {
        recv_queue_reliable_order = insert h.seq (p, 1) ch.recv_queue_reliable_order;
      })
    ]
    else if has h.seq ch.reliable_fragments
    then some ch
    else elim pack [ none ↦ none | some p ↦ accept_reliable_fragment h p ch ]

-- receiveReliableOrdered
unfoldable pub receive_reliable_ordered : ℕ → Memory → ℕ → Link → Outcome
receive_reliable_ordered link_id buff raw_size link = elim (deserialize_normal_hdr buff raw_size) [
  | none ↦ some (link, critical serialization_error ∷ [])
  | some h ↦ on_channel link h.channel (accept_reliable_ordered link_id buff raw_size h)
]

-- The loop that drops the buffered fragments which are not newer than `recvSeq`.
unfoldable pub drop_older : ℕ → OrderedMap Packet → OrderedMap Packet
unfolding is_sequence_newer
drop_older recv_seq [] = []
drop_older recv_seq ((k, p) ∷ m) =
    if is_sequence_newer k recv_seq then (k, p) ∷ drop_older recv_seq m else drop_older recv_seq m

accept_unreliable_fragment : NormalHdr → Packet → Channel → Option Channel
unfolding insert try_reassemble_big_packet add32 with_bits drop_older
accept_unreliable_fragment h p ch =
    let fragments = insert h.seq (with_bits h p) ch.unreliable_fragments in
    elim (try_reassemble_big_packet h.seq fragments) [
      | incomplete ↦ some (record ch { unreliable_fragments = fragments })
      | complete final_pack seq_begin seq_end left ↦ some (record ch {
        recv_queue_unreliable_sequenced = ch.recv_queue_unreliable_sequenced ++ (final_pack ∷ []);
        recv_seq_unreliable = add32 seq_end 1;
        unreliable_fragments = drop_older (add32 seq_end 1) left;
      })
      | fault ↦ none
    ]

-- receiveUnreliableSequenced, behind the header
unfoldable pub accept_unreliable_sequenced : ℕ → Memory → ℕ → NormalHdr → Channel → Option Channel
unfolding is_sequence_newer has create_normal_packet add32 accept_unreliable_fragment
accept_unreliable_sequenced link_id buff raw_size h ch =
    let pack =
      create_normal_packet buff off_norm_id raw_size link_id h.channel h.relay
        unreliable_sequenced in
    if not (is_sequence_newer h.seq ch.recv_seq_unreliable)
    then some ch
    else if h.first_fragment && h.last_fragment
    then elim pack [
      | none ↦ none
      | some p ↦ some (record ch {
        recv_seq_unreliable = add32 h.seq 1;
        recv_queue_unreliable_sequenced = ch.recv_queue_unreliable_sequenced ++ (p ∷ []);
      })
    ]
    else if has h.seq ch.unreliable_fragments
    then some ch
    else elim pack [ none ↦ none | some p ↦ accept_unreliable_fragment h p ch ]

-- receiveUnreliableSequenced
unfoldable pub receive_unreliable_sequenced : ℕ → Memory → ℕ → Link → Outcome
unfolding deserialize_normal_hdr accept_unreliable_sequenced on_channel
receive_unreliable_sequenced link_id buff raw_size link =
    elim (deserialize_normal_hdr buff raw_size) [
      | none ↦ some (link, [])
      | some h ↦ on_channel link h.channel (accept_unreliable_sequenced link_id buff raw_size h)
    ]

-- `std::find_if` and `queue.erase`: the first packet with this sequence number is removed.
unfoldable pub remove_acked : ℕ → List (List ℕ) → List (List ℕ)
unfolding sequence_of
remove_acked seq [] = []
remove_acked seq (d ∷ queue) = if sequence_of d == seq then queue else d ∷ remove_acked seq queue

-- The loop over the acks, for the rounds that are left; `off` is where the next ack stands.
unfoldable pub ack_loop : ℕ → ℕ → Memory → List (List ℕ) → List (List ℕ)
unfolding remove_acked u32_at
ack_loop zero off buff queue = queue
ack_loop (suc rounds) off buff queue =
    ack_loop rounds (off + 4) buff (remove_acked (u32_at buff off) queue)

-- `num * 4` leaves the range of `i32_t`, for the `i32_t` with the bits of `num`.
unfoldable pub overflows : ℕ → Bool
overflows num = leb 536870912 num && ltb num 3758096384

-- A negative number of acks makes no round.
unfoldable pub ack_rounds : ℕ → ℕ
ack_rounds num = if ltb num 2147483648 then num else 0

-- receiveAck. The channel is used as it stands in the packet.
unfoldable pub receive_ack : Memory → ℕ → Link → Outcome
unfolding overflows ack_rounds sub32
receive_ack buff raw_size link =
    let num = u32_at buff off_ack_num in
    if ltb raw_size hdr_ack_size
    then some (link, [])
    else if overflows num
    then none
    else if not (sub32 raw_size (hdr_ack_size + hdr_generic_size) == num * 4 % u32_mod)
    then some (link, [])
    else on_channel link (buff off_ack_chan) λ ch. some (record ch {
      retransmit_queue_reliable =
          ack_loop (ack_rounds num) off_ack_payload buff ch.retransmit_queue_reliable;
    })

-- Two steps one after the other; a fault of the first is a fault of both.
and_then : Outcome → (Link → Outcome) → Outcome
and_then none f = none
and_then (some (link, es)) f = elim (f link) [
  | none ↦ none
  | some (link', fs) ↦ some (link', es ++ fs)
]

-- The switch of recvData.
unfoldable pub recv_typed : Option HeaderPacketType → ℕ → Memory → ℕ → Link → Outcome
unfolding and_then
recv_typed none link_id buff raw_size link = some (link, [])
recv_typed (some ack) link_id buff raw_size link = receive_ack buff raw_size link
recv_typed (some ack_reliable_newest) link_id buff raw_size link =
    receive_ack_rel_newest buff raw_size link
recv_typed (some reliable_ordered) link_id buff raw_size link =
    and_then
      (on_channel link (bit_and (buff off_norm_chan_n_flags) 7)
        (λ ch. some (add_ack (u32_at buff off_norm_seq) ch)))
      (receive_reliable_ordered link_id buff raw_size)
recv_typed (some unreliable_sequenced) link_id buff raw_size link =
    receive_unreliable_sequenced link_id buff raw_size link
recv_typed (some reliable_newest) link_id buff raw_size link =
    receive_reliable_newest link_id buff raw_size link

-- recvData; `roll` is the value of `rand()`.
unfoldable pub recv_data : ℕ → Memory → ℕ → Link → Outcome
recv_data roll buff raw_size link =
    if ltb 0 link.packet_loss_percentage && ltb (roll % 100) link.packet_loss_percentage
    then some (link, [])
    else elim (deserialize_generic_hdr buff raw_size) [
      | none ↦ some (link, [])
      | some (link_id, type) ↦ recv_typed type link_id buff raw_size link
    ]
