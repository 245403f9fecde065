-- ===== src/Link/Delivery/Arrival.antt =====
-- The arrival of one unfragmented reliable datagram (RUDPLink::receiveReliableOrdered).
use anger.Common.{
  ℕ, ◌-◌, ◌<◌, ◌≤◌, ◌≡◌, refl, ◌∙◌, Bool, true, false, List, [], ◌∷◌, ◌++◌, Option, none, some,
  ◌||◌, ◌&&◌, ◌==◌, Option-cases, Bool-cases, inl, inr, ap, length, drop, if◌then◌else◌, arith,
}
use anger.Common.Word.{u32_mod}
use anger.Common.Memory.{Memory, load, slice-load}
use anger.Common.OrderedMap.{insert, find, find-insert}
use anger.Packet.{Packet, HeaderPacketType, reliable_ordered}
use anger.Sequence.{is_sequence_newer}
use anger.Wire.{Outgoing, create_normal_packet, off_norm_id, NormalHdr}
use anger.Wire.Header.{sent_datagram, sent_datagram_bytes, deserialize-sent_datagram}
use anger.Link.State.{Channel}
use anger.Link.Receive.{contains, add_ack, accept_reliable_ordered}
use anger.Link.Delivery.{Message, outgoing, datagram, packet, arrive}

create_normal_packet-load :
    (stale : Memory) (d : List ℕ) (off link_id channel : ℕ) (relay : Bool) (type : HeaderPacketType)
    → off ≤ length d
    → create_normal_packet (load stale d) off (length d) link_id channel relay type
      ≡ some (record {
        link_id = link_id;
        payload = drop off d;
        channel = channel;
        relay = relay;
        first_fragment = false;
        last_fragment = false;
        type = type;
      })
unfolding create_normal_packet
create_normal_packet-load stale d off link_id channel relay type h =
    ground (arith, slice-load stale d (length d - off) off)

drop-sent_datagram :
    (o : Outgoing) (first last : Bool) (seq : ℕ) (payload : List ℕ)
    → let d = sent_datagram o first last seq payload in
      (off_norm_id ≤ length d) × (drop off_norm_id d ≡ o.data_id ∷ payload)
drop-sent_datagram o first last seq payload =
    rw (sent_datagram_bytes o first last seq payload) (omega arith, refl)

-- The payload of a datagram, its data id in front, is copied out of the buffer.
pub create_normal_packet-sent_datagram :
    (o : Outgoing) (first last : Bool) (seq : ℕ) (payload : List ℕ) (stale : Memory)
    (link_id channel : ℕ) (relay : Bool) (type : HeaderPacketType)
    → let d = sent_datagram o first last seq payload in
      create_normal_packet (load stale d) off_norm_id (length d) link_id channel relay type
      ≡ some (record {
        link_id = link_id;
        payload = o.data_id ∷ payload;
        channel = channel;
        relay = relay;
        first_fragment = false;
        last_fragment = false;
        type = type;
      })
create_normal_packet-sent_datagram o first last seq payload stale link_id channel relay type =
    let (long, rest) = drop-sent_datagram o first last seq payload in
    create_normal_packet-load stale (sent_datagram o first last seq payload) off_norm_id link_id
      channel relay type long
    ∙ rw rest refl

-- A message that is not older than what the game thread waits for is put into the queue.
unfoldable pub enqueue : ℕ → Packet → Channel → Channel
unfolding is_sequence_newer insert
enqueue k p ch =
    if is_sequence_newer k ch.recv_seq_reliable
    then record ch { recv_queue_reliable_order = insert k (p, 1) ch.recv_queue_reliable_order }
    else ch

accept_reliable_ordered-enqueue :
    (link_id : ℕ) (buff : Memory) (raw_size : ℕ) (h : NormalHdr) (p : Packet) (ch : Channel)
    → h.first_fragment ≡ true
    → h.last_fragment ≡ true
    → create_normal_packet buff off_norm_id raw_size link_id h.channel h.relay reliable_ordered
      ≡ some p
    → accept_reliable_ordered link_id buff raw_size h ch ≡ some (enqueue h.seq p ch)
unfolding accept_reliable_ordered enqueue
accept_reliable_ordered-enqueue link_id buff raw_size h p ch f l e = ground arith

-- The arrival of a message's datagram acknowledges it, and enqueues its packet.
pub arrive-enqueue :
    (link_id c : ℕ) (k : ℕ) (m : Message) (stale : Memory) (ch : Channel)
    → link_id < u32_mod
    → c < 8
    → k < u32_mod
    → arrive link_id c stale (datagram link_id c k m) ch
      ≡ some (enqueue k (packet link_id c m) (add_ack k ch))
unfolding arrive
arrive-enqueue link_id c k m stale ch h hc hk =
    rw
      (
        (deserialize-sent_datagram (outgoing link_id c m) true true k m.bytes stale
            (record { link_ok = h; channel_ok = hc }) hk).1,
        arrive,
      )
      (accept_reliable_ordered-enqueue link_id (load stale (datagram link_id c k m))
        (length (datagram link_id c k m))
        (record {
          channel = c;
          relay = m.relay;
          seq = k;
          first_fragment = true;
          last_fragment = true;
        })
        (packet link_id c m) (add_ack k ch) refl refl
        (create_normal_packet-sent_datagram (outgoing link_id c m) true true k m.bytes stale link_id
          c m.relay reliable_ordered))

contains-append :
    (j k : ℕ) (queue : List ℕ) → contains j (queue ++ (k ∷ [])) ≡ (contains j queue || (j == k))
unfolding contains
contains-append j k [] = ground arith
contains-append j k (s ∷ queue) = ground (arith, contains-append j k queue)

contains-add_ack :
    (j k : ℕ) (ch : Channel)
    → contains j (add_ack k ch).ack_queue ≡ (contains j ch.ack_queue || (j == k))
unfolding add_ack
contains-add_ack j k ch = ground (arith, contains-append j k ch.ack_queue)

-- The first packet that came with a number.
abbrev pub first_of : Option (Packet × ℕ) → Packet × ℕ → Option (Packet × ℕ)
first_of none new = some new
first_of (some old) new = some old

find-enqueue :
    (j k : ℕ) (p : Packet) (ch : Channel)
    → find j (enqueue k p ch).recv_queue_reliable_order ≡ (
        if (j == k) && is_sequence_newer k ch.recv_seq_reliable
        then first_of (find k ch.recv_queue_reliable_order) (p, 1)
        else find j ch.recv_queue_reliable_order)
unfolding enqueue
find-enqueue j k p ch = ground (
  arith,
  find-insert k j (p, 1) ch.recv_queue_reliable_order,
  Option-cases (find k ch.recv_queue_reliable_order),
)

enqueue-ack_queue : (k : ℕ) (p : Packet) (ch : Channel) → (enqueue k p ch).ack_queue ≡ ch.ack_queue
unfolding enqueue
enqueue-ack_queue k p ch = ground arith

find-enqueue-add_ack :
    (j k : ℕ) (p : Packet) (ch : Channel)
    → find j (enqueue k p (add_ack k ch)).recv_queue_reliable_order ≡ (
        if (j == k) && is_sequence_newer k ch.recv_seq_reliable
        then first_of (find k ch.recv_queue_reliable_order) (p, 1)
        else find j ch.recv_queue_reliable_order)
unfolding add_ack
find-enqueue-add_ack j k p ch = elim (Bool-cases (contains k ch.ack_queue)) [
  | inl h ↦ rw (h, add_ack) (find-enqueue j k p ch)
  | inr h ↦
      rw (h, add_ack) (find-enqueue j k p (record ch { ack_queue = ch.ack_queue ++ (k ∷ []) }))
]

-- The arrival of the datagram of an unfragmented reliable message, for a 32-bit link id and number
-- and a channel below 8: the numbers that wait to be acknowledged are those that waited before and
-- its own; its packet is in the receive queue under its number if it is not older than the number
-- that is expected, unless there is one already; and every other number of the queue stays as it is.
pub arrive_queues :
    (link_id c k : ℕ) (m : Message) (stale : Memory) (ch : Channel)
    → link_id < u32_mod
    → c < 8
    → k < u32_mod
    → (ch' : Channel) × (arrive link_id c stale (datagram link_id c k m) ch ≡ some ch')
      × ((j : ℕ) → contains j ch'.ack_queue ≡ (contains j ch.ack_queue || (j == k)))
      × ((j : ℕ)
          → find j ch'.recv_queue_reliable_order ≡ (
              if (j == k) && is_sequence_newer k ch.recv_seq_reliable
              then first_of (find k ch.recv_queue_reliable_order) (packet link_id c m, 1)
              else find j ch.recv_queue_reliable_order))
arrive_queues link_id c k m stale ch h hc hk =
    let p = packet link_id c m in
    (
      enqueue k p (add_ack k ch),
      arrive-enqueue link_id c k m stale ch h hc hk,
      λ j. ap (contains j) (enqueue-ack_queue k p (add_ack k ch)) ∙ contains-add_ack j k ch,
      λ j. find-enqueue-add_ack j k p ch,
    )
