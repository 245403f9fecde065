-- ===== src/Link/Send.antt =====
-- RUDPLink::addToSendQueue and isSequenceDelivered (GameConn/RUDPLink.cpp).
use anger.Common.{
  ◌≡◌, refl, arith, ℕ, Bool, true, false, List, [], ◌∷◌, ◌++◌, map, Option, none, some, get_elem?,
  get_or, set, if◌then◌else◌, ◌==◌, length, not,
}
use anger.Common.Word.{add32}
use anger.Common.Memory.{u32_at}
use anger.Packet.{HeaderPacketType, reliable_ordered, reliable_newest, ack, invalid_logic}
use anger.Wire.{serialize_normal_packet, put_sequence, off_norm_seq}
use anger.Link.State.{Channel, Link, Effect, transmit, critical}

-- ESendCallResult
pub data SendCallResult : Type 0 where
  succes not_sent internal_error : SendCallResult

-- What a call leaves behind: its result, what it writes to `sequence` and `numFragments` if it
-- writes them, the link, and the datagrams.
pub record Sent : Type 0 where
  pub result : SendCallResult
  pub trace : Option (ℕ × ℕ)
  pub link : Link
  pub effects : List Effect

-- The loops over `packs`: each fragment gets the next sequence number.
unfoldable pub stamp : ℕ → List (List ℕ) → List (List ℕ)
unfolding add32 put_sequence
stamp seq [] = []
stamp seq (d ∷ ds) = put_sequence seq d ∷ stamp (add32 seq 1) ds

-- The counter behind the loop.
unfoldable pub next_seq : ℕ → List (List ℕ) → ℕ
unfolding add32
next_seq seq [] = seq
next_seq seq (d ∷ ds) = next_seq (add32 seq 1) ds

send_reliable : Link → ℕ → Channel → List (List ℕ) → Sent
unfolding stamp next_seq
send_reliable link c ch packs =
    let seq = ch.send_seq_reliable in
    let out = stamp seq packs in
    record {
      result = succes;
      trace = some (seq, length packs);
      link = record link {
        channels = set link.channels c (record ch {
          send_seq_reliable = next_seq seq packs;
          retransmit_queue_reliable = ch.retransmit_queue_reliable ++ out;
        });
      };
      effects = map transmit out;
    }

send_unreliable : Link → ℕ → Channel → List (List ℕ) → Sent
unfolding stamp next_seq
send_unreliable link c ch packs =
    let seq = ch.send_seq_unreliable in
    record {
      result = succes;
      trace = none;
      link = record link {
        channels = set link.channels c (record ch { send_seq_unreliable = next_seq seq packs });
      };
      effects = map transmit (stamp seq packs);
    }

send_packs : HeaderPacketType → Link → ℕ → Channel → List (List ℕ) → Sent
unfolding send_reliable send_unreliable
send_packs reliable_ordered link c ch packs = send_reliable link c ch packs
send_packs _ link c ch packs = send_unreliable link c ch packs

-- Acks and reliable newest packets are not for the user to send.
unfoldable pub is_forbidden : HeaderPacketType → Bool
is_forbidden ack = true
is_forbidden reliable_newest = true
is_forbidden _ = false

-- addToSendQueue. `none` is a fault: a channel out of range, or fragments of no size.
unfoldable pub add_to_send_queue : ℕ → List ℕ → HeaderPacketType → ℕ → Bool → Link → Option Sent
unfolding is_forbidden send_packs
add_to_send_queue id bytes type channel relay link =
    if link.block_new_sends
    then some (record { result = not_sent; trace = none; link = link; effects = [] })
    else if is_forbidden type
    then some (record {
      result = internal_error;
      trace = none;
      link = link;
      effects = critical invalid_logic ∷ [];
    })
    else elim (serialize_normal_packet
        (record {
          link_id = link.link_id;
          type = type;
          data_id = id;
          channel = channel;
          relay = relay;
        })
        link.fragment_size bytes) [
          | none ↦ none
          | some packs ↦ elim (get_elem? link.channels channel) [
            | none ↦ none
            | some ch ↦ some (send_packs type link channel ch packs)
          ]
        ]

-- A call that does not fault has a result.
abbrev pub HasResult : SendCallResult → Option Sent → Type 0
HasResult r none = Unit {0}
HasResult r (some s) = s.result ≡ r

send_packs-result :
    (type : HeaderPacketType) (link : Link) (c : ℕ) (ch : Channel) (packs : List (List ℕ))
    → (send_packs type link c ch packs).result ≡ succes
unfolding send_packs send_reliable send_unreliable
send_packs-result type link c ch packs = ground arith

-- A link that blocks sends takes no message, and any other takes those of the user.
pub add_to_send_queue_blocked :
    (id : ℕ) (bytes : List ℕ) (type : HeaderPacketType) (channel : ℕ) (relay : Bool) (link : Link)
    → link.block_new_sends ≡ true
    → HasResult not_sent (add_to_send_queue id bytes type channel relay link)
unfolding add_to_send_queue
add_to_send_queue_blocked id bytes type channel relay link b = rw (b, add_to_send_queue) refl

pub add_to_send_queue_open :
    (id : ℕ) (bytes : List ℕ) (type : HeaderPacketType) (channel : ℕ) (relay : Bool) (link : Link)
    → link.block_new_sends ≡ false
    → is_forbidden type ≡ false
    → HasResult succes (add_to_send_queue id bytes type channel relay link)
unfolding add_to_send_queue
add_to_send_queue_open id bytes type channel relay link b f =
    rw (b, f, add_to_send_queue) (of_packs _ (get_elem? link.channels channel))
  where
    of_packs :
        (packs : Option (List (List ℕ))) (o : Option Channel)
        → HasResult succes (elim packs [
          | none ↦ none
          | some packs' ↦ elim o [
            | none ↦ none
            | some ch ↦ some (send_packs type link channel ch packs')
          ]
        ])
    of_packs none o = tt
    of_packs (some packs) none = tt
    of_packs (some packs) (some ch) = send_packs-result type link channel ch packs

-- `*(u32_t*)&pack.data[off_Norm_Seq]`
unfoldable pub sequence_of : List ℕ → ℕ
unfolding u32_at
sequence_of d = u32_at (λ i. get_or d i 0) off_norm_seq

-- `std::find_if` on a retransmit queue, as a test.
unfoldable pub is_queued : ℕ → List (List ℕ) → Bool
unfolding sequence_of
is_queued seq [] = false
is_queued seq (d ∷ queue) = if sequence_of d == seq then true else is_queued seq queue

unfoldable pub is_sequence_delivered : ℕ → ℕ → Link → Option Bool
unfolding is_queued
is_sequence_delivered seq channel link = elim (get_elem? link.channels channel) [
  | none ↦ none
  | some ch ↦ some (not (is_queued seq ch.retransmit_queue_reliable))
]
