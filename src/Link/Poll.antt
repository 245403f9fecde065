-- ===== src/Link/Poll.antt =====
-- RUDPLink::poll and areAllQueuesEmpty (GameConn/RUDPLink.cpp), called from the game thread.
use anger.Common.{Bool, true, false, ◌&&◌, List, [], ◌∷◌, Option, none, some}
use anger.Common.Word.{add32}
use anger.Common.OrderedMap.{find, erase}
use anger.Packet.{Packet}
use anger.Link.State.{Channel, Link}

-- The reliable ordered packets of one channel: the next one expected, if it is there.
unfoldable pub poll_reliable : Channel → Option (Packet × Channel)
unfolding find erase add32
poll_reliable ch = elim (find ch.recv_seq_reliable ch.recv_queue_reliable_order) [
  | none ↦ none
  | some (pack, num_fragments) ↦ some (
    pack,
    record ch {
      recv_seq_reliable = add32 ch.recv_seq_reliable num_fragments;
      recv_queue_reliable_order = erase ch.recv_seq_reliable ch.recv_queue_reliable_order;
    },
  )
]

-- The front of the unreliable sequenced packets of one channel.
pop_front : Channel → List Packet → Option (Packet × Channel)
pop_front ch [] = none
pop_front ch (pack ∷ packs) = some (pack, record ch { recv_queue_unreliable_sequenced = packs })

unfoldable pub poll_unreliable : Channel → Option (Packet × Channel)
unfolding pop_front
poll_unreliable ch = pop_front ch ch.recv_queue_unreliable_sequenced

keep_before : Channel → Option (Packet × List Channel) → Option (Packet × List Channel)
keep_before ch none = none
keep_before ch (some (pack, chs)) = some (pack, ch ∷ chs)

-- A loop over the channels: the first one that has a packet gives it.
unfoldable pub first_channel :
    (Channel → Option (Packet × Channel)) → List Channel → Option (Packet × List Channel)
unfolding keep_before
first_channel take_from [] = none
first_channel take_from (ch ∷ chs) =
    let later = first_channel take_from chs in
    elim (take_from ch) [ some (pack, ch') ↦ some (pack, ch' ∷ chs) | none ↦ keep_before ch later ]

poll_newest : Link → List Packet → Option (Packet × Link)
poll_newest link [] = none
poll_newest link (pack ∷ packs) = some (pack, record link { recv_queue_reliable_newest = packs })

-- poll: `none` if there is no packet.
unfoldable pub poll : Link → Option (Packet × Link)
unfolding poll_reliable poll_unreliable first_channel poll_newest
poll link = elim (first_channel poll_reliable link.channels) [
  | some (pack, chs) ↦ some (pack, record link { channels = chs })
  | none ↦ elim (first_channel poll_unreliable link.channels) [
    | some (pack, chs) ↦ some (pack, record link { channels = chs })
    | none ↦ poll_newest link link.recv_queue_reliable_newest
  ]
]

is_empty {ℓ} : {A : Type ℓ} → List A → Bool
is_empty [] = true
is_empty (x ∷ xs) = false

unfoldable pub channel_empty : Channel → Bool
unfolding is_empty
channel_empty ch =
    is_empty ch.retransmit_queue_reliable
    && (is_empty ch.recv_queue_unreliable_sequenced
        && (is_empty ch.recv_queue_reliable_order && is_empty ch.ack_queue))

channels_empty : List Channel → Bool
unfolding channel_empty
channels_empty [] = true
channels_empty (ch ∷ chs) = channel_empty ch && channels_empty chs

-- areAllQueuesEmpty
unfoldable pub are_all_queues_empty : Link → Bool
unfolding channels_empty
are_all_queues_empty link =
    channels_empty link.channels
    && (is_empty link.send_queue_reliable_newest && is_empty link.recv_queue_reliable_newest)
