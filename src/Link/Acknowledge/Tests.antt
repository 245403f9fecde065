-- ===== src/Link/Acknowledge/Tests.antt =====
-- One of two waiting packets is acknowledged.
use anger.Common.{
  ℕ, ◌≡◌, ◌≢◌, refl, true, not, ◌||◌, List, [], ◌∷◌, some, length, get_elem?, set, arith,
}
use anger.Common.Memory.{Memory, load}
use anger.Packet.{reliable_ordered}
use anger.Wire.{Outgoing}
use anger.Wire.Header.{sent_datagram}
use anger.Link.State.{Channel, Link, transmit, new_channel, new_link}
use anger.Link.Send.{sequence_of, is_queued, is_sequence_delivered}
use anger.Link.Receive.{contains, receive_ack}
use anger.Link.Dispatch.{write_acks, ack_datagram}
use anger.Link.Acknowledge.{AreDistinct, AreWords, receive_ack-ack_datagram}

abbrev outgoing : Outgoing
outgoing = record { link_id = 7; type = reliable_ordered; data_id = 20; channel = 3; relay = true }

abbrev waiting : Channel
waiting = record (new_channel 0) {
  retransmit_queue_reliable =
      sent_datagram outgoing true true 0 (1 ∷ []) ∷ sent_datagram outgoing true true 1 [] ∷ [];
}

abbrev sender : Link
sender = record (new_link 7 0 0) { channels = set (new_link 7 0 0).channels 3 waiting }

abbrev noise : Memory
noise = λ i. 7

receive_ack-ack_datagram_example :
    (d : List ℕ) × (link' : Link) × (ack_datagram 9 3 (write_acks 0 (1 ∷ 5 ∷ [])) ≡ transmit d ∷ [])
    × (receive_ack (load noise d) (length d) sender ≡ some (link', []))
    × ((t : ℕ)
        → is_sequence_delivered t 3 link'
          ≡ some (contains t (1 ∷ 5 ∷ []) || not (is_queued t waiting.retransmit_queue_reliable)))
    × ((i : ℕ) → i ≢ 3 → get_elem? link'.channels i ≡ get_elem? sender.channels i)
unfolding AreDistinct AreWords is_queued sequence_of sent_datagram new_link
receive_ack-ack_datagram_example =
    receive_ack-ack_datagram sender 3 waiting (1 ∷ 5 ∷ []) 9 noise refl (refl, (refl, refl))
      (omega arith, (omega arith, refl)) (omega arith) (omega arith)
