-- ===== src/Link/Delivery/Tests.antt =====
-- Streams of two messages on a channel: RUDPLink::recvData and RUDPLink::poll on concrete datagrams.
use anger.Common.{
  ℕ, ◌<◌, ◌≤◌, ◌≡◌, refl, true, false, List, [], ◌∷◌, ◌++◌, take, some, set, replicate, length,
  arith,
}
use anger.Common.Memory.{Memory, load}
use anger.Common.{◌||◌, ◌&&◌, ◌==◌, if◌then◌else◌}
use anger.Common.OrderedMap.{find}
use anger.Sequence.{is_sequence_newer}
use anger.Link.Receive.{contains, recv_data}
use anger.Link.State.{Channel, Link, new_channel, new_link}
use anger.Link.Delivery.{Message, Event, arrival, polled, run, arrive, datagram, packet}
use anger.Link.Delivery.Arrival.{arrive_queues, first_of}
use anger.Link.Delivery.InOrder.{packs}
use anger.Packet.{reliable_ordered}
use anger.Common.Word.{add32}
use anger.Link.State.{transmit}
use anger.Link.Send.{SendCallResult, add_to_send_queue}
use anger.Link.Delivery.Outbound.{add_to_send_queue-datagram}
use anger.Link.Delivery.Whole.{recv_data-arrive}
use anger.Link.Delivery.Stream.{arrives, run-prefix, run_everything}

abbrev noise : Memory
noise = λ i. 7

abbrev hello : Message
hello = record { data_id = 20; relay = true; bytes = 104 ∷ 105 ∷ [] }

abbrev bye : Message
bye = record { data_id = 21; relay = false; bytes = 98 ∷ [] }

abbrev both : List Message
both = hello ∷ bye ∷ []

-- The second datagram comes first, and the first one twice.
abbrev swapped : List Event
swapped = arrival 1 noise ∷ polled ∷ arrival 0 noise ∷ arrival 0 noise ∷ []

abbrev lossy : List Event
lossy = arrival 1 noise ∷ polled ∷ []

run_everything_example :
    (ch : Channel) × (run 5 3 both (swapped ++ replicate 2 polled) (new_channel 9, [])
      ≡ some (ch, packs 5 3 both))
unfolding arrives
run_everything_example =
    run_everything 5 3 both (omega arith) (omega arith) (omega arith) swapped 9 all
  where
    all : (k : ℕ) → k < 2 → arrives k swapped ≡ true
    all k l = ground arith

run-prefix_example :
    (ch : Channel) × (n : ℕ) × (n ≤ 2)
    × (run 5 3 both lossy (new_channel 9, []) ≡ some (ch, take n (packs 5 3 both)))
run-prefix_example = run-prefix 5 3 both (omega arith) (omega arith) (omega arith) lossy 9

arrive_queues_example :
    (ch' : Channel) × (arrive 5 3 noise (datagram 5 3 1 bye) (new_channel 9) ≡ some ch')
    × ((j : ℕ) → contains j ch'.ack_queue ≡ (contains j (new_channel 9).ack_queue || (j == 1)))
    × ((j : ℕ)
        → find j ch'.recv_queue_reliable_order ≡ (
            if (j == 1) && is_sequence_newer 1 (new_channel 9).recv_seq_reliable
            then first_of (find 1 (new_channel 9).recv_queue_reliable_order) (packet 5 3 bye, 1)
            else find j (new_channel 9).recv_queue_reliable_order))
arrive_queues_example =
    arrive_queues 5 3 1 bye noise (new_channel 9) (omega arith) (omega arith) (omega arith)

abbrev fresh_link : Link
fresh_link = new_link 5 9 0

recv_data-arrive_example :
    (ch' : Channel) × (arrive 5 3 noise (datagram 5 3 1 bye) (new_channel 9) ≡ some ch')
    × (recv_data 40 (load noise (datagram 5 3 1 bye)) (length (datagram 5 3 1 bye)) fresh_link
        ≡ some (record fresh_link { channels = set fresh_link.channels 3 ch' }, []))
unfolding new_link
recv_data-arrive_example =
    recv_data-arrive 40 5 3 1 bye noise fresh_link (new_channel 9) (omega arith) (omega arith)
      (omega arith) refl refl

add_to_send_queue-datagram_example :
    add_to_send_queue 21 (98 ∷ []) reliable_ordered 3 false fresh_link
    ≡ some (record {
      result = SendCallResult.succes;
      trace = some (0, 1);
      link = record fresh_link {
        channels = set fresh_link.channels 3 (record (new_channel 9) {
          send_seq_reliable = add32 0 1;
          retransmit_queue_reliable = datagram 5 3 0 bye ∷ [];
        });
      };
      effects = transmit (datagram 5 3 0 bye) ∷ [];
    })
unfolding new_link new_channel
add_to_send_queue-datagram_example =
    add_to_send_queue-datagram fresh_link 3 (new_channel 9) bye refl refl (omega arith)
