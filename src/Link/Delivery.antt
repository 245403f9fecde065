-- ===== src/Link/Delivery.antt =====
-- A channel's reliable ordered messages between two links: what RUDPLink::recvData and
-- RUDPLink::poll (GameConn/RUDPLink.cpp) make of the datagrams of a stream of unfragmented
-- messages, for any order of arrival.
pub mod Arrival
pub mod InOrder
pub mod Stream
pub mod Whole
pub mod Outbound
mod Tests
use anger.Common.{ℕ, Bool, true, false, List, [], ◌∷◌, ◌++◌, Option, none, some, get_elem?, length}
use anger.Common.Memory.{Memory, load}
use anger.Packet.{Packet, reliable_ordered}
use anger.Wire.{Outgoing, deserialize_normal_hdr}
use anger.Wire.Header.{sent_datagram}
use anger.Link.State.{Channel}
use anger.Link.Receive.{add_ack, accept_reliable_ordered}
use anger.Link.Poll.{poll_reliable}

-- A message of the stream.
pub record Message : Type 0 where
  pub data_id : ℕ
  pub relay : Bool
  pub bytes : List ℕ

-- The network brings the datagram of the `k`-th message, or the game thread polls.
pub data Event : Type 0 where
  arrival : ℕ → Memory → Event
  polled : Event

abbrev pub View : Type 0
View = Channel × List Packet

arrived_view : List Packet → Option Channel → Option View
arrived_view del none = none
arrived_view del (some ch) = some (ch, del)

-- A poll adds what it gives to the packets delivered so far.
poll_view : Channel → List Packet → Option (Packet × Channel) → View
poll_view ch del none = (ch, del)
poll_view ch del (some (pack, ch')) = (ch', del ++ (pack ∷ []))

module _ (link_id c : ℕ) where
  abbrev pub outgoing : Message → Outgoing
  outgoing m = record {
    link_id = link_id;
    type = reliable_ordered;
    data_id = m.data_id;
    channel = c;
    relay = m.relay;
  }

  -- The datagram with sequence number `k`.
  abbrev pub datagram : ℕ → Message → List ℕ
  datagram k m = sent_datagram (outgoing m) true true k m.bytes

  -- The packet that the game thread is to get.
  abbrev pub packet : Message → Packet
  packet m = record {
    link_id = link_id;
    payload = m.data_id ∷ m.bytes;
    channel = c;
    relay = m.relay;
    first_fragment = false;
    last_fragment = false;
    type = reliable_ordered;
  }

  -- What recvData does on the channel with a reliable ordered datagram: it is acknowledged, then
  -- received.
  unfoldable pub arrive : Memory → List ℕ → Channel → Option Channel
  unfolding load deserialize_normal_hdr add_ack accept_reliable_ordered
  arrive stale d ch = elim (deserialize_normal_hdr (load stale d) (length d)) [
    | none ↦ none
    | some h ↦ accept_reliable_ordered link_id (load stale d) (length d) h (add_ack h.seq ch)
  ]

  unfoldable pub step : List Message → Event → View → Option View
  unfolding arrive arrived_view poll_view poll_reliable
  step sent (arrival k stale) (ch, del) = elim (get_elem? sent k) [
    | none ↦ some (ch, del)
    | some m ↦ arrived_view del (arrive stale (datagram k m) ch)
  ]
  step sent polled (ch, del) = some (poll_view ch del (poll_reliable ch))

  unfoldable pub run : List Message → List Event → View → Option View
  unfolding step
  run sent [] v = some v
  run sent (e ∷ es) v = elim (step sent e v) [ none ↦ none | some v' ↦ run sent es v' ]
