-- ===== src/Link/Delivery/Whole.antt =====
-- RUDPLink::recvData on a whole link, for a reliable ordered datagram.
use Prim.Native.Nat.{bit_and}
use anger.Common.{
  ℕ, zero, suc, ◌<◌, ◌≡◌, refl, ap, ◌∙◌, true, List, [], ◌∷◌, Option, some, length, get_elem?,
  get_elem?-lt, get_elem?-set_self, set, arith,
}
use anger.Common.Word.{u32_mod}
use anger.Common.Memory.{Memory, load, u32_at}
use anger.Packet.{reliable_ordered}
use anger.Wire.{deserialize_generic_hdr, deserialize_normal_hdr, NormalHdr}
use anger.Wire.Header.{deserialize-sent_datagram}
use anger.Link.State.{Channel, Link, on_channel}
use anger.Link.Receive.{
  add_ack, accept_reliable_ordered, receive_reliable_ordered, recv_typed, recv_data,
}
use anger.Link.Delivery.{Message, outgoing, datagram, packet, arrive}
use anger.Link.Delivery.Arrival.{arrive-enqueue, enqueue}

set-set : (xs : List Channel) (i : ℕ) (a b : Channel) → set (set xs i a) i b ≡ set xs i b
set-set [] i a b = refl
set-set (x ∷ xs) zero a b = refl
set-set (x ∷ xs) (suc i) a b = ap (λ ys. x ∷ ys) (set-set xs i a b)

on_channel_lem :
    (link : Link) (c : ℕ) (f : Channel → Option Channel) {ch ch' : Channel}
    → get_elem? link.channels c ≡ some ch
    → f ch ≡ some ch'
    → on_channel link c f ≡ some (record link { channels = set link.channels c ch' }, [])
unfolding on_channel
on_channel_lem link c f e h = ground (arith, e, h)

-- What recvData reads before it hands the datagram on.
channel_and_number :
    (buff : Memory) (raw_size : ℕ) (h : NormalHdr)
    → deserialize_normal_hdr buff raw_size ≡ some h
    → (bit_and (buff 5) 7 ≡ h.channel) × (u32_at buff 6 ≡ h.seq)
unfolding deserialize_normal_hdr
channel_and_number buff raw_size h e = ground arith

recv_typed-reliable_ordered :
    (link_id : ℕ) (buff : Memory) (raw_size : ℕ) (link : Link) (h : NormalHdr) (ch ch' : Channel)
    → deserialize_normal_hdr buff raw_size ≡ some h
    → get_elem? link.channels h.channel ≡ some ch
    → accept_reliable_ordered link_id buff raw_size h (add_ack h.seq ch) ≡ some ch'
    → recv_typed (some reliable_ordered) link_id buff raw_size link
      ≡ some (record link { channels = set link.channels h.channel ch' }, [])
unfolding recv_typed receive_reliable_ordered
recv_typed-reliable_ordered link_id buff raw_size link h ch ch' hdr e accepted =
    ground (arith, first, second)
  where
    middle : Link
    middle = record link { channels = set link.channels h.channel (add_ack h.seq ch) }

    first :
        on_channel link (bit_and (buff 5) 7) (λ x. some (add_ack (u32_at buff 6) x))
        ≡ some (middle, [])
    first =
        let (c, s) = channel_and_number buff raw_size h hdr in
        rw (c, s) (on_channel_lem link h.channel (λ x. some (add_ack h.seq x)) e refl)

    second :
        receive_reliable_ordered link_id buff raw_size middle
        ≡ some (record link { channels = set link.channels h.channel ch' }, [])
    second =
        rw (hdr, receive_reliable_ordered)
          (on_channel_lem middle h.channel (accept_reliable_ordered link_id buff raw_size h)
              (get_elem?-set_self link.channels h.channel (add_ack h.seq ch)
                (get_elem?-lt link.channels h.channel e))
              accepted
            ∙ ap (λ xs. some (record link { channels = xs }, []))
                (set-set link.channels h.channel (add_ack h.seq ch) ch'))

-- With no packet loss simulated, a datagram of a reliable message does to the channel that it names
-- what it does to that channel alone, whatever the link; no other channel and nothing else of the
-- link changes, and nothing is sent.
pub recv_data-arrive :
    (roll link_id c k : ℕ) (m : Message) (stale : Memory) (link : Link) (ch : Channel)
    → link_id < u32_mod
    → c < 8
    → k < u32_mod
    → link.packet_loss_percentage ≡ 0
    → get_elem? link.channels c ≡ some ch
    → (ch' : Channel) × (arrive link_id c stale (datagram link_id c k m) ch ≡ some ch')
      × (recv_data roll (load stale (datagram link_id c k m)) (length (datagram link_id c k m)) link
          ≡ some (record link { channels = set link.channels c ch' }, []))
unfolding recv_data arrive enqueue
recv_data-arrive roll link_id c k m stale link ch h hc hk no_loss e =
    (after, arrived, ground (arith, headers.0, no_loss, typed))
  where
    hdr : NormalHdr
    hdr = record {
      channel = c;
      relay = m.relay;
      seq = k;
      first_fragment = true;
      last_fragment = true;
    }

    headers :
        (deserialize_generic_hdr
            (load stale (datagram link_id c k m))
            (length (datagram link_id c k m))
          ≡ some (link_id, some reliable_ordered))
        × (deserialize_normal_hdr
              (load stale (datagram link_id c k m))
              (length (datagram link_id c k m))
            ≡ some hdr)
    headers =
        deserialize-sent_datagram (outgoing link_id c m) true true k m.bytes stale
          (record { link_ok = h; channel_ok = hc }) hk

    after : Channel
    after = enqueue k (packet link_id c m) (add_ack k ch)

    arrived : arrive link_id c stale (datagram link_id c k m) ch ≡ some after
    arrived = arrive-enqueue link_id c k m stale ch h hc hk

    typed :
        recv_typed
          (some reliable_ordered)
          link_id
          (load stale (datagram link_id c k m))
          (length (datagram link_id c k m))
          link
        ≡ some (record link { channels = set link.channels c after }, [])
    typed =
        recv_typed-reliable_ordered link_id (load stale (datagram link_id c k m))
          (length (datagram link_id c k m)) link hdr ch after headers.1 e
          (rw (headers.1, arrive) at arrived)
