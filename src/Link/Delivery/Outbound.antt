-- ===== src/Link/Delivery/Outbound.antt =====
-- RUDPLink::addToSendQueue for a reliable message that fits one datagram.
use anger.Common.{
  ℕ, zero, suc, ◌+◌, ◌≤◌, ◌≡◌, refl, ap, ◌∙◌, true, false, List, [], ◌∷◌, ◌++◌, some, length, take,
  drop, get_elem?, set, arith, take-min, drop-min,
}
use anger.Common.Word.{add32}
use anger.Packet.{reliable_ordered}
use anger.Wire.{
  Outgoing, fragment, set_last_bit, serialize_normal_packet, serialize_loop, mark_last,
}
use anger.Wire.Header.{sent_datagram}
use anger.Link.State.{Channel, Link, transmit}
use anger.Link.Send.{SendCallResult, stamp, next_seq, add_to_send_queue}
use anger.Link.Delivery.{Message, outgoing, datagram}

take_all : (n : ℕ) (xs : List ℕ) → length xs ≤ n → take n xs ≡ xs
take_all zero [] h = refl
take_all zero (x ∷ xs) h = absurd (omega arith)
take_all (suc n) [] h = refl
take_all (suc n) (x ∷ xs) h = ap (λ ys. x ∷ ys) (take_all n xs (omega arith))

drop_all : (n : ℕ) (xs : List ℕ) → length xs ≤ n → drop n xs ≡ []
drop_all zero [] h = refl
drop_all zero (x ∷ xs) h = absurd (omega arith)
drop_all (suc n) [] h = refl
drop_all (suc n) (x ∷ xs) h = drop_all n xs (omega arith)

serialize_loop_short :
    (f : ℕ) (o : Outgoing) (n : ℕ) (bytes : List ℕ)
    → length bytes ≤ n
    → serialize_loop (suc (suc f)) o n true bytes ≡ some (fragment o true bytes ∷ [])
unfolding serialize_loop
serialize_loop_short f o n bytes h =
    ground (arith, take-min n bytes ∙ take_all n bytes h, drop-min n bytes ∙ drop_all n bytes h)

serialize_short :
    (o : Outgoing) (n : ℕ) (bytes : List ℕ)
    → length bytes ≤ n
    → serialize_normal_packet o n bytes ≡ some (set_last_bit (fragment o true bytes) ∷ [])
unfolding mark_last serialize_normal_packet fragment
serialize_short o n bytes h =
    let two : length bytes + 2 ≡ suc (suc (length bytes)) = omega arith in
    rw (two, serialize_loop_short (length bytes) o n bytes h, serialize_normal_packet) refl

-- A reliable message that is no longer than a fragment, on a channel of a link that does not block
-- sends, is sent at once as the datagram with the next number of the channel, which also waits there
-- for its acknowledgement; the number goes up by one, and nothing else of the link changes.
pub add_to_send_queue-datagram :
    (link : Link) (c : ℕ) (ch : Channel) (m : Message)
    → link.block_new_sends ≡ false
    → get_elem? link.channels c ≡ some ch
    → length m.bytes ≤ link.fragment_size
    → let d = datagram link.link_id c ch.send_seq_reliable m in
      add_to_send_queue m.data_id m.bytes reliable_ordered c m.relay link
      ≡ some (record {
        result = SendCallResult.succes;
        trace = some (ch.send_seq_reliable, 1);
        link = record link {
          channels = set link.channels c (record ch {
            send_seq_reliable = add32 ch.send_seq_reliable 1;
            retransmit_queue_reliable = ch.retransmit_queue_reliable ++ (d ∷ []);
          });
        };
        effects = transmit d ∷ [];
      })
unfolding add_to_send_queue sent_datagram stamp next_seq
add_to_send_queue-datagram link c ch m open_sends e h =
    ground (arith, serialize_short (outgoing link.link_id c m) link.fragment_size m.bytes h)
