-- ===== src/Wire/Tests.antt =====
-- Datagrams at concrete inputs.
use anger.Common.{ℕ, ◌≡◌, ◌≢◌, refl, true, false, List, [], ◌∷◌, some, length, concat, arith}
use anger.Common.Memory.{Memory, load}
use anger.Packet.{reliable_ordered}
use anger.Wire.{Outgoing, serialize_normal_packet, deserialize_generic_hdr, deserialize_normal_hdr}
use anger.Wire.Header.{sent_datagram, deserialize-sent_datagram}
use anger.Wire.Fragments.{fragments_of, Fill, serialize_normal_packet-pieces}

abbrev sample : Outgoing
sample = record { link_id = 77; type = reliable_ordered; data_id = 30; channel = 5; relay = true }

abbrev zeros : Memory
zeros i = 0

-- Five bytes in fragments of two.
three_fragments :
    serialize_normal_packet sample 2 (1 ∷ 2 ∷ 3 ∷ 4 ∷ 5 ∷ [])
    ≡ some (
        (77 ∷ 0 ∷ 0 ∷ 0 ∷ 0 ∷ 29 ∷ 0 ∷ 0 ∷ 0 ∷ 0 ∷ 30 ∷ 1 ∷ 2 ∷ [])
        ∷ (77 ∷ 0 ∷ 0 ∷ 0 ∷ 0 ∷ 13 ∷ 0 ∷ 0 ∷ 0 ∷ 0 ∷ 30 ∷ 3 ∷ 4 ∷ [])
        ∷ (77 ∷ 0 ∷ 0 ∷ 0 ∷ 0 ∷ 45 ∷ 0 ∷ 0 ∷ 0 ∷ 0 ∷ 30 ∷ 5 ∷ [])
        ∷ [])
unfolding serialize_normal_packet
three_fragments = refl

deserialize-sent_datagram_example :
    let d = sent_datagram sample true false 258 (9 ∷ 8 ∷ []) in
    (deserialize_generic_hdr (load zeros d) (length d) ≡ some (77, some reliable_ordered))
    × (deserialize_normal_hdr (load zeros d) (length d)
        ≡ some (record {
          channel = 5;
          relay = true;
          seq = 258;
          first_fragment = true;
          last_fragment = false;
        }))
deserialize-sent_datagram_example =
    deserialize-sent_datagram sample true false 258 (9 ∷ 8 ∷ []) zeros
      (record { link_ok = omega arith; channel_ok = omega arith }) (omega arith)

serialize_normal_packet-pieces_example :
    (cs : List (List ℕ)) × (serialize_normal_packet sample 2 (1 ∷ 2 ∷ 3 ∷ [])
      ≡ some (fragments_of sample true cs))
    × (concat cs ≡ 1 ∷ 2 ∷ 3 ∷ [])
    × Fill 2 cs
    × (cs ≢ [])
serialize_normal_packet-pieces_example =
    serialize_normal_packet-pieces sample 2 (1 ∷ 2 ∷ 3 ∷ []) (omega arith)
