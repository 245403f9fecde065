-- ===== src/Link/Delivery/InOrder.antt =====
-- What holds of a channel while the datagrams of a stream arrive in any order and the game thread
-- polls, and that both keep it (RUDPLink::receiveReliableOrdered and RUDPLink::poll).
use anger.Common.{
  ℕ, suc, ◌<◌, ◌≤◌, ◌≡◌, ◌≢◌, inl, inr, refl, ap, ◌∙◌, Bool, true, false, List, [], ◌∷◌, ◌++◌, map,
  none, some, length, take, get_elem?, if◌then◌else◌, ◌==◌, arith, Option-cases, length-map,
  length-append, take-suc, get_elem?-lt, get_elem?-some, get_elem?-map,
}
use anger.Common.Word.{u32_mod, add32, add32_small}
use anger.Common.Memory.{Memory}
use anger.Common.OrderedMap.{OrderedMap, find, erase, find-insert, find-erase}
use anger.Packet.{Packet}
use anger.Sequence.{is_sequence_newer, is_sequence_newer_small, half_range}
use anger.Link.State.{Channel, new_channel}
use anger.Link.Receive.{add_ack}
use anger.Link.Poll.{poll_reliable}
use anger.Link.Delivery.{Message, packet, arrival, polled, step}
use anger.Link.Delivery.Arrival.{arrive-enqueue, enqueue}

-- Acknowledging leaves the receive queue alone.
add_ack_frame :
    (k : ℕ) (ch : Channel)
    → ((add_ack k ch).recv_queue_reliable_order ≡ ch.recv_queue_reliable_order)
      × ((add_ack k ch).recv_seq_reliable ≡ ch.recv_seq_reliable)
unfolding add_ack
add_ack_frame k ch = ground arith

find-enqueue :
    (j k : ℕ) (p : Packet) (ch : Channel)
    → find j (enqueue k p ch).recv_queue_reliable_order ≡ (
        if is_sequence_newer k ch.recv_seq_reliable
        then (if j == k
            then (elim (find k ch.recv_queue_reliable_order) [
              | none ↦ some (p, 1)
              | some w ↦ some w
            ])
            else find j ch.recv_queue_reliable_order)
        else find j ch.recv_queue_reliable_order)
unfolding enqueue
find-enqueue j k p ch = ground (arith, find-insert k j (p, 1) ch.recv_queue_reliable_order)

enqueue_next :
    (k : ℕ) (p : Packet) (ch : Channel) → (enqueue k p ch).recv_seq_reliable ≡ ch.recv_seq_reliable
unfolding enqueue
enqueue_next k p ch = ground arith

-- One number more has been seen.
abbrev pub also : ℕ → (ℕ → Bool) → ℕ → Bool
also k seen j = if j == k then true else seen j

module _ (link_id c : ℕ) (sent : List Message) where
  abbrev pub packs : List Packet
  packs = map (packet link_id c) sent

  -- What holds of a channel and the packets it has delivered, when the datagrams of the numbers in
  -- `seen` have arrived.
  pub record IsInOrder (seen : ℕ → Bool) (ch : Channel) (del : List Packet) : Type 0 where
    pub next : ch.recv_seq_reliable ≡ length del
    pub upto : length del ≤ length sent
    pub prefix : del ≡ take (length del) packs
    pub entries :
        (s n : ℕ) (p : Packet)
        → find s ch.recv_queue_reliable_order ≡ some (p, n)
        → (n ≡ 1) × (get_elem? packs s ≡ some p)
    pub waiting :
        (k : ℕ)
        → seen k ≡ true
        → k < length sent
        → length del ≤ k
        → find k ch.recv_queue_reliable_order ≢ none

  pub new_IsInOrder : (stale : ℕ) → IsInOrder (λ k. false) (new_channel stale) []
  unfolding new_channel find
  new_IsInOrder stale = record {
    next = refl;
    upto = omega arith;
    prefix = refl;
    entries = λ s n p h. absurd (cc);
    waiting = λ k h l d. absurd (cc);
  }

  module _ (link_ok : link_id < u32_mod) (channel_ok : c < 8)
      (short : length sent ≤ half_range) where
    enqueue-IsInOrder :
        (seen : ℕ → Bool) (ch : Channel) (del : List Packet) (k : ℕ) (m : Message)
        → get_elem? sent k ≡ some m
        → IsInOrder seen ch del
        → IsInOrder (also k seen) (enqueue k (packet link_id c m) (add_ack k ch)) del
    enqueue-IsInOrder seen ch del k m e v = record {
      next = enqueue_next k pack acked ∙ frame.1 ∙ v.next;
      upto = v.upto;
      prefix = v.prefix;
      entries = λ s n p h. ground (
        arith,
        find-enqueue s k pack acked,
        frame,
        v.entries s n p,
        v.entries k n p,
        get_elem?-map (packet link_id c) sent k e,
      );
      waiting = λ j h l d. ground (
        arith,
        find-enqueue j k pack acked,
        frame,
        v.next,
        v.waiting j,
        v.upto,
        is_sequence_newer_small k (length del),
        get_elem?-lt sent k e,
      );
    }
      where
        pack : Packet
        pack = packet link_id c m

        acked : Channel
        acked = add_ack k ch

        frame :
            (acked.recv_queue_reliable_order ≡ ch.recv_queue_reliable_order)
            × (acked.recv_seq_reliable ≡ ch.recv_seq_reliable)
        frame = add_ack_frame k ch

    -- A number that is not of the stream brings nothing.
    also-IsInOrder :
        (seen : ℕ → Bool) (ch : Channel) (del : List Packet) (k : ℕ)
        → get_elem? sent k ≡ none
        → IsInOrder seen ch del
        → IsInOrder (also k seen) ch del
    also-IsInOrder seen ch del k e v = record {
      next = v.next;
      upto = v.upto;
      prefix = v.prefix;
      entries = v.entries;
      waiting = λ j h l d. ground (arith, v.waiting j, some_of l);
    }
      where
        some_of : {j : ℕ} → j < length sent → (m : Message) × (get_elem? sent j ≡ some m)
        some_of {j} l = get_elem?-some sent j l

    pub step-IsInOrder :
        (seen : ℕ → Bool) (ch : Channel) (del : List Packet) (k : ℕ) (stale : Memory)
        → IsInOrder seen ch del
        → (ch' : Channel) × (step link_id c sent (arrival k stale) (ch, del) ≡ some (ch', del))
          × IsInOrder (also k seen) ch' del
    unfolding step
    step-IsInOrder seen ch del k stale v = elim (Option-cases (get_elem? sent k)) [
      | inl e ↦ (ch, rw (e, step) refl, also-IsInOrder seen ch del k e v)
      | inr (m, e) ↦ (
        enqueue k (packet link_id c m) (add_ack k ch),
        rw
            (
              e,
              arrive-enqueue link_id c k m stale ch link_ok channel_ok
                  (omega (arith, get_elem?-lt sent k e)),
              step,
            )
            refl,
        enqueue-IsInOrder seen ch del k m e v,
      )
    ]

    -- The next message leaves the queue and is delivered.
    deliver-IsInOrder :
        (seen : ℕ → Bool) (ch : Channel) (del : List Packet) (p : Packet) (n : ℕ)
        → find ch.recv_seq_reliable ch.recv_queue_reliable_order ≡ some (p, n)
        → IsInOrder seen ch del
        → IsInOrder seen
            (record ch {
              recv_seq_reliable = add32 ch.recv_seq_reliable n;
              recv_queue_reliable_order = erase ch.recv_seq_reliable ch.recv_queue_reliable_order;
            })
            (del ++ (p ∷ []))
    deliver-IsInOrder seen ch del p n e v = record {
      next =
          rw (known.0, v.next)
            (add32_small (length del) 1 (omega (arith, inside)) ∙ omega (arith, one_more));
      upto = omega (arith, one_more, inside);
      prefix = rw one_more (
          rw (take-suc (length del) packs p (rw v.next at known.1))
            (ap (λ l. l ++ (p ∷ [])) v.prefix));
      entries =
          λ s k q h. v.entries s k q (ground (arith, h, find-erase ch.recv_seq_reliable s queue));
      waiting = λ k h l d.
          ground
            (arith, one_more, v.next, v.waiting k h l, find-erase ch.recv_seq_reliable k queue);
    }
      where
        queue : OrderedMap (Packet × ℕ)
        queue = ch.recv_queue_reliable_order

        known : (n ≡ 1) × (get_elem? packs ch.recv_seq_reliable ≡ some p)
        known = v.entries ch.recv_seq_reliable n p e

        one_more : length (del ++ (p ∷ [])) ≡ suc (length del)
        one_more = omega (arith, length-append del (p ∷ []))

        inside : length del < length sent
        inside = omega (
          arith,
          get_elem?-lt packs ch.recv_seq_reliable known.1,
          v.next,
          length-map sent (packet link_id c),
        )

    -- A poll gives the next message if it is there, and nothing else.
    pub poll-IsInOrder :
        (seen : ℕ → Bool) (ch : Channel) (del : List Packet)
        → IsInOrder seen ch del
        → (ch' : Channel) × (del' : List Packet) × (step link_id c sent polled (ch, del)
            ≡ some (ch', del'))
          × IsInOrder seen ch' del'
          × (seen (length del) ≡ true → length del < length sent → length del' ≡ suc (length del))
          × (length del ≤ length del')
    unfolding step
    poll-IsInOrder seen ch del v = elim (Option-cases (find ch.recv_seq_reliable queue)) [
      | inl e ↦ (
        ch,
        del,
        rw (e, poll_reliable) refl,
        v,
        λ s l. absurd (v.waiting (length del) s l (omega arith) (rw v.next at e)),
        omega arith,
      )
      | inr ((p, n), e) ↦ (
        record ch {
          recv_seq_reliable = add32 ch.recv_seq_reliable n;
          recv_queue_reliable_order = erase ch.recv_seq_reliable queue;
        },
        del ++ (p ∷ []),
        rw (e, poll_reliable) refl,
        deliver-IsInOrder seen ch del p n e v,
        λ s l. omega (arith, length-append del (p ∷ [])),
        omega (arith, length-append del (p ∷ [])),
      )
    ]
      where
        queue : OrderedMap (Packet × ℕ)
        queue = ch.recv_queue_reliable_order
