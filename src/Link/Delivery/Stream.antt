-- ===== src/Link/Delivery/Stream.antt =====
-- In whatever order the datagrams of a stream arrive, lost, late or more than once, the game thread
-- gets its messages in their order (RUDPLink::recvData and RUDPLink::poll).
use anger.Common.{
  ℕ, zero, suc, ◌+◌, ◌<◌, ◌≤◌, ◌≡◌, inl, inr, refl, ap, ◌∙◌, Bool, true, false, List, [], ◌∷◌, ◌++◌,
  some, length, take, replicate, if◌then◌else◌, ◌==◌, arith, Option-cases, Bool-cases, length-map,
  take-length,
}
use anger.Common.Word.{u32_mod}
use anger.Packet.{Packet}
use anger.Sequence.{half_range}
use anger.Link.State.{Channel, new_channel}
use anger.Link.Delivery.{Message, packet, Event, arrival, polled, View, step, run}
use anger.Link.Delivery.InOrder.{
  also, packs, IsInOrder, new_IsInOrder, step-IsInOrder, poll-IsInOrder,
}

-- The numbers seen after some events.
seen_after : List Event → (ℕ → Bool) → ℕ → Bool
seen_after [] seen = seen
seen_after (arrival k stale ∷ es) seen = seen_after es (also k seen)
seen_after (polled ∷ es) seen = seen_after es seen

-- The datagram of number `k` is among what arrives.
unfoldable pub arrives : ℕ → List Event → Bool
arrives k [] = false
arrives k (arrival j stale ∷ es) = if k == j then true else arrives k es
arrives k (polled ∷ es) = arrives k es

seen_after_keeps :
    (k : ℕ) (es : List Event) (seen : ℕ → Bool) → seen k ≡ true → seen_after es seen k ≡ true
unfolding seen_after
seen_after_keeps k [] seen h = h
seen_after_keeps k (arrival j stale ∷ es) seen h =
    seen_after_keeps k es (also j seen) (ground arith)
seen_after_keeps k (polled ∷ es) seen h = seen_after_keeps k es seen h

seen_of_arrives :
    (k : ℕ) (es : List Event) (seen : ℕ → Bool) → arrives k es ≡ true → seen_after es seen k ≡ true
unfolding seen_after arrives
seen_of_arrives k [] seen h = cc
seen_of_arrives k (arrival j stale ∷ es) seen h = elim (Bool-cases (k == j)) [
  | inl e ↦ seen_after_keeps k es (also j seen) (rw e refl)
  | inr e ↦ seen_of_arrives k es (also j seen) (rw e at h)
]
seen_of_arrives k (polled ∷ es) seen h = seen_of_arrives k es seen h

module _ (link_id c : ℕ) (sent : List Message) where
  run-cons :
      (e : Event) (es : List Event) (v : View) {v' : View}
      → step link_id c sent e v ≡ some v'
      → run link_id c sent (e ∷ es) v ≡ run link_id c sent es v'
  unfolding run
  run-cons e es v h = rw (h, run) refl

  run-append :
      (es fs : List Event) (v : View) {v' : View}
      → run link_id c sent es v ≡ some v'
      → run link_id c sent (es ++ fs) v ≡ run link_id c sent fs v'
  unfolding run
  run-append [] fs v h = ground (arith, h)
  run-append (e ∷ es) fs v {v'} h = elim (Option-cases (step link_id c sent e v)) [
    | inl q ↦ absurd (cc (rw (q, run) at h))
    | inr (w, q) ↦ rw (q, run) (run-append es fs w {v' = v'} (rw (q, run) at h))
  ]

  module _ (link_ok : link_id < u32_mod) (channel_ok : c < 8)
      (short : length sent ≤ half_range) where
    run-IsInOrder :
        (es : List Event) (seen : ℕ → Bool) (ch : Channel) (del : List Packet)
        → IsInOrder link_id c sent seen ch del
        → (ch' : Channel) × (del' : List Packet) × (run link_id c sent es (ch, del)
            ≡ some (ch', del'))
          × IsInOrder link_id c sent (seen_after es seen) ch' del'
    unfolding run seen_after
    run-IsInOrder [] seen ch del v = (ch, del, refl, v)
    run-IsInOrder (arrival k stale ∷ es) seen ch del v =
        let (ch1, e, v1) =
          step-IsInOrder link_id c sent link_ok channel_ok short seen ch del k stale v in
        let (ch2, del2, r, v2) = run-IsInOrder es (also k seen) ch1 del v1 in
        (ch2, del2, run-cons (arrival k stale) es (ch, del) e ∙ r, v2)
    run-IsInOrder (polled ∷ es) seen ch del v =
        let (ch1, del1, e, v1, _, _) =
          poll-IsInOrder link_id c sent link_ok channel_ok short seen ch del v in
        let (ch2, del2, r, v2) = run-IsInOrder es seen ch1 del1 v1 in
        (ch2, del2, run-cons polled es (ch, del) e ∙ r, v2)

    -- While all datagrams are in, each poll gives one message more, to the last.
    drain-IsInOrder :
        (n : ℕ) (seen : ℕ → Bool) (ch : Channel) (del : List Packet)
        → ((k : ℕ) → k < length sent → seen k ≡ true)
        → length sent ≤ length del + n
        → IsInOrder link_id c sent seen ch del
        → (ch' : Channel) × (run link_id c sent (replicate n polled) (ch, del)
            ≡ some (ch', packs link_id c sent))
    unfolding run
    drain-IsInOrder zero seen ch del all l v = (ch, ap (λ d. some (ch, d)) everything)
      where
        everything : del ≡ packs link_id c sent
        everything =
            v.prefix
            ∙ ap (λ k. take k (packs link_id c sent))
                (omega (arith, v.upto, length-map sent (packet link_id c)))
            ∙ take-length (packs link_id c sent)
    drain-IsInOrder (suc n) seen ch del all l v =
        let (ch1, del1, e, v1, more, less) =
          poll-IsInOrder link_id c sent link_ok channel_ok short seen ch del v in
        let (ch2, r) = drain-IsInOrder n seen ch1 del1 all (enough del1 more less) v1 in
        (ch2, run-cons polled (replicate n polled) (ch, del) e ∙ r)
      where
        enough :
            (del1 : List Packet)
            → (seen (length del) ≡ true → length del < length sent → length del1 ≡ suc (length del))
            → length del ≤ length del1
            → length sent ≤ length del1 + n
        enough del1 more less = ground (arith, all (length del))

    -- Whatever arrives and whenever the game thread polls, it has got a beginning of the stream:
    -- no message is missing, changed, out of order or there twice. No step faults.
    pub run-prefix :
        (es : List Event) (stale : ℕ)
        → (ch : Channel) × (n : ℕ) × (n ≤ length sent)
          × (run link_id c sent es (new_channel stale, [])
              ≡ some (ch, take n (packs link_id c sent)))
    run-prefix es stale =
        let (ch, del, r, v) =
          run-IsInOrder es (λ k. false) (new_channel stale) []
            (new_IsInOrder link_id c sent stale) in
        (ch, length del, v.upto, r ∙ ap (λ d. some (ch, d)) v.prefix)

    -- Once every datagram has arrived, in any order and any number of times, polling as often as
    -- there are messages gives the whole stream.
    pub run_everything :
        (es : List Event) (stale : ℕ)
        → ((k : ℕ) → k < length sent → arrives k es ≡ true)
        → (ch : Channel) × (run link_id c sent
              (es ++ replicate (length sent) polled)
              (new_channel stale, [])
            ≡ some (ch, packs link_id c sent))
    run_everything es stale all =
        let (ch, del, r, v) =
          run-IsInOrder es (λ k. false) (new_channel stale) []
            (new_IsInOrder link_id c sent stale) in
        let (ch', r') =
          drain-IsInOrder (length sent) (seen_after es (λ k. false)) ch del
            (λ k l. seen_of_arrives k es (λ k. false) (all k l)) (omega arith) v in
        (ch', run-append es (replicate (length sent) polled) (new_channel stale, []) r ∙ r')
