-- ===== src/Link/Acknowledge.antt =====
-- Acknowledgements: RUDPLink::dispatchAckQueue on one side, RUDPLink::receiveAck and
-- isSequenceDelivered on the other (GameConn/RUDPLink.cpp).
mod Tests
use anger.Common.{
  ℕ, zero, suc, ◌+◌, ◌*◌, ◌/◌, ◌%◌, ◌<◌, ◌≤◌, ◌≡◌, ◌≢◌, refl, sym, ap, ◌∙◌, inl, inr, Bool, true,
  false, not, ◌&&◌, ◌||◌, List, [], ◌∷◌, ◌++◌, Option, none, some, length, drop, get_or, get_elem?,
  get_elem?-set_self, get_elem?-set_ne, get_elem?-lt, set, arith, if◌then◌else◌, ◌==◌, leb,
  Bool-cases,
}
use anger.Common.Word.{u32_mod, sub32}
use anger.Common.Memory.{Memory, load, u32_at, u32_bytes, u32_of_bytes}
use anger.Packet.{to_byte, ack}
use anger.Link.State.{Channel, Link, Effect, transmit, on_channel}
use anger.Link.Send.{sequence_of, is_queued, is_sequence_delivered}
use anger.Link.Receive.{contains, remove_acked, ack_loop, overflows, ack_rounds, receive_ack}
use anger.Link.Dispatch.{write_acks, ack_datagram}

unfoldable pub AreWords : List ℕ → Type 0
AreWords [] = zero ≡ zero
AreWords (s ∷ ss) = (s < u32_mod) × AreWords ss

-- The packets that wait for an acknowledgement have different numbers.
unfoldable pub AreDistinct : List (List ℕ) → Type 0
AreDistinct [] = zero ≡ zero
AreDistinct (d ∷ ds) = (is_queued (sequence_of d) ds ≡ false) × AreDistinct ds

words : List ℕ → List ℕ
words [] = []
words (s ∷ ss) = u32_bytes s ++ words ss

length-words : (ss : List ℕ) → length (words ss) ≡ length ss * 4
unfolding words
length-words [] = refl
length-words (s ∷ ss) = omega (arith, length-words ss)

write_acks-words :
    (size : ℕ) (ss : List ℕ) → size + length ss * 4 ≤ 2048 → write_acks size ss ≡ words ss
unfolding write_acks words
write_acks-words size [] h = refl
write_acks-words size (s ∷ []) h = ground arith
write_acks-words size (s ∷ t ∷ ss) h =
    ground (arith, write_acks-words (size + 4) (t ∷ ss) (omega arith))

remove_all : List ℕ → List (List ℕ) → List (List ℕ)
remove_all [] queue = queue
remove_all (s ∷ ss) queue = remove_all ss (remove_acked s queue)

-- What stands at an offset of a datagram, and what follows it.
at_drop :
    (d : List ℕ) (off x : ℕ) (rest : List ℕ)
    → drop off d ≡ x ∷ rest
    → ((v : ℕ) → get_or d off v ≡ x) × (drop (suc off) d ≡ rest)
at_drop [] zero x rest h = absurd (cc)
at_drop [] (suc off) x rest h = absurd (cc)
at_drop (y ∷ d) zero x rest h = (λ v. cc, cc)
at_drop (y ∷ d) (suc off) x rest h = at_drop d off x rest h

word_at_drop :
    (stale : Memory) (d : List ℕ) (off s : ℕ) (rest : List ℕ)
    → s < u32_mod
    → drop off d ≡ u32_bytes s ++ rest
    → (u32_at (load stale d) off ≡ s) × (drop (off + 4) d ≡ rest)
unfolding u32_at load
word_at_drop stale d off s rest l h =
    let (e0, r0) =
      at_drop d off (s % 256) (s / 256 % 256 ∷ s / 65536 % 256 ∷ s / 16777216 % 256 ∷ rest) h in
    let (e1, r1) =
      at_drop d (suc off) (s / 256 % 256) (s / 65536 % 256 ∷ s / 16777216 % 256 ∷ rest) r0 in
    let (e2, r2) = at_drop d (suc (suc off)) (s / 65536 % 256) (s / 16777216 % 256 ∷ rest) r1 in
    let (e3, r3) = at_drop d (suc (suc (suc off))) (s / 16777216 % 256) rest r2 in
    let one : off + 1 ≡ suc off = omega arith in
    let two : off + 2 ≡ suc (suc off) = omega arith in
    let three : off + 3 ≡ suc (suc (suc off)) = omega arith in
    let four : off + 4 ≡ suc (suc (suc (suc off))) = omega arith in
    (
      rw
          (
            one,
            two,
            three,
            e0 (stale off),
            e1 (stale (suc off)),
            e2 (stale (suc (suc off))),
            e3 (stale (suc (suc (suc off)))),
          )
          (u32_of_bytes s l),
      ap (λ k. drop k d) four ∙ r3,
    )

ack_loop-remove_all :
    (stale : Memory) (d ss : List ℕ) (off : ℕ) (queue : List (List ℕ))
    → AreWords ss
    → drop off d ≡ words ss
    → ack_loop (length ss) off (load stale d) queue ≡ remove_all ss queue
unfolding ack_loop words remove_all AreWords
ack_loop-remove_all stale d [] off queue w h = refl
ack_loop-remove_all stale d (s ∷ ss) off queue (l, w) h =
    let (e, r) = word_at_drop stale d off s (words ss) l h in
    rw (e, ack_loop) (ack_loop-remove_all stale d ss (off + 4) (remove_acked s queue) w r)

is_queued-remove_acked :
    (s t : ℕ) (queue : List (List ℕ))
    → AreDistinct queue
    → is_queued t (remove_acked s queue) ≡ (not (t == s) && is_queued t queue)
unfolding is_queued remove_acked AreDistinct
is_queued-remove_acked s t [] h = ground arith
is_queued-remove_acked s t (d ∷ queue) h = ground (arith, is_queued-remove_acked s t queue)

AreDistinct-remove_acked :
    (s : ℕ) (queue : List (List ℕ)) → AreDistinct queue → AreDistinct (remove_acked s queue)
unfolding remove_acked AreDistinct
AreDistinct-remove_acked s [] h = h
AreDistinct-remove_acked s (d ∷ queue) (f, h) = elim (Bool-cases (sequence_of d == s)) [
  | inl e ↦ rw e h
  | inr e ↦ rw e (
    is_queued-remove_acked s (sequence_of d) queue h ∙ ground (arith, f),
    AreDistinct-remove_acked s queue h,
  )
]

is_queued-remove_all :
    (ss : List ℕ) (t : ℕ) (queue : List (List ℕ))
    → AreDistinct queue
    → is_queued t (remove_all ss queue) ≡ (not (contains t ss) && is_queued t queue)
unfolding remove_all contains
is_queued-remove_all [] t queue h = refl
is_queued-remove_all (s ∷ ss) t queue h = ground (
  arith,
  is_queued-remove_all ss t (remove_acked s queue) (AreDistinct-remove_acked s queue h),
  is_queued-remove_acked s t queue h,
)

-- The ack packet of some acknowledgements.
abbrev packet : ℕ → ℕ → List ℕ → List ℕ
packet sender c acks =
    u32_bytes sender ++ (to_byte ack ∷ c ∷ (u32_bytes (length (words acks) / 4) ++ words acks))

count : (acks : List ℕ) → length (words acks) / 4 ≡ length acks
count acks = omega (arith, length-words acks)

ack_datagram-packet :
    (sender c : ℕ) (acks : List ℕ)
    → 0 < length acks
    → length acks ≤ 512
    → ack_datagram sender c (write_acks 0 acks) ≡ transmit (packet sender c acks) ∷ []
unfolding ack_datagram
ack_datagram-packet sender c acks some_acks fit =
    rw (write_acks-words 0 acks (omega arith), ack_datagram) (ground (arith, length-words acks))

-- What the channel that was acknowledged becomes.
abbrev acked : List ℕ → Channel → Channel
acked acks ch = record ch {
  retransmit_queue_reliable = remove_all acks ch.retransmit_queue_reliable;
}

receive_ack-packet :
    (link : Link) (c : ℕ) (ch : Channel) (acks : List ℕ) (sender : ℕ) (stale : Memory)
    → get_elem? link.channels c ≡ some ch
    → AreWords acks
    → length acks ≤ 512
    → receive_ack (load stale (packet sender c acks)) (length (packet sender c acks)) link
      ≡ some (record link { channels = set link.channels c (acked acks ch) }, [])
unfolding receive_ack load on_channel
receive_ack-packet link c ch acks sender stale e w fit = ground (arith, num, loop, long, e)
  where
    d : List ℕ
    d = packet sender c acks

    num : u32_at (load stale d) 6 ≡ length acks
    num =
        (word_at_drop stale d 6 (length acks) (words acks) (omega arith)
          (ap (λ n. u32_bytes n ++ words acks) (count acks))).0

    loop :
        ack_loop (length acks) 10 (load stale d) ch.retransmit_queue_reliable
        ≡ remove_all acks ch.retransmit_queue_reliable
    loop = ack_loop-remove_all stale d acks 10 ch.retransmit_queue_reliable w refl

    long : length d ≡ 10 + length acks * 4
    long = omega (arith, length-words acks)

-- The acknowledgements that a channel has queued, at most as many as fit one datagram, arrive at the
-- other end: isSequenceDelivered then holds of just the numbers that were acknowledged and those
-- that were not waiting, and the other channels are as they were.
pub receive_ack-ack_datagram :
    (link : Link) (c : ℕ) (ch : Channel) (acks : List ℕ) (sender : ℕ) (stale : Memory)
    → get_elem? link.channels c ≡ some ch
    → AreDistinct ch.retransmit_queue_reliable
    → AreWords acks
    → 0 < length acks
    → length acks ≤ 512
    → (d : List ℕ) × (link' : Link) × (ack_datagram sender c (write_acks 0 acks) ≡ transmit d ∷ [])
      × (receive_ack (load stale d) (length d) link ≡ some (link', []))
      × ((t : ℕ)
          → is_sequence_delivered t c link'
            ≡ some (contains t acks || not (is_queued t ch.retransmit_queue_reliable)))
      × ((i : ℕ) → i ≢ c → get_elem? link'.channels i ≡ get_elem? link.channels i)
unfolding is_sequence_delivered
receive_ack-ack_datagram link c ch acks sender stale e distinct w some_acks fit = (
  packet sender c acks,
  record link { channels = set link.channels c (acked acks ch) },
  ack_datagram-packet sender c acks some_acks fit,
  receive_ack-packet link c ch acks sender stale e w fit,
  λ t. ground (
    arith,
    get_elem?-set_self link.channels c (acked acks ch) (get_elem?-lt link.channels c e),
    is_queued-remove_all acks t ch.retransmit_queue_reliable distinct,
  ),
  λ i ne. get_elem?-set_ne link.channels (acked acks ch) (λ q. ne (sym q)),
)
