-- ===== src/Wire/Header.antt =====
-- Reading back the header of a datagram that serializeNormalPacket wrote.
use Prim.Native.Nat.{bit_and, bit_or}
use anger.Common.{
  ℕ, zero, suc, ◌<◌, ◌≤◌, ◌≡◌, refl, inl, inr, Bool-cases, Bool, true, false, not, ◌&&◌, List, ◌∷◌,
  ◌++◌, some, ◌==◌, if◌then◌else◌, length, arith,
}
use anger.Common.Word.{u32_mod}
use anger.Common.Memory.{Memory, u32_bytes, load, u32_of_bytes}
use anger.Packet.{HeaderPacketType, to_byte, of_byte}
use anger.Wire.{
  Outgoing, fragment, put_sequence, set_last_bit, flags_byte, has_bit, deserialize_generic_hdr,
  deserialize_normal_hdr,
}

-- Every number up to a bound passes a test.
each_to : (ℕ → Bool) → ℕ → Bool
each_to test zero = test 0
each_to test (suc last) = if test (suc last) then each_to test last else false

passes_each : (test : ℕ → Bool) (last c : ℕ) → c ≤ last → each_to test last ≡ true → test c ≡ true
unfolding each_to
passes_each test zero zero l e = e
passes_each test zero (suc c) l e = absurd (omega arith)
passes_each test (suc last) c l e = elim (Bool-cases (c == suc last)) [
  | inl q ↦ ground arith
  | inr q ↦ passes_each test last c (ground arith) (ground arith)
]

-- The flags byte as it is sent.
abbrev sent_flags : ℕ → Bool → Bool → Bool → ℕ
sent_flags channel relay first last =
    if last then bit_or (flags_byte channel relay first) 32 else flags_byte channel relay first

same : Bool → Bool → Bool
same true b = b
same false b = not b

reads_back : Bool → Bool → Bool → ℕ → Bool
unfolding same flags_byte has_bit
reads_back relay first last c =
    (bit_and (sent_flags c relay first last) 7 == c)
    && (same (has_bit (sent_flags c relay first last) 8) relay
        && (same (has_bit (sent_flags c relay first last) 16) first
            && same (has_bit (sent_flags c relay first last) 32) last))

reads_back_table : (relay first last : Bool) → each_to (reads_back relay first last) 7 ≡ true
unfolding each_to reads_back
reads_back_table true true true = refl
reads_back_table true true false = refl
reads_back_table true false true = refl
reads_back_table true false false = refl
reads_back_table false true true = refl
reads_back_table false true false = refl
reads_back_table false false true = refl
reads_back_table false false false = refl

reads_back_sound :
    (relay first last : Bool) (c : ℕ)
    → reads_back relay first last c ≡ true
    → let f = sent_flags c relay first last in
      (bit_and f 7 ≡ c) × (has_bit f 8 ≡ relay) × (has_bit f 16 ≡ first) × (has_bit f 32 ≡ last)
unfolding reads_back
reads_back_sound relay first last c h = ground arith

-- All eight channels and all settings of the three bits are read back.
flags_round_trip :
    (c : ℕ) (relay first last : Bool)
    → c < 8
    → let f = sent_flags c relay first last in
      (bit_and f 7 ≡ c) × (has_bit f 8 ≡ relay) × (has_bit f 16 ≡ first) × (has_bit f 32 ≡ last)
flags_round_trip c relay first last h = reads_back_sound relay first last c (
    passes_each (reads_back relay first last) 7 c (omega arith) (reads_back_table relay first last))

-- A datagram on the wire.
unfoldable pub sent_datagram : Outgoing → Bool → Bool → ℕ → List ℕ → List ℕ
unfolding put_sequence fragment set_last_bit
sent_datagram o first last seq payload =
    put_sequence seq
      (if last then set_last_bit (fragment o first payload) else fragment o first payload)

of_byte-to_byte : (t : HeaderPacketType) → of_byte (to_byte t) ≡ some t
unfolding of_byte
of_byte-to_byte HeaderPacketType.reliable_ordered = refl
of_byte-to_byte _ = refl

pub record Wellformed (o : Outgoing) : Type 0 where
  pub link_ok : o.link_id < u32_mod
  pub channel_ok : o.channel < 8

pub sent_datagram_bytes :
    (o : Outgoing) (first last : Bool) (seq : ℕ) (payload : List ℕ)
    → sent_datagram o first last seq payload
      ≡ u32_bytes o.link_id
        ++ (to_byte o.type
            ∷ sent_flags o.channel o.relay first last
            ∷ (u32_bytes seq ++ (o.data_id ∷ payload)))
unfolding sent_datagram
sent_datagram_bytes o first true seq payload = refl
sent_datagram_bytes o first false seq payload = refl

-- The receiver reads the link, the type, the channel, the three bits and the sequence number
-- that were sent.
pub deserialize-sent_datagram :
    (o : Outgoing) (first last : Bool) (seq : ℕ) (payload : List ℕ) (stale : Memory)
    → Wellformed o
    → seq < u32_mod
    → let d = sent_datagram o first last seq payload in
      (deserialize_generic_hdr (load stale d) (length d) ≡ some (o.link_id, some o.type))
      × (deserialize_normal_hdr (load stale d) (length d)
          ≡ some (record {
            channel = o.channel;
            relay = o.relay;
            seq = seq;
            first_fragment = first;
            last_fragment = last;
          }))
unfolding load deserialize_generic_hdr deserialize_normal_hdr
deserialize-sent_datagram o first last seq payload stale w h =
    rw (sent_datagram_bytes o first last seq payload) (
      ground (arith, u32_of_bytes o.link_id w.link_ok, of_byte-to_byte o.type),
      ground
          (arith, u32_of_bytes seq h, flags_round_trip o.channel o.relay first last w.channel_ok),
    )
