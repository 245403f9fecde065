-- ===== src/Reassembly/Tests.antt =====
-- Reassembly at concrete inputs.
use anger.Common.{
  ℕ, zero, suc, ◌≤◌, ◌≡◌, ◌≢◌, refl, Bool, true, false, List, [], ◌∷◌, some, none, arith, ◌==◌,
  if◌then◌else◌,
}
use anger.Common.Word.{add32}
use anger.Common.OrderedMap.{OrderedMap, find}
use anger.Packet.{Packet, reliable_ordered}
use anger.Reassembly.{seek_first, seek_last, is_first, is_last, try_reassemble_big_packet, complete}
use anger.Reassembly.Search.{Stopped, seek_Stopped}
use anger.Reassembly.Gather.{Arrived}
use anger.Reassembly.Complete.{try_reassemble_big_packet-complete}

-- A fragment with data id `id` and one byte.
abbrev piece_of : ℕ → Bool → Bool → ℕ → Packet
piece_of id first last byte = record {
  link_id = 1;
  payload = id ∷ byte ∷ [];
  channel = 0;
  relay = false;
  first_fragment = first;
  last_fragment = last;
  type = reliable_ordered;
}

abbrev two : OrderedMap Packet
two = (4, piece_of 30 true false 65) ∷ (5, piece_of 30 false true 66) ∷ []

abbrev pieces : ℕ → Packet
pieces k = if k == 0 then piece_of 30 true false 65 else piece_of 30 false true 66

abbrev bodies : ℕ → List ℕ
bodies k = (if k == 0 then 65 else 66) ∷ []

whole :
    try_reassemble_big_packet 5 two
    ≡ complete (record (piece_of 30 false false 65) { payload = 30 ∷ 65 ∷ 66 ∷ [] }) 4 5 []
unfolding try_reassemble_big_packet
whole = refl

-- The first fragment of an earlier message, with data id 20, waits in the map: the message that is
-- put together gets that data id.
wrong_id :
    try_reassemble_big_packet 5 ((1, piece_of 20 true false 60) ∷ two)
    ≡ complete
        (record (piece_of 20 false false 65) { payload = 20 ∷ 65 ∷ 66 ∷ [] })
        4
        5
        ((1, piece_of 20 true false 60) ∷ [])
unfolding try_reassemble_big_packet
wrong_id = refl

seek_Stopped_example :
    Stopped is_first two (seek_first 3 two 5) × Stopped is_last two (seek_last 3 two 5)
seek_Stopped_example = seek_Stopped two 5 (omega arith) (omega arith)

two-Arrived : Arrived two 4 1 pieces (λ k. 30) bodies
unfolding find add32
two-Arrived = record {
  begin_ok = omega arith;
  length_ok = omega arith;
  present = present;
  firsts = firsts;
  lasts = lasts;
  payloads = payloads;
}
  where
    present : (k : ℕ) → k ≤ 1 → find (add32 4 k) two ≡ some (pieces k)
    present zero h = refl
    present (suc zero) h = refl
    present (suc (suc k)) h = absurd (omega arith)

    firsts : (k : ℕ) → k ≤ 1 → (pieces k).first_fragment ≡ (k == 0)
    firsts zero h = refl
    firsts (suc zero) h = refl
    firsts (suc (suc k)) h = absurd (omega arith)

    lasts : (k : ℕ) → k ≤ 1 → (pieces k).last_fragment ≡ (k == 1)
    lasts zero h = refl
    lasts (suc zero) h = refl
    lasts (suc (suc k)) h = absurd (omega arith)

    payloads : (k : ℕ) → k ≤ 1 → (pieces k).payload ≡ 30 ∷ bodies k
    payloads zero h = refl
    payloads (suc zero) h = refl
    payloads (suc (suc k)) h = absurd (omega arith)

try_reassemble_big_packet-complete_example :
    (left : OrderedMap Packet) × (try_reassemble_big_packet (add32 4 1) two
      ≡ complete
          (record (piece_of 30 false false 65) { payload = 30 ∷ 65 ∷ 66 ∷ [] })
          4
          (add32 4 1)
          left)
    × ((j : ℕ) → j ≤ 1 → find (add32 4 j) left ≡ none)
    × ((j : ℕ) → ((l : ℕ) → l ≤ 1 → j ≢ add32 4 l) → find j left ≡ find j two)
try_reassemble_big_packet-complete_example =
    try_reassemble_big_packet-complete two 4 1 pieces (λ k. 30) bodies two-Arrived 1 4
      (piece_of 30 true false 65) ((5, piece_of 30 false true 66) ∷ []) 30 (65 ∷ []) (omega arith)
      refl refl
