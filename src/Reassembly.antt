-- ===== src/Reassembly.antt =====
-- Putting a fragmented message together again: tryReassembleBigPacket and defragmentPacket of
-- GameConn/RUDPLink.cpp, over the map of the fragments that have arrived.
pub mod Search
pub mod Gather
pub mod Complete
mod Tests
use anger.Common.{
  ℕ, zero, suc, ◌+◌, Bool, true, false, ◌&&◌, List, [], ◌∷◌, ◌++◌, Option, none, some, length,
  if◌then◌else◌,
}
use anger.Common.Word.{add32, sub32}
use anger.Common.OrderedMap.{OrderedMap, find, erase}
use anger.Packet.{Packet}

-- The two loops of tryReassembleBigPacket, on fuel: back to the first fragment of the message,
-- and on to its last one.
unfoldable pub seek_first : ℕ → OrderedMap Packet → ℕ → ℕ
unfolding sub32 find
seek_first zero m s = s
seek_first (suc fuel) m s = elim (find s m) [
  | none ↦ s
  | some p ↦ elim p.first_fragment [ true ↦ s | false ↦ seek_first fuel m (sub32 s 1) ]
]

unfoldable pub seek_last : ℕ → OrderedMap Packet → ℕ → ℕ
unfolding add32 find
seek_last zero m s = s
seek_last (suc fuel) m s = elim (find s m) [
  | none ↦ s
  | some p ↦ elim p.last_fragment [ true ↦ s | false ↦ seek_last fuel m (add32 s 1) ]
]

-- `fragments.count(s) && (fragments[s].flags & FirstFragmentBit) != 0`, and the same for the last.
unfoldable pub is_first : ℕ → OrderedMap Packet → Bool
unfolding find
is_first s m = elim (find s m) [ none ↦ false | some p ↦ p.first_fragment ]

unfoldable pub is_last : ℕ → OrderedMap Packet → Bool
unfolding find
is_last s m = elim (find s m) [ none ↦ false | some p ↦ p.last_fragment ]

prepend : List ℕ → Option (List ℕ × OrderedMap Packet) → Option (List ℕ × OrderedMap Packet)
prepend body none = none
prepend body (some (bodies, m)) = some (body ++ bodies, m)

-- The copying loop of defragmentPacket, for the rounds that are left: the bytes behind the data id
-- of each fragment; the fragment leaves the map. `none` is a fault of the source: a fragment that
-- is not there, or one that is shorter than its data id.
unfoldable pub gather : ℕ → ℕ → OrderedMap Packet → Option (List ℕ × OrderedMap Packet)
unfolding add32 find erase prepend
gather zero cur m = some ([], m)
gather (suc rounds) cur m = elim (find cur m) [
  | none ↦ none
  | some p ↦ elim p.payload [
    | [] ↦ none
    | id ∷ body ↦ prepend body (gather rounds (add32 cur 1) (erase cur m))
  ]
]

pub data Reassembled : Type 0 where
  incomplete : Reassembled
  complete : Packet → ℕ → ℕ → OrderedMap Packet → Reassembled
  fault : Reassembled

assembled : Packet → List ℕ → ℕ → ℕ → Option (List ℕ × OrderedMap Packet) → Reassembled
assembled p [] seq_begin seq_end r = fault
assembled p (id ∷ body) seq_begin seq_end none = fault
assembled p (id ∷ body) seq_begin seq_end (some (bodies, m)) =
    complete (record p { payload = id ∷ bodies; first_fragment = false; last_fragment = false })
      seq_begin seq_end m

-- defragmentPacket. The packet that is copied, and the data id, are those of the first entry of
-- the map, `fragments.begin()`. The loops stop when `curSeq` has come to `lastSeq + 1`.
unfoldable pub defragment_packet : ℕ → ℕ → OrderedMap Packet → Reassembled
unfolding gather sub32 assembled
defragment_packet seq_begin seq_end [] = fault
defragment_packet seq_begin seq_end ((k, p) ∷ m) =
    assembled p p.payload seq_begin seq_end
      (gather (sub32 (add32 seq_end 1) seq_begin) seq_begin ((k, p) ∷ m))

-- tryReassembleBigPacket. The fuel of a search is one more than the number of fragments.
unfoldable pub try_reassemble_big_packet : ℕ → OrderedMap Packet → Reassembled
unfolding seek_first seek_last is_first is_last defragment_packet
try_reassemble_big_packet seq m =
    let seq_begin = seek_first (suc (length m)) m seq in
    let seq_end = seek_last (suc (length m)) m seq in
    let whole = defragment_packet seq_begin seq_end m in
    if is_first seq_begin m then (if is_last seq_end m then whole else incomplete) else incomplete
