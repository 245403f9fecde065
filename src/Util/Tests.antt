-- ===== src/Util/Tests.antt =====
-- Strings in buffers and byte order at concrete inputs.
use anger.Common.{Bool, ℕ, ◌+◌, ◌≡◌, refl, List, [], ◌∷◌, some, none, length, drop, arith}
use anger.Util.{
  htonl, Text, text_lt, append_string2, append_all, read_string, deserialize_map, buff_recv_size,
}
use anger.Util.Strings.{flat, IsMap, connect_data_round_trip}

swapped : htonl 0x01020304 ≡ 0x04030201
unfolding htonl
swapped = refl

-- A text that does not fit is cut, and that is reported.
cut_off : append_string2 3 (97 ∷ 98 ∷ 99 ∷ []) ≡ (97 ∷ 98 ∷ 0 ∷ [], Bool.false)
unfolding append_string2
cut_off = refl

-- A key with no value is refused.
no_value : deserialize_map (97 ∷ 0 ∷ []) ≡ none
unfolding deserialize_map
no_value = refl

abbrev pw : Text
pw = 112 ∷ 119 ∷ []

abbrev pairs : List (Text × Text)
pairs = (110 ∷ [], 120 ∷ 121 ∷ []) ∷ (110 ∷ 97 ∷ [], 122 ∷ []) ∷ []

pairs-IsMap : IsMap pairs
unfolding text_lt
pairs-IsMap = ((refl, tt), (tt, tt))

-- The first of two values for a key stays, and the keys are sorted.
inserted :
    deserialize_map (98 ∷ 0 ∷ 49 ∷ 0 ∷ 97 ∷ 0 ∷ 50 ∷ 0 ∷ 98 ∷ 0 ∷ 51 ∷ 0 ∷ [])
    ≡ some ((97 ∷ [], 50 ∷ []) ∷ (98 ∷ [], 49 ∷ []) ∷ [])
unfolding deserialize_map
inserted = refl

connect_data_round_trip_example :
    (bytes : List ℕ) × (append_all 2048 (pw ∷ flat pairs) ≡ some bytes)
    × (read_string buff_recv_size bytes ≡ some (pw, length pw + 1))
    × (deserialize_map (drop (length pw + 1) bytes) ≡ some pairs)
connect_data_round_trip_example =
    connect_data_round_trip 2048 pw pairs (omega arith) (omega arith) pairs-IsMap (omega arith)
