-- ===== src/Util.antt =====
-- Util (GameConn/Util.h, GameConn/Util.cpp): byte order, strings in buffers, and the map of
-- additional data that goes with a connect request.
pub mod ByteOrder
pub mod Strings
mod Tests
use anger.Common.{
  ℕ, zero, suc, ◌+◌, ◌-◌, ◌*◌, ◌/◌, ◌%◌, Bool, true, false, ◌&&◌, List, [], ◌∷◌, ◌++◌, Option, none,
  some, if◌then◌else◌, ◌==◌, ltb, leb, length, drop,
}

-- htonl on a little-endian machine. `&` with a mask of ones is `%`, a shift is `*` or `/`, and the
-- four parts, which have no bit in common, are added.
unfoldable pub htonl : ℕ → ℕ
htonl val =
    val % 256 * 16777216 + val / 16777216 + val / 65536 % 256 * 256 + val / 256 % 256 * 65536

-- htons
unfoldable pub htons : ℕ → ℕ
htons val = val % 256 * 256 + val / 256

-- The copying loop of appendString2: `room` is `dstSize`, `k` the characters copied. It gives the
-- characters that it copies, and whether it came to the end of the text.
unfoldable pub copy_string : ℕ → ℕ → List ℕ → List ℕ × Bool
copy_string room k [] = ([], true)
copy_string room k (x ∷ src) =
    let (copied, succes) = copy_string room (k + 1) src in
    if leb room (k + 1) then ([], false) else (x ∷ copied, succes)

-- appendString2: what is written to `dst`, and `bSucces`. A text is the list of its characters
-- before the terminating zero; `dstSize` becomes `room` less the bytes written.
unfoldable pub append_string2 : ℕ → List ℕ → List ℕ × Bool
unfolding copy_string
append_string2 room src =
    let (copied, succes) = copy_string room 0 src in
    (if ltb 0 room then copied ++ (0 ∷ []) else copied, succes)

-- The loop of readString: the characters that it copies, from `avail` bytes at `buffIn` with room
-- for `room` of them. A read behind the last byte finds no zero.
unfoldable pub read_chars : ℕ → List ℕ → List ℕ
read_chars room [] = []
read_chars room (x ∷ buff_in) =
    let rest = read_chars (room - 1) buff_in in
    if x == 0 then [] else if ltb 1 room then x ∷ rest else []

-- readString: the text, and the number of bytes read, its terminating zero included; `none` is -1.
unfoldable pub read_string : ℕ → List ℕ → Option (List ℕ × ℕ)
unfolding read_chars
read_string buff_size buff_in =
    let chars = read_chars buff_size buff_in in
    if ltb 0 buff_size then some (chars, length chars + 1) else none

-- ZERODELAY_BUFF_RECV_SIZE
abbrev pub buff_recv_size : ℕ
buff_recv_size = 3000

abbrev pub Text : Type 0
Text = List ℕ

-- `strcmp(a, b) == 0`, and `memcmp` of two buffers of one length.
unfoldable pub same_text : Text → Text → Bool
same_text [] [] = true
same_text [] (y ∷ ys) = false
same_text (x ∷ xs) [] = false
same_text (x ∷ xs) (y ∷ ys) = let rest = same_text xs ys in if x == y then rest else false

-- `a < b` of std::string, whose characters are compared as unsigned bytes.
unfoldable pub text_lt : Text → Text → Bool
text_lt [] [] = false
text_lt [] (y ∷ b) = true
text_lt (x ∷ a) [] = false
text_lt (x ∷ a) (y ∷ b) =
    let rest = text_lt a b in if ltb x y then true else if ltb y x then false else rest

-- `std::map<std::string, std::string>`: the entries in the order of their keys. An entry that is
-- there stays as it is when its key is inserted again.
abbrev pub TextMap : Type 0
TextMap = List (Text × Text)

unfoldable pub insert_text : Text → Text → TextMap → TextMap
unfolding text_lt
insert_text k v [] = (k, v) ∷ []
insert_text k v ((j, w) ∷ m) =
    let later = insert_text k v m in
    if text_lt k j then (k, v) ∷ (j, w) ∷ m else if text_lt j k then (j, w) ∷ later else (j, w) ∷ m

-- One text is read from the payload: the text and the payload behind it. It fails if more bytes
-- are read than there are.
unfoldable pub next_string : List ℕ → Option (Text × List ℕ)
unfolding read_string
next_string payload = elim (read_string buff_recv_size payload) [
  | none ↦ none
  | some (text, n) ↦ if ltb (length payload) n then none else some (text, drop n payload)
]

-- The loop of deserializeMap, on fuel, with the map so far.
unfoldable pub deserialize_pairs : ℕ → List ℕ → TextMap → Option TextMap
unfolding next_string insert_text
deserialize_pairs fuel [] m = some m
deserialize_pairs zero (x ∷ payload) m = none
deserialize_pairs (suc fuel) (x ∷ payload) m = elim (next_string (x ∷ payload)) [
  | none ↦ none
  | some (key, rest) ↦ elim (next_string rest) [
    | none ↦ none
    | some (value, rest') ↦ deserialize_pairs fuel rest' (insert_text key value m)
  ]
]

-- deserializeMap, into a map that is empty: each round takes at least two bytes.
unfoldable pub deserialize_map : List ℕ → Option TextMap
unfolding deserialize_pairs
deserialize_map payload = deserialize_pairs (length payload) payload []

-- The texts one after another, each with its terminating zero, in `room` bytes: what the calls of
-- appendString2 in Connection::sendConnectRequest write. `none` is the failure of a call.
unfoldable pub append_all : ℕ → List Text → Option (List ℕ)
append_all room [] = some []
append_all room (text ∷ texts) =
    let (written, succes) = append_string2 room text in
    let rest = append_all (room - length written) texts in
    elim succes [
      | false ↦ none
      | true ↦ elim rest [ none ↦ none | some bytes ↦ some (written ++ bytes) ]
    ]
