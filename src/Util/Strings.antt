-- ===== src/Util/Strings.antt =====
-- The additional data of a connect request, written by appendString2 and read by readString and
-- deserializeMap (GameConn/Util.cpp).
use mathlib.Core.Path.{subst}
use mathlib.Core.List.{append_assoc, append-nil}
use anger.Common.{
  ℕ, zero, suc, ◌+◌, ◌-◌, ◌<◌, ◌≤◌, ◌≡◌, ◌≢◌, refl, sym, ap, ◌∙◌, true, false, List, [], ◌∷◌, ◌++◌,
  some, length, drop, All, arith, length-append, drop-append,
}
use anger.Util.{
  Text, copy_string, append_string2, append_all, read_chars, read_string, next_string, text_lt,
  insert_text, TextMap, deserialize_pairs, deserialize_map, buff_recv_size,
}

-- A text that fits the reader's buffer and has no zero in it.
pub record IsText (text : Text) : Type 0 where
  pub no_zero : All (λ x. x ≢ 0) text
  pub short : length text < buff_recv_size

-- A text as it is sent.
abbrev pub terminated : Text → List ℕ
terminated text = text ++ (0 ∷ [])

abbrev pub encode : List Text → List ℕ
encode [] = []
encode (text ∷ texts) = text ++ (0 ∷ encode texts)

-- The keys and the values in their order.
abbrev pub flat : List (Text × Text) → List Text
flat [] = []
flat ((key, value) ∷ pairs) = key ∷ value ∷ flat pairs

copy_string_all :
    (room k : ℕ) (text : Text) → k + length text < room → copy_string room k text ≡ (text, true)
unfolding copy_string
copy_string_all room k [] h = refl
copy_string_all room k (x ∷ text) h = ground (arith, copy_string_all room (k + 1) text)

append_string2-terminated :
    (room : ℕ) (text : Text)
    → length text < room
    → append_string2 room text ≡ (terminated text, true)
unfolding append_string2
append_string2-terminated room text h = ground (arith, copy_string_all room 0 text)

-- Texts that fit are all written.
pub append_all-encode :
    (room : ℕ) (texts : List Text)
    → length (encode texts) ≤ room
    → append_all room texts ≡ some (encode texts)
unfolding append_all
append_all-encode room [] h = refl
append_all-encode room (text ∷ texts) h =
    rw
      (
        whole,
        whole,
        append_all-encode (room - length (terminated text)) texts
            (omega (arith, split, length-append text (0 ∷ []))),
        append_all,
      )
      (rw whole (ap some (append_assoc text (0 ∷ []) (encode texts))))
  where
    whole : append_string2 room text ≡ (terminated text, true)
    whole =
        append_string2-terminated room text (omega (arith, length-append text (0 ∷ encode texts)))

    split : length text + suc (length (encode texts)) ≤ room
    split = omega (arith, length-append text (0 ∷ encode texts))

read_chars-text :
    (room : ℕ) (text : Text) (rest : List ℕ)
    → All (λ x. x ≢ 0) text
    → length text < room
    → read_chars room (text ++ (0 ∷ rest)) ≡ text
unfolding read_chars
read_chars-text room [] rest a h = refl
read_chars-text room (x ∷ text) rest a h =
    ground (arith, a, read_chars-text (room - 1) text rest a.1)

-- A text is read up to its terminating zero.
pub read_string-text :
    (text : Text) (rest : List ℕ)
    → IsText text
    → read_string buff_recv_size (text ++ (0 ∷ rest)) ≡ some (text, length text + 1)
unfolding read_string
read_string-text text rest t = rw (read_chars-text buff_recv_size text rest t.no_zero t.short) refl

pub drop-terminated :
    (text : Text) (rest : List ℕ) → drop (length text + 1) (text ++ (0 ∷ rest)) ≡ rest
drop-terminated text rest =
    ap (λ k. drop k (text ++ (0 ∷ rest))) {y = length (terminated text)}
      (omega (arith, length-append text (0 ∷ [])))
    ∙ ap (drop (length (terminated text))) (sym (append_assoc text (0 ∷ []) rest))
    ∙ drop-append (terminated text) rest

next_string-text :
    (text : Text) (rest : List ℕ)
    → IsText text
    → next_string (text ++ (0 ∷ rest)) ≡ some (text, rest)
unfolding next_string
next_string-text text rest t = ground (
  arith,
  read_chars-text buff_recv_size text rest t.no_zero t.short,
  length-append text (0 ∷ rest),
  drop-terminated text rest,
)

abbrev pub ArePairs : List (Text × Text) → Type 0
ArePairs [] = Unit {0}
ArePairs ((key, value) ∷ pairs) = IsText key × IsText value × ArePairs pairs

-- A list that is a std::map: every key is less than all behind it.
abbrev pub AreAbove : Text → TextMap → Type 0
AreAbove k [] = Unit {0}
AreAbove k ((j, w) ∷ m) = (text_lt k j ≡ true) × AreAbove k m

abbrev pub IsMap : TextMap → Type 0
IsMap [] = Unit {0}
IsMap ((k, v) ∷ m) = AreAbove k m × IsMap m

text_lt_asym : (a b : Text) → text_lt a b ≡ true → text_lt b a ≡ false
unfolding text_lt
text_lt_asym [] [] h = refl
text_lt_asym [] (y ∷ b) h = refl
text_lt_asym (x ∷ a) [] h = cc
text_lt_asym (x ∷ a) (y ∷ b) h = ground (arith, text_lt_asym a b)

above_last :
    (j k v : Text) (front rest : TextMap)
    → AreAbove j (front ++ ((k, v) ∷ rest))
    → text_lt j k ≡ true
above_last j k v [] rest (h, a) = h
above_last j k v (x ∷ front) rest (h, a) = above_last j k v front rest a

-- The key that follows all others is inserted behind them.
insert_text-last :
    (k v : Text) (front rest : TextMap)
    → IsMap (front ++ ((k, v) ∷ rest))
    → insert_text k v front ≡ front ++ ((k, v) ∷ [])
unfolding insert_text
insert_text-last k v [] rest h = refl
insert_text-last k v ((j, w) ∷ front) rest (a, h) =
    let below = above_last j k v front rest a in
    rw (text_lt_asym j k below, below, insert_text-last k v front rest h) refl

deserialize_pairs-suc :
    (fuel : ℕ) (payload : List ℕ) (m : TextMap) {key value : Text} {rest rest' : List ℕ}
    → payload ≢ []
    → next_string payload ≡ some (key, rest)
    → next_string rest ≡ some (value, rest')
    → deserialize_pairs (suc fuel) payload m
      ≡ deserialize_pairs fuel rest' (insert_text key value m)
unfolding deserialize_pairs
deserialize_pairs-suc fuel [] m ne p q = absurd (ne refl)
deserialize_pairs-suc fuel (x ∷ payload) m ne p q = rw (p, q, deserialize_pairs) refl

ne_nil : (text : Text) (rest : List ℕ) → text ++ (0 ∷ rest) ≢ []
ne_nil [] rest e = cc
ne_nil (x ∷ text) rest e = cc

deserialize_pairs-encode :
    (fuel : ℕ) (pairs front : TextMap)
    → length pairs ≤ fuel
    → ArePairs pairs
    → IsMap (front ++ pairs)
    → deserialize_pairs fuel (encode (flat pairs)) front ≡ some (front ++ pairs)
deserialize_pairs-encode zero [] front h a o =
    unfold deserialize_pairs in ap some (sym (append-nil front))
deserialize_pairs-encode (suc fuel) [] front h a o =
    unfold deserialize_pairs in ap some (sym (append-nil front))
deserialize_pairs-encode zero (p ∷ pairs) front h a o = absurd (omega arith)
deserialize_pairs-encode (suc fuel) ((key, value) ∷ pairs) front h (k, v, a) o =
    deserialize_pairs-suc fuel (encode (flat ((key, value) ∷ pairs))) front (ne_nil key _)
      (next_string-text key (value ++ (0 ∷ encode (flat pairs))) k)
      (next_string-text value (encode (flat pairs)) v)
    ∙ ap (deserialize_pairs fuel (encode (flat pairs))) (insert_text-last key value front pairs o)
    ∙ deserialize_pairs-encode fuel pairs (front ++ ((key, value) ∷ [])) (omega arith) a
        (subst IsMap (sym moved) o)
    ∙ ap some moved
  where
    moved : (front ++ ((key, value) ∷ [])) ++ pairs ≡ front ++ ((key, value) ∷ pairs)
    moved = append_assoc front ((key, value) ∷ []) pairs

length-le-encode : (pairs : List (Text × Text)) → length pairs ≤ length (encode (flat pairs))
length-le-encode [] = omega arith
length-le-encode ((key, value) ∷ pairs) = omega (
  arith,
  length-append key (0 ∷ (value ++ (0 ∷ encode (flat pairs)))),
  length-append value (0 ∷ encode (flat pairs)),
  length-le-encode pairs,
)

pub deserialize_map-encode :
    (pairs : TextMap)
    → ArePairs pairs
    → IsMap pairs
    → deserialize_map (encode (flat pairs)) ≡ some pairs
unfolding deserialize_map
deserialize_map-encode pairs a o =
    deserialize_pairs-encode (length (encode (flat pairs))) pairs [] (length-le-encode pairs) a o

-- A password and the entries of a map of additional data, in the order of their different keys, if
-- they fit the send buffer, are all written, and the receiver reads back the password and then the
-- same map. The texts have no zero in them and are shorter than the receive buffer.
pub connect_data_round_trip :
    (room : ℕ) (pw : Text) (pairs : TextMap)
    → IsText pw
    → ArePairs pairs
    → IsMap pairs
    → length (encode (pw ∷ flat pairs)) ≤ room
    → (bytes : List ℕ) × (append_all room (pw ∷ flat pairs) ≡ some bytes)
      × (read_string buff_recv_size bytes ≡ some (pw, length pw + 1))
      × (deserialize_map (drop (length pw + 1) bytes) ≡ some pairs)
connect_data_round_trip room pw pairs t a o fit = (
  encode (pw ∷ flat pairs),
  append_all-encode room (pw ∷ flat pairs) fit,
  read_string-text pw (encode (flat pairs)) t,
  rw (drop-terminated pw (encode (flat pairs))) (deserialize_map-encode pairs a o),
)
