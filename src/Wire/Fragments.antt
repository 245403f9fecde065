-- ===== src/Wire/Fragments.antt =====
-- What serializeNormalPacket (GameConn/RUDPLink.cpp) makes of a message.
use anger.Common.{
  ℕ, zero, suc, ◌+◌, ◌<◌, ◌≤◌, ◌≡◌, ◌≢◌, refl, ap, Bool, true, false, List, [], ◌∷◌, some, length,
  ltb, ◌||◌, take, drop, concat, arith, take-min, drop-min, take-append-drop, length-take,
  length-drop,
}
use anger.Wire.{
  Outgoing, fragment, set_last_bit, mark_last, serialize_loop, serialize_normal_packet, to_bit,
  cons_some,
}

-- The data in pieces of `n` bytes; the first piece is there also if it is empty.
chunks : ℕ → ℕ → Bool → List ℕ → List (List ℕ)
chunks zero n start rest = []
chunks (suc f) n true rest = take n rest ∷ chunks f n false (drop n rest)
chunks (suc f) n false [] = []
chunks (suc f) n false (x ∷ rest) = take n (x ∷ rest) ∷ chunks f n false (drop n (x ∷ rest))

unmarked : Outgoing → Bool → List (List ℕ) → List (List ℕ)
unmarked o start [] = []
unmarked o start (c ∷ cs) = fragment o start c ∷ unmarked o false cs

-- The fragments of the pieces: the first bit on the first, the last bit on the last.
unfoldable pub fragments_of : Outgoing → Bool → List (List ℕ) → List (List ℕ)
fragments_of o start [] = []
fragments_of o start (c ∷ []) = set_last_bit (fragment o start c) ∷ []
fragments_of o start (c ∷ d ∷ cs) = fragment o start c ∷ fragments_of o false (d ∷ cs)

mark_last-unmarked :
    (o : Outgoing) (start : Bool) (cs : List (List ℕ))
    → mark_last (unmarked o start cs) ≡ fragments_of o start cs
unfolding mark_last unmarked fragments_of
mark_last-unmarked o start [] = refl
mark_last-unmarked o start (c ∷ []) = refl
mark_last-unmarked o start (c ∷ d ∷ cs) =
    ap (◌∷◌ (fragment o start c)) (mark_last-unmarked o false (d ∷ cs))

serialize_loop-suc :
    (f : ℕ) (o : Outgoing) (n : ℕ) (start : Bool) (rest : List ℕ)
    → (ltb 0 (length rest) || start) ≡ true
    → serialize_loop (suc f) o n start rest
      ≡ cons_some (fragment o start (take n rest)) (serialize_loop f o n false (drop n rest))
unfolding serialize_loop
serialize_loop-suc f o n start rest e =
    rw (e, serialize_loop) (rw (drop-min n rest, take-min n rest) refl)

-- Enough fuel: the loop ends, with a fragment for each piece.
serialize_loop-chunks :
    (fuel : ℕ) (o : Outgoing) (n : ℕ) (start : Bool) (rest : List ℕ)
    → 0 < n
    → length rest + to_bit start < fuel
    → serialize_loop fuel o n start rest ≡ some (unmarked o start (chunks fuel n start rest))
unfolding chunks unmarked cons_some
serialize_loop-chunks zero o n start rest h k = absurd (omega arith)
serialize_loop-chunks (suc f) o n true rest h k =
    rw
      (
        serialize_loop-suc f o n true rest (ground arith),
        serialize_loop-chunks f o n false (drop n rest) h (omega (arith, length-drop n rest)),
      )
      refl
serialize_loop-chunks (suc f) o n false [] h k = unfold serialize_loop in refl
serialize_loop-chunks (suc f) o n false (x ∷ rest) h k =
    rw
      (
        serialize_loop-suc f o n false (x ∷ rest) (ground arith),
        serialize_loop-chunks f o n false (drop n (x ∷ rest)) h
            (omega (arith, length-drop n (x ∷ rest))),
      )
      refl

concat-chunks :
    (fuel n : ℕ) (start : Bool) (rest : List ℕ)
    → 0 < n
    → length rest + to_bit start < fuel
    → concat (chunks fuel n start rest) ≡ rest
unfolding chunks
concat-chunks zero n start rest h k = absurd (omega arith)
concat-chunks (suc f) n true rest h k =
    rw (concat-chunks f n false (drop n rest) h (omega (arith, length-drop n rest)))
      (take-append-drop n rest)
concat-chunks (suc f) n false [] h k = refl
concat-chunks (suc f) n false (x ∷ rest) h k =
    rw (concat-chunks f n false (drop n (x ∷ rest)) h (omega (arith, length-drop n (x ∷ rest))))
      (take-append-drop n (x ∷ rest))

-- Every piece fits in `n` bytes, and all but the last fill them.
abbrev pub Fill : ℕ → List (List ℕ) → Type 0
Fill n [] = Unit {0}
Fill n (c ∷ []) = length c ≤ n
Fill n (c ∷ d ∷ cs) = (length c ≡ n) × Fill n (d ∷ cs)

Fill-cons :
    (f n : ℕ) (c rest : List ℕ)
    → length c ≤ n
    → (rest ≢ [] → length c ≡ n)
    → Fill n (chunks f n false rest)
    → Fill n (c ∷ chunks f n false rest)
unfolding chunks
Fill-cons zero n c rest h full k = h
Fill-cons (suc f) n c [] h full k = h
Fill-cons (suc f) n c (x ∷ rest) h full k = (full (λ e. cc), k)

take_full : (n : ℕ) (xs : List ℕ) → drop n xs ≢ [] → length (take n xs) ≡ n
take_full zero xs h = refl
take_full (suc n) [] h = absurd (h refl)
take_full (suc n) (x ∷ xs) h = ap suc (take_full n xs h)

take_short : (n : ℕ) (xs : List ℕ) → length (take n xs) ≤ n
take_short n xs = omega (arith, length-take n xs)

Fill-chunks : (fuel n : ℕ) (start : Bool) (rest : List ℕ) → Fill n (chunks fuel n start rest)
unfolding chunks
Fill-chunks zero n start rest = tt
Fill-chunks (suc f) n true rest =
    Fill-cons f n (take n rest) (drop n rest) (take_short n rest) (take_full n rest)
      (Fill-chunks f n false (drop n rest))
Fill-chunks (suc f) n false [] = tt
Fill-chunks (suc f) n false (x ∷ rest) =
    Fill-cons f n (take n (x ∷ rest)) (drop n (x ∷ rest)) (take_short n (x ∷ rest))
      (take_full n (x ∷ rest)) (Fill-chunks f n false (drop n (x ∷ rest)))

chunks-ne-nil : (f n : ℕ) (rest : List ℕ) → chunks (suc f) n true rest ≢ []
unfolding chunks
chunks-ne-nil f n rest e = cc

-- With a positive fragment size the loop ends, and the datagrams are the fragments of pieces that
-- put together are the data; there is at least one piece, all but the last are of the fragment
-- size, and the last is no longer than that. The first bit is on the first datagram and the last
-- bit on the last.
pub serialize_normal_packet-pieces :
    (o : Outgoing) (fragment_size : ℕ) (bytes : List ℕ)
    → 0 < fragment_size
    → (cs : List (List ℕ)) × (serialize_normal_packet o fragment_size bytes
        ≡ some (fragments_of o true cs))
      × (concat cs ≡ bytes)
      × Fill fragment_size cs
      × (cs ≢ [])
unfolding serialize_normal_packet
serialize_normal_packet-pieces o n bytes h =
    let cs = chunks (suc (suc (length bytes))) n true bytes in
    let two : length bytes + 2 ≡ suc (suc (length bytes)) = omega arith in
    (
      cs,
      rw
          (
            two,
            serialize_loop-chunks (suc (suc (length bytes))) o n true bytes h (omega arith),
            serialize_normal_packet,
          )
          (ap some (mark_last-unmarked o true cs)),
      concat-chunks (suc (suc (length bytes))) n true bytes h (omega arith),
      Fill-chunks (suc (suc (length bytes))) n true bytes,
      chunks-ne-nil (suc (length bytes)) n bytes,
    )
