-- ===== src/Reassembly/Complete.antt =====
-- A message whose fragments have all arrived is put together by tryReassembleBigPacket
-- (GameConn/RUDPLink.cpp), whichever of them came last.
use anger.Common.{
  ℕ, zero, suc, ◌+◌, ◌-◌, ◌<◌, ◌≤◌, ◌≡◌, ◌≢◌, refl, ap, ◌∙◌, true, false, List, ◌∷◌, Option, none,
  some, length, arith,
}
use anger.Common.Word.{add32, sub32, add32_zero, add32-suc, sub32-add32-suc, sub32-add32_span}
use anger.Common.OrderedMap.{OrderedMap, find}
use anger.Packet.{Packet}
use anger.Reassembly.{
  seek_first, seek_last, is_first, is_last, gather, complete, defragment_packet,
  try_reassemble_big_packet, assembled,
}
use anger.Reassembly.Gather.{
  Arrived, collect, erase_run, gather-collect, lt-length_of_present, find-erase_run_in,
  find-erase_run_out,
}

assembled-some :
    (p : Packet) (ps : List ℕ) (b e : ℕ) (r : Option (List ℕ × OrderedMap Packet)) {id : ℕ}
    {tail bodies : List ℕ} {left : OrderedMap Packet}
    → ps ≡ id ∷ tail
    → r ≡ some (bodies, left)
    → assembled p ps b e r
      ≡ complete
          (record p { payload = id ∷ bodies; first_fragment = false; last_fragment = false })
          b
          e
          left
unfolding assembled
assembled-some p ps b e r h g = rw (h, g) refl

defragment_packet-cons :
    (b e k : ℕ) (p : Packet) (rest : OrderedMap Packet) {id : ℕ} {tail bodies : List ℕ}
    {left : OrderedMap Packet}
    → p.payload ≡ id ∷ tail
    → gather (sub32 (add32 e 1) b) b ((k, p) ∷ rest) ≡ some (bodies, left)
    → defragment_packet b e ((k, p) ∷ rest)
      ≡ complete
          (record p { payload = id ∷ bodies; first_fragment = false; last_fragment = false })
          b
          e
          left
unfolding defragment_packet
defragment_packet-cons b e k p rest q g =
    assembled-some p p.payload b e (gather (sub32 (add32 e 1) b) b ((k, p) ∷ rest)) q g

module _ (m : OrderedMap Packet) (b n : ℕ) (piece : ℕ → Packet) (ids : ℕ → ℕ) (body : ℕ → List ℕ)
    (a : Arrived m b n piece ids body) where
  seek_first-add32 : (i fuel : ℕ) → i ≤ n → i < fuel → seek_first fuel m (add32 b i) ≡ b
  unfolding seek_first
  seek_first-add32 i zero h l = absurd (omega arith)
  seek_first-add32 zero (suc f) h l =
      rw (a.present 0 h, a.firsts 0 h, seek_first) (add32_zero b a.begin_ok)
  seek_first-add32 (suc i) (suc f) h l =
      rw
        (
          a.present (suc i) h,
          not_first,
          sub32-add32-suc b i a.begin_ok (omega (arith, a.length_ok)),
          seek_first,
        )
        (seek_first-add32 i f (omega arith) (omega arith))
    where
      not_first : (piece (suc i)).first_fragment ≡ false
      not_first = ground (arith, a.firsts (suc i))

  seek_last-add32 : (d i fuel : ℕ) → i + d ≡ n → d < fuel → seek_last fuel m (add32 b i) ≡ add32 b n
  unfolding seek_last
  seek_last-add32 d i zero e l = absurd (omega arith)
  seek_last-add32 zero i (suc f) e l =
      rw (a.present i (omega arith), last, seek_last) (ap (add32 b) (omega arith))
    where
      last : (piece i).last_fragment ≡ true
      last = ground (arith, a.lasts i)
  seek_last-add32 (suc d) i (suc f) e l =
      rw (a.present i (omega arith), not_last, add32-suc b i, seek_last)
        (seek_last-add32 d (suc i) f (omega arith) (omega arith))
    where
      not_last : (piece i).last_fragment ≡ false
      not_last = ground (arith, a.lasts i)

  first_found : is_first b m ≡ true
  unfolding is_first
  first_found =
      ground (arith, a.present 0 (omega arith), a.firsts 0 (omega arith), add32_zero b a.begin_ok)

  last_found : is_last (add32 b n) m ≡ true
  unfolding is_last
  last_found = ground (arith, a.present n (omega arith), a.lasts n (omega arith))

  lt-length : n < length m
  lt-length = lt-length_of_present b n m a.length_ok λ j h e. cc (a.present j h, e)

  -- The packet that comes out: the copy of the map's first entry, with the bodies of the message.
  abbrev pub joined : Packet → ℕ → Packet
  joined p id = record p {
    payload = id ∷ collect (suc n) 0 body;
    first_fragment = false;
    last_fragment = false;
  }

  defragment_packet-joined :
      (k : ℕ) (p : Packet) (rest : OrderedMap Packet) (id : ℕ) (tail : List ℕ)
      → m ≡ (k, p) ∷ rest
      → p.payload ≡ id ∷ tail
      → defragment_packet b (add32 b n) m
        ≡ complete (joined p id) b (add32 b n) (erase_run (suc n) b m)
  unfolding defragment_packet
  defragment_packet-joined k p rest id tail e q =
      rw e (defragment_packet-cons b (add32 b n) k p rest q (rw e at gathered))
    where
      gathered :
          gather (sub32 (add32 (add32 b n) 1) b) b m
          ≡ some (collect (suc n) 0 body, erase_run (suc n) b m)
      gathered = rw (sub32-add32_span b n a.begin_ok a.length_ok) (
          rw (add32_zero b a.begin_ok) at (
            gather-collect b (suc n) 0 n m piece ids body a.length_ok (omega arith)
              (λ k _ l. a.present k (omega arith)) a.payloads))

  -- From any one of its fragments the message is found whole. The bodies come out in order, the
  -- fragments leave the map, and no other entry changes. The data id and what else the packet
  -- says are those of the first entry of the map.
  pub try_reassemble_big_packet-complete :
      (i k : ℕ) (p : Packet) (rest : OrderedMap Packet) (id : ℕ) (tail : List ℕ)
      → i ≤ n
      → m ≡ (k, p) ∷ rest
      → p.payload ≡ id ∷ tail
      → (left : OrderedMap Packet) × (try_reassemble_big_packet (add32 b i) m
          ≡ complete (joined p id) b (add32 b n) left)
        × ((j : ℕ) → j ≤ n → find (add32 b j) left ≡ none)
        × ((j : ℕ) → ((l : ℕ) → l ≤ n → j ≢ add32 b l) → find j left ≡ find j m)
  unfolding try_reassemble_big_packet
  try_reassemble_big_packet-complete i k p rest id tail h e q = (
    erase_run (suc n) b m,
    rw
        (
          seek_first-add32 i (suc (length m)) h (omega (arith, lt-length)),
          seek_last-add32 (n - i) i (suc (length m)) (omega arith) (omega (arith, lt-length)),
          first_found,
          last_found,
        )
        (defragment_packet-joined k p rest id tail e q),
    λ j l. gone j (omega arith),
    λ j ne. rw (add32_zero b a.begin_ok) at (
        find-erase_run_out b (suc n) 0 j m
          (λ l r same. ne l (omega arith) (same ∙ ap (add32 b) (omega arith)))),
  )
    where
      gone : (j : ℕ) → j < suc n → find (add32 b j) (erase_run (suc n) b m) ≡ none
      gone j l =
          let z : 0 + j ≡ j = omega arith in
          rw (add32_zero b a.begin_ok) at (rw z at (find-erase_run_in b (suc n) 0 j m l))
