-- ===== src/Reassembly/Gather.antt =====
-- The copying loop of defragmentPacket (GameConn/RUDPLink.cpp) over a stretch of fragments.
use anger.Common.{
  ℕ, zero, suc, ◌+◌, ◌<◌, ◌≤◌, ◌≡◌, ◌≢◌, refl, ap, ◌∙◌, inl, inr, List, [], ◌∷◌, ◌++◌, none, some,
  length, ◌==◌, arith, Option-cases,
}
use anger.Common.Word.{u32_mod, add32, add32-suc, add32_inj}
use anger.Common.OrderedMap.{OrderedMap, find, erase, find-erase, length-erase-lt}
use anger.Packet.{Packet}
use anger.Reassembly.{gather}

-- A message of `suc n` fragments from sequence number `b` on, all of them in the map: the
-- `k`-th is `piece k`, which carries `ids k` and then `body k`; the first has the first bit, the
-- last has the last bit, and no other has either.
pub record Arrived (m : OrderedMap Packet) (b n : ℕ) (piece : ℕ → Packet) (ids : ℕ → ℕ)
    (body : ℕ → List ℕ) : Type 0 where
  pub begin_ok : b < u32_mod
  pub length_ok : suc n < u32_mod
  pub present : (k : ℕ) → k ≤ n → find (add32 b k) m ≡ some (piece k)
  pub firsts : (k : ℕ) → k ≤ n → (piece k).first_fragment ≡ (k == 0)
  pub lasts : (k : ℕ) → k ≤ n → (piece k).last_fragment ≡ (k == n)
  pub payloads : (k : ℕ) → k ≤ n → (piece k).payload ≡ ids k ∷ body k

-- `body i`, `body (i + 1)`, … one after another, `r` of them.
abbrev pub collect : ℕ → ℕ → (ℕ → List ℕ) → List ℕ
collect zero i body = []
collect (suc r) i body = body i ++ collect r (suc i) body

-- The map without `r` entries from `cur` on.
unfoldable pub erase_run : ℕ → ℕ → OrderedMap Packet → OrderedMap Packet
erase_run zero cur m = m
erase_run (suc r) cur m = erase_run r (add32 cur 1) (erase cur m)

module _ (b : ℕ) where
  -- As many numbers of a stretch as are in a map, so many entries it has.
  pub lt-length_of_present :
      (k : ℕ) (m : OrderedMap Packet)
      → suc k < u32_mod
      → ((j : ℕ) → j ≤ k → find (add32 b j) m ≢ none)
      → k < length m
  lt-length_of_present zero m h p = elim (Option-cases (find (add32 b 0) m)) [
    | inl e ↦ absurd (p 0 (omega arith) e)
    | inr (v, e) ↦ omega (arith, length-erase-lt (add32 b 0) m e)
  ]
  lt-length_of_present (suc k) m h p = elim (Option-cases (find (add32 b (suc k)) m)) [
    | inl e ↦ absurd (p (suc k) (omega arith) e)
    | inr (v, e) ↦ omega (
      arith,
      length-erase-lt (add32 b (suc k)) m e,
      lt-length_of_present k (erase (add32 b (suc k)) m) (omega arith) λ j l q. p j (omega arith) (
          ground (
            arith,
            find-erase (add32 b (suc k)) (add32 b j) m,
            add32_inj b j (suc k) (omega arith) (omega arith),
          )),
    )
  ]

  find-erase_run-none :
      (r i j : ℕ) (m : OrderedMap Packet) → find j m ≡ none → find j (erase_run r i m) ≡ none
  unfolding erase_run
  find-erase_run-none zero i j m h = h
  find-erase_run-none (suc r) i j m h =
      find-erase_run-none r (add32 i 1) j (erase i m) (ground (arith, find-erase i j m))

  -- Numbers of the stretch are not in the map any more, and all others are as they were.
  pub find-erase_run_in :
      (r i j : ℕ) (m : OrderedMap Packet)
      → j < r
      → find (add32 b (i + j)) (erase_run r (add32 b i) m) ≡ none
  unfolding erase_run
  find-erase_run_in zero i j m h = absurd (omega arith)
  find-erase_run_in (suc r) i zero m h =
      let e : i + 0 ≡ i = omega arith in
      rw e (
        find-erase_run-none r (add32 (add32 b i) 1) (add32 b i) (erase (add32 b i) m)
          (ground (arith, find-erase (add32 b i) (add32 b i) m)))
  find-erase_run_in (suc r) i (suc j) m h =
      let e : i + suc j ≡ suc i + j = omega arith in
      rw (e, add32-suc b i) (find-erase_run_in r (suc i) j (erase (add32 b i) m) (omega arith))

  pub find-erase_run_out :
      (r i j : ℕ) (m : OrderedMap Packet)
      → ((k : ℕ) → k < r → j ≢ add32 b (i + k))
      → find j (erase_run r (add32 b i) m) ≡ find j m
  unfolding erase_run
  find-erase_run_out zero i j m h = refl
  find-erase_run_out (suc r) i j m h = rw (add32-suc b i) (
      find-erase_run_out r (suc i) j (erase (add32 b i) m)
        (λ k l e. h (suc k) (omega arith) (e ∙ ap (add32 b) (omega arith)))
      ∙ ground (arith, find-erase (add32 b i) j m, h 0, zero_right))
    where
      zero_right : i + 0 ≡ i
      zero_right = omega arith

  -- The loop copies the bodies of the stretch in their order, and takes its entries out.
  pub gather-collect :
      (r i n : ℕ) (m : OrderedMap Packet) (piece : ℕ → Packet) (ids : ℕ → ℕ) (body : ℕ → List ℕ)
      → suc n < u32_mod
      → i + r ≤ suc n
      → ((k : ℕ) → i ≤ k → k < i + r → find (add32 b k) m ≡ some (piece k))
      → ((k : ℕ) → k ≤ n → (piece k).payload ≡ ids k ∷ body k)
      → gather r (add32 b i) m ≡ some (collect r i body, erase_run r (add32 b i) m)
  unfolding gather erase_run
  gather-collect zero i n m piece ids body h l present payloads = refl
  gather-collect (suc r) i n m piece ids body h l present payloads =
      rw
        (
          present i (omega arith) (omega arith),
          payloads i (omega arith),
          add32-suc b i,
          gather-collect r (suc i) n (erase (add32 b i) m) piece ids body h (omega arith) still
              payloads,
          gather,
        )
        refl
    where
      still :
          (k : ℕ)
          → suc i ≤ k
          → k < suc i + r
          → find (add32 b k) (erase (add32 b i) m) ≡ some (piece k)
      still k p q = ground (
        arith,
        find-erase (add32 b i) (add32 b k) m,
        add32_inj b k i (omega arith) (omega arith),
        present k (omega arith) (omega arith),
      )
