-- ===== src/Reassembly/Search.antt =====
-- The two searches of tryReassembleBigPacket (GameConn/RUDPLink.cpp): they end, and where.
use anger.Common.{
  ℕ, zero, suc, ◌<◌, ◌≤◌, ◌≡◌, ◌≢◌, refl, ◌∙◌, ◌⊎◌, inl, inr, Bool, true, none, some, length, arith,
  Option-cases, Bool-cases,
}
use anger.Common.Word.{
  u32_mod, add32, sub32, sub32-lt, add32-lt, sub32_zero, add32_zero, sub32-sub32, sub32_ne,
  add32-add32, add32_ne,
}
use anger.Common.OrderedMap.{OrderedMap, find, erase, find-erase, length-erase-lt}
use anger.Packet.{Packet}
use anger.Reassembly.{seek_first, seek_last, is_first, is_last}

-- A search has stopped for its own reason: at a number that is not in the map, or at the flag.
abbrev pub Stopped : (ℕ → OrderedMap Packet → Bool) → OrderedMap Packet → ℕ → Type 0
Stopped flag m s = (find s m ≡ none) ⊎ (flag s m ≡ true)

-- The part of the map that a search has not visited agrees with the map where the search may
-- still go.
abbrev Ahead : (ℕ → ℕ → ℕ) → ℕ → ℕ → OrderedMap Packet → OrderedMap Packet → Type 0
Ahead walk fuel s left m = (i : ℕ) → i < fuel → find (walk s i) left ≡ find (walk s i) m

-- One more number is visited, and its entry is taken out of the part that is left.
Ahead-erase :
    (walk : ℕ → ℕ → ℕ) (f s : ℕ) (left m : OrderedMap Packet)
    → ((i : ℕ) → i < f → walk (walk s 1) i ≡ walk s (suc i))
    → ((i : ℕ) → i < f → walk s (suc i) ≢ s)
    → Ahead walk (suc f) s left m
    → Ahead walk f (walk s 1) (erase s left) m
Ahead-erase walk f s left m next ne ahead i h =
    rw (next i h)
      (ground (arith, find-erase s (walk s (suc i)) left, ne i h, ahead (suc i) (omega arith)))

module _ (m : OrderedMap Packet) where
  seek_first-Stopped :
      (fuel : ℕ) (left : OrderedMap Packet) (s : ℕ)
      → s < u32_mod
      → length left < fuel
      → fuel ≤ u32_mod
      → Ahead sub32 fuel s left m
      → Stopped is_first m (seek_first fuel m s)
  unfolding seek_first is_first
  seek_first-Stopped zero left s h l b ahead = absurd (omega arith)
  seek_first-Stopped (suc f) left s h l b ahead = elim (Option-cases (find s m)) [
    | inl e ↦ rw (e, seek_first) (inl e)
    | inr (p, e) ↦ elim (Bool-cases p.first_fragment) [
      | inl q ↦ rw (e, q, seek_first) (inr (rw (e, is_first) q))
      | inr q ↦
          rw (e, q, seek_first)
            (seek_first-Stopped f (erase s left) (sub32 s 1) (sub32-lt s 1)
              (omega (arith, length-erase-lt s left (here p e))) (omega arith)
              (Ahead-erase sub32 f s left m (λ i k. sub32-sub32 s i h (omega arith))
                (λ i k. sub32_ne s i h (omega arith)) ahead))
    ]
  ]
    where
      here : (p : Packet) → find s m ≡ some p → find s left ≡ some p
      here p e = rw (sub32_zero s h) at (ahead 0 (omega arith)) ∙ e

  seek_last-Stopped :
      (fuel : ℕ) (left : OrderedMap Packet) (s : ℕ)
      → s < u32_mod
      → length left < fuel
      → fuel ≤ u32_mod
      → Ahead add32 fuel s left m
      → Stopped is_last m (seek_last fuel m s)
  unfolding seek_last is_last
  seek_last-Stopped zero left s h l b ahead = absurd (omega arith)
  seek_last-Stopped (suc f) left s h l b ahead = elim (Option-cases (find s m)) [
    | inl e ↦ rw (e, seek_last) (inl e)
    | inr (p, e) ↦ elim (Bool-cases p.last_fragment) [
      | inl q ↦ rw (e, q, seek_last) (inr (rw (e, is_last) q))
      | inr q ↦
          rw (e, q, seek_last)
            (seek_last-Stopped f (erase s left) (add32 s 1) (add32-lt s 1)
              (omega (arith, length-erase-lt s left (here p e))) (omega arith)
              (Ahead-erase add32 f s left m (λ i k. add32-add32 s i)
                (λ i k. add32_ne s i h (omega arith)) ahead))
    ]
  ]
    where
      here : (p : Packet) → find s m ≡ some p → find s left ≡ some p
      here p e = rw (add32_zero s h) at (ahead 0 (omega arith)) ∙ e

  -- The fuel of tryReassembleBigPacket is enough: with fewer fragments than there are sequence
  -- numbers both searches stop at a number with no fragment, or at a flag.
  pub seek_Stopped :
      (s : ℕ)
      → s < u32_mod
      → length m < u32_mod
      → Stopped is_first m (seek_first (suc (length m)) m s)
        × Stopped is_last m (seek_last (suc (length m)) m s)
  seek_Stopped s h l = (
    seek_first-Stopped (suc (length m)) m s h (omega arith) (omega arith) (λ i k. refl),
    seek_last-Stopped (suc (length m)) m s h (omega arith) (omega arith) (λ i k. refl),
  )
