-- ===== src/Common/OrderedMap.antt =====
-- `std::map<u32_t, V>`: the entries in the order of their keys.
use Prim.Native.Nat.{ℕ, ◌≤◌, ◌<◌}
use mathlib.Core.Path.{◌≡◌, refl}
use mathlib.Core.Logic.{inl, inr}
use mathlib.Core.Bool.{Bool, true, false}
use mathlib.Core.Option.{Option, none, some}
use mathlib.Core.List.{List, [], ◌∷◌}
use native.Mathlib.Omega.{arith}
use anger.Common.Tests.{ltb, ◌==◌, if◌then◌else◌, Option-cases}
use anger.Common.Lists.{length}

abbrev pub OrderedMap {ℓ} : Type ℓ → Type ℓ
OrderedMap V = List (ℕ × V)

module _ {ℓ} {V : Type ℓ} where
  -- `m.find(k)`
  unfoldable pub find : ℕ → OrderedMap V → Option V
  find k [] = none
  find k ((j, v) ∷ m) = if k == j then some v else find k m

  -- `m.count(k) != 0`
  unfoldable pub has : ℕ → OrderedMap V → Bool
  has k m = elim (find k m) [ none ↦ false | some v ↦ true ]

  -- A new entry at its place in the order.
  unfoldable pub place : ℕ → V → OrderedMap V → OrderedMap V
  place k v [] = (k, v) ∷ []
  place k v ((j, w) ∷ m) = if ltb k j then (k, v) ∷ (j, w) ∷ m else (j, w) ∷ place k v m

  -- `m.insert(std::make_pair(k, v))`: an entry that is there stays as it is.
  unfoldable pub insert : ℕ → V → OrderedMap V → OrderedMap V
  unfolding has
  insert k v m = if has k m then m else place k v m

  -- `m.erase(k)`
  unfoldable pub erase : ℕ → OrderedMap V → OrderedMap V
  erase k [] = []
  erase k ((j, w) ∷ m) = if k == j then erase k m else (j, w) ∷ erase k m

  pub find-place :
      (k j : ℕ) (v : V) (m : OrderedMap V)
      → find k m ≡ none
      → find j (place k v m) ≡ (if j == k then some v else find j m)
  unfolding find place
  find-place k j v [] h = refl
  find-place k j v ((i, w) ∷ m) h = ground (arith, find-place k j v m)

  -- An entry that is there is kept, and a new one is found.
  pub find-insert :
      (k j : ℕ) (v : V) (m : OrderedMap V)
      → find j (insert k v m)
        ≡ (if j == k then (elim (find k m) [ none ↦ some v | some w ↦ some w ]) else find j m)
  unfolding insert
  find-insert k j v m = elim (Option-cases (find k m)) [
    | inl e ↦ ground (arith, find-place k j v m e)
    | inr (w, e) ↦ ground arith
  ]

  pub find-erase :
      (k j : ℕ) (m : OrderedMap V) → find j (erase k m) ≡ (if j == k then none else find j m)
  unfolding find erase
  find-erase k j [] = ground arith
  find-erase k j ((i, w) ∷ m) = ground (arith, find-erase k j m)

  pub length-erase-le : (k : ℕ) (m : OrderedMap V) → length (erase k m) ≤ length m
  unfolding erase
  length-erase-le k [] = omega arith
  length-erase-le k ((i, w) ∷ m) = ground (arith, length-erase-le k m)

  pub length-erase-lt :
      (k : ℕ) (m : OrderedMap V) {v : V} → find k m ≡ some v → length (erase k m) < length m
  unfolding erase find
  length-erase-lt k [] {v} h = cc
  length-erase-lt k ((i, w) ∷ m) {v} h =
      ground (arith, length-erase-le k m, length-erase-lt k m {v = v})
