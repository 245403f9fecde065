-- ===== src/RecvNode/Sweep.antt =====
-- Which links RecvNode::updatePendingDeletes deletes.
use anger.Common.{
  ℕ, zero, ◌≡◌, ◌≢◌, refl, inl, inr, Bool, false, not, ◌&&◌, ltb, List, [], ◌∷◌, Option, none, some,
  arith, if◌then◌else◌, Bool-cases, Option-cases,
}
use anger.Common.OrderedMap.{OrderedMap, find, erase, find-erase}
use anger.Link.State.{Link, is_pinned}
use anger.Link.Receive.{contains}
use anger.RecvNode.{
  LinkObject, RecvNode, stays_open, sweep, is_list_pinned, update_pending_deletes, forget,
}

-- The addresses of a list are different, and each has its object.
unfoldable pub AreAlive : List ℕ → OrderedMap LinkObject → Type 0
AreAlive [] m = zero ≡ zero
AreAlive (p ∷ ps) m = (find p m ≢ none) × (contains p ps ≡ false) × AreAlive ps m

-- A link to delete: pending delete for more than twice the linger time, and not pinned.
abbrev pub is_dead : (ℕ → ℕ) → Link → Bool
is_dead time_since l =
    l.is_pending_delete && (ltb 2000 (time_since l.mark_delete_ts) && not (ltb 0 l.pinned_count))

stays_open-is_dead :
    (time_since : ℕ → ℕ) (l : Link) → stays_open time_since l ≡ not (is_dead time_since l)
unfolding stays_open is_pinned
stays_open-is_dead time_since l = ground arith

-- What becomes of an object when these addresses are swept.
abbrev pub survivor : (ℕ → ℕ) → Bool → Option LinkObject → Option LinkObject
survivor time_since swept none = none
survivor time_since swept (some o) = if swept && is_dead time_since o.link then none else some o

-- Whether its address stays on the list.
abbrev pub survives : (ℕ → ℕ) → Bool → Option LinkObject → Bool
survives time_since swept none = false
survives time_since swept (some o) = swept && not (is_dead time_since o.link)

AreAlive-erase :
    (p : ℕ) (ps : List ℕ) (m : OrderedMap LinkObject)
    → contains p ps ≡ false
    → AreAlive ps m
    → AreAlive ps (erase p m)
unfolding AreAlive contains
AreAlive-erase p [] m h a = refl
AreAlive-erase p (q ∷ ps) m h (f, d, a) =
    (ground (arith, find-erase p q m), d, AreAlive-erase p ps m (ground arith) a)

record Swept (time_since : ℕ → ℕ) (ps : List ℕ) (n : RecvNode) (kept : List ℕ) (n' : RecvNode)
    : Type 0 where
  alive : AreAlive kept n'.objects
  found : (p : ℕ) → find p n'.objects ≡ survivor time_since (contains p ps) (find p n.objects)
  listed : (p : ℕ) → contains p kept ≡ survives time_since (contains p ps) (find p n.objects)
  pins : n'.list_pinned ≡ n.list_pinned

sweep-Swept :
    (time_since : ℕ → ℕ) (ps : List ℕ) (n : RecvNode)
    → AreAlive ps n.objects
    → (kept : List ℕ) × (n' : RecvNode) × (sweep time_since ps n ≡ some (kept, n'))
      × Swept time_since ps n kept n'
unfolding sweep AreAlive contains
sweep-Swept time_since [] n a = (
  [],
  n,
  refl,
  record { alive = refl; found = λ p. ground arith; listed = λ p. ground arith; pins = refl },
)
sweep-Swept time_since (q ∷ ps) n (f, d, a) = elim (Option-cases (find q n.objects)) [
  | inl e ↦ absurd (f e)
  | inr (o, e) ↦ elim (Bool-cases (stays_open time_since o.link)) [
    | inl s ↦
        let (kept, n', r, w) = sweep-Swept time_since ps n a in
        (
          q ∷ kept,
          n',
          rw (e, s, sweep, r) refl,
          record {
            alive = (ground (arith, w.found q), ground (arith, w.listed q), w.alive);
            found = λ p. ground (arith, w.found p, e, stays_open-is_dead time_since o.link);
            listed = λ p. ground (arith, w.listed p, e, stays_open-is_dead time_since o.link);
            pins = w.pins;
          },
        )
    | inr s ↦
        let (kept, n', r, w) =
          sweep-Swept time_since ps
            (record n {
              open_links_map = forget o.end_point n.open_links_map;
              objects = erase q n.objects;
            })
            (AreAlive-erase q ps n.objects d a) in
        (
          kept,
          n',
          rw (e, s, sweep) r,
          record {
            alive = w.alive;
            found = λ p. ground (
              arith,
              w.found p,
              e,
              find-erase q p n.objects,
              stays_open-is_dead time_since o.link,
            );
            listed = λ p. ground (
              arith,
              w.listed p,
              e,
              find-erase q p n.objects,
              stays_open-is_dead time_since o.link,
            );
            pins = w.pins;
          },
        )
  ]
]

-- With the list not pinned, exactly the links on it that are pending delete for long enough and not
-- pinned are deleted, and leave the list; every other object stays as it is. While the list is
-- pinned nothing changes. No address without an object is used or left on the list.
pub update_pending_deletes-survivor :
    (time_since : ℕ → ℕ) (n : RecvNode)
    → AreAlive n.open_links_list n.objects
    → (n' : RecvNode) × (update_pending_deletes time_since n ≡ some n')
      × AreAlive n'.open_links_list n'.objects
      × ((p : ℕ)
          → find p n'.objects
            ≡ survivor time_since
                (not (is_list_pinned n) && contains p n.open_links_list)
                (find p n.objects))
      × ((p : ℕ)
          → contains p n'.open_links_list ≡ (
              if is_list_pinned n
              then contains p n.open_links_list
              else survives time_since (contains p n.open_links_list) (find p n.objects)))
unfolding update_pending_deletes
update_pending_deletes-survivor time_since n a = elim (Bool-cases (is_list_pinned n)) [
  | inl e ↦ (n, rw (e, update_pending_deletes) refl, a, λ p. ground arith, λ p. ground arith)
  | inr e ↦
      let (kept, n', r, w) = sweep-Swept time_since n.open_links_list n a in
      (
        record n' { open_links_list = kept },
        rw (e, update_pending_deletes, r) refl,
        w.alive,
        λ p. ground (arith, w.found p),
        λ p. ground (arith, w.listed p),
      )
]
