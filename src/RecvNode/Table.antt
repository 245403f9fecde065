-- ===== src/RecvNode/Table.antt =====
-- RecvNode::addLink and RecvNode::getLink.
use anger.Common.{
  ℕ, ◌≡◌, refl, Bool, true, false, List, [], ◌∷◌, ◌++◌, none, some, arith, if◌then◌else◌, ◌==◌,
  Option-cases,
}
use anger.Common.OrderedMap.{OrderedMap, find, insert, find-insert}
use anger.EndPoint.{EndPoint}
use anger.Link.State.{new_link}
use anger.Link.Receive.{contains}
use anger.RecvNode.{LinkObject, RecvNode, same_end_point, look_up, add_link, get_link}
use anger.RecvNode.Sweep.{AreAlive}

same_end_point_refl : (e : EndPoint) → same_end_point e e ≡ true
unfolding same_end_point
same_end_point_refl e = ground arith

look_up_same :
    (f e : EndPoint) (m : List (EndPoint × ℕ))
    → same_end_point f e ≡ true
    → look_up f m ≡ look_up e m
unfolding look_up same_end_point
look_up_same f e [] h = refl
look_up_same f e ((k, q) ∷ m) h = ground (arith, look_up_same f e m h)

look_up-append :
    (f e : EndPoint) (p : ℕ) (m : List (EndPoint × ℕ))
    → look_up f (m ++ ((e, p) ∷ [])) ≡ (elim (look_up f m) [
      | none ↦ if same_end_point f e then some p else none
      | some q ↦ some q
    ])
unfolding look_up
look_up-append f e p [] = refl
look_up-append f e p ((k, q) ∷ m) = ground (arith, look_up-append f e p m)

-- A new object, with its address at the end of the list.
contains-snoc :
    (q p : ℕ) (ps : List ℕ) → contains q (ps ++ (p ∷ [])) ≡ (if contains q ps then true else p == q)
unfolding contains
contains-snoc q p [] = ground arith
contains-snoc q p (r ∷ ps) = ground (arith, contains-snoc q p ps)

AreAlive-insert :
    (p : ℕ) (o : LinkObject) (ps : List ℕ) (m : OrderedMap LinkObject)
    → contains p ps ≡ false
    → AreAlive ps m
    → AreAlive (ps ++ (p ∷ [])) (insert p o m)
unfolding AreAlive contains
AreAlive-insert p o [] m h a = (ground (arith, find-insert p p o m), refl, refl)
AreAlive-insert p o (q ∷ ps) m h (f, d, a) = (
  ground (arith, find-insert p q o m),
  ground (arith, contains-snoc q p ps),
  AreAlive-insert p o ps m (ground arith) a,
)

-- A link added for an endpoint that has none is found there, and its address is last on the list;
-- other endpoints have the links they had, no second link is added for the endpoint, and every
-- address on the list still has its object.
pub add_link-get_link :
    (address stale_seq stale_pinned : ℕ) (e : EndPoint) (link_id : ℕ) (n : RecvNode)
    → AreAlive n.open_links_list n.objects
    → find address n.objects ≡ none
    → contains address n.open_links_list ≡ false
    → look_up e n.open_links_map ≡ none
    → (n' : RecvNode) × (add_link address stale_seq stale_pinned e link_id n ≡ some (address, n'))
      × AreAlive n'.open_links_list n'.objects
      × ((pending : Bool) → get_link e pending n' ≡ some (some address))
      × ((f : EndPoint)
          → look_up f n'.open_links_map
            ≡ (if same_end_point f e then some address else look_up f n.open_links_map))
      × ((other id : ℕ) → add_link other stale_seq stale_pinned e id n' ≡ none)
unfolding add_link get_link new_link
add_link-get_link address stale_seq stale_pinned e link_id n a free unlisted unknown = (
  after,
  rw (unknown, add_link) refl,
  AreAlive-insert address object n.open_links_list n.objects unlisted a,
  λ pending. ground (arith, found, find-insert address address object n.objects, free),
  λ f. ground (
    arith,
    look_up-append f e address n.open_links_map,
    look_up_same f e n.open_links_map,
    unknown,
    Option-cases (look_up f n.open_links_map),
  ),
  λ other id. rw (found, add_link) refl,
)
  where
    object : LinkObject
    object = record { end_point = e; link = new_link link_id stale_seq stale_pinned }

    after : RecvNode
    after = record n {
      objects = insert address object n.objects;
      open_links_map = n.open_links_map ++ ((e, address) ∷ []);
      open_links_list = n.open_links_list ++ (address ∷ []);
    }

    found : look_up e after.open_links_map ≡ some address
    found =
        ground (arith, look_up-append e e address n.open_links_map, unknown, same_end_point_refl e)
