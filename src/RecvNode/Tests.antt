-- ===== src/RecvNode/Tests.antt =====
-- A node with two links.
use anger.Common.{ℕ, ◌-◌, ◌≡◌, refl, Bool, not, ◌&&◌, [], ◌∷◌, none, some, if◌then◌else◌}
use anger.Common.OrderedMap.{find}
use anger.EndPoint.{EndPoint}
use anger.Link.State.{new_link, mark_pending_delete}
use anger.Link.Receive.{contains}
use mathlib.Core.Path.{subst}
use anger.Common.{◌≢◌, true, false, arith}
use anger.Packet.{reliable_ordered}
use anger.Link.State.{block_all_upcoming_sends}
use anger.Link.Send.{SendCallResult, add_to_send_queue}
use anger.RecvNode.Send.{NodeSent, send, queue_on, is_for_users}
use anger.RecvNode.Visits.{moved, send-each}
use anger.RecvNode.Chosen.{AreDistinct, IsTable, is_target, some_in}
use anger.RecvNode.Newest.{IsWhole, Waits, rounds-Waits}
use anger.RecvNode.Rounds.{rounds}
use anger.Common.{inl, inr, Option, ap, sym, ◌∙◌, ◌==◌, Bool-cases}
use anger.RecvNode.{
  LinkObject, RecvNode, look_up, same_end_point, add_link, get_link, is_list_pinned,
  update_pending_deletes,
}
use anger.RecvNode.Sweep.{AreAlive, survivor, survives, update_pending_deletes-survivor}
use anger.RecvNode.Table.{add_link-get_link}

abbrev local : ℕ → EndPoint
local port = record { host = 16777343; port = port }

-- The second link became pending delete at 50.
abbrev node : RecvNode
node = record {
  objects =
      (1000, record { end_point = local 1; link = new_link 71 0 0 })
      ∷ (2000, record { end_point = local 2; link = mark_pending_delete 50 (new_link 72 0 0) })
      ∷ [];
  open_links_map = (local 1, 1000) ∷ (local 2, 2000) ∷ [];
  open_links_list = 2000 ∷ 1000 ∷ [];
  list_pinned = 0;
}

abbrev time_since : ℕ → ℕ
time_since ts = 9000 - ts

node-AreAlive : AreAlive node.open_links_list node.objects
unfolding AreAlive find contains
node-AreAlive = (λ e. cc, refl, (λ e. cc, refl, refl))

update_pending_deletes-survivor_example :
    (n' : RecvNode) × (update_pending_deletes time_since node ≡ some n')
    × AreAlive n'.open_links_list n'.objects
    × ((p : ℕ)
        → find p n'.objects
          ≡ survivor time_since
              (not (is_list_pinned node) && contains p node.open_links_list)
              (find p node.objects))
    × ((p : ℕ)
        → contains p n'.open_links_list ≡ (
            if is_list_pinned node
            then contains p node.open_links_list
            else survives time_since (contains p node.open_links_list) (find p node.objects)))
update_pending_deletes-survivor_example =
    update_pending_deletes-survivor time_since node node-AreAlive

add_link-get_link_example :
    (n' : RecvNode) × (add_link 3000 0 0 (local 3) 73 node ≡ some (3000, n'))
    × AreAlive n'.open_links_list n'.objects
    × ((pending : Bool) → get_link (local 3) pending n' ≡ some (some 3000))
    × ((f : EndPoint)
        → look_up f n'.open_links_map
          ≡ (if same_end_point f (local 3) then some 3000 else look_up f node.open_links_map))
    × ((other id : ℕ) → add_link other 0 0 (local 3) id n' ≡ none)
unfolding find contains look_up
add_link-get_link_example =
    add_link-get_link 3000 0 0 (local 3) 73 node node-AreAlive refl refl refl

-- The second link takes no more messages; the call says that it succeeded.
abbrev closing : RecvNode
closing = record node {
  objects =
      (1000, record { end_point = local 1; link = new_link 71 0 0 })
      ∷ (2000, record { end_point = local 2; link = block_all_upcoming_sends (new_link 72 0 0) })
      ∷ [];
}

same_end_point_sym : (a b : EndPoint) → same_end_point a b ≡ true → same_end_point b a ≡ true
unfolding same_end_point
same_end_point_sym a b h = ground arith

abbrev end_of : Option LinkObject → EndPoint
end_of none = local 0
end_of (some o) = o.end_point

closing-on_list :
    (e : EndPoint) (p : ℕ)
    → look_up e closing.open_links_map ≡ some p
    → (contains p closing.open_links_list ≡ true)
      × (o : LinkObject) × (find p closing.objects ≡ some o)
      × (same_end_point o.end_point e ≡ true)
unfolding look_up find contains
closing-on_list e p h = elim (Bool-cases (same_end_point e (local 1))) [
  | inl s ↦
      subst Listed {x = 1000} {y = p} (cc (h, first s))
        (refl, _, refl, same_end_point_sym e (local 1) s)
  | inr other ↦ elim (Bool-cases (same_end_point e (local 2))) [
    | inl s ↦
        subst Listed {x = 2000} {y = p} (cc (h, second other s))
          (refl, _, refl, same_end_point_sym e (local 2) s)
    | inr neither ↦ absurd (missing (sym h ∙ rw (other, neither) refl))
  ]
]
  where
    Listed : ℕ → Type 0
    Listed q =
        (contains q closing.open_links_list ≡ true)
        × (o : LinkObject) × (find q closing.objects ≡ some o)
        × (same_end_point o.end_point e ≡ true)

    first : same_end_point e (local 1) ≡ true → look_up e closing.open_links_map ≡ some 1000
    first s = rw s refl

    second :
        same_end_point e (local 1) ≡ false
        → same_end_point e (local 2) ≡ true
        → look_up e closing.open_links_map ≡ some 2000
    second other s = rw (other, s) refl

    missing : some p ≢ none
    missing k = cc

closing-in_map :
    (p : ℕ) (o : LinkObject)
    → contains p closing.open_links_list ≡ true
    → find p closing.objects ≡ some o
    → look_up o.end_point closing.open_links_map ≡ some p
unfolding find contains look_up same_end_point
closing-in_map p o c f = elim (Bool-cases (2000 == p)) [
  | inl h ↦ subst Mapped {x = 2000} (ground arith) (λ g. ap back (ap end_of (sym g))) f
  | inr h ↦ subst Mapped {x = 1000} (ground arith) (λ g. ap back (ap end_of (sym g))) f
]
  where
    back : EndPoint → Option ℕ
    back e = look_up e closing.open_links_map

    Mapped : ℕ → Type 0
    Mapped q = find q closing.objects ≡ some o → back o.end_point ≡ some q

closing-IsTable : IsTable closing
unfolding find contains AreDistinct
closing-IsTable = record {
  distinct = (refl, (refl, tt));
  has_objects = λ p c. ground arith;
  on_list = closing-on_list;
  in_map = closing-in_map;
}

closing-takes :
    (q : ℕ)
    → is_target (some (local 2)) false closing q ≡ true
    → moved (queue_on 40 (1 ∷ 2 ∷ []) reliable_ordered 3 true) (find q closing.objects) ≢ none
unfolding find contains queue_on add_to_send_queue new_link block_all_upcoming_sends same_end_point
closing-takes q c =
    subst
      (λ p.
        moved (queue_on 40 (1 ∷ 2 ∷ []) reliable_ordered 3 true) (find p closing.objects) ≢ none)
      (target q c) (λ e. cc)
  where
    target : (q : ℕ) → is_target (some (local 2)) false closing q ≡ true → 2000 ≡ q
    target q c = ground arith

send-each_example :
    (out : NodeSent) × (send 40 (1 ∷ 2 ∷ []) (some (local 2)) false reliable_ordered 3 true closing
      ≡ some out)
    × ((q : ℕ)
        → find q out.node.objects ≡ (
            if is_target (some (local 2)) false closing q
            then moved (queue_on 40 (1 ∷ 2 ∷ []) reliable_ordered 3 true) (find q closing.objects)
            else find q closing.objects))
    × (out.call_result ≡ SendCallResult.succes)
unfolding is_for_users contains find same_end_point some_in new_link block_all_upcoming_sends
send-each_example =
    send-each 40 (1 ∷ 2 ∷ []) (some (local 2)) false reliable_ordered 3 true closing refl
      closing-IsTable closing-takes

node-IsWhole : IsWhole node
unfolding find contains
node-IsWhole p c = ground arith

rounds-Waits_example : Waits node (
    rounds 5 40 52 0
      (record { send_rel_newest_interval_ms = 33; ack_aggregate_time_ms = 8 })
      (record { ack_accum_time = 0; rel_new_accum_time = 0 })
      node)
rounds-Waits_example =
    rounds-Waits 5 40 52 0 (record { send_rel_newest_interval_ms = 33; ack_aggregate_time_ms = 8 })
      (record { ack_accum_time = 0; rel_new_accum_time = 0 }) node node-IsWhole
