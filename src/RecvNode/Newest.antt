-- ===== src/RecvNode/Newest.antt =====
-- The reliable newest data and the send thread (GameConn/RecvNode.cpp).
use anger.Common.{
  ℕ, zero, suc, ◌≡◌, ◌≢◌, refl, ap, sym, ◌∙◌, inl, inr, Bool, true, false, List, [], ◌∷◌, Option,
  none, some, arith, Bool-cases, Option-cases, ◌==◌,
}
use anger.Common.OrderedMap.{OrderedMap, find}
use anger.EndPoint.{EndPoint}
use anger.Link.State.{Link, Effect, ReliableNewestDataGroup}
use anger.Link.Receive.{contains}
use anger.Link.Dispatch.{dispatch_rel_ordered_queue_if_latency_time_passed, dispatch_ack_queue}
use anger.RecvNode.{LinkObject, RecvNode, assign}
use anger.RecvNode.Send.{for_links, also, Visited}
use anger.RecvNode.Rounds.{
  after, Done, Intervals, SendThread, and_then, for_list, only_sends, send_acks, send_newest_acks,
  round, rounds, tick, wait_time,
}
use anger.RecvNode.Visits.{find-assign, find-assign_other}

-- The groups of a link that wait to be sent, and the number of the next packet of them.
abbrev pub Waiting : Type 0
Waiting = OrderedMap ReliableNewestDataGroup × ℕ

abbrev pub waiting : Link → Waiting
waiting l = (l.send_queue_reliable_newest, l.send_seq_reliable_newest)

abbrev pub waiting_of : Option LinkObject → Option Waiting
waiting_of none = none
waiting_of (some o) = some (waiting o.link)

-- Each address of a list has its object; and each of the list of a node.
abbrev pub HaveObjects : List ℕ → RecvNode → Type 0
HaveObjects ps n = (p : ℕ) → contains p ps ≡ true → find p n.objects ≢ none

abbrev pub IsWhole : RecvNode → Type 0
IsWhole n = HaveObjects n.open_links_list n

-- There is no fault, the list is the same, and the links wait for what they waited for before.
abbrev pub Waits : RecvNode → {A : Type 0} → Visited A → Type 0
Waits n none = ⊥
Waits n (some (n', es)) =
    (n'.open_links_list ≡ n.open_links_list)
    × ((p : ℕ) → waiting_of (find p n'.objects) ≡ waiting_of (find p n.objects))

present : (a b : Option LinkObject) → waiting_of a ≡ waiting_of b → b ≢ none → a ≢ none
present a none e h = absurd (h refl)
present none (some o) e h = cc
present (some o') (some o) e h = λ k. cc

IsWhole-later :
    (n m : RecvNode)
    → IsWhole n
    → m.open_links_list ≡ n.open_links_list
    → ((p : ℕ) → waiting_of (find p m.objects) ≡ waiting_of (find p n.objects))
    → IsWhole m
IsWhole-later n m h same w p c =
    present (find p m.objects) (find p n.objects) (w p) (h p (ap (contains p) (sym same) ∙ c))

module _ {A : Type 0} (f : Link → Link × A) (stays : (l : Link) → waiting (f l).0 ≡ waiting l) where
  assign-waiting :
      (p : ℕ) (o : LinkObject) (m : OrderedMap LinkObject)
      → find p m ≡ some o
      → (q : ℕ) → waiting_of (find q (assign p (f o.link).0 m)) ≡ waiting_of (find q m)
  assign-waiting p o m e q = elim (Bool-cases (p == q)) [
    | inl same ↦ ground (arith, e, stays o.link, find-assign p (f o.link).0 m)
    | inr other ↦ ap waiting_of (find-assign_other p q (f o.link).0 m other)
  ]

  Waits-also :
      (n m : RecvNode) (e : EndPoint) (a : A) (d : Visited A)
      → m.open_links_list ≡ n.open_links_list
      → ((p : ℕ) → waiting_of (find p m.objects) ≡ waiting_of (find p n.objects))
      → Waits m d
      → Waits n (also (λ l. some (f l)) e a d)
  unfolding also
  Waits-also n m e a none same h w = absurd w
  Waits-also n m e a (some (n', es)) same h (kept, w) = (kept ∙ same, λ p. w p ∙ h p)

  for_links-Waits :
      (ps : List ℕ) (n : RecvNode) → HaveObjects ps n → Waits n (for_links (λ l. some (f l)) ps n)
  unfolding for_links also contains
  for_links-Waits [] n h = (refl, λ p. refl)
  for_links-Waits (p ∷ ps) n h = elim (Option-cases (find p n.objects)) [
    | inl e ↦ absurd (h p (ground arith) e)
    | inr (o, e) ↦
        let m : RecvNode = record n { objects = assign p (f o.link).0 n.objects } in
        rw (e, for_links)
          (Waits-also n m o.end_point (f o.link).1 _ refl (assign-waiting p o n.objects e) (
            for_links-Waits ps m (λ q c.
              present (find q m.objects) (find q n.objects) (assign-waiting p o n.objects e q)
                (h q (ground arith)))))
  ]

-- The operations of the send thread leave what waits as it is.
dispatch_rel_ordered_queue_if_latency_time_passed-waiting :
    (latency_time waited : ℕ) (l : Link)
    → waiting (dispatch_rel_ordered_queue_if_latency_time_passed latency_time waited l).0
      ≡ waiting l
unfolding dispatch_rel_ordered_queue_if_latency_time_passed
dispatch_rel_ordered_queue_if_latency_time_passed-waiting latency_time waited l = ground arith

for_list-Waits :
    (f : Link → Link × List Effect)
    → ((l : Link) → waiting (f l).0 ≡ waiting l)
    → (n : RecvNode) → IsWhole n
    → Waits n (for_list f n)
unfolding for_list
for_list-Waits f stays n h = for_links-Waits f stays n.open_links_list n h

Waits-and_then :
    (n : RecvNode) (d : Done) (k : RecvNode → Done)
    → IsWhole n
    → Waits n d
    → ((m : RecvNode) → IsWhole m → Waits m (k m))
    → Waits n (and_then d k)
unfolding and_then
Waits-and_then n none k h w v = w
Waits-and_then n (some (m, es)) k h (same, w) v = later (k m) (v m (IsWhole-later n m h same w))
  where
    later : (d : Done) → Waits m d → Waits n (after es d)
    later none u = u
    later (some (m', fs)) (kept, u) = (kept ∙ same, λ p. u p ∙ w p)

send_acks-Waits :
    (due : Bool) (stale : ℕ) (n : RecvNode) → IsWhole n → Waits n (send_acks due stale n)
unfolding send_acks dispatch_ack_queue
send_acks-Waits false stale n h = (refl, λ p. refl)
send_acks-Waits true stale n h = for_list-Waits _ (λ l. refl) n h

send_newest_acks-Waits :
    (due : Bool) (stale : ℕ) (n : RecvNode) → IsWhole n → Waits n (send_newest_acks due stale n)
unfolding send_newest_acks only_sends
send_newest_acks-Waits false stale n h = (refl, λ p. refl)
send_newest_acks-Waits true stale n h = for_list-Waits _ (λ l. refl) n h

round-Waits :
    (waited latency_time stale : ℕ) (i : Intervals) (t : SendThread) (n : RecvNode)
    → IsWhole n
    → Waits n (round waited latency_time stale i t n)
unfolding round
round-Waits waited latency_time stale i t n h =
    Waits-and_then n _ _ h
      (for_list-Waits _
        (dispatch_rel_ordered_queue_if_latency_time_passed-waiting latency_time waited) n h)
      (λ m g. Waits-and_then m _ _ g (send_acks-Waits _ stale m g) (send_newest_acks-Waits _ stale))

-- However many rounds the send thread makes on a node of whose list each link has its object, of
-- whatever lengths and intervals: there is no fault, the list stays, and the reliable newest groups
-- of every link wait as they waited before, with the same number for their next packet. No round
-- sends them.
pub rounds-Waits :
    (k latency latency_time stale : ℕ) (i : Intervals) (t : SendThread) (n : RecvNode)
    → IsWhole n
    → Waits n (rounds k latency latency_time stale i t n)
unfolding rounds
rounds-Waits zero latency latency_time stale i t n h = (refl, λ p. refl)
rounds-Waits (suc k) latency latency_time stale i t n h =
    Waits-and_then n _ _ h (round-Waits (wait_time latency i n) latency_time stale i t n h)
      (λ m g. rounds-Waits k latency latency_time stale i (tick (wait_time latency i n) i t) m g)
