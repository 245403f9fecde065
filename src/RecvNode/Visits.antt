-- ===== src/RecvNode/Visits.antt =====
-- What RecvNode::forEachLink and RecvNode::send (GameConn/RecvNode.h, GameConn/RecvNode.cpp) do to
-- the links.
use mathlib.Core.Path.{subst}
use anger.Common.{
  ◌||◌, ◌&&◌, ℕ, ◌≡◌, ◌≢◌, refl, ap, sym, ◌∙◌, inl, inr, Bool, true, false, List, [], ◌∷◌, Option,
  none, some, arith, if◌then◌else◌, Bool-cases, Option-cases, ◌==◌,
}
use anger.Common.OrderedMap.{OrderedMap, find}
use anger.EndPoint.{EndPoint}
use anger.Packet.{HeaderPacketType}
use anger.Link.State.{Link}
use anger.Link.Receive.{contains}
use anger.Link.Send.{
  Sent, SendCallResult, HasResult, add_to_send_queue, add_to_send_queue_blocked,
  add_to_send_queue_open, is_forbidden,
}
use anger.RecvNode.Chosen.{AreDistinct, IsTable, is_target, chosen-IsChoice, some_in, some_in-same}
use anger.RecvNode.{pin_list, unpin_list, LinkObject, RecvNode, assign}
use anger.RecvNode.Send.{
  sum_up, unpinned, also, for_links, queue_on, send, NodeSent, for_each_link, is_for_users,
  is_not_sent, collect,
}

pub find-assign_other :
    (p q : ℕ) (l : Link) (m : OrderedMap LinkObject)
    → (p == q) ≡ false
    → find q (assign p l m) ≡ find q m
unfolding find assign
find-assign_other p q l [] ne = refl
find-assign_other p q l ((k, o) ∷ m) ne = ground (arith, find-assign_other p q l m ne)

abbrev pub linked : Link → Option LinkObject → Option LinkObject
linked l none = none
linked l (some o) = some (record o { link = l })

pub find-assign :
    (p : ℕ) (l : Link) (m : OrderedMap LinkObject) → find p (assign p l m) ≡ linked l (find p m)
unfolding find assign
find-assign p l [] = refl
find-assign p l ((k, o) ∷ m) = ground (arith, find-assign p l m)

-- Whether a link has a property, and whether one of the answers has.
abbrev pub holds : (Link → Bool) → Option LinkObject → Bool
holds h none = false
holds h (some o) = h o.link

any_of : {A : Type 0} → (A → Bool) → List (EndPoint × A) → Bool
any_of g [] = false
any_of g ((e, a) ∷ answers) = g a || any_of g answers

module _ {A : Type 0} (f : Link → Option (Link × A)) where
  -- A link that is visited.
  abbrev pub moved : Option LinkObject → Option LinkObject
  moved none = none
  moved (some o) = elim (f o.link) [ none ↦ none | some (l, a) ↦ some (record o { link = l }) ]

  -- No visit of a link of the list faults.
  abbrev pub AreVisitable : List ℕ → RecvNode → Type 0
  AreVisitable ps n = (q : ℕ) → contains q ps ≡ true → moved (find q n.objects) ≢ none

  -- What the visits of a list leave.
  record AreVisited (ps : List ℕ) (n : RecvNode) : Type 0 where
    pub node : RecvNode
    pub results : List (EndPoint × A)
    pub runs : for_links f ps n ≡ some (node, results)
    pub links :
        (q : ℕ)
        → find q node.objects
          ≡ (if contains q ps then moved (find q n.objects) else find q n.objects)
    pub answers :
        (g : A → Bool) (h : Link → Bool)
        → ((l l' : Link) (a : A) → f l ≡ some (l', a) → g a ≡ h l)
        → any_of g results ≡ some_in (λ q. holds h (find q n.objects)) ps

  visit_of :
      (o : Option LinkObject)
      → moved o ≢ none
      → (x : LinkObject) × (l : Link) × (a : A) × (o ≡ some x) × (f x.link ≡ some (l, a))
  visit_of none h = absurd (h refl)
  visit_of (some x) h = elim (Option-cases (f x.link)) [
    | inl e ↦ absurd (h (rw (e, moved) refl))
    | inr ((l, a), e) ↦ (x, l, a, refl, e)
  ]

  differ : (p q : ℕ) (ps : List ℕ) → contains p ps ≡ false → contains q ps ≡ true → (p == q) ≡ false
  differ p q ps h k = ground arith

  AreVisited-cons :
      (p : ℕ) (ps : List ℕ) (n : RecvNode) (x : LinkObject) (l : Link) (a : A)
      → contains p ps ≡ false
      → find p n.objects ≡ some x
      → f x.link ≡ some (l, a)
      → AreVisited ps (record n { objects = assign p l n.objects })
      → AreVisited (p ∷ ps) n
  unfolding for_links contains also any_of some_in
  AreVisited-cons p ps n x l a fresh e fe r = record {
    node = r.node;
    results = (x.end_point, a) ∷ r.results;
    runs = rw (e, fe, r.runs, for_links) refl;
    links = λ q. r.links q ∙ changed q;
    answers = λ g h agree.
        ap (g a ||◌) (r.answers g h agree ∙ some_in-same _ _ ps ps (kept h))
        ∙ ap (◌|| some_in (λ q. holds h (find q n.objects)) ps)
            (agree x.link l a fe ∙ ap (holds h) (sym e));
  }
    where
      changed :
          (q : ℕ)
          → (if contains q ps
              then moved (find q (assign p l n.objects))
              else find q (assign p l n.objects))
            ≡ (if contains q (p ∷ ps) then moved (find q n.objects) else find q n.objects)
      changed q = elim (Bool-cases (p == q)) [
        | inl same ↦ ground (arith, e, fe, find-assign p l n.objects)
        | inr other ↦ rw (other, find-assign_other p q l n.objects other) refl
      ]

      kept :
          (h : Link → Bool) (q : ℕ)
          → (contains q ps && holds h (find q (assign p l n.objects)))
            ≡ (contains q ps && holds h (find q n.objects))
      kept h q = elim (Bool-cases (contains q ps)) [
        | inr out ↦ rw out refl
        | inl there ↦
            ap (λ o. contains q ps && holds h o)
              (find-assign_other p q l n.objects (differ p q ps fresh there))
      ]

  AreVisitable-later :
      (p : ℕ) (ps : List ℕ) (n : RecvNode) (l : Link)
      → contains p ps ≡ false
      → AreVisitable (p ∷ ps) n
      → AreVisitable ps (record n { objects = assign p l n.objects })
  unfolding contains
  AreVisitable-later p ps n l fresh v q c =
      let other = differ p q ps fresh c in
      λ h. v q (rw other c) (ap moved (sym (find-assign_other p q l n.objects other)) ∙ h)

  for_links-AreVisited :
      (ps : List ℕ) (n : RecvNode) → AreDistinct ps → AreVisitable ps n → AreVisited ps n
  unfolding for_links AreDistinct contains any_of some_in
  for_links-AreVisited [] n d v = record {
    node = n;
    results = [];
    runs = refl;
    links = λ q. refl;
    answers = λ g h agree. refl;
  }
  for_links-AreVisited (p ∷ ps) n (fresh, d) v =
      let (x, l, a, e, fe) = visit_of (find p n.objects) (v p (ground arith)) in
      AreVisited-cons p ps n x l a fresh e fe (
        for_links-AreVisited ps (record n { objects = assign p l n.objects }) d
          (AreVisitable-later p ps n l fresh v))

abbrev refused : Sent → Bool
refused s = is_not_sent s.result

collect-any_of :
    (visited : List (EndPoint × Sent))
    → collect SendCallResult.not_sent visited
      ≡ (if any_of refused visited then SendCallResult.succes else SendCallResult.not_sent)
unfolding collect any_of is_not_sent
collect-any_of [] = refl
collect-any_of ((e, s) ∷ visited) = ground (arith, collect-any_of visited, collect_succes visited)
  where
    collect_succes :
        (visited : List (EndPoint × Sent))
        → collect SendCallResult.succes visited ≡ SendCallResult.succes
    collect_succes [] = refl
    collect_succes ((e, s) ∷ visited) = ground (arith, collect_succes visited)

-- A link refuses a message of the user exactly if it blocks sends.
queue_on-refused :
    (id : ℕ) (bytes : List ℕ) (type : HeaderPacketType) (channel : ℕ) (relay : Bool)
    → is_for_users type ≡ true
    → (l l' : Link) (s : Sent) → queue_on id bytes type channel relay l ≡ some (l', s)
    → refused s ≡ l.block_new_sends
unfolding queue_on is_not_sent is_for_users is_forbidden
queue_on-refused id bytes type channel relay users l l' s h =
    elim (Option-cases (add_to_send_queue id bytes type channel relay l)) [
      | inl e ↦ cc (h, faulted e)
      | inr (s', e) ↦ ap refused (same s' e) ∙ answer s' e
    ]
  where
    faulted :
        add_to_send_queue id bytes type channel relay l ≡ none
        → queue_on id bytes type channel relay l ≡ none
    faulted e = rw (e, queue_on) refl

    queued :
        (s' : Sent)
        → add_to_send_queue id bytes type channel relay l ≡ some s'
        → queue_on id bytes type channel relay l ≡ some (s'.link, s')
    queued s' e = rw (e, queue_on) refl

    same : (s' : Sent) → add_to_send_queue id bytes type channel relay l ≡ some s' → s ≡ s'
    same s' e = cc (h, queued s' e)

    allowed : (type : HeaderPacketType) → is_for_users type ≡ true → is_forbidden type ≡ false
    allowed type u = ground arith

    answer :
        (s' : Sent)
        → add_to_send_queue id bytes type channel relay l ≡ some s'
        → refused s' ≡ l.block_new_sends
    answer s' e = elim (Bool-cases l.block_new_sends) [
      | inl b ↦
          ap is_not_sent (
            subst (HasResult SendCallResult.not_sent) e
              (add_to_send_queue_blocked id bytes type channel relay l b))
          ∙ sym b
      | inr b ↦
          ap is_not_sent (
            subst (HasResult SendCallResult.succes) e
              (add_to_send_queue_open id bytes type channel relay l b (allowed type users)))
          ∙ sym b
    ]

absorb : (c m k : Bool) → ((c && m) && k) ≡ (c && ((c && m) && k))
absorb true m k = refl
absorb false m k = refl

-- The links that a call of send means: each of the open links, the one of an endpoint, or all but
-- that. For a message that is reliable ordered or unreliable sequenced, on a node whose list and map
-- have the same links, with different addresses, and if none of those that are meant faults: each of
-- them takes the message once, as addToSendQueue does, and every other link stays as it is. The call
-- reports success exactly if one of those that are meant blocks sends, and so did not take the
-- message.
pub send-each :
    (id : ℕ) (bytes : List ℕ) (specific : Option EndPoint) (exclude : Bool)
    (type : HeaderPacketType) (channel : ℕ) (relay : Bool) (n : RecvNode)
    → is_for_users type ≡ true
    → IsTable n
    → ((q : ℕ)
        → is_target specific exclude n q ≡ true
        → moved (queue_on id bytes type channel relay) (find q n.objects) ≢ none)
    → (out : NodeSent) × (send id bytes specific exclude type channel relay n ≡ some out)
      × ((q : ℕ)
          → find q out.node.objects ≡ (
              if is_target specific exclude n q
              then moved (queue_on id bytes type channel relay) (find q n.objects)
              else find q n.objects))
      × (out.call_result ≡ (
          if some_in
            (λ q.
              is_target specific exclude n q && holds (λ l. l.block_new_sends) (find q n.objects))
            n.open_links_list
          then SendCallResult.succes
          else SendCallResult.not_sent))
unfolding send for_each_link sum_up unpinned unpin_list pin_list
send-each id bytes specific exclude type channel relay n users t v =
    let f = queue_on id bytes type channel relay in
    let c = chosen-IsChoice specific exclude n t in
    let r =
      for_links-AreVisited f c.addresses (pin_list n) c.are_distinct
        (λ q h. v q (sym (c.members q) ∙ h)) in
    (
      record {
        call_result = collect SendCallResult.not_sent r.results;
        node = unpin_list r.node;
        sent = r.results;
        errors = [];
      },
      rw (users, c.is_some, r.runs, send, for_each_link) refl,
      λ q.
          r.links q
          ∙ ap (λ b. if b then moved f (find q n.objects) else find q n.objects) (c.members q),
      collect-any_of r.results
          ∙ ap (λ b. if b then SendCallResult.succes else SendCallResult.not_sent)
              (r.answers refused (λ l. l.block_new_sends)
                  (queue_on-refused id bytes type channel relay users)
                ∙ some_in-same _ _ c.addresses n.open_links_list (λ q. among q (c.members q))),
    )
  where
    blocks : ℕ → Bool
    blocks q = holds (λ l. l.block_new_sends) (find q n.objects)

    among :
        (q : ℕ) {b : Bool}
        → b ≡ is_target specific exclude n q
        → (b && blocks q)
          ≡ (contains q n.open_links_list && (is_target specific exclude n q && blocks q))
    among q h = ap (◌&& blocks q) h ∙ absorb (contains q n.open_links_list) _ (blocks q)
