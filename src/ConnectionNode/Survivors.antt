-- ===== src/ConnectionNode/Survivors.antt =====
-- ConnectionNode::update (GameConn/ConnectionNode.cpp), which erases from the map that it goes
-- through, against a reference that takes each connection by itself.
use anger.Common.{
  ◌≡◌, refl, true, false, List, [], ◌∷◌, ◌++◌, map, Option, none, some, if◌then◌else◌, Bool-cases,
  inl, inr, ◌||◌, ◌&&◌, not, sym,
}
use mathlib.Core.Path.{subst}
use mathlib.Core.List.{append_assoc}
use anger.EndPoint.{EndPoint}
use anger.Connection.State.{Connection, Clock, Action}
use anger.Connection.{is_connected, is_connecting, clean_link, update_connecting, update_keep_alive}
use anger.Connection.Invariant.{IsValid, Returns, update_connecting-Fair, update_keep_alive-Fair}
use anger.ConnectionNode.State.{ConnectionNode, Effect, put_connection, actions_of}
use anger.ConnectionNode.Table.{
  AreConnections, found-IsValid, erase_connection-AreConnections, put_connection-AreConnections,
}
use anger.ConnectionNode.Relay.Returns.{and_then-some, relayed_returns}
use anger.ConnectionNode.Table.Front.{
  absent, find_connection-front, put_connection-front, erase_connection-front, put_connection-twice,
}
use anger.ConnectionNode.Relay.{send_remote_disconnected}
use anger.ConnectionNode.Receive.{after_handler}
use anger.ConnectionNode.Update.{
  delete_connection, update_keep_alive_of, update_connection, update_entry, update_entries, update,
}

-- A connection after updateConnecting and updateKeepAlive.
unfoldable pub stepped : Clock → Connection → Connection
stepped clock c = elim (update_connecting clock c) [
  | none ↦ c
  | some (c₁, xs) ↦ elim (update_keep_alive clock c₁) [ none ↦ c₁ | some (c₂, ys) ↦ c₂ ]
]

-- Each connection that is connecting or connected is updated, the others are gone.
unfoldable pub survivors : Clock → List (EndPoint × Connection) → List (EndPoint × Connection)
survivors clock [] = []
survivors clock ((e, c) ∷ m) =
    let rest = survivors clock m in
    if is_connected c.state || is_connecting c.state then (e, stepped clock c) ∷ rest else rest

Returns-some :
    (c : Connection) (r : Option (Connection × List Action))
    → Returns c r
    → (c' : Connection) × (actions : List Action) × (r ≡ some (c', actions)) × IsValid c'
Returns-some c none h = absurd h
Returns-some c (some (c', actions)) h = (c', actions, refl, h.valid)

stepped_lem :
    (clock : Clock) (c : Connection) {c₁ c₂ : Connection} {xs ys : List Action}
    → update_connecting clock c ≡ some (c₁, xs)
    → update_keep_alive clock c₁ ≡ some (c₂, ys)
    → stepped clock c ≡ c₂
unfolding stepped
stepped_lem clock c p q = rw (p, q, stepped) refl

put_in : EndPoint → Connection → ConnectionNode → ConnectionNode
put_in e c n = record n { connections = put_connection e c n.connections }

module _ (clock : Clock) (e : EndPoint) (n : ConnectionNode)
    (a : AreConnections n.connections) where
  update_keep_alive_of-put :
      (c : Connection) {c' : Connection} {actions : List Action}
      → IsValid c'
      → update_keep_alive clock c ≡ some (c', actions)
      → (effects : List Effect) × (update_keep_alive_of clock e c n ≡ some (put_in e c' n, effects))
  unfolding update_keep_alive_of after_handler put_in
  update_keep_alive_of-put c {c'} {actions} v q =
      let relay =
        is_connected c.state && (not (is_connected c'.state) && n.relay_connect_and_disconnect) in
      let (effects, h) =
        relayed_returns e 1 relay (put_in e c' n)
          (put_connection-AreConnections e c' n.connections v a) in
      (
        actions_of e actions ++ effects,
        rw (q, update_keep_alive_of)
            (and_then-some (put_in e c' n) (actions_of e actions)
              (if relay then send_remote_disconnected e 1 else λ m. some (m, [])) h),
      )

module _ (clock : Clock) (e : EndPoint) (n : ConnectionNode)
    (a : AreConnections n.connections) where
  update_connection-both :
      (c : Connection) {c₁ c₂ : Connection} {xs ys : List Action}
      → update_connecting clock c ≡ some (c₁, xs)
      → IsValid c₁
      → update_keep_alive clock c₁ ≡ some (c₂, ys)
      → IsValid c₂
      → (effects : List Effect) × (update_connection clock e c n
          ≡ some (put_in e (stepped clock c) n, effects))
  unfolding update_connection after_handler put_in
  update_connection-both c {c₁} {c₂} {xs} {ys} p v₁ q v₂ =
      let (effects, h) =
        update_keep_alive_of-put clock e (put_in e c₁ n)
          (put_connection-AreConnections e c₁ n.connections v₁ a) c₁ v₂ q in
      (
        actions_of e xs ++ effects,
        rw
            (
              p,
              update_connection,
              stepped_lem clock c p q,
              sym (put_connection-twice e c₁ c₂ n.connections),
            )
            (and_then-some (put_in e c₁ n) (actions_of e xs) (update_keep_alive_of clock e c₁) h),
      )

  update_connection-put :
      (c : Connection)
      → IsValid c
      → (effects : List Effect) × (update_connection clock e c n
          ≡ some (put_in e (stepped clock c) n, effects))
        × IsValid (stepped clock c)
  update_connection-put c v =
      let (c₁, xs, p, v₁) =
        Returns-some c (update_connecting clock c) (update_connecting-Fair clock c v) in
      let (c₂, ys, q, v₂) =
        Returns-some c₁ (update_keep_alive clock c₁) (update_keep_alive-Fair clock c₁ v₁) in
      let (effects, h) = update_connection-both c p v₁ q v₂ in
      (effects, h, rw (stepped_lem clock c p q) v₂)

module _ (clock : Clock) (n : ConnectionNode) where
  at : List (EndPoint × Connection) → ConnectionNode
  at m = record n { connections = m }

  module _ (e : EndPoint) (c : Connection) (front m : List (EndPoint × Connection))
      (a : AreConnections (front ++ ((e, c) ∷ m))) where
    alive_entry :
        (is_connected c.state || is_connecting c.state) ≡ true
        → (effects : List Effect) × (update_entry clock e (at (front ++ ((e, c) ∷ m)))
            ≡ some (at (front ++ ((e, stepped clock c) ∷ m)), effects))
          × AreConnections (front ++ ((e, stepped clock c) ∷ m))
    unfolding update_entry at put_in
    alive_entry alive =
        let f = absent e c front m a in
        let found = find_connection-front e c front m f in
        let v = found-IsValid e (front ++ ((e, c) ∷ m)) a found in
        let (effects, h, w) = update_connection-put clock e (at (front ++ ((e, c) ∷ m))) a c v in
        let put = put_connection-front e c (stepped clock c) front m f in
        (
          effects,
          rw (found, alive, h, put, update_entry) refl,
          subst AreConnections put
              (put_connection-AreConnections e (stepped clock c) (front ++ ((e, c) ∷ m)) w a),
        )

    dead_entry :
        (is_connected c.state || is_connecting c.state) ≡ false
        → (effects : List Effect) × (update_entry clock e (at (front ++ ((e, c) ∷ m)))
            ≡ some (at (front ++ m), effects))
          × AreConnections (front ++ m)
    unfolding update_entry at delete_connection
    dead_entry dead =
        let f = absent e c front m a in
        let found = find_connection-front e c front m f in
        let erased = erase_connection-front e c front m f in
        (
          actions_of e (clean_link c).1,
          rw (found, dead, erased, update_entry) refl,
          subst AreConnections erased (erase_connection-AreConnections e (front ++ ((e, c) ∷ m)) a),
        )

  update_entries-front :
      (front m : List (EndPoint × Connection))
      → AreConnections (front ++ m)
      → (effects : List Effect) × (update_entries clock (map (λ x. x.0) m) (at (front ++ m))
          ≡ some (at (front ++ survivors clock m), effects))
  unfolding update_entries survivors
  update_entries-front front [] a = ([], refl)
  update_entries-front front ((e, c) ∷ m) a =
      elim (Bool-cases (is_connected c.state || is_connecting c.state)) [
        | inl alive ↦
            let (es, h, b) = alive_entry e c front m a alive in
            let (fs, k) =
              update_entries-front (front ++ ((e, stepped clock c) ∷ [])) m
                (subst AreConnections (sym (append_assoc front ((e, stepped clock c) ∷ []) m)) b) in
            (
              es ++ fs,
              rw (h, alive, update_entries, survivors)
                  (and_then-some (at (front ++ ((e, stepped clock c) ∷ m))) es
                    (update_entries clock (map (λ x. x.0) m))
                    (rw
                      (
                        sym (append_assoc front ((e, stepped clock c) ∷ []) m),
                        sym (append_assoc front ((e, stepped clock c) ∷ []) (survivors clock m)),
                      )
                      k)),
            )
        | inr dead ↦
            let (es, h, b) = dead_entry e c front m a dead in
            let (fs, k) = update_entries-front front m b in
            (
              es ++ fs,
              rw (h, dead, update_entries, survivors)
                  (and_then-some (at (front ++ m)) es (update_entries clock (map (λ x. x.0) m)) k),
            )
      ]

-- An update of a node leaves exactly the connections that were connecting or connected, in their
-- order, each as its own update leaves it, although connections are erased from the map while the
-- loop goes through it, and each is looked up and changed in the map; nothing else of the node
-- changes. The connections are valid and no endpoint has two.
pub update-survivors :
    (clock : Clock) (n : ConnectionNode)
    → AreConnections n.connections
    → (effects : List Effect) × (update clock false n
        ≡ some (record n { connections = survivors clock n.connections }, effects))
unfolding update at
update-survivors clock n a = update_entries-front clock n [] n.connections a
