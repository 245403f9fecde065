-- ===== src/ConnectionNode/Table.antt =====
-- What always holds of the map of connections of a ConnectionNode
-- (GameConn/ConnectionNode.cpp), and how its operations keep it.
pub mod Front
use anger.Common.{
  ℕ, zero, suc, ◌+◌, ◌≤◌, ◌≡◌, refl, Bool, true, false, List, [], ◌∷◌, ◌++◌, Option, none, some,
  arith, length, if◌then◌else◌, Bool-cases, inl, inr,
}
use anger.EndPoint.{EndPoint}
use anger.RecvNode.{same_end_point}
use anger.Connection.State.{Connection, DataPacketType}
use anger.Connection.{is_connected}
use anger.Connection.Invariant.{IsValid, is_released}
use anger.ConnectionNode.State.{Effect, find_connection, put_connection, erase_connection}
use anger.ConnectionNode.Relay.{send_to_others}

-- No endpoint has two connections, and each connection is valid.
abbrev pub AreConnections : List (EndPoint × Connection) → Type 0
AreConnections [] = Unit {0}
AreConnections ((k, c) ∷ m) = IsValid c × (find_connection k m ≡ none) × AreConnections m

pub found-IsValid :
    (e : EndPoint) (m : List (EndPoint × Connection)) {c : Connection}
    → AreConnections m
    → find_connection e m ≡ some c
    → IsValid c
unfolding find_connection
found-IsValid e [] {c} a h = cc
found-IsValid e ((k, d) ∷ m) {c} (v, f, a) h = ground (arith, found-IsValid e m {c = c} a)

find_connection-put_connection :
    (k e : EndPoint) (c : Connection) (m : List (EndPoint × Connection))
    → find_connection k m ≡ none
    → find_connection k (put_connection e c m) ≡ none
unfolding find_connection put_connection
find_connection-put_connection k e c [] h = refl
find_connection-put_connection k e c ((j, d) ∷ m) h =
    ground (arith, find_connection-put_connection k e c m)

find_connection-erase_connection :
    (k e : EndPoint) (m : List (EndPoint × Connection))
    → find_connection k m ≡ none
    → find_connection k (erase_connection e m) ≡ none
unfolding find_connection erase_connection
find_connection-erase_connection k e [] h = refl
find_connection-erase_connection k e ((j, d) ∷ m) h =
    ground (arith, find_connection-erase_connection k e m)

pub same_end_point_sym : (a b : EndPoint) → same_end_point a b ≡ same_end_point b a
unfolding same_end_point
same_end_point_sym a b = ground arith

find_connection-snoc :
    (k e : EndPoint) (c : Connection) (m : List (EndPoint × Connection))
    → find_connection k m ≡ none
    → same_end_point k e ≡ false
    → find_connection k (m ++ ((e, c) ∷ [])) ≡ none
unfolding find_connection
find_connection-snoc k e c [] h s = ground arith
find_connection-snoc k e c ((j, d) ∷ m) h s = ground (arith, find_connection-snoc k e c m)

module _ (e : EndPoint) (c : Connection) where
  pub put_connection-AreConnections :
      (m : List (EndPoint × Connection))
      → IsValid c
      → AreConnections m
      → AreConnections (put_connection e c m)
  unfolding put_connection
  put_connection-AreConnections [] w a = a
  put_connection-AreConnections ((k, d) ∷ m) w (v, f, a) = elim (Bool-cases (same_end_point e k)) [
    | inl p ↦ rw p (w, f, a)
    | inr p ↦
        rw p (v, find_connection-put_connection k e c m f, put_connection-AreConnections m w a)
  ]

  pub snoc-AreConnections :
      (m : List (EndPoint × Connection))
      → IsValid c
      → find_connection e m ≡ none
      → AreConnections m
      → AreConnections (m ++ ((e, c) ∷ []))
  unfolding find_connection
  snoc-AreConnections [] w h a = (w, refl, a)
  snoc-AreConnections ((k, d) ∷ m) w h (v, f, a) = (
    v,
    find_connection-snoc k e c m f (ground (arith, same_end_point_sym k e)),
    snoc-AreConnections m w (ground arith) a,
  )

pub erase_connection-AreConnections :
    (e : EndPoint) (m : List (EndPoint × Connection))
    → AreConnections m
    → AreConnections (erase_connection e m)
unfolding erase_connection
erase_connection-AreConnections e [] a = a
erase_connection-AreConnections e ((k, d) ∷ m) (v, f, a) = elim (Bool-cases (same_end_point e k)) [
  | inl p ↦ rw p a
  | inr p ↦
      rw p (v, find_connection-erase_connection k e m f, erase_connection-AreConnections e m a)
]

pub length-put_connection :
    (e : EndPoint) (c : Connection) (m : List (EndPoint × Connection))
    → length (put_connection e c m) ≡ length m
unfolding put_connection
length-put_connection e c [] = refl
length-put_connection e c ((k, d) ∷ m) = ground (arith, length-put_connection e c m)

pub length-erase_connection :
    (e : EndPoint) (m : List (EndPoint × Connection)) → length (erase_connection e m) ≤ length m
unfolding erase_connection
length-erase_connection e [] = omega arith
length-erase_connection e ((k, d) ∷ m) = ground (arith, length-erase_connection e m)

connected-has_link : (c : Connection) → IsValid c → is_connected c.state ≡ true → c.has_link ≡ true
unfolding is_connected is_released
connected-has_link c v h = ground (arith, v.link_kept)

-- A connection that is connected has its link, so that a message can be sent to all of them.
pub send_to_others_returns :
    (e : EndPoint) (type : DataPacketType) (payload : List ℕ) (m : List (EndPoint × Connection))
    → AreConnections m
    → (effects : List Effect) × (send_to_others e type payload m ≡ some effects)
unfolding send_to_others
send_to_others_returns e type payload [] a = ([], refl)
send_to_others_returns e type payload ((k, c) ∷ m) (v, f, a) =
    let (effects, h) = send_to_others_returns e type payload m a in
    elim (Bool-cases (same_end_point k e)) [
      | inl p ↦ (effects, rw p h)
      | inr p ↦ elim (Bool-cases (is_connected c.state)) [
        | inr n ↦ (effects, rw (p, n) h)
        | inl y ↦
            (Effect.send k type payload ∷ effects, rw (p, y, connected-has_link c v y, h) refl)
      ]
    ]
