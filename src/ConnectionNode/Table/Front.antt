-- ===== src/ConnectionNode/Table/Front.antt =====
-- A connection in the middle of the map of a ConnectionNode (GameConn/ConnectionNode.cpp): what it
-- means to look it up, to change it and to erase it there.
use anger.Common.{◌≡◌, refl, true, false, List, [], ◌∷◌, ◌++◌, none, some, arith}
use anger.EndPoint.{EndPoint}
use anger.RecvNode.{same_end_point}
use anger.Connection.State.{Connection}
use anger.ConnectionNode.State.{find_connection, put_connection, erase_connection}
use anger.ConnectionNode.Table.{AreConnections, same_end_point_sym}

pub absent :
    (e : EndPoint) (c : Connection) (front m : List (EndPoint × Connection))
    → AreConnections (front ++ ((e, c) ∷ m))
    → find_connection e front ≡ none
unfolding find_connection
absent e c [] m a = refl
absent e c ((k, d) ∷ front) m (v, f, a) =
    ground (arith, absent e c front m a, apart front f, same_end_point_sym k e)
  where
    apart :
        (front : List (EndPoint × Connection))
        → find_connection k (front ++ ((e, c) ∷ m)) ≡ none
        → same_end_point k e ≡ false
    apart [] f = ground arith
    apart ((j, b) ∷ front) f = ground (arith, apart front)

same_end_point_refl : (e : EndPoint) → same_end_point e e ≡ true
unfolding same_end_point
same_end_point_refl e = ground arith

-- The first connection behind those that are done.
module _ (e : EndPoint) (c : Connection) where
  pub find_connection-front :
      (front m : List (EndPoint × Connection))
      → find_connection e front ≡ none
      → find_connection e (front ++ ((e, c) ∷ m)) ≡ some c
  unfolding find_connection
  find_connection-front [] m h = ground (arith, same_end_point_refl e)
  find_connection-front ((k, d) ∷ front) m h = ground (arith, find_connection-front front m)

  pub put_connection-front :
      (c' : Connection) (front m : List (EndPoint × Connection))
      → find_connection e front ≡ none
      → put_connection e c' (front ++ ((e, c) ∷ m)) ≡ front ++ ((e, c') ∷ m)
  unfolding find_connection put_connection
  put_connection-front c' [] m h = ground (arith, same_end_point_refl e)
  put_connection-front c' ((k, d) ∷ front) m h = ground (arith, put_connection-front c' front m)

  pub erase_connection-front :
      (front m : List (EndPoint × Connection))
      → find_connection e front ≡ none
      → erase_connection e (front ++ ((e, c) ∷ m)) ≡ front ++ m
  unfolding find_connection erase_connection
  erase_connection-front [] m h = ground (arith, same_end_point_refl e)
  erase_connection-front ((k, d) ∷ front) m h = ground (arith, erase_connection-front front m)

pub put_connection-twice :
    (e : EndPoint) (c d : Connection) (m : List (EndPoint × Connection))
    → put_connection e d (put_connection e c m) ≡ put_connection e d m
unfolding put_connection
put_connection-twice e c d [] = refl
put_connection-twice e c d ((k, b) ∷ m) = ground (arith, put_connection-twice e c d m)
