-- ===== src/ConnectionNode/Connecting.antt =====
-- ConnectionNode::connect (GameConn/ConnectionNode.cpp), and what is left when it fails.
use anger.Common.{
  ℕ, ◌≡◌, refl, Bool, true, List, [], none, some, arith, Option-cases, Bool-cases, inl, inr,
  if◌then◌else◌,
}
use anger.Util.{Text}
use anger.EndPoint.{EndPoint}
use anger.RecvNode.{RecvNode, add_link}
use anger.Connection.State.{Connection, Clock, new_connection}
use anger.Connection.{send_connect_request}
use anger.ConnectionNode.State.{ConnectionNode, find_connection}
use anger.ConnectionNode.Table.Front.{find_connection-front}
use anger.ConnectionNode.Connect.{ConnectCallResult, Connecting, connect, open_connection}

module _ (clock : Clock) (e : EndPoint) (pw : Text) (timeout_seconds : ℕ) (send_request : Bool)
    (meta_data : List (Text × Text)) (address stale_seq stale_pinned drawn : ℕ) where
  -- The connection that a call leaves behind.
  abbrev pub opened : ConnectionNode → Connection
  opened n =
      let c = new_connection true timeout_seconds n.keep_alive_interval_seconds in
      if send_request then (send_connect_request clock pw meta_data c).0 else c

  opened_known :
      (n : ConnectionNode) (links : RecvNode)
      → find_connection e n.connections ≡ none
      → find_connection e
          (open_connection clock e pw timeout_seconds send_request meta_data n
            links).node.connections
        ≡ some (opened n)
  unfolding open_connection
  opened_known n links f =
      let found = find_connection-front e (opened n) n.connections [] f in
      elim (Bool-cases send_request) [
        | inl p ↦ ground (arith, found)
        | inr p ↦ ground (arith, found)
      ]

  abbrev pub connected_by : ConnectionNode → RecvNode → Connecting
  connected_by n links =
      connect clock true address stale_seq stale_pinned drawn e pw timeout_seconds send_request
        meta_data n links

  -- A connection or a link that is there is left alone.
  connect-known :
      (n : ConnectionNode) (links : RecvNode) {c : Connection}
      → find_connection e n.connections ≡ some c
      → connected_by n links ≡ record {
        result = ConnectCallResult.already_exists;
        node = n;
        links = links;
        effects = [];
      }
  unfolding connect
  connect-known n links f = rw (f, connect) refl

  connect-linked :
      (n : ConnectionNode) (links : RecvNode)
      → find_connection e n.connections ≡ none
      → add_link address stale_seq stale_pinned e drawn links ≡ none
      → connected_by n links ≡ record {
        result = ConnectCallResult.already_exists;
        node = n;
        links = links;
        effects = [];
      }
  unfolding connect
  connect-linked n links f l = rw (f, l, connect) refl

  connect-opened :
      (n : ConnectionNode) (links : RecvNode) {p : ℕ} {links' : RecvNode}
      → find_connection e n.connections ≡ none
      → add_link address stale_seq stale_pinned e drawn links ≡ some (p, links')
      → connected_by n links
        ≡ open_connection clock e pw timeout_seconds send_request meta_data n links'
  unfolding connect
  connect-opened n links f l = rw (f, l, connect) refl

  -- Once the socket is open, a call for an endpoint leaves a connection or a link of it behind,
  -- whatever the call returns, also if the additional data is too much: the same call once more
  -- returns that it already exists, changes nothing and sends nothing.
  pub connect_again :
      (n : ConnectionNode) (links : RecvNode)
      → let after = connected_by n links in
        connected_by after.node after.links ≡ record {
          result = ConnectCallResult.already_exists;
          node = after.node;
          links = after.links;
          effects = [];
        }
  connect_again n links = elim (Option-cases (find_connection e n.connections)) [
    | inr (c, f) ↦ rw (connect-known n links f) (connect-known n links f)
    | inl f ↦ elim (Option-cases (add_link address stale_seq stale_pinned e drawn links)) [
      | inl l ↦ rw (connect-linked n links f l) (connect-linked n links f l)
      | inr ((p, links'), l) ↦
          rw (connect-opened n links f l) (connect-known _ _ (opened_known n links' f))
    ]
  ]
