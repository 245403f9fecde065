-- ===== src/ZNode/Routing.antt =====
-- Which part handles a packet (GameConn/Zerodelay.cpp).
use anger.Common.{
  ℕ, ◌≡◌, refl, ap, true, false, List, [], ◌∷◌, none, some, arith, Bool-cases, Option-cases, inl,
  inr, ◌==◌,
}
use anger.Packet.{
  Packet, reliable_ordered, unreliable_sequenced, reliable_newest, ack, ack_reliable_newest,
  HeaderPacketType,
}
use anger.EndPoint.{EndPoint}
use anger.Connection.State.{Clock, Connection, DataPacketType}
use anger.ConnectionNode.State.{Outcome}
use anger.ConnectionNode.Receive.{
  recv_packet, handled, processed, of_data_id, recv_known, recv_connect_packet,
  handle_invalid_connect_attempt,
}
use anger.VariableGroupNode.State.{VariableGroupNode, Environment}
use anger.VariableGroupNode.Update.{process_event, process_newest, was_handled}
use anger.ZNode.{
  ZNode, Program, to_core, to_groups, to_connections, to_newest, route, environment_of, also,
  connections_done, groups_done, errors_of_connections, errors_of_groups, set_errors,
}
use anger.ZNode.Dispatched.{
  is_of_connections, is_of_groups, by_connections, for_unreliable, for_reliable, by_newest,
  dispatched, connections_done-with_errors, groups_done-with_errors,
}

process_event-unhandled :
    (env : Environment) (id : ℕ) (payload : List ℕ) (e : EndPoint) (n : VariableGroupNode)
    → is_of_groups id ≡ false
    → process_event env id payload e n ≡ (false, n, [])
unfolding process_event was_handled
process_event-unhandled env id payload e n h = ground arith

process_event-handled :
    (env : Environment) (id : ℕ) (payload : List ℕ) (e : EndPoint) (n : VariableGroupNode)
    → is_of_groups id ≡ true
    → (process_event env id payload e n).0 ≡ true
unfolding process_event was_handled
process_event-handled env id payload e n h = ground arith

of_data_id_known :
    (id : ℕ) {type : DataPacketType} → of_data_id id ≡ some type → is_of_connections id ≡ true
unfolding of_data_id
of_data_id_known id h = ground arith

of_data_id_unknown : (id : ℕ) → of_data_id id ≡ none → is_of_connections id ≡ false
unfolding of_data_id
of_data_id_unknown id h = ground arith

module _ (clock : Clock) (env : Environment) (program : Program) (pack : Packet) (id : ℕ)
    (payload : List ℕ) (e : EndPoint) (z : ZNode) where
  to_groups_lem :
      to_groups env program pack id payload e z
      ≡ for_unreliable clock env program pack id payload e z
  unfolding to_groups groups_done errors_of_groups set_errors also to_core
  to_groups_lem = elim (Bool-cases (is_of_groups id)) [
    | inl h ↦
        rw
          (
            process_event-handled (environment_of env z) id payload e z.groups h,
            h,
            to_groups,
            for_unreliable,
          )
          (groups_done-with_errors program
            (process_event (environment_of env z) id payload e z.groups).1
            (process_event (environment_of env z) id payload e z.groups).2 z)
    | inr h ↦
        rw
          (
            process_event-unhandled (environment_of env z) id payload e z.groups h,
            h,
            to_groups,
            for_unreliable,
          )
          refl
  ]

  -- A packet that the connections handle, and one that they do not.
  handled_lem :
      (o : Outcome)
      → recv_packet clock e id payload z.connections ≡ handled o
      → to_connections clock env program pack id payload e z
        ≡ by_connections clock env program pack id payload e z
  unfolding to_connections handled
  handled_lem none h = rw (h, to_connections, by_connections) refl
  handled_lem (some (n', es)) h =
      rw (h, to_connections, by_connections)
        (ap some (connections_done-with_errors program n' es z))

  unhandled_lem :
      recv_packet clock e id payload z.connections ≡ some (false, z.connections, [])
      → to_connections clock env program pack id payload e z
        ≡ some (for_unreliable clock env program pack id payload e z)
  unfolding to_connections also connections_done errors_of_connections set_errors
  unhandled_lem h = rw (h, to_connections) (ap some to_groups_lem)

  to_connections-none :
      processed z.connections ≡ none
      → to_connections clock env program pack id payload e z
        ≡ for_reliable clock env program pack id payload e z
  unfolding recv_packet handled
  to_connections-none q =
      rw (q, for_reliable)
        (elim (Bool-cases (id == 0)) [
          | inl h ↦ handled_lem (recv_connect_packet e payload z.connections) (answer h)
          | inr h ↦
              handled_lem
                (handle_invalid_connect_attempt DataPacketType.invalid_connect e z.connections)
                (refusal h)
        ])
    where
      answer :
          (id == 0) ≡ true
          → recv_packet clock e id payload z.connections
            ≡ handled (recv_connect_packet e payload z.connections)
      answer h = rw (q, h, recv_packet) refl

      refusal :
          (id == 0) ≡ false
          → recv_packet clock e id payload z.connections
            ≡ handled
                (handle_invalid_connect_attempt DataPacketType.invalid_connect e z.connections)
      refusal h = rw (q, h, recv_packet) refl

  to_connections-some :
      (x : EndPoint × Connection)
      → processed z.connections ≡ some x
      → to_connections clock env program pack id payload e z
        ≡ for_reliable clock env program pack id payload e z
  unfolding recv_packet
  to_connections-some (g, c) q = elim (Option-cases (of_data_id id)) [
    | inl u ↦
        rw (q, of_data_id_unknown id u, for_reliable) (unhandled_lem (rw (q, u, recv_packet) refl))
    | inr (type, u) ↦
        rw (q, of_data_id_known id u, for_reliable)
          (handled_lem (recv_known clock type e g payload c z.connections)
            (rw (q, u, recv_packet) refl))
  ]

  to_connections_lem :
      to_connections clock env program pack id payload e z
      ≡ for_reliable clock env program pack id payload e z
  to_connections_lem = elim (Option-cases (processed z.connections)) [
    | inl q ↦ to_connections-none q
    | inr (x, q) ↦ to_connections-some x q
  ]

to_newest_lem :
    (program : Program) (bytes : List ℕ) (e : EndPoint) (z : ZNode)
    → to_newest program bytes e z ≡ by_newest program bytes e z
unfolding to_newest
to_newest_lem program bytes e z = elim (Option-cases (process_newest bytes e z.groups)) [
  | inl q ↦ rw (q, to_newest, by_newest) refl
  | inr ((b, n', es), q) ↦
      rw (q, to_newest, by_newest) (ap some (groups_done-with_errors program n' es z))
]

-- Which part of a node acts on a packet that a link gives. A reliable ordered packet goes to the
-- connections, and to nothing else, if no connection over the link is processed or if its data id is 0
-- to 10. Any other one, and an unreliable sequenced packet, goes to the variable groups alone if its
-- data id is 12, 13, 14 or 16, and to the core alone if not. A reliable newest packet goes to the
-- variable groups. Of that part come all the changes and effects, and the critical errors among the
-- effects of the connections and groups are set on the core, in their order and with one name of a
-- function for all. There is a fault only if the part has one, if the packet has no data id or if its
-- type is another.
pub route-dispatched :
    (clock : Clock) (env : Environment) (program : Program) (pack : Packet) (e : EndPoint)
    (z : ZNode)
    → route clock env program pack e z
      ≡ dispatched clock env program pack e z pack.type pack.payload
unfolding route
route-dispatched clock env program pack e z = by_header pack.type pack.payload
  where
    by_header :
        (type : HeaderPacketType) (bytes : List ℕ)
        → route clock env program (record pack { type = type; payload = bytes }) e z
          ≡ dispatched clock env program
              (record pack { type = type; payload = bytes })
              e
              z
              type
              bytes
    by_header reliable_ordered [] = refl
    by_header reliable_ordered (id ∷ payload) =
        to_connections_lem clock env program
          (record pack { type = reliable_ordered; payload = id ∷ payload }) id payload e z
    by_header unreliable_sequenced [] = refl
    by_header unreliable_sequenced (id ∷ payload) = ap some (
        to_groups_lem clock env program
          (record pack { type = unreliable_sequenced; payload = id ∷ payload }) id payload e z)
    by_header reliable_newest bytes = to_newest_lem program bytes e z
    by_header ack bytes = refl
    by_header ack_reliable_newest bytes = refl
