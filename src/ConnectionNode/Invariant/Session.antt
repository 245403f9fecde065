-- ===== src/ConnectionNode/Invariant/Session.antt =====
-- A ConnectionNode over time (GameConn/ConnectionNode.cpp): whatever it receives and is asked for.
use anger.Common.{
  ℕ, ◌≡◌, ◌≢◌, refl, Bool, true, false, List, [], ◌∷◌, Option, none, some, arith, length, ap, ◌∙◌,
  Option-cases, inl, inr, ◌==◌, if◌then◌else◌,
}
use anger.EndPoint.{EndPoint}
use anger.Connection.State.{Connection, DataPacketType, Clock}
use anger.Connection.Invariant.{IsValid}
use anger.ConnectionNode.State.{ConnectionNode, Outcome, find_connection}
use anger.ConnectionNode.Table.{AreConnections, found-IsValid}
use anger.ConnectionNode.Receive.{
  of_data_id, recv_known, processed, recv_packet, recv_connect_packet, handled,
  handle_invalid_connect_attempt, begin_process_packets_for, end_process_packets,
}
use anger.ConnectionNode.Connect.{disconnect_all}
use anger.ConnectionNode.Session.{
  Received, Event, done, recv_handled, recv_packets, process_packets, perform, run,
}
use anger.ConnectionNode.Invariant.{Keeps, Keeps-and_then, unchanged-Keeps}
use anger.ConnectionNode.Invariant.Receive.{
  recv_connect_packet-Keeps, recv_known-Keeps, refused-Keeps,
}
use anger.ConnectionNode.Invariant.Update.{update-Keeps, disconnect_from-Keeps}

-- The news of a remote disconnection, id 4, goes on behind the six bytes of its endpoint.
abbrev pub IsWhole : Received → Type 0
IsWhole (id, payload) = id ≡ 4 → length payload ≢ 6

abbrev pub AreWhole : List Received → Type 0
AreWhole [] = Unit {0}
AreWhole (pack ∷ packs) = IsWhole pack × AreWhole packs

abbrev pub IsWholeEvent : Event → Type 0
IsWholeEvent (Event.processed e packs) = AreWhole packs
IsWholeEvent _ = Unit {0}

abbrev pub AreWholeEvents : List (Clock × Event) → Type 0
AreWholeEvents [] = Unit {0}
AreWholeEvents ((clock, event) ∷ events) = IsWholeEvent event × AreWholeEvents events

remote_disconnected_id : (id : ℕ) → of_data_id id ≡ some DataPacketType.remote_disconnected → id ≡ 4
unfolding of_data_id
remote_disconnected_id id h = ground arith

module _ (clock : Clock) (e : EndPoint) (n : ConnectionNode)
    (a : AreConnections n.connections) where
  done-Keeps : (r : Outcome) → Keeps n r → Keeps n (done (handled r))
  unfolding done handled
  done-Keeps none h = h
  done-Keeps (some (m, effects)) h = h

  processed-found :
      {g : EndPoint} {c : Connection}
      → processed n ≡ some (g, c)
      → find_connection g n.connections ≡ some c
  unfolding processed
  processed-found {g} {c} h = ground (arith)

  known-Keeps :
      (g : EndPoint) (c : Connection) (id : ℕ) (payload : List ℕ) (type : Option DataPacketType)
      → of_data_id id ≡ type
      → IsWhole (id, payload)
      → IsValid c
      → Keeps n (
          done (elim type [
            | none ↦ some (false, n, [])
            | some t ↦ handled (recv_known clock t e g payload c n)
          ]))
  unfolding done
  known-Keeps g c id payload none q w v = unchanged-Keeps n a []
  known-Keeps g c id payload (some t) q w v = done-Keeps (recv_known clock t e g payload c n) (
      recv_known-Keeps n a g clock t e payload c v
        (λ r. w (remote_disconnected_id id (q ∙ ap some r))))

  recv_handled-Keeps : (pack : Received) → IsWhole pack → Keeps n (recv_handled clock e pack n)
  unfolding recv_handled recv_packet done
  recv_handled-Keeps (id, payload) w = elim (Option-cases (processed n)) [
    | inr ((g, c), p) ↦
        rw (p, Keeps)
          (known-Keeps g c id payload (of_data_id id) refl w
            (found-IsValid g n.connections a (processed-found p)))
    | inl p ↦ rw (p, Keeps) (unknown (id == 0))
  ]
    where
      unknown :
          (b : Bool)
          → Keeps n (
              done (
                if b
                then handled (recv_connect_packet e payload n)
                else handled (handle_invalid_connect_attempt DataPacketType.invalid_connect e n)))
      unknown true =
          done-Keeps (recv_connect_packet e payload n) (recv_connect_packet-Keeps n a e payload)
      unknown false =
          done-Keeps (handle_invalid_connect_attempt DataPacketType.invalid_connect e n)
            (refused-Keeps n a e DataPacketType.invalid_connect)

recv_packets-Keeps :
    (clock : Clock) (e : EndPoint) (packs : List Received) (n : ConnectionNode)
    → AreWhole packs
    → AreConnections n.connections
    → Keeps n (recv_packets clock e packs n)
unfolding recv_packets
recv_packets-Keeps clock e [] n w a = unchanged-Keeps n a []
recv_packets-Keeps clock e (pack ∷ packs) n (p, w) a =
    Keeps-and_then n (recv_handled clock e pack n) (recv_packets clock e packs)
      (recv_handled-Keeps clock e n a pack p) (λ m. recv_packets-Keeps clock e packs m w)

module _ (clock : Clock) (e : EndPoint) (n : ConnectionNode)
    (a : AreConnections n.connections) where
  begun-Keeps :
      (packs : List Received)
      → AreWhole packs
      → Keeps n (recv_packets clock e packs (begin_process_packets_for e n))
  unfolding begin_process_packets_for
  begun-Keeps packs w = elim (Option-cases (find_connection e n.connections)) [
    | inl f ↦ rw (f, begin_process_packets_for) (recv_packets-Keeps clock e packs n w a)
    | inr (c, f) ↦
        rw (f, begin_process_packets_for)
          (recv_packets-Keeps clock e packs (record n { processing = some e }) w a)
  ]

  process_packets-Keeps :
      (packs : List Received) → AreWhole packs → Keeps n (process_packets clock e packs n)
  unfolding process_packets end_process_packets
  process_packets-Keeps packs w =
      Keeps-and_then n (recv_packets clock e packs (begin_process_packets_for e n))
        (λ m. some (end_process_packets m, [])) (begun-Keeps packs w)
        (λ m b. (b, refl, omega arith))

perform-Keeps :
    (clock : Clock) (event : Event) (n : ConnectionNode)
    → IsWholeEvent event
    → AreConnections n.connections
    → Keeps n (perform clock event n)
unfolding perform
perform-Keeps clock (Event.processed e packs) n w a = process_packets-Keeps clock e n a packs w
perform-Keeps clock (Event.updated has_critical_errors) n w a =
    update-Keeps clock has_critical_errors n a
perform-Keeps clock (Event.disconnected e) n w a = disconnect_from-Keeps clock e n a
perform-Keeps clock Event.disconnected_all n w a = unfold disconnect_all in (tt, refl, omega arith)

-- Whatever packets are received from whatever endpoints, however often the node is updated, and
-- whatever the user disconnects, no link that is null is used, each endpoint has at most one
-- connection, each connection is valid, and there are never more connections than the larger of
-- their first number and the number of incoming ones that is allowed. No packet of a remote
-- disconnection ends with its endpoint.
pub run-Keeps :
    (events : List (Clock × Event)) (n : ConnectionNode)
    → AreWholeEvents events
    → AreConnections n.connections
    → Keeps n (run events n)
unfolding run
run-Keeps [] n w a = unchanged-Keeps n a []
run-Keeps ((clock, event) ∷ events) n (v, w) a =
    Keeps-and_then n (perform clock event n) (run events) (perform-Keeps clock event n v a)
      (λ m. run-Keeps events m w)
