-- ===== src/ConnectionNode/Session.antt =====
-- What happens to a ConnectionNode: the packets of a link are processed, as ZNode::update does
-- (GameConn/Zerodelay.cpp), the node is updated, and the user disconnects.
use anger.Common.{ℕ, Bool, true, List, [], ◌∷◌, Option, none, some}
use anger.EndPoint.{EndPoint}
use anger.Connection.State.{Clock, DisconnectReason, ConnectionState}
use anger.ConnectionNode.State.{ConnectionNode, Effect, Outcome, and_then}
use anger.ConnectionNode.Receive.{recv_packet, begin_process_packets_for, end_process_packets}
use anger.ConnectionNode.Update.{update}
use anger.ConnectionNode.Connect.{disconnect_from, disconnect_all}

-- A reliable ordered packet: its id and its payload.
abbrev pub Received : Type 0
Received = ℕ × List ℕ

pub data Event : Type 0 where
  processed : EndPoint → List Received → Event
  updated : Bool → Event
  disconnected : EndPoint → Event
  disconnected_all : Event

-- Whether the packet was handled is left out.
unfoldable pub done : Option (Bool × ConnectionNode × List Effect) → Outcome
done none = none
done (some (was_handled, n, effects)) = some (n, effects)

unfoldable pub recv_handled : Clock → EndPoint → Received → ConnectionNode → Outcome
recv_handled clock e (id, payload) n = done (recv_packet clock e id payload n)

-- The loop over the packets of one link.
unfoldable pub recv_packets : Clock → EndPoint → List Received → ConnectionNode → Outcome
recv_packets clock e [] n = some (n, [])
recv_packets clock e (pack ∷ packs) n =
    and_then (recv_handled clock e pack n) (recv_packets clock e packs)

unfoldable pub process_packets : Clock → EndPoint → List Received → ConnectionNode → Outcome
unfolding begin_process_packets_for end_process_packets
process_packets clock e packs n =
    and_then (recv_packets clock e packs (begin_process_packets_for e n))
      (λ m. some (end_process_packets m, []))

unfoldable pub perform : Clock → Event → ConnectionNode → Outcome
perform clock (Event.processed e packs) n = process_packets clock e packs n
perform clock (Event.updated has_critical_errors) n = update clock has_critical_errors n
perform clock (Event.disconnected e) n =
    let (result, n', effects) =
      disconnect_from clock e DisconnectReason.closed ConnectionState.disconnected true true n in
    some (n', effects)
perform clock Event.disconnected_all n = some (disconnect_all clock n)

unfoldable pub run : List (Clock × Event) → ConnectionNode → Outcome
run [] n = some (n, [])
run ((clock, event) ∷ events) n = and_then (perform clock event n) (run events)
