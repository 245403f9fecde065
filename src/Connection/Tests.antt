-- ===== src/Connection/Tests.antt =====
-- Runs of a Connection, and its theorems at concrete inputs.
use anger.Common.{◌≡◌, refl, true, false, List, [], ◌∷◌, none, some}
use anger.Connection.State.{
  ConnectionState, DataPacketType, ConnectResult, DisconnectReason, Action, Connection, Clock,
}
use anger.Connection.{Event, run, ask_alive, await_alive}
use anger.Connection.Invariant.{IsValid, Returns, run-Fair, is_released}
use anger.Connection.Lifetime.{StaysEnded, run_ended, is_final}

abbrev early : Clock
early = record { now = 10; time_since = λ t. 20 }

abbrev late : Clock
late = record { now = 9000; time_since = λ t. 8500 }

-- A connection that asks for a server.
abbrev asking : Connection
asking = record {
  has_link = true;
  was_connector = true;
  disconnect_called = false;
  connect_timeout_ms = 8000;
  keep_alive_interval_ms = 8000;
  start_connecting_ts = some 1;
  keep_alive_ts = none;
  disconnect_ts = none;
  is_waiting_for_keep_alive = false;
  state = ConnectionState.connecting;
}

abbrev session : List (Clock × Event)
session = (early, Event.accepted) ∷ (late, Event.update) ∷ (late, Event.update) ∷ []

-- It is accepted, asks whether the remote is alive, hears nothing, and is lost.
session-run :
    run session asking
    ≡ some (
      record asking {
        has_link = false;
        disconnect_called = true;
        is_waiting_for_keep_alive = true;
        keep_alive_ts = some 9000;
        disconnect_ts = some 9000;
        state = ConnectionState.connection_timed_out;
      },
      Action.do_connect_result ConnectResult.succes
          ∷ Action.send_system DataPacketType.keep_alive_request []
          ∷ Action.do_disconnect true DisconnectReason.lost
          ∷ Action.release_link
          ∷ [],
    )
unfolding run ask_alive await_alive
session-run = refl

asking-IsValid : IsValid asking
unfolding is_released
asking-IsValid = record { link_kept = refl; link_gone = λ e. cc }

run-Fair_example : Returns asking (run session asking)
run-Fair_example = run-Fair session asking asking-IsValid

abbrev given_up : Connection
given_up = record asking { state = ConnectionState.invalid_password }

run_ended_example : StaysEnded (run session given_up)
unfolding is_final
run_ended_example = run_ended session given_up refl
