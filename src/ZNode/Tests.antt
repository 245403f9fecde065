-- ===== src/ZNode/Tests.antt =====
-- Packets that a ZNode routes.
use anger.Common.{◌≡◌, refl, true, false, [], ◌∷◌, none, some}
use anger.Packet.{Packet, unreliable_sequenced}
use anger.EndPoint.{EndPoint}
use anger.Connection.State.{Clock}
use anger.CoreNode.{Effect as CoreEffect, process_unhandled_packet, recv_user_packet}
use anger.VariableGroupNode.State.{Environment}
use anger.VariableGroupNode.Update.{process_event}
use anger.ZNode.{ZNode, Effect, Program, route, to_groups, to_core}
use anger.ZNode.Dispatched.{dispatched}
use anger.ZNode.Routing.{route-dispatched}

abbrev peer : EndPoint
peer = record { host = 16777343; port = 37151 }

abbrev clock : Clock
clock = record { now = 10; time_since = λ t. 20 }

abbrev environment : Environment
environment = record {
  is_authorative = true;
  is_p2p = false;
  num_open_connections = 1;
  is_packet_delivered = λ t. true;
  ticket_of = λ i. none;
  create_events = record {
    write_event = λ name params id owner. none;
    read_event = λ bytes. none;
    forward_event = λ bytes e. none;
  };
  user_variables = λ name params. none;
}

abbrev program : Program
program = record { find_function = λ name. false; here = [] }

abbrev node : ZNode
node = record {
  core = record {
    is_p2p = false;
    is_listening = true;
    is_super_peer = false;
    critical_errors = 0;
    function_in_error = [];
  };
  connections = record {
    connections = [];
    processing = none;
    relay_connect_and_disconnect = true;
    keep_alive_interval_seconds = 8;
    max_incoming_connections = 2;
    password = [];
  };
  groups = record {
    is_network_id_provider = false;
    unique_ids = [];
    pending_groups = [];
    buffered_groups = [];
    variable_groups = [];
    remote_variable_groups = [];
    last_id_pack_request_ts = 0;
    unique_id_counter = 0;
  };
}

-- A packet of the user, which is to be sent on.
abbrev user_packet : Packet
user_packet = record {
  link_id = 71;
  payload = 40 ∷ 1 ∷ 2 ∷ [];
  channel = 3;
  relay = true;
  first_fragment = true;
  last_fragment = true;
  type = unreliable_sequenced;
}

routed :
    route clock environment program user_packet peer node
    ≡ some (
      node,
      Effect.of_core (CoreEffect.relay peer 40 (1 ∷ 2 ∷ []) unreliable_sequenced 3)
          ∷ Effect.of_core (CoreEffect.custom_data peer 40 (1 ∷ 2 ∷ []) 3)
          ∷ [],
    )
unfolding route to_groups to_core process_event process_unhandled_packet recv_user_packet
routed = refl

route-dispatched_example :
    route clock environment program user_packet peer node
    ≡ dispatched clock environment program user_packet peer node unreliable_sequenced
        (40 ∷ 1 ∷ 2 ∷ [])
route-dispatched_example = route-dispatched clock environment program user_packet peer node
