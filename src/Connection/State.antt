-- ===== src/Connection/State.antt =====
-- The data of a Connection (GameConn/Connection.h) and what its methods ask of others.
use anger.Common.{ℕ, ◌*◌, Bool, true, false, List, Option, none}

-- EConnectionState
pub data ConnectionState : Type 0 where
  idle connecting initiate_timed_out invalid_password max_connections_reached : ConnectionState
  invalid_connect_packet connected connection_timed_out disconnected : ConnectionState

-- EDataPacketType, those of the connection layer (GameConn/Zerodelay.h)
pub data DataPacketType : Type 0 where
  connect_request connect_accept disconnect remote_connected remote_disconnected : DataPacketType
  keep_alive_request keep_alive_answer incorrect_password : DataPacketType
  max_connections already_connected invalid_connect : DataPacketType

-- EConnectResult
pub data ConnectResult : Type 0 where
  succes timedout password_refused full already invalid_packet : ConnectResult

-- EDisconnectReason
pub data DisconnectReason : Type 0 where
  closed lost : DisconnectReason

-- What a method does to the link and to the connection node: `addToSendQueue` with a system
-- message, `setConnected`, the release of the link (`blockAllUpcomingSends` and
-- `markPendingDelete`), and the two callbacks.
pub data Action : Type 0 where
  send_system : DataPacketType → List ℕ → Action
  set_link_connected : Bool → Action
  release_link : Action
  do_connect_result : ConnectResult → Action
  do_disconnect : Bool → DisconnectReason → Action

-- A time stamp is `none` for the initial value -1. `has_link` says that `m_Link` is not null.
-- `keep_alive_interval_ms` is 0 for an interval that is not positive.
pub record Connection : Type 0 where
  pub has_link : Bool
  pub was_connector : Bool
  pub disconnect_called : Bool
  pub connect_timeout_ms : ℕ
  pub keep_alive_interval_ms : ℕ
  pub start_connecting_ts : Option ℕ
  pub keep_alive_ts : Option ℕ
  pub disconnect_ts : Option ℕ
  pub is_waiting_for_keep_alive : Bool
  pub state : ConnectionState

-- `::clock()` and Util::getTimeSince, which computes with floats: what the clock says, and the
-- milliseconds since a time stamp.
pub record Clock : Type 0 where
  pub now : ℕ
  pub time_since : Option ℕ → ℕ

-- The connection and the actions in their order; `none` is the use of a link that is null.
abbrev pub Outcome : Type 0
Outcome = Option (Connection × List Action)

-- The constructor; the link is given.
unfoldable pub new_connection : Bool → ℕ → ℕ → Connection
new_connection was_connector timeout_seconds keep_alive_interval_seconds = record {
  has_link = true;
  was_connector = was_connector;
  disconnect_called = false;
  connect_timeout_ms = timeout_seconds * 1000;
  keep_alive_interval_ms = keep_alive_interval_seconds * 1000;
  start_connecting_ts = none;
  keep_alive_ts = none;
  disconnect_ts = none;
  is_waiting_for_keep_alive = false;
  state = ConnectionState.idle;
}
