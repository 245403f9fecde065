-- ===== src/Connection.antt =====
-- Connection (GameConn/Connection.h, GameConn/Connection.cpp): the state machine of a connection
-- to one endpoint, above its link.
pub mod State
pub mod Invariant
pub mod Lifetime
mod Tests
use anger.Common.{
  ℕ, ◌+◌, ◌*◌, Bool, true, false, not, List, [], ◌∷◌, ◌++◌, Option, none, some, if◌then◌else◌, ltb,
  leb, length,
}
use anger.Link.State.{buff_size}
use anger.Util.{Text, append_all}
use anger.Util.Strings.{flat}
use anger.Connection.State.{
  ConnectionState, DataPacketType, ConnectResult, DisconnectReason, Action, Connection, Clock,
  Outcome,
}
use anger.Connection.State.ConnectionState.{
  idle, connecting, initiate_timed_out, invalid_password, max_connections_reached,
  invalid_connect_packet, connected, connection_timed_out, disconnected,
}

-- `m_State == state`, for the three states that the methods ask for.
unfoldable pub is_idle : ConnectionState → Bool
is_idle idle = true
is_idle _ = false

unfoldable pub is_connecting : ConnectionState → Bool
is_connecting connecting = true
is_connecting _ = false

-- isConnected
unfoldable pub is_connected : ConnectionState → Bool
is_connected connected = true
is_connected _ = false

-- A log line that names the link: `m_Link->id()` faults if the link is null.
unfoldable pub log_link : Connection → List Action → Outcome
log_link c actions = if c.has_link then some (c, actions) else none

-- sendSystemMessage: without a link nothing is sent.
unfoldable pub send_system_message : Connection → DataPacketType → List ℕ → List Action
send_system_message c type payload = if c.has_link then Action.send_system type payload ∷ [] else []

-- cleanLink
unfoldable pub clean_link : Connection → Connection × List Action
clean_link c =
    if c.has_link then (record c { has_link = false }, Action.release_link ∷ []) else (c, [])

-- What disconnect tells others, if the connection was connected.
say_goodbye : Connection → Bool → DisconnectReason → Bool → List Action
unfolding is_connected send_system_message
say_goodbye c is_direct_link reason send_msg =
    if is_connected c.state
    then (if send_msg then send_system_message c DataPacketType.disconnect [] else [])
      ++ (Action.do_disconnect is_direct_link reason ∷ [])
    else []

-- disconnect
unfoldable pub disconnect :
    Clock → Bool → DisconnectReason → ConnectionState → Bool → Connection → Connection × List Action
unfolding say_goodbye clean_link
disconnect clock is_direct_link reason new_state send_msg c =
    let (c', released) =
      clean_link (record c {
        disconnect_called = true;
        disconnect_ts = some clock.now;
        state = new_state;
      }) in
    if c.disconnect_called
    then (c, [])
    else (c', say_goodbye c is_direct_link reason send_msg ++ released)

-- A refusal while connecting: a new state, the callback, and a log line.
refuse : ConnectionState → ConnectResult → Connection → Outcome
unfolding is_connecting log_link
refuse new_state result c =
    if is_connecting c.state
    then log_link (record c { state = new_state }) (Action.do_connect_result result ∷ [])
    else some (c, [])

unfoldable pub set_invalid_password : Connection → Outcome
unfolding refuse
set_invalid_password = refuse invalid_password ConnectResult.password_refused

unfoldable pub set_max_connections_reached : Connection → Outcome
unfolding refuse
set_max_connections_reached = refuse max_connections_reached ConnectResult.full

unfoldable pub set_invalid_connect_packet : Connection → Outcome
unfolding refuse
set_invalid_connect_packet = refuse invalid_connect_packet ConnectResult.invalid_packet

-- sendConnectRequest, called on a new connection: the password and the pairs are written to the
-- send buffer; `false` if they do not fit, with nothing sent.
unfoldable pub send_connect_request :
    Clock → Text → List (Text × Text) → Connection → Connection × Bool × List Action
unfolding send_system_message
send_connect_request clock pw meta_data c =
    let c' = record c { state = connecting; start_connecting_ts = some clock.now } in
    elim (append_all buff_size (pw ∷ flat meta_data)) [
      | none ↦ (c', false, [])
      | some payload ↦ (c', true, send_system_message c' DataPacketType.connect_request payload)
    ]

-- sendConnectAccept, called on a new connection.
unfoldable pub send_connect_accept : Connection → Outcome
unfolding send_system_message log_link
send_connect_accept c =
    let c' = record c { state = connected } in
    log_link c'
      (Action.set_link_connected true ∷ send_system_message c' DataPacketType.connect_accept [])

unfoldable pub send_keep_alive_request : Clock → Connection → Connection × List Action
unfolding is_connected send_system_message
send_keep_alive_request clock c =
    if is_connected c.state
    then (
      record c { keep_alive_ts = some clock.now },
      send_system_message c DataPacketType.keep_alive_request [],
    )
    else (c, [])

unfoldable pub send_keep_alive_answer : Connection → Connection × List Action
unfolding is_connected send_system_message
send_keep_alive_answer c =
    if is_connected c.state
    then (c, send_system_message c DataPacketType.keep_alive_answer [])
    else (c, [])

unfoldable pub on_receive_connect_accept : Clock → Connection → Outcome
unfolding is_connecting log_link
on_receive_connect_accept clock c =
    if is_connecting c.state
    then log_link (record c { state = connected; keep_alive_ts = some clock.now })
        (Action.do_connect_result ConnectResult.succes ∷ [])
    else some (c, [])

unfoldable pub on_receive_disconnect : Clock → Connection → Outcome
unfolding is_connected disconnect
on_receive_disconnect clock c =
    let after = disconnect clock true DisconnectReason.closed disconnected false c in
    if is_connected c.state then (if c.has_link then some after else none) else some (c, [])

unfoldable pub on_receive_keep_alive_request : Connection → Connection × List Action
unfolding is_connected send_system_message
on_receive_keep_alive_request c =
    if is_connected c.state
    then (c, send_system_message c DataPacketType.keep_alive_answer [])
    else (c, [])

unfoldable pub on_receive_keep_alive_answer : Clock → Connection → Connection × List Action
on_receive_keep_alive_answer clock c =
    if c.is_waiting_for_keep_alive
    then (record c { is_waiting_for_keep_alive = false; keep_alive_ts = some clock.now }, [])
    else (c, [])

timed_out : Connection → Outcome
unfolding clean_link
timed_out c =
    let (c', released) = clean_link c in
    if c.has_link
    then some (c', Action.do_connect_result ConnectResult.timedout ∷ released)
    else none

unfoldable pub update_connecting : Clock → Connection → Outcome
unfolding is_connecting timed_out
update_connecting clock c =
    if is_connecting c.state
    then (if leb c.connect_timeout_ms (clock.time_since c.start_connecting_ts)
        then timed_out (record c { state = initiate_timed_out })
        else some (c, []))
    else some (c, [])

-- The part of updateKeepAlive for a connection that has sent no request yet.
unfoldable pub ask_alive : Clock → Connection → Outcome
unfolding send_keep_alive_request
ask_alive clock c =
    let (c', sent) = send_keep_alive_request clock c in
    if ltb c.keep_alive_interval_ms (clock.time_since c.keep_alive_ts)
    then some (record c' { is_waiting_for_keep_alive = true }, sent)
    else some (c, [])

-- The part for a connection that waits for the answer: after five seconds it is lost.
unfoldable pub await_alive : Clock → Connection → Outcome
unfolding disconnect
await_alive clock c =
    let after = disconnect clock true DisconnectReason.lost connection_timed_out false c in
    if ltb 5000 (clock.time_since c.keep_alive_ts)
    then (if c.has_link then some after else none)
    else some (c, [])

unfoldable pub update_keep_alive : Clock → Connection → Outcome
unfolding is_connected
update_keep_alive clock c =
    if is_connected c.state
    then (if ltb 0 c.keep_alive_interval_ms
        then (if c.is_waiting_for_keep_alive then await_alive clock c else ask_alive clock c)
        else some (c, []))
    else some (c, [])

-- What happens to a connection after it was made: a message of the remote is received, the
-- connection node updates it, as ConnectionNode::update does, or the user disconnects.
pub data Event : Type 0 where
  refused_password refused_full refused_packet accepted remote_disconnect : Event
  alive_request alive_answer update user_disconnect : Event

-- One method after another.
unfoldable pub and_then : Outcome → (Connection → Outcome) → Outcome
and_then none f = none
and_then (some (c, es)) f = elim (f c) [ none ↦ none | some (c', fs) ↦ some (c', es ++ fs) ]

unfoldable pub step : Clock → Event → Connection → Outcome
unfolding set_invalid_password set_max_connections_reached set_invalid_connect_packet
    on_receive_connect_accept on_receive_disconnect on_receive_keep_alive_request
    on_receive_keep_alive_answer update_connecting update_keep_alive disconnect and_then
step clock Event.refused_password c = set_invalid_password c
step clock Event.refused_full c = set_max_connections_reached c
step clock Event.refused_packet c = set_invalid_connect_packet c
step clock Event.accepted c = on_receive_connect_accept clock c
step clock Event.remote_disconnect c = on_receive_disconnect clock c
step clock Event.alive_request c = some (on_receive_keep_alive_request c)
step clock Event.alive_answer c = some (on_receive_keep_alive_answer clock c)
step clock Event.update c = and_then (update_connecting clock c) (update_keep_alive clock)
step clock Event.user_disconnect c =
    some (disconnect clock true DisconnectReason.closed disconnected true c)

unfoldable pub run : List (Clock × Event) → Connection → Outcome
unfolding step and_then
run [] c = some (c, [])
run ((clock, e) ∷ es) c = and_then (step clock e c) (run es)
