-- ===== src/Connection/Lifetime.antt =====
-- The end of a Connection (GameConn/Connection.cpp): a state that is left for good.
use anger.Common.{◌≡◌, refl, Bool, true, false, List, [], ◌∷◌, ◌++◌, none, some, arith}
use anger.Connection.State.{ConnectionState, Action, Connection, Clock, Outcome}
use anger.Connection.State.ConnectionState.{idle, connecting, connected}
use anger.Connection.{
  Event, step, and_then, run, is_connecting, is_connected, update_connecting, update_keep_alive,
}

-- All states but those of a connection that is alive.
unfoldable pub is_final : ConnectionState → Bool
is_final idle = false
is_final connecting = false
is_final connected = false
is_final _ = true

-- No message, no report: at most the link is released.
unfoldable pub is_silent : List Action → Bool
is_silent [] = true
is_silent (Action.release_link ∷ actions) = is_silent actions
is_silent (_ ∷ actions) = false

is_silent-append :
    (xs ys : List Action) → is_silent xs ≡ true → is_silent ys ≡ true → is_silent (xs ++ ys) ≡ true
unfolding is_silent
is_silent-append [] ys h k = k
is_silent-append (Action.release_link ∷ xs) ys h k = is_silent-append xs ys h k
is_silent-append (Action.send_system t p ∷ xs) ys h k = cc
is_silent-append (Action.set_link_connected b ∷ xs) ys h k = cc
is_silent-append (Action.do_connect_result r ∷ xs) ys h k = cc
is_silent-append (Action.do_disconnect d r ∷ xs) ys h k = cc

-- The connection is still at an end, and nobody has heard of it.
abbrev pub StaysEnded : Outcome → Type 0
StaysEnded none = ⊥
StaysEnded (some (c, actions)) = (is_final c.state ≡ true) × (is_silent actions ≡ true)

module _ (clock : Clock) (c : Connection) (e : is_final c.state ≡ true) where
  refused_password_ended : StaysEnded (step clock Event.refused_password c)
  unfolding step is_final is_silent
  refused_password_ended = ground arith

  refused_full_ended : StaysEnded (step clock Event.refused_full c)
  unfolding step is_final is_silent
  refused_full_ended = ground arith

  refused_packet_ended : StaysEnded (step clock Event.refused_packet c)
  unfolding step is_final is_silent
  refused_packet_ended = ground arith

  accepted_ended : StaysEnded (step clock Event.accepted c)
  unfolding step is_final is_silent
  accepted_ended = ground arith

  remote_disconnect_ended : StaysEnded (step clock Event.remote_disconnect c)
  unfolding step is_final is_silent
  remote_disconnect_ended = ground arith

  alive_request_ended : StaysEnded (step clock Event.alive_request c)
  unfolding step is_final is_silent
  alive_request_ended = ground arith

  alive_answer_ended : StaysEnded (step clock Event.alive_answer c)
  unfolding step is_final is_silent
  alive_answer_ended = ground arith

  user_disconnect_ended : StaysEnded (step clock Event.user_disconnect c)
  unfolding step is_final is_silent
  user_disconnect_ended = ground arith

  not_alive : (is_connecting c.state ≡ false) × (is_connected c.state ≡ false)
  unfolding is_final is_connecting is_connected
  not_alive = ground arith

  update_ended : StaysEnded (step clock Event.update c)
  unfolding step and_then update_connecting update_keep_alive is_silent
  update_ended = ground (arith, not_alive)

step_ended :
    (clock : Clock) (e : Event) (c : Connection)
    → is_final c.state ≡ true
    → StaysEnded (step clock e c)
step_ended clock Event.refused_password c e = refused_password_ended clock c e
step_ended clock Event.refused_full c e = refused_full_ended clock c e
step_ended clock Event.refused_packet c e = refused_packet_ended clock c e
step_ended clock Event.accepted c e = accepted_ended clock c e
step_ended clock Event.remote_disconnect c e = remote_disconnect_ended clock c e
step_ended clock Event.alive_request c e = alive_request_ended clock c e
step_ended clock Event.alive_answer c e = alive_answer_ended clock c e
step_ended clock Event.user_disconnect c e = user_disconnect_ended clock c e
step_ended clock Event.update c e = update_ended clock c e

ended-and_then :
    (r : Outcome) (f : Connection → Outcome)
    → StaysEnded r
    → ((c : Connection) → is_final c.state ≡ true → StaysEnded (f c))
    → StaysEnded (and_then r f)
unfolding and_then
ended-and_then none f q k = q
ended-and_then (some (c, xs)) f (q, s) k = join (f c) (k c q)
  where
    join :
        (r : Outcome)
        → StaysEnded r
        → StaysEnded (elim r [ none ↦ none | some (c', ys) ↦ some (c', xs ++ ys) ])
    join none q = q
    join (some (c', ys)) (f, t) = (f, is_silent-append xs ys s t)

-- A connection that has ended, in whatever way, is never connecting or connected again, sends no
-- message and reports nothing, whatever happens to it, and no null link is used.
pub run_ended :
    (es : List (Clock × Event)) (c : Connection) → is_final c.state ≡ true → StaysEnded (run es c)
unfolding run
run_ended [] c h = (h, unfold is_silent in refl)
run_ended ((clock, e) ∷ es) c h =
    ended-and_then (step clock e c) (run es) (step_ended clock e c h) (run_ended es)
