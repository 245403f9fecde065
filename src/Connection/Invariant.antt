-- ===== src/Connection/Invariant.antt =====
-- What always holds of a Connection (GameConn/Connection.cpp) and its link.
use anger.Common.{
  ℕ, ◌+◌, ◌≤◌, ◌≡◌, refl, Bool, true, false, List, [], ◌∷◌, ◌++◌, none, some, if◌then◌else◌, arith,
  Bool-cases, inl, inr, ltb, ◌&&◌, ◌∙◌,
}
use anger.Connection.State.{ConnectionState, Action, Connection, Clock, Outcome}
use anger.Connection.State.ConnectionState.{initiate_timed_out, connection_timed_out, disconnected}
use anger.Connection.{
  Event, step, and_then, run, is_connecting, is_connected, update_connecting, update_keep_alive,
  ask_alive, await_alive,
}

-- The states in which the link is given up.
unfoldable pub is_released : ConnectionState → Bool
is_released initiate_timed_out = true
is_released connection_timed_out = true
is_released disconnected = true
is_released _ = false

-- The link is there exactly in the other states, and `disconnect` has run only where it is not.
pub record IsValid (c : Connection) : Type 0 where
  pub link_kept : c.has_link ≡ (if is_released c.state then false else true)
  pub link_gone : c.disconnect_called ≡ true → c.has_link ≡ false

-- How often an action of a kind is taken.
unfoldable pub count : (Action → Bool) → List Action → ℕ
count kind [] = 0
count kind (a ∷ actions) = (if kind a then 1 else 0) + count kind actions

count-append :
    (kind : Action → Bool) (xs ys : List Action)
    → count kind (xs ++ ys) ≡ count kind xs + count kind ys
unfolding count
count-append kind [] ys = omega arith
count-append kind (x ∷ xs) ys = omega (arith, count-append kind xs ys)

unfoldable pub is_result : Action → Bool
is_result (Action.do_connect_result r) = true
is_result _ = false

unfoldable pub is_goodbye : Action → Bool
is_goodbye (Action.do_disconnect d r) = true
is_goodbye _ = false

-- The link is used only while it is there: no message and no release after a release.
unfoldable pub uses_link : Bool → List Action → Bool
uses_link live [] = true
uses_link live (Action.send_system type payload ∷ actions) = live && uses_link live actions
uses_link live (Action.set_link_connected b ∷ actions) = live && uses_link live actions
uses_link live (Action.release_link ∷ actions) = live && uses_link false actions
uses_link live (_ ∷ actions) = uses_link live actions

-- Whether the link is there after some actions.
unfoldable pub still_linked : Bool → List Action → Bool
still_linked live [] = live
still_linked live (Action.release_link ∷ actions) = still_linked false actions
still_linked live (_ ∷ actions) = still_linked live actions

uses_link-append :
    (live : Bool) (xs ys : List Action)
    → uses_link live xs ≡ true
    → uses_link (still_linked live xs) ys ≡ true
    → uses_link live (xs ++ ys) ≡ true
unfolding uses_link still_linked
uses_link-append live [] ys h k = k
uses_link-append live (Action.send_system t p ∷ xs) ys h k =
    ground (arith, uses_link-append live xs ys)
uses_link-append live (Action.set_link_connected b ∷ xs) ys h k =
    ground (arith, uses_link-append live xs ys)
uses_link-append live (Action.release_link ∷ xs) ys h k =
    ground (arith, uses_link-append false xs ys)
uses_link-append live (Action.do_connect_result r ∷ xs) ys h k = uses_link-append live xs ys h k
uses_link-append live (Action.do_disconnect d r ∷ xs) ys h k = uses_link-append live xs ys h k

still_linked-append :
    (live : Bool) (xs ys : List Action)
    → still_linked live (xs ++ ys) ≡ still_linked (still_linked live xs) ys
unfolding still_linked
still_linked-append live [] ys = refl
still_linked-append live (Action.release_link ∷ xs) ys = still_linked-append false xs ys
still_linked-append live (Action.send_system t p ∷ xs) ys = still_linked-append live xs ys
still_linked-append live (Action.set_link_connected b ∷ xs) ys = still_linked-append live xs ys
still_linked-append live (Action.do_connect_result r ∷ xs) ys = still_linked-append live xs ys
still_linked-append live (Action.do_disconnect d r ∷ xs) ys = still_linked-append live xs ys

-- What may still come: the result of connecting, and the news of the disconnection.
abbrev pub owed_result : Connection → ℕ
owed_result c = if is_connecting c.state then 1 else 0

abbrev pub owed_goodbye : Connection → ℕ
owed_goodbye c = if c.disconnect_called then 0 else 1

-- An operation that keeps the invariant and pays what it takes from what is owed.
pub record Fair (c : Connection) (c' : Connection) (actions : List Action) : Type 0 where
  pub valid : IsValid c'
  pub results : count is_result actions + owed_result c' ≤ owed_result c
  pub goodbyes : count is_goodbye actions + owed_goodbye c' ≤ owed_goodbye c
  pub uses : uses_link c.has_link actions ≡ true
  pub linked : still_linked c.has_link actions ≡ c'.has_link

-- No link that is null is used, and the operation is fair.
abbrev pub Returns : Connection → Outcome → Type 0
Returns c none = ⊥
Returns c (some (c', actions)) = Fair c c' actions

module _ (clock : Clock) (c : Connection) (v : IsValid c) where
  refused_password-Fair : Returns c (step clock Event.refused_password c)
  unfolding step is_released count is_result is_goodbye uses_link still_linked
  refused_password-Fair = ground arith

  refused_full-Fair : Returns c (step clock Event.refused_full c)
  unfolding step is_released count is_result is_goodbye uses_link still_linked
  refused_full-Fair = ground arith

  refused_packet-Fair : Returns c (step clock Event.refused_packet c)
  unfolding step is_released count is_result is_goodbye uses_link still_linked
  refused_packet-Fair = ground arith

  accepted-Fair : Returns c (step clock Event.accepted c)
  unfolding step is_released count is_result is_goodbye uses_link still_linked
  accepted-Fair = ground arith

  remote_disconnect-Fair : Returns c (step clock Event.remote_disconnect c)
  unfolding step is_released count is_result is_goodbye uses_link still_linked
  remote_disconnect-Fair = ground arith

  alive_request-Fair : Returns c (step clock Event.alive_request c)
  unfolding step is_released count is_result is_goodbye uses_link still_linked
  alive_request-Fair = ground arith

  alive_answer-Fair : Returns c (step clock Event.alive_answer c)
  unfolding step is_released count is_result is_goodbye uses_link still_linked
  alive_answer-Fair = ground arith

  user_disconnect-Fair : Returns c (step clock Event.user_disconnect c)
  unfolding step is_released count is_result is_goodbye uses_link still_linked
  user_disconnect-Fair = ground arith

  pub update_connecting-Fair : Returns c (update_connecting clock c)
  unfolding update_connecting is_released count is_result is_goodbye uses_link still_linked
  update_connecting-Fair = ground arith

  ask_alive-Fair : is_connected c.state ≡ true → Returns c (ask_alive clock c)
  unfolding ask_alive is_released count is_result is_goodbye uses_link still_linked
  ask_alive-Fair e = ground arith

  unchanged-Fair : Returns c (some (c, []))
  unfolding count uses_link still_linked
  unchanged-Fair = ground arith

  await_alive-Fair : is_connected c.state ≡ true → Returns c (await_alive clock c)
  unfolding await_alive is_connected is_connecting is_released count is_result is_goodbye uses_link
      still_linked
  await_alive-Fair e = ground arith

  alive-Fair :
      (e : is_connected c.state ≡ true)
      → (waiting : Bool) → Returns c (if waiting then await_alive clock c else ask_alive clock c)
  alive-Fair e true = await_alive-Fair e
  alive-Fair e false = ask_alive-Fair e

  pub update_keep_alive-Fair : Returns c (update_keep_alive clock c)
  unfolding update_keep_alive
  update_keep_alive-Fair = elim (Bool-cases (is_connected c.state)) [
    | inr e ↦ rw (e, update_keep_alive) unchanged-Fair
    | inl e ↦ elim (Bool-cases (ltb 0 c.keep_alive_interval_ms)) [
      | inr z ↦ rw (e, z, update_keep_alive) unchanged-Fair
      | inl p ↦ rw (e, p, update_keep_alive) (alive-Fair e c.is_waiting_for_keep_alive)
    ]
  ]

Fair-trans :
    {a b c : Connection} (xs ys : List Action) → Fair a b xs → Fair b c ys → Fair a c (xs ++ ys)
Fair-trans {a} xs ys f g = record {
  valid = g.valid;
  results = omega (arith, count-append is_result xs ys, f.results, g.results);
  goodbyes = omega (arith, count-append is_goodbye xs ys, f.goodbyes, g.goodbyes);
  uses = uses_link-append a.has_link xs ys f.uses (rw f.linked g.uses);
  linked = still_linked-append a.has_link xs ys ∙ rw f.linked g.linked;
}

Returns-and_then :
    (c : Connection) (r : Outcome) (f : Connection → Outcome)
    → Returns c r
    → ((c' : Connection) → IsValid c' → Returns c' (f c'))
    → Returns c (and_then r f)
unfolding and_then
Returns-and_then c none f h k = h
Returns-and_then c (some (c', xs)) f h k = rest (f c') (k c' h.valid)
  where
    rest :
        (r : Outcome)
        → Returns c' r
        → Returns c (elim r [ none ↦ none | some (c'', ys) ↦ some (c'', xs ++ ys) ])
    rest none q = q
    rest (some (c'', ys)) q = Fair-trans xs ys h q

-- Every event is fair.
pub step-Fair :
    (clock : Clock) (e : Event) (c : Connection) → IsValid c → Returns c (step clock e c)
step-Fair clock Event.refused_password c v = refused_password-Fair clock c v
step-Fair clock Event.refused_full c v = refused_full-Fair clock c v
step-Fair clock Event.refused_packet c v = refused_packet-Fair clock c v
step-Fair clock Event.accepted c v = accepted-Fair clock c v
step-Fair clock Event.remote_disconnect c v = remote_disconnect-Fair clock c v
step-Fair clock Event.alive_request c v = alive_request-Fair clock c v
step-Fair clock Event.alive_answer c v = alive_answer-Fair clock c v
step-Fair clock Event.user_disconnect c v = user_disconnect-Fair clock c v
step-Fair clock Event.update c v =
    unfold step in
    Returns-and_then c (update_connecting clock c) (update_keep_alive clock)
      (update_connecting-Fair clock c v) (update_keep_alive-Fair clock)

-- Whatever happens to a valid connection, no null link is used, and it stays valid. The result of
-- connecting is reported at most once, and only if the connection was connecting; a disconnection
-- is reported at most once; the link gets no message once it is released, and is released once.
pub run-Fair : (es : List (Clock × Event)) (c : Connection) → IsValid c → Returns c (run es c)
unfolding run
run-Fair [] c v = record {
  valid = v;
  results = unfold count in omega arith;
  goodbyes = unfold count in omega arith;
  uses = unfold uses_link in refl;
  linked = unfold still_linked in refl;
}
run-Fair ((clock, e) ∷ es) c v =
    Returns-and_then c (step clock e c) (run es) (step-Fair clock e c v) (run-Fair es)
