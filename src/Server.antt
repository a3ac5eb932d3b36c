-- ===== src/Server.antt =====
-- src/server.rs: the endpoint that owns the segment.
--
-- What the operating system answers is an argument: whether the mapping and the events could be made,
-- how a wait ended, whether a `set` that the code checks succeeded. A function returns its result, the
-- server, and the events that it set.
use xshm.Prelude.{ℕ, Bool, true, false, not, ◌&&◌, ◌==◌, if◌then◌else◌, List, [], ◌∷◌}
use xshm.Word.{wrapping_add}
use xshm.Constants.{handshake_idle, handshake_client_hello, handshake_server_ready}
use xshm.Error.{
  Result, ok, err, ◌>>=◌, ◌>>◌, not_connected, already_connected, timeout, handshake_failed,
}
use xshm.Layout.{reset_control}
use xshm.Ring.{
  RingBuffer, WriteOutcome, reset, write_message, read_message, message_count, is_empty,
}
use xshm.Segment.{
  Segment, Event, s2c_data, c2s_space, connect_ack, disconnect, store_states, store_client_state,
  store_server_state,
}

-- `has_events` is false in anonymous mode. `ring_tx` is ring A of the view, `ring_rx` is ring B.
pub record SharedServer : Type 0 where
  pub view : Segment
  pub has_events : Bool
  pub connected : Bool

-- The steps of `start` on a mapping that has been made.
unfoldable pub init_segment : Segment → Segment
init_segment raw =
    let control = reset_control raw.control in
    record {
      control = control;
      ring_a = reset raw.ring_a control.generation;
      ring_b = reset raw.ring_b control.generation;
    }

unfoldable pub start : Result Segment → Result (Unit {0}) → Result SharedServer
unfolding init_segment
start mapped created = do
  raw ← mapped
  created
  ok (record { view = init_segment raw; has_events = true; connected = false })

unfoldable pub start_anonymous : Result Segment → Result SharedServer
unfolding init_segment
start_anonymous mapped = do
  raw ← mapped
  ok (record { view = init_segment raw; has_events = false; connected = false })

-- Reset of the rings, new generation, and the ready state: the tail of `wait_for_client`, of
-- `wait_for_client_noevent` and of `do_slot_handshake` of src/multi/mod.rs.
unfoldable pub publish : Segment → Segment
publish v =
    let new_generation = wrapping_add v.control.generation 1 in
    let clean = record v {
      control = record (v.control) { generation = new_generation };
      ring_a = reset v.ring_a new_generation;
      ring_b = reset v.ring_b new_generation;
    } in
    store_client_state
      (store_server_state (store_states clean handshake_server_ready) handshake_server_ready)
      handshake_server_ready

-- The loads of the polling loop of `wait_for_client_noevent`, each with the `client_state` that it
-- sees, up to the round in which the timeout has passed.
pub data Polls : Type 0 where
  again : (state : ℕ) → Polls → Polls
  expires : (state : ℕ) → Polls

unfoldable pub poll_hello : Polls → Result (Unit {0})
poll_hello (again state rest) =
    let later = poll_hello rest in if state == handshake_client_hello then ok tt else later
poll_hello (expires state) = if state == handshake_client_hello then ok tt else err timeout

unfoldable pub wait_for_client_noevent :
    Polls → SharedServer → Result (Unit {0}) × SharedServer × List Event
wait_for_client_noevent polls s =
    if s.connected then (err already_connected, s, []) else (elim (poll_hello polls) [
      | err e ↦ (err e, s, [])
      | ok _ ↦ (ok tt, record s { view = publish s.view; connected = true }, [])
    ])

-- After the wait for `connect_req`: the check of the client's state, the new generation, the ack.
unfoldable pub accept_hello :
    Result (Unit {0}) → SharedServer → Result (Unit {0}) × SharedServer × List Event
accept_hello acked s =
    if s.view.control.client_state == handshake_client_hello
    then (elim acked [
      | err e ↦ (err e, record s { view = publish s.view }, [])
      | ok _ ↦ (ok tt, record s { view = publish s.view; connected = true }, connect_ack ∷ [])
    ])
    else (err handshake_failed, s, [])

unfoldable pub after_wait :
    Result Bool → Result (Unit {0}) → SharedServer → Result (Unit {0}) × SharedServer × List Event
unfolding accept_hello
after_wait (err e) acked s = (err e, s, [])
after_wait (ok false) acked s = (err timeout, s, [])
after_wait (ok true) acked s = accept_hello acked s

unfoldable pub wait_for_client :
    Result Bool
    → Result (Unit {0})
    → Polls
    → SharedServer
    → Result (Unit {0}) × SharedServer × List Event
unfolding after_wait wait_for_client_noevent
wait_for_client waited acked polls s =
    if s.connected
    then (err already_connected, s, [])
    else if not s.has_events
    then wait_for_client_noevent polls s
    else after_wait waited acked s

-- The stores of `mark_disconnected` and of `drop`: all state words idle.
unfoldable pub idle_segment : Segment → Segment
idle_segment v =
    store_states (store_client_state (store_server_state v handshake_idle) handshake_idle)
      handshake_idle

unfoldable pub mark_disconnected : SharedServer → SharedServer
unfolding idle_segment
mark_disconnected s = record s { view = idle_segment s.view; connected = false }

unfoldable pub drop_server : SharedServer → Segment × List Event
unfolding idle_segment
drop_server s = (idle_segment s.view, if s.connected && s.has_events then disconnect ∷ [] else [])

abbrev pub ensure_connected : Bool → Result (Unit {0})
ensure_connected true = ok tt
ensure_connected false = err not_connected

-- The signal after a write: the reader may be waiting only if the ring was empty.
abbrev pub data_signal : Bool → Event → Result WriteOutcome → List Event
data_signal has_events e (err _) = []
data_signal has_events e (ok w) = if has_events && w.was_empty then e ∷ [] else []

-- The signal after a read that emptied the ring.
abbrev pub space_signal : Bool → Event → Result (List ℕ) → RingBuffer → List Event
space_signal has_events e (err _) r = []
space_signal has_events e (ok _) r = if has_events && message_count r == 0 then e ∷ [] else []

unfoldable pub send_to_client :
    SharedServer → List ℕ → Result WriteOutcome × SharedServer × List Event
send_to_client s payload = elim (ensure_connected s.connected) [
  | err e ↦ (err e, s, [])
  | ok _ ↦
      let (res, ring) = write_message s.view.ring_a payload in
      (
        res,
        record s { view = record (s.view) { ring_a = ring } },
        data_signal s.has_events s2c_data res,
      )
]

unfoldable pub receive_from_client : SharedServer → Result (List ℕ) × SharedServer × List Event
receive_from_client s = elim (ensure_connected s.connected) [
  | err e ↦ (err e, s, [])
  | ok _ ↦
      let (res, ring) = read_message s.view.ring_b in
      (
        res,
        record s { view = record (s.view) { ring_b = ring } },
        space_signal s.has_events c2s_space res ring,
      )
]

-- The argument is how the wait for `c2s.data` ends, if it comes to that.
unfoldable pub poll_client : Result Bool → SharedServer → Result Bool
poll_client waited s = do
  ensure_connected s.connected
  if not (is_empty s.view.ring_b) then ok true else if not s.has_events then ok false else waited
