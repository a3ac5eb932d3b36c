-- ===== src/Client.antt =====
-- src/client.rs: the endpoint that opens a segment. Its view is the server's memory, so each function
-- takes the segment and returns it. What the operating system answers is an argument, as in
-- Server.antt, and so is what the server does to the segment while the client waits.
use xshm.Prelude.{ℕ, Bool, true, false, not, ◌==◌, if◌then◌else◌, List, [], ◌∷◌}
use xshm.Constants.{
  shared_magic, shared_version, handshake_idle, handshake_client_hello, handshake_server_ready,
}
use xshm.Error.{Result, ok, err, ◌>>◌, require, timeout, corrupted, handshake_failed}
use xshm.Ring.{RingBuffer, WriteOutcome, write_message, read_message, is_empty}
use xshm.Segment.{
  Segment, Event, s2c_space, c2s_data, connect_req, disconnect, store_states, store_client_state,
}
use xshm.Server.{ensure_connected, data_signal, space_signal}

-- `ring_tx` is ring B of the view, `ring_rx` is ring A.
pub record SharedClient : Type 0 where
  pub connected : Bool

-- The checks of `connect` on the segment, and the opening of the events.
unfoldable pub check_segment : Result (Unit {0}) → Segment → Result (Unit {0})
check_segment opened v = do
  require (v.control.magic == shared_magic) corrupted
  require (v.control.version == shared_version) handshake_failed
  opened

-- A state word stored to `client_state` and to the headers of both rings.
unfoldable pub announce : Segment → ℕ → Segment
announce v state = store_states (store_client_state v state) state

-- `connect` up to the wait for `connect_ack`.
unfoldable pub connect_begin :
    Result (Unit {0}) → Result (Unit {0}) → Segment → Result (Unit {0}) × Segment × List Event
unfolding check_segment announce
connect_begin opened requested v = elim (check_segment opened v) [
  | err e ↦ (err e, v, [])
  | ok _ ↦ elim requested [
    | err e ↦ (err e, announce v handshake_client_hello, [])
    | ok _ ↦ (ok tt, announce v handshake_client_hello, connect_req ∷ [])
  ]
]

-- `header.connection_gen.store(generation)`
unfoldable pub store_gen : RingBuffer → ℕ → RingBuffer
store_gen r generation = record r { header = record (r.header) { connection_gen = generation } }

-- The stores of `connect` when the server is ready.
unfoldable pub adopt : Segment → Segment
unfolding store_gen
adopt v =
    store_states
      (record v {
        ring_a = store_gen v.ring_a v.control.generation;
        ring_b = store_gen v.ring_b v.control.generation;
      })
      handshake_server_ready

-- `connect` from the end of the wait for `connect_ack` on.
unfoldable pub connect_end : Result Bool → Segment → Result SharedClient × Segment
unfolding announce adopt
connect_end (err e) v = (err e, v)
connect_end (ok false) v = (err timeout, announce v handshake_idle)
connect_end (ok true) v =
    if v.control.server_state == handshake_server_ready
    then (ok (record { connected = true }), adopt v)
    else (err handshake_failed, announce v handshake_idle)

-- The whole call; `during` is what happens to the segment while the client waits.
unfoldable pub connect :
    Result (Unit {0})
    → Result (Unit {0})
    → (Segment → Segment)
    → Result Bool
    → Segment
    → Result SharedClient × Segment
unfolding connect_begin connect_end
connect opened requested during acked v =
    let (res, v', _) = connect_begin opened requested v in
    elim res [ err e ↦ (err e, v') | ok _ ↦ connect_end acked (during v') ]

unfoldable pub mark_disconnected : SharedClient → SharedClient
mark_disconnected c = record c { connected = false }

unfoldable pub drop_client : SharedClient → Segment → Segment × List Event
unfolding announce
drop_client c v = if c.connected then (announce v handshake_idle, disconnect ∷ []) else (v, [])

unfoldable pub send_to_server :
    SharedClient → List ℕ → Segment → Result WriteOutcome × Segment × List Event
send_to_server c payload v = elim (ensure_connected c.connected) [
  | err e ↦ (err e, v, [])
  | ok _ ↦
      let (res, ring) = write_message v.ring_b payload in
      (res, record v { ring_b = ring }, data_signal true c2s_data res)
]

unfoldable pub receive_from_server : SharedClient → Segment → Result (List ℕ) × Segment × List Event
receive_from_server c v = elim (ensure_connected c.connected) [
  | err e ↦ (err e, v, [])
  | ok _ ↦
      let (res, ring) = read_message v.ring_a in
      (res, record v { ring_a = ring }, space_signal true s2c_space res ring)
]

unfoldable pub poll_server : Result Bool → SharedClient → Segment → Result Bool
poll_server waited c v = do
  ensure_connected c.connected
  if not (is_empty v.ring_a) then ok true else waited
