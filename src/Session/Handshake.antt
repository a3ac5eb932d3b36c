-- ===== src/Session/Handshake.antt =====
-- How the calls of src/server.rs and src/client.rs set up a connection, and how they fail to.
use xshm.Prelude.{ℕ, ◌≡◌, refl, arith, ==_iff, Bool, true, false, [], ◌∷◌}
use xshm.Word.{wrapping_add}
use xshm.Constants.{shared_magic, shared_version, handshake_client_hello, handshake_server_ready}
use xshm.Error.{ShmError, Result, ok, err}
use xshm.Layout.{reset_header}
use xshm.Ring.{RingBuffer, reset}
use xshm.Ring.Runs.{Good}
use xshm.Segment.{
  Segment, connect_req, connect_ack, store_state, store_states, store_client_state,
  store_server_state,
}
use xshm.Server.{SharedServer, publish, wait_for_client, Polls}
use xshm.Client.{announce, connect_begin, connect_end, adopt}

empty-Good :
    (r : RingBuffer)
    → r.header.read_pos ≡ 0
    → r.header.write_pos ≡ 0
    → r.header.message_count ≡ 0
    → r.header.drop_count ≡ 0
    → Good r []
empty-Good r rp wp mc dc = record {
  rep = record {
    read_in = omega arith;
    write_at = omega arith;
    room = omega arith;
    counted = mc;
    few = omega arith;
    messages = tt;
    bytes = tt;
  };
  drops = omega arith;
}

-- Both ends of a new connection.
pub record Connected (before : Segment) (s : SharedServer) (v : Segment) : Type 0 where
  pub server_on : s.connected ≡ true
  pub new_generation : v.control.generation ≡ wrapping_add before.control.generation 1
  pub adopted_a : v.ring_a.header.connection_gen ≡ v.control.generation
  pub adopted_b : v.ring_b.header.connection_gen ≡ v.control.generation
  pub server_ready : v.control.server_state ≡ handshake_server_ready
  pub client_ready : v.control.client_state ≡ handshake_server_ready
  pub ready_a : v.ring_a.header.handshake_state ≡ handshake_server_ready
  pub ready_b : v.ring_b.header.handshake_state ≡ handshake_server_ready
  pub clean_a : Good v.ring_a []
  pub clean_b : Good v.ring_b []

connect_begin_ok :
    (v : Segment)
    → v.control.magic ≡ shared_magic
    → v.control.version ≡ shared_version
    → connect_begin (ok tt) (ok tt) v ≡ (ok tt, announce v handshake_client_hello, connect_req ∷ [])
unfolding connect_begin
connect_begin_ok v magic version =
    rw
      (
        (==_iff v.control.magic shared_magic).1 magic,
        (==_iff v.control.version shared_version).1 version,
        connect_begin,
      )
      refl

wait_for_client_ok :
    (s : SharedServer) (polls : Polls)
    → s.connected ≡ false
    → s.has_events ≡ true
    → s.view.control.client_state ≡ handshake_client_hello
    → wait_for_client (ok true) (ok tt) polls s
      ≡ (ok tt, record s { view = publish s.view; connected = true }, connect_ack ∷ [])
unfolding wait_for_client
wait_for_client_ok s polls off events hello = ground arith

connect_end_ok :
    (v : Segment)
    → v.control.server_state ≡ handshake_server_ready
    → connect_end (ok true) v ≡ (ok (record { connected = true }), adopt v)
unfolding connect_end
connect_end_ok v ready = ground arith

publish-adopt-Connected :
    (before v : Segment) (s : SharedServer)
    → v.control.generation ≡ before.control.generation
    → s.connected ≡ true
    → Connected before s (adopt (publish v))
unfolding publish adopt reset reset_header store_state store_states store_client_state
    store_server_state
publish-adopt-Connected before v s same on = record {
  server_on = on;
  new_generation = omega (arith, same);
  adopted_a = refl;
  adopted_b = refl;
  server_ready = refl;
  client_ready = refl;
  ready_a = refl;
  ready_b = refl;
  clean_a = empty-Good _ refl refl refl refl;
  clean_b = empty-Good _ refl refl refl refl;
}

announce_control :
    (v : Segment) (state : ℕ)
    → ((announce v state).control.client_state ≡ state)
      × ((announce v state).control.generation ≡ v.control.generation)
unfolding announce store_states store_client_state
announce_control v state = (refl, refl)

publish_ready : (v : Segment) → (publish v).control.server_state ≡ handshake_server_ready
unfolding publish store_states store_client_state store_server_state
publish_ready v = refl

-- A client that finds a segment of this version, whose events open and are set, and a server that
-- waits for it and can set the ack, connect: whatever the rings and the state words held before, both
-- rings are empty, the generation is the next one and both headers carry it, and every state word is
-- ready.
pub handshake_connects :
    (s : SharedServer) (polls : Polls)
    → s.connected ≡ false
    → s.has_events ≡ true
    → s.view.control.magic ≡ shared_magic
    → s.view.control.version ≡ shared_version
    → let (r1, v1, _) = connect_begin (ok tt) (ok tt) s.view in
      let (r2, s2, _) = wait_for_client (ok true) (ok tt) polls (record s { view = v1 }) in
      let (r3, v3) = connect_end (ok true) s2.view in
      (r1 ≡ ok tt) × (r2 ≡ ok tt) × (r3 ≡ ok (record { connected = true })) × Connected s.view s2 v3
handshake_connects s polls off events magic version =
    let hello = announce s.view handshake_client_hello in
    rw
      (
        connect_begin_ok s.view magic version,
        wait_for_client_ok (record s { view = hello }) polls off events
            (announce_control s.view handshake_client_hello).0,
        connect_end_ok (publish hello) (publish_ready hello),
      )
      (
        refl,
        refl,
        refl,
        publish-adopt-Connected s.view hello _ (announce_control s.view handshake_client_hello).1
            refl,
      )

-- If the ack can be set, a wait that fails, for whatever reason, leaves the server and the segment as
-- they were; a client that has said hello is what a wait succeeds on.
pub wait_for_client_fails :
    (waited : Result Bool) (polls : Polls) (s : SharedServer) (e : ShmError)
    → (wait_for_client waited (ok tt) polls s).0 ≡ err e
    → (wait_for_client waited (ok tt) polls s).1 ≡ s
unfolding wait_for_client
wait_for_client_fails (err x) polls s e h = ground arith
wait_for_client_fails (ok true) polls s e h = ground arith
wait_for_client_fails (ok false) polls s e h = ground arith
