-- ===== src/Tests/Sessions.antt =====
-- A session of src/server.rs and src/client.rs on one segment.
use xshm.Prelude.{◌≡◌, refl, true, false, List, [], ◌∷◌, replicate}
use xshm.Constants.{shared_magic, shared_version, handshake_idle}
use xshm.Error.{ok}
use xshm.Layout.{ControlBlock}
use xshm.Ring.Runs.{push}
use xshm.Segment.{Segment}
use xshm.Server.{SharedServer, expires, wait_for_client}
use xshm.Client.{connect_begin, connect_end}
use xshm.Session.{World, Act, server_send, server_receive, client_send, client_receive, run, step}
use xshm.Session.Handshake.{Connected, handshake_connects}
use xshm.Session.Duplex.{Queues, IsSession, run_queues, step_queues, run_duplex}
use xshm.Session.Signals.{WakesBoth, step_wakes}
use xshm.Tests.Rings.{
  empty_ring, ring_of_one, short_message, long_message, empty_ring-Good, ring_of_one-Good,
}

abbrev pub some_control : ControlBlock
some_control = record {
  magic = shared_magic;
  version = shared_version;
  generation = 4294967295;
  server_state = handshake_idle;
  client_state = handshake_idle;
  reserved = replicate 11 0;
}

abbrev pub some_segment : Segment
some_segment = record { control = some_control; ring_a = ring_of_one; ring_b = empty_ring }

abbrev pub some_server : SharedServer
some_server = record { view = some_segment; has_events = true; connected = false }

abbrev some_world : World
some_world = record {
  server = record some_server { connected = true };
  client = record { connected = true };
}

abbrev some_queues : Queues
some_queues = record { down = (push [] short_message).1; up = [] }

some_world-IsSession : IsSession some_world some_queues
some_world-IsSession = record {
  server_on = refl;
  client_on = refl;
  down = ring_of_one-Good;
  up = empty_ring-Good;
}

abbrev some_acts : List Act
some_acts =
    client_send long_message ∷ client_receive ∷ server_receive ∷ server_send short_message ∷ []

handshake_connects_example :
    let (r1, v1, _) = connect_begin (ok tt) (ok tt) some_segment in
    let (r2, s2, _) =
      wait_for_client (ok true) (ok tt) (expires 0) (record some_server { view = v1 }) in
    let (r3, v3) = connect_end (ok true) s2.view in
    (r1 ≡ ok tt)
    × (r2 ≡ ok tt)
    × (r3 ≡ ok (record { connected = true }))
    × Connected some_segment s2 v3
handshake_connects_example = handshake_connects some_server (expires 0) refl refl refl refl

run_duplex_example :
    ((run some_world some_acts).0 ≡ (run_queues some_queues some_acts).0)
    × IsSession (run some_world some_acts).1 (run_queues some_queues some_acts).1
run_duplex_example = run_duplex some_world some_queues some_acts some_world-IsSession

step_wakes_example :
    WakesBoth some_queues
      (step_queues some_queues client_receive).1
      (step some_world client_receive).2
step_wakes_example = step_wakes some_world some_queues client_receive refl some_world-IsSession
