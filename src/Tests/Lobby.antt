-- ===== src/Tests/Lobby.antt =====
-- The server of src/dispatch/mod.rs with one client, from its registration to the stop.
use xshm.Prelude.{ℕ, ◌%◌, ◌^◌, ◌≤◌, ◌<◌, ◌≡◌, ◌≢◌, ◌⊎◌, refl, arith, true, false, some, [], ◌∷◌}
use xshm.Constants.{handshake_client_hello}
use xshm.Error.{ok}
use xshm.Utf8.{IsUtf8}
use xshm.Server.{SharedServer, expires}
use xshm.Client.{SharedClient, announce, send_to_server}
use xshm.Protocol.{encode_request}
use xshm.Auto.Handle.{Handle}
use xshm.Dispatch.{
  ClientRegistration, on_client_connect, on_client_disconnect, DispatchedClient, DispatchServer,
  broadcast, send_to,
}
use xshm.Dispatch.ClientMap.{get, keys, occurs}
use xshm.Dispatch.Threads.{
  Pending, hanging_up, draining, joining, done, Threads, init, update, register, tell, with_clients,
  PendingStep, ProxyStep, WorkerStep, CallerStep, Step, Reach, Later,
}
use xshm.Dispatch.Ledger.{Balanced, Reach-Balanced}
use xshm.Dispatch.Stuck.{joining_stuck}
use xshm.Dispatch.Late.{late_connect}
use xshm.Dispatch.Drain.{drain_ends}
use xshm.Dispatch.Registry.{takers, broadcast_sends}
use xshm.Dispatch.Lobby.{Rounds, Turn, worker_loop, generate_channel_name}
use xshm.Dispatch.Register as Register
use xshm.Dispatch.Ids.{first_worker, worker_loop-ids}
use xshm.Dispatch.Assigned.{served, lobby_assigns}
use xshm.Tests.Rings.{empty_ring, empty_ring-Good}
use xshm.Tests.Sessions.{some_segment, some_control}

-- "NxT", revision 3
abbrev some_registration : ClientRegistration
some_registration = record { pid = 4711; revision = 3; name = 78 ∷ 120 ∷ 84 ∷ [] }

abbrev pub some_handle : Handle
some_handle = record { running = true; receiving = true; commands = [] }

abbrev some_client : DispatchedClient
some_client = record {
  server = some_handle;
  info = some_registration;
  channel_name = 97 ∷ 98 ∷ [];
  disconnected = false;
}

-- The client registers, its channel is connected, the thread puts it into the map and tells of it.
abbrev registered : Threads
registered = register init some_client

abbrev signalled : Threads
signalled = record registered { signal = update registered.signal 1 true }

abbrev passed : Threads
passed = record signalled { pending = update signalled.pending 1 (Pending.checked some_client) }

abbrev entered : Threads
entered = record (with_clients passed ((1, some_client) ∷ [])) {
  pending = update passed.pending 1 (Pending.notifying some_registration);
}

abbrev told_connect : Threads
told_connect = record (tell entered (on_client_connect 1 some_registration)) {
  pending = update entered.pending 1 Pending.finished;
}

-- The server is stopped: the lobby's worker takes the lock.
abbrev stopping : Threads
stopping = record told_connect { server = record (told_connect.server) { running = false } }

abbrev locked : Threads
locked = record stopping { lobby = draining }

-- But the client has hung up just before.
abbrev hung_up : Threads
hung_up = record stopping { channel = update stopping.channel 1 hanging_up }

abbrev stuck : Threads
stuck = record (tell (with_clients hung_up []) (on_client_disconnect 1)) {
  stopped = update hung_up.stopped 1 true;
  lobby = joining 1;
}

Reach-stopping : Reach 1 stopping
Reach-stopping =
    Reach.later
      (Reach.later
        (Reach.later
          (Reach.later
            (Reach.later (Reach.later Reach.start (Step.accept some_client refl))
              (Step.of_proxy (ProxyStep.on_connect 1 refl)))
            (Step.of_pending (PendingStep.check 1 refl refl refl)))
          (Step.of_pending (PendingStep.put 1 refl refl)))
        (Step.of_pending (PendingStep.notify 1 refl)))
      (Step.of_caller CallerStep.begin_stop)

-- The state in which nothing moves any more can be reached.
Reach-stuck : Reach 1 stuck
Reach-stuck =
    Reach.later
      (Reach.later
        (Reach.later Reach-stopping (Step.of_proxy (ProxyStep.enter_on_disconnect 1 refl)))
        (Step.of_worker (WorkerStep.lock refl refl)))
      (Step.of_worker (WorkerStep.drain_next refl refl))

Reach-Balanced_example : Balanced stuck 1
Reach-Balanced_example = Reach-Balanced Reach-stuck (omega arith) 1

joining_stuck_example : (stuck.lobby ≡ joining 1) × (stuck.channel 1 ≡ hanging_up)
joining_stuck_example =
    joining_stuck {n = 1} {k = 1} {s = stuck} {t = stuck} 1 refl refl
      (Later.after Later.now (Step.of_caller CallerStep.begin_stop))

drain_ends_example : (t : Threads) × Later 1 locked 1 t × (t.lobby ≡ done) × (t.server.clients ≡ [])
drain_ends_example = drain_ends {n = 1} locked.server.clients locked refl refl none_waits
  where
    none_waits : (id : ℕ) → locked.channel id ≢ hanging_up
    none_waits id e = ground arith

-- Two clients, one of them stopped.
abbrev pub some_dispatch : DispatchServer
some_dispatch = record {
  clients =
      (1, some_client)
      ∷ (2, record some_client { server = record some_handle { running = false } })
      ∷ [];
  running = true;
  next_client_id = 3;
}

broadcast_sends_example :
    ((id : ℕ)
      → get id (broadcast (7 ∷ 8 ∷ []) some_dispatch).1.clients
        ≡ get id (send_to id (7 ∷ 8 ∷ []) some_dispatch).1.clients)
    × ((broadcast (7 ∷ 8 ∷ []) some_dispatch).0
        ≡ ok (takers (7 ∷ 8 ∷ []) some_dispatch.clients % 2 ^ 32))
broadcast_sends_example = broadcast_sends (7 ∷ 8 ∷ []) some_dispatch

abbrev some_lobby : SharedServer
some_lobby = record {
  view = record { control = some_control; ring_a = empty_ring; ring_b = empty_ring };
  has_events = true;
  connected = true;
}

abbrev pub lobby_client : SharedClient
lobby_client = record { connected = true }

-- A turn starts the lobby, or serves a client that says hello and sends its registration.
abbrev some_turn : Turn
some_turn = record {
  mapped = ok some_segment;
  created = ok tt;
  arriving = λ v. announce v handshake_client_hello;
  waited = ok true;
  acked = ok tt;
  polls = expires 0;
  rounds =
      Rounds.round true
        (λ v.
          (send_to_server lobby_client (encode_request (Register.request_of some_registration))
            v).1)
        Rounds.times_out;
  hash = 0xA7F3_B2C1;
  started = ok some_handle;
}

worker_loop-ids_example :
    let w = worker_loop (some_turn ∷ some_turn ∷ []) first_worker in
    (occurs 1 (keys w.pending) ≤ 1) × ((occurs 1 (keys w.pending) ≡ 0) ⊎ (1 < w.next_client_id))
worker_loop-ids_example = worker_loop-ids (some_turn ∷ some_turn ∷ []) 1 (omega arith)

lobby_assigns_example :
    let request = encode_request (Register.request_of some_registration) in
    let (_, sent, _) = send_to_server lobby_client request some_lobby.view in
    let waiting : DispatchedClient = record {
      server = some_handle;
      info = some_registration;
      channel_name = generate_channel_name 11;
      disconnected = false;
    } in
    let rounds =
      Register.Rounds.round
        (λ v. (served some_lobby 11 5 some_handle v).lobby.view)
        Register.Rounds.times_out in
    ((served some_lobby 11 5 some_handle sent).registered ≡ some (5, waiting))
    × ((Register.register_on lobby_client some_registration rounds some_lobby.view).0
        ≡ ok (5, generate_channel_name 11))
lobby_assigns_example =
    lobby_assigns some_registration some_lobby lobby_client 11 5 some_handle refl refl refl
      empty_ring-Good empty_ring-Good (omega arith) (omega arith)
      (IsUtf8.one (omega arith) (IsUtf8.one (omega arith) (IsUtf8.one (omega arith) IsUtf8.empty)))
      (omega arith) (omega arith)

-- The thread of the client sees the server running; then the server is stopped and drained.
abbrev drained : Threads
drained = record passed { server = record (passed.server) { running = false }; lobby = done }

-- This state can be reached.
Reach-drained : Reach 1 drained
Reach-drained =
    Reach.later
      (Reach.later
        (Reach.later
          (Reach.later
            (Reach.later (Reach.later Reach.start (Step.accept some_client refl))
              (Step.of_proxy (ProxyStep.on_connect 1 refl)))
            (Step.of_pending (PendingStep.check 1 refl refl refl)))
          (Step.of_caller CallerStep.begin_stop))
        (Step.of_worker (WorkerStep.lock refl refl)))
      (Step.of_worker (WorkerStep.unlock refl refl))

late_connect_example :
    (t : Threads) × Later 1 drained 1 t
    × (t.lobby ≡ done)
    × (t.pending 1 ≡ Pending.finished)
    × (t.stopped 1 ≡ false)
    × (get 1 t.server.clients ≡ some some_client)
    × (t.told ≡ on_client_connect 1 some_registration ∷ [])
late_connect_example = late_connect {n = 1} {s = drained} {c = some_client} 1 refl refl
