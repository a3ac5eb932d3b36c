-- ===== src/Tests/Interface.antt =====
-- The C interfaces of src/ffi.rs, src/multi/ffi.rs and src/dispatch/ffi.rs on small states.
use xshm.Prelude.{◌≤◌, ◌≡◌, refl, arith, true, false, none, some, List, [], ◌∷◌, ◌++◌, length, take}
use xshm.Error.{ok}
use xshm.Ring.Queue.{make_room}
use xshm.Ring.Runs.{push}
use xshm.Multi.Handle.{MultiClient}
use xshm.Dispatch.Register.{DispatchClient}
use xshm.Ffi.{
  success, error_memory, error_timeout, ServerState, ClientState, empty_cache, shm_server_receive,
  shm_server_poll,
}
use xshm.Ffi.Strings.{c_str, copy_name, copy_name_fits}
use xshm.Ffi.Receive.{Inbox, Stands}
use xshm.Ffi.Cached.{Happening, receives, client_sends, run, run_inbox, run_cached}
use xshm.Ffi.Poll.{poll_misses_held}
use xshm.Tests.Rings.{empty_ring, ring_of_one, short_message, long_message, ring_of_one-Good}
use xshm.Tests.Sessions.{some_control}
use xshm.Tests.Lobby.{some_handle, lobby_client}

-- A connected server with one message in the ring from the client.
abbrev some_state : ServerState
some_state = record {
  inner = record {
    view = record { control = some_control; ring_a = empty_ring; ring_b = ring_of_one };
    has_events = true;
    connected = true;
  };
  callbacks = none;
  recv_cache = empty_cache;
}

abbrev one_message : Inbox
one_message = record { held = none; queue = (push [] short_message).1 }

some_state-Stands : Stands some_state one_message
some_state-Stands = record { on = refl; cached = refl; ring = ring_of_one-Good }

abbrev some_happenings : List Happening
some_happenings = receives 1 ∷ client_sends long_message ∷ receives 100 ∷ receives 0 ∷ []

run_cached_example :
    ((run lobby_client some_happenings (some some_state)).0
      ≡ (run_inbox some_happenings one_message).0)
    × ((t : ServerState) × ((run lobby_client some_happenings (some some_state)).1 ≡ some t)
        × Stands t (run_inbox some_happenings one_message).1)
run_cached_example =
    run_cached lobby_client some_state one_message some_happenings refl some_state-Stands

one_short-Stands : Stands some_state (record { held = none; queue = short_message ∷ [] })
unfolding push make_room
one_short-Stands = record { on = refl; cached = refl; ring = ring_of_one-Good }

poll_misses_held_example :
    let (code, written, s1, _) = shm_server_receive (some some_state) true (some 1) in
    let (code', written', _, _) = shm_server_receive s1 true (some 2) in
    (code ≡ error_memory)
    × (shm_server_poll (ok false) s1 ≡ error_timeout)
    × (code' ≡ success)
    × (written' ≡ some short_message)
poll_misses_held_example =
    poll_misses_held some_state short_message 1 2 one_short-Stands (omega arith) (omega arith)
      (omega arith)

copy_name_fits_example :
    (length (copy_name (78 ∷ 120 ∷ 84 ∷ []) true 2) ≤ 2)
    × (c_str (copy_name (78 ∷ 120 ∷ 84 ∷ []) true 3 ++ 9 ∷ 9 ∷ [])
        ≡ c_str (take 2 (78 ∷ 120 ∷ 84 ∷ [])))
    × (copy_name (78 ∷ 120 ∷ 84 ∷ []) false 2 ≡ [])
copy_name_fits_example = copy_name_fits (78 ∷ 120 ∷ 84 ∷ []) (9 ∷ 9 ∷ []) true 2

abbrev some_client_state : ClientState
some_client_state = record { inner = lobby_client; recv_cache = empty_cache }

abbrev some_multi_client : MultiClient
some_multi_client = record { running = true; receiving = true; commands = []; slot_id = 0 }

abbrev some_dispatch_client : DispatchClient
some_dispatch_client = record {
  auto_client = some some_handle;
  running = true;
  client_id = 1;
  channel_name = 97 ∷ 98 ∷ [];
}
