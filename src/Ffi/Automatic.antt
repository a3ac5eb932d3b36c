-- ===== src/Ffi/Automatic.antt =====
-- src/ffi.rs: the C interface of `AutoServer` and `AutoClient`. The state behind a handle is what the
-- owner of a worker has, Auto/Handle.antt; the statistics are those that the worker counts.
use xshm.Prelude.{ℕ, Bool, true, false, if◌then◌else◌, Option, none, some, List, [], ◌∷◌}
use xshm.Error.{Result, ok, err}
use xshm.Auto.{Effect, AutoOptions, AutoStats}
use xshm.Auto.Handle.{Handle, auto_send, auto_stop}
use xshm.Ffi.Strings.{to_rust_str}
use xshm.Ffi.{
  ErrorCode, error_invalid_param, from_error, code_of, Callbacks, CCall, call_connect,
  call_disconnect, call_data_available, call_space_available, call_error, call_message,
  call_overflow, error_calls, name_of_config, bad_size,
}

-- `FfiHandler`: what the worker tells, as calls of the functions that are given. A message goes to
-- `on_data_available` if there is no `on_message`.
unfoldable pub ffi_handler : Callbacks → Effect → List CCall
unfolding from_error
ffi_handler cb (Effect.set_event e) = []
ffi_handler cb Effect.on_connect = if cb.on_connect then call_connect ∷ [] else []
ffi_handler cb Effect.on_disconnect = if cb.on_disconnect then call_disconnect ∷ [] else []
ffi_handler cb (Effect.on_message direction payload) =
    if cb.on_message
    then call_message direction payload ∷ []
    else if cb.on_data_available
    then call_data_available ∷ []
    else []
ffi_handler cb (Effect.on_overflow direction dropped) =
    if cb.on_overflow then call_overflow direction dropped ∷ [] else []
ffi_handler cb (Effect.on_space_available direction) =
    if cb.on_space_available then call_space_available ∷ [] else []
ffi_handler cb (Effect.on_error e) = if cb.on_error then call_error (from_error e) ∷ [] else []

-- `shm_callbacks_t::default()`
abbrev pub no_callbacks : Callbacks
no_callbacks = record {
  on_connect = false;
  on_disconnect = false;
  on_data_available = false;
  on_space_available = false;
  on_error = false;
  on_message = false;
  on_overflow = false;
}

-- `AutoOptions::default()`, and the options of a caller, without the times
unfoldable pub ffi_auto_options : Option AutoOptions → AutoOptions
ffi_auto_options none = record { max_send_queue = 256; recv_batch = 32 }
ffi_auto_options (some o) = o

-- What is written behind the pointer; its argument says whether it is not null.
unfoldable pub write_stats : (dst : Bool) → AutoStats → Bool × Option AutoStats
write_stats false stats = (false, none)
write_stats true stats = (true, some stats)

abbrev pub given_callbacks : Option Callbacks → Callbacks
given_callbacks none = no_callbacks
given_callbacks (some cb) = cb

abbrev pub auto_started : Option Callbacks → Result Handle → Option Handle × List CCall
auto_started callbacks (ok h) = (some h, [])
auto_started callbacks (err e) = (none, error_calls callbacks (from_error e))

-- `call` is `AutoServer::start`, and below `AutoClient::connect`, with a handler of these callbacks.
unfoldable pub shm_server_start_auto :
    (call : List ℕ → Callbacks → AutoOptions → Result Handle)
    → Option (Option (List ℕ))
    → Option Callbacks
    → Option AutoOptions
    → Option Handle × List CCall
unfolding from_error to_rust_str ffi_auto_options
shm_server_start_auto call config callbacks options = elim (name_of_config config) [
  | none ↦ (none, [])
  | some name ↦
      auto_started callbacks (call name (given_callbacks callbacks) (ffi_auto_options options))
]

unfoldable pub shm_client_connect_auto :
    (call : List ℕ → Callbacks → AutoOptions → Result Handle)
    → Option (Option (List ℕ))
    → Option Callbacks
    → Option AutoOptions
    → Option Handle × List CCall
unfolding from_error to_rust_str ffi_auto_options
shm_client_connect_auto call config callbacks options = elim (name_of_config config) [
  | none ↦ (none, [])
  | some name ↦
      auto_started callbacks (call name (given_callbacks callbacks) (ffi_auto_options options))
]

unfoldable pub shm_server_send_auto : Option Handle → Option (List ℕ) → ErrorCode × Option Handle
unfolding from_error auto_send
shm_server_send_auto none message = (error_invalid_param, none)
shm_server_send_auto (some h) none = (error_invalid_param, some h)
shm_server_send_auto (some h) (some bytes) =
    let (res, h') = auto_send h bytes in
    if bad_size bytes then (error_invalid_param, some h) else (code_of res, some h')

unfoldable pub shm_client_send_auto : Option Handle → Option (List ℕ) → ErrorCode × Option Handle
unfolding from_error auto_send
shm_client_send_auto none message = (error_invalid_param, none)
shm_client_send_auto (some h) none = (error_invalid_param, some h)
shm_client_send_auto (some h) (some bytes) =
    let (res, h') = auto_send h bytes in
    if bad_size bytes then (error_invalid_param, some h) else (code_of res, some h')

-- `shm_server_stats_auto` and `shm_client_stats_auto`
unfoldable pub shm_stats_auto : Option AutoStats → (out : Bool) → Bool × Option AutoStats
unfolding write_stats
shm_stats_auto none out = (false, none)
shm_stats_auto (some stats) out = write_stats out stats

-- `shm_server_stop_auto` and `shm_client_disconnect_auto`: what the drop tells the worker, which is
-- joined then.
unfoldable pub shm_stop_auto : Option Handle → Option Handle
unfolding auto_stop
shm_stop_auto none = none
shm_stop_auto (some h) = some (auto_stop (record h { running = false }))
