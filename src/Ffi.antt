-- ===== src/Ffi.antt =====
-- src/ffi.rs: the C interface of the two endpoints. A pointer is an `Option`, `none` being the null
-- pointer; what a call writes through a pointer is part of its result. A state is behind a handle.
pub mod Receive
pub mod Cached
pub mod Automatic
pub mod Poll
pub mod Strings
pub mod Slots
pub mod Dispatched
pub mod Refused
use xshm.Prelude.{
  ℕ, Bool, true, false, ltb, ◌==◌, ◌||◌, if◌then◌else◌, Option, none, some, List, [], ◌∷◌, ◌++◌,
  length, take,
}
use xshm.Constants.{max_message_size}
use xshm.Error.{
  ShmError, Result, ok, err, not_connected, not_ready, already_connected, timeout, queue_empty,
  queue_full, message_too_small, message_too_large, corrupted, handshake_failed, windows_error,
  no_free_slot, invalid_config,
}
use xshm.Ring.{WriteOutcome}
use xshm.Segment.{Segment, Event}
use xshm.Server.{
  SharedServer, Polls, wait_for_client, send_to_client, receive_from_client, poll_client,
  drop_server,
}
use xshm.Ffi.Strings.{to_rust_str}
use xshm.Auto.{ChannelKind}
use xshm.Client.{SharedClient, send_to_server, receive_from_server, poll_server, drop_client}

-- `shm_error_t`
pub data ErrorCode : Type 0 where
  success : ErrorCode
  error_invalid_param : ErrorCode
  error_memory : ErrorCode
  error_timeout : ErrorCode
  error_empty : ErrorCode
  error_exists : ErrorCode
  error_not_found : ErrorCode
  error_access : ErrorCode
  error_not_ready : ErrorCode
  error_protocol : ErrorCode
  error_full : ErrorCode
  error_no_slot : ErrorCode

-- `From<ShmError>`
unfoldable pub from_error : ShmError → ErrorCode
from_error message_too_small = error_invalid_param
from_error message_too_large = error_invalid_param
from_error queue_empty = error_empty
from_error queue_full = error_full
from_error timeout = error_timeout
from_error not_ready = error_not_ready
from_error not_connected = error_not_found
from_error already_connected = error_exists
from_error handshake_failed = error_protocol
from_error corrupted = error_protocol
from_error (windows_error code) = error_access
from_error invalid_config = error_invalid_param
from_error no_free_slot = error_no_slot

abbrev pub code_of {ℓ} : {A : Type ℓ} → Result A → ErrorCode
code_of (ok _) = success
code_of (err e) = from_error e

-- `shm_callbacks_t`, by whether each function is given.
pub record Callbacks : Type 0 where
  pub on_connect : Bool
  pub on_disconnect : Bool
  pub on_data_available : Bool
  pub on_space_available : Bool
  pub on_error : Bool
  pub on_message : Bool
  pub on_overflow : Bool

-- A call of one of them. `shm_direction_t` is the kind of the channel.
pub data CCall : Type 0 where
  call_connect : CCall
  call_disconnect : CCall
  call_data_available : CCall
  call_space_available : CCall
  call_error : (code : ErrorCode) → CCall
  call_message : (direction : ChannelKind) (payload : List ℕ) → CCall
  call_overflow : (direction : ChannelKind) (dropped : ℕ) → CCall

abbrev pub connect_calls : Option Callbacks → List CCall
connect_calls none = []
connect_calls (some cb) = if cb.on_connect then call_connect ∷ [] else []

abbrev pub disconnect_calls : Option Callbacks → List CCall
disconnect_calls none = []
disconnect_calls (some cb) = if cb.on_disconnect then call_disconnect ∷ [] else []

abbrev pub error_calls : Option Callbacks → ErrorCode → List CCall
error_calls none code = []
error_calls (some cb) code = if cb.on_error then call_error code ∷ [] else []

-- `buffer` holds the last message that was read, and `pending_len` is its length if it has not been
-- handed on.
pub record RecvCache : Type 0 where
  pub buffer : List ℕ
  pub pending_len : Option ℕ

pub record ServerState : Type 0 where
  pub inner : SharedServer
  pub callbacks : Option Callbacks
  pub recv_cache : RecvCache

-- The client shares its segment with the server, which is beside the state.
pub record ClientState : Type 0 where
  pub inner : SharedClient
  pub recv_cache : RecvCache

abbrev pub empty_cache : RecvCache
empty_cache = record { buffer = []; pending_len = none }

-- The tests of the size that all functions which send make: a message of `size` bytes.
abbrev pub bad_size : List ℕ → Bool
bad_size bytes = length bytes == 0 || ltb max_message_size (length bytes)

-- `shm_endpoint_config_t` behind a pointer: the name that it points to, as a `String`.
abbrev pub name_of_config : Option (Option (List ℕ)) → Option (List ℕ)
name_of_config none = none
name_of_config (some name) = to_rust_str name

abbrev pub server_started : Option Callbacks → Result SharedServer → Option ServerState × List CCall
server_started callbacks (ok server) =
    (some (record { inner = server; callbacks = callbacks; recv_cache = empty_cache }), [])
server_started callbacks (err e) = (none, error_calls callbacks (from_error e))

-- `call` is `SharedServer::start`; the result is the state behind the handle, if there is one, and the
-- calls.
unfoldable pub shm_server_start :
    (call : List ℕ → Result SharedServer)
    → Option (Option (List ℕ))
    → Option Callbacks
    → Option ServerState × List CCall
unfolding from_error to_rust_str
shm_server_start call config callbacks = elim (name_of_config config) [
  | none ↦ (none, [])
  | some name ↦ server_started callbacks (call name)
]

abbrev pub client_connected :
    Option Callbacks → Result SharedClient → Option ClientState × List CCall
client_connected callbacks (ok client) =
    (some (record { inner = client; recv_cache = empty_cache }), connect_calls callbacks)
client_connected callbacks (err e) = (none, error_calls callbacks (from_error e))

-- `call` is `SharedClient::connect` with the timeout.
unfoldable pub shm_client_connect :
    (call : List ℕ → Result SharedClient)
    → Option (Option (List ℕ))
    → Option Callbacks
    → Option ClientState × List CCall
unfolding from_error to_rust_str
shm_client_connect call config callbacks = elim (name_of_config config) [
  | none ↦ (none, [])
  | some name ↦ client_connected callbacks (call name)
]

abbrev pub wait_calls : Option Callbacks → Result (Unit {0}) → List CCall
wait_calls callbacks (ok _) = connect_calls callbacks
wait_calls callbacks (err e) = error_calls callbacks (from_error e)

unfoldable pub shm_server_wait_for_client :
    Result Bool
    → Result (Unit {0})
    → Polls
    → Option ServerState
    → ErrorCode × Option ServerState × List CCall
unfolding from_error
shm_server_wait_for_client waited acked polls none = (error_invalid_param, none, [])
shm_server_wait_for_client waited acked polls (some s) =
    let (res, inner, _) = wait_for_client waited acked polls s.inner in
    (code_of res, some (record s { inner = inner }), wait_calls s.callbacks res)

-- The state is dropped when the callback has returned.
unfoldable pub shm_server_stop : Option ServerState → Option (Segment × List Event) × List CCall
shm_server_stop none = (none, [])
shm_server_stop (some s) = (some (drop_server s.inner), disconnect_calls s.callbacks)

unfoldable pub shm_client_disconnect : Option ClientState → Segment → Segment × List Event
shm_client_disconnect none v = (v, [])
shm_client_disconnect (some s) v = drop_client s.inner v

unfoldable pub shm_client_is_connected : Option ClientState → Bool
shm_client_is_connected none = false
shm_client_is_connected (some s) = s.inner.connected

unfoldable pub shm_server_send :
    Option ServerState → Option (List ℕ) → ErrorCode × Option ServerState × List Event
unfolding from_error
shm_server_send none message = (error_invalid_param, none, [])
shm_server_send (some s) none = (error_invalid_param, some s, [])
shm_server_send (some s) (some bytes) =
    let (res, inner, events) = send_to_client s.inner bytes in
    if bad_size bytes
    then (error_invalid_param, some s, [])
    else (code_of res, some (record s { inner = inner }), events)

unfoldable pub shm_client_send :
    Option ClientState → Option (List ℕ) → Segment → ErrorCode × Segment × List Event
unfolding from_error
shm_client_send none message v = (error_invalid_param, v, [])
shm_client_send (some s) none v = (error_invalid_param, v, [])
shm_client_send (some s) (some bytes) v =
    let (res, v', events) = send_to_server s.inner bytes v in
    if bad_size bytes then (error_invalid_param, v, []) else (code_of res, v', events)

-- What a receive gives back: the code, and the bytes that it writes to the buffer, whose number it
-- writes to `size`.
pub record Received : Type 0 where
  pub code : ErrorCode
  pub written : Option (List ℕ)
  pub cache : RecvCache

abbrev pub hand_on : RecvCache → ℕ → ℕ → Received
hand_on cache len capacity =
    if ltb capacity len
    then record {
      code = error_memory;
      written = none;
      cache = record cache { pending_len = some len };
    }
    else record {
      code = success;
      written = some (take len cache.buffer);
      cache = record cache { pending_len = none };
    }

abbrev pub after_read : RecvCache → Result (List ℕ) → ℕ → Received
after_read cache (ok bytes) capacity =
    hand_on (record { buffer = bytes; pending_len = none }) (length bytes) capacity
after_read cache (err e) capacity = record { code = from_error e; written = none; cache = cache }

-- `buffer` is whether the pointer to the buffer is not null, and `size` what stands behind the other.
unfoldable pub shm_server_receive :
    Option ServerState
    → (buffer : Bool) → (size : Option ℕ)
    → ErrorCode × Option (List ℕ) × Option ServerState × List Event
unfolding from_error
shm_server_receive none buffer size = (error_invalid_param, none, none, [])
shm_server_receive (some s) buffer none = (error_invalid_param, none, some s, [])
shm_server_receive (some s) buffer (some capacity) =
    let (res, inner, events) = receive_from_client s.inner in
    let fresh = after_read s.recv_cache res capacity in
    if buffer
    then if capacity == 0
      then (error_invalid_param, none, some s, [])
      else (elim s.recv_cache.pending_len [
        | some len ↦
            let again = hand_on s.recv_cache len capacity in
            (again.code, again.written, some (record s { recv_cache = again.cache }), [])
        | none ↦ (
          fresh.code,
          fresh.written,
          some (record s { inner = inner; recv_cache = fresh.cache }),
          events,
        )
      ])
    else (error_invalid_param, none, some s, [])

unfoldable pub shm_client_receive :
    Option ClientState
    → (buffer : Bool) → (size : Option ℕ) → Segment
    → ErrorCode × Option (List ℕ) × Option ClientState × Segment × List Event
unfolding from_error
shm_client_receive none buffer size v = (error_invalid_param, none, none, v, [])
shm_client_receive (some s) buffer none v = (error_invalid_param, none, some s, v, [])
shm_client_receive (some s) buffer (some capacity) v =
    let (res, v', events) = receive_from_server s.inner v in
    let fresh = after_read s.recv_cache res capacity in
    if buffer
    then if capacity == 0
      then (error_invalid_param, none, some s, v, [])
      else (elim s.recv_cache.pending_len [
        | some len ↦
            let again = hand_on s.recv_cache len capacity in
            (again.code, again.written, some (record s { recv_cache = again.cache }), v, [])
        | none ↦
            (fresh.code, fresh.written, some (record s { recv_cache = fresh.cache }), v', events)
      ])
    else (error_invalid_param, none, some s, v, [])

abbrev pub poll_code : Result Bool → ErrorCode
poll_code (ok true) = success
poll_code (ok false) = error_timeout
poll_code (err e) = from_error e

unfoldable pub shm_server_poll : Result Bool → Option ServerState → ErrorCode
unfolding from_error
shm_server_poll waited none = error_invalid_param
shm_server_poll waited (some s) = poll_code (poll_client waited s.inner)

unfoldable pub shm_client_poll : Result Bool → Option ClientState → Segment → ErrorCode
unfolding from_error
shm_client_poll waited none v = error_invalid_param
shm_client_poll waited (some s) v = poll_code (poll_server waited s.inner v)
