-- ===== src/Ffi/Slots.antt =====
-- src/multi/ffi.rs: the C interface of `MultiServer` and `MultiClient`.
use xshm.Prelude.{
  ℕ, ◌%◌, ◌^◌, Bool, true, false, ltb, ◌&&◌, if◌then◌else◌, min, Option, none, some, List, [], ◌∷◌,
  length, take,
}
use xshm.Constants.{slot_id_no_slot}
use xshm.Error.{Result, ok, err}
use xshm.Multi.Slots.{Effect}
use xshm.Multi.Calls.{
  MultiServer, send_to, broadcast, disconnect_client, connected_clients, client_count,
  is_client_connected, channel_name,
}
use xshm.Multi.Client.{ClientEffect}
use xshm.Multi.Handle.{MultiClient, client_send, client_is_connected, client_stop}
use xshm.Ffi.{ErrorCode, success, error_invalid_param, from_error, code_of, bad_size}
use xshm.Ffi.Strings.{to_rust_str, copy_name}

-- `shm_multi_callbacks_t`, by whether each function is given, and the calls of them.
pub record MultiCallbacks : Type 0 where
  pub on_client_connect : Bool
  pub on_client_disconnect : Bool
  pub on_message : Bool
  pub on_error : Bool

pub data MultiCall : Type 0 where
  call_client_connect : (client_id : ℕ) → MultiCall
  call_client_disconnect : (client_id : ℕ) → MultiCall
  call_message : (client_id : ℕ) (bytes : List ℕ) → MultiCall
  call_error : (client_id : ℕ) (code : ErrorCode) → MultiCall

-- `client_id.unwrap_or(u32::MAX)`
abbrev pub id_or_max : Option ℕ → ℕ
id_or_max none = 0xFFFF_FFFF
id_or_max (some id) = id

-- `FfiMultiHandler`
unfoldable pub ffi_multi_handler : MultiCallbacks → Effect → List MultiCall
unfolding from_error
ffi_multi_handler cb (Effect.set_event slot_id e) = []
ffi_multi_handler cb (Effect.on_client_connect id) =
    if cb.on_client_connect then call_client_connect id ∷ [] else []
ffi_multi_handler cb (Effect.on_client_disconnect id) =
    if cb.on_client_disconnect then call_client_disconnect id ∷ [] else []
ffi_multi_handler cb (Effect.on_message id bytes) =
    if cb.on_message then call_message id bytes ∷ [] else []
ffi_multi_handler cb (Effect.on_error id e) =
    if cb.on_error then call_error (id_or_max id) (from_error e) ∷ [] else []

-- `shm_multi_callbacks_t::default()` for a null pointer
abbrev pub given_multi_callbacks : Option MultiCallbacks → MultiCallbacks
given_multi_callbacks none = record {
  on_client_connect = false;
  on_client_disconnect = false;
  on_message = false;
  on_error = false;
}
given_multi_callbacks (some cb) = cb

abbrev pub multi_started : MultiCallbacks → Result MultiServer → Option MultiServer × List MultiCall
multi_started cb (ok m) = (some m, [])
multi_started cb (err e) =
    (none, if cb.on_error then call_error 0xFFFF_FFFF (from_error e) ∷ [] else [])

-- `call` is `MultiServer::start` with a handler of these callbacks, and the options.
unfoldable pub shm_multi_server_start :
    (call : List ℕ → MultiCallbacks → Result MultiServer)
    → Option (List ℕ)
    → Option MultiCallbacks
    → Option MultiServer × List MultiCall
unfolding from_error to_rust_str
shm_multi_server_start call base_name callbacks = elim (to_rust_str base_name) [
  | none ↦ (none, [])
  | some name ↦ let cb = given_multi_callbacks callbacks in multi_started cb (call name cb)
]

unfoldable pub shm_multi_server_send_to :
    Option MultiServer → ℕ → Option (List ℕ) → ErrorCode × Option MultiServer × List Effect
unfolding from_error
shm_multi_server_send_to none id message = (error_invalid_param, none, [])
shm_multi_server_send_to (some m) id none = (error_invalid_param, some m, [])
shm_multi_server_send_to (some m) id (some bytes) =
    let (res, m', effects) = send_to id bytes m in
    if bad_size bytes then (error_invalid_param, some m, []) else (code_of res, some m', effects)

-- `count` says whether the pointer to the count is not null; then the count is written there.
unfoldable pub shm_multi_server_broadcast :
    Option MultiServer
    → Option (List ℕ)
    → (count : Bool) → ErrorCode × Option ℕ × Option MultiServer × List Effect
shm_multi_server_broadcast none message count = (error_invalid_param, none, none, [])
shm_multi_server_broadcast (some m) none count = (error_invalid_param, none, some m, [])
shm_multi_server_broadcast (some m) (some bytes) count =
    let (sent, m', effects) = broadcast bytes m in
    if bad_size bytes
    then (error_invalid_param, none, some m, [])
    else (success, if count then some sent else none, some m', effects)

unfoldable pub shm_multi_server_disconnect_client :
    Option MultiServer → ℕ → ErrorCode × Option MultiServer × List Effect
unfolding from_error
shm_multi_server_disconnect_client none id = (error_invalid_param, none, [])
shm_multi_server_disconnect_client (some m) id =
    let (res, m', effects) = disconnect_client id m in (code_of res, some m', effects)

unfoldable pub shm_multi_server_client_count : Option MultiServer → ℕ
shm_multi_server_client_count none = 0
shm_multi_server_client_count (some m) = client_count m

unfoldable pub shm_multi_server_is_client_connected : Option MultiServer → ℕ → Bool
shm_multi_server_is_client_connected none id = false
shm_multi_server_is_client_connected (some m) id = is_client_connected id m

-- The code, the number that is written to `actual_count`, and the ids that are written to `client_ids`;
-- the two flags say whether these pointers are not null.
unfoldable pub shm_multi_server_get_clients :
    Option MultiServer
    → (ids : Bool) → (max_count : ℕ) → (actual : Bool) → ErrorCode × Option ℕ × List ℕ
shm_multi_server_get_clients none ids max_count actual = (error_invalid_param, none, [])
shm_multi_server_get_clients (some m) ids max_count false = (error_invalid_param, none, [])
shm_multi_server_get_clients (some m) ids max_count true =
    let clients = connected_clients m in
    (
      success,
      some (length clients % 2 ^ 32),
      if ids && ltb 0 max_count then take (min (length clients) max_count) clients else [],
    )

-- `render` makes the name of a slot from its number. The result is the length of the name, and what is
-- written to the buffer.
unfoldable pub shm_multi_server_channel_name :
    (render : ℕ → List ℕ) → Option MultiServer → ℕ → (buffer : Bool) → ℕ → ℕ × List ℕ
unfolding copy_name
shm_multi_server_channel_name render none slot_id buffer buffer_size = (0, [])
shm_multi_server_channel_name render (some m) slot_id buffer buffer_size =
    elim (channel_name slot_id m) [
      | none ↦ (0, [])
      | some n ↦ (length (render n) % 2 ^ 32, copy_name (render n) buffer buffer_size)
    ]

-- `shm_multi_client_callbacks_t` and the calls.
pub record MultiClientCallbacks : Type 0 where
  pub on_connect : Bool
  pub on_disconnect : Bool
  pub on_message : Bool
  pub on_overflow : Bool
  pub on_error : Bool

pub data MultiClientCall : Type 0 where
  call_connect : (slot_id : ℕ) → MultiClientCall
  call_disconnect : MultiClientCall
  call_bytes : (bytes : List ℕ) → MultiClientCall
  call_overflow : (dropped : ℕ) → MultiClientCall
  call_failure : (code : ErrorCode) → MultiClientCall

-- `FfiMultiClientHandler`
unfoldable pub ffi_multi_client_handler : MultiClientCallbacks → ClientEffect → List MultiClientCall
unfolding from_error
ffi_multi_client_handler cb (ClientEffect.set_event e) = []
ffi_multi_client_handler cb (ClientEffect.on_connect slot_id) =
    if cb.on_connect then call_connect slot_id ∷ [] else []
ffi_multi_client_handler cb ClientEffect.on_disconnect =
    if cb.on_disconnect then call_disconnect ∷ [] else []
ffi_multi_client_handler cb (ClientEffect.on_message bytes) =
    if cb.on_message then call_bytes bytes ∷ [] else []
ffi_multi_client_handler cb (ClientEffect.on_overflow dropped) =
    if cb.on_overflow then call_overflow dropped ∷ [] else []
ffi_multi_client_handler cb (ClientEffect.on_error e) =
    if cb.on_error then call_failure (from_error e) ∷ [] else []

-- `shm_multi_client_callbacks_t::default()` for a null pointer
abbrev pub given_client_callbacks : Option MultiClientCallbacks → MultiClientCallbacks
given_client_callbacks none = record {
  on_connect = false;
  on_disconnect = false;
  on_message = false;
  on_overflow = false;
  on_error = false;
}
given_client_callbacks (some cb) = cb

abbrev pub multi_connected :
    MultiClientCallbacks → Result MultiClient → Option MultiClient × List MultiClientCall
multi_connected cb (ok c) = (some c, [])
multi_connected cb (err e) = (none, if cb.on_error then call_failure (from_error e) ∷ [] else [])

-- `call` is `MultiClient::connect` with a handler of these callbacks, and the options.
unfoldable pub shm_multi_client_connect :
    (call : List ℕ → MultiClientCallbacks → Result MultiClient)
    → Option (List ℕ)
    → Option MultiClientCallbacks
    → Option MultiClient × List MultiClientCall
unfolding from_error to_rust_str
shm_multi_client_connect call base_name callbacks = elim (to_rust_str base_name) [
  | none ↦ (none, [])
  | some name ↦ let cb = given_client_callbacks callbacks in multi_connected cb (call name cb)
]

unfoldable pub shm_multi_client_send :
    Option MultiClient → Option (List ℕ) → ErrorCode × Option MultiClient
unfolding from_error
shm_multi_client_send none message = (error_invalid_param, none)
shm_multi_client_send (some c) none = (error_invalid_param, some c)
shm_multi_client_send (some c) (some bytes) =
    let (res, c') = client_send c bytes in
    if bad_size bytes then (error_invalid_param, some c) else (code_of res, some c')

unfoldable pub shm_multi_client_slot_id : Option MultiClient → ℕ
shm_multi_client_slot_id none = slot_id_no_slot
shm_multi_client_slot_id (some c) = c.slot_id

unfoldable pub shm_multi_client_is_connected : Option MultiClient → Bool
shm_multi_client_is_connected none = false
shm_multi_client_is_connected (some c) = client_is_connected c

-- What the stop and then the drop tell the worker.
unfoldable pub shm_multi_client_disconnect : Option MultiClient → Option MultiClient
unfolding client_stop
shm_multi_client_disconnect none = none
shm_multi_client_disconnect (some c) =
    some (client_stop (record (client_stop c) { running = false }))
