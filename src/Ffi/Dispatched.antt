-- ===== src/Ffi/Dispatched.antt =====
-- src/dispatch/ffi.rs: the C interface of `DispatchServer` and `DispatchClient`.
use xshm.Prelude.{ℕ, ◌^◌, Bool, true, if◌then◌else◌, ltb, Option, none, some, List, [], ◌∷◌}
use xshm.Word.{ℤ, pos, sub_ℕ}
use xshm.Error.{Result, ok, err}
use xshm.Dispatch.{ClientRegistration, Call, DispatchServer, send_to, broadcast, client_count}
use xshm.Dispatch.Register.{ClientCall, DispatchClient, send, stop}
use xshm.Ffi.{ErrorCode, error_invalid_param, from_error, code_of, bad_size}
use xshm.Ffi.Strings.{to_rust_str, to_c_string_lossy}

-- `shm_dispatch_callbacks_t`, by whether each function is given, and the calls of them, with the bytes
-- of the C strings.
pub record DispatchCallbacks : Type 0 where
  pub on_client_connect : Bool
  pub on_client_disconnect : Bool
  pub on_message : Bool
  pub on_error : Bool

pub data DispatchCall : Type 0 where
  call_client_connect : (client_id pid revision : ℕ) (name : List ℕ) → DispatchCall
  call_client_disconnect : (client_id : ℕ) → DispatchCall
  call_message : (client_id : ℕ) (bytes : List ℕ) → DispatchCall
  call_error : (client_id : ℤ) (code : ErrorCode) → DispatchCall

-- `id as i32`
abbrev pub as_i32 : ℕ → ℤ
as_i32 id = if ltb id (2 ^ 31) then pos id else sub_ℕ id (2 ^ 32)

-- `client_id.map(|i| i as i32).unwrap_or(-1)`
abbrev pub id_or_minus_one : Option ℕ → ℤ
id_or_minus_one none = sub_ℕ 0 1
id_or_minus_one (some id) = as_i32 id

-- `FfiDispatchHandler`
unfoldable pub ffi_dispatch_handler : DispatchCallbacks → Call → List DispatchCall
unfolding from_error to_c_string_lossy
ffi_dispatch_handler cb (Call.on_client_connect id info) =
    if cb.on_client_connect
    then call_client_connect id info.pid info.revision (to_c_string_lossy info.name) ∷ []
    else []
ffi_dispatch_handler cb (Call.on_client_disconnect id) =
    if cb.on_client_disconnect then call_client_disconnect id ∷ [] else []
ffi_dispatch_handler cb (Call.on_message id bytes) =
    if cb.on_message then call_message id bytes ∷ [] else []
ffi_dispatch_handler cb (Call.on_error id e) =
    if cb.on_error then call_error (id_or_minus_one id) (from_error e) ∷ [] else []

-- `shm_dispatch_client_callbacks_t`, and the calls.
pub record DispatchClientCallbacks : Type 0 where
  pub on_connect : Bool
  pub on_disconnect : Bool
  pub on_message : Bool
  pub on_error : Bool

pub data DispatchClientCall : Type 0 where
  call_connect : (client_id : ℕ) (channel_name : List ℕ) → DispatchClientCall
  call_disconnect : DispatchClientCall
  call_bytes : (bytes : List ℕ) → DispatchClientCall
  call_failure : (code : ErrorCode) → DispatchClientCall

-- `FfiDispatchClientHandler`
unfoldable pub ffi_dispatch_client_handler :
    DispatchClientCallbacks → ClientCall → List DispatchClientCall
unfolding from_error to_c_string_lossy
ffi_dispatch_client_handler cb (ClientCall.on_connect id name) =
    if cb.on_connect then call_connect id (to_c_string_lossy name) ∷ [] else []
ffi_dispatch_client_handler cb ClientCall.on_disconnect =
    if cb.on_disconnect then call_disconnect ∷ [] else []
ffi_dispatch_client_handler cb (ClientCall.on_message bytes) =
    if cb.on_message then call_bytes bytes ∷ [] else []
ffi_dispatch_client_handler cb (ClientCall.on_error e) =
    if cb.on_error then call_failure (from_error e) ∷ [] else []

-- The arguments are the name and the callbacks, and what `DispatchServer::start` returns.
unfoldable pub shm_dispatch_server_start :
    Option (List ℕ)
    → Option DispatchCallbacks
    → Result DispatchServer
    → Option DispatchServer × List DispatchCall
unfolding from_error
shm_dispatch_server_start none callbacks started = (none, [])
shm_dispatch_server_start (some name) none started = (none, [])
shm_dispatch_server_start (some name) (some cb) (ok s) = (some s, [])
shm_dispatch_server_start (some name) (some cb) (err e) =
    (none, if cb.on_error then call_error (sub_ℕ 0 1) (from_error e) ∷ [] else [])

unfoldable pub shm_dispatch_server_send_to :
    Option DispatchServer → ℕ → Option (List ℕ) → ErrorCode × Option DispatchServer
unfolding from_error
shm_dispatch_server_send_to none id message = (error_invalid_param, none)
shm_dispatch_server_send_to (some s) id none = (error_invalid_param, some s)
shm_dispatch_server_send_to (some s) id (some bytes) =
    let (res, s') = send_to id bytes s in
    if bad_size bytes then (error_invalid_param, some s) else (code_of res, some s')

-- what is written to `sent_count`, if that is not null
abbrev pub count_of : Bool → Result ℕ → Option ℕ
count_of true (ok n) = some n
count_of _ _ = none

unfoldable pub shm_dispatch_server_broadcast :
    Option DispatchServer
    → Option (List ℕ)
    → (count : Bool) → ErrorCode × Option ℕ × Option DispatchServer
unfolding from_error
shm_dispatch_server_broadcast none message count = (error_invalid_param, none, none)
shm_dispatch_server_broadcast (some s) none count = (error_invalid_param, none, some s)
shm_dispatch_server_broadcast (some s) (some bytes) count =
    let (res, s') = broadcast bytes s in
    if bad_size bytes
    then (error_invalid_param, none, some s)
    else (code_of res, count_of count res, some s')

unfoldable pub shm_dispatch_server_client_count : Option DispatchServer → ℕ
shm_dispatch_server_client_count none = 0
shm_dispatch_server_client_count (some s) = client_count s

-- `shm_dispatch_registration_t`; `name` is a pointer to a C string.
pub record FfiRegistration : Type 0 where
  pub pid : ℕ
  pub revision : ℕ
  pub name : Option (List ℕ)

-- `unwrap_or_default`
abbrev pub or_empty : Option (List ℕ) → List ℕ
or_empty none = []
or_empty (some s) = s

unfoldable pub registration_of : FfiRegistration → ClientRegistration
unfolding to_rust_str
registration_of reg = record {
  pid = reg.pid;
  revision = reg.revision;
  name = or_empty (to_rust_str reg.name);
}

-- `call` is `DispatchClient::connect` with the name and the options.
unfoldable pub shm_dispatch_client_connect :
    (call : List ℕ → ClientRegistration → Result DispatchClient)
    → Option (List ℕ)
    → Option FfiRegistration
    → Option DispatchClientCallbacks
    → Option DispatchClient × List DispatchClientCall
unfolding from_error registration_of to_rust_str
shm_dispatch_client_connect call name none callbacks = (none, [])
shm_dispatch_client_connect call name (some reg) none = (none, [])
shm_dispatch_client_connect call name (some reg) (some cb) = elim (to_rust_str name) [
  | none ↦ (none, [])
  | some s ↦ elim (call s (registration_of reg)) [
    | ok c ↦ (some c, [])
    | err e ↦ (none, if cb.on_error then call_failure (from_error e) ∷ [] else [])
  ]
]

unfoldable pub shm_dispatch_client_send :
    Option DispatchClient → Option (List ℕ) → ErrorCode × Option DispatchClient
unfolding from_error
shm_dispatch_client_send none message = (error_invalid_param, none)
shm_dispatch_client_send (some c) none = (error_invalid_param, some c)
shm_dispatch_client_send (some c) (some bytes) =
    let (res, c') = send bytes c in
    if bad_size bytes then (error_invalid_param, some c) else (code_of res, some c')

-- The drop of the client, which stops it.
unfoldable pub shm_dispatch_client_stop : Option DispatchClient → Option DispatchClient
unfolding stop
shm_dispatch_client_stop none = none
shm_dispatch_client_stop (some c) = some (stop c)
