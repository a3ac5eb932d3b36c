-- ===== src/Dispatch.antt =====
-- src/dispatch/mod.rs: the clients of a `DispatchServer`, each on a channel of its own, and the calls
-- on them. A call returns its result, the server, and what it tells the handler.
pub mod ClientMap
pub mod Threads
pub mod Ledger
pub mod Stuck
pub mod Drain
pub mod Late
pub mod Lobby
pub mod Register
pub mod Assigned
pub mod Registry
pub mod Ids
use xshm.Prelude.{
  ℕ, zero, suc, ◌+◌, ◌%◌, ◌^◌, Bool, true, false, ◌==◌, if◌then◌else◌, Option, none, some, List, [],
  ◌∷◌, ◌++◌, map, length,
}
use xshm.Error.{ShmError, Result, ok, err, not_connected}
use xshm.Dispatch.ClientMap.{get, modify, remove, keys, is_some}
use xshm.Auto.Handle.{Handle, auto_send}

pub record ClientRegistration : Type 0 where
  pub pid : ℕ
  pub revision : ℕ
  pub name : List ℕ

-- The calls of `DispatchHandler`.
pub data Call : Type 0 where
  on_client_connect : (client_id : ℕ) (info : ClientRegistration) → Call
  on_client_disconnect : (client_id : ℕ) → Call
  on_message : (client_id : ℕ) (bytes : List ℕ) → Call
  on_error : (client_id : Option ℕ) (e : ShmError) → Call

pub record DispatchedClient : Type 0 where
  pub server : Handle
  pub info : ClientRegistration
  pub channel_name : List ℕ
  pub disconnected : Bool

abbrev pub Clients : Type 0
Clients = List (ℕ × DispatchedClient)

-- The fields of `DispatchServer` that its calls read and write.
pub record DispatchServer : Type 0 where
  pub clients : Clients
  pub running : Bool
  pub next_client_id : ℕ

-- `client.server.send(data)` on a client in the map
abbrev pub send_on : DispatchedClient → List ℕ → Result (Unit {0}) × DispatchedClient
send_on c bytes =
    let (res, server) = auto_send c.server bytes in (res, record c { server = server })

unfoldable pub send_to : ℕ → List ℕ → DispatchServer → Result (Unit {0}) × DispatchServer
unfolding auto_send
send_to id bytes s = elim (get id s.clients) [
  | none ↦ (err not_connected, s)
  | some c ↦
      let (res, c') = send_on c bytes in (res, record s { clients = modify id (λ _. c') s.clients })
]

-- `sent += 1` on a `u32`
abbrev pub count_ok : Result (Unit {0}) → ℕ → ℕ
count_ok (ok _) sent = suc sent
count_ok (err _) sent = sent

unfoldable pub send_all : List ℕ → Clients → ℕ × Clients
unfolding auto_send
send_all bytes [] = (0, [])
send_all bytes ((id, c) ∷ rest) =
    let (res, c') = send_on c bytes in
    let (sent, rest') = send_all bytes rest in (count_ok res sent, (id, c') ∷ rest')

unfoldable pub broadcast : List ℕ → DispatchServer → Result ℕ × DispatchServer
unfolding send_all
broadcast bytes s =
    let (sent, clients) = send_all bytes s.clients in
    (ok (sent % 2 ^ 32), record s { clients = clients })

-- The client is gone with its `AutoServer`, which has been stopped.
unfoldable pub disconnect_client :
    ℕ → DispatchServer → Result (Unit {0}) × DispatchServer × List Call
disconnect_client id s = elim (get id s.clients) [
  | none ↦ (err not_connected, s, [])
  | some _ ↦ (ok tt, record s { clients = remove id s.clients }, on_client_disconnect id ∷ [])
]

unfoldable pub connected_clients : DispatchServer → List ℕ
connected_clients s = keys s.clients

unfoldable pub client_count : DispatchServer → ℕ
client_count s = length s.clients % 2 ^ 32

unfoldable pub is_client_connected : ℕ → DispatchServer → Bool
is_client_connected id s = is_some (get id s.clients)

unfoldable pub client_info : ℕ → DispatchServer → Option ClientRegistration
client_info id s = elim (get id s.clients) [ none ↦ none | some c ↦ some (c.info) ]

unfoldable pub client_channel_name : ℕ → DispatchServer → Option (List ℕ)
client_channel_name id s = elim (get id s.clients) [ none ↦ none | some c ↦ some (c.channel_name) ]

-- `AutoProxyHandler::on_disconnect`, up to the release of the lock: whether the client was taken out.
unfoldable pub proxy_on_disconnect : ℕ → Clients → Bool × Clients
proxy_on_disconnect id clients = elim (get id clients) [
  | none ↦ (false, clients)
  | some c ↦ if c.disconnected then (false, clients) else (true, remove id clients)
]
