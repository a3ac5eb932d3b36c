-- ===== src/Dispatch/Lobby.antt =====
-- src/dispatch/mod.rs: the lobby of a `DispatchServer`, where a client is given an id and a channel.
use xshm.Prelude.{
  ℕ, zero, suc, ◌+◌, ◌%◌, ◌/◌, ◌^◌, Bool, false, ltb, if◌then◌else◌, Option, none, some, List, [],
  ◌∷◌, ◌++◌,
}
use xshm.Error.{ShmError, Result, ok, err, timeout, queue_empty, not_ready, already_connected}
use xshm.Segment.{Segment, Event, s2c_data}
use xshm.Server.{
  SharedServer, start, send_to_client, receive_from_client, wait_for_client, mark_disconnected,
  Polls,
}
use xshm.Protocol.{
  RegistrationRequest, RegistrationResponse, decode_request, encode_response, status_ok,
  status_rejected,
}
use xshm.Auto.Handle.{Handle}
use xshm.Dispatch.{ClientRegistration, Call, on_error, DispatchedClient}

-- "{:016x}": a 64-bit number in 16 hexadecimal digits
abbrev pub hex_digit : ℕ → ℕ
hex_digit d = if ltb d 10 then 48 + d else 87 + d

unfoldable pub hex : ℕ → ℕ → List ℕ → List ℕ
hex zero n tail = tail
hex (suc digits) n tail = hex digits (n / 16) (hex_digit (n % 16) ∷ tail)

-- The argument is what the hasher returns, which has been seeded at random.
unfoldable pub generate_channel_name : ℕ → List ℕ
unfolding hex
generate_channel_name hash = hex 16 (hash % 2 ^ 64) []

-- The rounds of the loop that waits for the request, up to the one in which the time is over: whether
-- the server is running, and what the client does to the segment before the read.
pub data Rounds : Type 0 where
  round : (running : Bool) (meanwhile : Segment → Segment) → Rounds → Rounds
  times_out : Rounds

-- How the loop ends: with a request, with an error for the handler, or because the server stops.
pub data Request : Type 0 where
  requested : (req : RegistrationRequest) → Request
  failed : (e : ShmError) → Request
  stopping : Request

abbrev pub decoded : Result RegistrationRequest → Request
decoded (ok req) = requested req
decoded (err e) = failed e

-- The arms of the match on `receive_from_client`; `later` is the next round.
abbrev pub received :
    Result (List ℕ)
    → SharedServer
    → List Event
    → Request × SharedServer × List Event
    → Request × SharedServer × List Event
received (ok bytes) s events later = (decoded (decode_request bytes), s, events)
received (err queue_empty) s events (request, s', more) = (request, s', events ++ more)
received (err e) s events later = (failed e, s, events)

unfoldable pub read_request : Rounds → SharedServer → Request × SharedServer × List Event
read_request times_out s = (failed timeout, s, [])
read_request (round running meanwhile rounds) s =
    let now = record s { view = meanwhile s.view } in
    let (res, s', events) = receive_from_client now in
    let later = read_request rounds s' in
    if running then received res s' events later else (stopping, now, [])

-- What `handle_lobby_client` leaves: the client whose channel is waited for from then on, the next id,
-- the lobby, the events that were set, and the calls of the handler.
pub record Handled : Type 0 where
  pub registered : Option (ℕ × DispatchedClient)
  pub next_client_id : ℕ
  pub lobby : SharedServer
  pub events : List Event
  pub calls : List Call

abbrev pub nothing_registered : ℕ → SharedServer → List Event → List Call → Handled
nothing_registered next lobby events calls = record {
  registered = none;
  next_client_id = next;
  lobby = lobby;
  events = events;
  calls = calls;
}

-- The answer to a client whose channel could not be made, and to one whose channel is there.
unfoldable pub reject : ℕ → SharedServer → ShmError → Handled
reject next lobby e =
    let response : RegistrationResponse = record {
      status = status_rejected;
      client_id = 0;
      channel_name = [];
    } in
    let (_, lobby', events) = send_to_client lobby (encode_response response) in
    nothing_registered next lobby' events (on_error none e ∷ [])

abbrev pub info_of : RegistrationRequest → ClientRegistration
info_of req = record { pid = req.pid; revision = req.revision; name = req.name }

abbrev pub new_client : RegistrationRequest → List ℕ → Handle → DispatchedClient
new_client req name server = record {
  server = server;
  info = info_of req;
  channel_name = name;
  disconnected = false;
}

unfoldable pub assign : ℕ → ℕ → SharedServer → RegistrationRequest → List ℕ → Handle → Handled
assign id next lobby req name server =
    let response : RegistrationResponse = record {
      status = status_ok;
      client_id = id;
      channel_name = name;
    } in
    let (res, lobby', events) = send_to_client lobby (encode_response response) in
    elim res [
      | err e ↦ nothing_registered next lobby' events (on_error none e ∷ [])
      | ok _ ↦ record {
        registered = some (id, new_client req name server);
        next_client_id = next;
        lobby = lobby';
        events = events ++ s2c_data ∷ [];
        calls = [];
      }
    ]

-- What follows the loop. `started` is how `AutoServer::start` ends on the channel's name.
unfoldable pub answer : ℕ → Result Handle → ℕ → SharedServer → Request → Handled
unfolding reject assign generate_channel_name
answer hash started id lobby stopping = nothing_registered id lobby [] []
answer hash started id lobby (failed e) = nothing_registered id lobby [] (on_error none e ∷ [])
answer hash started id lobby (requested req) = elim started [
  | err e ↦ reject ((id + 1) % 2 ^ 32) lobby e
  | ok server ↦ assign id ((id + 1) % 2 ^ 32) lobby req (generate_channel_name hash) server
]

unfoldable pub handle_lobby_client : Rounds → ℕ → Result Handle → ℕ → SharedServer → Handled
unfolding read_request answer
handle_lobby_client rounds hash started id lobby =
    let (request, lobby', events) = read_request rounds lobby in
    let handled = answer hash started id lobby' request in
    if lobby.has_events
    then record handled { events = events ++ handled.events }
    else nothing_registered id lobby [] (on_error none not_ready ∷ [])

-- One turn of `worker_loop`: what `SharedServer::start` is given if there is no lobby, and what
-- `wait_for_client` and `handle_lobby_client` are given if there is one; `arriving` is what a client does
-- to the segment before the wait ends.
pub record Turn : Type 0 where
  pub mapped : Result Segment
  pub created : Result (Unit {0})
  pub arriving : Segment → Segment
  pub waited : Result Bool
  pub acked : Result (Unit {0})
  pub polls : Polls
  pub rounds : Rounds
  pub hash : ℕ
  pub started : Result Handle

-- What the worker keeps, with the clients whose threads it has started and the calls it has made.
pub record Worker : Type 0 where
  pub lobby : Option SharedServer
  pub next_client_id : ℕ
  pub pending : List (ℕ × DispatchedClient)
  pub calls : List Call

abbrev pub add_registered :
    List (ℕ × DispatchedClient) → Option (ℕ × DispatchedClient) → List (ℕ × DispatchedClient)
add_registered pending none = pending
add_registered pending (some c) = pending ++ c ∷ []

-- the arms of the match on `wait_for_client`
unfoldable pub after_wait_for_client : Turn → Result (Unit {0}) → SharedServer → Worker → Worker
unfolding handle_lobby_client
after_wait_for_client t (ok _) lobby w =
    let handled = handle_lobby_client t.rounds t.hash t.started w.next_client_id lobby in
    record {
      lobby = some (mark_disconnected handled.lobby);
      next_client_id = handled.next_client_id;
      pending = add_registered w.pending handled.registered;
      calls = w.calls ++ handled.calls;
    }
after_wait_for_client t (err timeout) lobby w = record w { lobby = some lobby }
after_wait_for_client t (err already_connected) lobby w = record w {
  lobby = some (mark_disconnected lobby);
}
after_wait_for_client t (err e) lobby w = record w {
  lobby = none;
  calls = w.calls ++ on_error none e ∷ [];
}

abbrev pub start_lobby : Result SharedServer → Worker → Worker
start_lobby (ok s) w = record w { lobby = some s }
start_lobby (err e) w = record w { calls = w.calls ++ on_error none e ∷ [] }

unfoldable pub turn : Turn → Worker → Worker
unfolding after_wait_for_client
turn t w = elim w.lobby [
  | none ↦ start_lobby (start t.mapped t.created) w
  | some lobby ↦
      let now : SharedServer = record lobby { view = t.arriving lobby.view } in
      let (res, lobby', events) = wait_for_client t.waited t.acked t.polls now in
      after_wait_for_client t res lobby' w
]

-- The turns in which the server is running.
unfoldable pub worker_loop : List Turn → Worker → Worker
unfolding turn
worker_loop [] w = w
worker_loop (t ∷ turns) w = worker_loop turns (turn t w)
