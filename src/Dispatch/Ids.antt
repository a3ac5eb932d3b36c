-- ===== src/Dispatch/Ids.antt =====
-- The ids that the worker of the lobby of src/dispatch/mod.rs gives its clients.
use xshm.Prelude.{
  ℕ, suc, ◌+◌, ◌%◌, ◌^◌, ◌≤◌, ◌<◌, ◌≡◌, refl, subst, arith, ◌⊎◌, Bool, true, false, ◌==◌,
  if◌then◌else◌, Option, none, some, List, [], ◌∷◌, ◌++◌, length,
}
use xshm.Error.{
  ShmError, Result, ok, err, not_connected, not_ready, already_connected, timeout, queue_empty,
  queue_full, message_too_small, message_too_large, corrupted, handshake_failed, windows_error,
  no_free_slot, invalid_config,
}
use xshm.Server.{SharedServer, start, send_to_client, wait_for_client}
use xshm.Segment.{Event}
use xshm.Ring.{WriteOutcome}
use xshm.Protocol.{RegistrationRequest, encode_response, status_ok}
use xshm.Auto.Handle.{Handle}
use xshm.Dispatch.{Call, DispatchedClient}
use xshm.Dispatch.ClientMap.{keys, occurs}
use xshm.Dispatch.Lobby.{
  Rounds, Request, requested, failed, stopping, read_request, Handled, new_client, reject, assign,
  answer, handle_lobby_client, Turn, Worker, add_registered, after_wait_for_client, start_lobby,
  turn, worker_loop, generate_channel_name,
}

-- What a call leaves of the id that it was given: it is still the next one, or it is used up, for a
-- client that is registered or for none.
data Numbered (id : ℕ) (handled : Handled) : Type 0 where
  unused : handled.next_client_id ≡ id → handled.registered ≡ none → Numbered id handled
  wasted :
      handled.next_client_id ≡ (id + 1) % 2 ^ 32 → handled.registered ≡ none → Numbered id handled
  given :
      {c : DispatchedClient}
      → handled.next_client_id ≡ (id + 1) % 2 ^ 32
      → handled.registered ≡ some (id, c)
      → Numbered id handled

assign-Numbered :
    (id : ℕ) (lobby : SharedServer) (req : RegistrationRequest) (name : List ℕ) (h : Handle)
    (res : Result WriteOutcome)
    → (send_to_client lobby
        (encode_response (record { status = status_ok; client_id = id; channel_name = name }))).0
      ≡ res
    → Numbered id (assign id ((id + 1) % 2 ^ 32) lobby req name h)
unfolding assign
assign-Numbered id lobby req name h (ok w) e =
    Numbered.given {c = new_client req name h} (ground arith) (ground arith)
assign-Numbered id lobby req name h (err x) e = Numbered.wasted (ground arith) (ground arith)

answer-Numbered :
    (hash : ℕ) (started : Result Handle) (id : ℕ) (lobby : SharedServer) (request : Request)
    → Numbered id (answer hash started id lobby request)
unfolding answer reject
answer-Numbered hash started id lobby stopping = Numbered.unused refl refl
answer-Numbered hash started id lobby (failed e) = Numbered.unused refl refl
answer-Numbered hash (err e) id lobby (requested req) = Numbered.wasted refl refl
answer-Numbered hash (ok h) id lobby (requested req) =
    assign-Numbered id lobby req (generate_channel_name hash) h _ refl

if-Numbered :
    (test : Bool) {id : ℕ} (a b : Handled)
    → Numbered id a
    → Numbered id b
    → Numbered id (if test then a else b)
if-Numbered true a b x y = x
if-Numbered false a b x y = y

-- The events do not matter.
add_events-Numbered :
    {id : ℕ} (handled : Handled) (events : List Event)
    → Numbered id handled
    → Numbered id (record handled { events = events })
add_events-Numbered handled events (Numbered.unused n r) = Numbered.unused n r
add_events-Numbered handled events (Numbered.wasted n r) = Numbered.wasted n r
add_events-Numbered handled events (Numbered.given n r) = Numbered.given n r

handle_lobby_client-Numbered :
    (rounds : Rounds) (hash : ℕ) (started : Result Handle) (id : ℕ) (lobby : SharedServer)
    → Numbered id (handle_lobby_client rounds hash started id lobby)
unfolding handle_lobby_client
handle_lobby_client-Numbered rounds hash started id lobby =
    let (request, left, events) = read_request rounds lobby in
    if-Numbered lobby.has_events _ _
      (add_events-Numbered (answer hash started id left request) _
        (answer-Numbered hash started id left request))
      (Numbered.unused refl refl)

-- After at most `n` turns of a worker that began with the first id: the ids that have been given are
-- below the next one, and no two clients have the same.
record Counted (n : ℕ) (w : Worker) : Type 0 where
  few : w.next_client_id ≤ suc n
  below : (id : ℕ) → w.next_client_id ≤ id → occurs id (keys w.pending) ≡ 0
  once : (id : ℕ) → occurs id (keys w.pending) ≤ 1

occurs-keys-append :
    (id : ℕ) (m : List (ℕ × DispatchedClient)) (k : ℕ) (c : DispatchedClient)
    → occurs id (keys (m ++ (k, c) ∷ [])) ≡ occurs id (keys m) + (if id == k then 1 else 0)
occurs-keys-append id [] k c = omega arith
occurs-keys-append id ((j, v) ∷ m) k c = omega (arith, occurs-keys-append id m k c)

handled-Counted :
    {n : ℕ} (w : Worker) (lobby : Option SharedServer) (calls : List Call) (handled : Handled)
    → suc (suc n) < 2 ^ 32
    → Numbered w.next_client_id handled
    → Counted n w
    → Counted (suc n) (record {
      lobby = lobby;
      next_client_id = handled.next_client_id;
      pending = add_registered w.pending handled.registered;
      calls = calls;
    })
handled-Counted w lobby calls handled small (Numbered.unused e r) c =
    rw (e, r) (record { few = omega (arith, c.few); below = c.below; once = c.once })
handled-Counted w lobby calls handled small (Numbered.wasted e r) c =
    rw (e, r)
      (record {
        few = omega (arith, c.few);
        below = λ id le. c.below id (omega (arith, c.few));
        once = c.once;
      })
handled-Counted w lobby calls handled small (Numbered.given {c = client} e r) c =
    rw (e, r)
      (record {
        few = omega (arith, c.few);
        below = λ id le.
            ground
              (arith, c.few, c.below id, occurs-keys-append id w.pending w.next_client_id client);
        once = λ id. ground (
          arith,
          c.few,
          c.below id,
          c.once id,
          occurs-keys-append id w.pending w.next_client_id client,
        );
      })

-- A turn in which no request is handled.
kept-Counted :
    {n : ℕ} (w : Worker) (lobby : Option SharedServer) (calls : List Call)
    → Counted n w
    → Counted (suc n) (record w { lobby = lobby; calls = calls })
kept-Counted w lobby calls c = record { few = omega (arith, c.few); below = c.below; once = c.once }

err-Counted :
    {n : ℕ} (t : Turn) (e : ShmError) (lobby : SharedServer) (w : Worker)
    → Counted n w
    → Counted (suc n) (after_wait_for_client t (err e) lobby w)
unfolding after_wait_for_client
err-Counted t not_connected lobby w c = kept-Counted w _ _ c
err-Counted t not_ready lobby w c = kept-Counted w _ _ c
err-Counted t already_connected lobby w c = kept-Counted w _ _ c
err-Counted t timeout lobby w c = kept-Counted w _ _ c
err-Counted t queue_empty lobby w c = kept-Counted w _ _ c
err-Counted t queue_full lobby w c = kept-Counted w _ _ c
err-Counted t message_too_small lobby w c = kept-Counted w _ _ c
err-Counted t message_too_large lobby w c = kept-Counted w _ _ c
err-Counted t corrupted lobby w c = kept-Counted w _ _ c
err-Counted t handshake_failed lobby w c = kept-Counted w _ _ c
err-Counted t (windows_error code) lobby w c = kept-Counted w _ _ c
err-Counted t no_free_slot lobby w c = kept-Counted w _ _ c
err-Counted t invalid_config lobby w c = kept-Counted w _ _ c

after_wait_for_client-Counted :
    {n : ℕ} (t : Turn) (res : Result (Unit {0})) (lobby : SharedServer) (w : Worker)
    → suc (suc n) < 2 ^ 32
    → Counted n w
    → Counted (suc n) (after_wait_for_client t res lobby w)
unfolding after_wait_for_client
after_wait_for_client-Counted t (ok x) lobby w small c =
    handled-Counted w _ _ _ small
      (handle_lobby_client-Numbered t.rounds t.hash t.started w.next_client_id lobby) c
after_wait_for_client-Counted t (err e) lobby w small c = err-Counted t e lobby w c

start_lobby-Counted :
    {n : ℕ} (res : Result SharedServer) (w : Worker)
    → Counted n w
    → Counted (suc n) (start_lobby res w)
start_lobby-Counted (ok s) w c = kept-Counted w _ _ c
start_lobby-Counted (err e) w c = kept-Counted w _ _ c

turn-Counted :
    {n : ℕ} (t : Turn) (w : Worker) (lobby : Option SharedServer)
    → w.lobby ≡ lobby
    → suc (suc n) < 2 ^ 32
    → Counted n w
    → Counted (suc n) (turn t w)
unfolding turn
turn-Counted t w none e small c = rw (e, turn) (start_lobby-Counted (start t.mapped t.created) w c)
turn-Counted t w (some lobby) e small c =
    let now : SharedServer = record lobby { view = t.arriving lobby.view } in
    let (res, waited, events) = wait_for_client t.waited t.acked t.polls now in
    rw (e, turn) (after_wait_for_client-Counted t res waited w small c)

loop-Counted :
    {n : ℕ} (turns : List Turn) (w : Worker)
    → n + length turns + 1 < 2 ^ 32
    → Counted n w
    → Counted (n + length turns) (worker_loop turns w)
unfolding worker_loop
loop-Counted [] w small c = subst (λ k. Counted k w) (omega arith) c
loop-Counted {n} (t ∷ turns) w small c =
    subst (λ k. Counted k (worker_loop turns (turn t w))) (omega arith)
      (loop-Counted turns (turn t w) (omega arith) (turn-Counted t w w.lobby refl (omega arith) c))

-- the worker as `DispatchServer::start` leaves it
abbrev pub first_worker : Worker
first_worker = record { lobby = none; next_client_id = 1; pending = []; calls = [] }

-- In fewer than 2^32 - 1 turns of the worker, whatever the clients do and however lobbies and channels
-- fail, no id is given to two clients, and every id that has been given is below the next one.
pub worker_loop-ids :
    (turns : List Turn) (id : ℕ)
    → length turns + 1 < 2 ^ 32
    → let w = worker_loop turns first_worker in
      (occurs id (keys w.pending) ≤ 1) × (occurs id (keys w.pending) ≡ 0 ⊎ id < w.next_client_id)
worker_loop-ids turns id small =
    let start : Counted 0 first_worker = record {
      few = omega arith;
      below = λ id le. refl;
      once = λ id. omega arith;
    } in
    let c = loop-Counted {n = 0} turns first_worker (omega arith) start in
    (c.once id, ground (arith, c.below id))
