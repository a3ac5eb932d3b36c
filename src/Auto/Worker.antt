-- ===== src/Auto/Worker.antt =====
-- src/auto/mod.rs: the workers of `AutoServer` and `AutoClient`, one round at a time.
use xshm.Prelude.{
  ℕ, zero, suc, Bool, true, false, if◌then◌else◌, Option, some, List, [], ◌∷◌, ◌++◌, map,
}
use xshm.Error.{ShmError, Result, ok, err, timeout}
use xshm.Segment.{Event}
use xshm.Server.{SharedServer, Polls, wait_for_client, mark_disconnected}
use xshm.Auto.{
  ChannelKind, server_to_client, client_to_server, Effect, set_event, on_connect, on_disconnect,
  on_space_available, on_error, AutoOptions, AutoStats, WorkerCommand, drain_commands,
  server_endpoint, process_send_queue, process_receive_queue,
}

-- What a worker keeps from round to round: `connected` is the worker's own variable.
pub record ServerWorker : Type 0 where
  pub server : SharedServer
  pub connected : Bool
  pub send_queue : List (List ℕ)
  pub stats : AutoStats
  pub running : Bool

-- What a round is told from outside: the wait of `wait_for_client` and whether the ack can be set, the
-- commands that have come, and how `wait_any` ends on the handles of disconnect, data and space.
pub record Round : Type 0 where
  pub waited : Result Bool
  pub acked : Result (Unit {0})
  pub polls : Polls
  pub commands : List WorkerCommand
  pub woken : Result (Option ℕ)

-- how a worker that is connected goes on after `wait_any`
pub data Woken : Type 0 where
  stay : (effects : List Effect) → Woken
  hang_up : (effects : List Effect) → Woken

unfoldable pub after_wait_any : ChannelKind → Result (Option ℕ) → Woken
after_wait_any direction (ok (some zero)) = hang_up (on_disconnect ∷ [])
after_wait_any direction (ok (some (suc (suc zero)))) = stay (on_space_available direction ∷ [])
after_wait_any direction (ok _) = stay []
after_wait_any direction (err e) = hang_up (on_error e ∷ on_disconnect ∷ [])

-- `server.mark_disconnected(); connected = false`
abbrev pub hang_up_server : ServerWorker → ServerWorker
hang_up_server w = record w { server = mark_disconnected w.server; connected = false }

abbrev pub drain_server : AutoOptions → List WorkerCommand → ServerWorker → ServerWorker
drain_server o commands w =
    let (queue, running) = drain_commands o commands w.send_queue w.running in
    record w { send_queue = queue; running = running }

-- What follows `process_receive_queue` in a round, by its outcome.
unfoldable pub finish_round :
    Bool → Bool → Result (Option ℕ) → ServerWorker → List Effect → ServerWorker × List Effect
unfolding after_wait_any
finish_round true more_pending woken w effects = (hang_up_server w, effects ++ on_disconnect ∷ [])
finish_round false true woken w effects = (w, effects)
finish_round false false woken w effects = elim (after_wait_any server_to_client woken) [
  | stay more ↦ (w, effects ++ more)
  | hang_up more ↦ (hang_up_server w, effects ++ more)
]

-- The part of a round of `server_worker` in which it is connected and has drained its commands.
unfoldable pub serve : AutoOptions → Result (Option ℕ) → ServerWorker → ServerWorker × List Effect
unfolding finish_round
serve o woken w =
    let sent = process_send_queue server_endpoint server_to_client w.server w.send_queue w.stats in
    let outcome =
      process_receive_queue server_endpoint client_to_server o.recv_batch sent.endpoint
        sent.stats in
    let w' = record w {
      server = outcome.endpoint;
      send_queue = sent.queue;
      stats = outcome.stats;
    } in
    let effects = sent.effects ++ outcome.effects in
    finish_round outcome.fatal outcome.more_pending woken w' effects

abbrev pub is_timeout : ShmError → Bool
is_timeout timeout = true
is_timeout _ = false

-- what a failed `wait_for_client` tells the handler
abbrev pub wait_failed : ShmError → List Effect
wait_failed e = if is_timeout e then [] else on_error e ∷ []

-- A round in which the worker was not connected, from the end of its `wait_for_client` on.
unfoldable pub wait_ended :
    AutoOptions → Round → ServerWorker → List Event → Result (Unit {0}) → ServerWorker × List Effect
unfolding serve
wait_ended o r w events (err e) =
    (drain_server o r.commands w, map set_event events ++ wait_failed e)
wait_ended o r w events (ok _) =
    let (last, effects) =
      serve o r.woken (drain_server o r.commands (record w { connected = true })) in
    (last, map set_event events ++ on_connect ∷ effects)

-- One round of the loop of `server_worker`
unfoldable pub server_round : AutoOptions → Round → ServerWorker → ServerWorker × List Effect
unfolding serve wait_ended
server_round o r w =
    let (res, server, events) = wait_for_client r.waited r.acked r.polls w.server in
    if w.connected
    then serve o r.woken (drain_server o r.commands w)
    else wait_ended o r (record w { server = server }) events res

-- The loop of `server_worker`, which ends when it is no longer running, or with the rounds.
unfoldable pub server_worker : AutoOptions → List Round → ServerWorker → ServerWorker × List Effect
server_worker o [] w = (w, [])
server_worker o (r ∷ rounds) w =
    let (w', effects) = server_round o r w in
    let (last, more) = server_worker o rounds w' in
    if w.running then (last, effects ++ more) else (w, [])
