-- ===== src/Auto/Reconnect.antt =====
-- src/auto/mod.rs: the worker of `AutoClient`.
use xshm.Prelude.{ℕ, Bool, true, false, not, ◌&&◌, if◌then◌else◌, Option, List, [], ◌∷◌, ◌++◌, map}
use xshm.Error.{Result, ok, err}
use xshm.Segment.{Segment}
use xshm.Delay.{wait_delay}
use xshm.Client
use xshm.Client.{SharedClient, connect, drop_client}
use xshm.Auto.{
  server_to_client, client_to_server, Effect, set_event, on_connect, on_disconnect, on_error,
  AutoOptions, AutoStats, WorkerCommand, drain_commands, client_endpoint, process_send_queue,
  process_receive_queue,
}
use xshm.Auto.Worker.{stay, hang_up, after_wait_any}

-- A connected worker: its client, the segment that it acts on, and what outlives the connection.
pub record ClientWorker : Type 0 where
  pub client : SharedClient
  pub view : Segment
  pub send_queue : List (List ℕ)
  pub stats : AutoStats
  pub running : Bool

pub record ClientRound : Type 0 where
  pub commands : List WorkerCommand
  pub during : Segment → Segment
  pub woken : Result (Option ℕ)

abbrev pub hang_up_client : ClientWorker → ClientWorker
hang_up_client w = record w { client = Client.mark_disconnected w.client }

-- What follows `process_receive_queue` in a round, by its outcome, and whether the loop goes on.
unfoldable pub finish_client_round :
    Bool → Bool → Result (Option ℕ) → ClientWorker → List Effect → Bool × ClientWorker × List Effect
unfolding after_wait_any
finish_client_round true more_pending woken w effects =
    (false, hang_up_client w, effects ++ on_disconnect ∷ [])
finish_client_round false true woken w effects = (true, w, effects)
finish_client_round false false woken w effects = elim (after_wait_any client_to_server woken) [
  | stay more ↦ (true, w, effects ++ more)
  | hang_up more ↦ (false, hang_up_client w, effects ++ more)
]

-- One round of the inner loop of `client_worker`, and whether the loop goes on. What the server does
-- to the segment during the round comes before it.
unfoldable pub client_round :
    AutoOptions → ClientRound → ClientWorker → Bool × ClientWorker × List Effect
unfolding finish_client_round
client_round o r w =
    let (queue, running) = drain_commands o r.commands w.send_queue w.running in
    let sent =
      process_send_queue client_endpoint client_to_server (w.client, r.during w.view) queue
        w.stats in
    let outcome =
      process_receive_queue client_endpoint server_to_client o.recv_batch sent.endpoint
        sent.stats in
    let w' : ClientWorker = record {
      client = outcome.endpoint.0;
      view = outcome.endpoint.1;
      send_queue = sent.queue;
      stats = outcome.stats;
      running = running;
    } in
    finish_client_round outcome.fatal outcome.more_pending r.woken w'
      (sent.effects ++ outcome.effects)

-- The inner loop of `client_worker`
unfoldable pub client_loop :
    AutoOptions → List ClientRound → ClientWorker → ClientWorker × List Effect
client_loop o [] w = (w, [])
client_loop o (r ∷ rounds) w =
    let (goes_on, w', effects) = client_round o r w in
    let (last, more) = client_loop o rounds w' in
    if not w.running then (w, []) else if goes_on then (last, effects ++ more) else (w', effects)

-- One round of the outer loop: the connect, the inner loop, and the drop of the client at the end.
unfoldable pub client_attempt :
    AutoOptions
    → Result SharedClient × Segment
    → List ClientRound
    → List (List ℕ)
    → AutoStats
    → Bool
    → ClientWorker × List Effect
unfolding client_loop drop_client
client_attempt o (err e, view) rounds queue stats running = (
  record {
    client = record { connected = false };
    view = view;
    send_queue = queue;
    stats = stats;
    running = running;
  },
  on_error e ∷ [],
)
client_attempt o (ok client, view) rounds queue stats running =
    let (w, effects) = client_loop o rounds (record {
      client = client;
      view = view;
      send_queue = queue;
      stats = stats;
      running = running;
    }) in
    let (view', events) = drop_client w.client w.view in
    (record w { view = view' }, on_connect ∷ (effects ++ map set_event events))

-- What a turn of the outer loop meets: the load of `running` at its head, the segment, whether it can be
-- mapped, the answers and the wait of `connect`, the rounds of the inner loop, and the loads of
-- `wait_delay`.
pub record Attempt : Type 0 where
  pub found_running : Bool
  pub view : Segment
  pub mapped : Result (Unit {0})
  pub opened : Result (Unit {0})
  pub requested : Result (Unit {0})
  pub during : Segment → Segment
  pub acked : Result Bool
  pub rounds : List ClientRound
  pub no_delay : Bool
  pub loads : List Bool
  pub last : Bool

-- `SharedClient::connect`, with the opening of its mapping
unfoldable pub open_client : Attempt → Result SharedClient × Segment
unfolding connect
open_client a = elim a.mapped [
  | err e ↦ (err e, a.view)
  | ok _ ↦ connect a.opened a.requested a.during a.acked a.view
]

-- The outer loop of `client_worker`: what it does in all. A worker that has been told to shut down finds
-- `running` false in every load.
unfoldable pub client_worker :
    AutoOptions → List Attempt → List (List ℕ) → AutoStats → Bool → List Effect
unfolding client_attempt open_client wait_delay
client_worker o [] queue stats running = []
client_worker o (a ∷ attempts) queue stats running =
    let (w, effects) = client_attempt o (open_client a) a.rounds queue stats true in
    let rest = client_worker o attempts w.send_queue w.stats w.running in
    if not (running && a.found_running)
    then []
    else if w.running && wait_delay a.no_delay a.loads a.last
    then effects ++ rest
    else effects
