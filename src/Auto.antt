-- ===== src/Auto.antt =====
-- src/auto/mod.rs: the queue of messages to send, and what the workers of `AutoServer` and `AutoClient`
-- do with both rings of a connection.
pub mod Worker
pub mod Reconnect
pub mod Queue
pub mod Quiet
pub mod Link
pub mod Traffic
pub mod Attempts
pub mod Balance
pub mod Handle
use xshm.Prelude.{
  ℕ, zero, suc, ◌+◌, ◌^◌, ◌%◌, Bool, true, false, leb, ltb, not, if◌then◌else◌, List, [], ◌∷◌, ◌++◌,
  map, length, drop,
}
use xshm.Error.{
  ShmError, Result, ok, err, queue_empty, queue_full, not_connected, not_ready, timeout, corrupted,
}
use xshm.Ring.{WriteOutcome}
use xshm.Segment.{Segment, Event}
use xshm.Server.{SharedServer, send_to_client, receive_from_client}
use xshm.Client.{SharedClient, send_to_server, receive_from_server}

pub data ChannelKind : Type 0 where
  server_to_client : ChannelKind
  client_to_server : ChannelKind

-- What others see of a worker: the events that it sets, and the calls of `AutoHandler`.
pub data Effect : Type 0 where
  set_event : (e : Event) → Effect
  on_connect : Effect
  on_disconnect : Effect
  on_message : (direction : ChannelKind) (payload : List ℕ) → Effect
  on_overflow : (direction : ChannelKind) (count : ℕ) → Effect
  on_space_available : (direction : ChannelKind) → Effect
  on_error : (e : ShmError) → Effect

-- `AutoOptions`, without the times.
pub record AutoOptions : Type 0 where
  pub max_send_queue : ℕ
  pub recv_batch : ℕ

-- `AutoStats`, of 64-bit counters.
pub record AutoStats : Type 0 where
  pub sent_messages : ℕ
  pub send_overflows : ℕ
  pub received_messages : ℕ

-- `fetch_add` of an `AtomicU64`
abbrev pub fetch_add : ℕ → ℕ → ℕ
fetch_add counter n = (counter + n) % 2 ^ 64

pub data WorkerCommand : Type 0 where
  send : (msg : List ℕ) → WorkerCommand
  shutdown : WorkerCommand

-- `drain_commands` on the commands that have arrived; `queue.pop()` of an empty queue does nothing.
-- The result is the queue, and whether the worker is still running.
unfoldable pub drain_commands :
    AutoOptions → List WorkerCommand → List (List ℕ) → Bool → List (List ℕ) × Bool
drain_commands o [] queue running = (queue, running)
drain_commands o (send msg ∷ rx) queue running =
    let room = if leb o.max_send_queue (length queue) then drop 1 queue else queue in
    drain_commands o rx (room ++ msg ∷ []) running
drain_commands o (shutdown ∷ rx) queue running = drain_commands o rx queue false

-- `SendEndpoint` and `ReceiveEndpoint`: a write or a read, with the endpoint after it and the events
-- that it sets.
pub record Endpoint (E : Type 0) : Type 0 where
  pub write : E → List ℕ → Result WriteOutcome × E × List Event
  pub read : E → Result (List ℕ) × E × List Event

abbrev pub server_endpoint : Endpoint SharedServer
server_endpoint = record { write = send_to_client; read = receive_from_client }

-- A client acts on the segment that it shares.
abbrev pub client_endpoint : Endpoint (SharedClient × Segment)
client_endpoint = record {
  write =
      λ e payload. let (res, v, events) = send_to_server e.0 payload e.1 in (res, (e.0, v), events);
  read = λ e. let (res, v, events) = receive_from_server e.0 e.1 in (res, (e.0, v), events);
}

-- what a write adds to the counters, and tells the handler of
abbrev pub count_sent : AutoStats → WriteOutcome → AutoStats
count_sent stats outcome = record stats {
  sent_messages = fetch_add stats.sent_messages 1;
  send_overflows =
      if ltb 0 outcome.overwritten
      then fetch_add stats.send_overflows outcome.overwritten
      else stats.send_overflows;
}

abbrev pub overflow_effect : ChannelKind → WriteOutcome → List Effect
overflow_effect direction outcome =
    if ltb 0 outcome.overwritten then on_overflow direction outcome.overwritten ∷ [] else []

-- `batch.max(1)`
abbrev pub at_least_one : ℕ → ℕ
at_least_one zero = 1
at_least_one (suc n) = suc n

-- What `process_send_queue` and `process_receive_queue` leave.
pub record Sent (E : Type 0) : Type 0 where
  pub endpoint : E
  pub queue : List (List ℕ)
  pub stats : AutoStats
  pub effects : List Effect

pub record ReceiveOutcome (E : Type 0) : Type 0 where
  pub endpoint : E
  pub stats : AutoStats
  pub effects : List Effect
  pub fatal : Bool
  pub more_pending : Bool

-- The arms of the two matches on an error: what the handler is told, and whether it is fatal.
abbrev pub is_queue_full : ShmError → Bool
is_queue_full queue_full = true
is_queue_full _ = false

abbrev pub is_idle : ShmError → Bool
is_idle queue_empty = true
is_idle not_connected = true
is_idle not_ready = true
is_idle timeout = true
is_idle _ = false

abbrev pub is_corrupted : ShmError → Bool
is_corrupted corrupted = true
is_corrupted _ = false

abbrev pub send_error : ShmError → List Effect
send_error e = if is_queue_full e then [] else on_error e ∷ []

abbrev pub receive_error : ShmError → List Effect
receive_error e = if is_idle e then [] else on_error e ∷ []

module _ {E : Type 0} (io : Endpoint E) (direction : ChannelKind) where
  -- `process_send_queue`: a message that the endpoint refuses goes back to the front.
  unfoldable pub process_send_queue : E → List (List ℕ) → AutoStats → Sent E
  process_send_queue endpoint [] stats = record {
    endpoint = endpoint;
    queue = [];
    stats = stats;
    effects = [];
  }
  process_send_queue endpoint (msg ∷ queue) stats =
      let (res, endpoint', events) = io.write endpoint msg in
      elim res [
        | ok outcome ↦
            let rest = process_send_queue endpoint' queue (count_sent stats outcome) in
            record rest {
              effects = map set_event events ++ (overflow_effect direction outcome ++ rest.effects);
            }
        | err e ↦ record {
          endpoint = endpoint';
          queue = msg ∷ queue;
          stats = stats;
          effects = map set_event events ++ send_error e;
        }
      ]

  -- The loop of `process_receive_queue`, for at most so many messages.
  unfoldable pub receive_loop : ℕ → E → AutoStats → ReceiveOutcome E
  receive_loop zero endpoint stats = record {
    endpoint = endpoint;
    stats = stats;
    effects = [];
    fatal = false;
    more_pending = true;
  }
  receive_loop (suc n) endpoint stats =
      let (res, endpoint', events) = io.read endpoint in
      elim res [
        | ok payload ↦
            let counted = record stats {
              received_messages = fetch_add stats.received_messages 1;
            } in
            let rest = receive_loop n endpoint' counted in
            record rest {
              effects = map set_event events ++ on_message direction payload ∷ rest.effects;
            }
        | err e ↦ record {
          endpoint = endpoint';
          stats = stats;
          effects = map set_event events ++ receive_error e;
          fatal = is_corrupted e;
          more_pending = false;
        }
      ]

  -- `process_receive_queue`
  unfoldable pub process_receive_queue : ℕ → E → AutoStats → ReceiveOutcome E
  unfolding receive_loop
  process_receive_queue batch = receive_loop (at_least_one batch)
