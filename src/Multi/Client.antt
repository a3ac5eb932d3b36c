-- ===== src/Multi/Client.antt =====
-- src/multi/mod.rs: the worker of a `MultiClient`, one round at a time.
use xshm.Prelude.{
  ℕ, zero, suc, Bool, true, false, not, ◌==◌, if◌then◌else◌, Option, none, some, List, [], ◌∷◌,
  ◌++◌, map,
}
use xshm.Constants.{slot_id_no_slot}
use xshm.Error.{ShmError, Result, ok, err, queue_empty, queue_full}
use xshm.Segment.{Segment, Event}
use xshm.Ring.{message_count}
use xshm.Client.{SharedClient, send_to_server, receive_from_server, drop_client}
use xshm.Multi.Claim.{push_with_cap, release_claim}

pub data ClientCommand : Type 0 where
  send : (bytes : List ℕ) → ClientCommand
  shutdown : ClientCommand

-- The events that a client sets, and the calls of `MultiClientHandler`.
pub data ClientEffect : Type 0 where
  set_event : (e : Event) → ClientEffect
  on_connect : (slot_id : ℕ) → ClientEffect
  on_disconnect : ClientEffect
  on_message : (bytes : List ℕ) → ClientEffect
  on_overflow : (dropped : ℕ) → ClientEffect
  on_error : (e : ShmError) → ClientEffect

-- A client on its slot, with the segment of the slot. `slot_id` is the number that `slot_id` and
-- `is_connected` of `MultiClient` read.
pub record ClientState : Type 0 where
  pub client : SharedClient
  pub view : Segment
  pub send_queue : List (List ℕ)
  pub slot_id : ℕ
  pub running : Bool

unfoldable pub is_connected : ClientState → Bool
is_connected c = not (c.slot_id == slot_id_no_slot)

-- The loop over the commands that have come.
unfoldable pub take_commands :
    ℕ → List ClientCommand → ClientState → ClientState × List ClientEffect
take_commands max_send_queue [] c = (c, [])
take_commands max_send_queue (send bytes ∷ rx) c =
    let (queue, overflowed) = push_with_cap c.send_queue bytes max_send_queue in
    let (last, effects) = take_commands max_send_queue rx (record c { send_queue = queue }) in
    (last, if overflowed then on_overflow 1 ∷ effects else effects)
take_commands max_send_queue (shutdown ∷ rx) c =
    take_commands max_send_queue rx (record c { running = false })

abbrev pub is_queue_full : ShmError → Bool
is_queue_full queue_full = true
is_queue_full _ = false

-- The loop that sends the queue: what is left of it, the segment, and what others see.
unfoldable pub send_queued :
    SharedClient → List (List ℕ) → Segment → List (List ℕ) × Segment × List ClientEffect
send_queued client [] v = ([], v, [])
send_queued client (bytes ∷ queue) v =
    let (res, v', events) = send_to_server client bytes v in
    let (left, last, effects) = send_queued client queue v' in
    elim res [
      | ok _ ↦ (left, last, map set_event events ++ effects)
      | err e ↦ (
        bytes ∷ queue,
        v',
        map set_event events ++ (if is_queue_full e then [] else on_error e ∷ []),
      )
    ]

abbrev pub is_queue_empty : ShmError → Bool
is_queue_empty queue_empty = true
is_queue_empty _ = false

abbrev pub receive_error : ShmError → List ClientEffect
receive_error e = if is_queue_empty e then [] else on_error e ∷ []

-- The loop that receives until there is an error. The first argument is the number of messages in the
-- ring, which each read takes down by one: with none left the read is the last.
unfoldable pub receive_all : ℕ → SharedClient → Segment → Segment × List ClientEffect
receive_all zero client v =
    let (res, v', events) = receive_from_server client v in
    elim res [
      | ok bytes ↦ (v', map set_event events ++ on_message bytes ∷ [])
      | err e ↦ (v', map set_event events ++ receive_error e)
    ]
receive_all (suc n) client v =
    let (res, v', events) = receive_from_server client v in
    let (last, effects) = receive_all n client v' in
    elim res [
      | ok bytes ↦ (last, map set_event events ++ on_message bytes ∷ effects)
      | err e ↦ (v', map set_event events ++ receive_error e)
    ]

-- What a round is told from outside: what the server has done to the segment, the commands that have
-- come, and how `wait_any` ends on the handles of disconnect and data.
pub record ClientRound : Type 0 where
  pub during : Segment → Segment
  pub commands : List ClientCommand
  pub woken : Result (Option ℕ)

-- The arms of the match on `wait_any`: what the handler is told, when the loop ends there.
unfoldable pub ended : Result (Option ℕ) → Option (List ClientEffect)
ended (ok (some zero)) = some (on_disconnect ∷ [])
ended (ok _) = none
ended (err e) = some (on_error e ∷ on_disconnect ∷ [])

-- One round of the inner loop of `client_worker`, and whether the loop goes on.
unfoldable pub client_round : ℕ → ClientRound → ClientState → Bool × ClientState × List ClientEffect
unfolding take_commands send_queued receive_all ended
client_round max_send_queue r c =
    let (c', overflows) = take_commands max_send_queue r.commands c in
    let (left, v, sends) = send_queued c'.client c'.send_queue (r.during c'.view) in
    let (v', messages) = receive_all (message_count v.ring_a) c'.client v in
    let last = record c' { view = v'; send_queue = left } in
    let effects = overflows ++ (sends ++ messages) in
    elim (ended r.woken) [
      | none ↦ (true, last, effects)
      | some more ↦ (false, record last { slot_id = slot_id_no_slot }, effects ++ more)
    ]

-- The inner loop of `client_worker`
unfoldable pub client_loop : ℕ → List ClientRound → ClientState → ClientState × List ClientEffect
client_loop max_send_queue [] c = (c, [])
client_loop max_send_queue (r ∷ rounds) c =
    let (goes_on, c', effects) = client_round max_send_queue r c in
    let (last, more) = client_loop max_send_queue rounds c' in
    if not c.running then (c, []) else if goes_on then (last, effects ++ more) else (c', effects)

-- What `client_worker` does with a slot that it has claimed with `token`, from the outcome of the
-- connect on: the inner loop, the drop of the client, and the release of the claim.
unfoldable pub use_slot :
    ℕ → ℕ → ℕ → Result SharedClient × Segment → List ClientRound → ClientState × List ClientEffect
unfolding client_loop
use_slot max_send_queue slot_id token (err e, v) rounds = (
  record {
    client = record { connected = false };
    view = release_claim token v;
    send_queue = [];
    slot_id = slot_id_no_slot;
    running = true;
  },
  on_error e ∷ [],
)
use_slot max_send_queue slot_id token (ok client, v) rounds =
    let (c, effects) =
      client_loop max_send_queue rounds (record {
        client = client;
        view = v;
        send_queue = [];
        slot_id = slot_id;
        running = true;
      }) in
    let (v', events) = drop_client c.client c.view in
    (
      record c { view = release_claim token v' },
      on_connect slot_id ∷ (effects ++ map set_event events),
    )
