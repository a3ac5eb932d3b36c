-- ===== src/Multi/Slots.antt =====
-- src/multi/mod.rs: the slots of a `MultiServer`, and what happens to one of them.
--
-- Every function here runs under the lock of the slot, so it is one step for the other threads. Times
-- are milliseconds of a monotonic clock.
use xshm.Prelude.{
  ℕ, zero, suc, ◌-◌, Bool, true, false, not, leb, ◌==◌, if◌then◌else◌, Option, none, some, List, [],
  ◌∷◌, ◌++◌, map, get_or, set,
}
use xshm.Constants.{claim_free, reserved_claim_index, reserved_owner_pid_index}
use xshm.Error.{ShmError, Result, ok, err, already_connected, queue_empty}
use xshm.Segment.{Segment, Event, disconnect}
use xshm.Server.{SharedServer, accept_hello, mark_disconnected, receive_from_client}

abbrev pub default_max_clients : ℕ
default_max_clients = 20

abbrev pub max_multi_clients : ℕ
max_multi_clients = 31

abbrev pub reserve_timeout : ℕ
reserve_timeout = 10000

abbrev pub reserve_safety_margin : ℕ
reserve_safety_margin = 2000

abbrev pub liveness_check_interval : ℕ
liveness_check_interval = 3000

-- What the server does that others see: the events that it sets on a slot, and the calls of
-- `MultiHandler`.
pub data Effect : Type 0 where
  set_event : (slot_id : ℕ) (e : Event) → Effect
  on_client_connect : (client_id : ℕ) → Effect
  on_client_disconnect : (client_id : ℕ) → Effect
  on_message : (client_id : ℕ) (bytes : List ℕ) → Effect
  on_error : (client_id : Option ℕ) (e : ShmError) → Effect

abbrev pub set_events : ℕ → List Event → List Effect
set_events id events = map (set_event id) events

pub record ClientSlot : Type 0 where
  pub id : ℕ
  pub server : SharedServer
  pub connected : Bool
  pub claim_seen_at : Option ℕ

-- The words of `reserved` in the segment of a slot.
abbrev pub claim_word : Segment → ℕ
claim_word v = get_or v.control.reserved reserved_claim_index 0

abbrev pub owner_word : Segment → ℕ
owner_word v = get_or v.control.reserved reserved_owner_pid_index 0

unfoldable pub store_reserved : Segment → ℕ → ℕ → Segment
store_reserved v i word = record v {
  control = record (v.control) { reserved = set v.control.reserved i word };
}

unfoldable pub release_slot_claim : SharedServer → SharedServer
unfolding store_reserved
release_slot_claim s = record s { view = store_reserved s.view reserved_claim_index claim_free }

-- `do_slot_handshake`; its argument is the outcome of `connect_ack.set()`.
unfoldable pub do_slot_handshake :
    Result (Unit {0}) → SharedServer → Result (Unit {0}) × SharedServer × List Event
unfolding accept_hello
do_slot_handshake acked s =
    if s.connected then (err already_connected, s, []) else accept_hello acked s

-- The body of `handle_slot_connect`
unfoldable pub connect_slot : Result (Unit {0}) → ClientSlot → ClientSlot × List Effect
unfolding do_slot_handshake release_slot_claim
connect_slot acked slot =
    let (res, server, events) = do_slot_handshake acked slot.server in
    if slot.connected then (slot, []) else (elim res [
      | ok _ ↦ (
        record slot { server = server; connected = true; claim_seen_at = none },
        set_events slot.id events ++ on_client_connect slot.id ∷ [],
      )
      | err _ ↦ (
        record slot { server = release_slot_claim server; claim_seen_at = none },
        set_events slot.id events,
      )
    ])

-- The body of `handle_slot_disconnect`
unfoldable pub disconnect_slot : ClientSlot → ClientSlot × List Effect
unfolding mark_disconnected release_slot_claim
disconnect_slot slot = (
  record slot {
    server = release_slot_claim (mark_disconnected slot.server);
    connected = false;
    claim_seen_at = none;
  },
  if slot.connected then on_client_disconnect slot.id ∷ [] else [],
)

-- The body of `handle_orphaned_slot_disconnect`: the compare-exchange of the claim, then the rest.
unfoldable pub disconnect_orphan : ℕ → ClientSlot → ClientSlot × List Effect
unfolding mark_disconnected release_slot_claim
disconnect_orphan expected slot =
    if not slot.connected
    then (slot, [])
    else if not (claim_word slot.server.view == expected)
    then (slot, [])
    else (
      record slot {
        server = mark_disconnected (release_slot_claim slot.server);
        connected = false;
        claim_seen_at = none;
      },
      on_client_disconnect slot.id ∷ [],
    )

-- The body of `disconnect_client`
unfoldable pub force_disconnect : ClientSlot → ClientSlot × List Effect
unfolding mark_disconnected release_slot_claim
force_disconnect slot =
    if slot.connected
    then (
      record slot {
        server = release_slot_claim (mark_disconnected slot.server);
        connected = false;
        claim_seen_at = none;
      },
      (if slot.server.has_events then set_event slot.id disconnect ∷ [] else [])
          ++ on_client_disconnect slot.id ∷ [],
    )
    else (slot, [])

-- `Instant::elapsed` against a limit
abbrev pub elapsed_at_least : ℕ → ℕ → ℕ → Bool
elapsed_at_least limit since now = leb limit (now - since)

-- `should_check`: the liveness check is throttled.
abbrev pub should_check : Option ℕ → ℕ → Bool
should_check none now = true
should_check (some last) now = elapsed_at_least liveness_check_interval last now

-- A connected slot in `reclaim_stale_claims`: with the claim that is expected, if it is orphaned.
unfoldable pub check_connected : (ℕ → Bool) → ℕ → ClientSlot → ClientSlot × Option ℕ
check_connected is_process_alive now slot =
    if claim_word slot.server.view == claim_free
    then (slot, some claim_free)
    else if should_check slot.claim_seen_at now
    then (
      record slot { claim_seen_at = some now },
      if not (is_process_alive (owner_word slot.server.view))
          then some (claim_word slot.server.view)
          else none,
    )
    else (slot, none)

-- A free or claimed slot that is not connected, in `reclaim_stale_claims`.
unfoldable pub check_claim : ℕ → ClientSlot → ClientSlot
unfolding release_slot_claim
check_claim now slot =
    if claim_word slot.server.view == claim_free
    then record slot { claim_seen_at = none }
    else (elim slot.claim_seen_at [
      | none ↦ record slot { claim_seen_at = some now }
      | some since ↦
          if elapsed_at_least reserve_timeout since now
          then record slot { server = release_slot_claim slot.server; claim_seen_at = none }
          else slot
    ])

-- One round of the loop of `reclaim_stale_claims`
unfoldable pub reclaim_slot : (ℕ → Bool) → ℕ → ClientSlot → ClientSlot × Option ℕ
unfolding check_connected check_claim
reclaim_slot is_process_alive now slot =
    if slot.connected
    then check_connected is_process_alive now slot
    else (check_claim now slot, none)

-- What the loop of `receive_from_slot` has gathered.
pub record Batch : Type 0 where
  pub messages : List (List ℕ)
  pub error : Option ShmError
  pub server : SharedServer
  pub events : List Event

-- The reads of `receive_from_slot`, `recv_batch` at most.
unfoldable pub receive_batch : ℕ → SharedServer → Batch
receive_batch zero s = record { messages = []; error = none; server = s; events = [] }
receive_batch (suc n) s =
    let (res, s', events) = receive_from_client s in
    let rest = receive_batch n s' in
    elim res [
      | ok m ↦ record rest { messages = m ∷ rest.messages; events = events ++ rest.events }
      | err queue_empty ↦ record { messages = []; error = none; server = s'; events = events }
      | err e ↦ record { messages = []; error = some e; server = s'; events = events }
    ]

abbrev pub error_effect : ℕ → Option ShmError → List Effect
error_effect id none = []
error_effect id (some e) = on_error (some id) e ∷ []

-- The body of `receive_from_slot`
unfoldable pub receive_slot : ℕ → ClientSlot → ClientSlot × List Effect
unfolding receive_batch
receive_slot recv_batch slot =
    let b = receive_batch recv_batch slot.server in
    if not slot.connected then (slot, []) else (
      record slot { server = b.server },
      set_events slot.id b.events
          ++ (map (on_message slot.id) b.messages ++ error_effect slot.id b.error),
    )
