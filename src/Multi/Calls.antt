-- ===== src/Multi/Calls.antt =====
-- src/multi/mod.rs: the calls of `MultiServer`.
use xshm.Prelude.{
  ℕ, zero, suc, ◌+◌, Bool, false, not, ◌||◌, ltb, ◌==◌, if◌then◌else◌, Option, none, some, List, [],
  ◌∷◌, ◌++◌, get_elem?, set,
}
use xshm.Error.{Result, ok, err, ◌>>=◌, not_connected, invalid_config}
use xshm.Ring.{WriteOutcome}
use xshm.Segment.{Segment}
use xshm.Server.{SharedServer, send_to_client}
use xshm.Server
use xshm.Multi.Slots.{
  ClientSlot, Effect, set_events, max_multi_clients, force_disconnect, connect_slot,
  disconnect_slot, disconnect_orphan, receive_slot,
}

pub record MultiServer : Type 0 where
  pub slots : List ClientSlot
  pub max_clients : ℕ
  pub recv_batch : ℕ

-- The loop of `start` over the slot ids from `id` on; `mapped` and `created` are what the operating
-- system answers for the segment and the events of each slot.
unfoldable pub start_slots :
    (ℕ → Result Segment) → (ℕ → Result (Unit {0})) → ℕ → ℕ → Result (List ClientSlot)
start_slots mapped created id zero = ok []
start_slots mapped created id (suc n) =
    let rest = start_slots mapped created (suc id) n in
    Server.start (mapped id) (created id) >>= λ s. rest >>= λ slots.
    ok (record { id = id; server = s; connected = false; claim_seen_at = none } ∷ slots)

unfoldable pub start : (ℕ → Result Segment) → (ℕ → Result (Unit {0})) → ℕ → ℕ → Result MultiServer
unfolding start_slots
start mapped created max_clients recv_batch =
    if max_clients == 0 || ltb max_multi_clients max_clients
    then err invalid_config
    else start_slots mapped created 0 max_clients >>= λ slots.
        ok (record { slots = slots; max_clients = max_clients; recv_batch = recv_batch })

-- A step on the slot at an index, if there is one: what is done under the slot's lock.
unfoldable pub on_slot :
    (ClientSlot → ClientSlot × List Effect) → ℕ → MultiServer → MultiServer × List Effect
on_slot body id m = elim (get_elem? m.slots id) [
  | none ↦ (m, [])
  | some slot ↦
      let (slot', effects) = body slot in (record m { slots = set m.slots id slot' }, effects)
]

-- `send_to`
unfoldable pub send_to : ℕ → List ℕ → MultiServer → Result (Unit {0}) × MultiServer × List Effect
send_to id bytes m = elim (get_elem? m.slots id) [
  | none ↦ (err not_connected, m, [])
  | some slot ↦
      let (res, s, events) = send_to_client slot.server bytes in
      if not slot.connected then (err not_connected, m, []) else (
        res >>= λ _. ok tt,
        record m { slots = set m.slots id (record slot { server = s }) },
        set_events slot.id events,
      )
]

-- what a send adds to the count of `broadcast`
abbrev pub sent_count : Result WriteOutcome → ℕ
sent_count (ok _) = 1
sent_count (err _) = 0

-- One slot of `broadcast`
unfoldable pub broadcast_slot : List ℕ → ClientSlot → ℕ × ClientSlot × List Effect
broadcast_slot bytes slot =
    let (res, s, events) = send_to_client slot.server bytes in
    if slot.connected
    then (sent_count res, record slot { server = s }, set_events slot.id events)
    else (0, slot, [])

unfoldable pub broadcast_slots : List ℕ → List ClientSlot → ℕ × List ClientSlot × List Effect
unfolding broadcast_slot
broadcast_slots bytes [] = (0, [], [])
broadcast_slots bytes (slot ∷ slots) =
    let (n, slot', effects) = broadcast_slot bytes slot in
    let (count, slots', more) = broadcast_slots bytes slots in
    (n + count, slot' ∷ slots', effects ++ more)

-- `broadcast`, with the count that it returns
unfoldable pub broadcast : List ℕ → MultiServer → ℕ × MultiServer × List Effect
broadcast bytes m =
    let (count, slots, effects) = broadcast_slots bytes m.slots in
    (count, record m { slots = slots }, effects)

unfoldable pub disconnect_client : ℕ → MultiServer → Result (Unit {0}) × MultiServer × List Effect
unfolding on_slot
disconnect_client id m =
    let (m', effects) = on_slot force_disconnect id m in
    elim (get_elem? m.slots id) [
      | none ↦ (err not_connected, m, [])
      | some _ ↦ (ok tt, m', effects)
    ]

unfoldable pub connected_ids : List ClientSlot → List ℕ
connected_ids [] = []
connected_ids (slot ∷ slots) =
    let rest = connected_ids slots in if slot.connected then slot.id ∷ rest else rest

unfoldable pub connected_clients : MultiServer → List ℕ
unfolding connected_ids
connected_clients m = connected_ids m.slots

unfoldable pub count_connected : List ClientSlot → ℕ
count_connected [] = 0
count_connected (slot ∷ slots) = (if slot.connected then 1 else 0) + count_connected slots

unfoldable pub client_count : MultiServer → ℕ
unfolding count_connected
client_count m = count_connected m.slots

unfoldable pub is_client_connected : ℕ → MultiServer → Bool
is_client_connected id m = elim (get_elem? m.slots id) [ none ↦ false | some slot ↦ slot.connected ]

-- `channel_name` as the number that it appends to the base name.
unfoldable pub channel_name : ℕ → MultiServer → Option ℕ
channel_name slot_id m = if ltb slot_id m.max_clients then some slot_id else none

-- The handlers of the worker.
unfoldable pub handle_slot_connect : Result (Unit {0}) → ℕ → MultiServer → MultiServer × List Effect
unfolding on_slot
handle_slot_connect acked = on_slot (connect_slot acked)

unfoldable pub handle_slot_disconnect : ℕ → MultiServer → MultiServer × List Effect
unfolding on_slot
handle_slot_disconnect = on_slot disconnect_slot

unfoldable pub handle_orphaned_slot_disconnect : ℕ → ℕ → MultiServer → MultiServer × List Effect
unfolding on_slot
handle_orphaned_slot_disconnect id expected = on_slot (disconnect_orphan expected) id

unfoldable pub receive_from_slot : ℕ → MultiServer → MultiServer × List Effect
unfolding on_slot
receive_from_slot id m = on_slot (receive_slot m.recv_batch) id m
