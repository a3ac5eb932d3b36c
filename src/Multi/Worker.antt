-- ===== src/Multi/Worker.antt =====
-- src/multi/mod.rs: the worker of a `MultiServer`.
use xshm.Prelude.{ℕ, Bool, if◌then◌else◌, Option, none, some, List, [], ◌∷◌, ◌++◌, get_elem?}
use xshm.Error.{Result, ok, err}
use xshm.Multi.Slots.{ClientSlot, Effect, on_error, reclaim_slot}
use xshm.Multi.Calls.{
  MultiServer, connected_clients, handle_slot_connect, handle_slot_disconnect,
  handle_orphaned_slot_disconnect, receive_from_slot,
}

-- The loop of `reclaim_stale_claims` over the slots, with the orphans that it finds.
unfoldable pub reclaim_slots : (ℕ → Bool) → ℕ → List ClientSlot → List ClientSlot × List (ℕ × ℕ)
reclaim_slots alive now [] = ([], [])
reclaim_slots alive now (slot ∷ slots) =
    let (slot', orphan) = reclaim_slot alive now slot in
    let (slots', orphans) = reclaim_slots alive now slots in
    (slot' ∷ slots', elim orphan [ none ↦ orphans | some claim ↦ (slot.id, claim) ∷ orphans ])

unfoldable pub reclaim_stale_claims : (ℕ → Bool) → ℕ → MultiServer → MultiServer × List (ℕ × ℕ)
unfolding reclaim_slots
reclaim_stale_claims alive now m =
    let (slots, orphans) = reclaim_slots alive now m.slots in (record m { slots = slots }, orphans)

unfoldable pub disconnect_orphans : List (ℕ × ℕ) → MultiServer → MultiServer × List Effect
disconnect_orphans [] m = (m, [])
disconnect_orphans ((id, claim) ∷ orphans) m =
    let (m', effects) = handle_orphaned_slot_disconnect id claim m in
    let (last, more) = disconnect_orphans orphans m' in (last, effects ++ more)

-- `EventSource`
pub data EventSource : Type 0 where
  slot_connect : (slot_id : ℕ) → EventSource
  slot_data : (slot_id : ℕ) → EventSource
  slot_disconnect : (slot_id : ℕ) → EventSource

-- `handle_to_event`, which has an entry for each handle of `wait_handles`.
unfoldable pub wait_sources : List ClientSlot → List EventSource
wait_sources [] = []
wait_sources (slot ∷ slots) =
    let rest = wait_sources slots in
    if slot.connected
    then slot_data slot.id ∷ slot_disconnect slot.id ∷ rest
    else slot_connect slot.id ∷ rest

unfoldable pub handle_event :
    Result (Unit {0}) → EventSource → MultiServer → MultiServer × List Effect
handle_event acked (slot_connect id) m = handle_slot_connect acked id m
handle_event acked (slot_data id) m = receive_from_slot id m
handle_event acked (slot_disconnect id) m = handle_slot_disconnect id m

unfoldable pub poll_slots : List ℕ → MultiServer → MultiServer × List Effect
poll_slots [] m = (m, [])
poll_slots (id ∷ ids) m =
    let (m', effects) = receive_from_slot id m in
    let (last, more) = poll_slots ids m' in (last, effects ++ more)

unfoldable pub poll_all_slots : MultiServer → MultiServer × List Effect
unfolding poll_slots
poll_all_slots m = poll_slots (connected_clients m) m

-- What one iteration of `worker_loop` is told from outside: which processes live, the time, how the
-- wait ends, and whether an ack can be set.
pub record Turn : Type 0 where
  pub is_process_alive : ℕ → Bool
  pub now : ℕ
  pub waited : Result (Option ℕ)
  pub acked : Result (Unit {0})

unfoldable pub after_wait :
    Result (Unit {0}) → Result (Option ℕ) → MultiServer → MultiServer × List Effect
unfolding handle_event poll_all_slots
after_wait acked (err e) m = (m, on_error none e ∷ [])
after_wait acked (ok none) m = poll_all_slots m
after_wait acked (ok (some index)) m = elim (get_elem? (wait_sources m.slots) index) [
  | none ↦ (m, [])
  | some source ↦ handle_event acked source m
]

-- One iteration of `worker_loop`
unfoldable pub iterate : Turn → MultiServer → MultiServer × List Effect
unfolding reclaim_stale_claims disconnect_orphans after_wait
iterate t m =
    let (reclaimed, orphans) = reclaim_stale_claims t.is_process_alive t.now m in
    let (cleared, effects) = disconnect_orphans orphans reclaimed in
    let (last, more) = after_wait t.acked t.waited cleared in (last, effects ++ more)
