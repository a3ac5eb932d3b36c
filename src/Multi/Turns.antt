-- ===== src/Multi/Turns.antt =====
-- The turns of the worker of a `MultiServer` (src/multi/mod.rs) and its invariant.
use xshm.Prelude.{
  ℕ, zero, suc, ◌≡◌, refl, ap, ◌∙◌, arith, inl, inr, Bool, Option, none, some, Option-cases, List,
  [], ◌∷◌, length, get_elem?,
}
use xshm.Error.{Result, ok, err}
use xshm.Multi.Slots.{ClientSlot}
use xshm.Multi.Calls.{
  MultiServer, handle_slot_connect, handle_slot_disconnect, handle_orphaned_slot_disconnect,
  receive_from_slot, is_client_connected, connected_clients,
}
use xshm.Multi.Worker.{
  Turn, iterate, reclaim_slots, reclaim_stale_claims, disconnect_orphans, after_wait, EventSource,
  slot_connect, slot_data, slot_disconnect, handle_event, poll_slots, poll_all_slots, wait_sources,
}
use xshm.Multi.Moves.{flag}
use xshm.Multi.SlotSteps.{
  connect_slot-SlotMoves, disconnect_slot-SlotMoves, disconnect_orphan-SlotMoves,
  reclaim_slot-SlotMoves, receive_slot-SlotMoves,
}
use xshm.Multi.Invariant.{SlotsFrom, IsMulti, on_at, Moves, Moves-none, Moves-then, on_slot-Moves}

reclaim_slots-keeps :
    (alive : ℕ → Bool) (now i : ℕ) (slots : List ClientSlot)
    → SlotsFrom i slots
    → SlotsFrom i (reclaim_slots alive now slots).0
      × (length (reclaim_slots alive now slots).0 ≡ length slots)
unfolding reclaim_slots
reclaim_slots-keeps alive now i [] v = (tt, refl)
reclaim_slots-keeps alive now i (slot ∷ slots) v =
    let moves = reclaim_slot-SlotMoves alive now slot in
    let (rest, same) = reclaim_slots-keeps alive now (suc i) slots v.2 in
    ((moves.same_id ∙ v.0, moves.keeps v.1, rest), ap suc same)

reclaim_slots-on :
    (alive : ℕ → Bool) (now : ℕ) (slots : List ClientSlot) (j : ℕ)
    → flag (on_at j (reclaim_slots alive now slots).0) ≡ flag (on_at j slots)
unfolding reclaim_slots
reclaim_slots-on alive now [] j = refl
reclaim_slots-on alive now (slot ∷ slots) zero =
    omega (arith, (reclaim_slot-SlotMoves alive now slot).balance)
reclaim_slots-on alive now (slot ∷ slots) (suc j) = reclaim_slots-on alive now slots j

reclaim-Moves :
    (alive : ℕ → Bool) (now : ℕ) (m : MultiServer)
    → IsMulti m
    → Moves m ((reclaim_stale_claims alive now m).0, [])
unfolding reclaim_stale_claims is_client_connected
reclaim-Moves alive now m v =
    let (ids, same) = reclaim_slots-keeps alive now 0 m.slots v.ids in
    record {
      keeps = record { ids = ids; all_slots = same ∙ v.all_slots; limit = v.limit };
      balance = λ j. omega (arith, reclaim_slots-on alive now m.slots j);
    }

disconnect_orphans-Moves :
    (orphans : List (ℕ × ℕ)) (m : MultiServer) → IsMulti m → Moves m (disconnect_orphans orphans m)
unfolding disconnect_orphans handle_orphaned_slot_disconnect
disconnect_orphans-Moves [] m v = Moves-none m v
disconnect_orphans-Moves ((id, claim) ∷ orphans) m v =
    let first = on_slot-Moves _ (disconnect_orphan-SlotMoves claim) id m v in
    Moves-then m _ _ _ first
      (disconnect_orphans-Moves orphans (handle_orphaned_slot_disconnect id claim m).0 first.keeps)

receive_from_slot-Moves : (id : ℕ) (m : MultiServer) → IsMulti m → Moves m (receive_from_slot id m)
unfolding receive_from_slot
receive_from_slot-Moves id m v = on_slot-Moves _ (receive_slot-SlotMoves m.recv_batch) id m v

poll_slots-Moves : (ids : List ℕ) (m : MultiServer) → IsMulti m → Moves m (poll_slots ids m)
unfolding poll_slots
poll_slots-Moves [] m v = Moves-none m v
poll_slots-Moves (id ∷ ids) m v =
    let first = receive_from_slot-Moves id m v in
    Moves-then m _ _ _ first (poll_slots-Moves ids (receive_from_slot id m).0 first.keeps)

handle_event-Moves :
    (acked : Result (Unit {0})) (source : EventSource) (m : MultiServer)
    → IsMulti m
    → Moves m (handle_event acked source m)
unfolding handle_event handle_slot_connect handle_slot_disconnect
handle_event-Moves acked (slot_connect id) m v =
    on_slot-Moves _ (connect_slot-SlotMoves acked) id m v
handle_event-Moves acked (slot_data id) m v = receive_from_slot-Moves id m v
handle_event-Moves acked (slot_disconnect id) m v = on_slot-Moves _ disconnect_slot-SlotMoves id m v

after_wait-Moves :
    (acked : Result (Unit {0})) (waited : Result (Option ℕ)) (m : MultiServer)
    → IsMulti m
    → Moves m (after_wait acked waited m)
unfolding after_wait poll_all_slots
after_wait-Moves acked (err e) m v = record { keeps = v; balance = λ j. refl }
after_wait-Moves acked (ok none) m v = poll_slots-Moves (connected_clients m) m v
after_wait-Moves acked (ok (some index)) m v =
    elim (Option-cases (get_elem? (wait_sources m.slots) index)) [
      | inl past ↦ rw (past, after_wait) (Moves-none m v)
      | inr (source, e) ↦ rw (e, after_wait) (handle_event-Moves acked source m v)
    ]

pub iterate-Moves : (t : Turn) (m : MultiServer) → IsMulti m → Moves m (iterate t m)
unfolding iterate
iterate-Moves t m v =
    let reclaimed = reclaim_stale_claims t.is_process_alive t.now m in
    let first = reclaim-Moves t.is_process_alive t.now m v in
    let second = disconnect_orphans-Moves reclaimed.1 reclaimed.0 first.keeps in
    let cleared = disconnect_orphans reclaimed.1 reclaimed.0 in
    let third = after_wait-Moves t.acked t.waited cleared.0 second.keeps in
    Moves-then m reclaimed.0 [] _ first (Moves-then reclaimed.0 cleared.0 cleared.1 _ second third)
