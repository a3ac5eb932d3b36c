-- ===== src/Multi/Sends.antt =====
-- The sends, broadcasts and forced disconnections of a `MultiServer` of src/multi/mod.rs, and its
-- invariant.
use xshm.Prelude.{
  ℕ, zero, suc, ◌≡◌, refl, ap, sym, ◌∙◌, arith, inl, inr, true, false, some, Bool-cases,
  Option-cases, List, [], ◌∷◌, length, get_elem?, set,
}
use xshm.Error.{ok, err, ◌>>=◌, not_connected}
use xshm.Server.{send_to_client}
use xshm.Multi.Slots.{ClientSlot, set_events}
use xshm.Multi.Calls.{
  MultiServer, send_to, broadcast, broadcast_slots, broadcast_slot, sent_count, disconnect_client,
  is_client_connected,
}
use xshm.Multi.Moves.{flag, Silent, SlotMoves, Silent-SlotMoves, set_events-Silent, append-Silent}
use xshm.Multi.SlotSteps.{force_disconnect-SlotMoves, send_to_client-flags}
use xshm.Multi.Invariant.{
  SlotsFrom, IsMulti, on_at, Moves, Moves-none, on_slot-Moves, set_slot-Moves,
}

send_slot-SlotMoves :
    (bytes : List ℕ) (slot : ClientSlot)
    → SlotMoves slot (
      record slot { server = (send_to_client slot.server bytes).1 },
      set_events slot.id (send_to_client slot.server bytes).2,
    )
send_slot-SlotMoves bytes slot =
    let (on, events) = send_to_client-flags slot.server bytes in
    Silent-SlotMoves slot _ _ (set_events-Silent slot.id (send_to_client slot.server bytes).2)
      (λ h. record { same = h.same ∙ sym on; events = events ∙ h.events }) refl refl

send_to_off :
    (id : ℕ) (bytes : List ℕ) (m : MultiServer) (slot : ClientSlot)
    → get_elem? m.slots id ≡ some slot
    → slot.connected ≡ false
    → send_to id bytes m ≡ (err not_connected, m, [])
unfolding send_to
send_to_off id bytes m slot e off = ground arith

send_to_on :
    (id : ℕ) (bytes : List ℕ) (m : MultiServer) (slot : ClientSlot)
    → get_elem? m.slots id ≡ some slot
    → slot.connected ≡ true
    → let (res, s, events) = send_to_client slot.server bytes in
      send_to id bytes m ≡ (
        res >>= λ _. ok tt,
        record m { slots = set m.slots id (record slot { server = s }) },
        set_events slot.id events,
      )
unfolding send_to
send_to_on id bytes m slot e on = ground arith

pub send_to-Moves :
    (id : ℕ) (bytes : List ℕ) (m : MultiServer)
    → IsMulti m
    → Moves m ((send_to id bytes m).1, (send_to id bytes m).2)
unfolding send_to
send_to-Moves id bytes m v = elim (Option-cases (get_elem? m.slots id)) [
  | inl missing ↦ rw (missing, send_to) (Moves-none m v)
  | inr (slot, e) ↦ elim (Bool-cases slot.connected) [
    | inl on ↦
        rw (send_to_on id bytes m slot e on)
          (set_slot-Moves m id slot _ e v (send_slot-SlotMoves bytes slot))
    | inr off ↦ rw (send_to_off id bytes m slot e off) (Moves-none m v)
  ]
]

pub disconnect_client-Moves :
    (id : ℕ) (m : MultiServer)
    → IsMulti m
    → Moves m ((disconnect_client id m).1, (disconnect_client id m).2)
unfolding disconnect_client
disconnect_client-Moves id m v = elim (Option-cases (get_elem? m.slots id)) [
  | inl missing ↦ rw (missing, disconnect_client) (Moves-none m v)
  | inr (slot, e) ↦ rw (e, disconnect_client) (on_slot-Moves _ force_disconnect-SlotMoves id m v)
]

broadcast_slot_on :
    (bytes : List ℕ) (slot : ClientSlot)
    → slot.connected ≡ true
    → let (res, s, events) = send_to_client slot.server bytes in
      broadcast_slot bytes slot
      ≡ (sent_count res, record slot { server = s }, set_events slot.id events)
unfolding broadcast_slot
broadcast_slot_on bytes slot on = ground arith

broadcast_slot_off :
    (bytes : List ℕ) (slot : ClientSlot)
    → slot.connected ≡ false
    → broadcast_slot bytes slot ≡ (0, slot, [])
unfolding broadcast_slot
broadcast_slot_off bytes slot off = ground arith

broadcast_slot-SlotMoves :
    (bytes : List ℕ) (slot : ClientSlot)
    → SlotMoves slot ((broadcast_slot bytes slot).1, (broadcast_slot bytes slot).2)
broadcast_slot-SlotMoves bytes slot = elim (Bool-cases slot.connected) [
  | inl on ↦ rw (broadcast_slot_on bytes slot on) (send_slot-SlotMoves bytes slot)
  | inr off ↦
      rw (broadcast_slot_off bytes slot off)
        (Silent-SlotMoves slot slot [] (set_events-Silent slot.id []) (λ h. h) refl refl)
]

broadcast_slot-Silent : (bytes : List ℕ) (slot : ClientSlot) → Silent (broadcast_slot bytes slot).2
broadcast_slot-Silent bytes slot = elim (Bool-cases slot.connected) [
  | inl on ↦
      rw (broadcast_slot_on bytes slot on)
        (set_events-Silent slot.id (send_to_client slot.server bytes).2)
  | inr off ↦ rw (broadcast_slot_off bytes slot off) (set_events-Silent slot.id [])
]

broadcast_slots-keeps :
    (bytes : List ℕ) (i : ℕ) (slots : List ClientSlot)
    → SlotsFrom i slots
    → SlotsFrom i (broadcast_slots bytes slots).1
      × (length (broadcast_slots bytes slots).1 ≡ length slots)
      × Silent (broadcast_slots bytes slots).2
unfolding broadcast_slots
broadcast_slots-keeps bytes i [] v = (tt, refl, set_events-Silent 0 [])
broadcast_slots-keeps bytes i (slot ∷ slots) v =
    let moves = broadcast_slot-SlotMoves bytes slot in
    let (rest, same, silent) = broadcast_slots-keeps bytes (suc i) slots v.2 in
    (
      (moves.same_id ∙ v.0, moves.keeps v.1, rest),
      ap suc same,
      append-Silent (broadcast_slot bytes slot).2 (broadcast_slots bytes slots).2
          (broadcast_slot-Silent bytes slot) silent,
    )

broadcast_slots-on :
    (bytes : List ℕ) (slots : List ClientSlot) (j : ℕ)
    → flag (on_at j (broadcast_slots bytes slots).1) ≡ flag (on_at j slots)
unfolding broadcast_slots
broadcast_slots-on bytes [] j = refl
broadcast_slots-on bytes (slot ∷ slots) zero =
    let moves = broadcast_slot-SlotMoves bytes slot in
    let silent = broadcast_slot-Silent bytes slot in
    omega (arith, moves.balance, silent.no_connects slot.id, silent.no_disconnects slot.id)
broadcast_slots-on bytes (slot ∷ slots) (suc j) = broadcast_slots-on bytes slots j

pub broadcast-Moves :
    (bytes : List ℕ) (m : MultiServer)
    → IsMulti m
    → Moves m ((broadcast bytes m).1, (broadcast bytes m).2)
unfolding broadcast is_client_connected
broadcast-Moves bytes m v =
    let (ids, same, silent) = broadcast_slots-keeps bytes 0 m.slots v.ids in
    record {
      keeps = record { ids = ids; all_slots = same ∙ v.all_slots; limit = v.limit };
      balance = λ j. omega (
        arith,
        broadcast_slots-on bytes m.slots j,
        silent.no_connects j,
        silent.no_disconnects j,
      );
    }
