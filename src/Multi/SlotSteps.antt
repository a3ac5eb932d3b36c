-- ===== src/Multi/SlotSteps.antt =====
-- The steps on a slot of src/multi/mod.rs, one by one.
use xshm.Prelude.{
  ℕ, zero, suc, ◌≡◌, refl, arith, inl, inr, Bool, true, false, Bool-cases, List, [], ◌++◌, map,
}
use xshm.Error.{Result}
use xshm.Server.{SharedServer, accept_hello, mark_disconnected, send_to_client, receive_from_client}
use xshm.Multi.Slots.{
  ClientSlot, set_events, release_slot_claim, do_slot_handshake, connect_slot, disconnect_slot,
  disconnect_orphan, force_disconnect, reclaim_slot, check_connected, check_claim, receive_batch,
  receive_slot, on_message, error_effect,
}
use xshm.Multi.Moves.{
  Silent, set_events-Silent, messages-Silent, append-Silent, SlotMoves, Silent-SlotMoves,
}

nothing-Silent : Silent []
nothing-Silent = record { no_connects = λ _. refl; no_disconnects = λ _. refl }

-- The slot after `connect_slot` when it was free, with what it tells the handler.
connect_free :
    (acked : Result (Unit {0})) (slot : ClientSlot)
    → slot.connected ≡ false
    → SlotMoves slot (connect_slot acked slot)
unfolding connect_slot do_slot_handshake accept_hello release_slot_claim
connect_free acked slot off = record {
  keeps = λ h. ground arith;
  same_id = ground arith;
  balance = ground arith;
  others = λ j ne. ground arith;
}

connect_slot_on :
    (acked : Result (Unit {0})) (slot : ClientSlot)
    → slot.connected ≡ true
    → connect_slot acked slot ≡ (slot, [])
unfolding connect_slot
connect_slot_on acked slot on = ground arith

pub connect_slot-SlotMoves :
    (acked : Result (Unit {0})) (slot : ClientSlot) → SlotMoves slot (connect_slot acked slot)
connect_slot-SlotMoves acked slot = elim (Bool-cases slot.connected) [
  | inl on ↦
      rw (connect_slot_on acked slot on)
        (Silent-SlotMoves slot slot [] nothing-Silent (λ h. h) refl refl)
  | inr off ↦ connect_free acked slot off
]

pub disconnect_slot-SlotMoves : (slot : ClientSlot) → SlotMoves slot (disconnect_slot slot)
unfolding disconnect_slot mark_disconnected release_slot_claim
disconnect_slot-SlotMoves slot = record {
  keeps = λ h. record { same = refl; events = h.events };
  same_id = refl;
  balance = ground arith;
  others = λ j ne. ground arith;
}

pub disconnect_orphan-SlotMoves :
    (expected : ℕ) (slot : ClientSlot) → SlotMoves slot (disconnect_orphan expected slot)
unfolding disconnect_orphan mark_disconnected release_slot_claim
disconnect_orphan-SlotMoves expected slot = record {
  keeps = λ h. ground arith;
  same_id = ground arith;
  balance = ground arith;
  others = λ j ne. ground arith;
}

pub force_disconnect-SlotMoves : (slot : ClientSlot) → SlotMoves slot (force_disconnect slot)
unfolding force_disconnect mark_disconnected release_slot_claim
force_disconnect-SlotMoves slot = record {
  keeps = λ h. ground arith;
  same_id = ground arith;
  balance = ground arith;
  others = λ j ne. ground arith;
}

pub reclaim_slot-SlotMoves :
    (alive : ℕ → Bool) (now : ℕ) (slot : ClientSlot)
    → SlotMoves slot ((reclaim_slot alive now slot).0, [])
unfolding reclaim_slot check_connected check_claim release_slot_claim
reclaim_slot-SlotMoves alive now slot =
    Silent-SlotMoves slot _ [] nothing-Silent (λ h. ground arith) (ground arith) (ground arith)

pub send_to_client-flags :
    (s : SharedServer) (bytes : List ℕ)
    → ((send_to_client s bytes).1.connected ≡ s.connected)
      × ((send_to_client s bytes).1.has_events ≡ s.has_events)
unfolding send_to_client
send_to_client-flags s bytes = ground arith

receive_from_client-flags :
    (s : SharedServer)
    → ((receive_from_client s).1.connected ≡ s.connected)
      × ((receive_from_client s).1.has_events ≡ s.has_events)
unfolding receive_from_client
receive_from_client-flags s = ground arith

receive_batch-flags :
    (n : ℕ) (s : SharedServer)
    → ((receive_batch n s).server.connected ≡ s.connected)
      × ((receive_batch n s).server.has_events ≡ s.has_events)
unfolding receive_batch
receive_batch-flags zero s = (refl, refl)
receive_batch-flags (suc n) s =
    ground (arith, receive_from_client-flags s, receive_batch-flags n (receive_from_client s).1)

receive_slot_on :
    (n : ℕ) (slot : ClientSlot)
    → slot.connected ≡ true
    → receive_slot n slot ≡ (
      record slot { server = (receive_batch n slot.server).server },
      set_events slot.id (receive_batch n slot.server).events
          ++ (map (on_message slot.id) (receive_batch n slot.server).messages
              ++ error_effect slot.id (receive_batch n slot.server).error),
    )
unfolding receive_slot
receive_slot_on n slot on = ground arith

receive_slot_off :
    (n : ℕ) (slot : ClientSlot) → slot.connected ≡ false → receive_slot n slot ≡ (slot, [])
unfolding receive_slot
receive_slot_off n slot off = ground arith

pub receive_slot-SlotMoves :
    (recv_batch : ℕ) (slot : ClientSlot) → SlotMoves slot (receive_slot recv_batch slot)
receive_slot-SlotMoves n slot =
    let b = receive_batch n slot.server in
    elim (Bool-cases slot.connected) [
      | inl on ↦ rw (receive_slot_on n slot on) (
          Silent-SlotMoves slot (record slot { server = b.server }) _
            (append-Silent _ _ (set_events-Silent slot.id b.events)
              (messages-Silent slot.id b.messages b.error))
            (λ h. ground (arith, receive_batch-flags n slot.server)) refl refl)
      | inr off ↦
          rw (receive_slot_off n slot off)
            (Silent-SlotMoves slot slot [] nothing-Silent (λ h. h) refl refl)
    ]
