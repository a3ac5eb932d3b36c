-- ===== src/Multi/Sweep.antt =====
-- How the worker of src/multi/mod.rs gives up the slots of clients that are gone.
use xshm.Prelude.{
  ℕ, ◌≡◌, refl, sym, ap, ◌∙◌, subst, arith, inl, inr, ◌⊎◌, Bool, true, false, Bool-cases, not, ◌&&◌,
  ◌==◌, ==_refl, if◌then◌else◌, Option, none, some, List, [], ◌∷◌, ◌++◌, get_or, set,
}
use xshm.Constants.{claim_free}
use xshm.Segment.{store_states, store_state, store_client_state, store_server_state}
use xshm.Server.{mark_disconnected, idle_segment}
use xshm.Multi.Slots.{
  ClientSlot, Effect, on_client_disconnect, claim_word, owner_word, release_slot_claim,
  store_reserved, should_check, reclaim_slot, check_connected, check_claim, disconnect_orphan,
}
use xshm.Multi.Calls.{MultiServer}
use xshm.Multi.Claims.{IsTaken}
use xshm.Multi.Reclaim.{taken_test}

-- what becomes of a slot with the claim that was expected of it, if it is an orphan
abbrev pub give_up : Option ℕ → ClientSlot → ClientSlot × List Effect
give_up none slot = (slot, [])
give_up (some claim) slot = disconnect_orphan claim slot

-- One slot looked at and given up at once.
unfoldable pub sweep_slot : (ℕ → Bool) → ℕ → ClientSlot → ClientSlot × List Effect
sweep_slot alive now slot =
    let (slot', orphan) = reclaim_slot alive now slot in give_up orphan slot'

-- Each slot in turn.
unfoldable pub sweep_slots : (ℕ → Bool) → ℕ → List ClientSlot → List ClientSlot × List Effect
sweep_slots alive now [] = ([], [])
sweep_slots alive now (slot ∷ slots) =
    let (slot', effects) = sweep_slot alive now slot in
    let (slots', more) = sweep_slots alive now slots in (slot' ∷ slots', effects ++ more)

-- The slots of a server, as they are put in.
abbrev with_slots : MultiServer → List ClientSlot → MultiServer
with_slots m slots = record m { slots = slots }

abbrev add_orphan : ℕ → Option ℕ → List (ℕ × ℕ) → List (ℕ × ℕ)
add_orphan id none os = os
add_orphan id (some claim) os = (id, claim) ∷ os

free_word : (l : List ℕ) → get_or (set l 0 claim_free) 0 0 ≡ claim_free
free_word [] = refl
free_word (x ∷ l) = refl

-- A slot that has been given up.
pub record GivenUp (slot : ClientSlot) (out : ClientSlot × List Effect) : Type 0 where
  pub off : out.0.connected ≡ false
  pub server_off : out.0.server.connected ≡ false
  pub free : claim_word out.0.server.view ≡ claim_free
  pub told : out.1 ≡ on_client_disconnect slot.id ∷ []

orphan-GivenUp :
    (slot : ClientSlot) (claim : ℕ)
    → slot.connected ≡ true
    → claim_word slot.server.view ≡ claim
    → GivenUp slot (disconnect_orphan claim slot)
unfolding disconnect_orphan mark_disconnected idle_segment release_slot_claim store_reserved
    store_states store_state store_client_state store_server_state
orphan-GivenUp slot claim on is =
    let e : (claim_word slot.server.view == claim) ≡ true = rw is (==_refl claim) in
    let w = free_word slot.server.view.control.reserved in
    record {
      off = ground (arith, w);
      server_off = ground (arith, w);
      free = ground (arith, w);
      told = ground (arith, w);
    }

reclaim_on :
    (alive : ℕ → Bool) (now : ℕ) (slot : ClientSlot)
    → slot.connected ≡ true
    → reclaim_slot alive now slot ≡ check_connected alive now slot
unfolding reclaim_slot
reclaim_on alive now slot on =
    subst
      (λ (b : Bool).
        (if b then check_connected alive now slot else (check_claim now slot, none))
        ≡ check_connected alive now slot)
      (sym on) refl

check_abandoned :
    (alive : ℕ → Bool) (now : ℕ) (slot : ClientSlot)
    → (claim_word slot.server.view == claim_free) ≡ true
    → check_connected alive now slot ≡ (slot, some claim_free)
unfolding check_connected
check_abandoned alive now slot e = rw e refl

check_held :
    (alive : ℕ → Bool) (now : ℕ) (slot : ClientSlot) (due lives : Bool)
    → (claim_word slot.server.view == claim_free) ≡ false
    → should_check slot.claim_seen_at now ≡ due
    → alive (owner_word slot.server.view) ≡ lives
    → check_connected alive now slot ≡ (
      if due then record slot { claim_seen_at = some now } else slot,
      if due && not lives then some (claim_word slot.server.view) else none,
    )
unfolding check_connected
check_held alive now slot true lives e d l = rw (e, d, l) refl
check_held alive now slot false lives e d l = rw (e, d) refl

-- the equation of `sweep_slot` by that of the check
swept :
    (alive : ℕ → Bool) (now : ℕ) (slot slot' : ClientSlot) (orphan : Option ℕ)
    → slot.connected ≡ true
    → check_connected alive now slot ≡ (slot', orphan)
    → sweep_slot alive now slot ≡ give_up orphan slot'
unfolding sweep_slot
swept alive now slot slot' orphan on e =
    ap (λ (p : ClientSlot × Option ℕ). give_up p.1 p.0) (reclaim_on alive now slot on ∙ e)

-- A connected slot whose claim is free, or whose claim is held by a process that does not live when the
-- time of the last check allows another, is given up in that round: it is disconnected, its claim is
-- free, and the handler is told once.
pub sweep_slot-GivenUp :
    (alive : ℕ → Bool) (now : ℕ) (slot : ClientSlot)
    → slot.connected ≡ true
    → (claim_word slot.server.view ≡ claim_free)
      ⊎ ((should_check slot.claim_seen_at now ≡ true)
          × (alive (owner_word slot.server.view) ≡ false))
    → GivenUp slot (sweep_slot alive now slot)
sweep_slot-GivenUp alive now slot on (inl free) =
    let e : (claim_word slot.server.view == claim_free) ≡ true = rw free (==_refl claim_free) in
    subst (GivenUp slot)
      (sym (swept alive now slot slot (some claim_free) on (check_abandoned alive now slot e)))
      (orphan-GivenUp slot claim_free on free)
sweep_slot-GivenUp alive now slot on (inr (due, dead)) =
    elim (Bool-cases (claim_word slot.server.view == claim_free)) [
      | inl free ↦
          subst (GivenUp slot)
            (sym (
              swept alive now slot slot (some claim_free) on (check_abandoned alive now slot free)))
            (orphan-GivenUp slot claim_free on (ground arith))
      | inr taken ↦
          let seen = record slot { claim_seen_at = some now } in
          let g = orphan-GivenUp seen (claim_word slot.server.view) on refl in
          subst (GivenUp slot)
            (sym (
              swept alive now slot seen (some (claim_word slot.server.view)) on
                (check_held alive now slot true false taken due dead)))
            (record { off = g.off; server_off = g.server_off; free = g.free; told = g.told })
    ]

kept :
    (slot : ClientSlot) (due : Bool) (now : ℕ)
    → slot.connected ≡ true
    → let out =
        give_up
          (if due && false then some (claim_word slot.server.view) else none)
          (if due then record slot { claim_seen_at = some now } else slot) in
      (out.0.server ≡ slot.server) × (out.0.connected ≡ true) × (out.1 ≡ [])
kept slot true now on = (refl, on, refl)
kept slot false now on = (refl, on, refl)

-- A connected slot whose claim is held by a process that lives is never given up: the server and its
-- segment stay as they were and nothing is told.
pub sweep_slot_keeps :
    (alive : ℕ → Bool) (now : ℕ) (slot : ClientSlot)
    → slot.connected ≡ true
    → IsTaken slot.server.view
    → alive (owner_word slot.server.view) ≡ true
    → let (slot', effects) = sweep_slot alive now slot in
      (slot'.server ≡ slot.server) × (slot'.connected ≡ true) × (effects ≡ [])
sweep_slot_keeps alive now slot on taken lives =
    let due = should_check slot.claim_seen_at now in
    let e : (claim_word slot.server.view == claim_free) ≡ false =
      taken_test slot.server.view taken in
    subst
      (λ (out : ClientSlot × List Effect).
        (out.0.server ≡ slot.server) × (out.0.connected ≡ true) × (out.1 ≡ []))
      (sym (
        swept alive now slot (if due then record slot { claim_seen_at = some now } else slot)
          (if due && false then some (claim_word slot.server.view) else none) on
          (check_held alive now slot due true e refl lives)))
      (kept slot due now on)
