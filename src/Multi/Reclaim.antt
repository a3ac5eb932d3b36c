-- ===== src/Multi/Reclaim.antt =====
-- How the worker of src/multi/mod.rs takes slots back (`reclaim_stale_claims`,
-- `handle_orphaned_slot_disconnect`).
use xshm.Prelude.{
  ℕ, ◌+◌, ◌-◌, ◌≤◌, ◌≡◌, ◌≢◌, refl, sym, ap, ◌∙◌, subst, arith, inl, inr, Bool, true, false, ◌==◌,
  Bool-cases, none, some, List, [], ◌∷◌, get_or, set, le→leb, ==_refl, length-set,
}
use xshm.Constants.{claim_free}
use xshm.Segment.{Segment}
use xshm.Multi.Slots.{
  ClientSlot, claim_word, store_reserved, release_slot_claim, reserve_timeout, check_claim,
  reclaim_slot,
}
use xshm.Multi.Claim.{release_claim, try_claim_slot}
use xshm.Multi.Claims.{IsSlot, IsTaken, try_claim_slot-free}

-- What the worker makes of a slot that no one connects to, in rounds at the given times.
unfoldable pub check_rounds : (ℕ → Bool) → List ℕ → ClientSlot → ClientSlot
check_rounds alive [] slot = slot
check_rounds alive (now ∷ times) slot = check_rounds alive times (reclaim_slot alive now slot).0

pub taken_test : (v : Segment) → IsTaken v → (claim_word v == claim_free) ≡ false
taken_test v t = elim (Bool-cases (claim_word v == claim_free)) [
  | inl e ↦ absurd (t (ground arith))
  | inr e ↦ e
]

first_look :
    (alive : ℕ → Bool) (now : ℕ) (slot : ClientSlot)
    → slot.connected ≡ false
    → slot.claim_seen_at ≡ none
    → IsTaken slot.server.view
    → (reclaim_slot alive now slot).0 ≡ record slot { claim_seen_at = some now }
unfolding reclaim_slot check_claim
first_look alive now slot off unseen taken = simp (off, taken_test slot.server.view taken, unseen)

old :
    (alive : ℕ → Bool) (now since : ℕ) (slot : ClientSlot)
    → slot.connected ≡ false
    → slot.claim_seen_at ≡ some since
    → IsTaken slot.server.view
    → since + reserve_timeout ≤ now
    → (reclaim_slot alive now slot).0
      ≡ record slot { server = release_slot_claim slot.server; claim_seen_at = none }
unfolding reclaim_slot check_claim
old alive now since slot off seen taken h = simp (
  off,
  taken_test slot.server.view taken,
  seen,
  le→leb reserve_timeout (now - since) (omega arith),
)

head_word : (l : List ℕ) → get_or (set l 0 claim_free) 0 0 ≡ claim_free
head_word [] = refl
head_word (x ∷ l) = refl

released-free : (slot : ClientSlot) → claim_word (release_slot_claim slot.server).view ≡ claim_free
unfolding release_slot_claim store_reserved
released-free slot = head_word slot.server.view.control.reserved

release_own :
    (token : ℕ) (v : Segment)
    → IsSlot v
    → claim_word v ≡ token
    → IsSlot (release_claim token v) × (claim_word (release_claim token v) ≡ claim_free)
unfolding release_claim store_reserved
release_own token v good is =
    let e : (claim_word v == token) ≡ true = rw is (==_refl token) in
    simp e (
      record {
        magic = good.magic;
        version = good.version;
        words = rw (length-set v.control.reserved 0 0) good.words;
      },
      head_word v.control.reserved,
    )

-- the slot after others have written to its segment
abbrev pub with_view : ClientSlot → Segment → ClientSlot
with_view slot view = record slot { server = record (slot.server) { view = view } }

-- The time of a claim is not tied to the claim: when the claim that the worker first saw at `seen` is
-- given back and another one is put in its place, by any pid and with any token, before the worker
-- looks again, the other claim is taken away in the first round from `seen + reserve_timeout` on,
-- however young it is.
pub younger_claim_is_freed :
    (alive : ℕ → Bool) (seen now pid token token' : ℕ) (slot : ClientSlot)
    → slot.connected ≡ false
    → slot.claim_seen_at ≡ none
    → IsSlot slot.server.view
    → claim_word slot.server.view ≡ token
    → token ≢ claim_free
    → token' ≢ claim_free
    → seen + reserve_timeout ≤ now
    → let seen_slot = (reclaim_slot alive seen slot).0 in
      let (claimed, view) = try_claim_slot pid token' (release_claim token seen_slot.server.view) in
      let slot' = with_view seen_slot view in
      (claimed ≡ true)
      × (claim_word view ≡ token')
      × (claim_word (reclaim_slot alive now slot').0.server.view ≡ claim_free)
younger_claim_is_freed alive seen now pid token token' slot off unseen good is taken taken' h =
    let look = first_look alive seen slot off unseen (λ f. taken (sym is ∙ f)) in
    subst
      (λ (s : ClientSlot).
        let (claimed, view) = try_claim_slot pid token' (release_claim token s.server.view) in
        (claimed ≡ true)
        × (claim_word view ≡ token')
        × (claim_word (reclaim_slot alive now (with_view s view)).0.server.view ≡ claim_free))
      (sym look)
      (let (good', free) = release_own token slot.server.view good is in
        let (won, by) =
          try_claim_slot-free pid token' (release_claim token slot.server.view) good' free in
        let view = (try_claim_slot pid token' (release_claim token slot.server.view)).1 in
        let gone =
          old alive now seen (with_view (record slot { claim_seen_at = some seen }) view) off refl
            (λ f. taken' (sym by.token_in ∙ f)) h in
        (
          won,
          by.token_in,
          ap (λ (s : ClientSlot). claim_word s.server.view) gone
              ∙ released-free (with_view slot view),
        ))
