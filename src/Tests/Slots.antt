-- ===== src/Tests/Slots.antt =====
-- A server of src/multi/mod.rs with two slots, and the claims of its clients.
use xshm.Prelude.{ℕ, ◌≡◌, ◌≢◌, ◌+◌, refl, arith, true, false, none, some, List, [], ◌∷◌, All}
use xshm.Constants.{claim_free}
use xshm.Error.{ok}
use xshm.Segment.{Segment, store_client_state}
use xshm.Server
use xshm.Server.{SharedServer}
use xshm.Multi.Slots.{ClientSlot, reclaim_slot, claim_word}
use xshm.Multi.Calls.{MultiServer, start, is_client_connected}
use xshm.Multi.Moves.{connects, disconnects, flag}
use xshm.Multi.Invariant.{IsMulti}
use xshm.Multi.Runs.{
  Call, turn, sends, broadcasts, disconnects_client, writes, history, history_balance,
}
use xshm.Multi.Claim.{claim_token, claim_free_slot, try_claim_slot, release_claim}
use xshm.Multi.Claims.{IsSlot, ClaimOutcome, refusal, claim_free_slot-ClaimOutcome, claims_differ}
use xshm.Multi.Reclaim.{younger_claim_is_freed, with_view}
use xshm.Tests.Sessions.{some_segment, some_server}

abbrev pub fresh_slot : ℕ → ClientSlot
fresh_slot id = record {
  id = id;
  server = record { view = Server.init_segment some_segment; has_events = true; connected = false };
  connected = false;
  claim_seen_at = none;
}

abbrev pub two_slots : MultiServer
two_slots = record { slots = fresh_slot 0 ∷ fresh_slot 1 ∷ []; max_clients = 2; recv_batch = 8 }

-- A client says hello on slot 1, the server takes it, sends to it and drops it.
abbrev some_calls : List Call
some_calls =
    writes 1 (λ v. store_client_state v 1)
    ∷ turn (record { is_process_alive = λ _. true; now = 5; waited = ok (some 1); acked = ok tt })
    ∷ sends 1 (7 ∷ 8 ∷ [])
    ∷ broadcasts (9 ∷ 9 ∷ [])
    ∷ disconnects_client 1
    ∷ []

some_start : start (λ id. ok some_segment) (λ id. ok tt) 2 8 ≡ ok two_slots
unfolding start Server.start
some_start = refl

history_balance_example :
    let (last, es) = history two_slots some_calls in
    IsMulti last
    × ((id : ℕ) → connects id es ≡ disconnects id es + flag (is_client_connected id last))
history_balance_example =
    history_balance (λ id. ok some_segment) (λ id. ok tt) 2 8 some_calls some_start

some_segment-IsSlot : IsSlot some_segment
some_segment-IsSlot = record { magic = refl; version = refl; words = omega arith }

-- the same segment, claimed
abbrev pub taken_control : List ℕ
taken_control = 5 ∷ 900 ∷ 0 ∷ []

abbrev pub taken_segment : Segment
taken_segment = record some_segment {
  control = record (some_segment.control) { reserved = taken_control };
}

-- a slot that is connected, whose claim is held by process 900
abbrev pub held_slot : ClientSlot
held_slot = record {
  id = 0;
  server = record some_server { view = taken_segment; connected = true };
  connected = true;
  claim_seen_at = some 100;
}

taken_segment-IsSlot : IsSlot taken_segment
taken_segment-IsSlot = record { magic = refl; version = refl; words = omega arith }

abbrev three_segments : List Segment
three_segments = taken_segment ∷ some_segment ∷ some_segment ∷ []

three_segments-IsSlot : All IsSlot three_segments
three_segments-IsSlot = (taken_segment-IsSlot, (some_segment-IsSlot, (some_segment-IsSlot, tt)))

claim_free_slot-ClaimOutcome_example :
    ClaimOutcome 321 6 0
      (refusal false three_segments)
      three_segments
      (claim_free_slot 321 6 three_segments)
claim_free_slot-ClaimOutcome_example =
    claim_free_slot-ClaimOutcome 321 6 three_segments three_segments-IsSlot (omega arith)

claims_differ_example :
    (claim_free_slot 322 (claim_token 0) (claim_free_slot 321 (claim_token 6) three_segments).1).0
    ≢ ok 1
unfolding claim_free_slot claim_token try_claim_slot
claims_differ_example =
    claims_differ 321 322 6 0 three_segments 1 three_segments-IsSlot (omega arith) refl

abbrev taken_slot : ClientSlot
taken_slot = record {
  id = 0;
  server = record some_server { view = taken_segment };
  connected = false;
  claim_seen_at = none;
}

younger_claim_is_freed_example :
    let seen_slot = (reclaim_slot (λ _. true) 100 taken_slot).0 in
    let (claimed, view) = try_claim_slot 77 6 (release_claim 5 seen_slot.server.view) in
    let slot' = with_view seen_slot view in
    (claimed ≡ true)
    × (claim_word view ≡ 6)
    × (claim_word (reclaim_slot (λ _. true) 10100 slot').0.server.view ≡ claim_free)
younger_claim_is_freed_example =
    younger_claim_is_freed (λ _. true) 100 10100 77 5 6 taken_slot refl refl taken_segment-IsSlot
      refl (λ e. omega (arith, e)) (λ e. omega (arith, e)) (omega arith)
