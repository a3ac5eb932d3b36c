-- ===== src/Multi/Claim.antt =====
-- src/multi/mod.rs: how a `MultiClient` claims a slot, and its send queue.
use xshm.Prelude.{
  ℕ, zero, suc, ◌+◌, ◌-◌, min, Bool, true, false, not, ◌||◌, leb, ◌==◌, if◌then◌else◌, List, [],
  ◌∷◌, ◌++◌, length, drop,
}
use xshm.Constants.{
  shared_magic, shared_version, claim_free, reserved_claim_index, reserved_owner_pid_index,
}
use xshm.Error.{Result, ok, err, no_free_slot, not_connected}
use xshm.Segment.{Segment}
use xshm.Multi.Slots.{
  claim_word, store_reserved, reserve_timeout, reserve_safety_margin, max_multi_clients,
}

-- The tail of `next_claim_token`: `hash` is what the hasher gives.
unfoldable pub claim_token : ℕ → ℕ
claim_token hash = if hash == claim_free then 1 else hash

-- `try_claim_slot` on a segment that could be opened, by the process `pid`.
unfoldable pub try_claim_slot : ℕ → ℕ → Segment → Bool × Segment
unfolding store_reserved
try_claim_slot pid token v =
    if not (v.control.magic == shared_magic) || not (v.control.version == shared_version)
    then (false, v)
    else if claim_word v == claim_free
    then (
      true,
      store_reserved (store_reserved v reserved_claim_index token) reserved_owner_pid_index pid,
    )
    else (false, v)

-- `release_claim` on a segment that could be opened
unfoldable pub release_claim : ℕ → Segment → Segment
unfolding store_reserved
release_claim token v =
    if claim_word v == token then store_reserved v reserved_claim_index claim_free else v

-- The loop of `claim_free_slot` from a slot id on, over the segments that can be opened, in order:
-- the first that cannot ends it. The first argument counts the ids left below the limit.
unfoldable pub claim_from : ℕ → ℕ → ℕ → ℕ → Bool → List Segment → Result ℕ × List Segment
claim_from zero pid token slot_id saw_slot vs =
    (err (if saw_slot then no_free_slot else not_connected), vs)
claim_from (suc n) pid token slot_id saw_slot [] =
    (err (if saw_slot then no_free_slot else not_connected), [])
claim_from (suc n) pid token slot_id saw_slot (v ∷ vs) =
    let (claimed, v') = try_claim_slot pid token v in
    let (res, rest) = claim_from n pid token (slot_id + 1) true vs in
    if claimed then (ok slot_id, v' ∷ vs) else (res, v' ∷ rest)

-- `claim_free_slot`, for the token that it draws
unfoldable pub claim_free_slot : ℕ → ℕ → List Segment → Result ℕ × List Segment
unfolding claim_from
claim_free_slot pid token vs = claim_from max_multi_clients pid token 0 false vs

unfoldable pub clamp_slot_timeout : ℕ → ℕ
clamp_slot_timeout requested = min requested (reserve_timeout - reserve_safety_margin)

-- `push_with_cap`: the queue, and whether the oldest was evicted. `pop_front` of an empty queue does
-- nothing.
unfoldable pub push_with_cap : List (List ℕ) → List ℕ → ℕ → List (List ℕ) × Bool
push_with_cap queue bytes max_send_queue =
    if leb max_send_queue (length queue)
    then (drop 1 queue ++ bytes ∷ [], true)
    else (queue ++ bytes ∷ [], false)
