-- ===== src/Win/Waits.antt =====
-- The conversions of src/ntapi/helpers.rs and src/win.rs, and the callers that rely on them.
use xshm.Prelude.{
  ℕ, zero, suc, ◌+◌, ◌-◌, ◌*◌, ◌≤◌, ◌<◌, ◌≡◌, ◌≢◌, ◌^◌, refl, arith, inl, inr, ◌⊎◌, true, false,
  Bool-cases, some, List, [], ◌∷◌, length, get_elem?, ltb, ◌==◌, ◌/◌, min,
}
use xshm.Word.{ℤ, pos, negsuc}
use xshm.Error.{ok}
use xshm.Win.{status_success, duration_to_nt_timeout, wait_any, lives, is_process_alive}
use xshm.Multi.Slots.{ClientSlot, owner_word}
use xshm.Multi.Calls.{MultiServer}
use xshm.Multi.Worker.{EventSource, wait_sources}
use xshm.Multi.Invariant.{IsMulti}
use xshm.Multi.Claims.{IsTaken}
use xshm.Multi.Sweep.{sweep_slot, sweep_slot_keeps}

-- A relative timeout: it is negative, not below -(2^63 - 1), and no more than the duration but for one
-- unit, when the duration is within range.
pub data IsTimeout (nanos : ℕ) : ℤ → Type 0 where
  poll : nanos ≡ 0 → IsTimeout nanos (pos 0)
  relative :
      (n : ℕ)
      → 0 < nanos
      → n + 1 < 2 ^ 63
      → (nanos < 100 * (n + 2)) ⊎ (n + 1 ≡ 2 ^ 63 - 1)
      → (100 * (n + 1) ≤ nanos) ⊎ (n ≡ 0)
      → IsTimeout nanos (negsuc n)

in_unit :
    (nanos : ℕ)
    → (nanos / 100 == 0) ≡ false
    → let n = min (nanos / 100) (2 ^ 63 - 1) - 1 in (nanos < 100 * (n + 2)) ⊎ (n + 1 ≡ 2 ^ 63 - 1)
in_unit nanos large = elim (Bool-cases (ltb (nanos / 100) (2 ^ 63 - 1))) [
  | inl within ↦ inl (ground arith)
  | inr over ↦ inr (ground arith)
]

-- Only the empty duration becomes a poll; every other becomes a relative timeout of its length in units
-- of 100 nanoseconds, rounded down but to no less than one, and cut off at 2^63 - 1 units; none becomes
-- a positive number, which the kernel would take for a date.
pub duration_to_nt_timeout-IsTimeout : (nanos : ℕ) → IsTimeout nanos (duration_to_nt_timeout nanos)
unfolding duration_to_nt_timeout
duration_to_nt_timeout-IsTimeout nanos = elim (Bool-cases (nanos / 100 == 0)) [
  | inl small ↦ elim (Bool-cases (nanos == 0)) [
    | inl zero_time ↦ rw (small, zero_time) (poll (ground arith))
    | inr some_time ↦
        rw (small, some_time)
          (relative 0 (ground arith) (omega arith) (inl (ground arith)) (inr refl))
  ]
  | inr large ↦ rw large (
      relative (min (nanos / 100) (2 ^ 63 - 1) - 1) (ground arith) (ground arith)
        (in_unit nanos large) (inl (ground arith)))
]

length-wait_sources : (slots : List ClientSlot) → length (wait_sources slots) ≤ 2 * length slots
unfolding wait_sources
length-wait_sources [] = omega arith
length-wait_sources (slot ∷ slots) = ground (arith, length-wait_sources slots)

wait_any_lt : (n : ℕ) (status : ℤ) (i : ℕ) → wait_any n status ≡ ok (some i) → i < n
unfolding wait_any
wait_any_lt zero status i h = absurd (cc h)
wait_any_lt (suc n) (negsuc s) i h = absurd (cc h)
wait_any_lt (suc n) (pos s) i h = ground arith

get_elem?-lt {ℓ} :
    {A : Type ℓ} (xs : List A) (i : ℕ) → i < length xs → (x : A) × (get_elem? xs i ≡ some x)
get_elem?-lt [] i h = absurd (omega arith)
get_elem?-lt (x ∷ xs) zero h = (x, refl)
get_elem?-lt (x ∷ xs) (suc i) h = get_elem?-lt xs i (omega arith)

-- The worker of a well-formed `MultiServer` waits on at most 62 handles, fewer than the 64 that the
-- kernel allows, and whatever status the kernel returns, an index that `wait_any` gives on them is the
-- index of a source of events.
pub wait_any-wait_sources :
    (m : MultiServer) (status : ℤ) (i : ℕ)
    → IsMulti m
    → wait_any (length (wait_sources m.slots)) status ≡ ok (some i)
    → (length (wait_sources m.slots) ≤ 62)
      × ((source : EventSource) × (get_elem? (wait_sources m.slots) i ≡ some source))
wait_any-wait_sources m status i v h = (
  omega (arith, length-wait_sources m.slots, v.all_slots, v.limit),
  get_elem?-lt (wait_sources m.slots) i (wait_any_lt (length (wait_sources m.slots)) status i h),
)

closed-lives : (opened waited : ℤ) → opened ≢ status_success → lives opened waited ≡ true
unfolding lives
closed-lives (pos zero) waited h = absurd (h refl)
closed-lives (pos (suc n)) waited h = refl
closed-lives (negsuc n) waited h = refl

unopened :
    (open_status wait_status : ℕ → ℤ) (pid : ℕ)
    → open_status pid ≢ status_success
    → is_process_alive open_status wait_status pid ≡ true
unfolding is_process_alive
unopened open_status wait_status pid closed =
    let alive = closed-lives (open_status pid) (wait_status pid) closed in
    elim (Bool-cases (pid == 0)) [ inl e ↦ rw e refl | inr e ↦ rw (e, alive) refl ]

-- A slot whose owner cannot be opened, for whatever reason, is never given up: `is_process_alive` takes
-- the owner for a process that lives, so at every time the server, its segment and the connection stay
-- as they were and nothing is told.
pub unopened_owner_keeps_slot :
    (open_status wait_status : ℕ → ℤ) (now : ℕ) (slot : ClientSlot)
    → slot.connected ≡ true
    → IsTaken slot.server.view
    → open_status (owner_word slot.server.view) ≢ status_success
    → let (slot', effects) = sweep_slot (is_process_alive open_status wait_status) now slot in
      (slot'.server ≡ slot.server) × (slot'.connected ≡ true) × (effects ≡ [])
unopened_owner_keeps_slot open_status wait_status now slot on taken closed =
    sweep_slot_keeps (is_process_alive open_status wait_status) now slot on taken
      (unopened open_status wait_status (owner_word slot.server.view) closed)
