-- ===== src/Ffi/Receive.antt =====
-- src/ffi.rs: the receive of the C interface of a server, with its cache, between the sends of the
-- client.
use xshm.Prelude.{
  ℕ, ◌≡◌, refl, ap, arith, true, false, Bool-cases, inl, inr, ltb, ◌==◌, if◌then◌else◌, Option,
  none, some, List, [], ◌∷◌, length, take, take-of_length_le,
}
use xshm.Ring.{read_message}
use xshm.Ring.Queue.{Message}
use xshm.Ring.Runs.{Good, pop, get_refines}
use xshm.Server.{SharedServer, receive_from_client}
use xshm.Ffi.{
  ErrorCode, success, error_memory, error_empty, from_error, RecvCache, ServerState, hand_on,
  shm_server_receive,
}

-- What waits for the caller: the message in the cache, if there is one, and those in the ring.
pub record Inbox : Type 0 where
  pub held : Option Message
  pub queue : List Message

-- A message goes to the caller if the buffer is large enough, and is held otherwise.
abbrev pub offer : ℕ → Message → List Message → ErrorCode × Option Message × Inbox
offer capacity m queue =
    if ltb capacity (length m)
    then (error_memory, none, record { held = some m; queue = queue })
    else (success, some m, record { held = none; queue = queue })

abbrev pub fetch_next : ℕ → List Message → ErrorCode × Option Message × Inbox
fetch_next capacity [] = (error_empty, none, record { held = none; queue = [] })
fetch_next capacity (m ∷ queue) = offer capacity m queue

unfoldable pub fetch : ℕ → Inbox → ErrorCode × Option Message × Inbox
fetch capacity b = elim b.held [
  | none ↦ fetch_next capacity b.queue
  | some m ↦ offer capacity m b.queue
]

abbrev pub Holds : RecvCache → Option Message → Type 0
Holds c none = c.pending_len ≡ none
Holds c (some m) = (c.pending_len ≡ some (length m)) × (take (length m) c.buffer ≡ m)

-- A connected server that stands for an inbox.
pub record Stands (s : ServerState) (b : Inbox) : Type 0 where
  pub on : s.inner.connected ≡ true
  pub cached : Holds s.recv_cache b.held
  pub ring : Good s.inner.view.ring_b b.queue

-- What `hand_on` makes of a message of the buffer.
record HandedOn (c : RecvCache) (capacity : ℕ) (m : Message) (queue : List Message) : Type 0 where
  code : (hand_on c (length m) capacity).code ≡ (offer capacity m queue).0
  written : (hand_on c (length m) capacity).written ≡ (offer capacity m queue).1
  cached : Holds (hand_on c (length m) capacity).cache (offer capacity m queue).2.held
  left : (offer capacity m queue).2.queue ≡ queue

hand_on-HandedOn :
    (c : RecvCache) (capacity : ℕ) (m : Message) (queue : List Message)
    → take (length m) c.buffer ≡ m
    → HandedOn c capacity m queue
hand_on-HandedOn c capacity m queue same = elim (Bool-cases (ltb capacity (length m))) [
  | inl large ↦ record {
    code = rw large refl;
    written = rw large refl;
    cached = rw large (refl, same);
    left = rw large refl;
  }
  | inr fits ↦ record {
    code = rw fits refl;
    written = rw fits (ap some same);
    cached = rw fits refl;
    left = rw fits refl;
  }
]

receive_from_client_on :
    (s : SharedServer)
    → s.connected ≡ true
    → ((receive_from_client s).0 ≡ (read_message s.view.ring_b).0)
      × ((receive_from_client s).1
          ≡ record s { view = record (s.view) { ring_b = (read_message s.view.ring_b).1 } })
unfolding receive_from_client
receive_from_client_on s on = ground arith

-- An answer to the caller, and the state behind the handle after it.
abbrev pub Answers :
    ErrorCode × Option Message × Inbox → ErrorCode × Option (List ℕ) × Option ServerState → Type 0
Answers spec answer =
    (answer.0 ≡ spec.0)
    × (answer.1 ≡ spec.1)
    × ((t : ServerState) × (answer.2 ≡ some t) × Stands t spec.2)

-- The answer without the events.
abbrev pub receive : ServerState → ℕ → ErrorCode × Option (List ℕ) × Option ServerState
receive s capacity =
    let (code, written, s', _) = shm_server_receive (some s) true (some capacity) in
    (code, written, s')

pub receive_held :
    (s : ServerState) (m : Message) (queue : List Message) (capacity : ℕ)
    → (capacity == 0) ≡ false
    → Stands s (record { held = some m; queue = queue })
    → Answers (offer capacity m queue) (receive s capacity)
unfolding shm_server_receive
receive_held s m queue capacity nonzero st =
    let h = hand_on-HandedOn s.recv_cache capacity m queue st.cached.1 in
    let next : ServerState = record s {
      recv_cache = (hand_on s.recv_cache (length m) capacity).cache;
    } in
    (
      ground (arith, h.code),
      ground (arith, h.written),
      (next, ground arith, record { on = st.on; cached = h.cached; ring = rw (h.left) st.ring }),
    )

-- a read of the ring when nothing is held
pub receive_fresh :
    (s : ServerState) (queue : List Message) (capacity : ℕ)
    → (capacity == 0) ≡ false
    → Stands s (record { held = none; queue = queue })
    → Answers (fetch_next capacity queue) (receive s capacity)
unfolding shm_server_receive from_error pop
receive_fresh s [] capacity nonzero st =
    let (res, inner) = receive_from_client_on s.inner st.on in
    let (read, good) = get_refines [] st.ring in
    let next : ServerState = record s { inner = (receive_from_client s.inner).1 } in
    (
      ground (arith, res, read),
      ground (arith, res, read),
      (
        next,
        ground (arith, res, read),
        record { on = rw inner st.on; cached = st.cached; ring = rw inner good },
      ),
    )
receive_fresh s (m ∷ queue) capacity nonzero st =
    let (res, inner) = receive_from_client_on s.inner st.on in
    let (read, good) = get_refines (m ∷ queue) st.ring in
    let fresh : RecvCache = record { buffer = m; pending_len = none } in
    let h =
      hand_on-HandedOn fresh capacity m queue (take-of_length_le (length m) m (omega arith)) in
    let next : ServerState = record s {
      inner = (receive_from_client s.inner).1;
      recv_cache = (hand_on fresh (length m) capacity).cache;
    } in
    (
      ground (arith, res, read, h.code),
      ground (arith, res, read, h.written),
      (
        next,
        ground (arith, res, read),
        record { on = rw inner st.on; cached = h.cached; ring = rw (inner, h.left) good },
      ),
    )
