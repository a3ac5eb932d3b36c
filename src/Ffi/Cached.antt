-- ===== src/Ffi/Cached.antt =====
-- src/ffi.rs: calls of `shm_server_receive` and sends of the client, in any order.
use xshm.Prelude.{
  ◌≡◌, ℕ, refl, ap₂, true, false, Bool-cases, inl, inr, ◌==◌, if◌then◌else◌, Option, none, some,
  List, [], ◌∷◌,
}
use xshm.Ring.Queue.{Message}
use xshm.Ring.Runs.{push, put_refines}
use xshm.Client.{SharedClient, send_to_server}
use xshm.Ffi.{ErrorCode, error_invalid_param, ServerState, shm_server_receive}
use xshm.Ffi.Receive.{Inbox, Stands, Answers, receive, fetch, receive_held, receive_fresh}

pub data Happening : Type 0 where
  receives : (capacity : ℕ) → Happening
  client_sends : (m : Message) → Happening

pub data Reply : Type 0 where
  got : (code : ErrorCode) (written : Option Message) → Reply

-- The client writes into the ring of the state behind the handle.
abbrev pub client_writes : SharedClient → Message → Option ServerState → Option ServerState
client_writes c m none = none
client_writes c m (some s) =
    some (record s { inner = record (s.inner) { view = (send_to_server c m s.inner.view).1 } })

unfoldable pub run :
    SharedClient → List Happening → Option ServerState → List Reply × Option ServerState
run c [] s = ([], s)
run c (receives capacity ∷ rest) s =
    let (code, written, s', _) = shm_server_receive s true (some capacity) in
    let (replies, last) = run c rest s' in (got code written ∷ replies, last)
run c (client_sends m ∷ rest) s = run c rest (client_writes c m s)

-- The same on an inbox: an empty buffer is refused, a message that arrives may push the oldest out of
-- the ring, but not the one that is held.
abbrev pub fetch_checked : ℕ → Inbox → ErrorCode × Option Message × Inbox
fetch_checked capacity b =
    if capacity == 0 then (error_invalid_param, none, b) else fetch capacity b

unfoldable pub run_inbox : List Happening → Inbox → List Reply × Inbox
run_inbox [] b = ([], b)
run_inbox (receives capacity ∷ rest) b =
    let (code, written, b') = fetch_checked capacity b in
    let (replies, last) = run_inbox rest b' in (got code written ∷ replies, last)
run_inbox (client_sends m ∷ rest) b = run_inbox rest (record b { queue = (push b.queue m).1 })

receive_fetches :
    (s : ServerState) (held : Option Message) (queue : List Message) (capacity : ℕ)
    → (capacity == 0) ≡ false
    → Stands s (record { held = held; queue = queue })
    → Answers (fetch capacity (record { held = held; queue = queue })) (receive s capacity)
unfolding fetch
receive_fetches s none queue capacity nonzero st = receive_fresh s queue capacity nonzero st
receive_fetches s (some m) queue capacity nonzero st = receive_held s m queue capacity nonzero st

receive_nothing :
    (s : ServerState) (b : Inbox) (capacity : ℕ)
    → (capacity == 0) ≡ true
    → Stands s b
    → Answers (error_invalid_param, none, b) (receive s capacity)
unfolding shm_server_receive
receive_nothing s b capacity zero st = rw zero (refl, refl, (s, refl, st))

receive_checked :
    (s : ServerState) (b : Inbox) (capacity : ℕ)
    → Stands s b
    → Answers (fetch_checked capacity b) (receive s capacity)
receive_checked s b capacity st = elim (Bool-cases (capacity == 0)) [
  | inl zero ↦ rw zero (receive_nothing s b capacity zero st)
  | inr nonzero ↦ rw nonzero (receive_fetches s b.held b.queue capacity nonzero st)
]

client_writes-Stands :
    (c : SharedClient) (s : ServerState) (b : Inbox) (m : Message)
    → c.connected ≡ true
    → Stands s b
    → Stands
        (record s { inner = record (s.inner) { view = (send_to_server c m s.inner.view).1 } })
        (record b { queue = (push b.queue m).1 })
unfolding send_to_server
client_writes-Stands c s b m on st = record {
  on = st.on;
  cached = st.cached;
  ring = rw on ((put_refines b.queue m st.ring).1);
}

-- In a connected session, any sequence of `shm_server_receive`, with buffers of whatever size, and of
-- sends of the client answers like an inbox: a message that does not fit into the buffer is refused,
-- held, and offered again before any other; it is neither lost nor reordered, whatever arrives
-- meanwhile, and the server stands for that inbox at the end.
pub run_cached :
    (c : SharedClient) (s : ServerState) (b : Inbox) (happenings : List Happening)
    → c.connected ≡ true
    → Stands s b
    → ((run c happenings (some s)).0 ≡ (run_inbox happenings b).0)
      × ((t : ServerState) × ((run c happenings (some s)).1 ≡ some t)
          × Stands t (run_inbox happenings b).1)
unfolding run run_inbox
run_cached c s b [] on st = (refl, (s, refl, st))
run_cached c s b (client_sends m ∷ rest) on st =
    run_cached c
      (record s { inner = record (s.inner) { view = (send_to_server c m s.inner.view).1 } })
      (record b { queue = (push b.queue m).1 }) rest on (client_writes-Stands c s b m on st)
run_cached c s b (receives capacity ∷ rest) on st =
    let (code, written, after) = receive_checked s b capacity st in
    let (t, e, stands) = after in
    let (replies, last) = run_cached c t (fetch_checked capacity b).2 rest on stands in
    rw e (ap₂ ◌∷◌ (ap₂ got code written) replies, last)
