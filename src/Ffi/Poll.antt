-- ===== src/Ffi/Poll.antt =====
-- src/ffi.rs: what the polls and the sends of the C interface say.
use xshm.Prelude.{
  ℕ, ◌<◌, ◌≤◌, ◌≡◌, refl, arith, Bool, true, false, leb, ◌==◌, ◌&&◌, ◌||◌, ltb-false, lt→ltb,
  if◌then◌else◌, none, some, List, [], ◌∷◌, length,
}
use xshm.Error.{ok}
use xshm.Constants.{min_message_size, max_message_size}
use xshm.Ring.{write_message, is_empty, message_count}
use xshm.Ring.Queue.{Message}
use xshm.Ring.Runs.{Good, push, put_refines}
use xshm.Server.{SharedServer, poll_client, send_to_client}
use xshm.Auto.Handle.{Handle, auto_send}
use xshm.Ffi.{
  success, error_invalid_param, error_memory, error_timeout, from_error, code_of, ServerState,
  shm_server_receive, shm_server_poll, shm_server_send,
}
use xshm.Ffi.Automatic.{shm_server_send_auto}
use xshm.Ffi.Receive.{Stands, receive_fresh, receive_held}

empty-poll :
    (s : SharedServer)
    → s.connected ≡ true
    → Good s.view.ring_b []
    → poll_client (ok false) s ≡ ok false
unfolding poll_client is_empty message_count
empty-poll s on g = ground (arith, g.rep.counted)

-- A message that did not fit into the buffer and was the last in the ring is not seen by a poll, which
-- times out if no other comes, although the next receive with a buffer of its size returns it.
pub poll_misses_held :
    (s : ServerState) (m : Message) (small large : ℕ)
    → Stands s (record { held = none; queue = m ∷ [] })
    → 0 < small
    → small < length m
    → length m ≤ large
    → let (code, written, s1, _) = shm_server_receive (some s) true (some small) in
      let (code', written', _, _) = shm_server_receive s1 true (some large) in
      (code ≡ error_memory)
      × (shm_server_poll (ok false) s1 ≡ error_timeout)
      × (code' ≡ success)
      × (written' ≡ some m)
unfolding shm_server_poll
poll_misses_held s m small large st pos short long =
    let over = lt→ltb small (length m) short in
    let fits = ltb-false large (length m) long in
    let (code, written, after) = receive_fresh s (m ∷ []) small (ground arith) st in
    let (t, e, stands) = after in
    let held : Stands t (record { held = some m; queue = [] }) = rw over at stands in
    let (code', written', _) = receive_held t m [] large (ground arith) held in
    rw (e, code, over)
      (
        refl,
        ground (arith, empty-poll t.inner held.on held.ring),
        rw fits at code',
        rw fits at written',
      )

-- the sizes that a ring takes
abbrev pub fits_ring : Message → Bool
fits_ring m = leb min_message_size (length m) && leb (length m) max_message_size

push-code :
    (q : List Message) (m : Message)
    → code_of (push q m).0 ≡ (if fits_ring m then success else error_invalid_param)
unfolding push from_error
push-code q m = ground arith

send_to_client_on :
    (s : SharedServer) (m : Message)
    → s.connected ≡ true
    → (send_to_client s m).0 ≡ (write_message s.view.ring_a m).0
unfolding send_to_client
send_to_client_on s m on = ground arith

-- On a connected server `shm_server_send` succeeds with a message of 2 to 65535 bytes, and refuses any
-- other as an invalid parameter. `shm_server_send_auto`, whose worker is running, does the same but that
-- it succeeds with a message of one byte too.
pub send_codes :
    (s : ServerState) (q : List Message) (h : Handle) (m : Message)
    → s.inner.connected ≡ true
    → Good s.inner.view.ring_a q
    → h.running ≡ true
    → h.receiving ≡ true
    → ((shm_server_send (some s) (some m)).0
        ≡ (if fits_ring m then success else error_invalid_param))
      × ((shm_server_send_auto (some h) (some m)).0
          ≡ (if fits_ring m || length m == 1 then success else error_invalid_param))
unfolding shm_server_send shm_server_send_auto auto_send
send_codes s q h m on good running receiving =
    let sent = send_to_client_on s.inner m on in
    let (written, _) = put_refines q m good in
    let code = push-code q m in (ground (arith, sent, written, code), ground arith)
