-- ===== src/Multi/Runs.antt =====
-- Every history of a `MultiServer` of src/multi/mod.rs: calls of its methods, turns of its worker, and
-- whatever the clients write to the shared segments.
use xshm.Prelude.{ℕ, ◌+◌, ◌≡◌, refl, ap, arith, List, [], ◌∷◌, ◌++◌}
use xshm.Error.{Result, ok}
use xshm.Segment.{Segment}
use xshm.Multi.Slots.{ClientSlot, Effect}
use xshm.Multi.Calls.{
  MultiServer, start, send_to, broadcast, disconnect_client, is_client_connected, on_slot,
}
use xshm.Multi.Worker.{Turn, iterate}
use xshm.Multi.Moves.{flag, connects, disconnects, SlotMoves, Silent-SlotMoves, set_events-Silent}
use xshm.Multi.Invariant.{IsMulti, Moves, Moves-none, Moves-then, on_slot-Moves}
use xshm.Multi.Turns.{iterate-Moves}
use xshm.Multi.Sends.{send_to-Moves, disconnect_client-Moves, broadcast-Moves}
use xshm.Multi.Start.{start-IsMulti}

-- What can happen to a server: `writes` is a client that changes the memory of a slot in any way.
pub data Call : Type 0 where
  turn : Turn → Call
  sends : (id : ℕ) (bytes : List ℕ) → Call
  broadcasts : (bytes : List ℕ) → Call
  disconnects_client : (id : ℕ) → Call
  writes : (id : ℕ) (change : Segment → Segment) → Call

abbrev write_slot : (Segment → Segment) → ClientSlot → ClientSlot × List Effect
write_slot change slot =
    (record slot { server = record (slot.server) { view = change slot.server.view } }, [])

unfoldable pub perform : MultiServer → Call → MultiServer × List Effect
perform m (turn t) = iterate t m
perform m (sends id bytes) = let (res, m', es) = send_to id bytes m in (m', es)
perform m (broadcasts bytes) = let (count, m', es) = broadcast bytes m in (m', es)
perform m (disconnects_client id) = let (res, m', es) = disconnect_client id m in (m', es)
perform m (writes id change) = on_slot (write_slot change) id m

unfoldable pub history : MultiServer → List Call → MultiServer × List Effect
history m [] = (m, [])
history m (c ∷ cs) =
    let (m', es) = perform m c in let (last, more) = history m' cs in (last, es ++ more)

write_slot-SlotMoves :
    (change : Segment → Segment) (slot : ClientSlot) → SlotMoves slot (write_slot change slot)
write_slot-SlotMoves change slot =
    Silent-SlotMoves slot _ [] (set_events-Silent slot.id [])
      (λ h. record { same = h.same; events = h.events }) refl refl

-- Every call keeps the invariant and tells the handler the truth.
perform-Moves : (m : MultiServer) (c : Call) → IsMulti m → Moves m (perform m c)
unfolding perform
perform-Moves m (turn t) v = iterate-Moves t m v
perform-Moves m (sends id bytes) v = send_to-Moves id bytes m v
perform-Moves m (broadcasts bytes) v = broadcast-Moves bytes m v
perform-Moves m (disconnects_client id) v = disconnect_client-Moves id m v
perform-Moves m (writes id change) v = on_slot-Moves _ (write_slot-SlotMoves change) id m v

history-Moves : (m : MultiServer) (cs : List Call) → IsMulti m → Moves m (history m cs)
unfolding history
history-Moves m [] v = Moves-none m v
history-Moves m (c ∷ cs) v =
    let first = perform-Moves m c v in
    Moves-then m _ _ _ first (history-Moves (perform m c).0 cs first.keeps)

-- After any history of a started server, whatever the clients write and the operating system answers:
-- each slot stands at the index that is its id, agrees with its server on whether it is connected, and
-- for each client the handler has been told of just as many connections as disconnections, and of one
-- more exactly when the client is connected.
pub history_balance :
    (mapped : ℕ → Result Segment) (created : ℕ → Result (Unit {0})) (max_clients recv_batch : ℕ)
    (cs : List Call) {m : MultiServer}
    → start mapped created max_clients recv_batch ≡ ok m
    → let (last, es) = history m cs in
      IsMulti last
      × ((id : ℕ) → connects id es ≡ disconnects id es + flag (is_client_connected id last))
history_balance mapped created max_clients recv_batch cs {m} e =
    let (v, off) = start-IsMulti mapped created max_clients recv_batch e in
    let moves = history-Moves m cs v in
    (moves.keeps, λ id. omega (arith, moves.balance id, ap flag (off id)))
