-- ===== src/Session/Duplex.antt =====
-- A connected session of Session.antt and two queues, one for each direction.
use xshm.Prelude.{◌≡◌, refl, ap₂, arith, true, List, [], ◌∷◌}
use xshm.Ring.Queue.{Message}
use xshm.Ring.Runs.{Good, push, pop, put_refines, get_refines}
use xshm.Server.{send_to_client, receive_from_client}
use xshm.Client.{send_to_server, receive_from_server}
use xshm.Session.{
  World, Act, server_send, server_receive, client_send, client_receive, Answer, sent, received,
  step, run,
}

-- the messages on their way to the client, and to the server
pub record Queues : Type 0 where
  pub down : List Message
  pub up : List Message

unfoldable pub step_queues : Queues → Act → Answer × Queues
step_queues q (server_send m) = let (res, l) = push q.down m in (sent res, record q { down = l })
step_queues q server_receive = let (res, l) = pop q.up in (received res, record q { up = l })
step_queues q (client_send m) = let (res, l) = push q.up m in (sent res, record q { up = l })
step_queues q client_receive = let (res, l) = pop q.down in (received res, record q { down = l })

unfoldable pub run_queues : Queues → List Act → List Answer × Queues
run_queues q [] = ([], q)
run_queues q (a ∷ acts) =
    let (answer, q') = step_queues q a in
    let (answers, last) = run_queues q' acts in (answer ∷ answers, last)

-- Both ends are connected, and the rings stand for the queues.
pub record IsSession (w : World) (q : Queues) : Type 0 where
  pub server_on : w.server.connected ≡ true
  pub client_on : w.client.connected ≡ true
  pub down : Good w.server.view.ring_a q.down
  pub up : Good w.server.view.ring_b q.up

pub step_refines :
    (w : World) (q : Queues) (a : Act)
    → IsSession w q
    → ((step w a).0 ≡ (step_queues q a).0) × IsSession (step w a).1 (step_queues q a).1
unfolding step step_queues send_to_client receive_from_client send_to_server receive_from_server
step_refines w q (server_send m) s = ground (arith, put_refines q.down m s.down)
step_refines w q server_receive s = ground (arith, get_refines q.up s.up)
step_refines w q (client_send m) s = ground (arith, put_refines q.up m s.up)
step_refines w q client_receive s = ground (arith, get_refines q.down s.down)

-- In a connected session, whatever the two sides send and receive in whatever order, each answer is
-- that of two separate queues, and the rings stand for those queues at the end: the directions do not
-- disturb each other.
pub run_duplex :
    (w : World) (q : Queues) (acts : List Act)
    → IsSession w q
    → ((run w acts).0 ≡ (run_queues q acts).0) × IsSession (run w acts).1 (run_queues q acts).1
unfolding run run_queues
run_duplex w q [] s = (refl, s)
run_duplex w q (a ∷ acts) s =
    let (answer, s') = step_refines w q a s in
    let (answers, last) = run_duplex (step w a).1 (step_queues q a).1 acts s' in
    (ap₂ ◌∷◌ answer answers, last)
