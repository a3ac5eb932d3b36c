-- ===== src/Auto/Link.antt =====
-- The endpoints that the passes of src/auto/mod.rs work on, each end of a connection as two queues.
use xshm.Prelude.{◌≡◌, arith, true, List}
use xshm.Ring.Queue.{Message}
use xshm.Ring.Runs.{Good, push, pop, put_refines, get_refines}
use xshm.Segment.{Segment}
use xshm.Server.{SharedServer, send_to_client, receive_from_client}
use xshm.Client.{SharedClient, send_to_server, receive_from_server}
use xshm.Auto.{Endpoint, server_endpoint, client_endpoint}

-- An endpoint of a connection that stands for two queues: of what it has sent and of what it has not
-- received yet.
pub record IsLink {E : Type 0} (io : Endpoint E) (Link : E → List Message → List Message → Type 0)
    : Type 0 where
  pub write_refines :
      (e : E) (out inn : List Message) (m : Message)
      → Link e out inn
      → ((io.write e m).0 ≡ (push out m).0) × Link (io.write e m).1 (push out m).1 inn
  pub read_refines :
      (e : E) (out inn : List Message)
      → Link e out inn
      → ((io.read e).0 ≡ (pop inn).0) × Link (io.read e).1 out (pop inn).1

pub record ServerLink (s : SharedServer) (out inn : List Message) : Type 0 where
  pub on : s.connected ≡ true
  pub down : Good s.view.ring_a out
  pub up : Good s.view.ring_b inn

pub record ClientLink (e : SharedClient × Segment) (out inn : List Message) : Type 0 where
  pub on : e.0.connected ≡ true
  pub up : Good e.1.ring_b out
  pub down : Good e.1.ring_a inn

pub server-IsLink : IsLink server_endpoint ServerLink
unfolding send_to_client receive_from_client
server-IsLink = record {
  write_refines = λ s out inn m l. ground (arith, put_refines out m l.down);
  read_refines = λ s out inn l. ground (arith, get_refines inn l.up);
}

pub client-IsLink : IsLink client_endpoint ClientLink
unfolding send_to_server receive_from_server
client-IsLink = record {
  write_refines = λ e out inn m l. ground (arith, put_refines out m l.up);
  read_refines = λ e out inn l. ground (arith, get_refines inn l.down);
}
