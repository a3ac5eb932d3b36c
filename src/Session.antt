-- ===== src/Session.antt =====
-- A server of src/server.rs and a client of src/client.rs on one segment, each making its calls.
pub mod Handshake
pub mod Duplex
pub mod Signals
use xshm.Prelude.{ℕ, List, [], ◌∷◌, ◌++◌}
use xshm.Error.{Result, ok, err}
use xshm.Ring.{WriteOutcome}
use xshm.Segment.{Segment, Event}
use xshm.Server.{SharedServer, send_to_client, receive_from_client}
use xshm.Client.{SharedClient, send_to_server, receive_from_server}

-- The client's view is the server's.
pub record World : Type 0 where
  pub server : SharedServer
  pub client : SharedClient

pub data Act : Type 0 where
  server_send : List ℕ → Act
  server_receive : Act
  client_send : List ℕ → Act
  client_receive : Act

pub data Answer : Type 0 where
  sent : Result WriteOutcome → Answer
  received : Result (List ℕ) → Answer

-- The world with the segment as a client's call leaves it.
abbrev pub with_view : World → Segment → World
with_view w v = record w { server = record (w.server) { view = v } }

unfoldable pub step : World → Act → Answer × World × List Event
step w (server_send m) =
    let (res, s, events) = send_to_client w.server m in (sent res, record w { server = s }, events)
step w server_receive =
    let (res, s, events) = receive_from_client w.server in
    (received res, record w { server = s }, events)
step w (client_send m) =
    let (res, v, events) = send_to_server w.client m w.server.view in
    (sent res, with_view w v, events)
step w client_receive =
    let (res, v, events) = receive_from_server w.client w.server.view in
    (received res, with_view w v, events)

unfoldable pub run : World → List Act → List Answer × World × List Event
run w [] = ([], w, [])
run w (a ∷ acts) =
    let (answer, w', events) = step w a in
    let (answers, last, more) = run w' acts in (answer ∷ answers, last, events ++ more)
