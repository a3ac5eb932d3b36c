-- ===== src/Tests/Workers.antt =====
-- The workers of src/auto/mod.rs on small queues.
use xshm.Prelude.{◌+◌, ◌≡◌, ◌&&◌, refl, arith, inl, true, false, not, none, some, List, [], ◌∷◌}
use xshm.Error.{ok}
use xshm.Ring.Runs.{push}
use xshm.Server.{SharedServer, publish, expires}
use xshm.Auto.{
  server_to_client, client_to_server, AutoOptions, AutoStats, WorkerCommand, send, shutdown,
  drain_commands, server_endpoint, process_send_queue, process_receive_queue,
}
use xshm.Auto.Queue.{last, sends, has_shutdown, drain_commands-last}
use xshm.Auto.Link.{ServerLink, server-IsLink}
use xshm.Auto.Traffic.{
  AllSent, Received, process_send_queue-AllSent, process_receive_queue-Received, send_passes,
  bad_message_blocks,
}
use xshm.Auto.Worker.{ServerWorker, Round}
use xshm.Auto.Quiet.{connects, disconnects, hang_ups}
use xshm.Auto.Reconnect.{ClientRound, Attempt, client_worker}
use xshm.Auto.Attempts.{client_worker-even}
use xshm.Tests.Rings.{short_message, long_message, empty_ring-Good, ring_of_one-Good}
use xshm.Tests.Sessions.{some_server}

abbrev some_options : AutoOptions
some_options = record { max_send_queue = 2; recv_batch = 0 }

abbrev some_stats : AutoStats
some_stats = record {
  sent_messages = 18446744073709551615;
  send_overflows = 0;
  received_messages = 4;
}

abbrev some_commands : List WorkerCommand
some_commands = send (1 ∷ 1 ∷ []) ∷ shutdown ∷ send (2 ∷ 2 ∷ []) ∷ []

drain_commands-last_example :
    drain_commands some_options some_commands (short_message ∷ []) true
    ≡ (last 2 (short_message ∷ sends some_commands), true && not (has_shutdown some_commands))
drain_commands-last_example =
    drain_commands-last some_options some_commands (short_message ∷ []) true (omega arith)

abbrev linked : SharedServer
linked = record some_server { connected = true }

linked-ServerLink : ServerLink linked (push [] short_message).1 []
linked-ServerLink = record { on = refl; down = ring_of_one-Good; up = empty_ring-Good }

process_send_queue-AllSent_example :
    AllSent server_endpoint ServerLink server-IsLink server_to_client linked
      (push [] short_message).1
      []
      (long_message ∷ short_message ∷ [])
      some_stats
      (process_send_queue server_endpoint server_to_client linked
        (long_message ∷ short_message ∷ [])
        some_stats)
process_send_queue-AllSent_example =
    process_send_queue-AllSent server_endpoint ServerLink server-IsLink server_to_client linked
      (push [] short_message).1 [] (long_message ∷ short_message ∷ []) some_stats linked-ServerLink
      ((omega arith, omega arith), ((omega arith, omega arith), tt)) (omega arith) (omega arith)

process_receive_queue-Received_example :
    Received server_endpoint ServerLink server-IsLink client_to_server linked
      (push [] short_message).1
      []
      1
      (process_receive_queue server_endpoint client_to_server 0 linked some_stats)
process_receive_queue-Received_example =
    process_receive_queue-Received server_endpoint ServerLink server-IsLink client_to_server 0
      linked (push [] short_message).1 [] some_stats linked-ServerLink

bad_message_blocks_example :
    let s =
      send_passes server_endpoint ServerLink server-IsLink server_to_client 3 linked
        ((7 ∷ []) ∷ long_message ∷ [])
        some_stats in
    ServerLink s.endpoint (push [] short_message).1 []
    × (s.queue ≡ (7 ∷ []) ∷ long_message ∷ [])
    × (s.stats ≡ some_stats)
bad_message_blocks_example =
    bad_message_blocks server_endpoint ServerLink server-IsLink server_to_client 3 linked
      (push [] short_message).1 [] (7 ∷ []) (long_message ∷ []) some_stats linked-ServerLink
      (inl (omega arith))

abbrev some_worker : ServerWorker
some_worker = record {
  server = some_server;
  connected = false;
  send_queue = [];
  stats = some_stats;
  running = true;
}

abbrev some_rounds : List Round
some_rounds =
    record {
      waited = ok true;
      acked = ok tt;
      polls = expires 0;
      commands = some_commands;
      woken = ok none;
    }
    ∷ record {
      waited = ok true;
      acked = ok tt;
      polls = expires 0;
      commands = [];
      woken = ok (some 0);
    }
    ∷ []

-- a client that connects, is woken by a message and then by the server's end, and connects again until
-- it is told to shut down
abbrev some_attempt : List ClientRound → Attempt
some_attempt rounds = record {
  found_running = true;
  view = some_server.view;
  mapped = ok tt;
  opened = ok tt;
  requested = ok tt;
  during = λ v. (publish v);
  acked = ok true;
  rounds = rounds;
  no_delay = true;
  loads = [];
  last = true;
}

abbrev some_client_rounds : List WorkerCommand → List ClientRound
some_client_rounds commands =
    record { commands = []; during = λ v. v; woken = ok (some 1) }
    ∷ record { commands = commands; during = λ v. v; woken = ok (some 0) }
    ∷ []

abbrev some_attempts : List Attempt
some_attempts =
    some_attempt (some_client_rounds [])
    ∷ some_attempt (record { commands = some_commands; during = λ v. v; woken = ok none } ∷ [])
    ∷ []

client_worker-even_example :
    let es = client_worker some_options some_attempts [] some_stats true in
    connects es ≡ disconnects es + hang_ups es
client_worker-even_example = client_worker-even some_options some_attempts [] some_stats true
