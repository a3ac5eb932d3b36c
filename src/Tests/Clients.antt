-- ===== src/Tests/Clients.antt =====
-- The worker of a `MultiClient` of src/multi/mod.rs, and slots that their clients have left.
use xshm.Prelude.{◌≡◌, refl, arith, inr, true, none, [], ◌∷◌, ltb}
use xshm.Error.{ok}
use xshm.Ring.{message_count}
use xshm.Ring.Runs.{push}
use xshm.Client.{SharedClient}
use xshm.Auto.Link.{ClientLink}
use xshm.Multi.Calls.{MultiServer}
use xshm.Multi.Invariant.{IsMulti}
use xshm.Multi.Client.{send, shutdown, ClientRound, receive_all, use_slot, is_connected}
use xshm.Multi.Delivery.{ReceivedAll, receive_all-ReceivedAll, shutdown_stays_connected}
use xshm.Multi.Sweep.{sweep_slot, GivenUp, sweep_slot-GivenUp}
use xshm.Tests.Rings.{short_message, empty_ring-Good, ring_of_one-Good}
use xshm.Tests.Sessions.{some_segment}
use xshm.Tests.Slots.{held_slot, fresh_slot}

abbrev some_client : SharedClient
some_client = record { connected = true }

some_client-ClientLink : ClientLink (some_client, some_segment) [] (push [] short_message).1
some_client-ClientLink = record { on = refl; up = empty_ring-Good; down = ring_of_one-Good }

receive_all-ReceivedAll_example :
    ReceivedAll some_client []
      (push [] short_message).1
      (receive_all (message_count some_segment.ring_a) some_client some_segment)
receive_all-ReceivedAll_example =
    receive_all-ReceivedAll some_client some_segment [] (push [] short_message).1
      some_client-ClientLink

abbrev last_round : ClientRound
last_round = record {
  during = λ v. v;
  commands = send (5 ∷ 6 ∷ []) ∷ shutdown ∷ [];
  woken = ok none;
}

shutdown_stays_connected_example :
    is_connected (use_slot 4 2 99 (ok some_client, some_segment) (last_round ∷ [])).0 ≡ true
shutdown_stays_connected_example =
    shutdown_stays_connected 4 2 99 some_client some_segment last_round [] (λ e. omega (arith, e))
      refl refl

abbrev pub mixed_slots : MultiServer
mixed_slots = record { slots = held_slot ∷ fresh_slot 1 ∷ []; max_clients = 2; recv_batch = 8 }

pub mixed_slots-IsMulti : IsMulti mixed_slots
mixed_slots-IsMulti = record {
  ids = (
    refl,
    record { same = refl; events = refl },
    (refl, record { same = refl; events = refl }, tt),
  );
  all_slots = refl;
  limit = omega arith;
}

sweep_slot-GivenUp_example : GivenUp held_slot (sweep_slot (λ pid. ltb pid 900) 5000 held_slot)
sweep_slot-GivenUp_example =
    sweep_slot-GivenUp (λ pid. ltb pid 900) 5000 held_slot refl (inr (refl, refl))
