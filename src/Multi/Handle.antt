-- ===== src/Multi/Handle.antt =====
-- src/multi/mod.rs: what the owner of a `MultiClient` calls.
use xshm.Prelude.{ℕ, Bool, not, ◌==◌, if◌then◌else◌, List, [], ◌∷◌, ◌++◌}
use xshm.Constants.{slot_id_no_slot}
use xshm.Error.{Result, ok, err, not_ready}
use xshm.Multi.Client.{ClientCommand, send, shutdown}

-- `receiving` is false when the worker has gone; `slot_id` is the number that the worker stores.
pub record MultiClient : Type 0 where
  pub running : Bool
  pub receiving : Bool
  pub commands : List ClientCommand
  pub slot_id : ℕ

-- `cmd_tx.send`
abbrev pub post_command : MultiClient → ClientCommand → Result (Unit {0}) × MultiClient
post_command c command =
    if c.receiving
    then (ok tt, record c { commands = c.commands ++ command ∷ [] })
    else (err not_ready, c)

unfoldable pub client_send : MultiClient → List ℕ → Result (Unit {0}) × MultiClient
client_send c bytes = if c.running then post_command c (send bytes) else (err not_ready, c)

unfoldable pub client_is_connected : MultiClient → Bool
client_is_connected c = not (c.slot_id == slot_id_no_slot)

unfoldable pub client_stop : MultiClient → MultiClient
client_stop c = (post_command c shutdown).1
