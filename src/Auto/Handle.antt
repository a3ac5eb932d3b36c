-- ===== src/Auto/Handle.antt =====
-- src/auto/mod.rs: what the owner of an `AutoServer` or an `AutoClient` calls. The two structs have
-- the same fields and the same bodies, and are one record here.
use xshm.Prelude.{ℕ, Bool, if◌then◌else◌, List, [], ◌∷◌, ◌++◌}
use xshm.Error.{Result, ok, err, not_ready}
use xshm.Auto.{WorkerCommand, send, shutdown}

-- `receiving` is false when the worker has gone and has dropped its end of the channel; `commands` are
-- on their way to the worker.
pub record Handle : Type 0 where
  pub running : Bool
  pub receiving : Bool
  pub commands : List WorkerCommand

-- `cmd_tx.send`
abbrev pub post : Handle → WorkerCommand → Result (Unit {0}) × Handle
post h command =
    if h.receiving
    then (ok tt, record h { commands = h.commands ++ command ∷ [] })
    else (err not_ready, h)

unfoldable pub auto_send : Handle → List ℕ → Result (Unit {0}) × Handle
auto_send h bytes = if h.running then post h (send bytes) else (err not_ready, h)

-- `let _ = cmd_tx.send(Shutdown)`
unfoldable pub auto_stop : Handle → Handle
auto_stop h = (post h shutdown).1
