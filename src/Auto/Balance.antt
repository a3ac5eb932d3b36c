-- ===== src/Auto/Balance.antt =====
-- What the worker of `AutoServer` in src/auto/mod.rs tells its handler of connections.
use xshm.Prelude.{◌+◌, ◌≡◌, arith, Bool, true, false, List, ◌++◌}
use xshm.Error.{Result, ok, err}
use xshm.Auto.{Effect}
use xshm.Auto.Worker.{ServerWorker}
use xshm.Auto.Quiet.{Quiet, connects, connects-append, disconnects, flag}

-- The worker and its server agree on whether they are connected, and the connections and the ends that
-- the handler is told of add up.
pub record Balanced (w : ServerWorker) (out : ServerWorker × List Effect) : Type 0 where
  pub agree : out.0.connected ≡ out.0.server.connected
  pub balance : connects out.1 + flag w.connected ≡ disconnects out.1 + flag out.0.connected

-- the end of a round, for a worker that has been connected all along
one_connects : (es fs : List Effect) → Quiet es → connects fs ≡ 0 → connects (es ++ fs) ≡ 0
one_connects es fs q h = omega (arith, connects-append es fs, q.no_connects)

abbrev is_ok : Result (Unit {0}) → Bool
is_ok (ok _) = true
is_ok (err _) = false
