-- ===== src/Dispatch/Stuck.antt =====
-- src/dispatch/mod.rs: the lobby's worker that drains the map, and a worker of a channel that wants it.
use xshm.Prelude.{ℕ, ◌≡◌, arith}
use xshm.Dispatch.Threads.{
  hanging_up, joining, Threads, unlinked, PendingStep, ProxyStep, WorkerStep, CallerStep, Step,
  Later,
}

-- The lobby's worker joins the worker of the channel, which waits for the map.
record Deadlock (id : ℕ) (s : Threads) : Type 0 where
  join : s.lobby ≡ joining id
  wait : s.channel id ≡ hanging_up

PendingStep-Deadlock : {s t : Threads} (id : ℕ) → PendingStep s t → Deadlock id s → Deadlock id t
PendingStep-Deadlock id (PendingStep.give_up j h) d = record { join = d.join; wait = d.wait }
PendingStep-Deadlock id (PendingStep.check j h on running) d = record {
  join = d.join;
  wait = d.wait;
}
PendingStep-Deadlock id (PendingStep.put j h free) d = record { join = d.join; wait = d.wait }
PendingStep-Deadlock id (PendingStep.notify j h) d = record { join = d.join; wait = d.wait }

ProxyStep-Deadlock : {s t : Threads} (id : ℕ) → ProxyStep s t → Deadlock id s → Deadlock id t
unfolding unlinked
ProxyStep-Deadlock id (ProxyStep.on_connect j h) d = record { join = d.join; wait = d.wait }
ProxyStep-Deadlock id (ProxyStep.enter_on_disconnect j h) d = ground arith
ProxyStep-Deadlock id (ProxyStep.unlink j h free) d = ground arith
ProxyStep-Deadlock id (ProxyStep.tell_disconnect j h) d = ground arith
ProxyStep-Deadlock id (ProxyStep.message j bytes h) d = record { join = d.join; wait = d.wait }
ProxyStep-Deadlock id (ProxyStep.error j e h) d = record { join = d.join; wait = d.wait }
ProxyStep-Deadlock id (ProxyStep.leave j h over) d = ground arith

WorkerStep-Deadlock : {s t : Threads} (id : ℕ) → WorkerStep s t → Deadlock id s → Deadlock id t
WorkerStep-Deadlock id (WorkerStep.lock h off) d = ground arith
WorkerStep-Deadlock id (WorkerStep.drain_next h e) d = ground arith
WorkerStep-Deadlock id (WorkerStep.joined h over) d = ground arith
WorkerStep-Deadlock id (WorkerStep.unlock h e) d = ground arith

CallerStep-Deadlock : {s t : Threads} (id : ℕ) → CallerStep s t → Deadlock id s → Deadlock id t
CallerStep-Deadlock id (CallerStep.take_out j h free) d = record { join = d.join; wait = d.wait }
CallerStep-Deadlock id (CallerStep.tell_left j h) d = record { join = d.join; wait = d.wait }
CallerStep-Deadlock id CallerStep.begin_stop d = record { join = d.join; wait = d.wait }

Step-Deadlock : {n k : ℕ} {s t : Threads} (id : ℕ) → Step n s k t → Deadlock id s → Deadlock id t
Step-Deadlock id (Step.of_pending step) d = PendingStep-Deadlock id step d
Step-Deadlock id (Step.of_proxy step) d = ProxyStep-Deadlock id step d
Step-Deadlock {n} {k} {s} id (Step.accept c h) d = ground arith
Step-Deadlock id (Step.of_worker step) d = WorkerStep-Deadlock id step d
Step-Deadlock id (Step.of_caller step) d = CallerStep-Deadlock id step d

Later-Deadlock :
    {n : ℕ} {s : Threads} {k : ℕ} {t : Threads} (id : ℕ)
    → Later n s k t
    → Deadlock id s
    → Deadlock id t
Later-Deadlock id Later.now d = d
Later-Deadlock id (Later.after l step) d = Step-Deadlock id step (Later-Deadlock id l d)

-- If the lobby's worker, at the end of a server, joins the worker of a channel that is in
-- `on_disconnect` and has not got the map yet, then both stay where they are whatever any thread does
-- from then on: the server is never stopped.
pub joining_stuck :
    {n k : ℕ} {s t : Threads} (id : ℕ)
    → s.lobby ≡ joining id
    → s.channel id ≡ hanging_up
    → Later n s k t
    → (t.lobby ≡ joining id) × (t.channel id ≡ hanging_up)
joining_stuck id join wait l =
    let d = Later-Deadlock id l (record { join = join; wait = wait }) in (d.join, d.wait)
