-- ===== src/Dispatch/Drain.antt =====
-- src/dispatch/mod.rs: the lobby's worker at the end of `worker_loop`, with no worker of a channel that
-- waits for the map.
use xshm.Prelude.{ℕ, ◌≡◌, ◌≢◌, refl, arith, true, ==_refl, List, [], ◌∷◌, ◌++◌}
use xshm.Dispatch.{on_client_disconnect, DispatchedClient}
use xshm.Dispatch.Threads.{
  Channel, ended, serving, hanging_up, telling, draining, joining, done, Threads, update, ProxyStep,
  WorkerStep, Step, Later, Later-append,
}

-- What the worker of a channel does on its way to its end.
record Unchanged (s t : Threads) : Type 0 where
  same_lobby : t.lobby ≡ s.lobby
  same_clients : t.server.clients ≡ s.server.clients
  none_waits : (id : ℕ) → t.channel id ≢ hanging_up

abbrev Ends : (n : ℕ) (s : Threads) (id : ℕ) → Type 0
Ends n s id = (t : Threads) × Later n s n t × (t.channel id ≡ ended) × Unchanged s t

serving-Ends :
    {n : ℕ} (s : Threads) (id : ℕ)
    → s.channel id ≡ serving
    → s.stopped id ≡ true
    → ((j : ℕ) → s.channel j ≢ hanging_up)
    → Ends n s id
serving-Ends s id on over free = (
  record s { channel = update s.channel id ended },
  Later.after Later.now (Step.of_proxy (ProxyStep.leave id on over)),
  rw (==_refl id) refl,
  record { same_lobby = refl; same_clients = refl; none_waits = λ j e. ground (arith, free j) },
)

after_serving :
    {n : ℕ} {s t : Threads} {id : ℕ}
    → Step n s n t
    → t.lobby ≡ s.lobby
    → t.server.clients ≡ s.server.clients
    → Ends n t id
    → Ends n s id
after_serving step lobby clients (u, l, over, same) = (
  u,
  Later-append (Later.after Later.now step) l,
  over,
  record { same_lobby = cc; same_clients = cc; none_waits = same.none_waits },
)

channel-Ends :
    {n : ℕ} (s : Threads) (id : ℕ) (c : Channel)
    → s.channel id ≡ c
    → s.stopped id ≡ true
    → ((j : ℕ) → s.channel j ≢ hanging_up)
    → Ends n s id
channel-Ends s id ended e over free =
    (s, Later.now, e, record { same_lobby = refl; same_clients = refl; none_waits = free })
channel-Ends s id serving e over free = serving-Ends s id e over free
channel-Ends s id hanging_up e over free = absurd (free id e)
channel-Ends s id telling e over free =
    after_serving (Step.of_proxy (ProxyStep.tell_disconnect id e)) refl refl
      (serving-Ends _ id (rw (==_refl id) refl) over (λ j h. ground (arith, free j)))

-- The state in which the worker drops a client, and the state after that.
abbrev dropping : Threads → ℕ → List (ℕ × DispatchedClient) → Threads
dropping s id rest = record s {
  server = record (s.server) { clients = rest };
  told = s.told ++ on_client_disconnect id ∷ [];
  stopped = update s.stopped id true;
  lobby = joining id;
}

-- If no worker of a channel is in `on_disconnect` and waits for the map, then the lobby's worker, which
-- holds the map, can stop every client that is in it, join each worker, and end with the map empty.
pub drain_ends :
    {n : ℕ} (clients : List (ℕ × DispatchedClient)) (s : Threads)
    → s.server.clients ≡ clients
    → s.lobby ≡ draining
    → ((id : ℕ) → s.channel id ≢ hanging_up)
    → (t : Threads) × Later n s n t × (t.lobby ≡ done) × (t.server.clients ≡ [])
drain_ends [] s e on free = (
  record s { lobby = done },
  Later.after Later.now (Step.of_worker (WorkerStep.unlock on e)),
  refl,
  e,
)
drain_ends ((id, c) ∷ rest) s e on free =
    let (t, stops, over, same) =
      channel-Ends (dropping s id rest) id (s.channel id) refl (rw (==_refl id) refl) free in
    let at : t.lobby ≡ joining id = same.same_lobby in
    let (u, drains, finish, empty) =
      drain_ends rest (record t { lobby = draining }) same.same_clients refl same.none_waits in
    (
      u,
      Later-append (Later.after Later.now (Step.of_worker (WorkerStep.drain_next on e))) (
          Later-append stops (
            Later-append (Later.after Later.now (Step.of_worker (WorkerStep.joined at over)))
              drains)),
      finish,
      empty,
    )
