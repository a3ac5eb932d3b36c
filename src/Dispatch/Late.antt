-- ===== src/Dispatch/Late.antt =====
-- src/dispatch/mod.rs: the thread of a client that has seen the server running, when the lobby's worker
-- has ended.
use xshm.Prelude.{ℕ, ◌≡◌, refl, arith, false, ==_refl, some, [], ◌∷◌, ◌++◌}
use xshm.Dispatch.{on_client_connect, DispatchedClient}
use xshm.Dispatch.ClientMap.{get, insert}
use xshm.Dispatch.Threads.{
  checked, notifying, finished, done, Threads, update, tell, with_clients, PendingStep, Step, Later,
}

-- the two steps that are left to the thread
abbrev entered : Threads → ℕ → DispatchedClient → Threads
entered s id c =
    record (with_clients s (insert id (record c { disconnected = false }) s.server.clients)) {
      pending = update s.pending id (notifying c.info);
    }

abbrev notified : Threads → ℕ → DispatchedClient → Threads
notified s id c = record (tell (entered s id c) (on_client_connect id c.info)) {
  pending = update (update s.pending id (notifying c.info)) id finished;
}

-- A thread that has seen the server running when the lobby's worker had not drained the map yet, but has
-- not put its client into the map, does so after the drain, and tells the handler of a new client: the
-- worker has ended, its `AutoServer` is not told to stop, and the client stays in the map of the
-- server.
pub late_connect :
    {n : ℕ} {s : Threads} {c : DispatchedClient} (id : ℕ)
    → s.lobby ≡ done
    → s.pending id ≡ checked c
    → (t : Threads) × Later n s n t
      × (t.lobby ≡ done)
      × (t.pending id ≡ finished)
      × (t.stopped id ≡ s.stopped id)
      × (get id t.server.clients ≡ some (record c { disconnected = false }))
      × (t.told ≡ s.told ++ on_client_connect id c.info ∷ [])
late_connect {n} {s} {c} id over at = (
  notified s id c,
  Later.after
      (Later.after Later.now (Step.of_pending (PendingStep.put id at (ground (arith, over)))))
      (Step.of_pending (PendingStep.notify id (rw (==_refl id) refl))),
  over,
  rw (==_refl id) refl,
  refl,
  rw (==_refl id) refl,
  refl,
)
