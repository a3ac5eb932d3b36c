-- ===== src/Dispatch/Threads.antt =====
-- src/dispatch/mod.rs: the threads of a `DispatchServer`, in steps that other threads can come between:
-- the worker of the lobby, for each registered client the thread that waits for its channel and the
-- worker of its `AutoServer`, and the callers of the server.
use xshm.Prelude.{
  ℕ, suc, ◌+◌, ◌%◌, ◌^◌, ◌≡◌, Bool, true, false, ◌==◌, if◌then◌else◌, some, List, [], ◌∷◌, ◌++◌,
}
use xshm.Error.{ShmError}
use xshm.Dispatch.ClientMap.{get, remove, insert}
use xshm.Dispatch.{
  ClientRegistration, Call, on_client_connect, on_client_disconnect, on_message, on_error,
  DispatchedClient, DispatchServer, proxy_on_disconnect,
}

-- The thread of one client: it waits for the signal that the channel is connected, has seen it while
-- the server was running, has put the client into the map, has told the handler; or it has given up.
pub data Pending : Type 0 where
  absent : Pending
  waiting : (c : DispatchedClient) → Pending
  checked : (c : DispatchedClient) → Pending
  notifying : (info : ClientRegistration) → Pending
  finished : Pending
  gave_up : Pending

-- The worker of one `AutoServer`: in `hanging_up` it is in `on_disconnect` and wants the map, in
-- `telling` it has taken its client out and has not told the handler yet.
pub data Channel : Type 0 where
  ended : Channel
  serving : Channel
  hanging_up : Channel
  telling : Channel

-- The worker of the lobby. While it is draining or joining it holds the map for itself; it joins the
-- worker of a channel when it drops the client.
pub data Lobby : Type 0 where
  accepting : Lobby
  draining : Lobby
  joining : (id : ℕ) → Lobby
  done : Lobby

pub record Threads : Type 0 where
  pub server : DispatchServer
  pub pending : ℕ → Pending
  pub signal : ℕ → Bool
  pub channel : ℕ → Channel
  pub stopped : ℕ → Bool
  pub leaving : ℕ → ℕ
  pub lobby : Lobby
  pub told : List Call

-- the thread, flag or count of one client, replaced
abbrev pub update {ℓ} : {A : Type ℓ} → (ℕ → A) → ℕ → A → ℕ → A
update f id a j = if j == id then a else f j

-- whether the lobby's worker holds the map
abbrev pub is_locked : Lobby → Bool
is_locked draining = true
is_locked (joining id) = true
is_locked _ = false

-- `fetch_add` of an `AtomicU32`
abbrev pub next_id : ℕ → ℕ
next_id id = (id + 1) % 2 ^ 32

-- `DispatchServer::start`
abbrev pub init : Threads
init = record {
  server = record { clients = []; running = true; next_client_id = 1 };
  pending = λ _. absent;
  signal = λ _. false;
  channel = λ _. ended;
  stopped = λ _. false;
  leaving = λ _. 0;
  lobby = accepting;
  told = [];
}

abbrev pub with_clients : Threads → List (ℕ × DispatchedClient) → Threads
with_clients s clients = record s { server = record (s.server) { clients = clients } }

abbrev pub tell : Threads → Call → Threads
tell s call = record s { told = s.told ++ call ∷ [] }

-- The end of `handle_lobby_client`: a client that has been given an id and a channel, and its threads.
abbrev pub register : Threads → DispatchedClient → Threads
register s c =
    let id = s.server.next_client_id in
    record s {
      server = record (s.server) { next_client_id = next_id id };
      pending = update s.pending id (waiting c);
      signal = update s.signal id false;
      channel = update s.channel id serving;
      stopped = update s.stopped id false;
    }

-- The thread that waits for the channel. It may give up at any time, since its time may be over.
pub data PendingStep (s : Threads) : Threads → Type 0 where
  give_up :
      (id : ℕ) {c : DispatchedClient}
      → s.pending id ≡ waiting c
      → PendingStep s
          (record s { pending = update s.pending id gave_up; stopped = update s.stopped id true })
  check :
      (id : ℕ) {c : DispatchedClient}
      → s.pending id ≡ waiting c
      → s.signal id ≡ true
      → s.server.running ≡ true
      → PendingStep s (record s { pending = update s.pending id (checked c) })
  put :
      (id : ℕ) {c : DispatchedClient}
      → s.pending id ≡ checked c
      → is_locked s.lobby ≡ false
      → PendingStep s
          (record (with_clients s
            (insert id (record c { disconnected = false }) s.server.clients)) {
              pending = update s.pending id (notifying c.info);
            })
  notify :
      (id : ℕ) {info : ClientRegistration}
      → s.pending id ≡ notifying info
      → PendingStep s
          (record (tell s (on_client_connect id info)) { pending = update s.pending id finished })

-- `on_disconnect` of the proxy, while it holds the map
unfoldable pub unlinked : Threads → ℕ → Threads
unfolding proxy_on_disconnect
unlinked s id =
    let (removed, clients) = proxy_on_disconnect id s.server.clients in
    record (with_clients s clients) {
      channel = update s.channel id (if removed then telling else serving);
      stopped = update s.stopped id (if removed then true else s.stopped id);
    }

-- The worker of the channel, in the calls of `AutoProxyHandler`. A client that it takes out is dropped,
-- and so stopped, by a thread of its own.
pub data ProxyStep (s : Threads) : Threads → Type 0 where
  on_connect :
      (id : ℕ)
      → s.channel id ≡ serving
      → ProxyStep s (record s { signal = update s.signal id true })
  enter_on_disconnect :
      (id : ℕ)
      → s.channel id ≡ serving
      → ProxyStep s (record s { channel = update s.channel id hanging_up })
  unlink :
      (id : ℕ) → s.channel id ≡ hanging_up → is_locked s.lobby ≡ false → ProxyStep s (unlinked s id)
  tell_disconnect :
      (id : ℕ)
      → s.channel id ≡ telling
      → ProxyStep s
          (record (tell s (on_client_disconnect id)) { channel = update s.channel id serving })
  message :
      (id : ℕ) (bytes : List ℕ)
      → s.channel id ≡ serving
      → ProxyStep s (tell s (on_message id bytes))
  error :
      (id : ℕ) (e : ShmError) → s.channel id ≡ serving → ProxyStep s (tell s (on_error (some id) e))
  leave :
      (id : ℕ)
      → s.channel id ≡ serving
      → s.stopped id ≡ true
      → ProxyStep s (record s { channel = update s.channel id ended })

-- The worker of the lobby, at the end of `worker_loop`.
pub data WorkerStep (s : Threads) : Threads → Type 0 where
  lock :
      s.lobby ≡ accepting → s.server.running ≡ false → WorkerStep s (record s { lobby = draining })
  drain_next :
      {id : ℕ} {c : DispatchedClient} {rest : List (ℕ × DispatchedClient)}
      → s.lobby ≡ draining
      → s.server.clients ≡ (id, c) ∷ rest
      → WorkerStep s (record (tell (with_clients s rest) (on_client_disconnect id)) {
        stopped = update s.stopped id true;
        lobby = joining id;
      })
  joined :
      {id : ℕ}
      → s.lobby ≡ joining id
      → s.channel id ≡ ended
      → WorkerStep s (record s { lobby = draining })
  unlock : s.lobby ≡ draining → s.server.clients ≡ [] → WorkerStep s (record s { lobby = done })

-- The callers of `disconnect_client` and `stop`. `leaving` counts the calls that have taken the client
-- out and have not told the handler yet.
pub data CallerStep (s : Threads) : Threads → Type 0 where
  take_out :
      (id : ℕ) {c : DispatchedClient}
      → get id s.server.clients ≡ some c
      → is_locked s.lobby ≡ false
      → CallerStep s (record (with_clients s (remove id s.server.clients)) {
        stopped = update s.stopped id true;
        leaving = update s.leaving id (suc (s.leaving id));
      })
  tell_left :
      (id : ℕ) {n : ℕ}
      → s.leaving id ≡ suc n
      → CallerStep s (record (tell s (on_client_disconnect id)) { leaving = update s.leaving id n })
  begin_stop : CallerStep s (record s { server = record (s.server) { running = false } })

-- A step of any thread, with the number of clients that have registered before and after it. While it
-- accepts clients, the lobby's worker may register one.
pub data Step (n : ℕ) (s : Threads) : ℕ → Threads → Type 0 where
  of_pending : {t : Threads} → PendingStep s t → Step n s n t
  of_proxy : {t : Threads} → ProxyStep s t → Step n s n t
  accept : (c : DispatchedClient) → s.lobby ≡ accepting → Step n s (suc n) (register s c)
  of_worker : {t : Threads} → WorkerStep s t → Step n s n t
  of_caller : {t : Threads} → CallerStep s t → Step n s n t

-- The states that a server can be in after `n` registrations.
pub data Reach : ℕ → Threads → Type 0 where
  start : Reach 0 init
  later : {n k : ℕ} {s t : Threads} → Reach n s → Step n s k t → Reach k t

-- What other steps can follow, in any number.
pub data Later (n : ℕ) (s : Threads) : ℕ → Threads → Type 0 where
  now : Later n s n s
  after : {k m : ℕ} {t u : Threads} → Later n s k t → Step k t m u → Later n s m u

pub Later-append :
    {n : ℕ} {s : Threads} {k : ℕ} {t : Threads} {m : ℕ} {u : Threads}
    → Later n s k t
    → Later k t m u
    → Later n s m u
Later-append l now = l
Later-append l (after rest step) = after (Later-append l rest) step
