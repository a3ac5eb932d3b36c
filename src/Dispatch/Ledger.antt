-- ===== src/Dispatch/Ledger.antt =====
-- src/dispatch/mod.rs: how often the threads of a `DispatchServer` tell the handler that a client has
-- connected and that it has disconnected.
use xshm.Prelude.{
  ℕ, suc, ◌+◌, ◌-◌, ◌^◌, ◌<◌, ◌≤◌, ◌≡◌, refl, arith, ◌⊎◌, inl, inr, Option-cases, some, Bool-cases,
  true, false, ◌==◌, if◌then◌else◌, List, [], ◌∷◌, ◌++◌,
}
use xshm.Dispatch.ClientMap.{
  get, remove, keys, occurs, occurs-remove_self, occurs-remove_other, get-some,
}
use xshm.Dispatch.{
  Clients, Call, on_client_connect, on_client_disconnect, on_message, on_error, DispatchedClient,
  proxy_on_disconnect,
}
use xshm.Dispatch.Threads.{
  Pending, absent, notifying, finished, Channel, telling, Threads, register, unlinked, PendingStep,
  ProxyStep, WorkerStep, CallerStep, Step, Reach,
}

-- How often the handler is told that a client has connected, and that it has disconnected.
abbrev pub connects : ℕ → List Call → ℕ
connects id [] = 0
connects id (on_client_connect j _ ∷ es) = (if id == j then 1 else 0) + connects id es
connects id (_ ∷ es) = connects id es

abbrev pub disconnects : ℕ → List Call → ℕ
disconnects id [] = 0
disconnects id (on_client_disconnect j ∷ es) = (if id == j then 1 else 0) + disconnects id es
disconnects id (_ ∷ es) = disconnects id es

connects-append :
    (id : ℕ) (es fs : List Call) → connects id (es ++ fs) ≡ connects id es + connects id fs
connects-append id [] fs = omega arith
connects-append id (on_client_connect j _ ∷ es) fs = omega (arith, connects-append id es fs)
connects-append id (on_client_disconnect _ ∷ es) fs = connects-append id es fs
connects-append id (on_message _ _ ∷ es) fs = connects-append id es fs
connects-append id (on_error _ _ ∷ es) fs = connects-append id es fs

disconnects-append :
    (id : ℕ) (es fs : List Call) → disconnects id (es ++ fs) ≡ disconnects id es + disconnects id fs
disconnects-append id [] fs = omega arith
disconnects-append id (on_client_connect _ _ ∷ es) fs = disconnects-append id es fs
disconnects-append id (on_client_disconnect j ∷ es) fs = omega (arith, disconnects-append id es fs)
disconnects-append id (on_message _ _ ∷ es) fs = disconnects-append id es fs
disconnects-append id (on_error _ _ ∷ es) fs = disconnects-append id es fs

-- whether the thread has put its client into the map, and has told the handler of it
abbrev pub has_put : Pending → ℕ
has_put (notifying _) = 1
has_put finished = 1
has_put _ = 0

abbrev pub has_told : Pending → ℕ
has_told finished = 1
has_told _ = 0

abbrev pub is_telling : Channel → ℕ
is_telling telling = 1
is_telling _ = 0

-- The handler is told of a connect by the thread of the client, once. A client that has been put into
-- the map is there, or is on its way out, or the handler has been told of its disconnect.
pub record Balanced (s : Threads) (id : ℕ) : Type 0 where
  pub connected : connects id s.told ≡ has_told (s.pending id)
  pub accounted :
      disconnects id s.told
        + occurs id (keys s.server.clients)
        + s.leaving id
        + is_telling (s.channel id)
      ≡ has_put (s.pending id)

PendingStep-Balanced : {s t : Threads} (id : ℕ) → PendingStep s t → Balanced s id → Balanced t id
PendingStep-Balanced {s} id (PendingStep.give_up j h) b = ground arith
PendingStep-Balanced {s} id (PendingStep.check j h on running) b = ground arith
PendingStep-Balanced {s} id (PendingStep.put j h free) b =
    ground (arith, occurs-remove_self j s.server.clients, occurs-remove_other id j s.server.clients)
PendingStep-Balanced {s} id (PendingStep.notify j {info} h) b = ground (
  arith,
  connects-append id s.told (on_client_connect j info ∷ []),
  disconnects-append id s.told (on_client_connect j info ∷ []),
)

-- The proxy leaves the map as it is, or takes out a client that was there.
proxy_on_disconnect-cases :
    (id : ℕ) (m : Clients)
    → (proxy_on_disconnect id m ≡ (false, m))
      ⊎ ((proxy_on_disconnect id m ≡ (true, remove id m)) × (0 < occurs id (keys m)))
unfolding proxy_on_disconnect
proxy_on_disconnect-cases id m = elim (Option-cases (get id m)) [
  | inl e ↦ inl (ground arith)
  | inr (c, e) ↦ elim (Bool-cases c.disconnected) [
    | inl gone ↦ inl (ground arith)
    | inr there ↦ inr (ground arith, get-some id m c e)
  ]
]

ProxyStep-Balanced : {s t : Threads} (id : ℕ) → ProxyStep s t → Balanced s id → Balanced t id
unfolding unlinked
ProxyStep-Balanced {s} id (ProxyStep.on_connect j h) b = ground arith
ProxyStep-Balanced {s} id (ProxyStep.enter_on_disconnect j h) b = ground arith
ProxyStep-Balanced {s} id (ProxyStep.unlink j h free) b =
    elim (proxy_on_disconnect-cases j s.server.clients) [
      | inl e ↦ rw e (ground arith)
      | inr (e, there) ↦ rw e (
          ground (
            arith,
            occurs-remove_self j s.server.clients,
            occurs-remove_other id j s.server.clients,
          ))
    ]
ProxyStep-Balanced {s} id (ProxyStep.tell_disconnect j h) b = ground (
  arith,
  connects-append id s.told (on_client_disconnect j ∷ []),
  disconnects-append id s.told (on_client_disconnect j ∷ []),
)
ProxyStep-Balanced {s} id (ProxyStep.message j bytes h) b = ground (
  arith,
  connects-append id s.told (on_message j bytes ∷ []),
  disconnects-append id s.told (on_message j bytes ∷ []),
)
ProxyStep-Balanced {s} id (ProxyStep.error j e h) b = ground (
  arith,
  connects-append id s.told (on_error (some j) e ∷ []),
  disconnects-append id s.told (on_error (some j) e ∷ []),
)
ProxyStep-Balanced {s} id (ProxyStep.leave j h stopped) b = ground arith

WorkerStep-Balanced : {s t : Threads} (id : ℕ) → WorkerStep s t → Balanced s id → Balanced t id
WorkerStep-Balanced {s} id (WorkerStep.lock h off) b = ground arith
WorkerStep-Balanced {s} i (WorkerStep.drain_next {id} h e) b = ground (
  arith,
  connects-append i s.told (on_client_disconnect id ∷ []),
  disconnects-append i s.told (on_client_disconnect id ∷ []),
)
WorkerStep-Balanced {s} id (WorkerStep.joined h over) b = ground arith
WorkerStep-Balanced {s} id (WorkerStep.unlock h e) b = ground arith

CallerStep-Balanced : {s t : Threads} (id : ℕ) → CallerStep s t → Balanced s id → Balanced t id
CallerStep-Balanced {s} id (CallerStep.take_out j {c} h free) b = ground (
  arith,
  get-some j s.server.clients c,
  occurs-remove_self j s.server.clients,
  occurs-remove_other id j s.server.clients,
)
CallerStep-Balanced {s} id (CallerStep.tell_left j h) b = ground (
  arith,
  connects-append id s.told (on_client_disconnect j ∷ []),
  disconnects-append id s.told (on_client_disconnect j ∷ []),
)
CallerStep-Balanced {s} id CallerStep.begin_stop b = ground arith

-- As long as the ids have not wrapped around, the next one is new.
record Fresh (n : ℕ) (s : Threads) : Type 0 where
  next : s.server.next_client_id ≡ suc n
  unused : (id : ℕ) → n < id → s.pending id ≡ absent

-- A step that registers no client.
record SameIds (s t : Threads) : Type 0 where
  next : t.server.next_client_id ≡ s.server.next_client_id
  unused : (id : ℕ) → s.pending id ≡ absent → t.pending id ≡ absent

PendingStep-SameIds : {s t : Threads} → PendingStep s t → SameIds s t
PendingStep-SameIds (PendingStep.give_up j h) = record {
  next = refl;
  unused = λ id e. ground arith;
}
PendingStep-SameIds (PendingStep.check j h on running) = record {
  next = refl;
  unused = λ id e. ground arith;
}
PendingStep-SameIds (PendingStep.put j h free) = record {
  next = refl;
  unused = λ id e. ground arith;
}
PendingStep-SameIds (PendingStep.notify j h) = record { next = refl; unused = λ id e. ground arith }

ProxyStep-SameIds : {s t : Threads} → ProxyStep s t → SameIds s t
unfolding unlinked
ProxyStep-SameIds (ProxyStep.on_connect j h) = record { next = refl; unused = λ id e. e }
ProxyStep-SameIds (ProxyStep.enter_on_disconnect j h) = record { next = refl; unused = λ id e. e }
ProxyStep-SameIds (ProxyStep.unlink j h free) = record { next = refl; unused = λ id e. e }
ProxyStep-SameIds (ProxyStep.tell_disconnect j h) = record { next = refl; unused = λ id e. e }
ProxyStep-SameIds (ProxyStep.message j bytes h) = record { next = refl; unused = λ id e. e }
ProxyStep-SameIds (ProxyStep.error j x h) = record { next = refl; unused = λ id e. e }
ProxyStep-SameIds (ProxyStep.leave j h over) = record { next = refl; unused = λ id e. e }

WorkerStep-SameIds : {s t : Threads} → WorkerStep s t → SameIds s t
WorkerStep-SameIds (WorkerStep.lock h off) = record { next = refl; unused = λ id e. e }
WorkerStep-SameIds (WorkerStep.drain_next h e) = record { next = refl; unused = λ id e. e }
WorkerStep-SameIds (WorkerStep.joined h over) = record { next = refl; unused = λ id e. e }
WorkerStep-SameIds (WorkerStep.unlock h e) = record { next = refl; unused = λ id e. e }

CallerStep-SameIds : {s t : Threads} → CallerStep s t → SameIds s t
CallerStep-SameIds (CallerStep.take_out j h free) = record { next = refl; unused = λ id e. e }
CallerStep-SameIds (CallerStep.tell_left j h) = record { next = refl; unused = λ id e. e }
CallerStep-SameIds CallerStep.begin_stop = record { next = refl; unused = λ id e. e }

SameIds-Fresh : {n : ℕ} {s t : Threads} → SameIds s t → Fresh n s → Fresh n t
SameIds-Fresh same f = record {
  next = omega (arith, same.next, f.next);
  unused = λ id above. same.unused id (f.unused id above);
}

register-Fresh :
    {n : ℕ} (s : Threads) (c : DispatchedClient)
    → suc n < 2 ^ 32 - 1
    → Fresh n s
    → Fresh (suc n) (register s c)
register-Fresh s c few f = record {
  next = omega (arith, f.next);
  unused = λ id above. ground (arith, f.unused id, f.next);
}

Step-Fresh : {n k : ℕ} {s t : Threads} → Step n s k t → k < 2 ^ 32 - 1 → Fresh n s → Fresh k t
Step-Fresh (Step.of_pending step) few f = SameIds-Fresh (PendingStep-SameIds step) f
Step-Fresh (Step.of_proxy step) few f = SameIds-Fresh (ProxyStep-SameIds step) f
Step-Fresh {n} {k} {s} (Step.accept c h) few f = register-Fresh s c few f
Step-Fresh (Step.of_worker step) few f = SameIds-Fresh (WorkerStep-SameIds step) f
Step-Fresh (Step.of_caller step) few f = SameIds-Fresh (CallerStep-SameIds step) f

-- A new client has an id that none of the map, the callers and the handler know.
register-Balanced :
    {n : ℕ} (s : Threads) (c : DispatchedClient) (id : ℕ)
    → Fresh n s
    → Balanced s id
    → Balanced (register s c) id
register-Balanced {n} s c id f b = ground (arith, f.next, f.unused (suc n))

Step-Balanced :
    {n k : ℕ} {s t : Threads} (id : ℕ) → Step n s k t → Fresh n s → Balanced s id → Balanced t id
Step-Balanced id (Step.of_pending step) f b = PendingStep-Balanced id step b
Step-Balanced id (Step.of_proxy step) f b = ProxyStep-Balanced id step b
Step-Balanced {n} {k} {s} id (Step.accept c h) f b = register-Balanced s c id f b
Step-Balanced id (Step.of_worker step) f b = WorkerStep-Balanced id step b
Step-Balanced id (Step.of_caller step) f b = CallerStep-Balanced id step b

Step-grows : {n k : ℕ} {s t : Threads} → Step n s k t → n ≤ k
Step-grows (Step.of_pending step) = omega arith
Step-grows (Step.of_proxy step) = omega arith
Step-grows (Step.accept c h) = omega arith
Step-grows (Step.of_worker step) = omega arith
Step-grows (Step.of_caller step) = omega arith

Reach-Fresh : {n : ℕ} {s : Threads} → Reach n s → n < 2 ^ 32 - 1 → Fresh n s
Reach-Fresh Reach.start few = record { next = refl; unused = λ id above. refl }
Reach-Fresh (Reach.later r step) few =
    Step-Fresh step few (Reach-Fresh r (omega (arith, Step-grows step)))

-- As long as fewer than 2^32 - 1 clients have registered, in every state that the threads can reach by
-- whatever interleaving, for every client id: the handler has been told of a connect once if the
-- client's thread has finished so, and otherwise never; and the calls that told it of a disconnect, the
-- entry in the map, and the calls that have taken the client out and not told it yet are one in all
-- once the thread has put the client into the map, and before none.
pub Reach-Balanced : {n : ℕ} {s : Threads} → Reach n s → n < 2 ^ 32 - 1 → (id : ℕ) → Balanced s id
Reach-Balanced Reach.start few id = record { connected = refl; accounted = refl }
Reach-Balanced (Reach.later r step) few id =
    let before : _ < 2 ^ 32 - 1 = omega (arith, Step-grows step) in
    Step-Balanced id step (Reach-Fresh r before) (Reach-Balanced r before id)
