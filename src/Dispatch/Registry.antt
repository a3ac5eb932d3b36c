-- ===== src/Dispatch/Registry.antt =====
-- The calls of src/dispatch/mod.rs that go through the map of clients.
use xshm.Prelude.{
  ℕ, ◌+◌, ◌%◌, ◌^◌, ◌≡◌, ◌≢◌, refl, sym, ap, ◌∙◌, arith, inl, inr, Option-cases, true, false, none,
  some, List, [], ◌∷◌,
}
use xshm.Error.{ok, err, not_connected}
use xshm.Auto.Handle.{auto_send}
use xshm.Dispatch.ClientMap.{get, modify, remove}
use xshm.Dispatch.{
  on_client_disconnect, Clients, DispatchServer, DispatchedClient, send_on, send_to, send_all,
  broadcast, disconnect_client, is_client_connected, client_info, client_channel_name,
}

module _ {ℓ} {V : Type ℓ} where
  get-modify :
      (id : ℕ) (f : V → V) (m : List (ℕ × V)) (v : V)
      → get id m ≡ some v
      → get id (modify id f m) ≡ some (f v)
  get-modify id f [] v e = cc
  get-modify id f ((k, w) ∷ rest) v e = ground (arith, get-modify id f rest v)

  get-remove_self : (id : ℕ) (m : List (ℕ × V)) → get id (remove id m) ≡ none
  get-remove_self id [] = refl
  get-remove_self id ((k, v) ∷ rest) = ground (arith, get-remove_self id rest)

  get-remove_other : (id k : ℕ) (m : List (ℕ × V)) → k ≢ id → get k (remove id m) ≡ get k m
  get-remove_other id k [] other = refl
  get-remove_other id k ((j, v) ∷ rest) other = ground (arith, get-remove_other id k rest other)

-- whether `send_to` takes the message for a client
abbrev pub takes : List ℕ → DispatchedClient → ℕ
takes bytes c = elim (send_on c bytes).0 [ ok _ ↦ 1 | err _ ↦ 0 ]

abbrev pub takers : List ℕ → Clients → ℕ
takers bytes [] = 0
takers bytes ((id, c) ∷ rest) = takes bytes c + takers bytes rest

send_all-counts :
    (bytes : List ℕ) (clients : Clients) → (send_all bytes clients).0 ≡ takers bytes clients
unfolding send_all auto_send
send_all-counts bytes [] = refl
send_all-counts bytes ((id, c) ∷ rest) = ground (arith, send_all-counts bytes rest)

get-send_all :
    (bytes : List ℕ) (clients : Clients) (id : ℕ)
    → get id (send_all bytes clients).1
      ≡ elim (get id clients) [ none ↦ none | some c ↦ some (send_on c bytes).1 ]
unfolding send_all
get-send_all bytes [] id = refl
get-send_all bytes ((k, c) ∷ rest) id = ground (arith, get-send_all bytes rest id)

get-send_to :
    (id : ℕ) (bytes : List ℕ) (s : DispatchServer)
    → get id (send_to id bytes s).1.clients
      ≡ elim (get id s.clients) [ none ↦ none | some c ↦ some (send_on c bytes).1 ]
unfolding send_to
get-send_to id bytes s = elim (Option-cases (get id s.clients)) [
  | inl e ↦ ground (arith, e)
  | inr (c, e) ↦ ground (arith, e, get-modify id (λ _. (send_on c bytes).1) s.clients c e)
]

-- A broadcast does to each client what a `send_to` of its own does, and returns how many clients took
-- the message, as a 32-bit number.
pub broadcast_sends :
    (bytes : List ℕ) (s : DispatchServer)
    → ((id : ℕ) → get id (broadcast bytes s).1.clients ≡ get id (send_to id bytes s).1.clients)
      × ((broadcast bytes s).0 ≡ ok (takers bytes s.clients % 2 ^ 32))
unfolding broadcast
broadcast_sends bytes s = (
  λ id. get-send_all bytes s.clients id ∙ sym (get-send_to id bytes s),
  ap (λ n. ok (n % 2 ^ 32)) (send_all-counts bytes s.clients),
)

-- Once a client that is connected has been disconnected, which the handler is told once, it is not
-- connected, has no information and no channel, and takes no message; a second call fails. Another
-- client is as it was.
pub disconnect_client_forgets :
    (id k : ℕ) (bytes : List ℕ) (s : DispatchServer)
    → is_client_connected id s ≡ true
    → k ≢ id
    → let (res, s', calls) = disconnect_client id s in
      (res ≡ ok tt)
      × (calls ≡ on_client_disconnect id ∷ [])
      × (is_client_connected id s' ≡ false)
      × (client_info id s' ≡ none)
      × (client_channel_name id s' ≡ none)
      × (send_to id bytes s' ≡ (err not_connected, s'))
      × (disconnect_client id s' ≡ (err not_connected, s', []))
      × (get k s'.clients ≡ get k s.clients)
unfolding disconnect_client is_client_connected client_info client_channel_name send_to
disconnect_client_forgets id k bytes s on other =
    let gone = get-remove_self id s.clients in
    let kept = get-remove_other id k s.clients other in ground arith
