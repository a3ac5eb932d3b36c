-- ===== src/Multi/Moves.antt =====
-- What every step on a slot of src/multi/mod.rs keeps, and how the connections that it tells the
-- handler of add up.
use xshm.Prelude.{
  ℕ, ◌+◌, ◌≡◌, ◌≢◌, refl, arith, Bool, true, false, ◌==◌, Option, none, some, List, [], ◌∷◌, ◌++◌,
  map,
}
use xshm.Error.{ShmError}
use xshm.Segment.{Event}
use xshm.Multi.Slots.{
  ClientSlot, Effect, set_event, on_client_connect, on_client_disconnect, on_message, on_error,
  set_events, error_effect,
}

-- A slot and its server agree on whether they are connected, and the server has its events.
pub record SlotOk (slot : ClientSlot) : Type 0 where
  pub same : slot.connected ≡ slot.server.connected
  pub events : slot.server.has_events ≡ true

abbrev pub flag : Bool → ℕ
flag true = 1
flag false = 0

-- How often the handler is told that a client has connected, and that it has disconnected.
abbrev pub connects : ℕ → List Effect → ℕ
connects id [] = 0
connects id (on_client_connect j ∷ es) = flag (id == j) + connects id es
connects id (_ ∷ es) = connects id es

abbrev pub disconnects : ℕ → List Effect → ℕ
disconnects id [] = 0
disconnects id (on_client_disconnect j ∷ es) = flag (id == j) + disconnects id es
disconnects id (_ ∷ es) = disconnects id es

pub connects-append :
    (id : ℕ) (es fs : List Effect) → connects id (es ++ fs) ≡ connects id es + connects id fs
connects-append id [] fs = omega arith
connects-append id (set_event _ _ ∷ es) fs = connects-append id es fs
connects-append id (on_client_connect j ∷ es) fs = omega (arith, connects-append id es fs)
connects-append id (on_client_disconnect _ ∷ es) fs = connects-append id es fs
connects-append id (on_message _ _ ∷ es) fs = connects-append id es fs
connects-append id (on_error _ _ ∷ es) fs = connects-append id es fs

pub disconnects-append :
    (id : ℕ) (es fs : List Effect)
    → disconnects id (es ++ fs) ≡ disconnects id es + disconnects id fs
disconnects-append id [] fs = omega arith
disconnects-append id (set_event _ _ ∷ es) fs = disconnects-append id es fs
disconnects-append id (on_client_connect _ ∷ es) fs = disconnects-append id es fs
disconnects-append id (on_client_disconnect j ∷ es) fs = omega (arith, disconnects-append id es fs)
disconnects-append id (on_message _ _ ∷ es) fs = disconnects-append id es fs
disconnects-append id (on_error _ _ ∷ es) fs = disconnects-append id es fs

-- Effects that tell of no connection.
pub record Silent (es : List Effect) : Type 0 where
  pub no_connects : (id : ℕ) → connects id es ≡ 0
  pub no_disconnects : (id : ℕ) → disconnects id es ≡ 0

pub set_events-Silent : (slot_id : ℕ) (events : List Event) → Silent (set_events slot_id events)
set_events-Silent slot_id [] = record { no_connects = λ _. refl; no_disconnects = λ _. refl }
set_events-Silent slot_id (e ∷ events) =
    let s = set_events-Silent slot_id events in
    record { no_connects = λ id. s.no_connects id; no_disconnects = λ id. s.no_disconnects id }

pub messages-Silent :
    (slot_id : ℕ) (ms : List (List ℕ)) (e : Option ShmError)
    → Silent (map (on_message slot_id) ms ++ error_effect slot_id e)
messages-Silent slot_id [] none = record { no_connects = λ _. refl; no_disconnects = λ _. refl }
messages-Silent slot_id [] (some e) = record { no_connects = λ _. refl; no_disconnects = λ _. refl }
messages-Silent slot_id (m ∷ ms) e =
    let s = messages-Silent slot_id ms e in
    record { no_connects = λ id. s.no_connects id; no_disconnects = λ id. s.no_disconnects id }

pub append-Silent : (es fs : List Effect) → Silent es → Silent fs → Silent (es ++ fs)
append-Silent es fs a b = record {
  no_connects = λ id. omega (arith, connects-append id es fs, a.no_connects id, b.no_connects id);
  no_disconnects =
      λ id. omega (arith, disconnects-append id es fs, a.no_disconnects id, b.no_disconnects id);
}

-- A step takes a slot to a slot with the same id, keeps it well formed, and tells the handler of its
-- connection and of no other's.
pub record SlotMoves (slot : ClientSlot) (out : ClientSlot × List Effect) : Type 0 where
  pub keeps : SlotOk slot → SlotOk out.0
  pub same_id : out.0.id ≡ slot.id
  pub balance :
      connects slot.id out.1 + flag slot.connected
      ≡ disconnects slot.id out.1 + flag out.0.connected
  pub others : (j : ℕ) → j ≢ slot.id → (connects j out.1 ≡ 0) × (disconnects j out.1 ≡ 0)

pub Silent-SlotMoves :
    (slot slot' : ClientSlot) (es : List Effect)
    → Silent es
    → (SlotOk slot → SlotOk slot')
    → slot'.id ≡ slot.id
    → slot'.connected ≡ slot.connected
    → SlotMoves slot (slot', es)
Silent-SlotMoves slot slot' es s keeps id on = record {
  keeps = keeps;
  same_id = id;
  balance = ground (arith, s.no_connects slot.id, s.no_disconnects slot.id);
  others = λ j _. (s.no_connects j, s.no_disconnects j);
}
