-- ===== src/Multi/Invariant.antt =====
-- The invariant of a `MultiServer` of src/multi/mod.rs, and the steps on its slots.
use xshm.Prelude.{
  ℕ, zero, suc, ◌+◌, ◌≤◌, ◌≡◌, ◌≢◌, refl, ◌∙◌, subst, arith, inl, inr, Bool, false, Option, none,
  some, Option-cases, List, [], ◌∷◌, ◌++◌, length, get_elem?, set, length-set, get_elem?-set_self,
  get_elem?-set_ne, lt_of_get_elem?,
}
use native.Mathlib.Decide.{ℕ_discrete}
use xshm.Multi.Slots.{ClientSlot, Effect, max_multi_clients}
use xshm.Multi.Calls.{MultiServer, is_client_connected, on_slot}
use xshm.Multi.Moves.{
  SlotOk, flag, connects, disconnects, connects-append, disconnects-append, SlotMoves,
}

-- Each slot stands at the index that is its id, and is well formed.
abbrev pub SlotsFrom : ℕ → List ClientSlot → Type 0
SlotsFrom i [] = Unit
SlotsFrom i (slot ∷ slots) = (slot.id ≡ i) × SlotOk slot × SlotsFrom (suc i) slots

pub record IsMulti (m : MultiServer) : Type 0 where
  pub ids : SlotsFrom 0 m.slots
  pub all_slots : length m.slots ≡ m.max_clients
  pub limit : m.max_clients ≤ max_multi_clients

-- whether the slot at an index is connected
abbrev pub on_at : ℕ → List ClientSlot → Bool
on_at id slots = elim (get_elem? slots id) [ none ↦ false | some slot ↦ slot.connected ]

pub SlotsFrom-get :
    (i : ℕ) (slots : List ClientSlot) (j : ℕ) (slot : ClientSlot)
    → SlotsFrom i slots
    → get_elem? slots j ≡ some slot
    → (slot.id ≡ i + j) × SlotOk slot
SlotsFrom-get i [] j slot h e = absurd (cc e)
SlotsFrom-get i (x ∷ slots) zero slot h e =
    subst
      (λ (o : Option ClientSlot). elim o [ none ↦ Unit {0} | some s ↦ (s.id ≡ i + 0) × SlotOk s ]) e
      (omega arith, h.1)
SlotsFrom-get i (x ∷ slots) (suc j) slot h e =
    let (id, good) = SlotsFrom-get (suc i) slots j slot h.2 e in (omega (arith, id), good)

SlotsFrom-set :
    (i : ℕ) (slots : List ClientSlot) (j : ℕ) (slot : ClientSlot)
    → SlotsFrom i slots
    → slot.id ≡ i + j
    → SlotOk slot
    → SlotsFrom i (set slots j slot)
SlotsFrom-set i [] j slot h id good = tt
SlotsFrom-set i (x ∷ slots) zero slot h id good = (omega (arith, id), good, h.2)
SlotsFrom-set i (x ∷ slots) (suc j) slot h id good =
    (h.0, h.1, SlotsFrom-set (suc i) slots j slot h.2 (omega (arith, id)) good)

-- A step of the whole server that keeps the invariant and tells the handler the truth: for each
-- client, the connections told and the one that stood before make up the disconnections told and the
-- one that stands after.
pub record Moves (m : MultiServer) (out : MultiServer × List Effect) : Type 0 where
  pub keeps : IsMulti out.0
  pub balance :
      (id : ℕ)
      → connects id out.1 + flag (is_client_connected id m)
        ≡ disconnects id out.1 + flag (is_client_connected id out.0)

pub Moves-none : (m : MultiServer) → IsMulti m → Moves m (m, [])
Moves-none m v = record { keeps = v; balance = λ id. refl }

pub Moves-then :
    (m m' : MultiServer) (es : List Effect) (out : MultiServer × List Effect)
    → Moves m (m', es)
    → Moves m' out
    → Moves m (out.0, es ++ out.1)
Moves-then m m' es out a b = record {
  keeps = b.keeps;
  balance = λ id. omega (
    arith,
    connects-append id es out.1,
    disconnects-append id es out.1,
    a.balance id,
    b.balance id,
  );
}

on_slot-none :
    (body : ClientSlot → ClientSlot × List Effect) (id : ℕ) (m : MultiServer)
    → get_elem? m.slots id ≡ none
    → on_slot body id m ≡ (m, [])
unfolding on_slot
on_slot-none body id m e = rw (e, on_slot)

pub on_slot-some :
    (body : ClientSlot → ClientSlot × List Effect) (id : ℕ) (m : MultiServer) (slot : ClientSlot)
    → get_elem? m.slots id ≡ some slot
    → on_slot body id m ≡ (record m { slots = set m.slots id (body slot).0 }, (body slot).1)
unfolding on_slot
on_slot-some body id m slot e = rw (e, on_slot)

connected_at :
    (m : MultiServer) (id : ℕ) (slot : ClientSlot)
    → get_elem? m.slots id ≡ some slot
    → is_client_connected id m ≡ slot.connected
unfolding is_client_connected
connected_at m id slot e = rw (e, is_client_connected)

pub connected_same :
    (m m' : MultiServer) (id : ℕ)
    → get_elem? m'.slots id ≡ get_elem? m.slots id
    → is_client_connected id m' ≡ is_client_connected id m
unfolding is_client_connected
connected_same m m' id e = rw (e, is_client_connected)

pub set_slot-Moves :
    (m : MultiServer) (id : ℕ) (slot : ClientSlot) (out : ClientSlot × List Effect)
    → get_elem? m.slots id ≡ some slot
    → IsMulti m
    → SlotMoves slot out
    → Moves m (record m { slots = set m.slots id out.0 }, out.1)
set_slot-Moves m id slot out e v moves = record {
  keeps = record {
    ids =
        SlotsFrom-set 0 m.slots id out.0 v.ids (omega (arith, here.0, moves.same_id))
          (moves.keeps here.1);
    all_slots = length-set m.slots id out.0 ∙ v.all_slots;
    limit = v.limit;
  };
  balance = λ j. elim (ℕ_discrete id j) [
    | yes same ↦
        let at : slot.id ≡ j = omega (arith, here.0) in
        ground (
          arith,
          at,
          moves.balance,
          connected_at m j slot (subst (λ k. get_elem? m.slots k ≡ some slot) same e),
          connected_at after j out.0 (
              subst (λ k. get_elem? after.slots k ≡ some out.0) same
                (get_elem?-set_self m.slots id out.0 (lt_of_get_elem? m.slots id e))),
        )
    | no other ↦
        let apart : j ≢ slot.id = λ p. other (omega (arith, here.0)) in
        ground (
          arith,
          moves.others j apart,
          connected_same m after j (get_elem?-set_ne m.slots id j out.0 other),
        )
  ];
}
  where
    after : MultiServer
    after = record m { slots = set m.slots id out.0 }

    here : (slot.id ≡ 0 + id) × SlotOk slot
    here = SlotsFrom-get 0 m.slots id slot v.ids e

pub on_slot-Moves :
    (body : ClientSlot → ClientSlot × List Effect)
    → ((slot : ClientSlot) → SlotMoves slot (body slot))
    → (id : ℕ) (m : MultiServer) → IsMulti m
    → Moves m (on_slot body id m)
on_slot-Moves body moves id m v = elim (Option-cases (get_elem? m.slots id)) [
  | inl missing ↦ rw (on_slot-none body id m missing) (Moves-none m v)
  | inr (slot, e) ↦
      rw (on_slot-some body id m slot e) (set_slot-Moves m id slot (body slot) e v (moves slot))
]
