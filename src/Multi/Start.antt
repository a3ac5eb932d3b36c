-- ===== src/Multi/Start.antt =====
-- A `MultiServer` of src/multi/mod.rs as `start` makes it.
use xshm.Prelude.{
  ℕ, zero, suc, ◌≡◌, refl, ap, subst, sym, arith, inl, inr, true, false, ltb, ◌||◌, ◌==◌, none,
  Bool-cases, List, ◌∷◌, length,
}
use xshm.Error.{Result, ok, err, >>=-eq-ok, ok-injective}
use xshm.Segment.{Segment}
use xshm.Server
use xshm.Server.{SharedServer, send_to_client}
use xshm.Multi.Slots.{ClientSlot, max_multi_clients}
use xshm.Multi.Calls.{MultiServer, start, start_slots, is_client_connected}
use xshm.Multi.Invariant.{SlotsFrom, IsMulti, on_at}

start_fresh :
    (mapped : Result Segment) (created : Result (Unit {0})) {s : SharedServer}
    → Server.start mapped created ≡ ok s
    → (s.connected ≡ false) × (s.has_events ≡ true)
unfolding Server.start
start_fresh (ok raw) (ok _) e = ground arith
start_fresh (ok raw) (err x) e = cc
start_fresh (err x) created e = cc

-- Slots from an index on, none of them connected.
record Fresh (i n : ℕ) (slots : List ClientSlot) : Type 0 where
  ids : SlotsFrom i slots
  count : length slots ≡ n
  off : (j : ℕ) → on_at j slots ≡ false

cons-Fresh :
    (i n : ℕ) (s : SharedServer) (slots : List ClientSlot)
    → (s.connected ≡ false) × (s.has_events ≡ true)
    → Fresh (suc i) n slots
    → Fresh i
        (suc n)
        (record { id = i; server = s; connected = false; claim_seen_at = none } ∷ slots)
cons-Fresh i n s slots (off, events) f = record {
  ids = (refl, record { same = sym off; events = events }, f.ids);
  count = ap suc f.count;
  off = cons_off;
}
  where
    cons_off :
        (j : ℕ)
        → on_at j (record { id = i; server = s; connected = false; claim_seen_at = none } ∷ slots)
          ≡ false
    cons_off zero = refl
    cons_off (suc j) = f.off j

start_slots-Fresh :
    (mapped : ℕ → Result Segment) (created : ℕ → Result (Unit {0})) (i n : ℕ)
    (slots : List ClientSlot)
    → start_slots mapped created i n ≡ ok slots
    → Fresh i n slots
unfolding start_slots
start_slots-Fresh mapped created i zero slots e =
    subst (Fresh i 0) (ok-injective e) (record { ids = tt; count = refl; off = λ j. refl })
start_slots-Fresh mapped created i (suc n) slots e =
    let (s, started, e') = >>=-eq-ok (Server.start (mapped i) (created i)) _ e in
    let (rest, more, e'') = >>=-eq-ok (start_slots mapped created (suc i) n) _ e' in
    subst (Fresh i (suc n)) (ok-injective e'') (
      cons-Fresh i n s rest (start_fresh (mapped i) (created i) started)
        (start_slots-Fresh mapped created (suc i) n rest more))

pub start-IsMulti :
    (mapped : ℕ → Result Segment) (created : ℕ → Result (Unit {0})) (max_clients recv_batch : ℕ)
    {m : MultiServer}
    → start mapped created max_clients recv_batch ≡ ok m
    → IsMulti m × ((id : ℕ) → is_client_connected id m ≡ false)
unfolding start is_client_connected
start-IsMulti mapped created max_clients recv_batch {m} e =
    elim (Bool-cases (max_clients == 0 || ltb max_multi_clients max_clients)) [
      | inl refused ↦ cc (rw refused at e)
      | inr taken ↦
          let (slots, started, made) =
            >>=-eq-ok (start_slots mapped created 0 max_clients) _ (rw taken at e) in
          let fresh = start_slots-Fresh mapped created 0 max_clients slots started in
          let is = ok-injective made in
          subst (λ (n : MultiServer). IsMulti n × ((id : ℕ) → on_at id n.slots ≡ false)) is
            (record { ids = fresh.ids; all_slots = fresh.count; limit = ground arith }, fresh.off)
    ]
