-- ===== src/Auto/Quiet.antt =====
-- The passes of src/auto/mod.rs over the rings, and the connections that the handler is told of.
use xshm.Prelude.{
  ℕ, zero, suc, ◌+◌, ◌≡◌, refl, ◌∙◌, arith, inl, inr, Bool, true, false, Bool-cases, List, [], ◌∷◌,
  ◌++◌, map, ltb,
}
use xshm.Ring.{WriteOutcome}
use xshm.Error.{ShmError, Result, ok, err}
use xshm.Segment.{Segment, Event, disconnect}
use xshm.Client.{SharedClient, send_to_server, receive_from_server}
use xshm.Server.{SharedServer, send_to_client, receive_from_client}
use xshm.Auto.{
  ChannelKind, Effect, set_event, on_connect, on_disconnect, on_message, on_overflow,
  on_space_available, on_error, AutoStats, server_endpoint, client_endpoint, Endpoint,
  process_send_queue, receive_loop, overflow_effect, fetch_add, count_sent, send_error,
  receive_error, is_idle, is_queue_full,
}

-- How often the handler is told of a connection, and of its end.
abbrev pub connects : List Effect → ℕ
connects [] = 0
connects (on_connect ∷ es) = suc (connects es)
connects (_ ∷ es) = connects es

abbrev pub disconnects : List Effect → ℕ
disconnects [] = 0
disconnects (on_disconnect ∷ es) = suc (disconnects es)
disconnects (_ ∷ es) = disconnects es

abbrev pub flag : Bool → ℕ
flag true = 1
flag false = 0

pub connects-append : (es fs : List Effect) → connects (es ++ fs) ≡ connects es + connects fs
connects-append [] fs = omega arith
connects-append (on_connect ∷ es) fs = omega (arith, connects-append es fs)
connects-append (on_disconnect ∷ es) fs = connects-append es fs
connects-append (on_message _ _ ∷ es) fs = connects-append es fs
connects-append (on_overflow _ _ ∷ es) fs = connects-append es fs
connects-append (on_space_available _ ∷ es) fs = connects-append es fs
connects-append (on_error _ ∷ es) fs = connects-append es fs
connects-append (set_event _ ∷ es) fs = connects-append es fs

pub disconnects-append :
    (es fs : List Effect) → disconnects (es ++ fs) ≡ disconnects es + disconnects fs
disconnects-append [] fs = omega arith
disconnects-append (on_disconnect ∷ es) fs = omega (arith, disconnects-append es fs)
disconnects-append (on_connect ∷ es) fs = disconnects-append es fs
disconnects-append (on_message _ _ ∷ es) fs = disconnects-append es fs
disconnects-append (on_overflow _ _ ∷ es) fs = disconnects-append es fs
disconnects-append (on_space_available _ ∷ es) fs = disconnects-append es fs
disconnects-append (on_error _ ∷ es) fs = disconnects-append es fs
disconnects-append (set_event _ ∷ es) fs = disconnects-append es fs

-- How often the event is set that tells the server of the end.
abbrev is_hang_up : Effect → Bool
is_hang_up (set_event disconnect) = true
is_hang_up _ = false

abbrev pub hang_ups : List Effect → ℕ
hang_ups [] = 0
hang_ups (x ∷ es) = flag (is_hang_up x) + hang_ups es

pub hang_ups-append : (es fs : List Effect) → hang_ups (es ++ fs) ≡ hang_ups es + hang_ups fs
hang_ups-append [] fs = omega arith
hang_ups-append (x ∷ es) fs = omega (arith, hang_ups-append es fs)

-- Effects that tell nobody of a connection or its end.
pub record Quiet (es : List Effect) : Type 0 where
  pub no_connects : connects es ≡ 0
  pub no_disconnects : disconnects es ≡ 0
  pub no_hang_ups : hang_ups es ≡ 0

pub none-Quiet : Quiet []
none-Quiet = record { no_connects = refl; no_disconnects = refl; no_hang_ups = refl }

pub append-Quiet : (es fs : List Effect) → Quiet es → Quiet fs → Quiet (es ++ fs)
append-Quiet es fs a b = record {
  no_connects = omega (arith, connects-append es fs, a.no_connects, b.no_connects);
  no_disconnects = omega (arith, disconnects-append es fs, a.no_disconnects, b.no_disconnects);
  no_hang_ups = omega (arith, hang_ups-append es fs, a.no_hang_ups, b.no_hang_ups);
}

pub connects-events : (events : List Event) → connects (map set_event events) ≡ 0
connects-events [] = refl
connects-events (e ∷ events) = connects-events events

pub disconnects-events : (events : List Event) → disconnects (map set_event events) ≡ 0
disconnects-events [] = refl
disconnects-events (e ∷ events) = disconnects-events events

events-Quiet :
    (events : List Event) → hang_ups (map set_event events) ≡ 0 → Quiet (map set_event events)
events-Quiet events silent = record {
  no_connects = connects-events events;
  no_disconnects = disconnects-events events;
  no_hang_ups = silent;
}

-- An endpoint whose writes and reads leave its flag alone and do not set the event of the end.
pub record Calm {E : Type 0} (io : Endpoint E) (on : E → Bool) : Type 0 where
  pub write_keeps : (e : E) (m : List ℕ) → on (io.write e m).1 ≡ on e
  pub read_keeps : (e : E) → on (io.read e).1 ≡ on e
  pub write_silent : (e : E) (m : List ℕ) → hang_ups (map set_event (io.write e m).2) ≡ 0
  pub read_silent : (e : E) → hang_ups (map set_event (io.read e).2) ≡ 0

abbrev pub server_on : SharedServer → Bool
server_on s = s.connected

abbrev pub client_on : SharedClient × Segment → Bool
client_on e = e.0.connected

pub server-Calm : Calm server_endpoint server_on
unfolding send_to_client receive_from_client
server-Calm = record {
  write_keeps = λ e m. ground arith;
  read_keeps = λ e. ground arith;
  write_silent = λ e m. ground arith;
  read_silent = λ e. ground arith;
}

pub client-Calm : Calm client_endpoint client_on
unfolding send_to_server receive_from_server
client-Calm = record {
  write_keeps = λ e m. refl;
  read_keeps = λ e. refl;
  write_silent = λ e m. ground arith;
  read_silent = λ e. ground arith;
}

pub send_error-Quiet : (e : ShmError) → Quiet (send_error e)
send_error-Quiet e = elim (Bool-cases (is_queue_full e)) [
  | inl t ↦ rw t (record { no_connects = refl; no_disconnects = refl; no_hang_ups = refl })
  | inr f ↦ rw f (record { no_connects = refl; no_disconnects = refl; no_hang_ups = refl })
]

pub receive_error-Quiet : (e : ShmError) → Quiet (receive_error e)
receive_error-Quiet e = elim (Bool-cases (is_idle e)) [
  | inl t ↦ rw t (record { no_connects = refl; no_disconnects = refl; no_hang_ups = refl })
  | inr f ↦ rw f (record { no_connects = refl; no_disconnects = refl; no_hang_ups = refl })
]

pub overflow-Quiet :
    (direction : ChannelKind) (w : WriteOutcome) → Quiet (overflow_effect direction w)
overflow-Quiet direction w = elim (Bool-cases (ltb 0 w.overwritten)) [
  | inl t ↦ rw t (record { no_connects = refl; no_disconnects = refl; no_hang_ups = refl })
  | inr f ↦ rw f (record { no_connects = refl; no_disconnects = refl; no_hang_ups = refl })
]

-- A traffic step that keeps the endpoint's flag and tells of no connection.
pub record Keeps {E : Type 0} (on : E → Bool) (e e' : E) (es : List Effect) : Type 0 where
  pub same : on e' ≡ on e
  pub quiet : Quiet es

module _ {E : Type 0} (io : Endpoint E) (on : E → Bool) (calm : Calm io on)
    (direction : ChannelKind) where
  sent-Keeps :
      (e : E) (m : List ℕ) (ms : List (List ℕ)) (stats : AutoStats) (res : Result WriteOutcome)
      → (io.write e m).0 ≡ res
      → ((w : WriteOutcome)
          → let rest = process_send_queue io direction (io.write e m).1 ms (count_sent stats w) in
            Keeps on (io.write e m).1 rest.endpoint rest.effects)
      → let out = process_send_queue io direction e (m ∷ ms) stats in
        Keeps on e out.endpoint out.effects
  unfolding process_send_queue
  sent-Keeps e m ms stats (ok w) h keeps =
      let tail = process_send_queue io direction (io.write e m).1 ms (count_sent stats w) in
      rw (h, process_send_queue)
        (record {
          same = (keeps w).same ∙ calm.write_keeps e m;
          quiet =
              append-Quiet _ _ (events-Quiet (io.write e m).2 (calm.write_silent e m))
                (append-Quiet _ tail.effects (overflow-Quiet direction w) (keeps w).quiet);
        })
  sent-Keeps e m ms stats (err x) h keeps =
      rw (h, process_send_queue)
        (record {
          same = calm.write_keeps e m;
          quiet =
              append-Quiet _ _ (events-Quiet (io.write e m).2 (calm.write_silent e m))
                (send_error-Quiet x);
        })

  pub process_send_queue-Keeps :
      (e : E) (ms : List (List ℕ)) (stats : AutoStats)
      → let out = process_send_queue io direction e ms stats in Keeps on e out.endpoint out.effects
  unfolding process_send_queue
  process_send_queue-Keeps e [] stats = record { same = refl; quiet = none-Quiet }
  process_send_queue-Keeps e (m ∷ ms) stats =
      sent-Keeps e m ms stats (io.write e m).0 refl
        (λ w. process_send_queue-Keeps (io.write e m).1 ms (count_sent stats w))

  received-Keeps :
      (e : E) (n : ℕ) (stats : AutoStats) (res : Result (List ℕ))
      → (io.read e).0 ≡ res
      → ((st : AutoStats)
          → let rest = receive_loop io direction n (io.read e).1 st in
            Keeps on (io.read e).1 rest.endpoint rest.effects)
      → let out = receive_loop io direction (suc n) e stats in Keeps on e out.endpoint out.effects
  unfolding receive_loop
  received-Keeps e n stats (ok m) h keeps =
      let st = record stats { received_messages = fetch_add stats.received_messages 1 } in
      let tail = receive_loop io direction n (io.read e).1 st in
      let q = (keeps st).quiet in
      rw (h, receive_loop)
        (record {
          same = (keeps st).same ∙ calm.read_keeps e;
          quiet =
              append-Quiet _ (on_message direction m ∷ tail.effects)
                (events-Quiet (io.read e).2 (calm.read_silent e))
                (record {
                  no_connects = q.no_connects;
                  no_disconnects = q.no_disconnects;
                  no_hang_ups = omega (arith, q.no_hang_ups);
                });
        })
  received-Keeps e n stats (err x) h keeps =
      rw (h, receive_loop)
        (record {
          same = calm.read_keeps e;
          quiet =
              append-Quiet _ _ (events-Quiet (io.read e).2 (calm.read_silent e))
                (receive_error-Quiet x);
        })

  pub receive_loop-Keeps :
      (n : ℕ) (e : E) (stats : AutoStats)
      → let out = receive_loop io direction n e stats in Keeps on e out.endpoint out.effects
  unfolding receive_loop
  receive_loop-Keeps zero e stats = record { same = refl; quiet = none-Quiet }
  receive_loop-Keeps (suc n) e stats =
      received-Keeps e n stats (io.read e).0 refl (λ st. receive_loop-Keeps n (io.read e).1 st)
