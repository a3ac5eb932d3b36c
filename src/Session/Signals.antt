-- ===== src/Session/Signals.antt =====
-- Which events the calls of src/server.rs and src/client.rs set for the other side.
use xshm.Prelude.{
  not, ◌&&◌, ℕ, ◌≡◌, refl, arith, Bool, true, false, ◌==◌, ◌||◌, List, [], ◌∷◌, ◌++◌, length, ltb,
  ==_iff, inl, inr, Bool-cases,
}
use xshm.Constants.{min_message_size, max_message_size}
use xshm.Error.{ok}
use xshm.Ring.{RingBuffer, write_message, read_message, message_count}
use xshm.Ring.Queue.{Message, is_nil, make_room}
use xshm.Ring.Runs.{Good, push, pop, put_refines, get_refines}
use xshm.Segment.{
  Event, s2c_data, s2c_space, c2s_data, c2s_space, connect_ack, connect_req, disconnect,
}
use xshm.Server.{send_to_client, receive_from_client, data_signal, space_signal}
use xshm.Client.{send_to_server, receive_from_server}
use xshm.Session.{World, Act, server_send, server_receive, client_send, client_receive, step}
use xshm.Session.Duplex.{Queues, IsSession, step_queues}

abbrev index : Event → ℕ
index s2c_data = 0
index s2c_space = 1
index c2s_data = 2
index c2s_space = 3
index connect_ack = 4
index connect_req = 5
index disconnect = 6

-- The event is among those set.
abbrev pub is_set : Event → List Event → Bool
is_set e [] = false
is_set e (x ∷ events) = (index e == index x) || is_set e events

-- When the events are set.
record Alerts (q q' : List Message) (data_set space_set : Bool) : Type 0 where
  filled : is_nil q ≡ true → is_nil q' ≡ false → data_set ≡ true
  emptied : is_nil q ≡ false → is_nil q' ≡ true → space_set ≡ true

same-Alerts : (q : List Message) (a b : Bool) → Alerts q q a b
same-Alerts q a b = record { filled = λ h k. cc; emptied = λ h k. cc }

push_fills :
    (m : Message)
    → is_nil (push [] m).1 ≡ false
    → (push [] m).0 ≡ ok (record { overwritten = 0; was_empty = true })
unfolding push make_room
push_fills m h = ground arith

is_nil-append : (q : List Message) (m : Message) → is_nil (q ++ m ∷ []) ≡ false
is_nil-append [] m = refl
is_nil-append (x ∷ q) m = refl

push_keeps : (x : Message) (q : List Message) (m : Message) → is_nil (push (x ∷ q) m).1 ≡ false
unfolding push
push_keeps x q m = elim (Bool-cases (ltb (length m) min_message_size)) [
  | inl e ↦ rw e
  | inr e ↦ elim (Bool-cases (ltb max_message_size (length m))) [
    | inl f ↦ rw (e, f)
    | inr f ↦ rw (e, f) (is_nil-append (make_room (x ∷ q) (length m)).1 m)
  ]
]

is_set_self : (e : Event) → is_set e (e ∷ []) ≡ true
is_set_self e = ground arith

write-Alerts :
    {r : RingBuffer} (q : List Message) (m : Message) (e : Event) (b : Bool)
    → Good r q
    → Alerts q (push q m).1 (is_set e (data_signal true e (write_message r m).0)) b
write-Alerts [] m e b g = record {
  filled = λ _ h. rw ((put_refines [] m g).0, push_fills m h) (is_set_self e);
  emptied = λ h _. cc;
}
write-Alerts (x ∷ q) m e b g = record { filled = λ h _. cc; emptied = λ _ h. cc (push_keeps x q m) }

read-Alerts :
    {r : RingBuffer} (q : List Message) (e : Event) (b : Bool)
    → Good r q
    → Alerts q (pop q).1 b (is_set e (space_signal true e (read_message r).0 (read_message r).1))
unfolding pop message_count
read-Alerts [] e b g = record { filled = λ _ h. cc; emptied = λ h _. cc }
read-Alerts (x ∷ []) e b g =
    let (res, after) = get_refines (x ∷ []) g in
    record {
      filled = λ h _. cc;
      emptied = λ _ _. rw (res, (==_iff _ 0).1 after.rep.counted) (is_set_self e);
    }
read-Alerts (x ∷ y ∷ q) e b g = record { filled = λ h _. cc; emptied = λ _ h. cc }

-- What a reader that waits for its data event, or a writer for its space event, relies on: the ring is
-- never filled without the one, nor emptied without the other.
pub record Wakes (q q' : List Message) (data_set space_set : Bool) : Type 0 where
  pub filled : (is_nil q && (not (is_nil q') && not data_set)) ≡ false
  pub emptied : (not (is_nil q) && (is_nil q' && not space_set)) ≡ false

never_filled : (a b c : Bool) → (a ≡ true → b ≡ false → c ≡ true) → (a && (not b && not c)) ≡ false
never_filled a b c h = ground arith

never_emptied : (a b c : Bool) → (a ≡ false → b ≡ true → c ≡ true) → (not a && (b && not c)) ≡ false
never_emptied a b c h = ground arith

Alerts-Wakes :
    {q q' : List Message} {data_set space_set : Bool}
    → Alerts q q' data_set space_set
    → Wakes q q' data_set space_set
Alerts-Wakes {q} {q'} {data_set} {space_set} a = record {
  filled = never_filled (is_nil q) (is_nil q') data_set a.filled;
  emptied = never_emptied (is_nil q) (is_nil q') space_set a.emptied;
}

-- The queues of both directions with the events that announce them.
pub record WakesBoth (q q' : Queues) (events : List Event) : Type 0 where
  pub down : Wakes q.down q'.down (is_set s2c_data events) (is_set s2c_space events)
  pub up : Wakes q.up q'.up (is_set c2s_data events) (is_set c2s_space events)

-- In a connected session with events, a call that brings the first message into an empty direction
-- sets the data event of that direction, and one that takes the last message out sets its space
-- event.
pub step_wakes :
    (w : World) (q : Queues) (a : Act)
    → w.server.has_events ≡ true
    → IsSession w q
    → WakesBoth q (step_queues q a).1 (step w a).2
unfolding step step_queues send_to_client receive_from_client send_to_server receive_from_server
step_wakes w q (server_send m) e s =
    rw (s.server_on, e, send_to_client)
      (record {
        down = Alerts-Wakes (write-Alerts q.down m s2c_data _ s.down);
        up = Alerts-Wakes (same-Alerts q.up _ _);
      })
step_wakes w q server_receive e s =
    rw (s.server_on, e, receive_from_client)
      (record {
        down = Alerts-Wakes (same-Alerts q.down _ _);
        up = Alerts-Wakes (read-Alerts q.up c2s_space _ s.up);
      })
step_wakes w q (client_send m) e s =
    rw (s.client_on, send_to_server)
      (record {
        down = Alerts-Wakes (same-Alerts q.down _ _);
        up = Alerts-Wakes (write-Alerts q.up m c2s_data _ s.up);
      })
step_wakes w q client_receive e s =
    rw (s.client_on, receive_from_server)
      (record {
        down = Alerts-Wakes (read-Alerts q.down s2c_space _ s.down);
        up = Alerts-Wakes (same-Alerts q.up _ _);
      })
