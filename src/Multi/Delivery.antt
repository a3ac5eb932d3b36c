-- ===== src/Multi/Delivery.antt =====
-- What the worker of a `MultiClient` of src/multi/mod.rs does with the messages of its ring and with a
-- shutdown.
use xshm.Prelude.{
  ℕ, zero, suc, ◌≡◌, ◌≢◌, refl, sym, ap, ◌∙◌, subst, arith, inl, inr, Bool, true, false, Bool-cases,
  not, ◌==◌, if◌then◌else◌, none, List, [], ◌∷◌, ◌++◌, map, length,
}
use xshm.Constants.{slot_id_no_slot}
use xshm.Error.{ok, err, queue_empty}
use xshm.Segment.{Segment, Event}
use xshm.Ring.{message_count}
use xshm.Ring.Queue.{Message}
use xshm.Ring.Runs.{pop}
use xshm.Client.{SharedClient, receive_from_server}
use xshm.Auto.Link.{ClientLink, client-IsLink}
use xshm.Multi.Claim.{push_with_cap}
use xshm.Multi.Client.{
  ClientCommand, send, shutdown, ClientEffect, set_event, on_message, ClientState, is_connected,
  take_commands, receive_all, ClientRound, ended, client_round, client_loop, use_slot,
}

-- the messages that the handler is given
abbrev pub messages : List ClientEffect → List Message
messages [] = []
messages (on_message m ∷ es) = m ∷ messages es
messages (_ ∷ es) = messages es

messages-events :
    (events : List Event) (es : List ClientEffect)
    → messages (map set_event events ++ es) ≡ messages es
messages-events [] es = refl
messages-events (e ∷ events) es = messages-events events es

-- What `receive_all` does when the messages `inn` wait.
pub record ReceivedAll (client : SharedClient) (out inn : List Message)
    (last : Segment × List ClientEffect) : Type 0 where
  pub link : ClientLink (client, last.0) out []
  pub delivered : messages last.1 ≡ inn

receive_all_more :
    (n : ℕ) (client : SharedClient) (v : Segment) (m : Message)
    → (receive_from_server client v).0 ≡ ok m
    → let (_, v', events) = receive_from_server client v in
      receive_all (suc n) client v ≡ (
        (receive_all n client v').0,
        map set_event events ++ on_message m ∷ (receive_all n client v').1,
      )
unfolding receive_all
receive_all_more n client v m h = rw (h, receive_all)

receive_all_empty :
    (client : SharedClient) (v : Segment)
    → (receive_from_server client v).0 ≡ err queue_empty
    → receive_all zero client v
      ≡ ((receive_from_server client v).1, map set_event (receive_from_server client v).2 ++ [])
unfolding receive_all
receive_all_empty client v h = rw (h, receive_all)

receive_all-length :
    (client : SharedClient) (v : Segment) (out inn : List Message)
    → ClientLink (client, v) out inn
    → ReceivedAll client out inn (receive_all (length inn) client v)
unfolding pop
receive_all-length client v out [] l =
    let (res, l') = client-IsLink.read_refines (client, v) out [] l in
    subst (ReceivedAll client out []) (sym (receive_all_empty client v res))
      (record { link = l'; delivered = messages-events (receive_from_server client v).2 [] })
receive_all-length client v out (m ∷ inn) l =
    let (res, l') = client-IsLink.read_refines (client, v) out (m ∷ inn) l in
    let (_, v', events) = receive_from_server client v in
    let rest = receive_all-length client v' out inn l' in
    subst (ReceivedAll client out (m ∷ inn)) (sym (receive_all_more (length inn) client v m res))
      (record {
        link = rest.link;
        delivered =
            messages-events events (on_message m ∷ (receive_all (length inn) client v').1)
            ∙ ap (λ ms. m ∷ ms) rest.delivered;
      })

-- A connected client that receives until there is an error hands its handler all the messages that
-- wait, in order, and leaves none; the number of messages in the header is enough rounds for the loop.
pub receive_all-ReceivedAll :
    (client : SharedClient) (v : Segment) (out inn : List Message)
    → ClientLink (client, v) out inn
    → ReceivedAll client out inn (receive_all (message_count v.ring_a) client v)
unfolding message_count
receive_all-ReceivedAll client v out inn l =
    subst (λ n. ReceivedAll client out inn (receive_all n client v)) (sym l.down.rep.counted)
      (receive_all-length client v out inn l)

-- A shutdown is among the commands.
abbrev pub has_shutdown : List ClientCommand → Bool
has_shutdown [] = false
has_shutdown (send bytes ∷ rx) = has_shutdown rx
has_shutdown (shutdown ∷ rx) = true

record Stops (rx : List ClientCommand) (c c' : ClientState) : Type 0 where
  same_slot : c'.slot_id ≡ c.slot_id
  stopped : c.running ≡ false → c'.running ≡ false
  shut : has_shutdown rx ≡ true → c'.running ≡ false

take_commands-Stops :
    (n : ℕ) (rx : List ClientCommand) (c : ClientState) → Stops rx c (take_commands n rx c).0
unfolding take_commands
take_commands-Stops n [] c = record { same_slot = refl; stopped = λ h. h; shut = λ h. cc }
take_commands-Stops n (send bytes ∷ rx) c =
    let s =
      take_commands-Stops n rx (record c { send_queue = (push_with_cap c.send_queue bytes n).0 }) in
    record { same_slot = s.same_slot; stopped = s.stopped; shut = s.shut }
take_commands-Stops n (shutdown ∷ rx) c =
    let s = take_commands-Stops n rx (record c { running = false }) in
    record { same_slot = s.same_slot; stopped = λ _. s.stopped refl; shut = λ _. s.stopped refl }

-- The two tests of `client_loop` on what it may give.
abbrev proceed :
    Bool
    → Bool
    → (stop more done : ClientState × List ClientEffect) → ClientState × List ClientEffect
proceed stopped goes_on stop more done = if stopped then stop else if goes_on then more else done

loop_stopped :
    (n : ℕ) (rounds : List ClientRound) (c : ClientState)
    → c.running ≡ false
    → (client_loop n rounds c).0 ≡ c
unfolding client_loop
loop_stopped n [] c off = refl
loop_stopped n (r ∷ rounds) c off =
    let (goes_on, c', effects) = client_round n r c in
    let (last, more) = client_loop n rounds c' in
    subst (λ b. (proceed (not b) goes_on (c, []) (last, effects ++ more) (c', effects)).0 ≡ c)
      (sym off) refl

-- A round whose wait ends with its timeout.
record Waits (n : ℕ) (r : ClientRound) (c : ClientState) : Type 0 where
  goes_on : (client_round n r c).0 ≡ true
  same_slot : (client_round n r c).1.slot_id ≡ c.slot_id
  shut : has_shutdown r.commands ≡ true → (client_round n r c).1.running ≡ false

round-Waits : (n : ℕ) (r : ClientRound) (c : ClientState) → ended r.woken ≡ none → Waits n r c
unfolding client_round
round-Waits n r c h =
    let s = take_commands-Stops n r.commands c in
    record {
      goes_on = rw (h, client_round) refl;
      same_slot = rw (h, client_round) s.same_slot;
      shut = λ e. rw (h, client_round) (s.shut e);
    }

loop_slot :
    (n : ℕ) (r : ClientRound) (rounds : List ClientRound) (c : ClientState)
    → c.running ≡ true
    → has_shutdown r.commands ≡ true
    → ended r.woken ≡ none
    → (client_loop n (r ∷ rounds) c).0.slot_id ≡ c.slot_id
unfolding client_loop
loop_slot n r rounds c on shut waits =
    let w = round-Waits n r c waits in
    let (goes_on, c', effects) = client_round n r c in
    let (last, more) = client_loop n rounds c' in
    subst
      (λ b.
        (proceed (not b) goes_on (c, []) (last, effects ++ more) (c', effects)).0.slot_id
        ≡ c.slot_id)
      (sym on)
      (subst
        (λ b. (proceed false b (c, []) (last, effects ++ more) (c', effects)).0.slot_id ≡ c.slot_id)
        (sym w.goes_on)
        (ap (λ (d : ClientState). d.slot_id) (loop_stopped n rounds c' (w.shut shut))
          ∙ w.same_slot))

distinct : (slot_id : ℕ) → slot_id ≢ slot_id_no_slot → not (slot_id == slot_id_no_slot) ≡ true
distinct slot_id on = elim (Bool-cases (slot_id == slot_id_no_slot)) [
  | inl e ↦ absurd (on (ground arith))
  | inr e ↦ rw e refl
]

-- When a shutdown comes in the first round and its wait ends with the timeout, then after the worker has
-- left its slot `is_connected` still says that the client is connected, whatever the other commands, the
-- rounds that are left, the messages and the server do.
pub shutdown_stays_connected :
    (n slot_id token : ℕ) (client : SharedClient) (v : Segment) (r : ClientRound)
    (rounds : List ClientRound)
    → slot_id ≢ slot_id_no_slot
    → has_shutdown r.commands ≡ true
    → r.woken ≡ ok none
    → is_connected (use_slot n slot_id token (ok client, v) (r ∷ rounds)).0 ≡ true
unfolding use_slot is_connected ended
shutdown_stays_connected n slot_id token client v r rounds on shut woken =
    let start : ClientState = record {
      client = client;
      view = v;
      send_queue = [];
      slot_id = slot_id;
      running = true;
    } in
    let same = loop_slot n r rounds start refl shut (ap ended woken) in
    rw same (distinct slot_id on)
