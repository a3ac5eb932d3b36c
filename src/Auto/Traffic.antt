-- ===== src/Auto/Traffic.antt =====
-- What `process_send_queue` and `process_receive_queue` of src/auto/mod.rs do to the two queues of a
-- connection.
use xshm.Prelude.{
  ℕ, zero, suc, ◌+◌, ◌<◌, ◌^◌, ◌%◌, ◌≡◌, refl, sym, ap, ◌∙◌, subst, arith, ◌⊎◌, Bool, true, false,
  leb, ltb, if◌then◌else◌, List, [], ◌∷◌, ◌++◌, map, length, take, drop, All,
}
use xshm.Constants.{min_message_size, max_message_size}
use xshm.Error.{ok, err, queue_empty, message_too_small, message_too_large}
use xshm.Ring.{WriteOutcome}
use xshm.Ring.Queue.{Message, IsMessage, is_nil, make_room}
use xshm.Ring.Runs.{push, pop}
use xshm.Segment.{Event}
use xshm.Auto.{
  ChannelKind, Effect, set_event, on_message, on_error, AutoStats, fetch_add, count_sent,
  overflow_effect, Endpoint, Sent, ReceiveOutcome, at_least_one, process_send_queue, receive_loop,
  process_receive_queue,
}
use xshm.Auto.Link.{IsLink}

-- The queue after all of the messages are pushed, and how many are dropped for them.
unfoldable pub push_all : List Message → List Message → ℕ × List Message
push_all q [] = (0, q)
push_all q (m ∷ ms) =
    let (k, kept) = make_room q (length m) in
    let (dropped, last) = push_all (kept ++ m ∷ []) ms in (k + dropped, last)

pub push_ok :
    (q : List Message) (m : Message)
    → IsMessage m
    → push q m ≡ (
      ok (record {
        overwritten = (make_room q (length m)).0;
        was_empty = is_nil (make_room q (length m)).1;
      }),
      (make_room q (length m)).1 ++ m ∷ [],
    )
unfolding push
push_ok q m v = ground arith

-- the payloads that the handler is given
abbrev pub messages : List Effect → List Message
messages [] = []
messages (on_message direction m ∷ es) = m ∷ messages es
messages (_ ∷ es) = messages es

messages-events :
    (events : List Event) (es : List Effect) → messages (map set_event events ++ es) ≡ messages es
messages-events [] es = refl
messages-events (e ∷ events) es = messages-events events es

module _ {E : Type 0} (io : Endpoint E) (Link : E → List Message → List Message → Type 0)
    (laws : IsLink io Link) (direction : ChannelKind) where
  -- What `process_receive_queue` does to a link with `inn` on its way in, for at most `n` messages.
  pub record Received (e : E) (out inn : List Message) (n : ℕ) (r : ReceiveOutcome E) : Type 0 where
    pub link : Link r.endpoint out (drop n inn)
    pub delivered : messages r.effects ≡ take n inn
    pub alive : r.fatal ≡ false
    pub pending : r.more_pending ≡ leb n (length inn)

  abbrev count_received : AutoStats → AutoStats
  count_received stats = record stats { received_messages = fetch_add stats.received_messages 1 }

  receive_stop :
      (n : ℕ) (e : E) (stats : AutoStats)
      → (io.read e).0 ≡ err queue_empty
      → receive_loop io direction (suc n) e stats ≡ record {
        endpoint = (io.read e).1;
        stats = stats;
        effects = map set_event (io.read e).2 ++ [];
        fatal = false;
        more_pending = false;
      }
  unfolding receive_loop
  receive_stop n e stats h = rw (h, receive_loop)

  receive_more :
      (n : ℕ) (e : E) (stats : AutoStats) (m : Message)
      → (io.read e).0 ≡ ok m
      → let rest = receive_loop io direction n (io.read e).1 (count_received stats) in
        receive_loop io direction (suc n) e stats ≡ record rest {
          effects = map set_event (io.read e).2 ++ on_message direction m ∷ rest.effects;
        }
  unfolding receive_loop
  receive_more n e stats m h = rw (h, receive_loop)

  receive_loop-Received :
      (n : ℕ) (e : E) (out inn : List Message) (stats : AutoStats)
      → Link e out inn
      → Received e out inn n (receive_loop io direction n e stats)
  unfolding receive_loop pop
  receive_loop-Received zero e out inn stats l = record {
    link = l;
    delivered = refl;
    alive = refl;
    pending = ground arith;
  }
  receive_loop-Received (suc n) e out [] stats l =
      let (res, l') = laws.read_refines e out [] l in
      subst (Received e out [] (suc n)) (sym (receive_stop n e stats res)) (record {
        link = l';
        delivered = messages-events (io.read e).2 [];
        alive = refl;
        pending = ground arith;
      })
  receive_loop-Received (suc n) e out (m ∷ inn) stats l =
      let (res, l') = laws.read_refines e out (m ∷ inn) l in
      let rest = receive_loop io direction n (io.read e).1 (count_received stats) in
      let r = receive_loop-Received n (io.read e).1 out inn (count_received stats) l' in
      subst (Received e out (m ∷ inn) (suc n)) (sym (receive_more n e stats m res)) (record {
        link = r.link;
        delivered =
            messages-events (io.read e).2 (on_message direction m ∷ rest.effects)
            ∙ ap (λ ms. m ∷ ms) r.delivered;
        alive = r.alive;
        pending = r.pending ∙ ground arith;
      })

  -- One pass of `process_receive_queue` over a connected link hands the handler the messages that wait,
  -- in order, and no more than the batch, which counts as at least one; it never finds the link broken,
  -- leaves the rest for later, and says that more may wait exactly when the batch was used up.
  pub process_receive_queue-Received :
      (batch : ℕ) (e : E) (out inn : List Message) (stats : AutoStats)
      → Link e out inn
      → Received e out inn (at_least_one batch) (process_receive_queue io direction batch e stats)
  unfolding process_receive_queue
  process_receive_queue-Received batch = receive_loop-Received (at_least_one batch)

  -- What `process_send_queue` does with messages of a size that can be sent.
  pub record AllSent (e : E) (out inn ms : List Message) (stats : AutoStats) (s : Sent E)
      : Type 0 where
    pub link : Link s.endpoint (push_all out ms).1 inn
    pub emptied : s.queue ≡ []
    pub counted : s.stats.sent_messages ≡ (stats.sent_messages + length ms) % 2 ^ 64
    pub overflows : s.stats.send_overflows ≡ (stats.send_overflows + (push_all out ms).0) % 2 ^ 64

  send_one :
      (e : E) (m : Message) (ms : List Message) (stats : AutoStats) (w : WriteOutcome)
      → (io.write e m).0 ≡ ok w
      → let rest = process_send_queue io direction (io.write e m).1 ms (count_sent stats w) in
        process_send_queue io direction e (m ∷ ms) stats ≡ record rest {
          effects = map set_event (io.write e m).2 ++ (overflow_effect direction w ++ rest.effects);
        }
  unfolding process_send_queue
  send_one e m ms stats w h = rw (h, process_send_queue)

  -- A `process_send_queue` on a connected link, when every message in the queue has 2 to 65535 bytes,
  -- sends them all in order and leaves the queue empty, and the counters go up, modulo 2^64, by the
  -- messages sent and by those that the ring dropped for them.
  pub process_send_queue-AllSent :
      (e : E) (out inn ms : List Message) (stats : AutoStats)
      → Link e out inn
      → All IsMessage ms
      → stats.sent_messages < 2 ^ 64
      → stats.send_overflows < 2 ^ 64
      → AllSent e out inn ms stats (process_send_queue io direction e ms stats)
  unfolding process_send_queue push_all
  process_send_queue-AllSent e out inn [] stats l v a b = record {
    link = l;
    emptied = refl;
    counted = omega arith;
    overflows = omega arith;
  }
  process_send_queue-AllSent e out inn (m ∷ ms) stats l (v, vs) a b =
      let (res, l') = laws.write_refines e out inn m l in
      let kept = make_room out (length m) in
      let w : WriteOutcome = record { overwritten = kept.0; was_empty = is_nil kept.1 } in
      let pushed = push_ok out m v in
      let link : Link (io.write e m).1 (kept.1 ++ m ∷ []) inn =
        subst (λ p. Link (io.write e m).1 p inn) (ap (λ p. p.1) pushed) l' in
      let s =
        process_send_queue-AllSent (io.write e m).1 (kept.1 ++ m ∷ []) inn ms (count_sent stats w)
          link vs (omega arith) (ground arith) in
      subst (AllSent e out inn (m ∷ ms) stats)
        (sym (send_one e m ms stats w (res ∙ ap (λ p. p.0) pushed)))
        (record {
          link = s.link;
          emptied = s.emptied;
          counted = ground (arith, s.counted);
          overflows = ground (arith, s.overflows);
        })

  -- So many passes of `process_send_queue`, with nothing in between.
  unfoldable pub send_passes : ℕ → E → List Message → AutoStats → Sent E
  send_passes zero e ms stats = record { endpoint = e; queue = ms; stats = stats; effects = [] }
  send_passes (suc k) e ms stats =
      let s = process_send_queue io direction e ms stats in
      let rest = send_passes k s.endpoint s.queue s.stats in
      record rest { effects = s.effects ++ rest.effects }

  push_bad :
      (q : List Message) (m : Message)
      → (length m < min_message_size) ⊎ (max_message_size < length m)
      → push q m ≡ (
        err (if ltb (length m) min_message_size then message_too_small else message_too_large),
        q,
      )
  unfolding push
  push_bad q m bad = ground arith

  refuse_one :
      (e : E) (m : Message) (ms : List Message) (stats : AutoStats) (small : Bool)
      → (io.write e m).0 ≡ err (if small then message_too_small else message_too_large)
      → process_send_queue io direction e (m ∷ ms) stats ≡ record {
        endpoint = (io.write e m).1;
        queue = m ∷ ms;
        stats = stats;
        effects =
            map set_event (io.write e m).2
            ++ on_error (if small then message_too_small else message_too_large) ∷ [];
      }
  unfolding process_send_queue
  refuse_one e m ms stats true h = rw (h, process_send_queue)
  refuse_one e m ms stats false h = rw (h, process_send_queue)

  -- A message of fewer than 2 or more than 65535 bytes at the front of the queue stops all that are
  -- behind it: after any number of passes of `process_send_queue` over a connected link the queue is
  -- as it was, nothing has been sent and the counters have not moved.
  pub bad_message_blocks :
      (k : ℕ) (e : E) (out inn : List Message) (m : Message) (ms : List Message) (stats : AutoStats)
      → Link e out inn
      → (length m < min_message_size) ⊎ (max_message_size < length m)
      → let s = send_passes k e (m ∷ ms) stats in
        Link s.endpoint out inn × (s.queue ≡ m ∷ ms) × (s.stats ≡ stats)
  unfolding send_passes
  bad_message_blocks zero e out inn m ms stats l bad = (l, refl, refl)
  bad_message_blocks (suc k) e out inn m ms stats l bad =
      let (res, l') = laws.write_refines e out inn m l in
      let pushed = push_bad out m bad in
      let link : Link (io.write e m).1 out inn =
        subst (λ p. Link (io.write e m).1 p inn) (ap (λ p. p.1) pushed) l' in
      let one =
        refuse_one e m ms stats (ltb (length m) min_message_size) (res ∙ ap (λ p. p.0) pushed) in
      subst
        (λ (s : Sent E).
          let rest = send_passes k s.endpoint s.queue s.stats in
          Link rest.endpoint out inn × (rest.queue ≡ m ∷ ms) × (rest.stats ≡ stats))
        (sym one) (bad_message_blocks k (io.write e m).1 out inn m ms stats link bad)
