-- ===== src/Auto/Attempts.antt =====
-- What the worker of `AutoClient` in src/auto/mod.rs tells its handler of connections, and its server.
use xshm.Prelude.{
  ℕ, zero, suc, ◌+◌, ◌≡◌, refl, sym, ap, ◌∙◌, subst, arith, inl, inr, Bool, true, false, not, ◌&&◌,
  Bool-cases, if◌then◌else◌, Option, none, some, List, [], ◌∷◌, ◌++◌, map,
}
use xshm.Error.{Result, ok, err}
use xshm.Segment.{Segment}
use xshm.Client.{SharedClient, connect_begin, connect_end, connect, drop_client, mark_disconnected}
use xshm.Auto.{
  server_to_client, client_to_server, at_least_one, Effect, set_event, on_disconnect,
  on_space_available, on_error, AutoOptions, AutoStats, client_endpoint, drain_commands,
  process_send_queue, process_receive_queue,
}
use xshm.Auto.Worker.{after_wait_any}
use xshm.Auto.Reconnect.{
  ClientWorker, ClientRound, hang_up_client, finish_client_round, client_round, client_loop,
  client_attempt, Attempt, open_client, client_worker,
}
use xshm.Auto.Quiet.{
  Quiet, append-Quiet, none-Quiet, connects, connects-append, disconnects, disconnects-append,
  connects-events, disconnects-events, hang_ups, hang_ups-append, flag, client_on, client-Calm,
  process_send_queue-Keeps, receive_loop-Keeps,
}
use xshm.Delay.{wait_delay}

-- The effects of a connected worker: no connection, no event of the end, and the handler is told of the
-- end exactly if the client is not connected afterwards.
record Served (w : ClientWorker) (es : List Effect) : Type 0 where
  pub no_connects : connects es ≡ 0
  pub no_hang_ups : hang_ups es ≡ 0
  pub ends : disconnects es + flag w.client.connected ≡ 1

quiet_then : (w : ClientWorker) (es fs : List Effect) → Quiet es → Served w fs → Served w (es ++ fs)
quiet_then w es fs q s = record {
  no_connects = omega (arith, connects-append es fs, q.no_connects, s.no_connects);
  no_hang_ups = omega (arith, hang_ups-append es fs, q.no_hang_ups, s.no_hang_ups);
  ends = omega (arith, disconnects-append es fs, q.no_disconnects, s.ends);
}

stays :
    (w : ClientWorker) (es fs : List Effect)
    → Quiet es
    → Quiet fs
    → w.client.connected ≡ true
    → Served w (es ++ fs)
stays w es fs q q' on = quiet_then w es fs q (record {
  no_connects = q'.no_connects;
  no_hang_ups = q'.no_hang_ups;
  ends = omega (arith, q'.no_disconnects, ap flag on);
})

-- A round that goes on leaves the client connected.
record Goes (goes_on : Bool) (w : ClientWorker) (es : List Effect) : Type 0 where
  pub served : Served w es
  pub on : goes_on ≡ true → w.client.connected ≡ true

finish_client_round-Goes :
    (fatal more : Bool) (woken : Result (Option ℕ)) (w : ClientWorker) (es : List Effect)
    → Quiet es
    → w.client.connected ≡ true
    → let (goes_on, w', es') = finish_client_round fatal more woken w es in Goes goes_on w' es'
unfolding finish_client_round after_wait_any mark_disconnected
finish_client_round-Goes true more woken w es q on = record {
  served =
      quiet_then (hang_up_client w) es (on_disconnect ∷ []) q
        (record { no_connects = refl; no_hang_ups = refl; ends = refl });
  on = λ h. cc h;
}
finish_client_round-Goes false true woken w es q on = record {
  served = record {
    no_connects = q.no_connects;
    no_hang_ups = q.no_hang_ups;
    ends = omega (arith, q.no_disconnects, ap flag on);
  };
  on = λ _. on;
}
finish_client_round-Goes false false (err e) w es q on = record {
  served =
      quiet_then (hang_up_client w) es (on_error e ∷ on_disconnect ∷ []) q
        (record { no_connects = refl; no_hang_ups = refl; ends = refl });
  on = λ h. cc h;
}
finish_client_round-Goes false false (ok none) w es q on = record {
  served = stays w es [] q none-Quiet on;
  on = λ _. on;
}
finish_client_round-Goes false false (ok (some zero)) w es q on = record {
  served =
      quiet_then (hang_up_client w) es (on_disconnect ∷ []) q
        (record { no_connects = refl; no_hang_ups = refl; ends = refl });
  on = λ h. cc h;
}
finish_client_round-Goes false false (ok (some (suc zero))) w es q on = record {
  served = stays w es [] q none-Quiet on;
  on = λ _. on;
}
finish_client_round-Goes false false (ok (some (suc (suc zero)))) w es q on = record {
  served =
      stays w es (on_space_available client_to_server ∷ []) q
        (record { no_connects = refl; no_disconnects = refl; no_hang_ups = refl }) on;
  on = λ _. on;
}
finish_client_round-Goes false false (ok (some (suc (suc (suc n))))) w es q on = record {
  served = stays w es [] q none-Quiet on;
  on = λ _. on;
}

client_round-Goes :
    (o : AutoOptions) (r : ClientRound) (w : ClientWorker)
    → w.client.connected ≡ true
    → let (goes_on, w', es) = client_round o r w in Goes goes_on w' es
unfolding client_round process_receive_queue
client_round-Goes o r w on =
    let (queue, running) = drain_commands o r.commands w.send_queue w.running in
    let e : SharedClient × Segment = (w.client, r.during w.view) in
    let sent = process_send_queue client_endpoint client_to_server e queue w.stats in
    let outcome =
      process_receive_queue client_endpoint server_to_client o.recv_batch sent.endpoint
        sent.stats in
    let k =
      process_send_queue-Keeps client_endpoint client_on client-Calm client_to_server e queue
        w.stats in
    let k' =
      receive_loop-Keeps client_endpoint client_on client-Calm server_to_client
        (at_least_one o.recv_batch) sent.endpoint sent.stats in
    finish_client_round-Goes outcome.fatal outcome.more_pending r.woken _ _
      (append-Quiet sent.effects outcome.effects k.quiet k'.quiet) (k'.same ∙ k.same ∙ on)

nothing-Served : (w : ClientWorker) → w.client.connected ≡ true → Served w []
nothing-Served w on = record {
  no_connects = refl;
  no_hang_ups = refl;
  ends = omega (arith, ap flag on);
}

client_loop-Served :
    (o : AutoOptions) (rounds : List ClientRound) (w : ClientWorker)
    → w.client.connected ≡ true
    → let (w', es) = client_loop o rounds w in Served w' es
unfolding client_loop
client_loop-Served o [] w on = nothing-Served w on
client_loop-Served o (r ∷ rounds) w on =
    let (goes_on, w', effects) = client_round o r w in
    let (last, more) = client_loop o rounds w' in
    let one = client_round-Goes o r w on in
    let Goal : Bool → Bool → Type 0 = λ a b.
      let x : ClientWorker × List Effect =
        if not a then (w, []) else if b then (last, effects ++ more) else (w', effects) in
      Served x.0 x.1 in
    elim (Bool-cases w.running) [
      | inr off ↦ subst (λ a. Goal a goes_on) (sym off) (nothing-Served w on)
      | inl up ↦
          subst (λ a. Goal a goes_on) (sym up)
            (elim (Bool-cases goes_on) [
              | inr ended ↦ subst (Goal true) (sym ended) one.served
              | inl goes ↦
                  let rest = client_loop-Served o rounds w' (one.on goes) in
                  subst (Goal true) (sym goes) (record {
                    no_connects = omega (
                      arith,
                      connects-append effects more,
                      one.served.no_connects,
                      rest.no_connects,
                    );
                    no_hang_ups = omega (
                      arith,
                      hang_ups-append effects more,
                      one.served.no_hang_ups,
                      rest.no_hang_ups,
                    );
                    ends = omega (
                      arith,
                      disconnects-append effects more,
                      one.served.ends,
                      rest.ends,
                      ap flag (one.on goes),
                    );
                  })
            ])
    ]

-- What a client that is dropped sets.
drop_client-hang_ups :
    (c : SharedClient) (v : Segment)
    → hang_ups (map set_event (drop_client c v).1) ≡ flag c.connected
unfolding drop_client
drop_client-hang_ups c v = elim (Bool-cases c.connected) [
  | inl on ↦ rw on refl
  | inr off ↦ rw off refl
]

-- `connect` gives a connected client.
connect_end-connected :
    (acked : Result Bool) (v : Segment) (c : SharedClient)
    → (connect_end acked v).0 ≡ ok c
    → c.connected ≡ true
unfolding connect_end
connect_end-connected acked v c h = ground (arith, h)

open_client-connected :
    (a : Attempt) (c : SharedClient) → (open_client a).0 ≡ ok c → c.connected ≡ true
unfolding open_client connect
open_client-connected a c h = ground (
  arith,
  h,
  connect_end-connected a.acked (a.during (connect_begin a.opened a.requested a.view).1) c,
)

client_attempt-even :
    (o : AutoOptions) (opened : Result SharedClient) (view : Segment) (rounds : List ClientRound)
    (queue : List (List ℕ)) (stats : AutoStats) (running : Bool)
    → ((c : SharedClient) → opened ≡ ok c → c.connected ≡ true)
    → let es = (client_attempt o (opened, view) rounds queue stats running).1 in
      connects es ≡ disconnects es + hang_ups es
unfolding client_attempt
client_attempt-even o (err e) view rounds queue stats running on = refl
client_attempt-even o (ok c) view rounds queue stats running on =
    let w : ClientWorker = record {
      client = c;
      view = view;
      send_queue = queue;
      stats = stats;
      running = running;
    } in
    let (w', effects) = client_loop o rounds w in
    let s = client_loop-Served o rounds w (on c refl) in
    let events = (drop_client w'.client w'.view).1 in
    omega (
      arith,
      s.no_connects,
      s.no_hang_ups,
      s.ends,
      connects-append effects (map set_event events),
      disconnects-append effects (map set_event events),
      hang_ups-append effects (map set_event events),
      connects-events events,
      disconnects-events events,
      drop_client-hang_ups w'.client w'.view,
    )

-- Over any attempts of the worker of an `AutoClient`, whatever the server and the operating system do, its
-- handler is told of just as many connections as there are ends, of which either the handler is told or
-- the server, by the event that is set when the client is dropped.
pub client_worker-even :
    (o : AutoOptions) (attempts : List Attempt) (queue : List (List ℕ)) (stats : AutoStats)
    (running : Bool)
    → let es = client_worker o attempts queue stats running in
      connects es ≡ disconnects es + hang_ups es
unfolding client_worker
client_worker-even o [] queue stats running = refl
client_worker-even o (a ∷ attempts) queue stats running =
    let out : ClientWorker × List Effect =
      client_attempt o (open_client a) a.rounds queue stats true in
    let rest = client_worker o attempts out.0.send_queue out.0.stats out.0.running in
    let one : connects out.1 ≡ disconnects out.1 + hang_ups out.1 =
      client_attempt-even o (open_client a).0 (open_client a).1 a.rounds queue stats true
        (open_client-connected a) in
    let more = client_worker-even o attempts out.0.send_queue out.0.stats out.0.running in
    let both : connects (out.1 ++ rest) ≡ disconnects (out.1 ++ rest) + hang_ups (out.1 ++ rest) =
      omega (
        arith,
        one,
        more,
        connects-append out.1 rest,
        disconnects-append out.1 rest,
        hang_ups-append out.1 rest,
      ) in
    let Even : List Effect → Type 0 = λ es. connects es ≡ disconnects es + hang_ups es in
    let last : (b : Bool) → Even (if b then out.1 ++ rest else out.1) = λ b.
      elim b as (λ k. Even (if k then out.1 ++ rest else out.1)) [ true ↦ both | false ↦ one ] in
    let goes_on = out.0.running && wait_delay a.no_delay a.loads a.last in
    let Goal : Bool → Type 0 =
      λ b. Even (if not b then [] else if goes_on then out.1 ++ rest else out.1) in
    elim (Bool-cases (running && a.found_running)) [
      | inr off ↦ subst Goal (sym off) refl
      | inl on ↦ subst Goal (sym on) (last goes_on)
    ]
