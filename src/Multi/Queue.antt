-- ===== src/Multi/Queue.antt =====
-- What the worker of a `MultiClient` of src/multi/mod.rs sends of its queue.
use xshm.Prelude.{◌≡◌, refl, sym, ap, ◌∙◌, subst, List, [], ◌∷◌, ◌++◌, map, length, All}
use xshm.Error.{ok}
use xshm.Segment.{Segment}
use xshm.Ring.{WriteOutcome}
use xshm.Ring.Queue.{Message, IsMessage, is_nil, make_room}
use xshm.Client.{SharedClient, send_to_server}
use xshm.Auto.Link.{ClientLink, client-IsLink}
use xshm.Auto.Traffic.{push_all, push_ok}
use xshm.Multi.Client.{ClientEffect, set_event, send_queued}

-- What `send_queued` leaves of messages that can all be sent.
pub record SentAll (client : SharedClient) (out inn ms : List Message)
    (last : List Message × Segment × List ClientEffect) : Type 0 where
  pub emptied : last.0 ≡ []
  pub link : ClientLink (client, last.1) (push_all out ms).1 inn

send_queued_one :
    (client : SharedClient) (m : Message) (ms : List Message) (v : Segment) (w : WriteOutcome)
    → (send_to_server client m v).0 ≡ ok w
    → let (left, last, effects) = send_queued client ms (send_to_server client m v).1 in
      send_queued client (m ∷ ms) v
      ≡ (left, last, map set_event (send_to_server client m v).2 ++ effects)
unfolding send_queued
send_queued_one client m ms v w h = rw (h, send_queued)

-- The queue of a connected client, when every message in it has 2 to 65535 bytes, is sent in order and
-- left empty.
pub send_queued-SentAll :
    (client : SharedClient) (out inn ms : List Message) (v : Segment)
    → ClientLink (client, v) out inn
    → All IsMessage ms
    → SentAll client out inn ms (send_queued client ms v)
unfolding send_queued push_all
send_queued-SentAll client out inn [] v l _ = record { emptied = refl; link = l }
send_queued-SentAll client out inn (m ∷ ms) v l (ok_m, ok_ms) =
    let (res, l') = client-IsLink.write_refines (client, v) out inn m l in
    let kept = make_room out (length m) in
    let w : WriteOutcome = record { overwritten = kept.0; was_empty = is_nil kept.1 } in
    let pushed = push_ok out m ok_m in
    let v' = (send_to_server client m v).1 in
    let link : ClientLink (client, v') (kept.1 ++ m ∷ []) inn =
      subst (λ p. ClientLink (client, v') p inn) (ap (λ p. p.1) pushed) l' in
    let s = send_queued-SentAll client (kept.1 ++ m ∷ []) inn ms v' link ok_ms in
    subst (SentAll client out inn (m ∷ ms))
      (sym (send_queued_one client m ms v w (res ∙ ap (λ p. p.0) pushed)))
      (record { emptied = s.emptied; link = s.link })
