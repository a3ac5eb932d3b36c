-- ===== src/Ring/Runs.antt =====
-- A client's calls in order, on the ring of src/ring.rs and on the queue that it stands for.
use xshm.Prelude.{
  ◌<◌, ◌^◌, ◌≡◌, refl, ap₂, inl, inr, Bool-cases, arith, ltb, ltb→lt, if◌then◌else◌, List, [], ◌∷◌,
  ◌++◌, length,
}
use xshm.Constants.{max_message_size, min_message_size}
use xshm.Error.{Result, ok, err, queue_empty, message_too_small, message_too_large}
use xshm.Ring.{RingBuffer, WriteOutcome, write_message, read_message}
use xshm.Ring.Queue.{Message, IsMessage, is_nil, make_room}
use xshm.Ring.Rep.{Rep}
use xshm.Ring.Steps.{read_message-Rep}
use xshm.Ring.Refine.{write_message_refines}

pub data Op : Type 0 where
  put : Message → Op
  get : Op

pub data Reply : Type 0 where
  wrote : Result WriteOutcome → Reply
  got : Result Message → Reply

-- What each call returns, and the ring after the last.
unfoldable pub run : RingBuffer → List Op → List Reply × RingBuffer
run r [] = ([], r)
run r (put m ∷ ops) =
    let (res, r') = write_message r m in
    let (replies, last) = run r' ops in (wrote res ∷ replies, last)
run r (get ∷ ops) =
    let (res, r') = read_message r in let (replies, last) = run r' ops in (got res ∷ replies, last)

-- The queue's own push and pop.
unfoldable pub push : List Message → Message → Result WriteOutcome × List Message
push q m =
    if ltb (length m) min_message_size
    then (err message_too_small, q)
    else if ltb max_message_size (length m)
    then (err message_too_large, q)
    else let (k, kept) = make_room q (length m) in
      (ok (record { overwritten = k; was_empty = is_nil kept }), kept ++ m ∷ [])

unfoldable pub pop : List Message → Result Message × List Message
pop [] = (err queue_empty, [])
pop (x ∷ q) = (ok x, q)

unfoldable pub run_queue : List Message → List Op → List Reply × List Message
run_queue q [] = ([], q)
run_queue q (put m ∷ ops) =
    let (res, q') = push q m in
    let (replies, last) = run_queue q' ops in (wrote res ∷ replies, last)
run_queue q (get ∷ ops) =
    let (res, q') = pop q in let (replies, last) = run_queue q' ops in (got res ∷ replies, last)

-- A ring that stands for `q`, with its 32-bit drop counter in range.
pub record Good (r : RingBuffer) (q : List Message) : Type 0 where
  pub rep : Rep r q
  pub drops : r.header.drop_count < 2 ^ 32

-- Sizes outside 2..65535 are refused, and the ring stays as it was.
write_message_small :
    (r : RingBuffer) (m : Message)
    → length m < min_message_size
    → write_message r m ≡ (err message_too_small, r)
unfolding write_message
write_message_small r m h = ground arith

write_message_large :
    (r : RingBuffer) (m : Message)
    → max_message_size < length m
    → write_message r m ≡ (err message_too_large, r)
unfolding write_message
write_message_large r m h = ground arith

drop_count-read_message :
    (r : RingBuffer) → (read_message r).1.header.drop_count ≡ r.header.drop_count
unfolding read_message
drop_count-read_message r = ground arith

read_message_empty :
    (r : RingBuffer) → r.header.message_count ≡ 0 → read_message r ≡ (err queue_empty, r)
unfolding read_message
read_message_empty r h = ground arith

put_ok :
    {r : RingBuffer} (q : List Message) (m : Message)
    → Good r q
    → IsMessage m
    → ((write_message r m).0
        ≡ ok (record {
          overwritten = (make_room q (length m)).0;
          was_empty = is_nil (make_room q (length m)).1;
        }))
      × Good (write_message r m).1 ((make_room q (length m)).1 ++ m ∷ [])
put_ok q m g v =
    let w = write_message_refines q m g.drops g.rep v in
    (ground (arith, w.outcome), record { rep = w.holds; drops = omega (arith, w.dropped) })

pub put_refines :
    {r : RingBuffer} (q : List Message) (m : Message)
    → Good r q
    → ((write_message r m).0 ≡ (push q m).0) × Good (write_message r m).1 (push q m).1
unfolding push
put_refines {r} q m g = elim (Bool-cases (ltb (length m) min_message_size)) [
  | inl small ↦ rw (small, write_message_small r m (ltb→lt _ _ small)) (refl, g)
  | inr ge ↦ elim (Bool-cases (ltb max_message_size (length m))) [
    | inl large ↦ rw (ge, large, write_message_large r m (ltb→lt _ _ large)) (refl, g)
    | inr le ↦ rw (ge, le) (put_ok q m g (ground arith))
  ]
]

pub get_refines :
    {r : RingBuffer} (q : List Message)
    → Good r q
    → ((read_message r).0 ≡ (pop q).0) × Good (read_message r).1 (pop q).1
unfolding pop
get_refines {r} [] g = ground (arith, read_message_empty r g.rep.counted)
get_refines {r} (x ∷ q) g = ground (arith, read_message-Rep g.rep, drop_count-read_message r)

-- No sequence of writes and reads, refused ones included, tells the ring from the queue that it
-- stands for, and the ring stands for that queue at the end.
pub run_refines :
    (q : List Message) (r : RingBuffer) (ops : List Op)
    → Good r q
    → ((run r ops).0 ≡ (run_queue q ops).0) × Good (run r ops).1 (run_queue q ops).1
unfolding run run_queue
run_refines q r [] g = (refl, g)
run_refines q r (put m ∷ ops) g =
    let (res, g') = put_refines q m g in
    let (replies, last) = run_refines (push q m).1 (write_message r m).1 ops g' in
    (ap₂ (λ a b. wrote a ∷ b) res replies, last)
run_refines q r (get ∷ ops) g =
    let (res, g') = get_refines q g in
    let (replies, last) = run_refines (pop q).1 (read_message r).1 ops g' in
    (ap₂ (λ a b. got a ∷ b) res replies, last)
