-- ===== src/Ring/Refine.antt =====
-- The ring of src/ring.rs and the bounded queue of Ring/Queue.antt.
use xshm.Prelude.{
  ℕ, ◌+◌, ◌^◌, ◌<◌, ◌≡◌, refl, sym, subst, inl, inr, arith, Bool-cases, true, List, [], ◌∷◌, ◌++◌,
  length,
}
use xshm.Word.{wrapping_add}
use xshm.Error.{Result, ok}
use xshm.Ring.{RingBuffer, WriteOutcome, write_loop, write_message, discard_oldest, commit}
use xshm.Ring.Queue.{Message, IsMessage, fits, is_nil, make_room}
use xshm.Ring.Rep.{Rep, is_full-fits}
use xshm.Ring.Steps.{discard_oldest-Rep, commit-Rep}

-- What a write leaves when it dropped `k` messages after `n` others, and kept `kept`.
pub record Written (r : RingBuffer) (m : Message) (n k : ℕ) (kept : List Message)
    (out : Result WriteOutcome × RingBuffer) : Type 0 where
  pub outcome : out.0 ≡ ok (record { overwritten = n + k; was_empty = is_nil kept })
  pub holds : Rep out.1 (kept ++ m ∷ [])
  pub dropped : out.1.header.drop_count ≡ wrapping_add r.header.drop_count k

drop_count-commit :
    (r : RingBuffer) (m : Message) (n : ℕ)
    → (commit r m n).1.header.drop_count ≡ r.header.drop_count
unfolding commit
drop_count-commit r m n = refl

commit-Written :
    {r : RingBuffer} {q : List Message} (m : Message) (n : ℕ)
    → r.header.drop_count < 2 ^ 32
    → Rep r q
    → IsMessage m
    → fits q (length m) ≡ true
    → Written r m n 0 q (commit r m n)
commit-Written {r} m n d v ok_m room = record {
  outcome = ground (arith, (commit-Rep m n v ok_m room).0);
  holds = (commit-Rep m n v ok_m room).1;
  dropped = ground (arith, drop_count-commit r m n);
}

-- A write after a discard, seen from before the discard.
discard-Written :
    (r r' : RingBuffer) (m : Message) (n k : ℕ) (kept : List Message)
    (out : Result WriteOutcome × RingBuffer)
    → n + 1 < 2 ^ 32
    → r'.header.drop_count ≡ wrapping_add r.header.drop_count 1
    → Written r' m (wrapping_add n 1) k kept out
    → Written r m n (k + 1) kept out
discard-Written r r' m n k kept out small d w = record {
  outcome = ground (arith, w.outcome);
  holds = w.holds;
  dropped = omega (arith, w.dropped, d);
}

write_loop-Written :
    (q : List Message) (r : RingBuffer) (m : Message) (n : ℕ)
    → r.header.drop_count < 2 ^ 32
    → n + length q < 2 ^ 32
    → Rep r q
    → IsMessage m
    → Written r m n
        (make_room q (length m)).0
        (make_room q (length m)).1
        (write_loop (length q) r m n)
unfolding write_loop make_room
write_loop-Written [] r m n d small v ok_m =
    let room : fits [] (length m) ≡ true = ground arith in
    rw (is_full-fits v (length m) ok_m.1, room) (commit-Written m n d v ok_m room)
write_loop-Written (x ∷ q) r m n d small v ok_m =
    let after = discard_oldest-Rep v in
    elim (Bool-cases (fits (x ∷ q) (length m))) [
      | inl e ↦ rw (is_full-fits v (length m) ok_m.1, e) (commit-Written m n d v ok_m e)
      | inr e ↦
          rw (is_full-fits v (length m) ok_m.1, e, after.0)
            (discard-Written r (discard_oldest r).1 m n (make_room q (length m)).0
              (make_room q (length m)).1 _ (omega arith) after.2
              (write_loop-Written q (discard_oldest r).1 m (wrapping_add n 1)
                (omega (arith, after.2)) (omega arith) after.1 ok_m))
    ]

write_message-write_loop :
    (r : RingBuffer) (m : Message)
    → IsMessage m
    → write_message r m ≡ write_loop r.header.message_count r m 0
unfolding write_message
write_message-write_loop r m ok_m = ground arith

-- A message of 2 to 65535 bytes is always written: the oldest messages that are in its way go, and
-- are counted in the outcome and in `drop_count`; the others stay, in order, with the new one last.
pub write_message_refines :
    {r : RingBuffer} (q : List Message) (m : Message)
    → r.header.drop_count < 2 ^ 32
    → Rep r q
    → IsMessage m
    → Written r m 0 (make_room q (length m)).0 (make_room q (length m)).1 (write_message r m)
write_message_refines {r} q m d v ok_m = rw (write_message-write_loop r m ok_m) (
    subst
      (λ c.
        Written r m 0 (make_room q (length m)).0 (make_room q (length m)).1 (write_loop c r m 0))
      (sym v.counted) (write_loop-Written q r m 0 d (omega (arith, v.few)) v ok_m))
