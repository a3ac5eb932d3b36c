-- ===== src/Tests/Rings.antt =====
-- src/ring.rs on small rings.
use xshm.Prelude.{◌≡◌, refl, arith, List, [], ◌∷◌, ◌%◌, ltb, if◌then◌else◌}
use xshm.Layout.{RingHeader}
use xshm.Ring.{RingBuffer, write_message, read_message, is_full, available_bytes}
use xshm.Ring.Rep.{Rep}
use xshm.Ring.Atomic.{count_up, put_bytes, take_front}
use xshm.Ring.Threads.{counted, sees, taken, WriterStep, ReaderStep, Step, Reach}
use xshm.Ring.Flow.{at_rest, Flows, Reach-Flows}
use xshm.Ring.Queue.{Message, make_room}
use xshm.Ring.Refine.{Written, write_message_refines}
use xshm.Ring.Bounds.{accesses_inside}
use xshm.Ring.Runs.{Op, put, get, run, run_queue, push, Good, put_refines, run_refines}
use xshm.Ring.Order.{Delivered, run-Delivered}

-- A header near the end of the 32-bit positions.
abbrev pub empty_header : RingHeader
empty_header = record {
  write_pos = 4294967290;
  read_pos = 4294967290;
  message_count = 0;
  drop_count = 3;
  sequence = 9;
  connection_gen = 2;
  handshake_state = 2;
  reserved = [];
}

abbrev pub empty_ring : RingBuffer
empty_ring = record { header = empty_header; storage = λ i. i % 256 }

abbrev pub short_message : Message
short_message = 104 ∷ 105 ∷ []

abbrev pub long_message : Message
long_message = 1 ∷ 2 ∷ 3 ∷ 4 ∷ 5 ∷ 6 ∷ 7 ∷ []

pub empty_ring-Good : Good empty_ring []
empty_ring-Good = record {
  rep = record {
    read_in = omega arith;
    write_at = refl;
    room = omega arith;
    counted = refl;
    few = omega arith;
    messages = tt;
    bytes = tt;
  };
  drops = omega arith;
}

-- the ring with one message in it
abbrev pub ring_of_one : RingBuffer
ring_of_one = (write_message empty_ring short_message).1

pub ring_of_one-Good : Good ring_of_one (push [] short_message).1
ring_of_one-Good = (put_refines [] short_message empty_ring-Good).1

abbrev some_ops : List Op
some_ops = put long_message ∷ get ∷ put (9 ∷ []) ∷ get ∷ get ∷ []

write_message_refines_example :
    Written ring_of_one long_message 0
      (make_room (short_message ∷ []) 7).0
      (make_room (short_message ∷ []) 7).1
      (write_message ring_of_one long_message)
unfolding push make_room
write_message_refines_example =
    write_message_refines (short_message ∷ []) long_message ring_of_one-Good.drops
      ring_of_one-Good.rep (omega arith, omega arith)

run_refines_example :
    ((run ring_of_one some_ops).0 ≡ (run_queue (push [] short_message).1 some_ops).0)
    × Good (run ring_of_one some_ops).1 (run_queue (push [] short_message).1 some_ops).1
run_refines_example = run_refines (push [] short_message).1 ring_of_one some_ops ring_of_one-Good

run-Delivered_example :
    (left : List Message) × Good (run ring_of_one some_ops).1 left
    × Delivered (push [] short_message).1 some_ops (run ring_of_one some_ops).0 left
run-Delivered_example =
    run-Delivered (push [] short_message).1 ring_of_one some_ops ring_of_one-Good

accesses_inside_example :
    ((write_message
          (record { header = ring_of_one.header; storage = λ i. i % 256 })
          long_message).1.storage
        2097153
      ≡ 1)
    × ((read_message (record { header = ring_of_one.header; storage = λ i. i % 256 })).0
        ≡ (read_message (record {
          header = ring_of_one.header;
          storage = λ i. if ltb i 2097152 then i % 256 else 0;
        })).0)
accesses_inside_example =
    accesses_inside ring_of_one.header (λ i. i % 256) (λ i. if ltb i 2097152 then i % 256 else 0)
      long_message 2097153 (omega arith) (λ i h. ground arith)

-- The reader takes a message that has been counted, but not published yet.
overtaken : Reach (at_rest empty_ring) (
    taken
      (record (at_rest empty_ring) {
        ring = count_up (put_bytes empty_ring short_message);
        writer = counted short_message 0;
        reader = sees;
        sent = short_message ∷ [];
      })
      (take_front (count_up (put_bytes empty_ring short_message))))
unfolding is_full available_bytes count_up put_bytes
overtaken =
    Reach.next
      (Reach.next
        (Reach.next
          (Reach.next
            (Reach.next Reach.here (
              Step.of_writer
                (WriterStep.find_room short_message refl (omega arith, omega arith) refl)))
            (Step.of_writer (WriterStep.copy refl)))
          (Step.of_writer (WriterStep.count refl)))
        (Step.of_reader (ReaderStep.look refl (λ e. omega (arith, e)))))
      (Step.of_reader (ReaderStep.take refl))

Reach-Flows_example :
    (rest : List Message) × Flows
      (taken
        (record (at_rest empty_ring) {
          ring = count_up (put_bytes empty_ring short_message);
          writer = counted short_message 0;
          reader = sees;
          sent = short_message ∷ [];
        })
        (take_front (count_up (put_bytes empty_ring short_message))))
      rest
Reach-Flows_example = Reach-Flows empty_ring-Good.rep overtaken

abbrev ring_of_two : RingBuffer
ring_of_two = (write_message ring_of_one long_message).1
