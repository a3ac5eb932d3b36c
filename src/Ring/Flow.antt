-- ===== src/Ring/Flow.antt =====
-- src/ring.rs: what one writer and one reader make of a ring between them.
use xshm.Prelude.{
  ℕ, suc, ◌+◌, ◌≡◌, ◌≢◌, ◌≤◌, ◌<◌, refl, sym, ap, subst, ◌∙◌, arith, true, false, List, [], ◌∷◌,
  ◌++◌, length, length-append, append_assoc,
}
use xshm.Word.{as_u32, wrapping_add}
use xshm.Constants.{message_header_size}
use xshm.Error.{ok}
use xshm.Ring.{mask_index, put_frame, RingBuffer, is_full, available_bytes, commit, read_message}
use xshm.Ring.Queue.{Message, IsMessage, fits}
use xshm.Ring.Rep.{Rep, same-Rep}
use xshm.Ring.Steps.{commit-Rep, read_message-Rep}
use xshm.Ring.Atomic.{
  put_bytes, count_up, move_end, take_front, count_down, move_front, front_length,
}
use xshm.Ring.Threads.{
  Writer, resting, has_room, copied, counted, Reader, idle, sees, took, Shared, WriterStep, taken,
  ReaderStep, Step, Reach,
}

-- the bytes of the message that the writer has copied, but not published
abbrev pub ahead : Writer → ℕ
ahead (copied m) = message_header_size + length m
ahead (counted m prev_count) = message_header_size + length m
ahead _ = 0

-- a message that is copied and not counted, and one that is taken and still counted
abbrev pub uncounted : Writer → ℕ
uncounted (copied m) = 1
uncounted _ = 0

abbrev pub overcounted : Reader → ℕ
overcounted took = 1
overcounted _ = 0

-- The ring as it would be without the steps that are still due.
abbrev pub settled : Shared → ℕ → RingBuffer
settled s n = record (s.ring) {
  header = record (s.ring.header) {
    write_pos = wrapping_add s.ring.header.write_pos (as_u32 (ahead s.writer));
    message_count = n;
  };
}

abbrev RoomFor : List Message → Writer → Type 0
RoomFor q (has_room m) = IsMessage m × (fits q (length m) ≡ true)
RoomFor q _ = Unit

-- What the reader has seen is there, and what it has taken had been counted.
abbrev SeenIn : List Message → Writer → Reader → Type 0
SeenIn q w sees = uncounted w < length q
SeenIn q w took = uncounted w ≤ length q
SeenIn q w _ = Unit

pub record Flows (s : Shared) (q : List Message) : Type 0 where
  pub holds : Rep (settled s (length q)) q
  pub count : s.ring.header.message_count + uncounted s.writer ≡ length q + overcounted s.reader
  pub room : RoomFor q s.writer
  pub seen : SeenIn q s.writer s.reader
  pub order : s.sent ≡ s.received ++ q
  pub sound : s.failed ≡ false

find_room-Flows :
    (s : Shared) (q : List Message) (m : Message)
    → s.writer ≡ resting
    → IsMessage m
    → is_full s.ring.header (as_u32 (message_header_size + length m)) ≡ false
    → Flows s q
    → Flows (record s { writer = has_room m }) q
unfolding is_full available_bytes
find_room-Flows s q m at valid free f = ground arith

seen_copied :
    (q : List Message) (m : Message) (w : Writer) (r : Reader)
    → w ≡ has_room m
    → SeenIn q w r
    → SeenIn (q ++ m ∷ []) (copied m) r
seen_copied q m w idle at h = tt
seen_copied q m w sees at h = ground (arith, length-append q (m ∷ []))
seen_copied q m w took at h = ground (arith, length-append q (m ∷ []))

copy-Flows :
    (s : Shared) (q : List Message) (m : Message)
    → s.writer ≡ has_room m
    → Flows s q
    → Flows
        (record s { ring = put_bytes s.ring m; writer = copied m; sent = s.sent ++ m ∷ [] })
        (q ++ m ∷ [])
unfolding put_bytes commit
copy-Flows s q m at f =
    let w =
      commit-Rep {r = settled s (length q)} {q = q} m 0 f.holds (ground arith) (ground arith) in
    let long = length-append q (m ∷ []) in
    let start : mask_index s.ring.header.write_pos
        ≡ mask_index (wrapping_add s.ring.header.write_pos (as_u32 (ahead s.writer))) =
      ground arith in
    record {
      holds =
          same-Rep refl (ground arith) (omega (arith, w.1.counted))
            (ap (λ i. put_frame s.ring.storage i m) start) w.1;
      count = ground (arith, f.count, long);
      room = tt;
      seen = seen_copied q m s.writer s.reader at f.seen;
      order = ap (λ l. l ++ m ∷ []) f.order ∙ append_assoc s.received q (m ∷ []);
      sound = f.sound;
    }

count-Flows :
    (s : Shared) (q : List Message) (m : Message)
    → s.writer ≡ copied m
    → Flows s q
    → Flows (record s { ring = count_up s.ring; writer = counted m s.ring.header.message_count }) q
unfolding count_up
count-Flows s q m at f = record {
  holds = same-Rep refl (ground arith) refl refl f.holds;
  count = ground (arith, f.count, f.holds.few);
  room = tt;
  seen = seen_counted q m s.writer s.reader at f.seen;
  order = f.order;
  sound = f.sound;
}
  where
    seen_counted :
        (l : List Message) (x : Message) (w : Writer) (r : Reader)
        → w ≡ copied x
        → SeenIn l w r
        → SeenIn l (counted x s.ring.header.message_count) r
    seen_counted l x w idle e h = tt
    seen_counted l x w sees e h = ground arith
    seen_counted l x w took e h = ground arith

end_moves-Flows :
    (s : Shared) (q : List Message) (m : Message) (prev_count : ℕ)
    → s.writer ≡ counted m prev_count
    → Flows s q
    → Flows (record s { ring = move_end s.ring m prev_count; writer = resting }) q
unfolding move_end
end_moves-Flows s q m prev_count at f = record {
  holds = same-Rep refl (ground arith) refl refl f.holds;
  count = ground (arith, f.count);
  room = tt;
  seen = seen_published q s.writer s.reader at f.seen;
  order = f.order;
  sound = f.sound;
}
  where
    seen_published :
        (l : List Message) (w : Writer) (r : Reader)
        → w ≡ counted m prev_count
        → SeenIn l w r
        → SeenIn l resting r
    seen_published l w idle e h = tt
    seen_published l w sees e h = ground arith
    seen_published l w took e h = ground arith

look-Flows :
    (s : Shared) (q : List Message)
    → s.reader ≡ idle
    → s.ring.header.message_count ≢ 0
    → Flows s q
    → Flows (record s { reader = sees }) q
look-Flows s q at some f = record {
  holds = f.holds;
  count = ground (arith, f.count);
  room = f.room;
  seen = ground (arith, f.count);
  order = f.order;
  sound = f.sound;
}

uncounted_le : (w : Writer) → uncounted w ≤ 1
uncounted_le w = ground arith

discount-Flows :
    (s : Shared) (q : List Message)
    → s.reader ≡ took
    → Flows s q
    → Flows (record s { ring = count_down s.ring; reader = idle }) q
unfolding count_down
discount-Flows s q at f = record {
  holds = same-Rep refl refl refl refl f.holds;
  count = ground (arith, f.count, f.seen, f.holds.few, uncounted_le s.writer);
  room = f.room;
  seen = tt;
  order = f.order;
  sound = f.sound;
}

room_taken : (x : Message) (q : List Message) (w : Writer) → RoomFor (x ∷ q) w → RoomFor q w
room_taken x q resting h = tt
room_taken x q (has_room m) h = (h.0, ground arith)
room_taken x q (copied m) h = tt
room_taken x q (counted m n) h = tt

move_front_count : (r : RingBuffer) → (move_front r).header.message_count ≡ r.header.message_count
unfolding move_front
move_front_count r = refl

take_front-first :
    (s : Shared) (x : Message) (q : List Message)
    → Rep (settled s (suc (length q))) (x ∷ q)
    → (take_front s.ring ≡ (ok x, move_front s.ring))
      × Rep (settled (record s { ring = move_front s.ring }) (length q)) q
unfolding take_front move_front front_length count_down read_message
take_front-first s x q v =
    let ring = settled s (suc (length q)) in
    let (res, w) = read_message-Rep {r = ring} {x = x} {q = q} v in
    let moved : (read_message ring).1 ≡ count_down (move_front ring) = ground (arith, res) in
    let w' : Rep (count_down (move_front ring)) q = subst (λ r. Rep r q) moved w in
    (ground (arith, res), same-Rep refl refl (sym w'.counted) refl w')

take-Flows :
    (s : Shared) (q : List Message)
    → s.reader ≡ sees
    → Flows s q
    → (rest : List Message) × Flows (taken s (take_front s.ring)) rest
take-Flows s [] at f = absurd (ground (arith, f.seen))
take-Flows s (x ∷ q) at f =
    let (front, rep) = take_front-first s x q f.holds in
    (
      q,
      rw front (record {
        holds = rep;
        count = ground (arith, f.count, move_front_count s.ring);
        room = room_taken x q s.writer f.room;
        seen = ground (arith, f.seen);
        order = f.order ∙ sym (append_assoc s.received (x ∷ []) q);
        sound = f.sound;
      }),
    )

WriterStep-Flows :
    {s t : Shared} (q : List Message)
    → WriterStep s t
    → Flows s q
    → (rest : List Message) × Flows t rest
WriterStep-Flows {s} q (WriterStep.find_room m at valid free) f =
    (q, find_room-Flows s q m at valid free f)
WriterStep-Flows {s} q (WriterStep.copy {m} at) f = (q ++ m ∷ [], copy-Flows s q m at f)
WriterStep-Flows {s} q (WriterStep.count {m} at) f = (q, count-Flows s q m at f)
WriterStep-Flows {s} q (WriterStep.end_moves {m} {prev_count} at) f =
    (q, end_moves-Flows s q m prev_count at f)

ReaderStep-Flows :
    {s t : Shared} (q : List Message)
    → ReaderStep s t
    → Flows s q
    → (rest : List Message) × Flows t rest
ReaderStep-Flows {s} q (ReaderStep.look at some) f = (q, look-Flows s q at some f)
ReaderStep-Flows {s} q (ReaderStep.take at) f = take-Flows s q at f
ReaderStep-Flows {s} q (ReaderStep.discount at) f = (q, discount-Flows s q at f)

Step-Flows :
    {s t : Shared} (q : List Message) → Step s t → Flows s q → (rest : List Message) × Flows t rest
Step-Flows q (Step.of_writer step) f = WriterStep-Flows q step f
Step-Flows q (Step.of_reader step) f = ReaderStep-Flows q step f

-- both sides at rest on a ring
abbrev pub at_rest : RingBuffer → Shared
at_rest r = record {
  ring = r;
  writer = resting;
  reader = idle;
  sent = [];
  received = [];
  failed = false;
}

at_rest-Flows : (r : RingBuffer) → Rep r [] → Flows (at_rest r) []
at_rest-Flows r v = record {
  holds = same-Rep refl (ground (arith, v.write_at)) (sym v.counted) refl v;
  count = omega (arith, v.counted);
  room = tt;
  seen = tt;
  order = refl;
  sound = refl;
}

-- From an empty ring, with one writer that finds room for each message and one reader, whichever of
-- their steps come between which: no read fails but on an empty queue, and the messages received, then
-- those in the ring, are the messages sent, in order. The ring, but for the steps that are due, stands
-- for those that are in it, and the count in the header is theirs, one less while a message has been
-- copied and not counted, one more while one has been taken and not counted down.
pub Reach-Flows :
    {r : RingBuffer} {t : Shared}
    → Rep r []
    → Reach (at_rest r) t
    → (rest : List Message) × Flows t rest
Reach-Flows {r} v Reach.here = ([], at_rest-Flows r v)
Reach-Flows {r} v (Reach.next path step) = let (q, f) = Reach-Flows v path in Step-Flows q step f
