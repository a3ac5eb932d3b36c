-- ===== src/Ring/Rep.antt =====
-- When a ring of src/ring.rs stands for a queue of messages.
use xshm.Prelude.{ℕ, ◌+◌, ◌%◌, ◌^◌, ◌≤◌, ◌<◌, ◌≡◌, refl, arith, not, List, [], ◌∷◌, length, All}
use xshm.Layout.{reset_header}
use xshm.Constants.{max_messages, message_header_size}
use xshm.Word.{as_u32}
use xshm.Ring.{RingBuffer, capacity, is_full, available_bytes, reset, is_empty}
use xshm.Ring.Queue.{Message, IsMessage, size, fits, is_nil}
use xshm.Ring.Frame.{Holds}

-- The ring is well formed and holds exactly the messages `q`, oldest first.
pub record Rep (r : RingBuffer) (q : List Message) : Type 0 where
  pub read_in : r.header.read_pos < 2 ^ 32
  pub write_at : r.header.write_pos ≡ (r.header.read_pos + size q) % 2 ^ 32
  pub room : size q ≤ capacity
  pub counted : r.header.message_count ≡ length q
  pub few : length q ≤ max_messages
  pub messages : All IsMessage q
  pub bytes : Holds r.storage r.header.read_pos q

-- A reset ring is empty, whatever bytes it has.
pub reset-Rep : (r : RingBuffer) (generation : ℕ) → Rep (reset r generation) []
unfolding reset reset_header
reset-Rep r g = record {
  read_in = omega arith;
  write_at = refl;
  room = omega arith;
  counted = refl;
  few = omega arith;
  messages = tt;
  bytes = tt;
}

-- The test of `write_message` on the header is the test on the queue.
pub is_full-fits :
    {r : RingBuffer} {q : List Message} (v : Rep r q) (n : ℕ)
    → n ≤ 65535
    → is_full r.header (as_u32 (message_header_size + n)) ≡ not (fits q n)
unfolding is_full available_bytes
is_full-fits {r} {q} v n h = ground arith

pub is_empty-is_nil : {r : RingBuffer} (q : List Message) → Rep r q → is_empty r ≡ is_nil q
unfolding is_empty
is_empty-is_nil [] v = ground arith
is_empty-is_nil (x ∷ q) v = ground arith

-- Only these parts of a ring matter.
pub same-Rep :
    {r t : RingBuffer} {q : List Message}
    → t.header.read_pos ≡ r.header.read_pos
    → t.header.write_pos ≡ r.header.write_pos
    → t.header.message_count ≡ r.header.message_count
    → t.storage ≡ r.storage
    → Rep r q
    → Rep t q
same-Rep {r} {t} {q} rp wp mc st v = record {
  read_in = omega (arith, v.read_in);
  write_at = omega (arith, v.write_at);
  room = v.room;
  counted = omega (arith, v.counted);
  few = v.few;
  messages = v.messages;
  bytes = rw (rp, st) v.bytes;
}
