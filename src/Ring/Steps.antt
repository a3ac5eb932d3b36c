-- ===== src/Ring/Steps.antt =====
-- One iteration of `discard_oldest`, `write_message` and `read_message` of src/ring.rs on a ring
-- that stands for a queue.
use xshm.Prelude.{
  ℕ, ◌+◌, ◌%◌, ◌^◌, ◌≤◌, ◌<◌, ◌≡◌, refl, arith, true, List, [], ◌∷◌, ◌++◌, length, All, ◌==◌,
  length-append,
}
use xshm.Word.{wrapping_add}
use xshm.Constants.{max_messages}
use xshm.Error.{ok}
use xshm.Ring.{
  RingBuffer, capacity, discard_oldest, commit, read_message, is_message_size, read_u16, mask_index,
}
use xshm.Ring.Queue.{Message, IsMessage, size, fits, is_nil}
use xshm.Ring.Frame.{Holds, Holds-mod, Holds-append, read_u16-frame, read_payload, frame}
use xshm.Ring.Rep.{Rep}

is_message_size-true : (n : ℕ) → 2 ≤ n → n ≤ 65535 → is_message_size n ≡ true
unfolding is_message_size
is_message_size-true n a b = ground arith

module _ {r : RingBuffer} {x : Message} {q : List Message} (v : Rep r (x ∷ q)) where
  first_length : read_u16 r.storage (mask_index r.header.read_pos) ≡ length x
  first_length = read_u16-frame r.storage r.header.read_pos x q v.messages.0 v.bytes

  rest_bytes : Holds r.storage ((r.header.read_pos + (4 + length x)) % 2 ^ 32) q
  rest_bytes =
      Holds-mod r.storage (r.header.read_pos + length (frame x)) _ q (omega arith) v.bytes.1

  -- A discard takes the oldest message off, counts it in `drop_count`, and nothing else.
  pub discard_oldest-Rep :
      (discard_oldest r).0 ≡ ok tt
      × Rep (discard_oldest r).1 q
      × ((discard_oldest r).1.header.drop_count ≡ wrapping_add r.header.drop_count 1)
  unfolding discard_oldest
  discard_oldest-Rep = ground (
    arith,
    first_length,
    is_message_size-true (length x) v.messages.0.0 v.messages.0.1,
    rest_bytes,
  )

  pub read_message-Rep : ((read_message r).0 ≡ ok x) × Rep (read_message r).1 q
  unfolding read_message
  read_message-Rep = ground (
    arith,
    first_length,
    is_message_size-true (length x) v.messages.0.0 v.messages.0.1,
    rest_bytes,
    read_payload r.storage r.header.read_pos x q v.messages.0 v.bytes,
  )

is_nil-length : (q : List Message) → is_nil q ≡ (length q == 0)
is_nil-length [] = refl
is_nil-length (x ∷ q) = ground arith

size-append : (q : List Message) (m : Message) → size (q ++ m ∷ []) ≡ size q + (4 + length m)
size-append [] m = omega arith
size-append (x ∷ q) m = omega (arith, size-append q m)

fits_room : (q : List Message) (n : ℕ) → fits q n ≡ true → size q + (4 + n) ≤ capacity
fits_room q n h = ground arith

fits_few : (q : List Message) (n : ℕ) → fits q n ≡ true → length q < max_messages
fits_few q n h = ground arith

All-append :
    (q : List Message) (m : Message) → All IsMessage q → IsMessage m → All IsMessage (q ++ m ∷ [])
All-append [] m h v = (v, tt)
All-append (x ∷ q) m h v = (h.0, All-append q m h.1 v)

-- A write with room appends the message.
pub commit-Rep :
    {r : RingBuffer} {q : List Message} (m : Message) (n : ℕ)
    → Rep r q
    → IsMessage m
    → fits q (length m) ≡ true
    → ((commit r m n).0 ≡ ok (record { overwritten = n; was_empty = is_nil q }))
      × Rep (commit r m n).1 (q ++ m ∷ [])
unfolding commit
commit-Rep {r} {q} m n v ok_m room = (
  ground (arith, is_nil-length q),
  record {
    read_in = v.read_in;
    write_at = omega (arith, size-append q m, v.write_at);
    room = omega (arith, size-append q m, fits_room q (length m) room);
    counted = omega (arith, length-append q (m ∷ []), v.counted, fits_few q (length m) room);
    few = omega (arith, length-append q (m ∷ []), fits_few q (length m) room);
    messages = All-append q m v.messages ok_m;
    bytes =
        Holds-append r.storage r.header.read_pos q r.header.write_pos m (omega (arith, v.write_at))
          (omega (arith, fits_room q (length m) room)) v.bytes;
  },
)
