-- ===== src/Ring/Atomic.antt =====
-- src/ring.rs: the calls of one side cut at their atomic stores, for what the other side can see
-- between them. A copy of bytes is one step, and so are the loads before a compare-exchange that
-- succeeds.
use xshm.Prelude.{ℕ, ◌+◌, ◌≡◌, refl, arith, not, leb, ◌==◌, if◌then◌else◌, List, length}
use xshm.Word.{wrapping_add, wrapping_sub, as_u32}
use xshm.Constants.{message_header_size}
use xshm.Error.{Result, ok, err, queue_empty, corrupted}
use xshm.Ring.{
  RingBuffer, mask_index, put_frame, read_u16, is_message_size, copy_from_wrapped, commit,
  read_message, discard_oldest,
}

-- The write of a message: its bytes, its count, and the new end.
unfoldable pub put_bytes : RingBuffer → List ℕ → RingBuffer
put_bytes r payload = record r {
  storage = put_frame r.storage (mask_index r.header.write_pos) payload;
}

unfoldable pub count_up : RingBuffer → RingBuffer
count_up r = record r {
  header = record (r.header) { message_count = wrapping_add r.header.message_count 1 };
}

-- `prev_count` is what `count_up` found.
unfoldable pub move_end : RingBuffer → List ℕ → (prev_count : ℕ) → RingBuffer
move_end r payload prev_count = record r {
  header = record (r.header) {
    write_pos = wrapping_add r.header.write_pos (as_u32 (message_header_size + length payload));
    sequence = if prev_count == 0 then wrapping_add r.header.sequence 1 else r.header.sequence;
  };
}

-- The length of the frame at `read_pos`, and the move of `read_pos` past it.
unfoldable pub front_length : RingBuffer → ℕ
front_length r = read_u16 r.storage (mask_index r.header.read_pos)

unfoldable pub move_front : RingBuffer → RingBuffer
unfolding front_length
move_front r = record r {
  header = record (r.header) {
    read_pos = wrapping_add r.header.read_pos (as_u32 (message_header_size + front_length r));
  };
}

-- The read of a message whose count is not zero, up to its compare-exchange; then its count.
unfoldable pub take_front : RingBuffer → Result (List ℕ) × RingBuffer
unfolding front_length move_front
take_front r = if not (is_message_size (front_length r)) then (err corrupted, r) else (
  ok (
      copy_from_wrapped r.storage (mask_index (mask_index r.header.read_pos + message_header_size))
        (front_length r)),
  move_front r,
)

unfoldable pub count_down : RingBuffer → RingBuffer
count_down r = record r {
  header = record (r.header) {
    message_count = wrapping_sub r.header.message_count 1;
    sequence =
        if leb r.header.message_count 1
        then wrapping_add r.header.sequence 1
        else r.header.sequence;
  };
}

-- The discard of the oldest message, up to its compare-exchange; then its counts.
unfoldable pub drop_front : RingBuffer → Result (Unit {0}) × RingBuffer
unfolding front_length move_front
drop_front r =
    if r.header.read_pos == r.header.write_pos
    then (err queue_empty, r)
    else if not (is_message_size (front_length r))
    then (err corrupted, r)
    else (ok tt, move_front r)

unfoldable pub count_dropped : RingBuffer → RingBuffer
count_dropped r = record r {
  header = record (r.header) {
    message_count = wrapping_sub r.header.message_count 1;
    drop_count = wrapping_add r.header.drop_count 1;
  };
}

-- What a call leaves when its steps are not interrupted.
abbrev finish {ℓ} :
    {A : Type ℓ} → (RingBuffer → RingBuffer) → Result A × RingBuffer → Result A × RingBuffer
finish step (ok a, r) = (ok a, step r)
finish step (err e, r) = (err e, r)

pub commit-steps :
    (r : RingBuffer) (payload : List ℕ) (n : ℕ)
    → (commit r payload n).1
      ≡ move_end (count_up (put_bytes r payload)) payload r.header.message_count
unfolding commit move_end count_up put_bytes
commit-steps r payload n = refl

pub read_message-steps :
    (r : RingBuffer)
    → read_message r ≡ (
        if r.header.message_count == 0
        then (err queue_empty, r)
        else finish count_down (take_front r))
unfolding read_message take_front move_front count_down front_length
read_message-steps r = ground arith

pub discard_oldest-steps : (r : RingBuffer) → discard_oldest r ≡ finish count_dropped (drop_front r)
unfolding discard_oldest drop_front move_front count_dropped front_length
discard_oldest-steps r = ground arith
