-- ===== src/Ring.antt =====
-- src/ring.rs: the byte ring that carries framed messages between two processes.
--
-- The functions here are the code of one endpoint while the other stands still: each atomic load
-- reads what was last stored, so a compare-exchange on a value just loaded succeeds and a
-- `continue` after a lost race is not taken.
pub mod Copy
pub mod Queue
pub mod Frame
pub mod Rep
pub mod Steps
pub mod Refine
pub mod Bounds
pub mod Runs
pub mod Order
pub mod Atomic
pub mod Threads
pub mod Flow
pub mod Race
use xshm.Prelude.{
  ℕ, zero, suc, ◌+◌, ◌-◌, ◌%◌, Bool, not, ◌&&◌, ◌||◌, ltb, leb, ◌==◌, if◌then◌else◌, List, [], ◌∷◌,
  ◌++◌, length, get_or, take, drop,
}
use xshm.Word.{
  wrapping_add, wrapping_sub, as_u16, as_u32, u16_to_le_bytes, u16_from_le_bytes, ℤ, sub_ℕ, ltℤ,
}
use xshm.Error.{Result, ok, err, queue_empty, message_too_small, message_too_large, corrupted}
use xshm.Constants.{
  ring_capacity, max_messages, max_message_size, min_message_size, message_header_size,
}
use xshm.Layout.{RingHeader, reset_header}

-- `WriteOutcome`
pub record WriteOutcome : Type 0 where
  pub overwritten : ℕ
  pub was_empty : Bool

-- The bytes behind a pointer into shared memory, by offset.
abbrev pub Storage : Type 0
Storage = ℕ → ℕ

-- `RingBuffer`: what its two pointers point to. The field `capacity` always holds `ring_capacity`,
-- as the constructor `new` sets it.
pub record RingBuffer : Type 0 where
  pub header : RingHeader
  pub storage : Storage

abbrev pub capacity : ℕ
capacity = ring_capacity

unfoldable pub reset : RingBuffer → ℕ → RingBuffer
reset r generation = record r { header = reset_header r.header generation }

unfoldable pub available_bytes : ℕ → ℕ → ℤ
available_bytes write read = sub_ℕ capacity (wrapping_sub write read)

-- `pos & RING_MASK`, for a mask of ones: the remainder by the capacity.
abbrev pub mask_index : ℕ → ℕ
mask_index pos = pos % ring_capacity

unfoldable pub copy_into : Storage → ℕ → List ℕ → Storage
copy_into s index bytes i =
    if leb index i && ltb i (index + length bytes) then get_or bytes (i - index) 0 else s i

unfoldable pub copy_from : Storage → ℕ → ℕ → List ℕ
copy_from s index zero = []
copy_from s index (suc n) = s index ∷ copy_from s (suc index) n

unfoldable pub copy_into_wrapped : Storage → ℕ → List ℕ → Storage
copy_into_wrapped s start bytes =
    let index = start % capacity in
    let first = capacity - index in
    if leb (length bytes) first
    then copy_into s index bytes
    else copy_into (copy_into s index (take first bytes)) 0 (drop first bytes)

unfoldable pub copy_from_wrapped : Storage → ℕ → ℕ → List ℕ
copy_from_wrapped s start n =
    let index = start % capacity in
    let first = capacity - index in
    if leb n first
    then copy_from s index n
    else copy_from s index first ++ copy_from s 0 (n - first)

unfoldable pub read_u16 : Storage → ℕ → ℕ
read_u16 s index =
    let bytes = copy_from_wrapped s index 2 in
    u16_from_le_bytes (get_or bytes 0 0) (get_or bytes 1 0)

-- `(MIN_MESSAGE_SIZE..=MAX_MESSAGE_SIZE).contains(&msg_len)`
unfoldable pub is_message_size : ℕ → Bool
is_message_size n = leb min_message_size n && leb n max_message_size

-- `discard_oldest`, with the ring that it leaves
unfoldable pub discard_oldest : RingBuffer → Result (Unit {0}) × RingBuffer
discard_oldest r =
    if h.read_pos == h.write_pos
    then (err queue_empty, r)
    else if not (is_message_size msg_len)
    then (err corrupted, r)
    else (
      ok tt,
      record r {
        header = record h {
          read_pos = wrapping_add h.read_pos (as_u32 (message_header_size + msg_len));
          message_count = wrapping_sub h.message_count 1;
          drop_count = wrapping_add h.drop_count 1;
        };
      },
    )
  where
    h : RingHeader
    h = r.header

    msg_len : ℕ
    msg_len = read_u16 r.storage (mask_index h.read_pos)

-- The test of `write_message` for a message of `total_required` bytes with its header.
unfoldable pub is_full : RingHeader → ℕ → Bool
is_full h total_required =
    ltℤ (available_bytes h.write_pos h.read_pos) total_required || leb max_messages h.message_count

-- The three copies of `write_message`, at the index of `write_pos`.
unfoldable pub put_frame : Storage → ℕ → List ℕ → Storage
put_frame s idx payload =
    copy_into_wrapped
      (copy_into_wrapped (copy_into_wrapped s idx (u16_to_le_bytes (as_u16 (length payload))))
        (mask_index (idx + 2)) (u16_to_le_bytes 0))
      (mask_index (idx + message_header_size)) payload

-- The rest of an iteration that has room: copy, count, publish.
unfoldable pub commit : RingBuffer → List ℕ → ℕ → Result WriteOutcome × RingBuffer
commit r payload overwritten = (
  ok (record { overwritten = overwritten; was_empty = h.message_count == 0 }),
  record {
    header = record h {
      write_pos = wrapping_add h.write_pos (as_u32 (message_header_size + length payload));
      message_count = wrapping_add h.message_count 1;
      sequence = if h.message_count == 0 then wrapping_add h.sequence 1 else h.sequence;
    };
    storage = put_frame r.storage (mask_index h.write_pos) payload;
  },
)
  where
    h : RingHeader
    h = r.header

-- The loop of `write_message`. The first argument is the `message_count` that the iteration loads,
-- which each round of `discard_oldest` takes down by one.
unfoldable pub write_loop : ℕ → RingBuffer → List ℕ → ℕ → Result WriteOutcome × RingBuffer
write_loop zero r payload overwritten =
    if is_full r.header (as_u32 (message_header_size + length payload))
    then (err message_too_large, r)
    else commit r payload overwritten
write_loop (suc count) r payload overwritten =
    let next = discard_oldest r in
    let rest = write_loop count next.1 payload (wrapping_add overwritten 1) in
    if is_full r.header (as_u32 (message_header_size + length payload))
    then (elim next.0 [ err e ↦ (err e, next.1) | ok _ ↦ rest ])
    else commit r payload overwritten

unfoldable pub write_message : RingBuffer → List ℕ → Result WriteOutcome × RingBuffer
write_message r payload =
    if ltb (length payload) min_message_size
    then (err message_too_small, r)
    else if ltb max_message_size (length payload)
    then (err message_too_large, r)
    else if ltb capacity (as_u32 (message_header_size + length payload))
    then (err message_too_large, r)
    else write_loop r.header.message_count r payload 0

-- `read_message`: the bytes that it leaves in `out`, and the ring. Its result is their number.
unfoldable pub read_message : RingBuffer → Result (List ℕ) × RingBuffer
read_message r =
    if h.message_count == 0
    then (err queue_empty, r)
    else if not (is_message_size msg_len)
    then (err corrupted, r)
    else (
      ok (copy_from_wrapped r.storage (mask_index (idx + message_header_size)) msg_len),
      record r {
        header = record h {
          read_pos = wrapping_add h.read_pos (as_u32 (message_header_size + msg_len));
          message_count = wrapping_sub h.message_count 1;
          sequence = if leb h.message_count 1 then wrapping_add h.sequence 1 else h.sequence;
        };
      },
    )
  where
    h : RingHeader
    h = r.header

    idx : ℕ
    idx = mask_index h.read_pos

    msg_len : ℕ
    msg_len = read_u16 r.storage idx

unfoldable pub message_count : RingBuffer → ℕ
message_count r = r.header.message_count

unfoldable pub drop_count : RingBuffer → ℕ
drop_count r = r.header.drop_count

unfoldable pub is_empty : RingBuffer → Bool
unfolding message_count
is_empty r = message_count r == 0
