-- ===== src/Ring/Threads.antt =====
-- src/ring.rs: one writer and one reader on a ring, each at its own pace, as long as the writer finds
-- room. A message that has to push others out is the subject of Ring/Race.antt.
use xshm.Prelude.{ℕ, ◌+◌, ◌≡◌, ◌≢◌, Bool, true, false, List, [], ◌∷◌, ◌++◌, length}
use xshm.Word.{as_u32}
use xshm.Constants.{message_header_size}
use xshm.Error.{Result, ok, err}
use xshm.Ring.{RingBuffer, is_full}
use xshm.Ring.Queue.{Message, IsMessage}
use xshm.Ring.Atomic.{put_bytes, count_up, move_end, take_front, count_down}

-- Where the writer is: it has found room for a message, copied it, counted it.
pub data Writer : Type 0 where
  resting : Writer
  has_room : (m : Message) → Writer
  copied : (m : Message) → Writer
  counted : (m : Message) (prev_count : ℕ) → Writer

-- Where the reader is: it has seen a count that is not zero, or has taken a message that it has not
-- counted down yet.
pub data Reader : Type 0 where
  idle : Reader
  sees : Reader
  took : Reader

-- `sent` are the messages that have been copied into the ring, `received` those that have been read;
-- `failed` says whether a read has failed with another error than an empty queue.
pub record Shared : Type 0 where
  pub ring : RingBuffer
  pub writer : Writer
  pub reader : Reader
  pub sent : List Message
  pub received : List Message
  pub failed : Bool

pub data WriterStep (s : Shared) : Shared → Type 0 where
  find_room :
      (m : Message)
      → s.writer ≡ resting
      → IsMessage m
      → is_full s.ring.header (as_u32 (message_header_size + length m)) ≡ false
      → WriterStep s (record s { writer = has_room m })
  copy :
      {m : Message}
      → s.writer ≡ has_room m
      → WriterStep s
          (record s { ring = put_bytes s.ring m; writer = copied m; sent = s.sent ++ m ∷ [] })
  count :
      {m : Message}
      → s.writer ≡ copied m
      → WriterStep s
          (record s { ring = count_up s.ring; writer = counted m s.ring.header.message_count })
  end_moves :
      {m : Message} {prev_count : ℕ}
      → s.writer ≡ counted m prev_count
      → WriterStep s (record s { ring = move_end s.ring m prev_count; writer = resting })

-- what the compare-exchange of a read leaves
abbrev pub taken : Shared → Result (List ℕ) × RingBuffer → Shared
taken s (ok m, r) = record s { ring = r; reader = took; received = s.received ++ m ∷ [] }
taken s (err e, r) = record s { ring = r; reader = idle; failed = true }

pub data ReaderStep (s : Shared) : Shared → Type 0 where
  look :
      s.reader ≡ idle → s.ring.header.message_count ≢ 0 → ReaderStep s (record s { reader = sees })
  take : s.reader ≡ sees → ReaderStep s (taken s (take_front s.ring))
  discount : s.reader ≡ took → ReaderStep s (record s { ring = count_down s.ring; reader = idle })

pub data Step (s t : Shared) : Type 0 where
  of_writer : WriterStep s t → Step s t
  of_reader : ReaderStep s t → Step s t

pub data Reach (s : Shared) : Shared → Type 0 where
  here : Reach s s
  next : {t u : Shared} → Reach s t → Step t u → Reach s u
