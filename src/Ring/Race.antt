-- ===== src/Ring/Race.antt =====
-- src/ring.rs: a reader that comes between the two halves of `discard_oldest`.
use xshm.Prelude.{ℕ, zero, suc, ◌-◌, ◌^◌, ◌≡◌, ◌⊎◌, List, [], ◌∷◌, length}
use xshm.Error.{Result, ok, err, corrupted}
use xshm.Ring.{RingBuffer, read_message}
use xshm.Ring.Queue.{Message}
use xshm.Ring.Rep.{Rep}
use xshm.Ring.Atomic.{count_dropped}

-- so many reads, one after the other
unfoldable pub reads : ℕ → RingBuffer → List (Result Message) × RingBuffer
reads zero r = ([], r)
reads (suc n) r =
    let (res, r') = read_message r in let (replies, last) = reads n r' in (res ∷ replies, last)

-- A ring that stands for a queue, but whose count is one too high.
record Overcounted (r : RingBuffer) (q : List Message) : Type 0 where
  holds : Rep (record r { header = record (r.header) { message_count = length q } }) q
  over : r.header.message_count ≡ suc (length q)

-- A read of a ring that is empty but for its count.
record Stale (r : RingBuffer) : Type 0 where
  outcome :
      ((read_message r).0 ≡ err corrupted)
      ⊎ ((m : Message) × ((read_message r).0 ≡ ok m)
          × ((count_dropped (read_message r).1).header.message_count ≡ 2 ^ 32 - 1))
