-- ===== src/Ring/Queue.antt =====
-- What the ring of src/ring.rs stands for: a queue of whole messages, oldest first, that makes room
-- for a new one by dropping the oldest.
use xshm.Prelude.{
  ℕ, zero, suc, ◌+◌, ◌≤◌, ◌<◌, ◌≡◌, refl, inl, inr, arith, Bool, true, false, Bool-cases, ltb, leb,
  ◌&&◌, if◌then◌else◌, List, [], ◌∷◌, length, drop,
}
use xshm.Constants.{ring_capacity, max_messages, min_message_size, max_message_size}

abbrev pub Message : Type 0
Message = List ℕ

abbrev pub IsMessage : Message → Type 0
IsMessage m = (min_message_size ≤ length m) × (length m ≤ max_message_size)

-- the bytes that the messages take in the ring, with four of header for each
abbrev pub size : List Message → ℕ
size [] = 0
size (x ∷ q) = suc (suc (suc (suc (length x)))) + size q

-- A message of `n` bytes goes into the ring beside those of `q`.
abbrev pub fits : List Message → ℕ → Bool
fits q n = leb (size q + suc (suc (suc (suc n)))) ring_capacity && ltb (length q) max_messages

-- How many of the oldest go to make room for `n` bytes, and the messages that stay.
unfoldable pub make_room : List Message → ℕ → ℕ × List Message
make_room [] n = (0, [])
make_room (x ∷ q) n =
    let rest = make_room q n in if fits (x ∷ q) n then (0, x ∷ q) else (rest.0 + 1, rest.1)

abbrev pub is_nil : List Message → Bool
is_nil [] = true
is_nil (x ∷ q) = false

-- `make_room` drops a prefix.
pub make_room-drop : (q : List Message) (n : ℕ) → (make_room q n).1 ≡ drop (make_room q n).0 q
unfolding make_room
make_room-drop [] n = refl
make_room-drop (x ∷ q) n = elim (Bool-cases (fits (x ∷ q) n)) [
  | inl e ↦ rw e
  | inr e ↦ rw e (
      let p : (make_room q n).0 + 1 ≡ suc (make_room q n).0 = omega arith in
      rw (p, make_room-drop q n))
]

pub make_room-fits :
    (q : List Message) (n : ℕ) → n ≤ max_message_size → fits (make_room q n).1 n ≡ true
unfolding make_room
make_room-fits [] n h = ground arith
make_room-fits (x ∷ q) n h = ground (arith, make_room-fits q n h)

-- Every queue on the way to the one that stays had no room.
pub make_room_least :
    (q : List Message) (n j : ℕ) → j < (make_room q n).0 → fits (drop j q) n ≡ false
unfolding make_room
make_room_least [] n j lt = absurd (omega arith)
make_room_least (x ∷ q) n zero lt = ground arith
make_room_least (x ∷ q) n (suc j) lt = make_room_least q n j (ground arith)

-- None is lost sight of: those that go and those that stay make up the queue.
pub make_room-length :
    (q : List Message) (n : ℕ) → (make_room q n).0 + length (make_room q n).1 ≡ length q
unfolding make_room
make_room-length [] n = omega arith
make_room-length (x ∷ q) n = ground (arith, make_room-length q n)
