-- ===== src/Ring/Bounds.antt =====
-- The copies of src/ring.rs and the end of the storage.
use xshm.Prelude.{
  ℕ, zero, suc, ◌+◌, ◌-◌, ◌%◌, ◌≤◌, ◌<◌, ◌≡◌, ap, ◌∙◌, sym, arith, List, length, get_or, take, drop,
  length-take, length-drop,
}
use xshm.Word.{wrapping_add, u16_from_le_bytes}
use xshm.Layout.{RingHeader}
use xshm.Ring.{
  RingBuffer, Storage, capacity, copy_into, copy_into_wrapped, copy_from_wrapped, put_frame,
  write_message, write_loop, commit, discard_oldest, read_message, is_message_size, mask_index,
  read_u16,
}
use xshm.Ring.Copy.{window_agree, copy_from_wrapped-window}

copy_into_outside :
    (s : Storage) (index : ℕ) (bytes : List ℕ) (i : ℕ)
    → index + length bytes ≤ i
    → copy_into s index bytes i ≡ s i
unfolding copy_into
copy_into_outside s index bytes i h = ground arith

copy_into_wrapped_outside :
    (s : Storage) (start : ℕ) (bytes : List ℕ) (i : ℕ)
    → length bytes ≤ capacity
    → capacity ≤ i
    → copy_into_wrapped s start bytes i ≡ s i
unfolding copy_into_wrapped
copy_into_wrapped_outside s start bytes i fits out =
    let first = capacity - start % capacity in
    ground (
      arith,
      length-take first bytes,
      length-drop first bytes,
      copy_into_outside s (start % capacity) bytes i,
      copy_into_outside (copy_into s (start % capacity) (take first bytes)) 0 (drop first bytes) i,
      copy_into_outside s (start % capacity) (take first bytes) i,
    )

put_frame_outside :
    (s : Storage) (idx : ℕ) (m : List ℕ) (i : ℕ)
    → length m ≤ capacity
    → capacity ≤ i
    → put_frame s idx m i ≡ s i
unfolding put_frame
put_frame_outside s idx m i fits out =
    copy_into_wrapped_outside _ (mask_index (idx + 4)) m i fits out
    ∙ copy_into_wrapped_outside _ (mask_index (idx + 2)) _ i (omega arith) out
    ∙ copy_into_wrapped_outside s idx _ i (omega arith) out

storage-discard_oldest : (r : RingBuffer) → (discard_oldest r).1.storage ≡ r.storage
unfolding discard_oldest
storage-discard_oldest r = ground arith

write_loop_outside :
    (c : ℕ) (r : RingBuffer) (m : List ℕ) (n i : ℕ)
    → length m ≤ capacity
    → capacity ≤ i
    → (write_loop c r m n).1.storage i ≡ r.storage i
unfolding write_loop commit
write_loop_outside zero r m n i fits out =
    ground (arith, put_frame_outside r.storage (mask_index r.header.write_pos) m i fits out)
write_loop_outside (suc c) r m n i fits out = ground (
  arith,
  put_frame_outside r.storage (mask_index r.header.write_pos) m i fits out,
  write_loop_outside c (discard_oldest r).1 m (wrapping_add n 1) i fits out,
  ap (λ (s : Storage). s i) (storage-discard_oldest r),
)

-- Whatever the header holds, a write changes no byte past the end of the storage.
write_message_outside :
    (r : RingBuffer) (m : List ℕ) (i : ℕ)
    → capacity ≤ i
    → (write_message r m).1.storage i ≡ r.storage i
unfolding write_message
write_message_outside r m i out = ground (arith, write_loop_outside r.header.message_count r m 0 i)

copy_from_wrapped_inside :
    (s t : Storage) (start n : ℕ)
    → ((i : ℕ) → i < capacity → s i ≡ t i)
    → n ≤ capacity
    → copy_from_wrapped s start n ≡ copy_from_wrapped t start n
copy_from_wrapped_inside s t start n h fits =
    copy_from_wrapped-window s start n fits
    ∙ window_agree s t start start n (λ k lt. h ((start + k) % capacity) (omega arith))
    ∙ sym (copy_from_wrapped-window t start n fits)

read_u16_inside :
    (s t : Storage) (p : ℕ) → ((i : ℕ) → i < capacity → s i ≡ t i) → read_u16 s p ≡ read_u16 t p
unfolding read_u16
read_u16_inside s t p h =
    ap (λ l. u16_from_le_bytes (get_or l 0 0) (get_or l 1 0))
      (copy_from_wrapped_inside s t p 2 h (omega arith))

-- Whatever the header holds, a read depends on no byte past the end of the storage.
read_message_inside :
    (h : RingHeader) (s t : Storage)
    → ((i : ℕ) → i < capacity → s i ≡ t i)
    → (read_message (record { header = h; storage = s })).0
      ≡ (read_message (record { header = h; storage = t })).0
unfolding read_message is_message_size
read_message_inside h s t same = ground (
  arith,
  read_u16_inside s t (mask_index h.read_pos) same,
  copy_from_wrapped_inside s t (mask_index (mask_index h.read_pos + 4))
      (read_u16 s (mask_index h.read_pos)) same,
)

-- Whatever the shared header holds, a write changes no byte past the end of the ring, and what a read
-- returns depends on none.
pub accesses_inside :
    (h : RingHeader) (s t : Storage) (m : List ℕ) (i : ℕ)
    → capacity ≤ i
    → ((j : ℕ) → j < capacity → s j ≡ t j)
    → ((write_message (record { header = h; storage = s }) m).1.storage i ≡ s i)
      × ((read_message (record { header = h; storage = s })).0
          ≡ (read_message (record { header = h; storage = t })).0)
accesses_inside h s t m i out same =
    (write_message_outside _ m i out, read_message_inside h s t same)
