-- ===== src/Ring/Frame.antt =====
-- The bytes of a message in the ring (the header that `write_message` of src/ring.rs puts before the
-- payload), and what a write of one leaves of the others.
use xshm.Prelude.{
  ℕ, zero, suc, ◌+◌, ◌-◌, ◌%◌, ◌/◌, ◌≤◌, ◌<◌, ◌≡◌, sym, ap, ◌∙◌, arith, ltb, leb, ◌&&◌,
  if◌then◌else◌, List, [], ◌∷◌, ◌++◌, length, get_or, drop,
}
use xshm.Word.{as_u16, u16_to_le_bytes, u16_from_le_bytes}
use xshm.Ring.{
  Storage, capacity, put_frame, read_u16, mask_index, copy_into_wrapped, copy_from_wrapped,
}
use xshm.Ring.Copy.{
  window, window_agree, window_holds, window-mod, copy_into_wrapped_at, copy_from_wrapped-window,
}
use xshm.Ring.Queue.{Message, IsMessage, size}

abbrev pub frame : Message → List ℕ
frame m = as_u16 (length m) % 256 ∷ (as_u16 (length m) / 256 % 256) ∷ 0 ∷ 0 ∷ m

get_or-frame : (k : ℕ) (m : Message) → 4 ≤ k → get_or (frame m) k 0 ≡ get_or m (k - 4) 0
get_or-frame zero m h = absurd (omega arith)
get_or-frame (suc zero) m h = absurd (omega arith)
get_or-frame (suc (suc zero)) m h = absurd (omega arith)
get_or-frame (suc (suc (suc zero))) m h = absurd (omega arith)
get_or-frame (suc (suc (suc (suc k)))) m h = ap (λ i. get_or m i 0) (omega arith)

-- From position `p` on the storage holds the frames of `q`, one after the other.
abbrev pub Holds : Storage → ℕ → List Message → Type 0
Holds s p [] = Unit
Holds s p (x ∷ q) = (window s p (length (frame x)) ≡ frame x) × Holds s (p + length (frame x)) q

pub Holds-mod :
    (s : Storage) (p p' : ℕ) (q : List Message)
    → p % capacity ≡ p' % capacity
    → Holds s p q
    → Holds s p' q
Holds-mod s p p' [] e h = tt
Holds-mod s p p' (x ∷ q) e h = (
  sym (window-mod s p p' (length (frame x)) e) ∙ h.0,
  Holds-mod s (p + length (frame x)) (p' + length (frame x)) q (omega arith) h.1,
)

-- The storage after the first copy of `put_frame`, and after the second.
abbrev with_length : Storage → ℕ → Message → Storage
with_length s w m = copy_into_wrapped s (w % capacity) (u16_to_le_bytes (as_u16 (length m)))

abbrev with_flags : Storage → ℕ → Message → Storage
with_flags s w m =
    copy_into_wrapped (with_length s w m) (mask_index (w % capacity + 2)) (u16_to_le_bytes 0)

header_step :
    (s : Storage) (w k : ℕ) (m : Message)
    → k < capacity
    → with_flags s w m ((w + k) % capacity) ≡ (
        if leb 2 k && ltb k 4
        then get_or (u16_to_le_bytes 0) (k - 2) 0
        else if ltb k 2
        then get_or (u16_to_le_bytes (as_u16 (length m))) k 0
        else s ((w + k) % capacity))
header_step s w k m lt =
    let same : k - 0 ≡ k = omega arith in
    let le16 = u16_to_le_bytes (as_u16 (length m)) in
    ground (
      arith,
      copy_into_wrapped_at (with_length s w m) (mask_index (w % capacity + 2)) (u16_to_le_bytes 0) w
          2 k,
      copy_into_wrapped_at s (w % capacity) le16 w 0 k,
      ap (λ i. get_or le16 i 0) same,
    )

-- The four bytes of the header, and nothing else so far.
header_at :
    (s : Storage) (w k : ℕ) (m : Message)
    → k < capacity
    → with_flags s w m ((w + k) % capacity)
      ≡ (if ltb k 4 then get_or (frame m) k 0 else s ((w + k) % capacity))
header_at s w zero m lt = header_step s w zero m lt
header_at s w (suc zero) m lt = header_step s w (suc zero) m lt
header_at s w (suc (suc zero)) m lt = header_step s w (suc (suc zero)) m lt
header_at s w (suc (suc (suc zero))) m lt = header_step s w (suc (suc (suc zero))) m lt
header_at s w (suc (suc (suc (suc k)))) m lt =
    ground (arith, header_step s w (suc (suc (suc (suc k)))) m lt)

-- `put_frame` writes the bytes of the frame from `w` on, and no others.
pub put_frame_at :
    (s : Storage) (w k : ℕ) (m : Message)
    → length (frame m) ≤ capacity
    → k < capacity
    → put_frame s (w % capacity) m ((w + k) % capacity)
      ≡ (if ltb k (length (frame m)) then get_or (frame m) k 0 else s ((w + k) % capacity))
unfolding put_frame
put_frame_at s w k m fits lt = ground (
  arith,
  copy_into_wrapped_at (with_flags s w m) (mask_index (w % capacity + 4)) m w 4 k,
  header_at s w k m lt,
  get_or-frame k m,
)

Holds-put :
    (s : Storage) (p : ℕ) (q : List Message) (w : ℕ) (m : Message)
    → w % capacity ≡ (p + size q) % capacity
    → size q + length (frame m) ≤ capacity
    → Holds s p q
    → Holds (put_frame s (w % capacity) m) p q
Holds-put s p [] w m e fits h = tt
Holds-put s p (x ∷ q) w m e fits h = (
  window_agree (put_frame s (w % capacity) m) s p p (length (frame x)) same ∙ h.0,
  Holds-put s (p + length (frame x)) q w m (omega arith) (omega arith) h.1,
)
  where
    same :
        (k : ℕ)
        → k < length (frame x)
        → put_frame s (w % capacity) m ((p + k) % capacity) ≡ s ((p + k) % capacity)
    same k lt =
        let j = capacity - size (x ∷ q) + k in
        let place : (p + k) % capacity ≡ (w + j) % capacity = omega arith in
        rw place (ground (arith, put_frame_at s w j m))

-- After the write the storage holds the old frames and then the new one.
pub Holds-append :
    (s : Storage) (p : ℕ) (q : List Message) (w : ℕ) (m : Message)
    → w % capacity ≡ (p + size q) % capacity
    → size q + length (frame m) ≤ capacity
    → Holds s p q
    → Holds (put_frame s (w % capacity) m) p (q ++ m ∷ [])
Holds-append s p [] w m e fits h = (
  window-mod (put_frame s (w % capacity) m) p w (length (frame m)) (omega arith)
      ∙ window_holds (put_frame s (w % capacity) m) w (frame m)
          (λ k lt. ground (arith, put_frame_at s w k m)),
  tt,
)
Holds-append s p (x ∷ q) w m e fits h = (
  (Holds-put s p (x ∷ q) w m e fits h).0,
  Holds-append s (p + length (frame x)) q w m (omega arith) (omega arith) h.1,
)

-- The length that the reader finds at the start of a frame.
pub read_u16-frame :
    (s : Storage) (p : ℕ) (m : Message) (rest : List Message)
    → IsMessage m
    → Holds s p (m ∷ rest)
    → read_u16 s (mask_index p) ≡ length m
unfolding read_u16
read_u16-frame s p m rest v h =
    ap (λ l. u16_from_le_bytes (get_or l 0 0) (get_or l 1 0))
      (copy_from_wrapped-window s (mask_index p) 2 (omega arith)
        ∙ window-mod s (mask_index p) p 2 (omega arith))
    ∙ omega (arith, ap (λ l. get_or l 0 0) h.0, ap (λ l. get_or l 1 0) h.0)

-- The bytes that the reader copies.
pub read_payload :
    (s : Storage) (p : ℕ) (m : Message) (rest : List Message)
    → IsMessage m
    → Holds s p (m ∷ rest)
    → copy_from_wrapped s (mask_index (mask_index p + 4)) (length m) ≡ m
read_payload s p m rest v h =
    copy_from_wrapped-window s (mask_index (mask_index p + 4)) (length m) (omega arith)
    ∙ window-mod s (mask_index (mask_index p + 4)) (suc (suc (suc (suc p)))) (length m)
        (omega arith)
    ∙ ap (drop 4) h.0
