-- ===== src/Ring/Copy.antt =====
-- Copying round the end of the storage (`copy_into_wrapped` and `copy_from_wrapped` of src/ring.rs)
-- against positions that are never reduced.
use xshm.Prelude.{
  ℕ, zero, suc, ◌+◌, ◌-◌, ◌%◌, ◌≤◌, ◌<◌, ◌≡◌, refl, sym, ap, ap₂, ◌∙◌, inl, inr, arith, Bool-cases,
  ltb, leb, ◌&&◌, if◌then◌else◌, List, [], ◌∷◌, ◌++◌, length, get_or, length-take, length-drop,
  get_or-take, get_or-drop,
}
use xshm.Ring.{Storage, capacity, copy_into, copy_from, copy_into_wrapped, copy_from_wrapped}

-- The `n` bytes from position `pos` on, each at its remainder by the capacity.
abbrev pub window : Storage → ℕ → ℕ → List ℕ
window s pos zero = []
window s pos (suc n) = s (pos % capacity) ∷ window s (suc pos) n

pub length-window : (s : Storage) (pos n : ℕ) → length (window s pos n) ≡ n
length-window s pos zero = refl
length-window s pos (suc n) = ap suc (length-window s (suc pos) n)

pub window-append :
    (s : Storage) (pos a b : ℕ) → window s pos (a + b) ≡ window s pos a ++ window s (pos + a) b
window-append s pos zero b = ap₂ (window s) (omega arith) (omega arith)
window-append s pos (suc a) b =
    let n : suc a + b ≡ suc (a + b) = omega arith in
    let p : pos + suc a ≡ suc pos + a = omega arith in rw (n, p, window-append s (suc pos) a b)

-- Two windows are equal when their bytes are.
pub window_agree :
    (s t : Storage) (p q n : ℕ)
    → ((k : ℕ) → k < n → s ((p + k) % capacity) ≡ t ((q + k) % capacity))
    → window s p n ≡ window t q n
window_agree s t p q zero h = refl
window_agree s t p q (suc n) h = ap₂ ◌∷◌ head (window_agree s t (suc p) (suc q) n rest)
  where
    head : s (p % capacity) ≡ t (q % capacity)
    head =
        ap (λ k. s (k % capacity)) (omega arith)
        ∙ h 0 (omega arith)
        ∙ ap (λ k. t (k % capacity)) (omega arith)

    rest : (k : ℕ) → k < n → s ((suc p + k) % capacity) ≡ t ((suc q + k) % capacity)
    rest k lt =
        ap (λ m. s (m % capacity)) (omega arith)
        ∙ h (suc k) (omega arith)
        ∙ ap (λ m. t (m % capacity)) (omega arith)

-- A window is a list when it holds its bytes.
pub window_holds :
    (s : Storage) (p : ℕ) (xs : List ℕ)
    → ((k : ℕ) → k < length xs → s ((p + k) % capacity) ≡ get_or xs k 0)
    → window s p (length xs) ≡ xs
window_holds s p [] h = refl
window_holds s p (x ∷ xs) h = ap₂ ◌∷◌ head (window_holds s (suc p) xs rest)
  where
    head : s (p % capacity) ≡ x
    head = ap (λ k. s (k % capacity)) (omega arith) ∙ h 0 (omega arith)

    rest : (k : ℕ) → k < length xs → s ((suc p + k) % capacity) ≡ get_or xs k 0
    rest k lt = ap (λ m. s (m % capacity)) (omega arith) ∙ h (suc k) (omega arith)

pub window-mod :
    (s : Storage) (p q n : ℕ) → p % capacity ≡ q % capacity → window s p n ≡ window s q n
window-mod s p q n e = window_agree s s p q n (λ k lt. ap s (omega arith))

copy_from-window :
    (s : Storage) (index n : ℕ) → index + n ≤ capacity → copy_from s index n ≡ window s index n
unfolding copy_from
copy_from-window s index zero h = refl
copy_from-window s index (suc n) h =
    ap₂ ◌∷◌ (ap s (omega arith)) (copy_from-window s (suc index) n (omega arith))

-- A read of at most `capacity` bytes returns the window at its start.
pub copy_from_wrapped-window :
    (s : Storage) (start n : ℕ) → n ≤ capacity → copy_from_wrapped s start n ≡ window s start n
unfolding copy_from_wrapped
copy_from_wrapped-window s start n h = elim (Bool-cases (leb n (capacity - start % capacity))) [
  | inl e ↦ rw e (
      copy_from-window s (start % capacity) n (ground arith)
      ∙ window-mod s (start % capacity) start n (omega arith))
  | inr e ↦ rw e (split (capacity - start % capacity) refl (ground arith))
]
  where
    split :
        (first : ℕ)
        → first ≡ capacity - start % capacity
        → first < n
        → copy_from s (start % capacity) first ++ copy_from s 0 (n - first) ≡ window s start n
    split first f lt =
        ap₂ ◌++◌
          (copy_from-window s (start % capacity) first (omega arith)
            ∙ window-mod s (start % capacity) start first (omega arith))
          (copy_from-window s 0 (n - first) (omega arith)
            ∙ window-mod s 0 (start + first) (n - first) (omega arith))
        ∙ sym (window-append s start first (n - first))
        ∙ ap (window s start) (omega arith)

-- What a write of `bytes` at `w + j` leaves `k` places after `w`.
pub copy_into_wrapped_at :
    (s : Storage) (start : ℕ) (bytes : List ℕ) (w j k : ℕ)
    → start % capacity ≡ (w + j) % capacity
    → j + length bytes ≤ capacity
    → k < capacity
    → copy_into_wrapped s start bytes ((w + k) % capacity) ≡ (
        if leb j k && ltb k (j + length bytes)
        then get_or bytes (k - j) 0
        else s ((w + k) % capacity))
unfolding copy_into_wrapped copy_into
copy_into_wrapped_at s start bytes w j k e fits lt = ground (
  arith,
  length-take (capacity - start % capacity) bytes,
  length-drop (capacity - start % capacity) bytes,
  get_or-take (capacity - start % capacity) bytes ((w + k) % capacity - start % capacity) 0,
  get_or-drop (capacity - start % capacity) bytes ((w + k) % capacity - 0) 0,
)
