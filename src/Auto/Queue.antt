-- ===== src/Auto/Queue.antt =====
-- What `drain_commands` of src/auto/mod.rs keeps of the messages that come.
use xshm.Prelude.{
  ℕ, zero, suc, ◌-◌, ◌≤◌, ◌≡◌, refl, sym, ap, ◌∙◌, arith, inl, inr, Bool, true, false, Bool-cases,
  leb, leb→le, ap₂, not, ◌&&◌, if◌then◌else◌, List, [], ◌∷◌, ◌++◌, length, drop, length-append,
  append-nil, append_assoc,
}
use xshm.Auto.{AutoOptions, WorkerCommand, send, shutdown, drain_commands, at_least_one}

-- the messages of the commands
abbrev pub sends : List WorkerCommand → List (List ℕ)
sends [] = []
sends (send msg ∷ rx) = msg ∷ sends rx
sends (shutdown ∷ rx) = sends rx

abbrev pub has_shutdown : List WorkerCommand → Bool
has_shutdown [] = false
has_shutdown (send msg ∷ rx) = has_shutdown rx
has_shutdown (shutdown ∷ rx) = true

-- the last `n` of a list
abbrev pub last {ℓ} : {A : Type ℓ} → ℕ → List A → List A
last n xs = drop (length xs - n) xs

-- the queue with one message more, in `drain_commands`
abbrev enqueue : ℕ → List (List ℕ) → List ℕ → List (List ℕ)
enqueue limit queue msg = (if leb limit (length queue) then drop 1 queue else queue) ++ msg ∷ []

last-cons {ℓ} :
    {A : Type ℓ} (n : ℕ) (x : A) (xs : List A) → n ≤ length xs → last n (x ∷ xs) ≡ last n xs
last-cons n x xs h =
    let e : suc (length xs) - n ≡ suc (length xs - n) = omega arith in ap (λ k. drop k (x ∷ xs)) e

last-all {ℓ} : {A : Type ℓ} (n : ℕ) (xs : List A) → length xs ≤ n → last n xs ≡ xs
last-all n [] h = let e : 0 - n ≡ 0 = omega arith in ap (λ k. drop k []) e
last-all n (x ∷ xs) h = let e : suc (length xs) - n ≡ 0 = omega arith in ap (λ k. drop k (x ∷ xs)) e

enough :
    (limit : ℕ) (queue : List (List ℕ)) (msg : List ℕ) (rest : List (List ℕ))
    → leb limit (suc (length queue)) ≡ true
    → at_least_one limit ≤ length (queue ++ msg ∷ rest)
enough zero queue msg rest full = omega (arith, length-append queue (msg ∷ rest))
enough (suc limit) queue msg rest full =
    omega (arith, length-append queue (msg ∷ rest), leb→le (suc limit) (suc (length queue)) full)

-- What `enqueue` drops is not among the last.
enqueue-last :
    (limit : ℕ) (queue : List (List ℕ)) (msg : List ℕ) (rest : List (List ℕ))
    → last (at_least_one limit) (enqueue limit queue msg ++ rest)
      ≡ last (at_least_one limit) (queue ++ msg ∷ rest)
enqueue-last limit [] msg rest = elim (Bool-cases (leb limit 0)) [
  | inl full ↦ rw full refl
  | inr room ↦ rw room refl
]
enqueue-last limit (x ∷ queue) msg rest = elim (Bool-cases (leb limit (length (x ∷ queue)))) [
  | inl full ↦ rw full (
      ap (last (at_least_one limit)) (append_assoc queue (msg ∷ []) rest)
      ∙ sym (
          last-cons (at_least_one limit) x (queue ++ msg ∷ rest)
            (enough limit queue msg rest full)))
  | inr room ↦
      rw room (ap (λ q. last (at_least_one limit) (x ∷ q)) (append_assoc queue (msg ∷ []) rest))
]

length-enqueue :
    (limit : ℕ) (queue : List (List ℕ)) (msg : List ℕ)
    → length queue ≤ at_least_one limit
    → length (enqueue limit queue msg) ≤ at_least_one limit
length-enqueue zero [] msg h = omega arith
length-enqueue zero (x ∷ queue) msg h = ground (arith, length-append queue (msg ∷ []))
length-enqueue (suc limit) [] msg h = ground arith
length-enqueue (suc limit) (x ∷ queue) msg h =
    elim (Bool-cases (leb (suc limit) (length (x ∷ queue)))) [
      | inl full ↦ rw full (omega (arith, length-append queue (msg ∷ [])))
      | inr room ↦ rw room (ground (arith, length-append queue (msg ∷ [])))
    ]

and_true : (b : Bool) → b ≡ (b && true)
and_true true = refl
and_true false = refl

and_false : (b : Bool) → false ≡ (b && false)
and_false true = refl
and_false false = refl

-- However many messages come, of a queue within its bound and of what comes after it
-- `drain_commands` keeps the last `max_send_queue` in order, or one when that is zero, and the worker
-- goes on running exactly when it was and no shutdown has come.
pub drain_commands-last :
    (o : AutoOptions) (rx : List WorkerCommand) (queue : List (List ℕ)) (running : Bool)
    → length queue ≤ at_least_one o.max_send_queue
    → drain_commands o rx queue running
      ≡ (last (at_least_one o.max_send_queue) (queue ++ sends rx), running && not (has_shutdown rx))
unfolding drain_commands
drain_commands-last o [] queue running h =
    let q : last (at_least_one o.max_send_queue) (queue ++ []) ≡ queue =
      rw (append-nil queue) (last-all (at_least_one o.max_send_queue) queue h) in
    ap₂ (λ a b. (a, b)) (sym q) (and_true running)
drain_commands-last o (send msg ∷ rx) queue running h =
    drain_commands-last o rx (enqueue o.max_send_queue queue msg) running
      (length-enqueue o.max_send_queue queue msg h)
    ∙ ap (λ q. (q, running && not (has_shutdown rx)))
        (enqueue-last o.max_send_queue queue msg (sends rx))
drain_commands-last o (shutdown ∷ rx) queue running h =
    drain_commands-last o rx queue false h
    ∙ ap (λ b. (last (at_least_one o.max_send_queue) (queue ++ sends rx), b)) (and_false running)
