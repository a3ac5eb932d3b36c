-- ===== src/Ring/Order.antt =====
-- What a reader of the ring of src/ring.rs receives of what was written.
use xshm.Prelude.{
  ℕ, zero, suc, ◌+◌, ◌≡◌, sym, ap, subst, ◌∙◌, inl, inr, Bool-cases, arith, Bool, true, false, ltb,
  leb, ◌&&◌, if◌then◌else◌, List, [], ◌∷◌, ◌++◌, length, drop, length-append, append-nil,
  append_assoc,
}
use xshm.Error.{ShmError, ok, err, message_too_small, message_too_large}
use xshm.Ring.{RingBuffer}
use xshm.Ring.Queue.{Message, is_nil, make_room, make_room-drop, make_room-length}
use xshm.Ring.Runs.{Op, put, get, Reply, wrote, got, run, push, pop, run_queue, Good, run_refines}

-- The first list is the second with some items left out.
pub data Embeds {ℓ} {A : Type ℓ} : List A → List A → Type ℓ where
  done : Embeds [] []
  skip : {xs ys : List A} (y : A) → Embeds xs ys → Embeds xs (y ∷ ys)
  keep : {xs ys : List A} (x : A) → Embeds xs ys → Embeds (x ∷ xs) (x ∷ ys)

Embeds-refl {ℓ} : {A : Type ℓ} (xs : List A) → Embeds xs xs
Embeds-refl [] = done
Embeds-refl (x ∷ xs) = keep x (Embeds-refl xs)

Embeds-drop {ℓ} :
    {A : Type ℓ} {zs : List A} (k : ℕ) (xs ys : List A)
    → Embeds zs (drop k xs ++ ys)
    → Embeds zs (xs ++ ys)
Embeds-drop zero xs ys h = h
Embeds-drop (suc k) [] ys h = h
Embeds-drop (suc k) (x ∷ xs) ys h = skip x (Embeds-drop k xs ys h)

-- the messages of the calls that have a size that the ring takes
abbrev pub accepted : List Op → List Message
accepted [] = []
accepted (put m ∷ ops) =
    let rest = accepted ops in if leb 2 (length m) && leb (length m) 65535 then m ∷ rest else rest
accepted (get ∷ ops) = accepted ops

-- the messages that the reads returned
abbrev pub received : List Reply → List Message
received [] = []
received (got (ok m) ∷ rs) = m ∷ received rs
received (_ ∷ rs) = received rs

-- the sum of `overwritten` over the writes
abbrev pub overwrites : List Reply → ℕ
overwrites [] = 0
overwrites (wrote (ok w) ∷ rs) = w.overwritten + overwrites rs
overwrites (_ ∷ rs) = overwrites rs

-- What has come out and what is left, against what was there and what went in.
pub record Delivered (q : List Message) (ops : List Op) (rs : List Reply) (left : List Message)
    : Type 0 where
  pub in_order : Embeds (received rs ++ left) (q ++ accepted ops)
  pub missing : overwrites rs + length (received rs ++ left) ≡ length (q ++ accepted ops)

-- The size test of `accepted`.
abbrev has_size : Message → Bool
has_size m = leb 2 (length m) && leb (length m) 65535

push_accepted :
    (q : List Message) (m : Message)
    → has_size m ≡ true
    → push q m ≡ (
      ok (record {
        overwritten = (make_room q (length m)).0;
        was_empty = is_nil (make_room q (length m)).1;
      }),
      (make_room q (length m)).1 ++ m ∷ [],
    )
unfolding push
push_accepted q m h = ground arith

push_refused :
    (q : List Message) (m : Message) → has_size m ≡ false → (e : ShmError) × (push q m ≡ (err e, q))
unfolding push
push_refused q m h = elim (Bool-cases (ltb (length m) 2)) [
  | inl small ↦ (message_too_small, ground arith)
  | inr ge ↦ (message_too_large, ground arith)
]

put_Delivered :
    (q : List Message) (m : Message) (ops : List Op) (b : Bool) (rs : List Reply)
    (left : List Message)
    → has_size m ≡ true
    → Delivered ((make_room q (length m)).1 ++ m ∷ []) ops rs left
    → Delivered q
        (put m ∷ ops)
        (wrote (ok (record { overwritten = (make_room q (length m)).0; was_empty = b })) ∷ rs)
        left
put_Delivered q m ops b rs left size d = record {
  in_order = rw size (
      Embeds-drop (make_room q (length m)).0 q (m ∷ accepted ops)
        (subst (λ l. Embeds (received rs ++ left) l) same d.in_order));
  missing = rw size (
      omega (
        arith,
        d.missing,
        make_room-length q (length m),
        length-append ((make_room q (length m)).1 ++ m ∷ []) (accepted ops),
        length-append (make_room q (length m)).1 (m ∷ []),
        length-append q (m ∷ accepted ops),
      ));
}
  where
    same :
        ((make_room q (length m)).1 ++ m ∷ []) ++ accepted ops
        ≡ drop (make_room q (length m)).0 q ++ (m ∷ accepted ops)
    same =
        append_assoc (make_room q (length m)).1 (m ∷ []) (accepted ops)
        ∙ ap (λ l. l ++ (m ∷ accepted ops)) (make_room-drop q (length m))

run_queue-Delivered :
    (q : List Message) (ops : List Op) → Delivered q ops (run_queue q ops).0 (run_queue q ops).1
unfolding run_queue pop
run_queue-Delivered q [] = record {
  in_order = rw append-nil (Embeds-refl q);
  missing = omega (arith, ap length (append-nil q));
}
run_queue-Delivered q (put m ∷ ops) = elim (Bool-cases (has_size m)) [
  | inl good ↦
      rw (push_accepted q m good) (put_Delivered q m ops _ _ _ good (run_queue-Delivered _ ops))
  | inr bad ↦
      let (e, refused) = push_refused q m bad in
      rw refused (
        let d = run_queue-Delivered q ops in
        record { in_order = rw bad d.in_order; missing = rw bad d.missing })
]
run_queue-Delivered [] (get ∷ ops) =
    let d = run_queue-Delivered [] ops in record { in_order = d.in_order; missing = d.missing }
run_queue-Delivered (x ∷ q) (get ∷ ops) =
    let d = run_queue-Delivered q ops in
    record { in_order = keep x d.in_order; missing = omega (arith, d.missing) }

-- Whatever calls are made, the reads return messages that were written, each at most once and in
-- the order of writing, and just as many are missing as the writes reported as overwritten.
pub run-Delivered :
    (q : List Message) (r : RingBuffer) (ops : List Op)
    → Good r q
    → (left : List Message) × Good (run r ops).1 left × Delivered q ops (run r ops).0 left
run-Delivered q r ops g =
    let (replies, last) = run_refines q r ops g in
    (
      (run_queue q ops).1,
      last,
      subst (λ rs. Delivered q ops rs (run_queue q ops).1) (sym replies)
          (run_queue-Delivered q ops),
    )
