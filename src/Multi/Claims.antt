-- ===== src/Multi/Claims.antt =====
-- Claims of slots (`try_claim_slot`, `release_claim`, `claim_free_slot` of src/multi/mod.rs).
use xshm.Prelude.{
  ℕ, zero, suc, ◌+◌, ◌≤◌, ◌≡◌, ◌≢◌, refl, sym, ap, subst, arith, inl, inr, ◌⊎◌, Bool, true, false,
  ◌==◌, Bool-cases, some, List, [], ◌∷◌, length, get_elem?, get_or, set, take, All, length-set,
  get_elem?-set_self, ◌∙◌, lt_of_get_elem?,
}
use xshm.Constants.{shared_magic, shared_version, claim_free}
use xshm.Error.{ShmError, Result, ok, err, ok-injective, no_free_slot, not_connected}
use xshm.Segment.{Segment}
use xshm.Multi.Slots.{claim_word, owner_word, store_reserved, max_multi_clients}
use xshm.Multi.Claim.{claim_token, try_claim_slot, claim_from, claim_free_slot}

-- A segment of this version, with room for the claim and the owner's pid.
pub record IsSlot (v : Segment) : Type 0 where
  pub magic : v.control.magic ≡ shared_magic
  pub version : v.control.version ≡ shared_version
  pub words : 2 ≤ length v.control.reserved

two_words :
    (l : List ℕ) (a b : ℕ)
    → 2 ≤ length l
    → (get_or (set (set l 0 a) 1 b) 0 0 ≡ a) × (get_or (set (set l 0 a) 1 b) 1 0 ≡ b)
two_words [] a b h = absurd (omega arith)
two_words (x ∷ []) a b h = absurd (omega arith)
two_words (x ∷ y ∷ l) a b h = (refl, refl)

-- The segment is free for the taking, and what a claim makes of it.
abbrev pub IsFree : Segment → Type 0
IsFree v = claim_word v ≡ claim_free

pub record ClaimedBy (pid token : ℕ) (v v' : Segment) : Type 0 where
  pub was_free : IsFree v
  pub token_in : claim_word v' ≡ token
  pub pid_in : owner_word v' ≡ pid
  pub is_slot : IsSlot v'

try_claim_slot_eq :
    (pid token : ℕ) (v : Segment)
    → IsSlot v
    → IsFree v
    → try_claim_slot pid token v ≡ (true, store_reserved (store_reserved v 0 token) 1 pid)
unfolding try_claim_slot store_reserved
try_claim_slot_eq pid token v s free =
    let e : (v.control.magic == shared_magic) ≡ true = rw s.magic in
    let e' : (v.control.version == shared_version) ≡ true = rw s.version in
    let f : (get_or v.control.reserved 0 0 == claim_free) ≡ true = rw free in rw (e, e', f)

stored-ClaimedBy :
    (pid token : ℕ) (v : Segment)
    → IsSlot v
    → IsFree v
    → ClaimedBy pid token v (store_reserved (store_reserved v 0 token) 1 pid)
unfolding store_reserved
stored-ClaimedBy pid token v s free =
    let w = two_words v.control.reserved token pid s.words in
    record {
      was_free = free;
      token_in = w.0;
      pid_in = w.1;
      is_slot = record {
        magic = s.magic;
        version = s.version;
        words =
            rw
              (
                length-set (set v.control.reserved 0 token) 1 pid,
                length-set v.control.reserved 0 token,
              )
              s.words;
      };
    }

pub try_claim_slot-free :
    (pid token : ℕ) (v : Segment)
    → IsSlot v
    → IsFree v
    → ((try_claim_slot pid token v).0 ≡ true) × ClaimedBy pid token v (try_claim_slot pid token v).1
try_claim_slot-free pid token v s free =
    let e = try_claim_slot_eq pid token v s free in
    (ap (λ o. o.0) e, rw e (stored-ClaimedBy pid token v s free))

pub try_claim_slot-taken :
    (pid token : ℕ) (v : Segment)
    → claim_word v ≢ claim_free
    → try_claim_slot pid token v ≡ (false, v)
unfolding try_claim_slot
try_claim_slot-taken pid token v taken = ground arith

-- How a search for a slot ends: with the first free one claimed and no other touched, or with none
-- free and nothing touched. `k` is the id of the first slot and `refused` what the search says then.
abbrev pub IsTaken : Segment → Type 0
IsTaken v = claim_word v ≢ claim_free

pub data ClaimOutcome (pid token k : ℕ) (refused : ShmError) (vs : List Segment)
    (out : Result ℕ × List Segment) : Type 0 where
  claimed :
      (i : ℕ) (v v' : Segment)
      → out ≡ (ok (k + i), set vs i v')
      → get_elem? vs i ≡ some v
      → ClaimedBy pid token v v'
      → All IsTaken (take i vs)
      → ClaimOutcome pid token k refused vs out
  refused_all : out ≡ (err refused, vs) → All IsTaken vs → ClaimOutcome pid token k refused vs out

-- what the search says when it has seen no slot, or some
abbrev pub refusal : Bool → List Segment → ShmError
refusal true vs = no_free_slot
refusal false [] = not_connected
refusal false (v ∷ vs) = no_free_slot

later :
    (pid token k : ℕ) (refused : ShmError) (v : Segment) (vs : List Segment)
    (out : Result ℕ × List Segment)
    → IsTaken v
    → ClaimOutcome pid token (k + 1) refused vs out
    → ClaimOutcome pid token k refused (v ∷ vs) (out.0, v ∷ out.1)
later pid token k refused v vs out t (claimed i u u' e g c a) =
    claimed (suc i) u u'
      (ap (λ o. (o.0, v ∷ o.1)) e ∙ ap (λ j. (ok j, v ∷ set vs i u')) (omega arith)) g c (t, a)
later pid token k refused v vs out t (refused_all e a) =
    refused_all (ap (λ o. (o.0, v ∷ o.1)) e) (t, a)

seen-refusal :
    (saw : Bool) (v : Segment) (vs : List Segment) → refusal true vs ≡ refusal saw (v ∷ vs)
seen-refusal true v vs = refl
seen-refusal false v vs = refl

claim_from-free :
    (n pid token k : ℕ) (saw : Bool) (v : Segment) (vs : List Segment)
    → (try_claim_slot pid token v).0 ≡ true
    → claim_from (suc n) pid token k saw (v ∷ vs) ≡ (ok k, (try_claim_slot pid token v).1 ∷ vs)
unfolding claim_from
claim_from-free n pid token k saw v vs e = rw e

claim_from-taken :
    (n pid token k : ℕ) (saw : Bool) (v : Segment) (vs : List Segment)
    (rest : Result ℕ × List Segment)
    → try_claim_slot pid token v ≡ (false, v)
    → claim_from n pid token (k + 1) true vs ≡ rest
    → claim_from (suc n) pid token k saw (v ∷ vs) ≡ (rest.0, v ∷ rest.1)
unfolding claim_from
claim_from-taken n pid token k saw v vs rest e r = rw (e, r)

word-cases : (v : Segment) → IsFree v ⊎ IsTaken v
word-cases v = elim (Bool-cases (claim_word v == claim_free)) [
  | inl e ↦ inl (ground arith)
  | inr e ↦ inr (λ f. ground arith)
]

-- A search that is given enough rounds claims the first free slot, or refuses and changes nothing.
claim_from-ClaimOutcome :
    (n pid token k : ℕ) (saw : Bool) (vs : List Segment)
    → All IsSlot vs
    → length vs ≤ n
    → ClaimOutcome pid token k (refusal saw vs) vs (claim_from n pid token k saw vs)
unfolding claim_from
claim_from-ClaimOutcome zero pid token k true [] _ _ = refused_all refl tt
claim_from-ClaimOutcome zero pid token k false [] _ _ = refused_all refl tt
claim_from-ClaimOutcome (suc n) pid token k true [] _ _ = refused_all refl tt
claim_from-ClaimOutcome (suc n) pid token k false [] _ _ = refused_all refl tt
claim_from-ClaimOutcome zero pid token k saw (v ∷ vs) _ h = absurd (omega arith)
claim_from-ClaimOutcome (suc n) pid token k saw (v ∷ vs) (s, ss) h = elim (word-cases v) [
  | inl free ↦
      let t = try_claim_slot-free pid token v s free in
      claimed 0 v ((try_claim_slot pid token v).1)
        (claim_from-free n pid token k saw v vs t.0
          ∙ ap (λ j. (ok j, (try_claim_slot pid token v).1 ∷ vs)) (omega arith))
        refl t.1 tt
  | inr taken ↦
      let out = claim_from n pid token (k + 1) true vs in
      subst (λ r. ClaimOutcome pid token k r (v ∷ vs) (claim_from (suc n) pid token k saw (v ∷ vs)))
        (seen-refusal saw v vs)
        (subst (ClaimOutcome pid token k no_free_slot (v ∷ vs))
          (sym (
            claim_from-taken n pid token k saw v vs out (try_claim_slot-taken pid token v taken)
              refl))
          (later pid token k no_free_slot v vs out taken
            (claim_from-ClaimOutcome n pid token (k + 1) true vs ss (omega arith))))
]

-- For the segments of at most 31 slots: a `claim_free_slot` claims the first slot whose claim word is
-- zero, puts its token and its pid there and changes no other slot; when none is free it changes
-- nothing and its error says whether there was a slot at all.
pub claim_free_slot-ClaimOutcome :
    (pid token : ℕ) (vs : List Segment)
    → All IsSlot vs
    → length vs ≤ max_multi_clients
    → ClaimOutcome pid token 0 (refusal false vs) vs (claim_free_slot pid token vs)
unfolding claim_free_slot
claim_free_slot-ClaimOutcome pid token vs =
    claim_from-ClaimOutcome max_multi_clients pid token 0 false vs

claimed_at :
    (pid token : ℕ) (r : ShmError) (vs : List Segment) (out : Result ℕ × List Segment) (i : ℕ)
    → ClaimOutcome pid token 0 r vs out
    → out.0 ≡ ok i
    → (v v' : Segment) × (get_elem? vs i ≡ some v)
      × (out.1 ≡ set vs i v')
      × ClaimedBy pid token v v'
claimed_at pid token r vs out i (claimed j v v' e g c _) h =
    let same : j ≡ i = omega (arith, ok-injective (sym (ap (λ o. o.0) e) ∙ h)) in
    (v, v', rw (sym same, g), rw (sym same, ap (λ o. o.1) e), c)
claimed_at pid token r vs out i (refused_all e _) h = absurd (cc (ap (λ o. o.0) e, h))

set-All :
    (vs : List Segment) (i : ℕ) (v : Segment) → All IsSlot vs → IsSlot v → All IsSlot (set vs i v)
set-All [] i v a s = tt
set-All (u ∷ vs) zero v (_, a) s = (s, a)
set-All (u ∷ vs) (suc i) v (x, a) s = (x, set-All vs i v a s)

claim_token-IsTaken : (hash : ℕ) → claim_token hash ≢ claim_free
unfolding claim_token
claim_token-IsTaken hash e = ground arith

-- Two clients that search one after the other, with tokens made from any hashes, never get the same
-- slot.
pub claims_differ :
    (pid pid' hash hash' : ℕ) (vs : List Segment) (i : ℕ)
    → All IsSlot vs
    → length vs ≤ max_multi_clients
    → (claim_free_slot pid (claim_token hash) vs).0 ≡ ok i
    → (claim_free_slot pid' (claim_token hash') (claim_free_slot pid (claim_token hash) vs).1).0
      ≢ ok i
claims_differ pid pid' hash hash' vs i slots few one two =
    let vs' = (claim_free_slot pid (claim_token hash) vs).1 in
    let (u, u', g, e, c) =
      claimed_at pid (claim_token hash) (refusal false vs) vs _ i
        (claim_free_slot-ClaimOutcome pid (claim_token hash) vs slots few) one in
    let slots' : All IsSlot vs' = rw e (set-All vs i u' slots c.is_slot) in
    let few' : length vs' ≤ max_multi_clients = rw (e, length-set vs i u') few in
    let (v, v', g', e', c') =
      claimed_at pid' (claim_token hash') (refusal false vs') vs' _ i
        (claim_free_slot-ClaimOutcome pid' (claim_token hash') vs' slots' few') two in
    let here : get_elem? vs' i ≡ some u' =
      subst (λ l. get_elem? l i ≡ some u') (sym e)
        (get_elem?-set_self vs i u' (lt_of_get_elem? vs i g)) in
    let one_slot : some u' ≡ some v = sym here ∙ g' in
    let view : u' ≡ v = cc one_slot in
    claim_token-IsTaken hash (sym c.token_in ∙ ap claim_word view ∙ c'.was_free)
