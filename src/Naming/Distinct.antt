-- ===== src/Naming/Distinct.antt =====
-- When two names of src/naming.rs are the same.
use xshm.Prelude.{
  ℕ, ◌≡◌, refl, sym, ap, ◌∙◌, List, [], ◌∷◌, ◌++◌, get_or, drop, if◌then◌else◌, ◌==◌,
}
use xshm.Segment.{
  Event, s2c_data, s2c_space, c2s_data, c2s_space, connect_ack, connect_req, disconnect,
}
use xshm.Naming.{name_of, event_name, event_prefix, as_str, underscore}

abbrev reverse_onto {ℓ} : {A : Type ℓ} → List A → List A → List A
reverse_onto [] ys = ys
reverse_onto (x ∷ xs) ys = reverse_onto xs (x ∷ ys)

reverse_onto-append {ℓ} :
    {A : Type ℓ} (xs ys zs : List A)
    → reverse_onto (xs ++ ys) zs ≡ reverse_onto ys (reverse_onto xs zs)
reverse_onto-append [] ys zs = refl
reverse_onto-append (x ∷ xs) ys zs = reverse_onto-append xs ys (x ∷ zs)

-- the end of the name, backwards
abbrev backwards : Event → List ℕ → List ℕ
backwards s2c_data r = 65 ∷ 84 ∷ 65 ∷ 68 ∷ 95 ∷ 67 ∷ 50 ∷ 83 ∷ r
backwards s2c_space r = 69 ∷ 67 ∷ 65 ∷ 80 ∷ 83 ∷ 95 ∷ 67 ∷ 50 ∷ 83 ∷ r
backwards c2s_data r = 65 ∷ 84 ∷ 65 ∷ 68 ∷ 95 ∷ 83 ∷ 50 ∷ 67 ∷ r
backwards c2s_space r = 69 ∷ 67 ∷ 65 ∷ 80 ∷ 83 ∷ 95 ∷ 83 ∷ 50 ∷ 67 ∷ r
backwards connect_ack r = 84 ∷ 67 ∷ 69 ∷ 78 ∷ 78 ∷ 79 ∷ 67 ∷ 95 ∷ 67 ∷ 50 ∷ 83 ∷ r
backwards connect_req r =
    81 ∷ 69 ∷ 82 ∷ 95 ∷ 84 ∷ 67 ∷ 69 ∷ 78 ∷ 78 ∷ 79 ∷ 67 ∷ 95 ∷ 83 ∷ 50 ∷ 67 ∷ r
backwards disconnect r = 84 ∷ 67 ∷ 69 ∷ 78 ∷ 78 ∷ 79 ∷ 67 ∷ 83 ∷ 73 ∷ 68 ∷ 95 ∷ 67 ∷ 50 ∷ 83 ∷ r

name_backwards :
    (base : List ℕ) (e : Event)
    → reverse_onto (name_of base e) [] ≡ backwards e (reverse_onto (event_prefix base) [])
unfolding name_of event_name as_str
name_backwards base s2c_data = reverse_onto-append (event_prefix base) _ []
name_backwards base s2c_space = reverse_onto-append (event_prefix base) _ []
name_backwards base c2s_data = reverse_onto-append (event_prefix base) _ []
name_backwards base c2s_space = reverse_onto-append (event_prefix base) _ []
name_backwards base connect_ack = reverse_onto-append (event_prefix base) _ []
name_backwards base connect_req = reverse_onto-append (event_prefix base) _ []
name_backwards base disconnect = reverse_onto-append (event_prefix base) _ []

-- The event, and what stands before its end, of a name read backwards.
abbrev parse : List ℕ → Event × List ℕ
parse l =
    if get_or l 0 0 == 81
    then (connect_req, drop 15 l)
    else if get_or l 0 0 == 65
    then (if get_or l 5 0 == 67 then s2c_data else c2s_data, drop 8 l)
    else if get_or l 0 0 == 69
    then (if get_or l 6 0 == 67 then s2c_space else c2s_space, drop 9 l)
    else if get_or l 7 0 == 95
    then (connect_ack, drop 11 l)
    else (disconnect, drop 14 l)

parse-backwards : (e : Event) (r : List ℕ) → parse (backwards e r) ≡ (e, r)
parse-backwards s2c_data r = refl
parse-backwards s2c_space r = refl
parse-backwards c2s_data r = refl
parse-backwards c2s_space r = refl
parse-backwards connect_ack r = refl
parse-backwards connect_req r = refl
parse-backwards disconnect r = refl

reverse_onto-twice {ℓ} :
    {A : Type ℓ} (xs ys : List A) → reverse_onto (reverse_onto xs ys) [] ≡ reverse_onto ys xs
reverse_onto-twice [] ys = refl
reverse_onto-twice (x ∷ xs) ys = reverse_onto-twice xs (x ∷ ys)

reverse_onto-injective {ℓ} :
    {A : Type ℓ} (xs ys : List A) → reverse_onto xs [] ≡ reverse_onto ys [] → xs ≡ ys
reverse_onto-injective xs ys h =
    sym (reverse_onto-twice xs []) ∙ ap (λ l. reverse_onto l []) h ∙ reverse_onto-twice ys []

event_prefix-injective :
    (base base' : List ℕ) → event_prefix base ≡ event_prefix base' → base ≡ base'
unfolding event_prefix
event_prefix-injective base base' h =
    let ends : reverse_onto (base ++ underscore) [] ≡ reverse_onto (base' ++ underscore) [] =
      ap (λ l. reverse_onto (drop 6 l) []) h in
    let last : 95 ∷ reverse_onto base [] ≡ 95 ∷ reverse_onto base' [] =
      sym (reverse_onto-append base underscore [])
      ∙ ends
      ∙ reverse_onto-append base' underscore [] in
    reverse_onto-injective base base' (ap (drop 1) last)

-- No two events have the same name, neither of one connection nor of two with different base names.
pub name_of-injective :
    (base base' : List ℕ) (e e' : Event)
    → name_of base e ≡ name_of base' e'
    → (base ≡ base') × (e ≡ e')
name_of-injective base base' e e' h =
    let r = reverse_onto (event_prefix base) [] in
    let r' = reverse_onto (event_prefix base') [] in
    let same : (e, r) ≡ (e', r') =
      sym (parse-backwards e r)
      ∙ ap parse
          (sym (name_backwards base e) ∙ ap (λ l. reverse_onto l []) h ∙ name_backwards base' e')
      ∙ parse-backwards e' r' in
    (
      event_prefix-injective base base'
          (reverse_onto-injective (event_prefix base) (event_prefix base') (ap (λ p. p.1) same)),
      ap (λ p. p.0) same,
    )
