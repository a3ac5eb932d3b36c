-- ===== src/Dispatch/ClientMap.antt =====
-- `HashMap<u32, _>` of src/dispatch/mod.rs: a map from client ids. Where the code goes through the map,
-- the order is that of the list.
use xshm.Prelude.{
  ℕ, ◌+◌, ◌<◌, ◌≡◌, ◌≢◌, refl, arith, Bool, true, false, ◌==◌, if◌then◌else◌, Option, none, some,
  List, [], ◌∷◌,
}

module _ {ℓ} {V : Type ℓ} where
  abbrev pub get : ℕ → List (ℕ × V) → Option V
  get id [] = none
  get id ((k, v) ∷ rest) = if id == k then some v else get id rest

  abbrev pub remove : ℕ → List (ℕ × V) → List (ℕ × V)
  remove id [] = []
  remove id ((k, v) ∷ rest) =
      let others = remove id rest in if id == k then others else (k, v) ∷ others

  -- What stood under the key is gone.
  abbrev pub insert : ℕ → V → List (ℕ × V) → List (ℕ × V)
  insert id v clients = (id, v) ∷ remove id clients

  -- a change of the value under a key
  abbrev pub modify : ℕ → (V → V) → List (ℕ × V) → List (ℕ × V)
  modify id f [] = []
  modify id f ((k, v) ∷ rest) = (if id == k then (k, f v) else (k, v)) ∷ modify id f rest

  abbrev pub keys : List (ℕ × V) → List ℕ
  keys [] = []
  keys ((k, v) ∷ rest) = k ∷ keys rest

abbrev pub is_some {ℓ} : {V : Type ℓ} → Option V → Bool
is_some none = false
is_some (some v) = true

-- how often an id stands in a list
abbrev pub occurs : ℕ → List ℕ → ℕ
occurs id [] = 0
occurs id (k ∷ rest) = (if id == k then 1 else 0) + occurs id rest

module _ {ℓ} {V : Type ℓ} where
  pub occurs-remove_self : (id : ℕ) (m : List (ℕ × V)) → occurs id (keys (remove id m)) ≡ 0
  occurs-remove_self id [] = refl
  occurs-remove_self id ((k, v) ∷ rest) = ground (arith, occurs-remove_self id rest)

  pub occurs-remove_other :
      (id k : ℕ) (m : List (ℕ × V)) → id ≢ k → occurs id (keys (remove k m)) ≡ occurs id (keys m)
  occurs-remove_other id k [] other = refl
  occurs-remove_other id k ((j, v) ∷ rest) other =
      ground (arith, occurs-remove_other id k rest other)

  pub get-none : (id : ℕ) (m : List (ℕ × V)) → get id m ≡ none → occurs id (keys m) ≡ 0
  get-none id [] e = refl
  get-none id ((k, v) ∷ rest) e = ground (arith, get-none id rest)

  pub get-some : (id : ℕ) (m : List (ℕ × V)) (v : V) → get id m ≡ some v → (0 < occurs id (keys m))
  get-some id [] v e = absurd (cc e)
  get-some id ((k, w) ∷ rest) v e = ground (arith, get-some id rest v)
