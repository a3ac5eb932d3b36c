-- ===== src/Error.antt =====
-- src/error.rs: the errors of the library, and results that carry them.
use xshm.Prelude.{ℕ, ◌≡◌, refl, Bool, true, false}

-- `ShmError`. The texts of `context` and of `InvalidConfig` are for display only and are left out.
pub data ShmError : Type 0 where
  not_connected : ShmError
  not_ready : ShmError
  already_connected : ShmError
  timeout : ShmError
  queue_empty : ShmError
  queue_full : ShmError
  message_too_small : ShmError
  message_too_large : ShmError
  corrupted : ShmError
  handshake_failed : ShmError
  windows_error : (code : ℕ) → ShmError
  no_free_slot : ShmError
  invalid_config : ShmError

-- `Result<T>`
pub data Result {ℓ} (A : Type ℓ) : Type ℓ where
  ok : A → Result A
  err : ShmError → Result A

-- two successes are equal only with equal values
pub ok-injective {ℓ} : {A : Type ℓ} {a b : A} → ok a ≡ ok b → a ≡ b
ok-injective h = cc

-- The operator `?`: an error is the result of the whole, a value goes into the rest.
infixl 5 ◌>>=◌
abbrev pub ◌>>=◌ {ℓ κ} :
    {Value : Type ℓ} {Final : Type κ} (tried : Result Value) (rest : Value → Result Final)
    → Result Final
err problem >>= rest = err problem
ok value >>= rest = rest value

infixl 5 ◌>>◌
abbrev pub ◌>>◌ {κ} :
    {Final : Type κ} (tried : Result (Unit {0})) (rest : Result Final) → Result Final
err problem >> rest = err problem
ok _ >> rest = rest

-- `if !test { return Err(problem) }`
abbrev pub require : (test : Bool) (problem : ShmError) → Result (Unit {0})
require false problem = err problem
require true problem = ok tt

-- A `?` that lets the rest go on had a value to go on with.
pub >>=-eq-ok {ℓ κ} :
    {Value : Type ℓ} {Final : Type κ} (tried : Result Value) (rest : Value → Result Final)
    {last : Final}
    → (tried >>= rest) ≡ ok last
    → (value : Value) × (tried ≡ ok value) × (rest value ≡ ok last)
>>=-eq-ok (err problem) rest h = cc
>>=-eq-ok (ok value) rest h = (value, refl, h)
