-- ===== src/Program/Error.antt =====
-- The program's errors (programs/pot_program/src/errors.rs), and the result of an instruction.
-- A failed instruction reverts, so an error carries no state.
use proof_of_thought.Prelude.{ℕ, Bool, true, false, Option, none, some, ◌≡◌, ◌⊎◌, inl, inr, refl}

pub data PotError : Type 0 where
  insufficient_stake model_not_registered wrong_action wrong_policy thought_not_ready : PotError
  thought_stale vrf_too_stale vrf_already_consumed challenge_window_closed : PotError
  challenge_window_open bond_too_low wrong_agent invalid_status cooldown_active : PotError
  active_thoughts_exist evidence_mismatch overflow unauthorized : PotError

-- `#[error_code]` numbers the variants from 6000 on.
abbrev pub error_code : PotError → ℕ
error_code insufficient_stake = 6000
error_code model_not_registered = 6001
error_code wrong_action = 6002
error_code wrong_policy = 6003
error_code thought_not_ready = 6004
error_code thought_stale = 6005
error_code vrf_too_stale = 6006
error_code vrf_already_consumed = 6007
error_code challenge_window_closed = 6008
error_code challenge_window_open = 6009
error_code bond_too_low = 6010
error_code wrong_agent = 6011
error_code invalid_status = 6012
error_code cooldown_active = 6013
error_code active_thoughts_exist = 6014
error_code evidence_mismatch = 6015
error_code overflow = 6016
error_code unauthorized = 6017

-- The errors that the framework's account constraints and the system program report.
pub data FrameworkError : Type 0 where
  account_not_initialized account_discriminator_mismatch account_already_in_use : FrameworkError
  constraint_seeds : FrameworkError
  system_program : ℕ → FrameworkError

pub data Error : Type 0 where
  pot : PotError → Error
  framework : FrameworkError → Error

pub data Result {ℓ} (T : Type ℓ) : Type ℓ where
  ok : T → Result T
  err : Error → Result T

-- The operator `?`, and its use on a check that returns nothing.
infixl 5 ◌>>=◌ ◌>>◌
abbrev pub ◌>>=◌ {ℓ₁ ℓ₂} :
    {T : Type ℓ₁} {U : Type ℓ₂} (first : Result T) (rest : T → Result U) → Result U
err reason >>= rest = err reason
ok value >>= rest = rest value

abbrev pub ◌>>◌ {ℓ} : {U : Type ℓ} (check : Result (Unit {0})) (rest : Result U) → Result U
check >> rest = check >>= (λ done. rest)

-- `require!(condition, error)`
abbrev pub require : Bool → PotError → Result (Unit {0})
require true e = ok tt
require false e = err (pot e)

-- `option.ok_or(error)?`
abbrev pub ok_or {ℓ} : {A : Type ℓ} → Option A → PotError → Result A
ok_or none e = err (pot e)
ok_or (some a) e = ok a

-- The check of a `seeds` constraint.
abbrev pub require_seeds : Bool → Result (Unit {0})
require_seeds true = ok tt
require_seeds false = err (framework constraint_seeds)

-- Inversion of a successful chain.
pub >>=-eq-ok {ℓ₁ ℓ₂} :
    {T : Type ℓ₁} {U : Type ℓ₂} {u : U} (first : Result T) (rest : T → Result U)
    → (first >>= rest) ≡ ok u
    → (value : T) × (first ≡ ok value) × (rest value ≡ ok u)
>>=-eq-ok (err reason) rest passed = cc
>>=-eq-ok (ok value) rest passed = (value, refl, passed)

-- To split on a result and keep the equation.
pub Result-cases {ℓ} :
    {A : Type ℓ} (x : Result A) → ((a : A) × (x ≡ ok a)) ⊎ ((e : Error) × (x ≡ err e))
Result-cases (ok a) = inl (a, refl)
Result-cases (err e) = inr (e, refl)
