-- ===== src/Program/Runtime.antt =====
-- What the program takes from Solana and Anchor and does not implement: address derivation, the
-- system program's transfers, the creation of an account, the governance key. They are the fields
-- of `Runtime`; `RuntimeLaws` states what the platform documents of them.
use proof_of_thought.Prelude.{
  ℕ, ◌+◌, ◌-◌, ◌≤◌, ◌≡◌, ◌≢◌, Option, some, List, [], ◌∷◌, ◌++◌, Bool, ◌==◌, if◌then◌else◌,
}
use proof_of_thought.Prelude.Dict.{Dict, lookup}
use proof_of_thought.Program.Error.{
  Result, ok, err, PotError, pot, framework, account_not_initialized,
  account_discriminator_mismatch, account_already_in_use, ◌>>◌, require_seeds,
}
use proof_of_thought.Program.State.{
  Pubkey, Hash, AgentProfile, ModelRegistry, Policy, VrfRequest, ThoughtRecord, Challenge, Account,
}
use proof_of_thought.Prelude.{none}

-- The seed lists of the program's derived addresses, one constructor for each tag. On the chain
-- the tags and the fixed lengths of what follows keep the byte strings apart.
pub data Seeds : Type 0 where
  agent_seeds : Pubkey → Seeds
  vault_seeds : Pubkey → Seeds
  model_seeds : Hash → Seeds
  policy_seeds : Hash → Seeds
  vrf_seeds : Pubkey → ℕ → Seeds
  thought_seeds : Pubkey → ℕ → Seeds
  challenge_seeds : Pubkey → Pubkey → Seeds
  bond_seeds : Pubkey → Seeds

abbrev pub Lamports : Type 0
Lamports = Pubkey → ℕ

pub record Runtime : Type 0 where
  -- The address with the canonical bump.
  pub find_program_address : Seeds → Pubkey × ℕ
  -- The address with a given bump, if there is one.
  pub create_program_address : Seeds → ℕ → Option Pubkey
  -- `transfer from to amount`
  pub transfer : Pubkey → Pubkey → ℕ → Lamports → Result Lamports
  -- `create_account payer address space`: the payer funds the rent of a new account.
  pub create_account : Pubkey → Pubkey → ℕ → Lamports → Result Lamports
  -- The constant `GOVERNANCE` of lib.rs.
  pub governance : Pubkey

-- The balance of `k` after `n` lamports went from `f` to `t`.
abbrev pub moved : Pubkey → Pubkey → ℕ → Lamports → Pubkey → ℕ
moved f t n l k =
    if f == t then l k else if f == k then l k - n else if t == k then l k + n else l k

pub record RuntimeLaws (r : Runtime) : Type 0 where
  pub find_creates :
      (s : Seeds)
      → r.create_program_address s (r.find_program_address s).1 ≡ some (r.find_program_address s).0
  -- Derived addresses do not collide.
  pub create_injective :
      (s t : Seeds) (b c : ℕ) (k : Pubkey)
      → r.create_program_address s b ≡ some k
      → r.create_program_address t c ≡ some k
      → s ≡ t
  -- A transfer that succeeds was covered, and moves the amount.
  pub transferred :
      (f t : Pubkey) (n : ℕ) (l l' : Lamports) (k : Pubkey)
      → r.transfer f t n l ≡ ok l'
      → (n ≤ l f) × (l' k ≡ moved f t n l k)
  -- A failed transfer reports an error of the system program, not one of this program's.
  pub transfer_fails :
      (f t : Pubkey) (n : ℕ) (l : Lamports) (e : PotError) → r.transfer f t n l ≢ err (pot e)
  -- A creation moves lamports from the payer to the new account alone.
  pub created :
      (p a : Pubkey) (space : ℕ) (l l' : Lamports)
      → r.create_account p a space l ≡ ok l'
      → p ≢ a
      → (l a ≤ l' a) × (l' p + l' a ≡ l p + l a)
  pub created_others :
      (p a : Pubkey) (space : ℕ) (l l' : Lamports) (k : Pubkey)
      → r.create_account p a space l ≡ ok l'
      → k ≢ p
      → k ≢ a
      → l' k ≡ l k

-- The events that `emit!` logs.
pub data Event : Type 0 where
  thought_submitted :
      (agent thought_pda model_id input_commitment output_commitment trace_uri_hash vrf_seed
        policy_id slot : ℕ)
      (trace_uri : List ℕ)
      → Event
  thought_finalized : (thought_pda agent status slot : ℕ) → Event
  thought_consumed : (thought_pda action_pda consumer consumed_count : ℕ) → Event
  challenge_opened : (challenge thought challenger claim bond : ℕ) → Event
  challenge_resolved : (challenge thought : ℕ) (verdict : Bool) (slashed_amount : ℕ) → Event

-- What an instruction reads and writes.
pub record Ledger : Type 0 where
  pub accounts : Dict Account
  pub lamports : Lamports
  pub events : List Event

-- `emit!`
abbrev pub emit : Event → Ledger → Ledger
emit e s = record s { events = s.events ++ e ∷ [] }

-- Loading an `Account<'info, T>`: the account exists and holds a `T`.
abbrev pub as_agent : Option Account → Result AgentProfile
as_agent none = err (framework account_not_initialized)
as_agent (some (Account.agent_profile a)) = ok a
as_agent (some _) = err (framework account_discriminator_mismatch)

abbrev pub as_model : Option Account → Result ModelRegistry
as_model none = err (framework account_not_initialized)
as_model (some (Account.model_registry a)) = ok a
as_model (some _) = err (framework account_discriminator_mismatch)

abbrev pub as_policy : Option Account → Result Policy
as_policy none = err (framework account_not_initialized)
as_policy (some (Account.policy a)) = ok a
as_policy (some _) = err (framework account_discriminator_mismatch)

abbrev pub as_vrf : Option Account → Result VrfRequest
as_vrf none = err (framework account_not_initialized)
as_vrf (some (Account.vrf_request a)) = ok a
as_vrf (some _) = err (framework account_discriminator_mismatch)

abbrev pub as_thought : Option Account → Result ThoughtRecord
as_thought none = err (framework account_not_initialized)
as_thought (some (Account.thought_record a)) = ok a
as_thought (some _) = err (framework account_discriminator_mismatch)

abbrev pub as_challenge : Option Account → Result Challenge
as_challenge none = err (framework account_not_initialized)
as_challenge (some (Account.challenge a)) = ok a
as_challenge (some _) = err (framework account_discriminator_mismatch)

module _ (r : Runtime) where
  abbrev is_at : Option Pubkey → Pubkey → Bool
  is_at none k = Bool.false
  is_at (some a) k = a == k

  -- `seeds = [..], bump = b`: the account is the address that the stored bump gives.
  abbrev pub seeds_with_bump : Seeds → ℕ → Pubkey → Result (Unit {0})
  seeds_with_bump seeds b k = require_seeds (is_at (r.create_program_address seeds b) k)

  -- `seeds = [..], bump`: the account is the canonical address.
  abbrev pub seeds_canonical : Seeds → Pubkey → Result (Unit {0})
  seeds_canonical seeds k = require_seeds ((r.find_program_address seeds).0 == k)

  abbrev unused : Option Account → Result (Unit {0})
  unused none = ok tt
  unused (some _) = err (framework account_already_in_use)

  -- `init, payer = .., space = .., seeds = [..], bump`: the account is the canonical address, is
  -- not in use, and is created at the payer's cost. Returns the balances.
  unfoldable pub init : Pubkey → Pubkey → ℕ → Seeds → Ledger → Result Lamports
  init payer address space seeds s = do
    seeds_canonical seeds address
    unused (lookup address s.accounts)
    r.create_account payer address space s.lamports

  -- An address derived from this program's identity has no private key, and only this program signs
  -- for it: no signer of one of its instructions is such an address.
  abbrev pub IsSigner : Pubkey → Type 0
  IsSigner k = (s : Seeds) (b : ℕ) → r.create_program_address s b ≢ some k
