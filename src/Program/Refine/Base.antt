-- ===== src/Program/Refine/Base.antt =====
-- What the shared checks give: loads, seeds, the creation of an account, transfers.
use proof_of_thought.Prelude.{ℕ, ◌+◌, ◌≤◌, ◌≡◌, ◌≢◌, Option, some, none, arith}
use proof_of_thought.Prelude.Dict.{lookup}
use proof_of_thought.Program.Error.{ok}
use proof_of_thought.Program.State.{
  Pubkey, AgentProfile, agent_profile, Policy, policy, VrfRequest, vrf_request, ThoughtRecord,
  thought_record, Challenge, challenge, Account,
}
use proof_of_thought.Program.Runtime.{
  Runtime, RuntimeLaws, Ledger, Lamports, Seeds, as_agent, as_policy, as_vrf, as_thought,
  as_challenge, IsSigner, init,
}
use proof_of_thought.Program.Addresses.{address, signer-ne-address}

pub as_agent_lem :
    (o : Option Account) (a : AgentProfile) → as_agent o ≡ ok a → o ≡ some (agent_profile a)
as_agent_lem o a h = ground arith

pub as_policy_lem : (o : Option Account) (p : Policy) → as_policy o ≡ ok p → o ≡ some (policy p)
as_policy_lem o a h = ground arith

pub as_vrf_lem : (o : Option Account) (v : VrfRequest) → as_vrf o ≡ ok v → o ≡ some (vrf_request v)
as_vrf_lem o a h = ground arith

pub as_thought_lem :
    (o : Option Account) (t : ThoughtRecord) → as_thought o ≡ ok t → o ≡ some (thought_record t)
as_thought_lem o a h = ground arith

pub as_challenge_lem :
    (o : Option Account) (c : Challenge) → as_challenge o ≡ ok c → o ≡ some (challenge c)
as_challenge_lem o a h = ground arith

module _ (r : Runtime) (laws : RuntimeLaws r) where
  -- A transfer takes lamports from its source alone.
  pub transfer-ge :
      (f t : Pubkey) (n : ℕ) (l l' : Lamports) (k : Pubkey)
      → r.transfer f t n l ≡ ok l'
      → k ≢ f
      → l k ≤ l' k
  transfer-ge f t n l l' k h ne = ground (arith, laws.transferred f t n l l' k)

  -- It credits its target.
  pub transfer-credits :
      (f t : Pubkey) (n : ℕ) (l l' : Lamports) → r.transfer f t n l ≡ ok l' → t ≢ f → l' t ≡ l t + n
  transfer-credits f t n l l' h ne = ground (arith, laws.transferred f t n l l' t)

  -- It debits its source.
  pub transfer-debits :
      (f t : Pubkey) (n : ℕ) (l l' : Lamports) → r.transfer f t n l ≡ ok l' → t ≢ f → l' f + n ≡ l f
  transfer-debits f t n l l' h ne = ground (arith, laws.transferred f t n l l' f)

  -- An account that `init` made was free, stands at its address, and took nothing from another.
  pub init_lem :
      (p a : Pubkey) (space : ℕ) (seeds : Seeds) (s : Ledger) (l : Lamports)
      → init r p a space seeds s ≡ ok l
      → (a ≡ address r seeds)
        × (lookup a s.accounts ≡ none)
        × (r.create_account p a space s.lamports ≡ ok l)
  unfolding init
  init_lem p a space seeds s l h = ground arith

  pub init_keeps :
      (p a : Pubkey) (space : ℕ) (seeds : Seeds) (s : Ledger) (l : Lamports)
      → IsSigner r p
      → init r p a space seeds s ≡ ok l
      → (j : Seeds) → s.lamports (address r j) ≤ l (address r j)
  init_keeps p a space seeds s l sig h j = grind (
    arith,
    init_lem p a space seeds s l h,
    signer-ne-address r laws p seeds sig,
    signer-ne-address r laws p j sig,
    laws.created p a space s.lamports l,
    laws.created_others p a space s.lamports l (address r j),
  )
