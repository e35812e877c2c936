-- ===== src/Program/Refine/Agents.antt =====
-- Registration, staking and withdrawal, refined.
use proof_of_thought.Prelude.{ℕ, ◌-◌, ◌≡◌, arith}
use proof_of_thought.Prelude.Dict.{lookup}
use proof_of_thought.Program.Error.{ok, >>=-eq-ok}
use proof_of_thought.Program.State.{AgentProfile, agent_profile}
use proof_of_thought.Program.Runtime.{
  Runtime, RuntimeLaws, Ledger, agent_seeds, vault_seeds, IsSigner, init,
}
use proof_of_thought.Program.Addresses.{address, vault, signer-ne-address}
use proof_of_thought.Program.Agent.{
  AgentContext, new_agent, own_agent, stake, withdraw_stake, register_agent,
}
use proof_of_thought.Program.Effect.{Effect, staked, withdrawn, registered}
use proof_of_thought.Program.Refine.Base.{
  transfer-ge, transfer-credits, transfer-debits, init_lem, init_keeps,
}
use proof_of_thought.Prelude.{some}

own_agent_lem :
    (r : Runtime) (ctx : AgentContext) (s : Ledger) (a : AgentProfile)
    → own_agent r ctx s ≡ ok a
    → (lookup ctx.agent s.accounts ≡ some (agent_profile a)) × (vault r ctx.agent ≡ ctx.stake_vault)
unfolding own_agent
own_agent_lem r ctx s a h = ground arith

module _ (r : Runtime) (laws : RuntimeLaws r) (slot : ℕ) (ctx : AgentContext) where
  pub stake-Effect :
      (n : ℕ) (s s' : Ledger)
      → IsSigner r ctx.operator
      → stake r ctx n s ≡ ok s'
      → Effect r slot s s'
  unfolding stake
  stake-Effect n s s' sig h =
      let (a, own, rest) = >>=-eq-ok (own_agent r ctx s) _ h in
      let (found, at_vault) = own_agent_lem r ctx s a own in
      let paid : r.transfer ctx.operator ctx.stake_vault n s.lamports ≡ ok s'.lamports =
        ground arith in
      staked ctx.agent a n found (ground arith)
        (λ j.
          transfer-ge r laws ctx.operator ctx.stake_vault n s.lamports s'.lamports (address r j)
            paid (λ e. signer-ne-address r laws ctx.operator j sig (ground arith)))
        (ground (
          arith,
          signer-ne-address r laws ctx.operator (vault_seeds ctx.agent) sig,
          transfer-credits r laws ctx.operator ctx.stake_vault n s.lamports s'.lamports paid,
        ))

  pub withdraw-Effect :
      (n : ℕ) (s s' : Ledger)
      → IsSigner r ctx.operator
      → withdraw_stake r ctx slot n s ≡ ok s'
      → Effect r slot s s'
  unfolding withdraw_stake
  withdraw-Effect n s s' sig h =
      let (a, own, rest) = >>=-eq-ok (own_agent r ctx s) _ h in
      let (found, at_vault) = own_agent_lem r ctx s a own in
      let paid : r.transfer ctx.stake_vault ctx.operator n s.lamports ≡ ok s'.lamports =
        ground arith in
      withdrawn ctx.agent a n (a.stake_amount - n) found (ground arith) (ground arith)
        (ground arith)
        (λ j ne.
          transfer-ge r laws ctx.stake_vault ctx.operator n s.lamports s'.lamports (address r j)
            paid (λ e. ne (ground arith)))
        (ground (
          arith,
          signer-ne-address r laws ctx.operator (vault_seeds ctx.agent) sig,
          transfer-debits r laws ctx.stake_vault ctx.operator n s.lamports s'.lamports paid,
        ))

  pub register-Effect :
      (n : ℕ) (s s' : Ledger)
      → IsSigner r ctx.operator
      → register_agent r ctx n s ≡ ok s'
      → Effect r slot s s'
  unfolding register_agent
  register-Effect n s s' sig h =
      let (l, made, rest) =
        >>=-eq-ok (init r ctx.operator ctx.agent 109 (agent_seeds ctx.operator) s) _ h in
      let (at_seeds, free, cost) =
        init_lem r laws ctx.operator ctx.agent 109 (agent_seeds ctx.operator) s l made in
      let paid : r.transfer ctx.operator ctx.stake_vault n l ≡ ok s'.lamports = ground arith in
      let keeps =
        init_keeps r laws ctx.operator ctx.agent 109 (agent_seeds ctx.operator) s l sig made in
      registered ctx.agent (new_agent r ctx n) free (at_seeds, ground arith) (ground arith)
        (ground arith) (ground arith) (ground arith)
        (λ j. ground (
          arith,
          keeps j,
          signer-ne-address r laws ctx.operator j sig,
          transfer-ge r laws ctx.operator ctx.stake_vault n l s'.lamports (address r j) paid,
        ))
        (ground (
          arith,
          keeps (vault_seeds ctx.agent),
          signer-ne-address r laws ctx.operator (vault_seeds ctx.agent) sig,
          transfer-credits r laws ctx.operator ctx.stake_vault n l s'.lamports paid,
        ))
