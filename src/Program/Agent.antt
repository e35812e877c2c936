-- ===== src/Program/Agent.antt =====
-- Registration, staking and withdrawal of an agent
-- (programs/pot_program/src/instructions/register_agent.rs, stake.rs).
use proof_of_thought.Prelude.{ℕ, ◌==◌, ltb, leb}
use proof_of_thought.Prelude.Int.{pos}
use proof_of_thought.Prelude.Word.{checked_add, checked_sub}
use proof_of_thought.Prelude.Dict.{lookup, insert}
use proof_of_thought.Program.Error.{
  Result, ok, ◌>>=◌, ◌>>◌, require, ok_or, insufficient_stake, wrong_agent, cooldown_active,
  active_thoughts_exist, overflow,
}
use proof_of_thought.Program.State.{Pubkey, AgentProfile, agent_profile}
use proof_of_thought.Program.Runtime.{
  Runtime, Ledger, agent_seeds, vault_seeds, as_agent, seeds_with_bump, seeds_canonical, init,
}

-- `AgentProfile::LEN`
abbrev agent_profile_len : ℕ
agent_profile_len = 109

-- The accounts that `register_agent`, `stake` and `withdraw_stake` name.
pub record AgentContext : Type 0 where
  pub operator : Pubkey
  pub agent : Pubkey
  pub stake_vault : Pubkey

module _ (r : Runtime) (ctx : AgentContext) where
  -- The profile that `register_agent` writes.
  abbrev pub new_agent : ℕ → AgentProfile
  new_agent stake = record {
    operator = ctx.operator;
    stake_vault = ctx.stake_vault;
    stake_amount = stake;
    reputation = pos 0;
    active_thoughts = 0;
    cooldown_until = 0;
    vrf_nonce = 0;
    bump = (r.find_program_address (agent_seeds ctx.operator)).1;
  }

  unfoldable pub register_agent : ℕ → Ledger → Result Ledger
  register_agent stake s = do
    funded ← init r ctx.operator ctx.agent agent_profile_len (agent_seeds ctx.operator) s
    seeds_canonical r (vault_seeds ctx.agent) ctx.stake_vault
    require (ltb 0 stake) insufficient_stake
    paid ← r.transfer ctx.operator ctx.stake_vault stake funded
    ok (record s {
      accounts = insert ctx.agent (agent_profile (new_agent stake)) s.accounts;
      lamports = paid;
    })

  -- The constraints that `Stake` and `WithdrawStake` share.
  unfoldable pub own_agent : Ledger → Result AgentProfile
  own_agent s = do
    agent ← as_agent (lookup ctx.agent s.accounts)
    seeds_with_bump r (agent_seeds ctx.operator) agent.bump ctx.agent
    require (agent.operator == ctx.operator) wrong_agent
    seeds_canonical r (vault_seeds ctx.agent) ctx.stake_vault
    ok agent

  unfoldable pub stake : ℕ → Ledger → Result Ledger
  stake amount s = do
    agent ← own_agent s
    require (ltb 0 amount) insufficient_stake
    paid ← r.transfer ctx.operator ctx.stake_vault amount s.lamports
    stake_amount ← ok_or (checked_add 64 agent.stake_amount amount) overflow
    let staked = record agent { stake_amount = stake_amount }
    ok (record s { accounts = insert ctx.agent (agent_profile staked) s.accounts; lamports = paid })

  unfoldable pub withdraw_stake : ℕ → ℕ → Ledger → Result Ledger
  withdraw_stake slot amount s = do
    agent ← own_agent s
    require (agent.active_thoughts == 0) active_thoughts_exist
    require (leb agent.cooldown_until slot) cooldown_active
    require (leb amount agent.stake_amount) insufficient_stake
    require (leb amount (s.lamports ctx.stake_vault)) insufficient_stake
    paid ← r.transfer ctx.stake_vault ctx.operator amount s.lamports
    stake_amount ← ok_or (checked_sub agent.stake_amount amount) overflow
    let left = record agent { stake_amount = stake_amount }
    ok (record s { accounts = insert ctx.agent (agent_profile left) s.accounts; lamports = paid })
