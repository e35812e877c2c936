-- ===== src/Program/Resolve.antt =====
-- The two ways to resolve a thought (programs/pot_program/src/instructions/resolve.rs).
use proof_of_thought.Prelude.{ℕ, ◌*◌, ◌/◌, Bool, true, not, ◌&&◌, ◌==◌, leb, if◌then◌else◌}
use proof_of_thought.Prelude.Int.{saturating_add_i64, saturating_sub_i64}
use proof_of_thought.Prelude.Word.{checked_sub, saturating_sub, truncate}
use proof_of_thought.Prelude.Dict.{lookup, insert}
use proof_of_thought.Program.Error.{
  Result, ok, ◌>>=◌, ◌>>◌, require, ok_or, wrong_agent, invalid_status, challenge_window_open,
  unauthorized, overflow,
}
use proof_of_thought.Program.State.{
  Pubkey, AgentProfile, ThoughtRecord, pending, challenged, finalized, slashed, status_u8,
  status_eq, from_u8, Challenge, Account,
}
use proof_of_thought.Program.Runtime.{
  Runtime, Ledger, Lamports, agent_seeds, vault_seeds, policy_seeds, thought_seeds, challenge_seeds,
  bond_seeds, as_agent, as_thought, as_policy, as_challenge, seeds_with_bump, seeds_canonical, emit,
  thought_finalized, challenge_resolved,
}

pub record UnchallengedContext : Type 0 where
  pub cranker : Pubkey
  pub thought : Pubkey
  pub agent : Pubkey

-- What the constraints of `ResolveUnchallenged` load.
pub record UnchallengedAccounts : Type 0 where
  pub thought : ThoughtRecord
  pub agent : AgentProfile

unfoldable pub unchallenged_accounts :
    Runtime → UnchallengedContext → Ledger → Result UnchallengedAccounts
unchallenged_accounts r ctx s = do
  thought ← as_thought (lookup ctx.thought s.accounts)
  agent ← as_agent (lookup ctx.agent s.accounts)
  seeds_with_bump r (thought_seeds thought.agent thought.vrf_nonce_idx) thought.bump ctx.thought
  seeds_with_bump r (agent_seeds agent.operator) agent.bump ctx.agent
  require (ctx.agent == thought.agent) wrong_agent
  ok (record { thought = thought; agent = agent })

unfoldable pub resolve_unchallenged : Runtime → UnchallengedContext → ℕ → Ledger → Result Ledger
unfolding from_u8
resolve_unchallenged r ctx slot s = do
  x ← unchallenged_accounts r ctx s
  status ← ok_or (from_u8 x.thought.status) invalid_status
  require (status_eq status pending) invalid_status
  require (leb x.thought.challenge_deadline_slot slot) challenge_window_open
  let done = record (x.thought) { status = status_u8 finalized }
  let freed = record (x.agent) {
    active_thoughts = saturating_sub x.agent.active_thoughts 1;
    reputation = saturating_add_i64 x.agent.reputation 1;
  }
  ok (
      emit (thought_finalized ctx.thought ctx.agent (status_u8 finalized) slot) (record s {
        accounts =
            insert ctx.agent (Account.agent_profile freed)
              (insert ctx.thought (Account.thought_record done) s.accounts);
      }))

pub record ChallengedContext : Type 0 where
  pub resolver : Pubkey
  pub thought : Pubkey
  pub agent : Pubkey
  pub policy : Pubkey
  pub challenge : Pubkey
  pub stake_vault : Pubkey
  pub bond_vault : Pubkey
  pub challenger : Pubkey
  pub treasury : Pubkey
  pub agent_operator : Pubkey

-- `(x as u128 * percent / 100) as u64`
unfoldable pub share : ℕ → ℕ → ℕ
share x percent = truncate 64 (x * percent / 100)

-- A transfer of nothing is skipped.
unfoldable pub transfer_signed : Runtime → Pubkey → Pubkey → ℕ → Lamports → Result Lamports
transfer_signed r from to amount l = if amount == 0 then ok l else r.transfer from to amount l

-- The guilty branch's payouts: 60% of the stake and the bond to the challenger, 10% of the stake
-- to the treasury; the rest stays in the vault.
unfoldable pub pay_guilty : Runtime → ChallengedContext → ℕ → ℕ → Lamports → Result Lamports
pay_guilty r ctx stake bond l = do
  let to_challenger = share stake 60
  let to_treasury_a = share stake 10
  rest ← ok_or (checked_sub stake to_challenger) overflow
  to_burn ← ok_or (checked_sub rest to_treasury_a) overflow
  l₁ ← transfer_signed r ctx.stake_vault ctx.challenger to_challenger l
  l₂ ← transfer_signed r ctx.stake_vault ctx.treasury to_treasury_a l₁
  transfer_signed r ctx.bond_vault ctx.challenger bond l₂

-- The innocent branch's payouts: 90% of the bond to the operator, the rest to the treasury.
unfoldable pub pay_innocent : Runtime → ChallengedContext → ℕ → Lamports → Result Lamports
pay_innocent r ctx bond l = do
  let to_agent = share bond 90
  to_treasury_b ← ok_or (checked_sub bond to_agent) overflow
  l₁ ← transfer_signed r ctx.bond_vault ctx.agent_operator to_agent l
  transfer_signed r ctx.bond_vault ctx.treasury to_treasury_b l₁

-- What the verdict does to the agent's profile.
unfoldable pub judge_agent : Bool → AgentProfile → AgentProfile
judge_agent verdict agent =
    let judged =
      if verdict
      then record agent { stake_amount = 0; reputation = saturating_sub_i64 agent.reputation 10 }
      else record agent { reputation = saturating_add_i64 agent.reputation 2 } in
    record judged { active_thoughts = saturating_sub agent.active_thoughts 1 }

-- What the constraints of `ResolveChallenged` load.
pub record ChallengedAccounts : Type 0 where
  pub thought : ThoughtRecord
  pub agent : AgentProfile
  pub challenge : Challenge

unfoldable pub challenged_accounts :
    Runtime → ChallengedContext → Ledger → Result ChallengedAccounts
challenged_accounts r ctx s = do
  thought ← as_thought (lookup ctx.thought s.accounts)
  agent ← as_agent (lookup ctx.agent s.accounts)
  policy ← as_policy (lookup ctx.policy s.accounts)
  c ← as_challenge (lookup ctx.challenge s.accounts)
  seeds_with_bump r (thought_seeds thought.agent thought.vrf_nonce_idx) thought.bump ctx.thought
  seeds_with_bump r (agent_seeds agent.operator) agent.bump ctx.agent
  require (ctx.agent == thought.agent) wrong_agent
  seeds_with_bump r (policy_seeds thought.policy_id) policy.bump ctx.policy
  require (policy.resolver == ctx.resolver) unauthorized
  seeds_with_bump r (challenge_seeds ctx.thought c.challenger) c.bump ctx.challenge
  require (c.thought == ctx.thought) invalid_status
  seeds_canonical r (vault_seeds ctx.agent) ctx.stake_vault
  seeds_canonical r (bond_seeds ctx.challenge) ctx.bond_vault
  require (ctx.treasury == policy.treasury) unauthorized
  require (ctx.agent_operator == agent.operator) wrong_agent
  ok (record { thought = thought; agent = agent; challenge = c })

-- The handler's checks before money moves.
unfoldable pub check_verdict : ChallengedContext → ThoughtRecord → Challenge → Result (Unit {0})
unfolding from_u8
check_verdict ctx thought c = do
  status ← ok_or (from_u8 thought.status) invalid_status
  require (status_eq status challenged) invalid_status
  require (not c.resolved) invalid_status
  require (c.challenger == ctx.challenger) wrong_agent
  require (not (ctx.challenger == ctx.stake_vault) && not (ctx.challenger == ctx.bond_vault))
      unauthorized

unfoldable pub resolve_challenged : Runtime → ChallengedContext → Bool → Ledger → Result Ledger
resolve_challenged r ctx verdict s = do
  x ← challenged_accounts r ctx s
  check_verdict ctx x.thought x.challenge
  paid ←
      (if verdict
        then pay_guilty r ctx x.agent.stake_amount x.challenge.bond s.lamports
        else pay_innocent r ctx x.challenge.bond s.lamports)
  let closed = record (x.thought) {
    status = if verdict then status_u8 slashed else status_u8 finalized;
  }
  let settled = record (x.challenge) { resolved = true; verdict = verdict }
  let slashed_amount : ℕ = if verdict then x.agent.stake_amount else 0
  ok (
      emit (challenge_resolved ctx.challenge ctx.thought verdict slashed_amount) (record s {
        accounts = insert ctx.agent (Account.agent_profile (judge_agent verdict x.agent)) (
            insert ctx.challenge (Account.challenge settled)
              (insert ctx.thought (Account.thought_record closed) s.accounts));
        lamports = paid;
      }))
