-- ===== src/Program/Consume.antt =====
-- The gate of a downstream action (programs/pot_program/src/instructions/consume_thought.rs).
use proof_of_thought.Prelude.{ℕ, ◌||◌, ◌==◌, leb}
use proof_of_thought.Prelude.Word.{checked_add, checked_sub}
use proof_of_thought.Prelude.Dict.{lookup, insert}
use proof_of_thought.Program.Error.{
  Result, ok, ◌>>=◌, ◌>>◌, require, ok_or, wrong_policy, wrong_action, invalid_status,
  thought_not_ready, thought_stale, overflow,
}
use proof_of_thought.Program.State.{
  Pubkey, ThoughtRecord, Policy, finalized, status_eq, from_u8, Account,
}
use proof_of_thought.Program.Runtime.{
  Runtime, Ledger, policy_seeds, thought_seeds, as_thought, as_policy, seeds_with_bump, emit,
  thought_consumed,
}

pub record ConsumeContext : Type 0 where
  pub consumer : Pubkey
  pub thought : Pubkey
  pub policy : Pubkey
  pub action : Pubkey

-- The checks of the handler, down to the new count.
unfoldable pub check_consumption : ThoughtRecord → Policy → Pubkey → ℕ → Result ℕ
unfolding from_u8
check_consumption thought policy action slot = do
  require (thought.action_pda == action) wrong_action
  status ← ok_or (from_u8 thought.status) invalid_status
  require (status_eq status finalized || thought.attestation_verified) thought_not_ready
  age ← ok_or (checked_sub slot thought.slot) overflow
  require (leb age policy.max_action_age_slots) thought_stale
  ok_or (checked_add 32 thought.consumed_count 1) overflow

-- What the constraints of `ConsumeThought` load.
pub record ConsumeAccounts : Type 0 where
  pub thought : ThoughtRecord
  pub policy : Policy

unfoldable pub consume_accounts : Runtime → ConsumeContext → Ledger → Result ConsumeAccounts
consume_accounts r ctx s = do
  thought ← as_thought (lookup ctx.thought s.accounts)
  policy ← as_policy (lookup ctx.policy s.accounts)
  seeds_with_bump r (thought_seeds thought.agent thought.vrf_nonce_idx) thought.bump ctx.thought
  seeds_with_bump r (policy_seeds thought.policy_id) policy.bump ctx.policy
  require (policy.policy_id == thought.policy_id) wrong_policy
  ok (record { thought = thought; policy = policy })

unfoldable pub consume_thought : Runtime → ConsumeContext → ℕ → Ledger → Result Ledger
consume_thought r ctx slot s = do
  x ← consume_accounts r ctx s
  consumed_count ← check_consumption x.thought x.policy ctx.action slot
  let used = record (x.thought) { consumed_count = consumed_count }
  ok (
      emit (thought_consumed ctx.thought x.thought.action_pda ctx.consumer consumed_count)
        (record s { accounts = insert ctx.thought (Account.thought_record used) s.accounts }))
