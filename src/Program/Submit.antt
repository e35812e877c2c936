-- ===== src/Program/Submit.antt =====
-- Submission of a thought (programs/pot_program/src/instructions/submit_thought.rs).
use proof_of_thought.Prelude.{ℕ, Bool, true, false, not, ◌||◌, List, any, is_empty, ◌==◌, leb}
use proof_of_thought.Prelude.Word.{checked_add, checked_sub}
use proof_of_thought.Prelude.Dict.{lookup, insert}
use proof_of_thought.Program.Error.{
  Result, ok, ◌>>=◌, ◌>>◌, require, ok_or, insufficient_stake, model_not_registered, wrong_policy,
  vrf_too_stale, vrf_already_consumed, wrong_agent, overflow,
}
use proof_of_thought.Program.State.{
  Pubkey, Hash, Policy, AgentProfile, VrfRequest, ThoughtRecord, ThoughtRecordArgs, pending,
  status_u8, Account,
}
use proof_of_thought.Program.Runtime.{
  Runtime, Ledger, Lamports, agent_seeds, model_seeds, policy_seeds, vrf_seeds, thought_seeds,
  as_agent, as_model, as_policy, as_vrf, seeds_with_bump, init, emit, thought_submitted,
}

-- `ThoughtRecord::LEN`
abbrev thought_record_len : ℕ
thought_record_len = 302

pub record SubmitContext : Type 0 where
  pub operator : Pubkey
  pub agent : Pubkey
  pub model : Pubkey
  pub policy : Pubkey
  pub vrf_request : Pubkey
  pub thought : Pubkey

-- The model is allowed by the policy: an empty list allows any.
unfoldable pub is_allowed : List Hash → Hash → Bool
is_allowed models model_id = is_empty models || any (λ m. m == model_id) models

-- The checks 1 to 3 of the handler.
unfoldable pub check_submission :
    AgentProfile → Policy → VrfRequest → ℕ → ThoughtRecordArgs → Result (Unit {0})
check_submission agent policy vrf slot args = do
  require (leb policy.bond_min agent.stake_amount) insufficient_stake
  require (not vrf.consumed) vrf_already_consumed
  require (vrf.seed == args.vrf_seed) vrf_too_stale
  age ← ok_or (checked_sub slot vrf.request_slot) overflow
  require (leb age policy.max_inference_slots) vrf_too_stale
  require (is_allowed policy.allowed_models args.model_id) model_not_registered

-- The record that `submit_thought` writes.
abbrev pub new_thought : Runtime → SubmitContext → ℕ → ThoughtRecordArgs → ℕ → ThoughtRecord
new_thought r ctx slot args deadline = record {
  agent = ctx.agent;
  model_id = args.model_id;
  input_commitment = args.input_commitment;
  output_commitment = args.output_commitment;
  trace_uri_hash = args.trace_uri_hash;
  vrf_seed = args.vrf_seed;
  policy_id = args.policy_id;
  slot = slot;
  action_pda = args.action_pda;
  status = status_u8 pending;
  attestation_verified = false;
  challenge_deadline_slot = deadline;
  consumed_count = 0;
  vrf_nonce_idx = args.vrf_nonce_idx;
  bump = (r.find_program_address (thought_seeds ctx.agent args.vrf_nonce_idx)).1;
}

-- What the constraints of `SubmitThought` load, and the balances once the account is paid for.
pub record SubmitAccounts : Type 0 where
  pub agent : AgentProfile
  pub policy : Policy
  pub vrf : VrfRequest
  pub funded : Lamports

unfoldable pub submit_accounts :
    Runtime → SubmitContext → ThoughtRecordArgs → Ledger → Result SubmitAccounts
submit_accounts r ctx args s = do
  agent ← as_agent (lookup ctx.agent s.accounts)
  model ← as_model (lookup ctx.model s.accounts)
  policy ← as_policy (lookup ctx.policy s.accounts)
  vrf ← as_vrf (lookup ctx.vrf_request s.accounts)
  funded ←
      init r ctx.operator ctx.thought thought_record_len
        (thought_seeds ctx.agent args.vrf_nonce_idx) s
  seeds_with_bump r (agent_seeds ctx.operator) agent.bump ctx.agent
  require (agent.operator == ctx.operator) wrong_agent
  seeds_with_bump r (model_seeds args.model_id) model.bump ctx.model
  require (model.model_id == args.model_id) model_not_registered
  seeds_with_bump r (policy_seeds args.policy_id) policy.bump ctx.policy
  require (policy.policy_id == args.policy_id) wrong_policy
  seeds_with_bump r (vrf_seeds ctx.agent args.vrf_nonce_idx) vrf.bump ctx.vrf_request
  require (vrf.agent == ctx.agent) wrong_agent
  ok (record { agent = agent; policy = policy; vrf = vrf; funded = funded })

unfoldable pub submit_thought :
    Runtime → SubmitContext → ℕ → ThoughtRecordArgs → List ℕ → Ledger → Result Ledger
submit_thought r ctx slot args trace_uri s = do
  x ← submit_accounts r ctx args s
  check_submission x.agent x.policy x.vrf slot args
  deadline ← ok_or (checked_add 64 slot x.policy.challenge_window_slots) overflow
  active_thoughts ← ok_or (checked_add 32 x.agent.active_thoughts 1) overflow
  let busier = record (x.agent) { active_thoughts = active_thoughts }
  let spent = record (x.vrf) { consumed = true }
  let t = new_thought r ctx slot args deadline
  let event =
      thought_submitted ctx.agent ctx.thought args.model_id args.input_commitment
        args.output_commitment args.trace_uri_hash args.vrf_seed args.policy_id slot trace_uri
  ok (
      emit event (record s {
        accounts = insert ctx.thought (Account.thought_record t) (
            insert ctx.vrf_request (Account.vrf_request spent)
              (insert ctx.agent (Account.agent_profile busier) s.accounts));
        lamports = x.funded;
      }))
