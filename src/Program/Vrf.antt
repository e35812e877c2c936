-- ===== src/Program/Vrf.antt =====
-- Allocation of a randomness request (programs/pot_program/src/instructions/request_vrf.rs).
use proof_of_thought.Prelude.{ℕ, false, ◌==◌}
use proof_of_thought.Prelude.Word.{checked_add}
use proof_of_thought.Prelude.Dict.{lookup, insert}
use proof_of_thought.Program.Error.{
  Result, ok, ◌>>=◌, ◌>>◌, require, ok_or, wrong_agent, vrf_already_consumed, overflow,
}
use proof_of_thought.Program.State.{Pubkey, Hash, AgentProfile, VrfRequest, Account}
use proof_of_thought.Program.Runtime.{
  Runtime, Ledger, Lamports, agent_seeds, vrf_seeds, as_agent, seeds_with_bump, init,
}

-- `VrfRequest::LEN`
abbrev vrf_request_len : ℕ
vrf_request_len = 90

pub record VrfContext : Type 0 where
  pub operator : Pubkey
  pub agent : Pubkey
  pub vrf_request : Pubkey

-- The request that `request_vrf` writes.
abbrev pub new_request : Runtime → VrfContext → ℕ → ℕ → Hash → VrfRequest
new_request r ctx slot nonce_idx seed = record {
  agent = ctx.agent;
  nonce_idx = nonce_idx;
  seed = seed;
  request_slot = slot;
  consumed = false;
  bump = (r.find_program_address (vrf_seeds ctx.agent nonce_idx)).1;
}

-- What the constraints of `RequestVrf` load, and the balances once the account is paid for.
pub record RequestAccounts : Type 0 where
  pub agent : AgentProfile
  pub funded : Lamports

unfoldable pub request_accounts : Runtime → VrfContext → ℕ → Ledger → Result RequestAccounts
request_accounts r ctx nonce_idx s = do
  agent ← as_agent (lookup ctx.agent s.accounts)
  funded ← init r ctx.operator ctx.vrf_request vrf_request_len (vrf_seeds ctx.agent nonce_idx) s
  seeds_with_bump r (agent_seeds ctx.operator) agent.bump ctx.agent
  require (agent.operator == ctx.operator) wrong_agent
  ok (record { agent = agent; funded = funded })

unfoldable pub request_vrf : Runtime → VrfContext → ℕ → ℕ → Hash → Ledger → Result Ledger
request_vrf r ctx slot nonce_idx seed s = do
  x ← request_accounts r ctx nonce_idx s
  require (nonce_idx == x.agent.vrf_nonce) vrf_already_consumed
  vrf_nonce ← ok_or (checked_add 64 x.agent.vrf_nonce 1) overflow
  let bumped = record (x.agent) { vrf_nonce = vrf_nonce }
  ok (record s {
    accounts =
        insert ctx.vrf_request (Account.vrf_request (new_request r ctx slot nonce_idx seed))
          (insert ctx.agent (Account.agent_profile bumped) s.accounts);
    lamports = x.funded;
  })
