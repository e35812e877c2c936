-- ===== src/Program/Dispute.antt =====
-- Opening of a dispute (programs/pot_program/src/instructions/challenge.rs).
use proof_of_thought.Prelude.{ℕ, false, ◌==◌, ltb, leb}
use proof_of_thought.Prelude.Dict.{lookup, insert}
use proof_of_thought.Program.Error.{
  Result, ok, ◌>>=◌, ◌>>◌, require, ok_or, wrong_policy, invalid_status, challenge_window_closed,
  bond_too_low,
}
use proof_of_thought.Program.State.{
  Pubkey, Hash, Policy, ThoughtRecord, pending, challenged, status_u8, status_eq, from_u8,
  ChallengeClaim, claim_u8, Challenge, Account,
}
use proof_of_thought.Program.Runtime.{
  Runtime, Ledger, Lamports, policy_seeds, thought_seeds, challenge_seeds, bond_seeds, as_thought,
  as_policy, seeds_with_bump, seeds_canonical, init, emit, challenge_opened,
}

-- `Challenge::LEN`
abbrev challenge_len : ℕ
challenge_len = 124

pub record ChallengeContext : Type 0 where
  pub challenger : Pubkey
  pub thought : Pubkey
  pub policy : Pubkey
  pub challenge : Pubkey
  pub bond_vault : Pubkey

-- The account that `open_challenge` writes.
abbrev pub new_challenge : Runtime → ChallengeContext → ℕ → ChallengeClaim → ℕ → Hash → Challenge
new_challenge r ctx slot claim bond evidence_uri_hash = record {
  thought = ctx.thought;
  challenger = ctx.challenger;
  bond = bond;
  claim = claim_u8 claim;
  evidence_uri_hash = evidence_uri_hash;
  opened_at_slot = slot;
  resolved = false;
  verdict = false;
  bump = (r.find_program_address (challenge_seeds ctx.thought ctx.challenger)).1;
}

-- What the constraints of `OpenChallenge` load, and the balances once the account is paid for.
pub record OpenAccounts : Type 0 where
  pub thought : ThoughtRecord
  pub policy : Policy
  pub funded : Lamports

unfoldable pub open_accounts : Runtime → ChallengeContext → Ledger → Result OpenAccounts
open_accounts r ctx s = do
  thought ← as_thought (lookup ctx.thought s.accounts)
  policy ← as_policy (lookup ctx.policy s.accounts)
  funded ←
      init r ctx.challenger ctx.challenge challenge_len (challenge_seeds ctx.thought ctx.challenger)
        s
  seeds_with_bump r (thought_seeds thought.agent thought.vrf_nonce_idx) thought.bump ctx.thought
  seeds_with_bump r (policy_seeds thought.policy_id) policy.bump ctx.policy
  require (policy.policy_id == thought.policy_id) wrong_policy
  seeds_canonical r (bond_seeds ctx.challenge) ctx.bond_vault
  ok (record { thought = thought; policy = policy; funded = funded })

unfoldable pub open_challenge :
    Runtime → ChallengeContext → ℕ → ChallengeClaim → ℕ → Hash → Ledger → Result Ledger
unfolding from_u8
open_challenge r ctx slot claim bond evidence_uri_hash s = do
  x ← open_accounts r ctx s
  status ← ok_or (from_u8 x.thought.status) invalid_status
  require (status_eq status pending) invalid_status
  require (ltb slot x.thought.challenge_deadline_slot) challenge_window_closed
  require (leb x.policy.bond_min bond) bond_too_low
  paid ← r.transfer ctx.challenger ctx.bond_vault bond x.funded
  let disputed = record (x.thought) { status = status_u8 challenged }
  let c = new_challenge r ctx slot claim bond evidence_uri_hash
  ok (
      emit (challenge_opened ctx.challenge ctx.thought ctx.challenger (claim_u8 claim) bond)
        (record s {
          accounts =
              insert ctx.challenge (Account.challenge c)
                (insert ctx.thought (Account.thought_record disputed) s.accounts);
          lamports = paid;
        }))
