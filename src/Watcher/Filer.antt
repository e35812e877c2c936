-- ===== src/Watcher/Filer.antt =====
-- The decision to file a challenge, and its dispatch (watcher/src/challenge.rs, the strategies of
-- watcher/src/config.rs). The filer's atomic counter is a field of the record; a call that awaits
-- is two steps in `Filer/Race`.
pub mod Decision
pub mod Race
pub mod Instruction
pub mod Concurrency
use proof_of_thought.Prelude.{
  ℕ, ◌+◌, ◌-◌, ◌*◌, ◌/◌, ◌%◌, ◌^◌, Bool, true, false, List, [], ◌∷◌, ◌++◌, Option, none, some, leb,
  ltb, if◌then◌else◌,
}
use proof_of_thought.Prelude.Word.{saturating_add, saturating_mul, truncate}
use proof_of_thought.Program.State.{ChallengeClaim, claim_u8}
use proof_of_thought.Watcher.Types.{Bytes, le_bytes, VerifyOutcome, matched, mismatch, inconclusive}

abbrev pub default_tx_fee_lamports : ℕ
default_tx_fee_lamports = 5_000_000

pub data BondStrategy : Type 0 where
  conservative aggressive disabled : BondStrategy

pub record ChallengeArgs : Type 0 where
  pub thought_pda : ℕ
  pub claim : ChallengeClaim
  pub bond : ℕ
  pub evidence_uri_hash : ℕ

-- The instruction's data: discriminator, claim, bond and evidence.
unfoldable pub ix_data : Bytes → ChallengeArgs → Bytes
ix_data discriminator args =
    discriminator
    ++ (claim_u8 args.claim ∷ [])
    ++ le_bytes 8 args.bond
    ++ le_bytes 32 args.evidence_uri_hash

pub data FileDecision : Type 0 where
  no_fraud : FileDecision
  leave : ℕ → FileDecision
  ev_negative : (expected_payout bond tx_fee : ℕ) → FileDecision
  filing_disabled : FileDecision
  file : ChallengeArgs → FileDecision

pub record Filer : Type 0 where
  pub bond_strategy : BondStrategy
  pub max_stake_at_risk_lamports : ℕ
  pub tx_fee_lamports : ℕ
  pub in_flight_bond : ℕ

-- `ChallengeFiler::new`
unfoldable pub new : BondStrategy → ℕ → Filer
new strategy cap = record {
  bond_strategy = strategy;
  max_stake_at_risk_lamports = cap;
  tx_fee_lamports = default_tx_fee_lamports;
  in_flight_bond = 0;
}

-- `fetch_sub` and `fetch_add` on an `AtomicU64` wrap.
unfoldable pub release_bond : ℕ → Filer → Filer
release_bond lamports f = record f {
  in_flight_bond = (f.in_flight_bond + 2 ^ 64 - lamports) % 2 ^ 64;
}

unfoldable pub reserve_bond : ℕ → Filer → Filer
reserve_bond lamports f = record f { in_flight_bond = (f.in_flight_bond + lamports) % 2 ^ 64 }

abbrev pub bond_for : BondStrategy → ℕ → ℕ
bond_for disabled policy_bond_min = policy_bond_min
bond_for conservative policy_bond_min = policy_bond_min
bond_for aggressive policy_bond_min = saturating_mul 64 policy_bond_min 2

-- `((agent_stake_lamports as u128 * 6) / 10) as u64`
abbrev pub payout : ℕ → ℕ
payout agent_stake_lamports = truncate 64 (agent_stake_lamports * 6 / 10)

module _ (blake3 : Bytes → ℕ) where
  -- The rest of `decide`, on a mismatch.
  unfoldable pub weigh : Filer → ChallengeClaim → Bytes → ℕ → ℕ → ℕ → FileDecision
  weigh f claim evidence_uri agent_stake_lamports thought_pda policy_bond_min =
      let bond = bond_for f.bond_strategy policy_bond_min in
      let expected_payout = payout agent_stake_lamports in
      let cost = saturating_add 64 bond f.tx_fee_lamports in
      if leb expected_payout cost
      then ev_negative expected_payout bond f.tx_fee_lamports
      else if ltb f.max_stake_at_risk_lamports (saturating_add 64 bond f.in_flight_bond)
      then ev_negative expected_payout bond f.tx_fee_lamports
      else file (record {
        thought_pda = thought_pda;
        claim = claim;
        bond = bond;
        evidence_uri_hash = blake3 evidence_uri;
      })

  abbrev judge : Filer → VerifyOutcome → ℕ → ℕ → ℕ → FileDecision
  judge f matched stake pda bond_min = no_fraud
  judge f (inconclusive reason) stake pda bond_min = leave reason
  judge f (mismatch claim uri) stake pda bond_min = weigh f claim uri stake pda bond_min

  abbrev unless_disabled : BondStrategy → FileDecision → FileDecision
  unless_disabled disabled d = filing_disabled
  unless_disabled conservative d = d
  unless_disabled aggressive d = d

  unfoldable pub decide : Filer → VerifyOutcome → ℕ → ℕ → ℕ → FileDecision
  unfolding weigh
  decide f outcome stake pda bond_min =
      unless_disabled f.bond_strategy (judge f outcome stake pda bond_min)

  -- The submitter returns a signature, or an error of the RPC.
  module _ (submit : ChallengeArgs → Option ℕ) where
    abbrev pub settle : Filer → ChallengeArgs → Option ℕ → Filer × Option (Option ℕ)
    settle f args none = (f, none)
    settle f args (some signature) = (reserve_bond args.bond f, some (some signature))

    abbrev pub dispatch : Filer → FileDecision → Filer × Option (Option ℕ)
    dispatch f (file args) = settle f args (submit args)
    dispatch f (ev_negative p b t) = (f, some none)
    dispatch f filing_disabled = (f, some none)
    dispatch f (leave reason) = (f, some none)
    dispatch f no_fraud = (f, some none)

    -- `none` is the error `Err(..)`, `some none` is `Ok(None)`.
    unfoldable pub decide_and_file : Filer → VerifyOutcome → ℕ → ℕ → ℕ → Filer × Option (Option ℕ)
    unfolding decide reserve_bond
    decide_and_file f outcome stake pda bond_min = dispatch f (decide f outcome stake pda bond_min)
