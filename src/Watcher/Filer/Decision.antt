-- ===== src/Watcher/Filer/Decision.antt =====
-- When a challenge is filed, and at what price.
use proof_of_thought.Prelude.{ℕ, ◌+◌, ◌*◌, ◌/◌, ◌-◌, ◌^◌, ◌≤◌, ◌<◌, ◌≡◌, ◌≢◌, ◌↔◌, refl, arith}
use proof_of_thought.Program.State.{ChallengeClaim}
use proof_of_thought.Watcher.Types.{Bytes, VerifyOutcome, matched, mismatch, inconclusive}
use proof_of_thought.Watcher.Filer.{
  Filer, ChallengeArgs, file, disabled, conservative, decide, bond_for,
}

-- A filing in order: it pays, it fits under the cap, and its arguments say what was found.
pub record IsSound (blake3 : Bytes → ℕ) (f : Filer) (claim : ChallengeClaim) (uri : Bytes)
    (stake pda bond_min : ℕ) (args : ChallengeArgs) : Type 0 where
  pub enabled : f.bond_strategy ≢ disabled
  pub pays : args.bond + f.tx_fee_lamports < stake * 6 / 10
  pub capped : args.bond + f.in_flight_bond ≤ f.max_stake_at_risk_lamports
  pub bond : args.bond ≡ bond_for f.bond_strategy bond_min
  pub target : args.thought_pda ≡ pda
  pub claims : args.claim ≡ claim
  pub evidence : args.evidence_uri_hash ≡ blake3 uri

module _ (blake3 : Bytes → ℕ) (f : Filer) (stake pda bond_min : ℕ) where
  IsSound-on_mismatch :
      (claim : ChallengeClaim) (uri : Bytes) (args : ChallengeArgs)
      → stake < 2 ^ 64
      → f.max_stake_at_risk_lamports < 2 ^ 64 - 1
      → decide blake3 f (mismatch claim uri) stake pda bond_min ≡ file args
      → IsSound blake3 f claim uri stake pda bond_min args
  unfolding decide
  IsSound-on_mismatch claim uri args h₁ h₂ e = ground arith

  -- With a stake below 2 ^ 64 and a cap below 2 ^ 64 - 1: if the decision is to file, then the
  -- outcome is a mismatch and the strategy is not Disabled, the bond with the fee is below 60% of
  -- the stake (rounded down), the bond with those in flight is at most the cap, and the arguments
  -- are the strategy's bond, the thought given, the mismatch's claim, and the hash of its evidence.
  pub decide_files-IsSound :
      (outcome : VerifyOutcome) (args : ChallengeArgs)
      → stake < 2 ^ 64
      → f.max_stake_at_risk_lamports < 2 ^ 64 - 1
      → decide blake3 f outcome stake pda bond_min ≡ file args
      → (claim : ChallengeClaim) × (uri : Bytes) × (outcome ≡ mismatch claim uri)
        × IsSound blake3 f claim uri stake pda bond_min args
  decide_files-IsSound (mismatch claim uri) args h₁ h₂ e =
      (claim, uri, refl, IsSound-on_mismatch claim uri args h₁ h₂ e)
  decide_files-IsSound matched args h₁ h₂ e = absurd (unfold decide in ground arith)
  decide_files-IsSound (inconclusive reason) args h₁ h₂ e = absurd (unfold decide in ground arith)

  -- With a stake below 2 ^ 64: on a mismatch, under a strategy that is not Disabled, if the
  -- strategy's bond with the fee is below 60% of the stake (rounded down) and with the bonds in
  -- flight is at most the cap, then the decision is to file, with that bond, the thought given, the
  -- mismatch's claim, and the hash of its evidence.
  pub decide_files_every :
      (claim : ChallengeClaim) (uri : Bytes)
      → f.bond_strategy ≢ disabled
      → stake < 2 ^ 64
      → bond_for f.bond_strategy bond_min + f.tx_fee_lamports < stake * 6 / 10
      → bond_for f.bond_strategy bond_min + f.in_flight_bond ≤ f.max_stake_at_risk_lamports
      → decide blake3 f (mismatch claim uri) stake pda bond_min
        ≡ file (record {
          thought_pda = pda;
          claim = claim;
          bond = bond_for f.bond_strategy bond_min;
          evidence_uri_hash = blake3 uri;
        })
  unfolding decide
  decide_files_every claim uri enabled h₁ pays capped = ground arith

  IsSound-files :
      (claim : ChallengeClaim) (uri : Bytes) (args : ChallengeArgs)
      → stake < 2 ^ 64
      → IsSound blake3 f claim uri stake pda bond_min args
      → decide blake3 f (mismatch claim uri) stake pda bond_min ≡ file args
  IsSound-files claim uri args h₁ sound =
      let filed =
        decide_files_every claim uri sound.enabled h₁ (ground (arith, sound.pays, sound.bond))
          (ground (arith, sound.capped, sound.bond)) in
      ground arith

  -- With a stake below 2 ^ 64 and a cap below 2 ^ 64 - 1, the decision is to file exactly if the
  -- outcome is a mismatch, the strategy is not Disabled, the bond with the fee is below 60% of the
  -- stake (rounded down), the bond with those in flight is at most the cap, and the arguments are
  -- the strategy's bond, the thought given, the mismatch's claim, and the hash of its evidence.
  pub decide_files_exact :
      (outcome : VerifyOutcome) (args : ChallengeArgs)
      → stake < 2 ^ 64
      → f.max_stake_at_risk_lamports < 2 ^ 64 - 1
      → (decide blake3 f outcome stake pda bond_min ≡ file args) ↔ (
          (claim : ChallengeClaim) × (uri : Bytes) × (outcome ≡ mismatch claim uri)
          × IsSound blake3 f claim uri stake pda bond_min args)
  decide_files_exact outcome args h₁ h₂ = (
    decide_files-IsSound outcome args h₁ h₂,
    λ (claim, uri, accused, sound). rw accused (IsSound-files claim uri args h₁ sound),
  )

  -- Under Conservative, on a mismatch with a stake below 2 ^ 64: if 60% of the stake (rounded down)
  -- is above the least bond with the fee but below twice the least bond with the fee, and the least
  -- bond with those in flight is at most the cap, then the decision is to file, for a payout that
  -- is below twice the bond filed with the fee.
  pub conservative_files_below_double :
      (claim : ChallengeClaim) (uri : Bytes)
      → f.bond_strategy ≡ conservative
      → stake < 2 ^ 64
      → bond_min + f.tx_fee_lamports < stake * 6 / 10
      → stake * 6 / 10 < 2 * bond_min + f.tx_fee_lamports
      → bond_min + f.in_flight_bond ≤ f.max_stake_at_risk_lamports
      → (args : ChallengeArgs) × (decide blake3 f (mismatch claim uri) stake pda bond_min
          ≡ file args)
        × (stake * 6 / 10 < 2 * args.bond + f.tx_fee_lamports)
  unfolding decide
  conservative_files_below_double claim uri cautious h₁ pays thin capped = (
    record { thought_pda = pda; claim = claim; bond = bond_min; evidence_uri_hash = blake3 uri },
    ground arith,
    thin,
  )
