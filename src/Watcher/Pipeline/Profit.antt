-- ===== src/Watcher/Pipeline/Profit.antt =====
-- What a filing earns: the filer's estimate against the program's payout (watcher/src/challenge.rs,
-- programs/pot_program/src/instructions/resolve.rs).
use proof_of_thought.Prelude.{ℕ, ◌+◌, ◌-◌, ◌^◌, ◌≤◌, ◌<◌, ◌≡◌, ◌≢◌, true, arith}
use proof_of_thought.Program.Error.{ok}
use proof_of_thought.Program.State.{AgentProfile, Policy, ThoughtRecord}
use proof_of_thought.Program.Runtime.{Runtime, RuntimeLaws, Ledger, Lamports, IsSigner}
use proof_of_thought.Program.Dispute.{ChallengeContext, open_challenge}
use proof_of_thought.Program.Resolve.{ChallengedContext, resolve_challenged}
use proof_of_thought.Program.Execute.{World, Reach}
use proof_of_thought.Program.Invariant.Reachable.{genesis}
use proof_of_thought.Program.Behaviour.Opening.{after_challenge}
use proof_of_thought.Program.Behaviour.Judgement.{PaysFrom}
use proof_of_thought.Program.Behaviour.Slashing.{IsContest, challenge_slashes}
use proof_of_thought.Watcher.Types.{Bytes, VerifyOutcome}
use proof_of_thought.Watcher.Filer.{
  Filer, BondStrategy, conservative, aggressive, disabled, ChallengeArgs, file, decide, bond_for,
}
use proof_of_thought.Watcher.Filer.Decision.{decide_files_exact}

-- No strategy bids below the policy's least bond.
bond_min-le-bond_for :
    (strategy : BondStrategy) (bond_min : ℕ)
    → bond_min < 2 ^ 64
    → bond_min ≤ bond_for strategy bond_min
bond_min-le-bond_for disabled bond_min h = omega arith
bond_min-le-bond_for conservative bond_min h = omega arith
bond_min-le-bond_for aggressive bond_min h = ground arith

module _ (r : Runtime) (laws : RuntimeLaws r) (l : Lamports) (n : ℕ) (w : World)
    (h : Reach r (genesis l n) w) (blake3 : Bytes → ℕ) (f : Filer) where
  -- Under the platform's laws, on every chain that the program reaches from one without its
  -- accounts, with a cap below 2 ^ 64 - 1, a stake and a least bond below 2 ^ 64: if the filer,
  -- given the agent's stake and the policy's least bond, decides to file, the thought is Pending
  -- before its deadline, the challenger signs and can pay, the accounts are those that the agent and
  -- the policy name, the runtime refuses no transfer from the two vaults but for too few lamports,
  -- and the treasury is neither vault nor the challenger, then the program accepts the challenge
  -- filed and after it a guilty verdict, and the challenger ends with more than it had after paying
  -- for the dispute's account, its bond and the filer's fee together.
  pub filing_earns :
      (outcome : VerifyOutcome) (args : ChallengeArgs) (by : ChallengeContext)
      (ctx : ChallengedContext) (t : ThoughtRecord) (a : AgentProfile) (p : Policy)
      (funded paid : Lamports)
      → f.max_stake_at_risk_lamports < 2 ^ 64 - 1
      → a.stake_amount < 2 ^ 64
      → p.bond_min < 2 ^ 64
      → decide blake3 f outcome a.stake_amount by.thought p.bond_min ≡ file args
      → IsContest r w by ctx args.bond t a p funded paid
      → IsSigner r by.challenger
      → PaysFrom r ctx.stake_vault
      → PaysFrom r ctx.bond_vault
      → ctx.treasury ≢ ctx.stake_vault
      → ctx.treasury ≢ ctx.bond_vault
      → ctx.challenger ≢ ctx.treasury
      → (s s' : Ledger) × (open_challenge r by w.slot args.claim args.bond args.evidence_uri_hash
            w.ledger
          ≡ ok s)
        × (resolve_challenged r ctx true s ≡ ok s')
        × (funded by.challenger + args.bond + f.tx_fee_lamports < s'.lamports by.challenger)
  filing_earns outcome args by ctx t a p funded paid h₁ h₂ h₃ decided contest signs stakes bonds n₁
        n₂ n₃ =
      let (_, _, _, sound) =
        (decide_files_exact blake3 f a.stake_amount by.thought p.bond_min outcome args h₂ h₁).0
          decided in
      let enough = bond_min-le-bond_for f.bond_strategy p.bond_min h₃ in
      let (s', opened, judged, _, _, _, won) =
        challenge_slashes r laws l n w h by ctx args.claim args.bond args.evidence_uri_hash t a p
          funded paid contest (omega (arith, enough, sound.bond)) signs stakes bonds h₂ n₁ n₂ n₃ in
      (
        after_challenge r by w.slot args.claim args.bond args.evidence_uri_hash t paid w.ledger,
        s',
        opened,
        judged,
        omega (arith, won, sound.pays),
      )
