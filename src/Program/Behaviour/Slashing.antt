-- ===== src/Program/Behaviour/Slashing.antt =====
-- A dispute from its challenge to a guilty verdict (programs/pot_program/src/instructions/challenge.rs,
-- programs/pot_program/src/instructions/resolve.rs).
use proof_of_thought.Prelude.{
  ℕ, ◌+◌, ◌*◌, ◌/◌, ◌^◌, ◌≤◌, ◌<◌, ◌≡◌, ◌≢◌, refl, some, true, arith, Option, ap,
}
use proof_of_thought.Prelude.Dict.{lookup, lookup-insert}
use proof_of_thought.Program.Error.{ok}
use proof_of_thought.Program.State.{
  Hash, AgentProfile, agent_profile, Policy, policy, ThoughtRecord, thought_record, ChallengeClaim,
}
use proof_of_thought.Program.Runtime.{
  Runtime, RuntimeLaws, Ledger, Lamports, challenge_seeds, vault_seeds, bond_seeds, IsSigner,
}
use proof_of_thought.Program.Addresses.{address, vault, bond_vault, signer-ne-address}
use proof_of_thought.Program.Dispute.{ChallengeContext, open_challenge, new_challenge}
use proof_of_thought.Program.Resolve.{ChallengedContext, resolve_challenged, judge_agent}
use proof_of_thought.Program.Refine.Base.{transfer-debits}
use proof_of_thought.Program.Execute
use proof_of_thought.Program.Execute.{World, Reach, run, next, execute}
use proof_of_thought.Program.Invariant.Reachable.{genesis}
use proof_of_thought.Program.Behaviour.Opening.{after_challenge, challenge_pending}
use proof_of_thought.Program.Behaviour.Judgement.{
  IsDocket, PaysFrom, after_verdict, judge_unresolved,
}
use proof_of_thought.Program.Behaviour.Verdict.{guilty_verdict_pays}

-- A Pending thought, its agent and its policy, a challenger who can pay for the challenge, and the
-- accounts that the resolver gives for the verdict on it.
pub record IsContest (r : Runtime) (w : World) (by : ChallengeContext) (ctx : ChallengedContext)
    (bond : ℕ) (t : ThoughtRecord) (a : AgentProfile) (p : Policy) (funded paid : Lamports)
    : Type 0 where
  pub thought_at : lookup by.thought w.ledger.accounts ≡ some (thought_record t)
  pub agent_at : lookup ctx.agent w.ledger.accounts ≡ some (agent_profile a)
  pub policy_at : lookup by.policy w.ledger.accounts ≡ some (policy p)
  pub owner : ctx.agent ≡ t.agent
  pub governing : p.policy_id ≡ t.policy_id
  pub pending : t.status ≡ 0
  pub early : w.slot < t.challenge_deadline_slot
  pub challenge_at : by.challenge ≡ address r (challenge_seeds by.thought by.challenger)
  pub bond_at : by.bond_vault ≡ bond_vault r by.challenge
  pub pays_rent : r.create_account by.challenger by.challenge 124 w.ledger.lamports ≡ ok funded
  pub pays_bond : r.transfer by.challenger by.bond_vault bond funded ≡ ok paid
  pub same_thought : ctx.thought ≡ by.thought
  pub same_policy : ctx.policy ≡ by.policy
  pub same_challenge : ctx.challenge ≡ by.challenge
  pub same_challenger : ctx.challenger ≡ by.challenger
  pub same_bond_vault : ctx.bond_vault ≡ by.bond_vault
  pub vault_at : ctx.stake_vault ≡ vault r ctx.agent
  pub operator : ctx.agent_operator ≡ a.operator
  pub resolver : ctx.resolver ≡ p.resolver
  pub treasury : ctx.treasury ≡ p.treasury

module _ (r : Runtime) (laws : RuntimeLaws r) (l : Lamports) (n : ℕ) (w : World)
    (h : Reach r (genesis l n) w) (by : ChallengeContext) (ctx : ChallengedContext)
    (claim : ChallengeClaim) (bond : ℕ) (evidence : Hash) (t : ThoughtRecord) (a : AgentProfile)
    (p : Policy) (funded paid : Lamports) (c : IsContest r w by ctx bond t a p funded paid) where
  abbrev challenged_ledger : Ledger
  challenged_ledger = after_challenge r by w.slot claim bond evidence t paid w.ledger

  contest-IsDocket :
      lookup by.challenge w.ledger.accounts ≡ Option.none
      → IsDocket r ctx
          (record t { status = 1 })
          a
          p
          (new_challenge r by w.slot claim bond evidence)
          challenged_ledger
  contest-IsDocket free = record {
    thought_at = grind (arith, c.same_thought, c.thought_at, lookup-insert);
    agent_at = grind (arith, c.agent_at, c.thought_at, lookup-insert);
    policy_at = grind (arith, c.same_policy, c.policy_at, c.thought_at, lookup-insert);
    challenge_at = grind (arith, c.same_challenge, lookup-insert);
    owner = c.owner;
    governing = c.governing;
    resolver = c.resolver;
    treasury = c.treasury;
    subject = cc (c.same_thought);
    unresolved = refl;
    challenger = cc (c.same_challenger);
    operator = c.operator;
    vault_at = c.vault_at;
    bond_at = cc (c.same_bond_vault, c.bond_at, c.same_challenge);
  }

  -- Under the platform's laws, on every chain that the program reaches from one without its
  -- accounts: for a Pending thought before its deadline, a bond of at least the policy's least one,
  -- and a challenger who signs and can pay, with the accounts that its agent and its policy name,
  -- where the runtime refuses no transfer from the two vaults but for too few lamports, the stake is
  -- below 2 ^ 64, and the treasury is neither vault nor the challenger, the challenge succeeds and
  -- then the guilty verdict on it. The thought is Slashed, the agent's stake is 0, and the
  -- challenger has 60% of the stake (rounded down) above what it had after it paid for the dispute's
  -- account: the bond is back.
  pub challenge_slashes :
      p.bond_min ≤ bond
      → IsSigner r by.challenger
      → PaysFrom r ctx.stake_vault
      → PaysFrom r ctx.bond_vault
      → a.stake_amount < 2 ^ 64
      → ctx.treasury ≢ ctx.stake_vault
      → ctx.treasury ≢ ctx.bond_vault
      → ctx.challenger ≢ ctx.treasury
      → (s : Ledger) × (open_challenge r by w.slot claim bond evidence w.ledger
          ≡ ok challenged_ledger)
        × (resolve_challenged r ctx true challenged_ledger ≡ ok s)
        × (lookup by.thought s.accounts ≡ some (thought_record (record t { status = 3 })))
        × (lookup ctx.agent s.accounts ≡ some (agent_profile (judge_agent true a)))
        × ((judge_agent true a).stake_amount ≡ 0)
        × (s.lamports by.challenger ≡ funded by.challenger + a.stake_amount * 60 / 100)
  unfolding judge_agent
  challenge_slashes enough signs stakes bonds small n₁ n₂ n₃ =
      let (free, opened) =
        challenge_pending r laws l n w h by claim bond evidence t p funded paid c.thought_at
          c.policy_at c.governing c.pending c.early enough c.challenge_at c.bond_at c.pays_rent
          c.pays_bond in
      let docket = contest-IsDocket free in
      let later = next h (
        run w (Execute.open_challenge by claim bond evidence) challenged_ledger signs
          (unfold execute in opened)) in
      let apart : ctx.challenger ≢ ctx.stake_vault = ground (
        arith,
        signer-ne-address r laws by.challenger (vault_seeds ctx.agent) signs,
        c.same_challenger,
        c.vault_at,
      ) in
      let apart_bond : ctx.challenger ≢ ctx.bond_vault = ground (
        arith,
        signer-ne-address r laws by.challenger (bond_seeds by.challenge) signs,
        c.same_challenger,
        c.same_bond_vault,
        c.bond_at,
      ) in
      let (settled, judged) =
        judge_unresolved r laws l n (record w { ledger = challenged_ledger }) later ctx
          (record t { status = 1 }) a p (new_challenge r by w.slot claim bond evidence) docket true
          apart apart_bond stakes bonds in
      let s =
        after_verdict ctx true (record t { status = 1 }) a
          (new_challenge r by w.slot claim bond evidence) settled challenged_ledger in
      let (won, _, _, _) =
        guilty_verdict_pays r laws ctx a (new_challenge r by w.slot claim bond evidence)
          challenged_ledger s docket.agent_at docket.challenge_at small n₁ n₂ n₃ judged in
      let debit =
        transfer-debits r laws by.challenger by.bond_vault bond funded paid c.pays_bond
          (λ e. apart_bond (cc (c.same_challenger, c.same_bond_vault))) in
      (
        s,
        opened,
        judged,
        grind (
          arith, c.same_thought, c.thought_at, docket.agent_at, docket.challenge_at, lookup-insert,
        ),
        grind (arith, lookup-insert),
        refl,
        omega (arith, debit, won, ap settled c.same_challenger, ap paid c.same_challenger),
      )
