-- ===== src/Program/Behaviour/Burn.antt =====
-- What a guilty verdict leaves in the vault.
use proof_of_thought.Prelude.{ℕ, ◌+◌, ◌*◌, ◌/◌, ◌≤◌, ◌≡◌, true, some, arith}
use proof_of_thought.Prelude.Dict.{lookup, lookup-insert}
use proof_of_thought.Program.Error.{ok, >>=-eq-ok}
use proof_of_thought.Program.State.{AgentProfile, agent_profile}
use proof_of_thought.Program.Runtime.{Runtime, RuntimeLaws, Ledger, Lamports}
use proof_of_thought.Program.Addresses.{vault, vault-ne-bond_vault}
use proof_of_thought.Program.Execute.{World, Reach}
use proof_of_thought.Program.Resolve
use proof_of_thought.Program.Resolve.{
  ChallengedContext, challenged_accounts, check_verdict, pay_guilty, share, judge_agent,
}
use proof_of_thought.Program.Refine.Disputes.{challenged_accounts_lem}
use proof_of_thought.Program.Refine.Payouts.{pay_guilty_vault}
use proof_of_thought.Program.Invariant.Reachable.{genesis}
use proof_of_thought.Program.Invariant.Reached.{Reach-Inv}
use proof_of_thought.Program.History.Reached.{surplus_stays}

-- The parts paid out leave 30% or more.
burnt : (x : ℕ) → share x 60 + share x 10 + x * 30 / 100 ≤ x
unfolding share
burnt x = omega arith

module _ (r : Runtime) (laws : RuntimeLaws r) where
  guilty_leaves :
      (ctx : ChallengedContext) (a : AgentProfile) (s s' : Ledger)
      → lookup ctx.agent s.accounts ≡ some (agent_profile a)
      → Resolve.resolve_challenged r ctx true s ≡ ok s'
      → (s.lamports (vault r ctx.agent)
          ≤ s'.lamports (vault r ctx.agent) + (share a.stake_amount 60 + share a.stake_amount 10))
        × (lookup ctx.agent s'.accounts ≡ some (agent_profile (judge_agent true a)))
  unfolding Resolve.resolve_challenged
  guilty_leaves ctx a s s' f h =
      let (x, loaded, rest₁) = >>=-eq-ok (challenged_accounts r ctx s) _ h in
      let (_, agent_at, _, _, _, at_vault, at_bond) =
        challenged_accounts_lem r laws 0 ctx s x loaded in
      let (_, _, rest₂) = >>=-eq-ok (check_verdict ctx x.thought x.challenge) _ rest₁ in
      let paid : pay_guilty r ctx x.agent.stake_amount x.challenge.bond s.lamports
          ≡ ok s'.lamports =
        ground arith in
      let same : x.agent ≡ a = ground arith in
      (
        ground (
          arith,
          vault-ne-bond_vault r laws ctx.agent ctx.challenge,
          pay_guilty_vault r laws ctx x.agent.stake_amount x.challenge.bond s.lamports s'.lamports
              paid,
        ),
        grind (arith, lookup-insert),
      )

  module _ (l : Lamports) (n : ℕ) (w : World) (h : Reach r (genesis l n) w) where
    -- Under the platform's laws, on a chain that the program reaches from one without its accounts,
    -- let a guilty verdict succeed on the agent at `ctx.agent`. On every later chain that agent is
    -- there, and its vault holds 30% of the stake slashed (rounded down) above whatever stake its
    -- profile then records.
    pub burnt_forever :
        (ctx : ChallengedContext) (a : AgentProfile) (s' : Ledger) (v : World)
        → lookup ctx.agent w.ledger.accounts ≡ some (agent_profile a)
        → Resolve.resolve_challenged r ctx true w.ledger ≡ ok s'
        → Reach r (record w { ledger = s' }) v
        → (a' : AgentProfile) × (lookup ctx.agent v.ledger.accounts ≡ some (agent_profile a'))
          × (a'.stake_amount + a.stake_amount * 30 / 100 ≤ v.ledger.lamports (vault r ctx.agent))
    unfolding judge_agent
    burnt_forever ctx a s' v f e later =
        let (left, judged) = guilty_leaves ctx a w.ledger s' f e in
        let (a', found, above) =
          surplus_stays r laws ctx.agent (record w { ledger = s' }) v (judge_agent true a) later
            judged in
        let covered = (Reach-Inv r laws h).stakes ctx.agent a f in
        (a', found, omega (arith, burnt a.stake_amount))
