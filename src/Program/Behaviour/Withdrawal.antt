-- ===== src/Program/Behaviour/Withdrawal.antt =====
-- When a withdrawal is refused, and when it succeeds.
use proof_of_thought.Prelude.{ℕ, ◌-◌, ◌≤◌, ◌≡◌, ◌≢◌, ◌⊎◌, inl, inr, some, arith}
use proof_of_thought.Prelude.Dict.{lookup, insert, total-ge}
use proof_of_thought.Program.Error.{ok, err, pot, cooldown_active, >>=-eq-ok, Result-cases}
use proof_of_thought.Program.State.{AgentProfile, agent_profile, ThoughtRecord, thought_record}
use proof_of_thought.Program.Runtime.{Runtime, RuntimeLaws, Ledger, Lamports, agent_seeds}
use proof_of_thought.Program.Addresses.{vault}
use proof_of_thought.Program.Execute.{World, Reach}
use proof_of_thought.Program.Agent.{AgentContext, own_agent, withdraw_stake}
use proof_of_thought.Program.Invariant.Counts.{in_flight}
use proof_of_thought.Program.Invariant.Reachable.{genesis}
use proof_of_thought.Program.Invariant.Reached.{Reach-Inv}

own_agent_found :
    (r : Runtime) (ctx : AgentContext) (s : Ledger) (a : AgentProfile)
    → own_agent r ctx s ≡ ok a
    → lookup ctx.agent s.accounts ≡ some (agent_profile a)
unfolding own_agent
own_agent_found r ctx s a h = ground arith

own_agent_error :
    (r : Runtime) (ctx : AgentContext) (s : Ledger) → own_agent r ctx s ≢ err (pot cooldown_active)
unfolding own_agent
own_agent_error r ctx s h = ground arith

module _ (r : Runtime) (laws : RuntimeLaws r) (l : Lamports) (n : ℕ) (w : World)
    (h : Reach r (genesis l n) w) where
  -- Under the platform's laws, on every chain that the program reaches from one without its
  -- accounts, no withdrawal from an agent succeeds while the ledger holds a thought of this agent
  -- that is Pending or Challenged.
  pub withdraw_blocked :
      (ctx : AgentContext) (amount k : ℕ) (t : ThoughtRecord) (s' : Ledger)
      → lookup k w.ledger.accounts ≡ some (thought_record t)
      → t.agent ≡ ctx.agent
      → (t.status ≡ 0) ⊎ (t.status ≡ 1)
      → withdraw_stake r ctx w.slot amount w.ledger ≢ ok s'
  unfolding withdraw_stake
  withdraw_blocked ctx amount k t s' f owner live e =
      let (a, own, rest) = >>=-eq-ok (own_agent r ctx w.ledger) _ e in
      ground (
        arith,
        own_agent_found r ctx w.ledger a own,
        (Reach-Inv r laws h).active ctx.agent,
        total-ge (in_flight ctx.agent) k (thought_record t) w.ledger.accounts f,
      )

  -- Under the platform's laws, on every chain that the program reaches from one without its
  -- accounts, no withdrawal is refused with the error CooldownActive.
  pub withdraw_never_cools :
      (ctx : AgentContext) (amount : ℕ)
      → withdraw_stake r ctx w.slot amount w.ledger ≢ err (pot cooldown_active)
  unfolding withdraw_stake
  withdraw_never_cools ctx amount e = elim (Result-cases (own_agent r ctx w.ledger)) [
    | inl (a, own) ↦
        let found = own_agent_found r ctx w.ledger a own in
        let gate = (Reach-Inv r laws h).ungated ctx.agent (agent_profile a) found in
        ground (
          arith,
          laws.transfer_fails ctx.stake_vault ctx.operator amount w.ledger.lamports cooldown_active,
        )
    | inr (x, refused) ↦ ground (arith, own_agent_error r ctx w.ledger)
  ]

  -- Under the platform's laws, on every chain that the program reaches from one without its
  -- accounts, for an agent that the ledger holds without an active thought, a withdrawal by its
  -- operator of at most its stake, from its vault, to which the runtime's transfer agrees,
  -- succeeds: the stake falls by the amount and the lamports are those after the transfer.
  pub withdraw_idle :
      (ctx : AgentContext) (amount : ℕ) (a : AgentProfile) (paid : Lamports)
      → lookup ctx.agent w.ledger.accounts ≡ some (agent_profile a)
      → ctx.operator ≡ a.operator
      → ctx.stake_vault ≡ vault r ctx.agent
      → a.active_thoughts ≡ 0
      → amount ≤ a.stake_amount
      → r.transfer ctx.stake_vault ctx.operator amount w.ledger.lamports ≡ ok paid
      → withdraw_stake r ctx w.slot amount w.ledger
        ≡ ok (record (w.ledger) {
          accounts =
              insert ctx.agent
                (agent_profile (record a { stake_amount = a.stake_amount - amount }))
                w.ledger.accounts;
          lamports = paid;
        })
  unfolding withdraw_stake own_agent
  withdraw_idle ctx amount a paid f op at_vault idle fits moved =
      let (at, bump) = (Reach-Inv r laws h).placed ctx.agent (agent_profile a) f in
      let cool = (Reach-Inv r laws h).ungated ctx.agent (agent_profile a) f in
      let covered = (Reach-Inv r laws h).stakes ctx.agent a f in
      ground (arith, laws.find_creates (agent_seeds a.operator))
