-- ===== src/Program/Behaviour/Consumption.antt =====
-- The gate of a downstream action.
use proof_of_thought.Prelude.{ℕ, ◌+◌, ◌^◌, ◌≤◌, ◌<◌, ◌≡◌, ◌++◌, [], ◌∷◌}
use proof_of_thought.Prelude.Dict.{insert}
use proof_of_thought.Program.State.{Pubkey, Policy, ThoughtRecord, thought_record}
use proof_of_thought.Program.Runtime.{Runtime, Ledger, thought_consumed}
use proof_of_thought.Program.Consume.{ConsumeContext}

-- The gate of a thought under a policy, for an action at a slot.
pub record IsUsable (t : ThoughtRecord) (p : Policy) (action : Pubkey) (slot : ℕ) : Type 0 where
  pub finalized : t.status ≡ 2
  pub action_matches : t.action_pda ≡ action
  pub policy_matches : p.policy_id ≡ t.policy_id
  pub past : t.slot ≤ slot
  pub fresh : slot ≤ t.slot + p.max_action_age_slots
  pub countable : t.consumed_count + 1 < 2 ^ 32

-- The ledger after a use.
abbrev pub after_use : ConsumeContext → ThoughtRecord → Ledger → Ledger
after_use ctx t s = record s {
  accounts =
      insert ctx.thought (thought_record (record t { consumed_count = t.consumed_count + 1 }))
        s.accounts;
  events =
      s.events
      ++ thought_consumed ctx.thought t.action_pda ctx.consumer (t.consumed_count + 1) ∷ [];
}
