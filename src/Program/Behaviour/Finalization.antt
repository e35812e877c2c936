-- ===== src/Program/Behaviour/Finalization.antt =====
-- The finalization of a thought that went unchallenged.
use proof_of_thought.Prelude.{ℕ, ◌-◌, ◌≤◌, ◌≡◌, ◌++◌, [], ◌∷◌, none, some, Option, refl, arith, ◌<◌}
use proof_of_thought.Prelude.Int.{saturating_add_i64}
use proof_of_thought.Prelude.Dict.{lookup, insert, total-ge}
use proof_of_thought.Program.Error.{ok}
use proof_of_thought.Program.State.{
  Account, AgentProfile, agent_profile, ThoughtRecord, thought_record,
}
use proof_of_thought.Program.Runtime.{
  Runtime, RuntimeLaws, Ledger, Lamports, agent_seeds, thought_seeds, thought_finalized,
}
use proof_of_thought.Program.Execute.{World, Reach}
use proof_of_thought.Program.Resolve.{
  UnchallengedContext, unchallenged_accounts, resolve_unchallenged,
}
use proof_of_thought.Program.Invariant.Counts.{in_flight, active_of}
use proof_of_thought.Program.Invariant.Reachable.{genesis}
use proof_of_thought.Program.Invariant.Reached.{Reach-Inv}

-- The ledger after a finalization.
abbrev pub after_finalization :
    UnchallengedContext → ℕ → ThoughtRecord → AgentProfile → Ledger → Ledger
after_finalization ctx slot t a s = record s {
  accounts =
      insert ctx.agent
        (agent_profile (record a {
          active_thoughts = a.active_thoughts - 1;
          reputation = saturating_add_i64 a.reputation 1;
        }))
        (insert ctx.thought (thought_record (record t { status = 2 })) s.accounts);
  events = s.events ++ thought_finalized ctx.thought ctx.agent 2 slot ∷ [];
}

active_agent :
    (o : Option Account)
    → 0 < active_of o
    → (a : AgentProfile) × (o ≡ some (agent_profile a)) × (0 < a.active_thoughts)
active_agent none h = absurd (omega arith)
active_agent (some (agent_profile a)) h = (a, refl, h)
active_agent (some x) h = absurd (omega arith)

module _ (r : Runtime) (laws : RuntimeLaws r) (l : Lamports) (n : ℕ) (w : World)
    (h : Reach r (genesis l n) w) where
  -- Under the platform's laws, on every chain that the program reaches from one without its
  -- accounts, if the ledger holds a Pending thought whose deadline is the current slot or an
  -- earlier one, and the context names that thought and its agent, then the agent is on the chain
  -- with an active thought and the finalization succeeds: the thought is Finalized, the agent has
  -- one active thought less and one point of reputation more (at most the greatest 64-bit integer),
  -- and one event is emitted.
  pub finalize_unchallenged :
      (ctx : UnchallengedContext) (t : ThoughtRecord)
      → lookup ctx.thought w.ledger.accounts ≡ some (thought_record t)
      → ctx.agent ≡ t.agent
      → t.status ≡ 0
      → t.challenge_deadline_slot ≤ w.slot
      → (a : AgentProfile) × (lookup ctx.agent w.ledger.accounts ≡ some (agent_profile a))
        × (0 < a.active_thoughts)
        × (resolve_unchallenged r ctx w.slot w.ledger
            ≡ ok (after_finalization ctx w.slot t a w.ledger))
  unfolding resolve_unchallenged unchallenged_accounts
  finalize_unchallenged ctx t f owner pending late =
      let s = w.ledger in
      let (at, bump) = (Reach-Inv r laws h).placed ctx.thought (thought_record t) f in
      let counted = total-ge (in_flight ctx.agent) ctx.thought (thought_record t) s.accounts f in
      let (a, g, busy) =
        active_agent (lookup ctx.agent s.accounts)
          (ground (arith, (Reach-Inv r laws h).active ctx.agent, counted)) in
      let (agent_at, agent_bump) = (Reach-Inv r laws h).placed ctx.agent (agent_profile a) g in
      (
        a,
        g,
        busy,
        ground (
          arith,
          laws.find_creates (thought_seeds t.agent t.vrf_nonce_idx),
          laws.find_creates (agent_seeds a.operator),
        ),
      )
