-- ===== src/Program/History/Reached.antt =====
-- What holds between a world and every later one.
use proof_of_thought.Prelude.{ℕ, ◌+◌, ◌≤◌, ◌≡◌, ◌⊎◌, inl, refl, Option, none, some, arith}
use proof_of_thought.Prelude.Dict.{lookup}
use proof_of_thought.Program.State.{
  Pubkey, Account, AgentProfile, agent_profile, ThoughtRecord, thought_record,
}
use proof_of_thought.Program.Runtime.{Runtime, RuntimeLaws, Ledger}
use proof_of_thought.Program.Addresses.{vault}
use proof_of_thought.Program.Execute.{World, Reach}
use proof_of_thought.Program.Effect.{Effect}
use proof_of_thought.Program.Invariant.Reachable.{Reach-keeps}
use proof_of_thought.Program.History.Step.{
  kind_at, Frozen, Effect-kind, Effect-thought, Effect-surplus,
}

is_agent :
    (o : Option Account) → kind_at o ≡ some 0 → (a : AgentProfile) × (o ≡ some (agent_profile a))
is_agent none e = cc
is_agent (some (agent_profile a)) e = (a, refl)
is_agent (some x) e = ground arith

pub is_thought :
    (o : Option Account) → kind_at o ≡ some 4 → (t : ThoughtRecord) × (o ≡ some (thought_record t))
is_thought none e = cc
is_thought (some (thought_record t)) e = (t, refl)
is_thought (some x) e = ground arith

-- How far a status may have gone: any status from Pending, a verdict from Challenged, and none from
-- Finalized or Slashed.
abbrev pub Later : ThoughtRecord → ThoughtRecord → Type 0
Later t t' =
    (t'.status ≡ t.status)
    ⊎ ((t.status ≡ 0) × (t'.status ≤ 3))
    ⊎ ((t.status ≡ 1) × ((t'.status ≡ 2) ⊎ (t'.status ≡ 3)))

module _ (r : Runtime) (laws : RuntimeLaws r) (k : Pubkey) where
  abbrev ThoughtSince : ThoughtRecord → Ledger → Type 0
  ThoughtSince t s =
      (t' : ThoughtRecord) × (lookup k s.accounts ≡ some (thought_record t'))
      × Frozen t t'
      × Later t t'

  Effect-ThoughtSince :
      (t : ThoughtRecord) (slot : ℕ) (s s' : Ledger)
      → Effect r slot s s'
      → ThoughtSince t s
      → ThoughtSince t s'
  Effect-ThoughtSince t slot s s' e (t₁, f, frozen, later) =
      let (t₂, g) = is_thought (lookup k s'.accounts) (Effect-kind r slot s s' k 4 e (rw f)) in
      let (frozen', edge) = Effect-thought r slot s s' k t₁ t₂ e f g in
      (t₂, g, ground arith, ground arith)

  abbrev StakeSince : ℕ → ℕ → Ledger → Type 0
  StakeSince held stake s =
      (a : AgentProfile) × (lookup k s.accounts ≡ some (agent_profile a))
      × (held + a.stake_amount ≤ s.lamports (vault r k) + stake)

  Effect-StakeSince :
      (held stake slot : ℕ) (s s' : Ledger)
      → Effect r slot s s'
      → StakeSince held stake s
      → StakeSince held stake s'
  Effect-StakeSince held stake slot s s' e (a, f, up) =
      let (a', g) = is_agent (lookup k s'.accounts) (Effect-kind r slot s s' k 0 e (rw f)) in
      (a', g, omega (arith, Effect-surplus r laws slot s s' k a a' e f g))

  -- Under the platform's laws, a thought on a chain is there on every later chain, with the agent,
  -- model, commitments, seed, policy, slot, action, deadline and nonce that it had. A Finalized or
  -- Slashed thought keeps its status, and a Challenged one is never Pending again.
  pub thought_persists :
      (v w : World) (t : ThoughtRecord)
      → Reach r v w
      → lookup k v.ledger.accounts ≡ some (thought_record t)
      → (t' : ThoughtRecord) × (lookup k w.ledger.accounts ≡ some (thought_record t'))
        × Frozen t t'
        × Later t t'
  thought_persists v w t h f =
      Reach-keeps r laws (ThoughtSince t) (Effect-ThoughtSince t) h (t, f, ground arith, inl refl)

  -- An agent on the chain is there on every later chain, and the lamports of its vault above its
  -- stake have not become fewer: what a verdict left in the vault is never paid out.
  pub surplus_stays :
      (v w : World) (a : AgentProfile)
      → Reach r v w
      → lookup k v.ledger.accounts ≡ some (agent_profile a)
      → (a' : AgentProfile) × (lookup k w.ledger.accounts ≡ some (agent_profile a'))
        × (v.ledger.lamports (vault r k) + a'.stake_amount
            ≤ w.ledger.lamports (vault r k) + a.stake_amount)
  surplus_stays v w a h f =
      Reach-keeps r laws (StakeSince (v.ledger.lamports (vault r k)) a.stake_amount)
        (Effect-StakeSince (v.ledger.lamports (vault r k)) a.stake_amount) h (a, f, omega arith)
