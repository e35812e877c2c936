-- ===== src/Program/Execute.antt =====
-- The instructions of the program and their dispatch (programs/pot_program/src/lib.rs), and the
-- world they run in: a chain whose slot grows, on which anybody runs instructions.
use proof_of_thought.Prelude.{ℕ, ◌+◌, ◌≤◌, ◌≡◌, Bool, List}
use proof_of_thought.Program.Error.{Result, ok}
use proof_of_thought.Program.State.{Pubkey, Hash, ModelClass, ThoughtRecordArgs, ChallengeClaim}
use proof_of_thought.Program.Runtime.{Runtime, Ledger, Lamports, Seeds, IsSigner}
use proof_of_thought.Program.Addresses.{address}
use proof_of_thought.Program.Agent
use proof_of_thought.Program.Agent.{AgentContext}
use proof_of_thought.Program.Registry
use proof_of_thought.Program.Registry.{ModelContext, PolicyContext, RegisterPolicyArgs}
use proof_of_thought.Program.Vrf
use proof_of_thought.Program.Vrf.{VrfContext}
use proof_of_thought.Program.Submit
use proof_of_thought.Program.Submit.{SubmitContext}
use proof_of_thought.Program.Dispute
use proof_of_thought.Program.Dispute.{ChallengeContext}
use proof_of_thought.Program.Consume
use proof_of_thought.Program.Consume.{ConsumeContext}
use proof_of_thought.Program.Resolve
use proof_of_thought.Program.Resolve.{UnchallengedContext, ChallengedContext}

pub data Instruction : Type 0 where
  register_agent : AgentContext → ℕ → Instruction
  register_model : ModelContext → Hash → ModelClass → Pubkey → Pubkey → Instruction
  register_policy : PolicyContext → RegisterPolicyArgs → Instruction
  request_vrf : VrfContext → ℕ → Hash → Instruction
  submit_thought : SubmitContext → ThoughtRecordArgs → List ℕ → Instruction
  consume_thought : ConsumeContext → Instruction
  open_challenge : ChallengeContext → ChallengeClaim → ℕ → Hash → Instruction
  resolve_unchallenged : UnchallengedContext → Instruction
  resolve_challenged : ChallengedContext → Bool → Instruction
  stake : AgentContext → ℕ → Instruction
  withdraw_stake : AgentContext → ℕ → Instruction

-- The `Signer` of each context.
abbrev pub signer : Instruction → Pubkey
signer (register_agent ctx _) = ctx.operator
signer (register_model ctx _ _ _ _) = ctx.governance
signer (register_policy ctx _) = ctx.author
signer (request_vrf ctx _ _) = ctx.operator
signer (submit_thought ctx _ _) = ctx.operator
signer (consume_thought ctx) = ctx.consumer
signer (open_challenge ctx _ _ _) = ctx.challenger
signer (resolve_unchallenged ctx) = ctx.cranker
signer (resolve_challenged ctx _) = ctx.resolver
signer (stake ctx _) = ctx.operator
signer (withdraw_stake ctx _) = ctx.operator

module _ (r : Runtime) where
  -- `#[program] mod pot_program`: one instruction at a slot.
  unfoldable pub execute : ℕ → Instruction → Ledger → Result Ledger
  execute slot (register_agent ctx amount) s = Agent.register_agent r ctx amount s
  execute slot (register_model ctx model_id class verifier_pubkey tee_root_ca) s =
      Registry.register_model r ctx model_id class verifier_pubkey tee_root_ca s
  execute slot (register_policy ctx args) s = Registry.register_policy r ctx args s
  execute slot (request_vrf ctx nonce_idx seed) s = Vrf.request_vrf r ctx slot nonce_idx seed s
  execute slot (submit_thought ctx args trace_uri) s =
      Submit.submit_thought r ctx slot args trace_uri s
  execute slot (consume_thought ctx) s = Consume.consume_thought r ctx slot s
  execute slot (open_challenge ctx claim bond evidence_uri_hash) s =
      Dispute.open_challenge r ctx slot claim bond evidence_uri_hash s
  execute slot (resolve_unchallenged ctx) s = Resolve.resolve_unchallenged r ctx slot s
  execute slot (resolve_challenged ctx verdict) s = Resolve.resolve_challenged r ctx verdict s
  execute slot (stake ctx amount) s = Agent.stake r ctx amount s
  execute slot (withdraw_stake ctx amount) s = Agent.withdraw_stake r ctx slot amount s

-- The chain as the program sees it.
pub record World : Type 0 where
  pub ledger : Ledger
  pub slot : ℕ

-- An instruction that succeeds, the passing of slots, or lamports that move outside the program:
-- whoever moves them cannot take them from an address that only the program can sign for.
pub data Step (r : Runtime) : World → World → Type 0 where
  run :
      (w : World) (i : Instruction) (s' : Ledger)
      → IsSigner r (signer i)
      → execute r w.slot i w.ledger ≡ ok s'
      → Step r w (record w { ledger = s' })
  tick : (w : World) (n : ℕ) → Step r w (record w { slot = w.slot + n })
  outside :
      (w : World) (l : Lamports)
      → ((j : Seeds) → w.ledger.lamports (address r j) ≤ l (address r j))
      → Step r w (record w { ledger = record (w.ledger) { lamports = l } })

-- The worlds that follow from `w`.
pub data Reach (r : Runtime) (w : World) : World → Type 0 where
  here : Reach r w w
  next : {u v : World} → Reach r w u → Step r u v → Reach r w v
