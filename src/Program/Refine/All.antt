-- ===== src/Program/Refine/All.antt =====
-- The dispatcher against the specification.
use proof_of_thought.Prelude.{ℕ, ◌≡◌}
use proof_of_thought.Program.Error.{ok}
use proof_of_thought.Program.Runtime.{Runtime, RuntimeLaws, Ledger, IsSigner}
use proof_of_thought.Program.Execute.{
  Instruction, register_agent, register_model, register_policy, request_vrf, submit_thought,
  consume_thought, open_challenge, resolve_unchallenged, resolve_challenged, stake, withdraw_stake,
  signer, execute,
}
use proof_of_thought.Program.Effect.{Effect}
use proof_of_thought.Program.Refine.Agents.{stake-Effect, withdraw-Effect, register-Effect}
use proof_of_thought.Program.Refine.Registry.{
  register_model-Effect, register_policy-Effect, request_vrf-Effect,
}
use proof_of_thought.Program.Refine.Thoughts.{submit-Effect, consume-Effect}
use proof_of_thought.Program.Refine.Disputes.{open-Effect, unchallenged-Effect, challenged-Effect}

module _ (r : Runtime) (laws : RuntimeLaws r) (slot : ℕ) where
  -- Under the platform's laws, an instruction that an external signer runs with success at a slot
  -- has one of the effects of the specification at that slot.
  pub execute-Effect :
      (i : Instruction) (s s' : Ledger)
      → IsSigner r (signer i)
      → execute r slot i s ≡ ok s'
      → Effect r slot s s'
  unfolding execute
  execute-Effect (register_agent ctx n) s s' sig h = register-Effect r laws slot ctx n s s' sig h
  execute-Effect (register_model ctx id class verifier ca) s s' sig h =
      register_model-Effect r laws slot ctx id class verifier ca s s' sig h
  execute-Effect (register_policy ctx args) s s' sig h =
      register_policy-Effect r laws slot ctx args s s' sig h
  execute-Effect (request_vrf ctx nonce seed) s s' sig h =
      request_vrf-Effect r laws slot ctx nonce seed s s' sig h
  execute-Effect (submit_thought ctx args uri) s s' sig h =
      submit-Effect r laws slot ctx args uri s s' sig h
  execute-Effect (consume_thought ctx) s s' sig h = consume-Effect r laws slot ctx s s' h
  execute-Effect (open_challenge ctx claim bond evidence) s s' sig h =
      open-Effect r laws slot ctx claim bond evidence s s' sig h
  execute-Effect (resolve_unchallenged ctx) s s' sig h = unchallenged-Effect r laws slot ctx s s' h
  execute-Effect (resolve_challenged ctx verdict) s s' sig h =
      challenged-Effect r laws slot ctx verdict s s' h
  execute-Effect (stake ctx n) s s' sig h = stake-Effect r laws slot ctx n s s' sig h
  execute-Effect (withdraw_stake ctx n) s s' sig h = withdraw-Effect r laws slot ctx n s s' sig h
