-- ===== src/Program/Refine/Thoughts.antt =====
-- Submission and consumption of a thought, refined.
use proof_of_thought.Prelude.{
  ℕ, ◌≡◌, ◌≤◌, ◌⊎◌, ◌+◌, sym, refl, List, arith, some, true, false, inl, inr,
}
use proof_of_thought.Prelude.Word.{checked_add}
use proof_of_thought.Prelude.Dict.{lookup}
use proof_of_thought.Program.Error.{ok, ok_or, overflow, >>=-eq-ok, Result-cases}
use proof_of_thought.Program.State.{
  Pubkey, ThoughtRecordArgs, agent_profile, vrf_request, thought_record, AgentProfile, Policy,
  VrfRequest, ThoughtRecord, ModelRegistry, model_registry, policy,
}
use proof_of_thought.Program.Runtime.{
  Runtime, RuntimeLaws, Ledger, vrf_seeds, thought_seeds, IsSigner, init, as_model,
}
use proof_of_thought.Program.Submit.{
  SubmitContext, SubmitAccounts, submit_accounts, check_submission, submit_thought, new_thought,
  is_allowed,
}
use proof_of_thought.Program.Consume.{
  ConsumeContext, ConsumeAccounts, consume_accounts, check_consumption, consume_thought,
}
use proof_of_thought.Program.Effect.{Effect, submitted, used}
use proof_of_thought.Program.Refine.Base.{init_lem, init_keeps}

module _ (r : Runtime) (laws : RuntimeLaws r) (slot : ℕ) where
  model_loaded :
      (ctx : SubmitContext) (args : ThoughtRecordArgs) (s : Ledger) (x : SubmitAccounts)
      → submit_accounts r ctx args s ≡ ok x
      → (m : ModelRegistry) × (lookup ctx.model s.accounts ≡ some (model_registry m))
  unfolding submit_accounts
  model_loaded ctx args s x h = elim (Result-cases (as_model (lookup ctx.model s.accounts))) [
    | inl (m, loaded) ↦ (m, ground arith)
    | inr (e, refused) ↦ absurd (ground arith)
  ]

  pub submit_accounts_lem :
      (ctx : SubmitContext) (args : ThoughtRecordArgs) (s : Ledger) (x : SubmitAccounts)
      → submit_accounts r ctx args s ≡ ok x
      → (lookup ctx.agent s.accounts ≡ some (agent_profile x.agent))
        × (lookup ctx.vrf_request s.accounts ≡ some (vrf_request x.vrf))
        × (r.create_program_address (vrf_seeds ctx.agent args.vrf_nonce_idx) x.vrf.bump
            ≡ some ctx.vrf_request)
        × (x.vrf.agent ≡ ctx.agent)
        × (init r ctx.operator ctx.thought 302 (thought_seeds ctx.agent args.vrf_nonce_idx) s
            ≡ ok x.funded)
        × (m : ModelRegistry) × (lookup ctx.model s.accounts ≡ some (model_registry m))
        × (m.model_id ≡ args.model_id)
        × (lookup ctx.policy s.accounts ≡ some (policy x.policy))
        × (x.policy.policy_id ≡ args.policy_id)
  unfolding submit_accounts
  submit_accounts_lem ctx args s x h =
      let (m, registered) = model_loaded ctx args s x h in
      (
        ground arith,
        ground arith,
        ground arith,
        ground arith,
        ground arith,
        m,
        registered,
        ground arith,
        ground arith,
        ground arith,
      )

  check_submission_lem :
      (a : AgentProfile) (p : Policy) (v : VrfRequest) (args : ThoughtRecordArgs)
      → check_submission a p v slot args ≡ ok tt
      → (v.consumed ≡ false)
        × (v.seed ≡ args.vrf_seed)
        × (is_allowed p.allowed_models args.model_id ≡ true)
  unfolding check_submission
  check_submission_lem a p v args h = ground arith

  pub submit-Effect :
      (ctx : SubmitContext) (args : ThoughtRecordArgs) (uri : List ℕ) (s s' : Ledger)
      → IsSigner r ctx.operator
      → submit_thought r ctx slot args uri s ≡ ok s'
      → Effect r slot s s'
  unfolding submit_thought
  submit-Effect ctx args uri s s' sig h =
      let seeds = thought_seeds ctx.agent args.vrf_nonce_idx in
      let (x, loaded, rest₁) = >>=-eq-ok (submit_accounts r ctx args s) _ h in
      let (
        agent_at, vrf_at, vrf_placed, vrf_of, made, m, model_at, same_model, policy_at, same_policy,
      ) =
        submit_accounts_lem ctx args s x loaded in
      let (_, checked, rest₂) =
        >>=-eq-ok (check_submission x.agent x.policy x.vrf slot args) _ rest₁ in
      let (deadline, sum, rest₃) =
        >>=-eq-ok (ok_or (checked_add 64 slot x.policy.challenge_window_slots) overflow) _ rest₂ in
      let (fresh, seeded, allowed) = check_submission_lem x.agent x.policy x.vrf args checked in
      let (at_seeds, free, cost) =
        init_lem r laws ctx.operator ctx.thought 302 seeds s x.funded made in
      let keeps = init_keeps r laws ctx.operator ctx.thought 302 seeds s x.funded sig made in
      submitted ctx.agent ctx.vrf_request ctx.thought x.agent x.vrf
        (new_thought r ctx slot args deadline) agent_at vrf_at free (at_seeds, refl) refl vrf_placed
        vrf_of fresh (sym seeded) refl refl refl (ground arith) refl
        (record {
          model_key = ctx.model;
          policy_key = ctx.policy;
          model = m;
          terms = x.policy;
          model_at = model_at;
          policy_at = policy_at;
          same_model = same_model;
          same_policy = same_policy;
          allowed = allowed;
          deadline = ground arith;
        })
        (ground arith) (λ j. ground (arith, keeps j))

  check_consumption_lem :
      (t : ThoughtRecord) (p : Policy) (action : Pubkey) (n : ℕ)
      → check_consumption t p action slot ≡ ok n
      → ((t.status ≡ 2) ⊎ (t.attestation_verified ≡ true))
        × (t.slot ≤ slot)
        × (n ≡ t.consumed_count + 1)
  unfolding check_consumption
  check_consumption_lem t p action n h = ground arith

  consume_accounts_lem :
      (ctx : ConsumeContext) (s : Ledger) (x : ConsumeAccounts)
      → consume_accounts r ctx s ≡ ok x
      → lookup ctx.thought s.accounts ≡ some (thought_record x.thought)
  unfolding consume_accounts
  consume_accounts_lem ctx s x h = ground arith

  pub consume-Effect :
      (ctx : ConsumeContext) (s s' : Ledger)
      → consume_thought r ctx slot s ≡ ok s'
      → Effect r slot s s'
  unfolding consume_thought
  consume-Effect ctx s s' h =
      let (x, loaded, rest) = >>=-eq-ok (consume_accounts r ctx s) _ h in
      let (n, checked, done) =
        >>=-eq-ok (check_consumption x.thought x.policy ctx.action slot) _ rest in
      let (ready, past, count) = check_consumption_lem x.thought x.policy ctx.action n checked in
      used ctx.thought x.thought (consume_accounts_lem ctx s x loaded) ready past (ground arith)
        (λ j. ground arith)
