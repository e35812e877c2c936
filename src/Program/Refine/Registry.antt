-- ===== src/Program/Refine/Registry.antt =====
-- Registration of models and policies, and randomness requests, refined.
use proof_of_thought.Prelude.{ℕ, ◌≡◌, refl, some, ◌==◌, arith}
use proof_of_thought.Prelude.Dict.{lookup}
use proof_of_thought.Program.Error.{ok, >>=-eq-ok, require, unauthorized}
use proof_of_thought.Program.State.{Pubkey, Hash, ModelClass, agent_profile}
use proof_of_thought.Program.Runtime.{
  Runtime, RuntimeLaws, Ledger, model_seeds, policy_seeds, vrf_seeds, IsSigner, init,
}
use proof_of_thought.Program.Registry.{
  ModelContext, PolicyContext, RegisterPolicyArgs, new_model, new_policy, register_model,
  register_policy,
}
use proof_of_thought.Program.Vrf.{
  VrfContext, RequestAccounts, new_request, request_accounts, request_vrf,
}
use proof_of_thought.Program.Effect.{Effect, published_model, published_policy, requested}
use proof_of_thought.Program.Refine.Base.{init_lem, init_keeps}

module _ (r : Runtime) (laws : RuntimeLaws r) (slot : ℕ) where
  pub register_model-Effect :
      (ctx : ModelContext) (id : Hash) (class : ModelClass) (verifier ca : Pubkey) (s s' : Ledger)
      → IsSigner r ctx.governance
      → register_model r ctx id class verifier ca s ≡ ok s'
      → Effect r slot s s'
  unfolding register_model
  register_model-Effect ctx id class verifier ca s s' sig h =
      let (l, made, rest) =
        >>=-eq-ok (init r ctx.governance ctx.model 138 (model_seeds id) s) _ h in
      let (_, may, done) =
        >>=-eq-ok (require (ctx.governance == r.governance) unauthorized) _ rest in
      let (at_seeds, free, cost) =
        init_lem r laws ctx.governance ctx.model 138 (model_seeds id) s l made in
      let keeps = init_keeps r laws ctx.governance ctx.model 138 (model_seeds id) s l sig made in
      published_model ctx.model (new_model r ctx id class verifier ca) free (at_seeds, refl)
        (class, refl, ground arith) (ground arith) (λ j. ground (arith, keeps j))

  pub register_policy-Effect :
      (ctx : PolicyContext) (args : RegisterPolicyArgs) (s s' : Ledger)
      → IsSigner r ctx.author
      → register_policy r ctx args s ≡ ok s'
      → Effect r slot s s'
  unfolding register_policy
  register_policy-Effect ctx args s s' sig h =
      let seeds = policy_seeds args.policy_id in
      let (l, made, done) = >>=-eq-ok (init r ctx.author ctx.policy 682 seeds s) _ h in
      let (at_seeds, free, cost) = init_lem r laws ctx.author ctx.policy 682 seeds s l made in
      let keeps = init_keeps r laws ctx.author ctx.policy 682 seeds s l sig made in
      published_policy ctx.policy (new_policy r args) free (at_seeds, refl)
        (args.equiv_class, refl, ground arith) (ground arith) (λ j. ground (arith, keeps j))

  request_accounts_lem :
      (ctx : VrfContext) (nonce_idx : ℕ) (s : Ledger) (x : RequestAccounts)
      → request_accounts r ctx nonce_idx s ≡ ok x
      → (lookup ctx.agent s.accounts ≡ some (agent_profile x.agent))
        × (init r ctx.operator ctx.vrf_request 90 (vrf_seeds ctx.agent nonce_idx) s ≡ ok x.funded)
  unfolding request_accounts
  request_accounts_lem ctx nonce_idx s x h = ground arith

  pub request_vrf-Effect :
      (ctx : VrfContext) (nonce_idx : ℕ) (seed : Hash) (s s' : Ledger)
      → IsSigner r ctx.operator
      → request_vrf r ctx slot nonce_idx seed s ≡ ok s'
      → Effect r slot s s'
  unfolding request_vrf
  request_vrf-Effect ctx nonce_idx seed s s' sig h =
      let seeds = vrf_seeds ctx.agent nonce_idx in
      let (x, loaded, rest) = >>=-eq-ok (request_accounts r ctx nonce_idx s) _ h in
      let (agent_at, made) = request_accounts_lem ctx nonce_idx s x loaded in
      let (at_seeds, free, cost) =
        init_lem r laws ctx.operator ctx.vrf_request 90 seeds s x.funded made in
      let keeps = init_keeps r laws ctx.operator ctx.vrf_request 90 seeds s x.funded sig made in
      requested ctx.agent ctx.vrf_request x.agent (new_request r ctx slot nonce_idx seed) agent_at
        free (at_seeds, refl) refl (ground arith) refl refl (ground arith)
        (λ j. ground (arith, keeps j))
