-- ===== src/Program/Refine/Disputes.antt =====
-- Opening of a dispute and both resolutions, refined.
use proof_of_thought.Prelude.{ℕ, ◌≡◌, ◌≢◌, refl, Bool, true, arith, some, false}
use proof_of_thought.Prelude.Dict.{lookup}
use proof_of_thought.Program.Error.{ok, >>=-eq-ok}
use proof_of_thought.Program.State.{
  Hash, ChallengeClaim, agent_profile, thought_record, challenge, Challenge, ThoughtRecord,
}
use proof_of_thought.Program.Runtime.{
  Runtime, RuntimeLaws, Ledger, challenge_seeds, bond_seeds, IsSigner, init,
}
use proof_of_thought.Program.Addresses.{
  address, vault, bond_vault, vault-ne-bond_vault, signer-ne-address,
}
use proof_of_thought.Program.Dispute.{
  ChallengeContext, OpenAccounts, open_accounts, open_challenge, new_challenge,
}
use proof_of_thought.Program.Resolve.{
  UnchallengedContext, UnchallengedAccounts, unchallenged_accounts, ChallengedContext,
  ChallengedAccounts, resolve_unchallenged, challenged_accounts, check_verdict, resolve_challenged,
  pay_guilty, pay_innocent,
}
use proof_of_thought.Prelude.Int.{saturating_add_i64}
use proof_of_thought.Program.Refine.Payouts.{pay_guilty-ge, pay_guilty_vault, pay_innocent-ge}
use proof_of_thought.Program.Effect.{Effect, opened, unchallenged, judged}
use proof_of_thought.Program.Refine.Base.{init_lem, init_keeps, transfer-ge, transfer-credits}

module _ (r : Runtime) (laws : RuntimeLaws r) (slot : ℕ) where
  pub open_accounts_lem :
      (ctx : ChallengeContext) (s : Ledger) (x : OpenAccounts)
      → open_accounts r ctx s ≡ ok x
      → (lookup ctx.thought s.accounts ≡ some (thought_record x.thought))
        × (init r ctx.challenger ctx.challenge 124 (challenge_seeds ctx.thought ctx.challenger) s
            ≡ ok x.funded)
        × (bond_vault r ctx.challenge ≡ ctx.bond_vault)
  unfolding open_accounts
  open_accounts_lem ctx s x h = ground arith

  pub open-Effect :
      (ctx : ChallengeContext) (claim : ChallengeClaim) (bond : ℕ) (evidence : Hash) (s s' : Ledger)
      → IsSigner r ctx.challenger
      → open_challenge r ctx slot claim bond evidence s ≡ ok s'
      → Effect r slot s s'
  unfolding open_challenge
  open-Effect ctx claim bond evidence s s' sig h =
      let seeds = challenge_seeds ctx.thought ctx.challenger in
      let (x, loaded, rest) = >>=-eq-ok (open_accounts r ctx s) _ h in
      let (thought_at, made, at_vault) = open_accounts_lem ctx s x loaded in
      let (at_seeds, free, cost) =
        init_lem r laws ctx.challenger ctx.challenge 124 seeds s x.funded made in
      let keeps = init_keeps r laws ctx.challenger ctx.challenge 124 seeds s x.funded sig made in
      let paid : r.transfer ctx.challenger ctx.bond_vault bond x.funded ≡ ok s'.lamports =
        ground arith in
      opened ctx.thought ctx.challenge x.thought (new_challenge r ctx slot claim bond evidence)
        thought_at free (at_seeds, refl) refl refl (ground arith) (ground arith) (claim, refl)
        (ground arith)
        (λ j. ground (
          arith,
          keeps j,
          signer-ne-address r laws ctx.challenger j sig,
          transfer-ge r laws ctx.challenger ctx.bond_vault bond x.funded s'.lamports (address r j)
              paid,
        ))
        (ground (
          arith,
          keeps (bond_seeds ctx.challenge),
          signer-ne-address r laws ctx.challenger (bond_seeds ctx.challenge) sig,
          transfer-credits r laws ctx.challenger ctx.bond_vault bond x.funded s'.lamports paid,
        ))

  unchallenged_accounts_lem :
      (ctx : UnchallengedContext) (s : Ledger) (x : UnchallengedAccounts)
      → unchallenged_accounts r ctx s ≡ ok x
      → (lookup ctx.thought s.accounts ≡ some (thought_record x.thought))
        × (lookup ctx.agent s.accounts ≡ some (agent_profile x.agent))
        × (x.thought.agent ≡ ctx.agent)
  unfolding unchallenged_accounts
  unchallenged_accounts_lem ctx s x h = ground arith

  pub unchallenged-Effect :
      (ctx : UnchallengedContext) (s s' : Ledger)
      → resolve_unchallenged r ctx slot s ≡ ok s'
      → Effect r slot s s'
  unfolding resolve_unchallenged
  unchallenged-Effect ctx s s' h =
      let (x, loaded, rest) = >>=-eq-ok (unchallenged_accounts r ctx s) _ h in
      let (thought_at, agent_at, owner) = unchallenged_accounts_lem ctx s x loaded in
      unchallenged ctx.thought ctx.agent x.thought x.agent (saturating_add_i64 x.agent.reputation 1)
        thought_at agent_at owner (ground arith) (ground arith) (ground arith) (λ j. ground arith)

  pub challenged_accounts_lem :
      (ctx : ChallengedContext) (s : Ledger) (x : ChallengedAccounts)
      → challenged_accounts r ctx s ≡ ok x
      → (lookup ctx.thought s.accounts ≡ some (thought_record x.thought))
        × (lookup ctx.agent s.accounts ≡ some (agent_profile x.agent))
        × (lookup ctx.challenge s.accounts ≡ some (challenge x.challenge))
        × (x.thought.agent ≡ ctx.agent)
        × (x.challenge.thought ≡ ctx.thought)
        × (vault r ctx.agent ≡ ctx.stake_vault)
        × (bond_vault r ctx.challenge ≡ ctx.bond_vault)
  unfolding challenged_accounts
  challenged_accounts_lem ctx s x h = ground arith

  pub check_verdict_lem :
      (ctx : ChallengedContext) (t : ThoughtRecord) (c : Challenge)
      → check_verdict ctx t c ≡ ok tt
      → (t.status ≡ 1)
        × (c.resolved ≡ false)
        × (ctx.challenger ≢ ctx.stake_vault)
        × (ctx.challenger ≢ ctx.bond_vault)
  unfolding check_verdict
  check_verdict_lem ctx t c h = ground arith

  pub challenged-Effect :
      (ctx : ChallengedContext) (verdict : Bool) (s s' : Ledger)
      → resolve_challenged r ctx verdict s ≡ ok s'
      → Effect r slot s s'
  unfolding resolve_challenged
  challenged-Effect ctx true s s' h =
      let (x, loaded, rest₁) = >>=-eq-ok (challenged_accounts r ctx s) _ h in
      let (thought_at, agent_at, challenge_at, owner, subject, at_vault, at_bond) =
        challenged_accounts_lem ctx s x loaded in
      let (_, checked, rest₂) = >>=-eq-ok (check_verdict ctx x.thought x.challenge) _ rest₁ in
      let (disputed, open_still, ne_vault, ne_bond) =
        check_verdict_lem ctx x.thought x.challenge checked in
      let paid : pay_guilty r ctx x.agent.stake_amount x.challenge.bond s.lamports
          ≡ ok s'.lamports =
        ground arith in
      judged ctx.thought ctx.agent ctx.challenge x.thought x.agent x.challenge true thought_at
        agent_at challenge_at owner subject disputed open_still (ground arith)
        (λ j ne₁ ne₂.
          pay_guilty-ge r laws ctx x.agent.stake_amount x.challenge.bond s.lamports s'.lamports
            (address r j) paid (ground arith) (ground arith))
        (ground (
          arith,
          vault-ne-bond_vault r laws ctx.agent ctx.challenge,
          pay_guilty_vault r laws ctx x.agent.stake_amount x.challenge.bond s.lamports s'.lamports
              paid,
        ))
  challenged-Effect ctx false s s' h =
      let (x, loaded, rest₁) = >>=-eq-ok (challenged_accounts r ctx s) _ h in
      let (thought_at, agent_at, challenge_at, owner, subject, at_vault, at_bond) =
        challenged_accounts_lem ctx s x loaded in
      let (_, checked, rest₂) = >>=-eq-ok (check_verdict ctx x.thought x.challenge) _ rest₁ in
      let (disputed, open_still, ne_vault, ne_bond) =
        check_verdict_lem ctx x.thought x.challenge checked in
      let paid : pay_innocent r ctx x.challenge.bond s.lamports ≡ ok s'.lamports = ground arith in
      judged ctx.thought ctx.agent ctx.challenge x.thought x.agent x.challenge false thought_at
        agent_at challenge_at owner subject disputed open_still (ground arith)
        (λ j ne₁ ne₂.
          pay_innocent-ge r laws ctx x.challenge.bond s.lamports s'.lamports (address r j) paid
            (ground arith))
        (ground (
          arith,
          vault-ne-bond_vault r laws ctx.agent ctx.challenge,
          pay_innocent-ge r laws ctx x.challenge.bond s.lamports s'.lamports (vault r ctx.agent)
              paid,
        ))
