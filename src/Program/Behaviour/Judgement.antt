-- ===== src/Program/Behaviour/Judgement.antt =====
-- The verdict on a dispute that is open (programs/pot_program/src/instructions/resolve.rs).
use proof_of_thought.Prelude.{
  ℕ, ◌+◌, ◌-◌, ◌≤◌, ◌≡◌, ◌≢◌, ◌++◌, [], ◌∷◌, some, Bool, true, false, if◌then◌else◌, arith,
  Bool-cases, ◌==◌, inl, inr, refl,
}
use proof_of_thought.Prelude.Dict.{lookup, insert}
use proof_of_thought.Program.Error.{ok}
use proof_of_thought.Program.State.{
  Pubkey, AgentProfile, agent_profile, Policy, policy, ThoughtRecord, thought_record, Challenge,
  challenge,
}
use proof_of_thought.Program.Runtime.{
  Runtime, RuntimeLaws, Ledger, Lamports, agent_seeds, policy_seeds, thought_seeds, challenge_seeds,
  challenge_resolved,
}
use proof_of_thought.Program.Addresses.{vault, bond_vault, vault-ne-bond_vault}
use proof_of_thought.Program.Execute.{World, Reach}
use proof_of_thought.Program.Resolve.{
  ChallengedContext, challenged_accounts, check_verdict, resolve_challenged, pay_guilty,
  pay_innocent, share, transfer_signed, judge_agent,
}
use proof_of_thought.Program.Refine.Base.{transfer-ge}
use proof_of_thought.Program.Invariant.Reachable.{genesis}
use proof_of_thought.Program.Invariant.Reached.{Reach-Inv}

-- The ledger after a verdict.
abbrev pub after_verdict :
    ChallengedContext → Bool → ThoughtRecord → AgentProfile → Challenge → Lamports → Ledger → Ledger
after_verdict ctx guilty t a c paid s = record {
  accounts = insert ctx.agent (agent_profile (judge_agent guilty a)) (
      insert ctx.challenge (challenge (record c { resolved = true; verdict = guilty })) (
        insert ctx.thought (thought_record (record t { status = if guilty then 3 else 2 }))
          s.accounts));
  lamports = paid;
  events =
      s.events
      ++ challenge_resolved ctx.challenge ctx.thought guilty (if guilty then a.stake_amount else 0)
        ∷ [];
}

-- The context names the accounts of the dispute: those that its thought and policy name, with their
-- vaults and the wallets that are paid.
pub record IsDocket (r : Runtime) (ctx : ChallengedContext) (t : ThoughtRecord) (a : AgentProfile)
    (p : Policy) (c : Challenge) (s : Ledger) : Type 0 where
  pub thought_at : lookup ctx.thought s.accounts ≡ some (thought_record t)
  pub agent_at : lookup ctx.agent s.accounts ≡ some (agent_profile a)
  pub policy_at : lookup ctx.policy s.accounts ≡ some (policy p)
  pub challenge_at : lookup ctx.challenge s.accounts ≡ some (challenge c)
  pub owner : ctx.agent ≡ t.agent
  pub governing : p.policy_id ≡ t.policy_id
  pub resolver : ctx.resolver ≡ p.resolver
  pub treasury : ctx.treasury ≡ p.treasury
  pub subject : c.thought ≡ ctx.thought
  pub unresolved : c.resolved ≡ false
  pub challenger : c.challenger ≡ ctx.challenger
  pub operator : ctx.agent_operator ≡ a.operator
  pub vault_at : ctx.stake_vault ≡ vault r ctx.agent
  pub bond_at : ctx.bond_vault ≡ bond_vault r ctx.challenge

-- The runtime refuses no transfer from an address for another reason than too few lamports.
abbrev pub PaysFrom : Runtime → Pubkey → Type 0
PaysFrom r from =
    (to : Pubkey) (n : ℕ) (l : Lamports)
    → n ≤ l from
    → (l' : Lamports) × (r.transfer from to n l ≡ ok l')

shares_fit : (x : ℕ) → (share x 60 + share x 10 ≤ x) × (share x 90 ≤ x)
unfolding share
shares_fit x = omega arith

module _ (r : Runtime) (laws : RuntimeLaws r) where
  transfer_signed_pays :
      (f t : Pubkey) (n : ℕ) (l : Lamports)
      → PaysFrom r f
      → n ≤ l f
      → (l' : Lamports) × (transfer_signed r f t n l ≡ ok l')
        × (l f ≤ l' f + n)
        × ((k : Pubkey) → k ≢ f → l k ≤ l' k)
  unfolding transfer_signed
  transfer_signed_pays f t n l pays covered = elim (Bool-cases (n == 0)) [
    | inl nothing ↦ (l, rw nothing refl, omega arith, λ k ne. omega arith)
    | inr something ↦
        let (l', paid) = pays t n l covered in
        (
          l',
          rw something (paid),
          ground (arith, laws.transferred f t n l l' f paid),
          λ k ne. transfer-ge r laws f t n l l' k paid ne,
        )
  ]

  -- Vaults that hold the stake and the bond can pay a guilty verdict.
  pay_guilty_covered :
      (ctx : ChallengedContext) (stake bond : ℕ) (l : Lamports)
      → PaysFrom r ctx.stake_vault
      → PaysFrom r ctx.bond_vault
      → ctx.bond_vault ≢ ctx.stake_vault
      → stake ≤ l ctx.stake_vault
      → bond ≤ l ctx.bond_vault
      → (paid : Lamports) × (pay_guilty r ctx stake bond l ≡ ok paid)
  unfolding pay_guilty
  pay_guilty_covered ctx stake bond l stakes bonds apart has_stake has_bond =
      let (first, second) = shares_fit stake in
      let (l₁, p₁, left, kept₁) =
        transfer_signed_pays ctx.stake_vault ctx.challenger (share stake 60) l stakes
          (omega arith) in
      let (l₂, p₂, _, kept₂) =
        transfer_signed_pays ctx.stake_vault ctx.treasury (share stake 10) l₁ stakes
          (omega arith) in
      let (l₃, p₃, _, _) =
        transfer_signed_pays ctx.bond_vault ctx.challenger bond l₂ bonds
          (omega (arith, kept₁ ctx.bond_vault apart, kept₂ ctx.bond_vault apart)) in
      (l₃, ground arith)

  pay_innocent_covered :
      (ctx : ChallengedContext) (bond : ℕ) (l : Lamports)
      → PaysFrom r ctx.bond_vault
      → bond ≤ l ctx.bond_vault
      → (paid : Lamports) × (pay_innocent r ctx bond l ≡ ok paid)
  unfolding pay_innocent
  pay_innocent_covered ctx bond l bonds has_bond =
      let (_, fits) = shares_fit bond in
      let (l₁, p₁, left, _) =
        transfer_signed_pays ctx.bond_vault ctx.agent_operator (share bond 90) l bonds
          (omega arith) in
      let (l₂, p₂, _, _) =
        transfer_signed_pays ctx.bond_vault ctx.treasury (bond - share bond 90) l₁ bonds
          (omega arith) in
      (l₂, ground arith)

  module _ (l : Lamports) (n : ℕ) (w : World) (h : Reach r (genesis l n) w)
      (ctx : ChallengedContext) (t : ThoughtRecord) (a : AgentProfile) (p : Policy) (c : Challenge)
      (docket : IsDocket r ctx t a p c w.ledger) where
    docket_loads :
        challenged_accounts r ctx w.ledger ≡ ok (record { thought = t; agent = a; challenge = c })
    unfolding challenged_accounts
    docket_loads =
        let inv = Reach-Inv r laws h in
        let (thought_at, thought_bump) =
          inv.placed ctx.thought (thought_record t) docket.thought_at in
        let (agent_at, agent_bump) = inv.placed ctx.agent (agent_profile a) docket.agent_at in
        let (policy_at, policy_bump) = inv.placed ctx.policy (policy p) docket.policy_at in
        let (challenge_at, challenge_bump) =
          inv.placed ctx.challenge (challenge c) docket.challenge_at in
        ground (
          arith,
          laws.find_creates (thought_seeds t.agent t.vrf_nonce_idx),
          laws.find_creates (agent_seeds a.operator),
          laws.find_creates (policy_seeds p.policy_id),
          laws.find_creates (challenge_seeds c.thought c.challenger),
        )

    docket_passes :
        ctx.challenger ≢ ctx.stake_vault
        → ctx.challenger ≢ ctx.bond_vault
        → check_verdict ctx t c ≡ ok tt
    unfolding check_verdict
    docket_passes n₁ n₂ =
        ground (arith, (Reach-Inv r laws h).settled ctx.challenge c docket.challenge_at)

    vaults_hold :
        (a.stake_amount ≤ w.ledger.lamports ctx.stake_vault)
        × (c.bond ≤ w.ledger.lamports ctx.bond_vault)
        × (ctx.bond_vault ≢ ctx.stake_vault)
    vaults_hold =
        let inv = Reach-Inv r laws h in
        (
          ground (arith, inv.stakes ctx.agent a docket.agent_at),
          ground (arith, inv.bonds ctx.challenge c docket.challenge_at docket.unresolved),
          λ e. vault-ne-bond_vault r laws ctx.agent ctx.challenge (ground arith),
        )

    -- Under the platform's laws, on every chain that the program reaches from one without its
    -- accounts, if the context names the accounts of a dispute that is not resolved, the wallet of
    -- its challenger is neither vault, and the runtime refuses no transfer from the two vaults but
    -- for too few lamports, then both verdicts succeed: the vaults can pay, the thought is Slashed
    -- or Finalized, the agent is judged, the dispute keeps the verdict, and one event is emitted.
    pub judge_unresolved :
        (guilty : Bool)
        → ctx.challenger ≢ ctx.stake_vault
        → ctx.challenger ≢ ctx.bond_vault
        → PaysFrom r ctx.stake_vault
        → PaysFrom r ctx.bond_vault
        → (paid : Lamports) × (resolve_challenged r ctx guilty w.ledger
            ≡ ok (after_verdict ctx guilty t a c paid w.ledger))
    unfolding resolve_challenged
    judge_unresolved true n₁ n₂ stakes bonds =
        let (has_stake, has_bond, apart) = vaults_hold in
        let (paid, e) =
          pay_guilty_covered ctx a.stake_amount c.bond w.ledger.lamports stakes bonds apart
            has_stake has_bond in
        (paid, rw (docket_loads, docket_passes n₁ n₂, e) refl)
    judge_unresolved false n₁ n₂ stakes bonds =
        let (_, has_bond, _) = vaults_hold in
        let (paid, e) = pay_innocent_covered ctx c.bond w.ledger.lamports bonds has_bond in
        (paid, rw (docket_loads, docket_passes n₁ n₂, e) refl)
