-- ===== src/Program/Behaviour/Verdict.antt =====
-- The lamports that a verdict moves.
use proof_of_thought.Prelude.{
  ℕ, ◌+◌, ◌-◌, ◌*◌, ◌/◌, ◌^◌, ◌≤◌, ◌<◌, ◌≡◌, ◌≢◌, true, false, some, arith, ap,
}
use proof_of_thought.Prelude.Word.{checked_sub}
use proof_of_thought.Prelude.Dict.{lookup}
use proof_of_thought.Program.Error.{ok, ok_or, overflow, >>=-eq-ok}
use proof_of_thought.Program.State.{Pubkey, AgentProfile, agent_profile, Challenge, challenge}
use proof_of_thought.Program.Runtime.{Runtime, RuntimeLaws, Ledger, Lamports, moved}
use proof_of_thought.Program.Addresses.{vault-ne-bond_vault}
use proof_of_thought.Program.Resolve.{
  ChallengedContext, challenged_accounts, check_verdict, resolve_challenged, pay_guilty,
  pay_innocent, share, transfer_signed,
}
use proof_of_thought.Program.Refine.Disputes.{challenged_accounts_lem, check_verdict_lem}

-- The cast back to 64 bits loses nothing.
shares_exact :
    (x : ℕ)
    → x < 2 ^ 64
    → (share x 60 ≡ x * 60 / 100) × (share x 10 ≡ x * 10 / 100) × (share x 90 ≡ x * 90 / 100)
unfolding share
shares_exact x h = omega arith

module _ (r : Runtime) (laws : RuntimeLaws r) where
  transfer_signed-moved :
      (f t : Pubkey) (n : ℕ) (l l' : Lamports) (k : Pubkey)
      → transfer_signed r f t n l ≡ ok l'
      → l' k ≡ moved f t n l k
  unfolding transfer_signed
  transfer_signed-moved f t n l l' k h = ground (arith, laws.transferred f t n l l' k)

  transfer_signed_covered :
      (f t : Pubkey) (n : ℕ) (l l' : Lamports) → transfer_signed r f t n l ≡ ok l' → n ≤ l f
  unfolding transfer_signed
  transfer_signed_covered f t n l l' h = ground (arith, laws.transferred f t n l l' f)

  -- The balances after the payouts of a guilty verdict, at any address.
  pay_guilty_lem :
      (ctx : ChallengedContext) (stake bond : ℕ) (l l' : Lamports)
      → pay_guilty r ctx stake bond l ≡ ok l'
      → ctx.stake_vault ≢ ctx.bond_vault
      → ctx.challenger ≢ ctx.stake_vault
      → ctx.challenger ≢ ctx.bond_vault
      → ctx.treasury ≢ ctx.stake_vault
      → ctx.treasury ≢ ctx.bond_vault
      → ctx.challenger ≢ ctx.treasury
      → (l' ctx.challenger ≡ l ctx.challenger + share stake 60 + bond)
        × (l' ctx.treasury ≡ l ctx.treasury + share stake 10)
        × (l' ctx.stake_vault + share stake 60 + share stake 10 ≡ l ctx.stake_vault)
        × (l' ctx.bond_vault + bond ≡ l ctx.bond_vault)
  unfolding pay_guilty
  pay_guilty_lem ctx stake bond l l' h n₁ n₂ n₃ n₄ n₅ n₆ =
      let (left, _, rest₁) = >>=-eq-ok (ok_or (checked_sub stake (share stake 60)) overflow) _ h in
      let (_, _, rest₂) = >>=-eq-ok (ok_or (checked_sub left (share stake 10)) overflow) _ rest₁ in
      let (l₁, paid₁, rest₃) =
        >>=-eq-ok (transfer_signed r ctx.stake_vault ctx.challenger (share stake 60) l) _ rest₂ in
      let (l₂, paid₂, paid₃) =
        >>=-eq-ok (transfer_signed r ctx.stake_vault ctx.treasury (share stake 10) l₁) _ rest₃ in
      let first = λ (k : Pubkey).
        transfer_signed-moved ctx.stake_vault ctx.challenger (share stake 60) l l₁ k paid₁ in
      let second = λ (k : Pubkey).
        transfer_signed-moved ctx.stake_vault ctx.treasury (share stake 10) l₁ l₂ k paid₂ in
      let third =
        λ (k : Pubkey). transfer_signed-moved ctx.bond_vault ctx.challenger bond l₂ l' k paid₃ in
      let c₁ = transfer_signed_covered ctx.stake_vault ctx.challenger (share stake 60) l l₁ paid₁ in
      let c₂ = transfer_signed_covered ctx.stake_vault ctx.treasury (share stake 10) l₁ l₂ paid₂ in
      let c₃ = transfer_signed_covered ctx.bond_vault ctx.challenger bond l₂ l' paid₃ in
      (
        ground (arith, first ctx.challenger, second ctx.challenger, third ctx.challenger),
        ground (arith, first ctx.treasury, second ctx.treasury, third ctx.treasury),
        ground (arith, first ctx.stake_vault, second ctx.stake_vault, third ctx.stake_vault),
        ground (arith, first ctx.bond_vault, second ctx.bond_vault, third ctx.bond_vault),
      )

  -- The balances after the payouts of an innocent verdict.
  pay_innocent_lem :
      (ctx : ChallengedContext) (bond : ℕ) (l l' : Lamports)
      → pay_innocent r ctx bond l ≡ ok l'
      → ctx.agent_operator ≢ ctx.bond_vault
      → ctx.treasury ≢ ctx.bond_vault
      → ctx.agent_operator ≢ ctx.treasury
      → (l' ctx.agent_operator ≡ l ctx.agent_operator + share bond 90)
        × (l' ctx.treasury ≡ l ctx.treasury + (bond - share bond 90))
        × (l' ctx.bond_vault + bond ≡ l ctx.bond_vault)
  unfolding pay_innocent
  pay_innocent_lem ctx bond l l' h n₁ n₂ n₃ =
      let (tax, taxed, rest₁) = >>=-eq-ok (ok_or (checked_sub bond (share bond 90)) overflow) _ h in
      let (l₁, paid₁, paid₂) =
        >>=-eq-ok (transfer_signed r ctx.bond_vault ctx.agent_operator (share bond 90) l) _ rest₁ in
      let first = λ (k : Pubkey).
        transfer_signed-moved ctx.bond_vault ctx.agent_operator (share bond 90) l l₁ k paid₁ in
      let second =
        λ (k : Pubkey). transfer_signed-moved ctx.bond_vault ctx.treasury tax l₁ l' k paid₂ in
      let c₁ =
        transfer_signed_covered ctx.bond_vault ctx.agent_operator (share bond 90) l l₁ paid₁ in
      let c₂ = transfer_signed_covered ctx.bond_vault ctx.treasury tax l₁ l' paid₂ in
      (
        ground (arith, first ctx.agent_operator, second ctx.agent_operator),
        ground (arith, first ctx.treasury, second ctx.treasury),
        ground (arith, first ctx.bond_vault, second ctx.bond_vault),
      )

  -- Under the platform's laws, a guilty verdict that succeeds on an agent and a dispute that the
  -- ledger holds, with a stake below 2 ^ 64 and the treasury apart from the challenger and from
  -- both vaults, pays the challenger 60% of the stake (rounded down) and the bond, and the treasury
  -- 10% (rounded down); the stake's vault loses just these two parts, the bond's vault the bond.
  pub guilty_verdict_pays :
      (ctx : ChallengedContext) (a : AgentProfile) (c : Challenge) (s s' : Ledger)
      → lookup ctx.agent s.accounts ≡ some (agent_profile a)
      → lookup ctx.challenge s.accounts ≡ some (challenge c)
      → a.stake_amount < 2 ^ 64
      → ctx.treasury ≢ ctx.stake_vault
      → ctx.treasury ≢ ctx.bond_vault
      → ctx.challenger ≢ ctx.treasury
      → resolve_challenged r ctx true s ≡ ok s'
      → (s'.lamports ctx.challenger
          ≡ s.lamports ctx.challenger + a.stake_amount * 60 / 100 + c.bond)
        × (s'.lamports ctx.treasury ≡ s.lamports ctx.treasury + a.stake_amount * 10 / 100)
        × (s'.lamports ctx.stake_vault + a.stake_amount * 60 / 100 + a.stake_amount * 10 / 100
            ≡ s.lamports ctx.stake_vault)
        × (s'.lamports ctx.bond_vault + c.bond ≡ s.lamports ctx.bond_vault)
  unfolding resolve_challenged
  guilty_verdict_pays ctx a c s s' f g small n₁ n₂ n₃ h =
      let (x, loaded, rest₁) = >>=-eq-ok (challenged_accounts r ctx s) _ h in
      let (_, agent_at, challenge_at, _, _, at_vault, at_bond) =
        challenged_accounts_lem r laws 0 ctx s x loaded in
      let (_, checked, rest₂) = >>=-eq-ok (check_verdict ctx x.thought x.challenge) _ rest₁ in
      let (_, _, m₁, m₂) = check_verdict_lem r laws 0 ctx x.thought x.challenge checked in
      let paid : pay_guilty r ctx x.agent.stake_amount x.challenge.bond s.lamports
          ≡ ok s'.lamports =
        ground arith in
      let apart : ctx.stake_vault ≢ ctx.bond_vault =
        λ e. vault-ne-bond_vault r laws ctx.agent ctx.challenge (cc) in
      let same : x.agent.stake_amount ≡ a.stake_amount = ground arith in
      let same_bond : x.challenge.bond ≡ c.bond = ground arith in
      omega (
        arith,
        shares_exact a.stake_amount small,
        ap (λ n. share n 60) same,
        ap (λ n. share n 10) same,
        pay_guilty_lem ctx x.agent.stake_amount x.challenge.bond s.lamports s'.lamports paid apart
            m₁ m₂ n₁ n₂ n₃,
      )

  -- Under the platform's laws, an innocent verdict that succeeds on a dispute that the ledger
  -- holds, with a bond below 2 ^ 64, the operator and the treasury apart from each other and from
  -- the bond's vault, pays the operator 90% of the bond (rounded down) and the treasury the rest,
  -- and the bond's vault loses just the bond.
  pub innocent_verdict_pays :
      (ctx : ChallengedContext) (c : Challenge) (s s' : Ledger)
      → lookup ctx.challenge s.accounts ≡ some (challenge c)
      → c.bond < 2 ^ 64
      → ctx.agent_operator ≢ ctx.bond_vault
      → ctx.treasury ≢ ctx.bond_vault
      → ctx.agent_operator ≢ ctx.treasury
      → resolve_challenged r ctx false s ≡ ok s'
      → (s'.lamports ctx.agent_operator ≡ s.lamports ctx.agent_operator + c.bond * 90 / 100)
        × (s'.lamports ctx.treasury ≡ s.lamports ctx.treasury + (c.bond - c.bond * 90 / 100))
        × (s'.lamports ctx.bond_vault + c.bond ≡ s.lamports ctx.bond_vault)
  unfolding resolve_challenged
  innocent_verdict_pays ctx c s s' g small n₁ n₂ n₃ h =
      let (x, loaded, rest₁) = >>=-eq-ok (challenged_accounts r ctx s) _ h in
      let (_, _, challenge_at, _, _, _, _) = challenged_accounts_lem r laws 0 ctx s x loaded in
      let (_, checked, rest₂) = >>=-eq-ok (check_verdict ctx x.thought x.challenge) _ rest₁ in
      let paid : pay_innocent r ctx x.challenge.bond s.lamports ≡ ok s'.lamports = ground arith in
      let same_bond : x.challenge.bond ≡ c.bond = ground arith in
      omega (
        arith,
        shares_exact c.bond small,
        ap (λ n. share n 90) same_bond,
        pay_innocent_lem ctx x.challenge.bond s.lamports s'.lamports paid n₁ n₂ n₃,
      )
