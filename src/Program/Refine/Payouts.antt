-- ===== src/Program/Refine/Payouts.antt =====
-- The chains of transfers of a verdict: whom they can debit, and by how much.
use proof_of_thought.Prelude.{ℕ, ◌+◌, ◌≡◌, ◌≢◌, ◌≤◌, arith}
use proof_of_thought.Prelude.Word.{checked_sub}
use proof_of_thought.Program.Error.{ok, ok_or, overflow, >>=-eq-ok}
use proof_of_thought.Program.State.{Pubkey}
use proof_of_thought.Program.Runtime.{Runtime, RuntimeLaws, Lamports}
use proof_of_thought.Program.Resolve.{
  ChallengedContext, pay_guilty, pay_innocent, share, transfer_signed,
}
use proof_of_thought.Program.Refine.Base.{transfer-ge}

module _ (r : Runtime) (laws : RuntimeLaws r) where
  pub transfer_signed-ge :
      (f t : Pubkey) (n : ℕ) (l l' : Lamports) (k : Pubkey)
      → transfer_signed r f t n l ≡ ok l'
      → k ≢ f
      → l k ≤ l' k
  unfolding transfer_signed
  transfer_signed-ge f t n l l' k h ne = ground (arith, transfer-ge r laws f t n l l' k)

  -- What a source loses is at most the amount.
  pub transfer_signed_source :
      (f t : Pubkey) (n : ℕ) (l l' : Lamports) → transfer_signed r f t n l ≡ ok l' → l f ≤ l' f + n
  unfolding transfer_signed
  transfer_signed_source f t n l l' h = ground (arith, laws.transferred f t n l l' f)

  module _ (ctx : ChallengedContext) where
    pub pay_guilty-ge :
        (stake bond : ℕ) (l l' : Lamports) (k : Pubkey)
        → pay_guilty r ctx stake bond l ≡ ok l'
        → k ≢ ctx.stake_vault
        → k ≢ ctx.bond_vault
        → l k ≤ l' k
    unfolding pay_guilty
    pay_guilty-ge stake bond l l' k h ne₁ ne₂ =
        let (left, _, rest₁) =
          >>=-eq-ok (ok_or (checked_sub stake (share stake 60)) overflow) _ h in
        let (_, _, rest₂) =
          >>=-eq-ok (ok_or (checked_sub left (share stake 10)) overflow) _ rest₁ in
        let (l₁, paid₁, rest₃) =
          >>=-eq-ok (transfer_signed r ctx.stake_vault ctx.challenger (share stake 60) l) _ rest₂ in
        let (l₂, paid₂, paid₃) =
          >>=-eq-ok (transfer_signed r ctx.stake_vault ctx.treasury (share stake 10) l₁) _ rest₃ in
        omega (
          arith,
          transfer_signed-ge ctx.stake_vault ctx.challenger (share stake 60) l l₁ k paid₁ ne₁,
          transfer_signed-ge ctx.stake_vault ctx.treasury (share stake 10) l₁ l₂ k paid₂ ne₁,
          transfer_signed-ge ctx.bond_vault ctx.challenger bond l₂ l' k paid₃ ne₂,
        )

    pub pay_guilty_vault :
        (stake bond : ℕ) (l l' : Lamports)
        → pay_guilty r ctx stake bond l ≡ ok l'
        → ctx.stake_vault ≢ ctx.bond_vault
        → l ctx.stake_vault ≤ l' ctx.stake_vault + (share stake 60 + share stake 10)
    unfolding pay_guilty
    pay_guilty_vault stake bond l l' h ne =
        let (left, _, rest₁) =
          >>=-eq-ok (ok_or (checked_sub stake (share stake 60)) overflow) _ h in
        let (_, _, rest₂) =
          >>=-eq-ok (ok_or (checked_sub left (share stake 10)) overflow) _ rest₁ in
        let (l₁, paid₁, rest₃) =
          >>=-eq-ok (transfer_signed r ctx.stake_vault ctx.challenger (share stake 60) l) _ rest₂ in
        let (l₂, paid₂, paid₃) =
          >>=-eq-ok (transfer_signed r ctx.stake_vault ctx.treasury (share stake 10) l₁) _ rest₃ in
        omega (
          arith,
          transfer_signed_source ctx.stake_vault ctx.challenger (share stake 60) l l₁ paid₁,
          transfer_signed_source ctx.stake_vault ctx.treasury (share stake 10) l₁ l₂ paid₂,
          transfer_signed-ge ctx.bond_vault ctx.challenger bond l₂ l' ctx.stake_vault paid₃ ne,
        )

    pub pay_innocent-ge :
        (bond : ℕ) (l l' : Lamports) (k : Pubkey)
        → pay_innocent r ctx bond l ≡ ok l'
        → k ≢ ctx.bond_vault
        → l k ≤ l' k
    unfolding pay_innocent
    pay_innocent-ge bond l l' k h ne =
        let (rest, _, rest₁) = >>=-eq-ok (ok_or (checked_sub bond (share bond 90)) overflow) _ h in
        let (l₁, paid₁, paid₂) =
          >>=-eq-ok (transfer_signed r ctx.bond_vault ctx.agent_operator (share bond 90) l) _
            rest₁ in
        omega (
          arith,
          transfer_signed-ge ctx.bond_vault ctx.agent_operator (share bond 90) l l₁ k paid₁ ne,
          transfer_signed-ge ctx.bond_vault ctx.treasury rest l₁ l' k paid₂ ne,
        )
