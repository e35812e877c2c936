-- ===== src/Program/Behaviour/Opening.antt =====
-- The challenge of a thought that is Pending (programs/pot_program/src/instructions/challenge.rs).
use proof_of_thought.Prelude.{
  ℕ, ◌≤◌, ◌<◌, ◌≡◌, ◌++◌, [], ◌∷◌, none, some, Option-cases, inl, inr, arith,
}
use proof_of_thought.Prelude.Dict.{lookup, insert}
use proof_of_thought.Program.Error.{ok}
use proof_of_thought.Program.State.{
  Hash, Account, Policy, policy, ThoughtRecord, thought_record, ChallengeClaim, claim_u8, Challenge,
  challenge,
}
use proof_of_thought.Program.Runtime.{
  Runtime, RuntimeLaws, Ledger, Lamports, policy_seeds, thought_seeds, challenge_seeds,
  challenge_opened, init,
}
use proof_of_thought.Program.Addresses.{address, bond_vault, address_injective}
use proof_of_thought.Program.Execute.{World, Reach}
use proof_of_thought.Program.Dispute.{
  ChallengeContext, open_accounts, open_challenge, new_challenge,
}
use proof_of_thought.Program.Effect.{seeds_of}
use proof_of_thought.Program.Invariant.Reachable.{genesis}
use proof_of_thought.Program.Invariant.Reached.{Inv, Reach-Inv}

-- The ledger after a challenge.
abbrev pub after_challenge :
    Runtime
    → ChallengeContext
    → ℕ
    → ChallengeClaim
    → ℕ
    → Hash
    → ThoughtRecord
    → Lamports
    → Ledger
    → Ledger
after_challenge r ctx slot claim bond evidence t paid s = record {
  accounts =
      insert ctx.challenge (challenge (new_challenge r ctx slot claim bond evidence))
        (insert ctx.thought (thought_record (record t { status = 1 })) s.accounts);
  lamports = paid;
  events =
      s.events
      ++ challenge_opened ctx.challenge ctx.thought ctx.challenger (claim_u8 claim) bond ∷ [];
}

-- An account at a dispute's address is a dispute of that thought.
dispute_at :
    (x : Account) (thought challenger : ℕ)
    → seeds_of x ≡ challenge_seeds thought challenger
    → (c : Challenge) × (x ≡ challenge c) × (c.thought ≡ thought)
dispute_at (challenge c) thought challenger e = (c, ground arith, ground arith)
dispute_at x thought challenger e = absurd (ground arith)

module _ (r : Runtime) (laws : RuntimeLaws r) where
  -- No dispute's address of a Pending thought is taken.
  dispute_free :
      (s : Ledger) (k thought challenger : ℕ) (t : ThoughtRecord)
      → Inv r s
      → lookup thought s.accounts ≡ some (thought_record t)
      → t.status ≡ 0
      → k ≡ address r (challenge_seeds thought challenger)
      → lookup k s.accounts ≡ none
  dispute_free s k thought challenger t inv f pending at =
      elim (Option-cases (lookup k s.accounts)) [
        | inl free ↦ free
        | inr (x, taken) ↦
            let (stands, _) = inv.placed k x taken in
            let same =
              address_injective r laws (seeds_of x) (challenge_seeds thought challenger) (cc) in
            let (c, is, subject) = dispute_at x thought challenger same in
            absurd (ground (arith, inv.settled k c))
      ]

  module _ (l : Lamports) (n : ℕ) (w : World) (h : Reach r (genesis l n) w) where
    -- Under the platform's laws, on every chain that the program reaches from one without its
    -- accounts, for a Pending thought before its deadline that the ledger holds with its policy, a
    -- challenge with at least the policy's least bond, whose context names the addresses of the
    -- dispute and of its vault, and to whose payments for the account and of the bond the runtime
    -- agrees, succeeds: no dispute is at its address, the thought is Challenged, the dispute is
    -- recorded with the claim, bond and evidence given, and one event is emitted.
    pub challenge_pending :
        (ctx : ChallengeContext) (claim : ChallengeClaim) (bond : ℕ) (evidence : Hash)
        (t : ThoughtRecord) (p : Policy) (funded paid : Lamports)
        → lookup ctx.thought w.ledger.accounts ≡ some (thought_record t)
        → lookup ctx.policy w.ledger.accounts ≡ some (policy p)
        → p.policy_id ≡ t.policy_id
        → t.status ≡ 0
        → w.slot < t.challenge_deadline_slot
        → p.bond_min ≤ bond
        → ctx.challenge ≡ address r (challenge_seeds ctx.thought ctx.challenger)
        → ctx.bond_vault ≡ bond_vault r ctx.challenge
        → r.create_account ctx.challenger ctx.challenge 124 w.ledger.lamports ≡ ok funded
        → r.transfer ctx.challenger ctx.bond_vault bond funded ≡ ok paid
        → (lookup ctx.challenge w.ledger.accounts ≡ none)
          × (open_challenge r ctx w.slot claim bond evidence w.ledger
              ≡ ok (after_challenge r ctx w.slot claim bond evidence t paid w.ledger))
    challenge_pending ctx claim bond evidence t p funded paid f g same pending early enough at vault
          made moved =
        let inv = Reach-Inv r laws h in
        let free =
          dispute_free w.ledger ctx.challenge ctx.thought ctx.challenger t inv f pending at in
        let (thought_at, bump) = inv.placed ctx.thought (thought_record t) f in
        let (policy_at, policy_bump) = inv.placed ctx.policy (policy p) g in
        let loaded : open_accounts r ctx w.ledger
            ≡ ok (record { thought = t; policy = p; funded = funded }) =
          unfold open_accounts init in
          ground (
            arith,
            laws.find_creates (thought_seeds t.agent t.vrf_nonce_idx),
            laws.find_creates (policy_seeds p.policy_id),
          ) in
        (free, unfold open_challenge in ground arith)
