-- ===== src/Program/Invariant/Reached.antt =====
-- The invariants, for every history from a chain where the program has no account yet.
use proof_of_thought.Prelude.{ℕ, ◌≤◌, ◌≡◌, refl, some, false}
use proof_of_thought.Prelude.Dict.{lookup, total}
use proof_of_thought.Program.State.{
  Pubkey, AgentProfile, agent_profile, ThoughtRecord, thought_record, Challenge, challenge,
}
use proof_of_thought.Program.Runtime.{Runtime, RuntimeLaws, Ledger, Lamports, vrf_seeds}
use proof_of_thought.Program.Addresses.{address, vault, bond_vault}
use proof_of_thought.Program.Execute.{World, Reach}
use proof_of_thought.Program.Effect.{Effect}
use proof_of_thought.Program.Invariant.Reachable.{genesis, Reach-keeps}
use proof_of_thought.Program.Invariant.DeadFields.{AllUngated, Effect-AllUngated}
use proof_of_thought.Program.Invariant.Disputes.{
  DisputesMatch, DisputesAreSingle, status_under, status_of, Effect-DisputesMatch,
  Effect-DisputesAreSingle,
}
use proof_of_thought.Program.Invariant.Placement.{IsPlaced, Effect-IsPlaced}
use proof_of_thought.Program.Invariant.Solvency.{
  StakesAreCovered, BondsAreCovered, Effect-StakesAreCovered, Effect-BondsAreCovered,
}
use proof_of_thought.Program.Invariant.Counts.{
  active_of, in_flight, ActiveIsCounted, disputed_of, open_on, DisputesAreCounted,
  Effect-ActiveIsCounted, Effect-DisputesAreCounted,
}
use proof_of_thought.Program.Invariant.Registration.{AllAdmitted, Effect-AllAdmitted}
use proof_of_thought.Program.Invariant.Randomness.{spent_seed, VrfIsSpent, Effect-VrfIsSpent}

-- A ledger in order.
pub record Inv (r : Runtime) (s : Ledger) : Type 0 where
  pub placed : IsPlaced r s
  pub ungated : AllUngated s
  pub stakes : StakesAreCovered r s
  pub bonds : BondsAreCovered r s
  pub active : ActiveIsCounted s
  pub disputes : DisputesAreCounted s
  pub settled : DisputesMatch s
  pub single : DisputesAreSingle s
  pub spent : VrfIsSpent r s
  pub admitted : AllAdmitted r s

genesis-Inv : (r : Runtime) (l : Lamports) (n : ℕ) → Inv r (genesis l n).ledger
unfolding lookup total
genesis-Inv r l n = record {
  placed = λ k x e. cc;
  ungated = λ k x e. cc;
  stakes = λ k x e. cc;
  bonds = λ k x e. cc;
  active = λ k. refl;
  disputes = λ k. refl;
  settled = λ k x e. cc;
  single = λ j k x y e. cc;
  spent = λ k x e. cc;
  admitted = λ k x e. cc;
}

module _ (r : Runtime) (laws : RuntimeLaws r) where
  Effect-Inv : (slot : ℕ) (s s' : Ledger) → Effect r slot s s' → Inv r s → Inv r s'
  Effect-Inv slot s s' e h = record {
    placed = Effect-IsPlaced r slot s s' e h.placed;
    ungated = Effect-AllUngated r slot s s' e h.ungated;
    stakes = Effect-StakesAreCovered r laws slot s s' e h.stakes;
    bonds = Effect-BondsAreCovered r laws slot s s' e h.bonds;
    active = Effect-ActiveIsCounted r slot s s' e h.active;
    disputes = Effect-DisputesAreCounted r slot s s' e h.disputes;
    settled = Effect-DisputesMatch r slot s s' h.settled h.single e;
    single = Effect-DisputesAreSingle r slot s s' h.settled h.single e;
    spent = Effect-VrfIsSpent r laws slot s s' e h.placed h.spent;
    admitted = Effect-AllAdmitted r slot s s' e h.admitted;
  }

  pub Reach-Inv : {l : Lamports} {n : ℕ} {w : World} → Reach r (genesis l n) w → Inv r w.ledger
  Reach-Inv {l} {n} h = Reach-keeps r laws (Inv r) Effect-Inv h (genesis-Inv r l n)

  module _ (l : Lamports) (n : ℕ) (w : World) (h : Reach r (genesis l n) w) where
    -- Under the platform's laws, on every chain that the program reaches from one without its
    -- accounts, the vault of an agent holds at least the stake that its profile records.
    pub stake_covered :
        (k : Pubkey) (a : AgentProfile)
        → lookup k w.ledger.accounts ≡ some (agent_profile a)
        → a.stake_amount ≤ w.ledger.lamports (vault r k)
    stake_covered = (Reach-Inv h).stakes

    -- Under the platform's laws, on every chain that the program reaches from one without its
    -- accounts, the vault of a dispute that is not resolved holds at least its bond.
    pub bond_covered :
        (k : Pubkey) (c : Challenge)
        → lookup k w.ledger.accounts ≡ some (challenge c)
        → c.resolved ≡ false
        → c.bond ≤ w.ledger.lamports (bond_vault r k)
    bond_covered = (Reach-Inv h).bonds

    -- Under the platform's laws, on every chain that the program reaches from one without its
    -- accounts and for every address k: the field `active_thoughts` of the agent at k (0 where no
    -- agent is) equals the number of thoughts of k that are Pending or Challenged.
    pub active_thoughts_counted :
        (k : Pubkey)
        → active_of (lookup k w.ledger.accounts) ≡ total (in_flight k) w.ledger.accounts
    active_thoughts_counted = (Reach-Inv h).active

    -- Under the platform's laws, on every chain that the program reaches from one without its
    -- accounts and for every address k: the number of unresolved disputes on k is 1 if a Challenged
    -- thought is at k, and 0 otherwise.
    pub one_dispute_each :
        (k : Pubkey)
        → disputed_of (lookup k w.ledger.accounts) ≡ total (open_on k) w.ledger.accounts
    one_dispute_each = (Reach-Inv h).disputes

    -- Under the platform's laws, on every chain that the program reaches from one without its
    -- accounts, two disputes, resolved or not, that name one thought are the same account, and a
    -- dispute names a thought that the ledger holds: Challenged if the dispute is not resolved,
    -- Slashed if it is resolved with a guilty verdict, Finalized if with an innocent one.
    pub status_follows_dispute :
        (j k : Pubkey) (c d : Challenge)
        → lookup j w.ledger.accounts ≡ some (challenge c)
        → lookup k w.ledger.accounts ≡ some (challenge d)
        → c.thought ≡ d.thought
        → (j ≡ k) × (status_of (lookup c.thought w.ledger.accounts) ≡ some (status_under c))
    status_follows_dispute j k c d f g same =
        ((Reach-Inv h).single j k c d f g same, (Reach-Inv h).settled j c f)

    -- Under the platform's laws, on every chain that the program reaches from one without its
    -- accounts, two thoughts of one agent with one nonce are the same account, and the randomness
    -- request of that agent and nonce is consumed and holds the seed that the thought commits to.
    pub randomness_single_use :
        (j k : Pubkey) (t u : ThoughtRecord)
        → lookup j w.ledger.accounts ≡ some (thought_record t)
        → lookup k w.ledger.accounts ≡ some (thought_record u)
        → t.agent ≡ u.agent
        → t.vrf_nonce_idx ≡ u.vrf_nonce_idx
        → (j ≡ k)
          × (spent_seed (lookup (address r (vrf_seeds t.agent t.vrf_nonce_idx)) w.ledger.accounts)
              ≡ some t.vrf_seed)
    randomness_single_use j k t u f g same_agent same_nonce =
        let (at_j, _) = (Reach-Inv h).placed j (thought_record t) f in
        let (at_k, _) = (Reach-Inv h).placed k (thought_record u) g in
        (cc, (Reach-Inv h).spent j t f)
