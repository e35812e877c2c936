-- ===== src/Program/Invariant/Solvency.antt =====
-- What the vaults owe: an agent's vault its stake, a dispute's vault its bond.
use proof_of_thought.Prelude.{ℕ, ◌≤◌, ◌≡◌, false, some, arith}
use proof_of_thought.Prelude.Dict.{lookup, lookup-insert}
use proof_of_thought.Program.State.{Pubkey, AgentProfile, agent_profile, Challenge, challenge}
use proof_of_thought.Program.Runtime.{Runtime, RuntimeLaws, Ledger, vault_seeds, bond_seeds}
use proof_of_thought.Program.Addresses.{
  vault, bond_vault, vault_injective, bond_vault_injective, vault-ne-bond_vault,
}
use proof_of_thought.Program.Effect.{
  Effect, registered, published_model, published_policy, staked, withdrawn, requested, submitted,
  opened, unchallenged, judged, used, moved_outside,
}
use proof_of_thought.Program.Resolve.{judge_agent}

module _ (r : Runtime) where
  -- Every agent's recorded stake is in its vault.
  abbrev pub StakesAreCovered : Ledger → Type 0
  StakesAreCovered s =
      (j : Pubkey) (x : AgentProfile)
      → lookup j s.accounts ≡ some (agent_profile x)
      → x.stake_amount ≤ s.lamports (vault r j)

  -- The bond of every open dispute is in its vault.
  abbrev pub BondsAreCovered : Ledger → Type 0
  BondsAreCovered s =
      (j : Pubkey) (x : Challenge)
      → lookup j s.accounts ≡ some (challenge x)
      → x.resolved ≡ false
      → x.bond ≤ s.lamports (bond_vault r j)

module _ (r : Runtime) (laws : RuntimeLaws r) where
  pub Effect-StakesAreCovered :
      (slot : ℕ) (s s' : Ledger) → Effect r slot s s' → StakesAreCovered r s → StakesAreCovered r s'
  unfolding judge_agent
  Effect-StakesAreCovered slot s s' (registered k a free at idle gate first wrote keeps paid) h j x
        f =
      grind (arith, h j x, vault_injective r laws j k, keeps (vault_seeds j), lookup-insert)
  Effect-StakesAreCovered slot s s' (published_model k m free at coded wrote keeps) h j x f =
      grind (arith, h j x, keeps (vault_seeds j), lookup-insert)
  Effect-StakesAreCovered slot s s' (published_policy k p free at coded wrote keeps) h j x f =
      grind (arith, h j x, keeps (vault_seeds j), lookup-insert)
  Effect-StakesAreCovered slot s s' (staked k a n found wrote keeps paid) h j x f =
      grind (
        arith,
        h j x,
        h k a found,
        vault_injective r laws j k,
        keeps (vault_seeds j),
        lookup-insert,
      )
  Effect-StakesAreCovered slot s s' (withdrawn k a n left found idle split wrote keeps paid) h j x
        f =
      grind (
        arith,
        h j x,
        h k a found,
        vault_injective r laws j k,
        keeps (vault_seeds j),
        lookup-insert,
      )
  Effect-StakesAreCovered slot s s'
        (requested k kv a v found free at owner nonce now fresh wrote keeps) h j x f =
      grind (arith, h j x, h k a found, keeps (vault_seeds j), lookup-insert)
  Effect-StakesAreCovered slot s s'
        (submitted k kv kt a v t found vrf_found free at owner vrf_at vrf_owner fresh seeded new
          unverified now ahead unused authorised wrote keeps)
        h j x f =
      grind (arith, h j x, h k a found, keeps (vault_seeds j), lookup-insert)
  Effect-StakesAreCovered slot s s'
        (opened kt kc t c found free at subject open_still pending early coded wrote keeps paid) h j
        x f =
      grind (arith, h j x, keeps (vault_seeds j), lookup-insert)
  Effect-StakesAreCovered slot s s'
        (unchallenged kt k t a reputation found agent_found owner pending late wrote keeps) h j x
        f =
      grind (arith, h j x, h k a agent_found, keeps (vault_seeds j), lookup-insert)
  Effect-StakesAreCovered slot s s'
        (judged kt k kc t a c guilty found agent_found challenge_found owner subject disputed
          open_still wrote keeps paid)
        h j x f =
      grind (
        arith,
        h j x,
        h k a agent_found,
        vault_injective r laws j k,
        vault-ne-bond_vault r laws j kc,
        keeps (vault_seeds j),
        lookup-insert,
      )
  Effect-StakesAreCovered slot s s' (used kt t found ready past wrote keeps) h j x f =
      grind (arith, h j x, keeps (vault_seeds j), lookup-insert)
  Effect-StakesAreCovered slot s s' (moved_outside wrote keeps) h j x f =
      ground (arith, h j x, keeps (vault_seeds j))

  pub Effect-BondsAreCovered :
      (slot : ℕ) (s s' : Ledger) → Effect r slot s s' → BondsAreCovered r s → BondsAreCovered r s'
  Effect-BondsAreCovered slot s s' (registered k a free at idle gate first wrote keeps paid) h j x f
        g =
      grind (arith, h j x, keeps (bond_seeds j), lookup-insert)
  Effect-BondsAreCovered slot s s' (published_model k m free at coded wrote keeps) h j x f g =
      grind (arith, h j x, keeps (bond_seeds j), lookup-insert)
  Effect-BondsAreCovered slot s s' (published_policy k p free at coded wrote keeps) h j x f g =
      grind (arith, h j x, keeps (bond_seeds j), lookup-insert)
  Effect-BondsAreCovered slot s s' (staked k a n found wrote keeps paid) h j x f g =
      grind (arith, h j x, keeps (bond_seeds j), lookup-insert)
  Effect-BondsAreCovered slot s s' (withdrawn k a n left found idle split wrote keeps paid) h j x f
        g =
      grind (arith, h j x, vault-ne-bond_vault r laws k j, keeps (bond_seeds j), lookup-insert)
  Effect-BondsAreCovered slot s s'
        (requested k kv a v found free at owner nonce now fresh wrote keeps) h j x f g =
      grind (arith, h j x, keeps (bond_seeds j), lookup-insert)
  Effect-BondsAreCovered slot s s'
        (submitted k kv kt a v t found vrf_found free at owner vrf_at vrf_owner fresh seeded new
          unverified now ahead unused authorised wrote keeps)
        h j x f g =
      grind (arith, h j x, keeps (bond_seeds j), lookup-insert)
  Effect-BondsAreCovered slot s s'
        (opened kt kc t c found free at subject open_still pending early coded wrote keeps paid) h j
        x f g =
      grind (arith, h j x, bond_vault_injective r laws j kc, keeps (bond_seeds j), lookup-insert)
  Effect-BondsAreCovered slot s s'
        (unchallenged kt k t a reputation found agent_found owner pending late wrote keeps) h j x f
        g =
      grind (arith, h j x, keeps (bond_seeds j), lookup-insert)
  Effect-BondsAreCovered slot s s'
        (judged kt k kc t a c guilty found agent_found challenge_found owner subject disputed
          open_still wrote keeps paid)
        h j x f g =
      grind (
        arith,
        h j x,
        bond_vault_injective r laws j kc,
        vault-ne-bond_vault r laws k j,
        keeps (bond_seeds j),
        lookup-insert,
      )
  Effect-BondsAreCovered slot s s' (used kt t found ready past wrote keeps) h j x f g =
      grind (arith, h j x, keeps (bond_seeds j), lookup-insert)
  Effect-BondsAreCovered slot s s' (moved_outside wrote keeps) h j x f g =
      ground (arith, h j x, keeps (bond_seeds j))
