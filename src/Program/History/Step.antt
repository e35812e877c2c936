-- ===== src/Program/History/Step.antt =====
-- What one effect does to an account that is there: to its type, to a thought's commitments and
-- status, and to what a vault holds above the stake.
use proof_of_thought.Prelude.{ℕ, ◌+◌, ◌≤◌, ◌<◌, ◌≡◌, ◌⊎◌, Option, none, some, arith}
use proof_of_thought.Prelude.Dict.{lookup, lookup-insert}
use proof_of_thought.Program.State.{
  Pubkey, AgentProfile, ThoughtRecord, Account, agent_profile, model_registry, policy, vrf_request,
  thought_record, challenge,
}
use proof_of_thought.Program.Runtime.{Runtime, RuntimeLaws, Ledger, vault_seeds}
use proof_of_thought.Program.Addresses.{vault, vault_injective, vault-ne-bond_vault}
use proof_of_thought.Program.Effect.{
  Effect, registered, published_model, published_policy, staked, withdrawn, requested, submitted,
  opened, unchallenged, judged, used, moved_outside,
}
use proof_of_thought.Program.Resolve.{judge_agent, share}

-- A number for each type of account.
abbrev pub kind : Account → ℕ
kind (agent_profile _) = 0
kind (model_registry _) = 1
kind (policy _) = 2
kind (vrf_request _) = 3
kind (thought_record _) = 4
kind (challenge _) = 5

abbrev pub kind_at : Option Account → Option ℕ
kind_at none = none
kind_at (some x) = some (kind x)

-- What a thought commits to, and what identifies it.
pub record Frozen (t t' : ThoughtRecord) : Type 0 where
  pub agent : t'.agent ≡ t.agent
  pub model_id : t'.model_id ≡ t.model_id
  pub input_commitment : t'.input_commitment ≡ t.input_commitment
  pub output_commitment : t'.output_commitment ≡ t.output_commitment
  pub trace_uri_hash : t'.trace_uri_hash ≡ t.trace_uri_hash
  pub vrf_seed : t'.vrf_seed ≡ t.vrf_seed
  pub policy_id : t'.policy_id ≡ t.policy_id
  pub slot : t'.slot ≡ t.slot
  pub action_pda : t'.action_pda ≡ t.action_pda
  pub challenge_deadline_slot : t'.challenge_deadline_slot ≡ t.challenge_deadline_slot
  pub vrf_nonce_idx : t'.vrf_nonce_idx ≡ t.vrf_nonce_idx

-- The life cycle: Pending is challenged before the deadline or finalized from it on, and a
-- Challenged thought is finalized or slashed.
abbrev pub Edge : ℕ → ThoughtRecord → ThoughtRecord → Type 0
Edge slot t t' =
    (t'.status ≡ t.status)
    ⊎ ((t.status ≡ 0) × (t'.status ≡ 1) × (slot < t.challenge_deadline_slot))
    ⊎ ((t.status ≡ 0) × (t'.status ≡ 2) × (t.challenge_deadline_slot ≤ slot))
    ⊎ ((t.status ≡ 1) × ((t'.status ≡ 2) ⊎ (t'.status ≡ 3)))

-- The two parts of the slashed stake do not exceed it.
shares-le : (stake : ℕ) → share stake 60 + share stake 10 ≤ stake
unfolding share
shares-le stake = omega arith

module _ (r : Runtime) where
  pub Effect-kind :
      (slot : ℕ) (s s' : Ledger) (j : Pubkey) (tag : ℕ)
      → Effect r slot s s'
      → kind_at (lookup j s.accounts) ≡ some tag
      → kind_at (lookup j s'.accounts) ≡ some tag
  Effect-kind slot s s' j tag (registered k a free at idle gate first wrote keeps paid) h =
      rw wrote (grind (arith, lookup-insert))
  Effect-kind slot s s' j tag (published_model k m free at coded wrote keeps) h =
      rw wrote (grind (arith, lookup-insert))
  Effect-kind slot s s' j tag (published_policy k p free at coded wrote keeps) h =
      rw wrote (grind (arith, lookup-insert))
  Effect-kind slot s s' j tag (staked k a n found wrote keeps paid) h =
      rw wrote (grind (arith, lookup-insert))
  Effect-kind slot s s' j tag (withdrawn k a n left found idle split wrote keeps paid) h =
      rw wrote (grind (arith, lookup-insert))
  Effect-kind slot s s' j tag (requested k kv a v found free at owner nonce now fresh wrote keeps)
        h =
      rw wrote (grind (arith, lookup-insert))
  Effect-kind slot s s' j n
        (submitted k kv kt a v t found vrf_found free at owner vrf_at vrf_owner fresh seeded new
          unverified now ahead unused authorised wrote keeps)
        h =
      rw wrote (grind (arith, lookup-insert))
  Effect-kind slot s s' j n
        (opened kt kc t c found free at subject open_still pending early coded wrote keeps paid) h =
      rw wrote (grind (arith, lookup-insert))
  Effect-kind slot s s' j n
        (unchallenged kt k t a reputation found agent_found owner pending late wrote keeps) h =
      rw wrote (grind (arith, lookup-insert))
  Effect-kind slot s s' j n
        (judged kt k kc t a c guilty found agent_found challenge_found owner subject disputed
          open_still wrote keeps paid)
        h =
      rw wrote (grind (arith, lookup-insert))
  Effect-kind slot s s' j tag (used kt t found ready past wrote keeps) h =
      rw wrote (grind (arith, lookup-insert))
  Effect-kind slot s s' j tag (moved_outside wrote keeps) h = rw wrote h

  pub Effect-thought :
      (slot : ℕ) (s s' : Ledger) (j : Pubkey) (x x' : ThoughtRecord)
      → Effect r slot s s'
      → lookup j s.accounts ≡ some (thought_record x)
      → lookup j s'.accounts ≡ some (thought_record x')
      → Frozen x x' × Edge slot x x'
  Effect-thought slot s s' j x x' (registered k a free at idle gate first wrote keeps paid) f f' =
      grind (arith, lookup-insert)
  Effect-thought slot s s' j x x' (published_model k m free at coded wrote keeps) f f' =
      grind (arith, lookup-insert)
  Effect-thought slot s s' j x x' (published_policy k p free at coded wrote keeps) f f' =
      grind (arith, lookup-insert)
  Effect-thought slot s s' j x x' (staked k a n found wrote keeps paid) f f' =
      grind (arith, lookup-insert)
  Effect-thought slot s s' j x x' (withdrawn k a n left found idle split wrote keeps paid) f f' =
      grind (arith, lookup-insert)
  Effect-thought slot s s' j x x'
        (requested k kv a v found free at owner nonce now fresh wrote keeps) f f' =
      grind (arith, lookup-insert)
  Effect-thought slot s s' j x x'
        (submitted k kv kt a v t found vrf_found free at owner vrf_at vrf_owner fresh seeded new
          unverified now ahead unused authorised wrote keeps)
        f f' =
      grind (arith, lookup-insert)
  Effect-thought slot s s' j x x'
        (opened kt kc t c found free at subject open_still pending early coded wrote keeps paid) f
        f' =
      grind (arith, lookup-insert)
  Effect-thought slot s s' j x x'
        (unchallenged kt k t a reputation found agent_found owner pending late wrote keeps) f f' =
      grind (arith, lookup-insert)
  Effect-thought slot s s' j x x'
        (judged kt k kc t a c guilty found agent_found challenge_found owner subject disputed
          open_still wrote keeps paid)
        f f' =
      grind (arith, lookup-insert)
  Effect-thought slot s s' j x x' (used kt t found ready past wrote keeps) f f' =
      grind (arith, lookup-insert)
  Effect-thought slot s s' j x x' (moved_outside wrote keeps) f f' = ground arith

module _ (r : Runtime) (laws : RuntimeLaws r) where
  pub Effect-surplus :
      (slot : ℕ) (s s' : Ledger) (j : Pubkey) (x x' : AgentProfile)
      → Effect r slot s s'
      → lookup j s.accounts ≡ some (agent_profile x)
      → lookup j s'.accounts ≡ some (agent_profile x')
      → s.lamports (vault r j) + x'.stake_amount ≤ s'.lamports (vault r j) + x.stake_amount
  unfolding judge_agent
  Effect-surplus slot s s' j x x' (registered k a free at idle gate first wrote keeps paid) f f' =
      grind (arith, keeps (vault_seeds j), lookup-insert)
  Effect-surplus slot s s' j x x' (published_model k m free at coded wrote keeps) f f' =
      grind (arith, keeps (vault_seeds j), lookup-insert)
  Effect-surplus slot s s' j x x' (published_policy k p free at coded wrote keeps) f f' =
      grind (arith, keeps (vault_seeds j), lookup-insert)
  Effect-surplus slot s s' j x x' (staked k a n found wrote keeps paid) f f' =
      grind (arith, keeps (vault_seeds j), lookup-insert)
  Effect-surplus slot s s' j x x' (withdrawn k a n left found idle split wrote keeps paid) f f' =
      grind (arith, vault_injective r laws j k, keeps (vault_seeds j), lookup-insert)
  Effect-surplus slot s s' j x x'
        (requested k kv a v found free at owner nonce now fresh wrote keeps) f f' =
      grind (arith, keeps (vault_seeds j), lookup-insert)
  Effect-surplus slot s s' j x x'
        (submitted k kv kt a v t found vrf_found free at owner vrf_at vrf_owner fresh seeded new
          unverified now ahead unused authorised wrote keeps)
        f f' =
      grind (arith, keeps (vault_seeds j), lookup-insert)
  Effect-surplus slot s s' j x x'
        (opened kt kc t c found free at subject open_still pending early coded wrote keeps paid) f
        f' =
      grind (arith, keeps (vault_seeds j), lookup-insert)
  Effect-surplus slot s s' j x x'
        (unchallenged kt k t a reputation found agent_found owner pending late wrote keeps) f f' =
      grind (arith, keeps (vault_seeds j), lookup-insert)
  Effect-surplus slot s s' j x x'
        (judged kt k kc t a c guilty found agent_found challenge_found owner subject disputed
          open_still wrote keeps paid)
        f f' =
      grind (
        arith,
        vault_injective r laws j k,
        vault-ne-bond_vault r laws j kc,
        shares-le a.stake_amount,
        keeps (vault_seeds j),
        lookup-insert,
      )
  Effect-surplus slot s s' j x x' (used kt t found ready past wrote keeps) f f' =
      grind (arith, keeps (vault_seeds j), lookup-insert)
  Effect-surplus slot s s' j x x' (moved_outside wrote keeps) f f' =
      ground (arith, keeps (vault_seeds j))
