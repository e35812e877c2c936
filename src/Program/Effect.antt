-- ===== src/Program/Effect.antt =====
-- The abstract specification of the program: what a successful instruction, or a movement of
-- lamports outside the program, may do to the ledger, with the contexts and their checks forgotten.
use proof_of_thought.Prelude.{
  ℕ, ◌+◌, ◌-◌, ◌≤◌, ◌<◌, ◌≡◌, ◌≢◌, ◌⊎◌, Bool, true, false, none, some, if◌then◌else◌, length,
}
use proof_of_thought.Prelude.Int.{ℤ}
use proof_of_thought.Prelude.Dict.{lookup, insert}
use proof_of_thought.Program.State.{
  Pubkey, Hash, AgentProfile, agent_profile, ModelRegistry, Policy, VrfRequest, vrf_request,
  ThoughtRecord, thought_record, Challenge, challenge, Account, policy, model_registry, ModelClass,
  model_class_u8, EquivClass, equiv_class_u8, ThoughtStatus, status_u8, from_u8, ChallengeClaim,
  claim_u8,
}
use proof_of_thought.Program.Runtime.{
  Runtime, Ledger, Seeds, agent_seeds, model_seeds, policy_seeds, vrf_seeds, thought_seeds,
  challenge_seeds,
}
use proof_of_thought.Program.Addresses.{address, vault, bond_vault}
use proof_of_thought.Program.Resolve.{judge_agent, share}
use proof_of_thought.Program.Submit.{is_allowed}

-- The seeds of an account's address, as its data names them.
abbrev pub seeds_of : Account → Seeds
seeds_of (agent_profile a) = agent_seeds a.operator
seeds_of (model_registry m) = model_seeds m.model_id
seeds_of (policy p) = policy_seeds p.policy_id
seeds_of (vrf_request v) = vrf_seeds v.agent v.nonce_idx
seeds_of (thought_record t) = thought_seeds t.agent t.vrf_nonce_idx
seeds_of (challenge c) = challenge_seeds c.thought c.challenger

abbrev pub bump_of : Account → ℕ
bump_of (agent_profile a) = a.bump
bump_of (model_registry m) = m.bump
bump_of (policy p) = p.bump
bump_of (vrf_request v) = v.bump
bump_of (thought_record t) = t.bump
bump_of (challenge c) = c.bump

-- A thought's model and policy are registered, the policy allows the model, and its window ends at
-- the thought's deadline.
pub record IsAuthorised (s : Ledger) (model_id policy_id : Hash) (slot deadline_slot : ℕ)
    : Type 0 where
  pub model_key : Pubkey
  pub policy_key : Pubkey
  pub model : ModelRegistry
  pub terms : Policy
  pub model_at : lookup model_key s.accounts ≡ some (model_registry model)
  pub policy_at : lookup policy_key s.accounts ≡ some (policy terms)
  pub same_model : model.model_id ≡ model_id
  pub same_policy : terms.policy_id ≡ policy_id
  pub allowed : is_allowed terms.allowed_models model_id ≡ true
  pub deadline : deadline_slot ≡ slot + terms.challenge_window_slots

module _ (r : Runtime) where
  -- An account stands at its canonical address, and keeps the canonical bump.
  abbrev pub StandsAt : Pubkey → Account → Type 0
  StandsAt k x =
      (k ≡ address r (seeds_of x)) × (bump_of x ≡ (r.find_program_address (seeds_of x)).1)

  -- The enums, the bound and the registrar of an account's data.
  abbrev pub IsCoded : Account → Type 0
  IsCoded (model_registry m) =
      (class : ModelClass) × (m.class ≡ model_class_u8 class) × (m.registered_by ≡ r.governance)
  IsCoded (policy p) =
      (class : EquivClass) × (p.equiv_class ≡ equiv_class_u8 class) × (length p.allowed_models ≤ 16)
  IsCoded (thought_record t) =
      (status : ThoughtStatus) × (t.status ≡ status_u8 status) × (from_u8 t.status ≡ some status)
  IsCoded (challenge c) = (claim : ChallengeClaim) × (c.claim ≡ claim_u8 claim)
  IsCoded _ = Unit

  abbrev pub Keeps : Ledger → Ledger → Type 0
  Keeps s s' = (j : Seeds) → s.lamports (address r j) ≤ s'.lamports (address r j)

  pub data Effect (slot : ℕ) (s s' : Ledger) : Type 0 where
    registered :
        (k : Pubkey) (a : AgentProfile)
        → lookup k s.accounts ≡ none
        → StandsAt k (agent_profile a)
        → a.active_thoughts ≡ 0
        → a.cooldown_until ≡ 0
        → a.vrf_nonce ≡ 0
        → s'.accounts ≡ insert k (agent_profile a) s.accounts
        → Keeps s s'
        → s.lamports (vault r k) + a.stake_amount ≤ s'.lamports (vault r k)
        → Effect slot s s'
    published_model :
        (k : Pubkey) (m : ModelRegistry)
        → lookup k s.accounts ≡ none
        → StandsAt k (model_registry m)
        → IsCoded (model_registry m)
        → s'.accounts ≡ insert k (model_registry m) s.accounts
        → Keeps s s'
        → Effect slot s s'
    published_policy :
        (k : Pubkey) (p : Policy)
        → lookup k s.accounts ≡ none
        → StandsAt k (policy p)
        → IsCoded (policy p)
        → s'.accounts ≡ insert k (policy p) s.accounts
        → Keeps s s'
        → Effect slot s s'
    staked :
        (k : Pubkey) (a : AgentProfile) (n : ℕ)
        → lookup k s.accounts ≡ some (agent_profile a)
        → s'.accounts
          ≡ insert k (agent_profile (record a { stake_amount = a.stake_amount + n })) s.accounts
        → Keeps s s'
        → s.lamports (vault r k) + n ≤ s'.lamports (vault r k)
        → Effect slot s s'
    withdrawn :
        (k : Pubkey) (a : AgentProfile) (n left : ℕ)
        → lookup k s.accounts ≡ some (agent_profile a)
        → a.active_thoughts ≡ 0
        → left + n ≡ a.stake_amount
        → s'.accounts ≡ insert k (agent_profile (record a { stake_amount = left })) s.accounts
        → ((j : Seeds)
            → address r j ≢ vault r k
            → s.lamports (address r j) ≤ s'.lamports (address r j))
        → s'.lamports (vault r k) + n ≡ s.lamports (vault r k)
        → Effect slot s s'
    requested :
        (k kv : Pubkey) (a : AgentProfile) (v : VrfRequest)
        → lookup k s.accounts ≡ some (agent_profile a)
        → lookup kv s.accounts ≡ none
        → StandsAt kv (vrf_request v)
        → v.agent ≡ k
        → v.nonce_idx ≡ a.vrf_nonce
        → v.request_slot ≡ slot
        → v.consumed ≡ false
        → s'.accounts
          ≡ insert kv
              (vrf_request v)
              (insert k (agent_profile (record a { vrf_nonce = a.vrf_nonce + 1 })) s.accounts)
        → Keeps s s'
        → Effect slot s s'
    submitted :
        (k kv kt : Pubkey) (a : AgentProfile) (v : VrfRequest) (t : ThoughtRecord)
        → lookup k s.accounts ≡ some (agent_profile a)
        → lookup kv s.accounts ≡ some (vrf_request v)
        → lookup kt s.accounts ≡ none
        → StandsAt kt (thought_record t)
        → t.agent ≡ k
        → r.create_program_address (vrf_seeds k t.vrf_nonce_idx) v.bump ≡ some kv
        → v.agent ≡ k
        → v.consumed ≡ false
        → t.vrf_seed ≡ v.seed
        → t.status ≡ 0
        → t.attestation_verified ≡ false
        → t.slot ≡ slot
        → slot ≤ t.challenge_deadline_slot
        → t.consumed_count ≡ 0
        → IsAuthorised s t.model_id t.policy_id t.slot t.challenge_deadline_slot
        → s'.accounts
          ≡ insert kt (thought_record t) (
              insert kv (vrf_request (record v { consumed = true })) (
                insert k
                  (agent_profile (record a { active_thoughts = a.active_thoughts + 1 }))
                  s.accounts))
        → Keeps s s'
        → Effect slot s s'
    opened :
        (kt kc : Pubkey) (t : ThoughtRecord) (c : Challenge)
        → lookup kt s.accounts ≡ some (thought_record t)
        → lookup kc s.accounts ≡ none
        → StandsAt kc (challenge c)
        → c.thought ≡ kt
        → c.resolved ≡ false
        → t.status ≡ 0
        → slot < t.challenge_deadline_slot
        → IsCoded (challenge c)
        → s'.accounts
          ≡ insert kc
              (challenge c)
              (insert kt (thought_record (record t { status = 1 })) s.accounts)
        → Keeps s s'
        → s.lamports (bond_vault r kc) + c.bond ≤ s'.lamports (bond_vault r kc)
        → Effect slot s s'
    unchallenged :
        (kt k : Pubkey) (t : ThoughtRecord) (a : AgentProfile) (reputation : ℤ)
        → lookup kt s.accounts ≡ some (thought_record t)
        → lookup k s.accounts ≡ some (agent_profile a)
        → t.agent ≡ k
        → t.status ≡ 0
        → t.challenge_deadline_slot ≤ slot
        → s'.accounts
          ≡ insert k
              (agent_profile
                (record a { active_thoughts = a.active_thoughts - 1; reputation = reputation }))
              (insert kt (thought_record (record t { status = 2 })) s.accounts)
        → Keeps s s'
        → Effect slot s s'
    judged :
        (kt k kc : Pubkey) (t : ThoughtRecord) (a : AgentProfile) (c : Challenge) (guilty : Bool)
        → lookup kt s.accounts ≡ some (thought_record t)
        → lookup k s.accounts ≡ some (agent_profile a)
        → lookup kc s.accounts ≡ some (challenge c)
        → t.agent ≡ k
        → c.thought ≡ kt
        → t.status ≡ 1
        → c.resolved ≡ false
        → s'.accounts
          ≡ insert k (agent_profile (judge_agent guilty a)) (
              insert kc (challenge (record c { resolved = true; verdict = guilty })) (
                insert kt
                  (thought_record (record t { status = if guilty then 3 else 2 }))
                  s.accounts))
        → ((j : Seeds)
            → address r j ≢ vault r k
            → address r j ≢ bond_vault r kc
            → s.lamports (address r j) ≤ s'.lamports (address r j))
        → s.lamports (vault r k)
          ≤ s'.lamports (vault r k)
            + (if guilty then share a.stake_amount 60 + share a.stake_amount 10 else 0)
        → Effect slot s s'
    used :
        (kt : Pubkey) (t : ThoughtRecord)
        → lookup kt s.accounts ≡ some (thought_record t)
        → (t.status ≡ 2) ⊎ (t.attestation_verified ≡ true)
        → t.slot ≤ slot
        → s'.accounts
          ≡ insert kt
              (thought_record (record t { consumed_count = t.consumed_count + 1 }))
              s.accounts
        → Keeps s s'
        → Effect slot s s'
    moved_outside : s'.accounts ≡ s.accounts → Keeps s s' → Effect slot s s'
