-- ===== src/Program/State.antt =====
-- The accounts of the program (programs/pot_program/src/state). A public key and a 32-byte array
-- are numbers below 2 ^ 256, since the program only compares them. The fields `_pad` and the
-- 8-byte discriminators are left out: the constructor of `Account` says which type is stored.
use proof_of_thought.Prelude.{ℕ, Bool, Option, none, some, List, if◌then◌else◌, ◌==◌}
use proof_of_thought.Prelude.Int.{ℤ}

abbrev pub Pubkey : Type 0
Pubkey = ℕ

abbrev pub Hash : Type 0
Hash = ℕ

pub record AgentProfile : Type 0 where
  pub operator : Pubkey
  pub stake_vault : Pubkey
  pub stake_amount : ℕ
  pub reputation : ℤ
  pub active_thoughts : ℕ
  pub cooldown_until : ℕ
  pub vrf_nonce : ℕ
  pub bump : ℕ

pub data ModelClass : Type 0 where
  open_weights hosted tee_attested : ModelClass

-- `class as u8`
abbrev pub model_class_u8 : ModelClass → ℕ
model_class_u8 open_weights = 0
model_class_u8 hosted = 1
model_class_u8 tee_attested = 2

pub record ModelRegistry : Type 0 where
  pub model_id : Hash
  pub class : ℕ
  pub verifier_pubkey : Pubkey
  pub tee_root_ca : Pubkey
  pub registered_by : Pubkey
  pub bump : ℕ

pub data EquivClass : Type 0 where
  strict structural_json semantic_committee any_of_n : EquivClass

-- `equiv_class as u8`
abbrev pub equiv_class_u8 : EquivClass → ℕ
equiv_class_u8 strict = 0
equiv_class_u8 structural_json = 1
equiv_class_u8 semantic_committee = 2
equiv_class_u8 any_of_n = 3

pub record Policy : Type 0 where
  pub policy_id : Hash
  pub schema_uri_hash : Hash
  pub equiv_class : ℕ
  pub max_inference_slots : ℕ
  pub max_action_age_slots : ℕ
  pub challenge_window_slots : ℕ
  pub bond_min : ℕ
  pub resolver : Pubkey
  pub treasury : Pubkey
  pub allowed_models : List Hash
  pub bump : ℕ

abbrev pub max_allowed_models : ℕ
max_allowed_models = 16

pub record VrfRequest : Type 0 where
  pub agent : Pubkey
  pub nonce_idx : ℕ
  pub seed : Hash
  pub request_slot : ℕ
  pub consumed : Bool
  pub bump : ℕ

pub data ThoughtStatus : Type 0 where
  pending challenged finalized slashed : ThoughtStatus

-- `status as u8`
abbrev pub status_u8 : ThoughtStatus → ℕ
status_u8 pending = 0
status_u8 challenged = 1
status_u8 finalized = 2
status_u8 slashed = 3

-- `ThoughtStatus::from_u8`
unfoldable pub from_u8 : ℕ → Option ThoughtStatus
from_u8 v =
    if v == 0
    then some pending
    else if v == 1
    then some challenged
    else if v == 2
    then some finalized
    else if v == 3
    then some slashed
    else none

-- The derived `==` on the statuses.
abbrev pub status_eq : ThoughtStatus → ThoughtStatus → Bool
status_eq a b = status_u8 a == status_u8 b

pub record ThoughtRecordArgs : Type 0 where
  pub model_id : Hash
  pub input_commitment : Hash
  pub output_commitment : Hash
  pub trace_uri_hash : Hash
  pub vrf_seed : Hash
  pub policy_id : Hash
  pub action_pda : Pubkey
  pub vrf_nonce_idx : ℕ

pub record ThoughtRecord : Type 0 where
  pub agent : Pubkey
  pub model_id : Hash
  pub input_commitment : Hash
  pub output_commitment : Hash
  pub trace_uri_hash : Hash
  pub vrf_seed : Hash
  pub policy_id : Hash
  pub slot : ℕ
  pub action_pda : Pubkey
  pub status : ℕ
  pub attestation_verified : Bool
  pub challenge_deadline_slot : ℕ
  pub consumed_count : ℕ
  pub vrf_nonce_idx : ℕ
  pub bump : ℕ

pub data ChallengeClaim : Type 0 where
  model_mismatch output_mismatch input_omission replay stale_vrf : ChallengeClaim
  attestation_invalid inconsistent_commitments : ChallengeClaim

-- `claim as u8`
abbrev pub claim_u8 : ChallengeClaim → ℕ
claim_u8 model_mismatch = 0
claim_u8 output_mismatch = 1
claim_u8 input_omission = 2
claim_u8 replay = 3
claim_u8 stale_vrf = 4
claim_u8 attestation_invalid = 5
claim_u8 inconsistent_commitments = 6

pub record Challenge : Type 0 where
  pub thought : Pubkey
  pub challenger : Pubkey
  pub bond : ℕ
  pub claim : ℕ
  pub evidence_uri_hash : Hash
  pub opened_at_slot : ℕ
  pub resolved : Bool
  pub verdict : Bool
  pub bump : ℕ

-- The data of an account that the program owns.
pub data Account : Type 0 where
  agent_profile : AgentProfile → Account
  model_registry : ModelRegistry → Account
  policy : Policy → Account
  vrf_request : VrfRequest → Account
  thought_record : ThoughtRecord → Account
  challenge : Challenge → Account
