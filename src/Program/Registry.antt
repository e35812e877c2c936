-- ===== src/Program/Registry.antt =====
-- Registration of models and of policies
-- (programs/pot_program/src/instructions/register_model.rs, register_policy.rs).
use proof_of_thought.Prelude.{ℕ, List, ◌==◌, leb, length}
use proof_of_thought.Prelude.Dict.{insert}
use proof_of_thought.Program.Error.{Result, ok, ◌>>=◌, ◌>>◌, require, overflow, unauthorized}
use proof_of_thought.Program.State.{
  Pubkey, Hash, ModelClass, model_class_u8, ModelRegistry, EquivClass, equiv_class_u8, Policy,
  max_allowed_models, Account,
}
use proof_of_thought.Program.Runtime.{Runtime, Ledger, model_seeds, policy_seeds, init}

-- `ModelRegistry::LEN` and `Policy::LEN`
abbrev model_registry_len : ℕ
model_registry_len = 138

abbrev policy_len : ℕ
policy_len = 682

pub record ModelContext : Type 0 where
  pub governance : Pubkey
  pub model : Pubkey

pub record PolicyContext : Type 0 where
  pub author : Pubkey
  pub policy : Pubkey

pub record RegisterPolicyArgs : Type 0 where
  pub policy_id : Hash
  pub schema_uri_hash : Hash
  pub equiv_class : EquivClass
  pub max_inference_slots : ℕ
  pub max_action_age_slots : ℕ
  pub challenge_window_slots : ℕ
  pub bond_min : ℕ
  pub resolver : Pubkey
  pub treasury : Pubkey
  pub allowed_models : List Hash

module _ (r : Runtime) where
  -- The entry that `register_model` writes.
  abbrev pub new_model : ModelContext → Hash → ModelClass → Pubkey → Pubkey → ModelRegistry
  new_model ctx model_id class verifier_pubkey tee_root_ca = record {
    model_id = model_id;
    class = model_class_u8 class;
    verifier_pubkey = verifier_pubkey;
    tee_root_ca = tee_root_ca;
    registered_by = ctx.governance;
    bump = (r.find_program_address (model_seeds model_id)).1;
  }

  -- The policy that `register_policy` writes.
  abbrev pub new_policy : RegisterPolicyArgs → Policy
  new_policy args = record {
    policy_id = args.policy_id;
    schema_uri_hash = args.schema_uri_hash;
    equiv_class = equiv_class_u8 args.equiv_class;
    max_inference_slots = args.max_inference_slots;
    max_action_age_slots = args.max_action_age_slots;
    challenge_window_slots = args.challenge_window_slots;
    bond_min = args.bond_min;
    resolver = args.resolver;
    treasury = args.treasury;
    allowed_models = args.allowed_models;
    bump = (r.find_program_address (policy_seeds args.policy_id)).1;
  }

  unfoldable pub register_model :
      ModelContext → Hash → ModelClass → Pubkey → Pubkey → Ledger → Result Ledger
  register_model ctx model_id class verifier_pubkey tee_root_ca s = do
    funded ← init r ctx.governance ctx.model model_registry_len (model_seeds model_id) s
    require (ctx.governance == r.governance) unauthorized
    ok (record s {
      accounts =
          insert ctx.model
            (Account.model_registry (new_model ctx model_id class verifier_pubkey tee_root_ca))
            s.accounts;
      lamports = funded;
    })

  unfoldable pub register_policy : PolicyContext → RegisterPolicyArgs → Ledger → Result Ledger
  register_policy ctx args s = do
    funded ← init r ctx.author ctx.policy policy_len (policy_seeds args.policy_id) s
    require (leb (length args.allowed_models) max_allowed_models) overflow
    ok (record s {
      accounts = insert ctx.policy (Account.policy (new_policy args)) s.accounts;
      lamports = funded;
    })
