-- ===== src/Watcher/Startup.antt =====
-- The watcher's configuration and its start (watcher/src/config.rs, `main` of watcher/src/main.rs). The
-- product of an `f64` with the lamports of a SOL, converted to a `u64`, and the parser of public keys are
-- parameters.
pub mod Observer
use proof_of_thought.Prelude.{
  ℕ, suc, List, [], ◌∷◌, ◌++◌, Option, none, some, Bool, true, false, if◌then◌else◌, not, ◌==◌,
  ◌&&◌, is_empty, length,
}
use proof_of_thought.Watcher.Types.{Bytes}
use proof_of_thought.Watcher.Filer.{
  BondStrategy, conservative, aggressive, disabled, Filer, ChallengeArgs, new,
}

pub data StorageBackend : Type 0 where
  arweave shadow mock : StorageBackend

pub record WatcherConfig : Type 0 where
  pub rpc_url : Bytes
  pub ws_url : Bytes
  pub policies : List Bytes
  pub models_dir : Bytes
  pub max_stake_at_risk_lamports : ℕ
  pub bond_strategy : BondStrategy
  pub storage : StorageBackend
  pub keypair_path : Bytes
  pub program_id : Bytes

-- The command line; `F` is the type of an `f64`.
pub record Cli (F : Type 0) : Type 0 where
  pub rpc : Bytes
  pub ws : Bytes
  pub policies : List Bytes
  pub models : Bytes
  pub max_stake_at_risk : F
  pub bond_strategy : BondStrategy
  pub storage : StorageBackend
  pub keypair : Bytes
  pub program_id : Bytes
  pub channel_capacity : ℕ
  pub dry_run : Bool

-- The errors of `validate`, in its order, and those of `main`.
pub data StartError : Type 0 where
  empty_rpc empty_ws empty_policies no_stake_at_risk empty_program_id : StartError
  dry_run_required invalid_program_id : StartError

pub data Started {ℓ} (T : Type ℓ) : Type ℓ where
  started : T → Started T
  refused : StartError → Started T

abbrev pub is_disabled : BondStrategy → Bool
is_disabled disabled = true
is_disabled conservative = false
is_disabled aggressive = false

-- `if refused_if { return Err(e) }`
abbrev pub unless {ℓ} : {T : Type ℓ} → Bool → StartError → Started T → Started T
unless b e rest = if b then refused e else rest

unfoldable pub validate : WatcherConfig → Started WatcherConfig
validate cfg = unless (is_empty cfg.rpc_url) empty_rpc (
    unless (is_empty cfg.ws_url) empty_ws (
      unless (is_empty cfg.policies) empty_policies (
        unless (not (is_disabled cfg.bond_strategy) && (cfg.max_stake_at_risk_lamports == 0))
          no_stake_at_risk (unless (is_empty cfg.program_id) empty_program_id (started cfg)))))

abbrev pub then_start {ℓ κ} : {T : Type ℓ} {U : Type κ} → Started T → (T → Started U) → Started U
then_start (refused e) k = refused e
then_start (started t) k = k t

-- A watcher that runs: its filer, over the mock submitter, and the backend of its stream and its fetcher.
pub record Watching : Type 0 where
  pub filer : Filer
  pub storage : StorageBackend

module _ {F : Type 0} (to_lamports : F → ℕ) where
  -- `WatcherConfig::new`
  unfoldable pub new_config : Cli F → Started WatcherConfig
  unfolding validate
  new_config cli = validate (record {
    rpc_url = cli.rpc;
    ws_url = cli.ws;
    policies = cli.policies;
    models_dir = cli.models;
    max_stake_at_risk_lamports = to_lamports cli.max_stake_at_risk;
    bond_strategy = cli.bond_strategy;
    storage = cli.storage;
    keypair_path = cli.keypair;
    program_id = cli.program_id;
  })

  -- `main`, up to the pipeline's start.
  unfoldable pub start : (Bytes → Bool) → Cli F → Started Watching
  start is_pubkey cli = then_start (new_config cli) λ cfg.
      unless (not cli.dry_run && not (is_disabled cfg.bond_strategy)) dry_run_required (
        unless (not (is_pubkey cfg.program_id)) invalid_program_id (
          started (record {
            filer = new cfg.bond_strategy cfg.max_stake_at_risk_lamports;
            storage = cfg.storage;
          })))

-- `MockChallengeSubmitter::submit`: what it has been given, and the signature's number, of 64 bytes.
unfoldable pub mock_submit : ChallengeArgs → List ChallengeArgs → List ChallengeArgs × ℕ
mock_submit args submitted = let now = submitted ++ args ∷ [] in (now, length now)

-- `RpcChallengeSubmitter::submit`, a stub that returns an error.
abbrev pub rpc_submit : ChallengeArgs → Option ℕ
rpc_submit args = none
