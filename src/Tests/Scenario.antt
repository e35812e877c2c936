-- ===== src/Tests/Scenario.antt =====
-- A history on the test platform: an agent registers and submits a thought under a policy, which is
-- then finalized and used, or challenged and judged.
use proof_of_thought.Prelude.{◌+◌, ◌≡◌, refl, true, false, [], ◌∷◌}
use proof_of_thought.Prelude.Dict.{lookup, insert}
use proof_of_thought.Program.Error.{Result, ok, err}
use proof_of_thought.Program.State.{
  Pubkey, AgentProfile, ThoughtRecord, Policy, Challenge, ThoughtRecordArgs, open_weights, strict,
  from_u8, inconsistent_commitments,
}
use proof_of_thought.Program.Runtime.{Ledger, Lamports, init}
use proof_of_thought.Program.Agent.{AgentContext, new_agent}
use proof_of_thought.Program.Agent
use proof_of_thought.Program.Registry
use proof_of_thought.Program.Vrf
use proof_of_thought.Program.Submit
use proof_of_thought.Program.Dispute
use proof_of_thought.Program.Consume
use proof_of_thought.Program.Resolve
use proof_of_thought.Program.Registry.{RegisterPolicyArgs, new_policy}
use proof_of_thought.Program.Vrf.{VrfContext}
use proof_of_thought.Program.Submit.{SubmitContext, new_thought}
use proof_of_thought.Program.Dispute.{ChallengeContext, new_challenge}
use proof_of_thought.Program.Consume.{ConsumeContext}
use proof_of_thought.Program.Resolve.{UnchallengedContext, ChallengedContext}
use proof_of_thought.Program.Execute.{
  Instruction, register_agent, register_model, register_policy, request_vrf, submit_thought,
  consume_thought, open_challenge, resolve_unchallenged, resolve_challenged, execute, World, run,
  tick, Reach, here, next,
}
use proof_of_thought.Program.Invariant.Reachable.{genesis}
use proof_of_thought.Tests.Platform.{pair, address_with, platform, wallet}

-- The ledger after an instruction, or as it was where that fails.
abbrev pub or_else : Result Ledger → Ledger → Ledger
or_else (ok s') s = s'
or_else (err e) s = s

unfoldable pub then : World → Instruction → World
unfolding execute Agent.register_agent Agent.own_agent Agent.stake Agent.withdraw_stake
    Registry.register_model Registry.register_policy Vrf.request_accounts Vrf.request_vrf
    Submit.is_allowed Submit.check_submission Submit.submit_accounts Submit.submit_thought
    Dispute.open_accounts Dispute.open_challenge Consume.consume_accounts Consume.check_consumption
    Consume.consume_thought Resolve.unchallenged_accounts Resolve.resolve_unchallenged Resolve.share
    Resolve.transfer_signed Resolve.pay_guilty Resolve.pay_innocent Resolve.judge_agent
    Resolve.challenged_accounts Resolve.check_verdict Resolve.resolve_challenged from_u8 init insert
    lookup address_with pair
then w i = record w { ledger = or_else (execute platform w.slot i w.ledger) w.ledger }

-- The addresses on the test platform of the accounts below.
abbrev pub agent_key : Pubkey
agent_key = 340

abbrev pub vault_key : Pubkey
vault_key = 32698

abbrev pub thought_key : Pubkey
thought_key = 32722

abbrev pub challenge_key : Pubkey
challenge_key = 201047080

abbrev pub bond_key : Pubkey
bond_key = 19300519774

abbrev pub funds : Lamports
funds k = 10000

abbrev pub operator_context : AgentContext
operator_context = record { operator = 3; agent = agent_key; stake_vault = vault_key }

abbrev pub thought_args : ThoughtRecordArgs
thought_args = record {
  model_id = 7;
  input_commitment = 21;
  output_commitment = 22;
  trace_uri_hash = 23;
  vrf_seed = 77;
  policy_id = 8;
  action_pda = 50;
  vrf_nonce_idx = 0;
}

abbrev policy_args : RegisterPolicyArgs
policy_args = record {
  policy_id = 8;
  schema_uri_hash = 24;
  equiv_class = strict;
  max_inference_slots = 50;
  max_action_age_slots = 1000;
  challenge_window_slots = 10;
  bond_min = 100;
  resolver = 9;
  treasury = 12;
  allowed_models = 7 ∷ [];
}

abbrev pub submit_context : SubmitContext
submit_context = record {
  operator = 3;
  agent = agent_key;
  model = 736;
  policy = 838;
  vrf_request = 32716;
  thought = thought_key;
}

abbrev pub registering : Instruction
registering = register_agent operator_context 501

abbrev modelling : Instruction
modelling = register_model (record { governance = 15; model = 736 }) 7 open_weights 30 31

abbrev publishing : Instruction
publishing = register_policy (record { author = 18; policy = 838 }) policy_args

abbrev requesting : Instruction
requesting = request_vrf (record { operator = 3; agent = agent_key; vrf_request = 32716 }) 0 77

abbrev pub submitting : Instruction
submitting = submit_thought submit_context thought_args (97 ∷ 98 ∷ [])

abbrev pub registered_world : World
registered_world = then (genesis funds 100) registering

abbrev pub requested_world : World
requested_world = then (then (then registered_world modelling) publishing) requesting

abbrev pub submitted_world : World
submitted_world = then requested_world submitting

-- The dispute of the thought, and its verdict.
abbrev pub challenge_context : ChallengeContext
challenge_context = record {
  challenger = 6;
  thought = thought_key;
  policy = 838;
  challenge = challenge_key;
  bond_vault = bond_key;
}

abbrev pub opening : Instruction
opening = open_challenge challenge_context inconsistent_commitments 205 99

abbrev pub verdict_context : ChallengedContext
verdict_context = record {
  resolver = 9;
  thought = thought_key;
  agent = agent_key;
  policy = 838;
  challenge = challenge_key;
  stake_vault = vault_key;
  bond_vault = bond_key;
  challenger = 6;
  treasury = 12;
  agent_operator = 3;
}

abbrev pub challenged_world : World
challenged_world = then submitted_world opening

abbrev pub slashed_world : World
slashed_world = then challenged_world (resolve_challenged verdict_context true)

abbrev pub acquitted_world : World
acquitted_world = then challenged_world (resolve_challenged verdict_context false)

-- The window passes, and the thought is finalized and used.
abbrev pub waited_world : World
waited_world = record submitted_world { slot = 110 }

abbrev pub finalizing_context : UnchallengedContext
finalizing_context = record { cranker = 21; thought = thought_key; agent = agent_key }

abbrev pub finalized_world : World
finalized_world = then waited_world (resolve_unchallenged finalizing_context)

abbrev pub using_context : ConsumeContext
using_context = record { consumer = 24; thought = thought_key; policy = 838; action = 50 }

abbrev pub used_world : World
used_world = then finalized_world (consume_thought using_context)

pub Reach-registered : Reach platform (genesis funds 100) registered_world
unfolding then
Reach-registered =
    next here (run (genesis funds 100) registering registered_world.ledger (wallet 1) refl)

pub Reach-requested : Reach platform (genesis funds 100) requested_world
unfolding then
Reach-requested =
    let w₁ = then registered_world modelling in
    let w₂ = then w₁ publishing in
    let w₃ = then w₂ requesting in
    next
      (next (next Reach-registered (run registered_world modelling w₁.ledger (wallet 5) refl))
        (run w₁ publishing w₂.ledger (wallet 6) refl))
      (run w₂ requesting w₃.ledger (wallet 1) refl)

pub Reach-submitted : Reach platform (genesis funds 100) submitted_world
unfolding then
Reach-submitted =
    next Reach-requested (run requested_world submitting submitted_world.ledger (wallet 1) refl)

pub Reach-challenged : Reach platform (genesis funds 100) challenged_world
unfolding then
Reach-challenged =
    next Reach-submitted (run submitted_world opening challenged_world.ledger (wallet 2) refl)

pub Reach-slashed : Reach platform challenged_world slashed_world
unfolding then
Reach-slashed = next here (
    run challenged_world (resolve_challenged verdict_context true) slashed_world.ledger (wallet 3)
      refl)

pub Reach-waited : Reach platform (genesis funds 100) waited_world
unfolding then
Reach-waited = next Reach-submitted (tick submitted_world 10)

pub Reach-finalized : Reach platform (genesis funds 100) finalized_world
unfolding then
Reach-finalized = next Reach-waited (
    run waited_world (resolve_unchallenged finalizing_context) finalized_world.ledger (wallet 7)
      refl)

-- The balances after a guilty verdict on a stake of 501 and a bond of 205, at the rent of the test
-- platform: 300 and the bond to the challenger, 50 to the treasury, 151 left.
slashed_balances :
    (slashed_world.ledger.lamports 6 ≡ challenged_world.ledger.lamports 6 + 505)
    × (slashed_world.ledger.lamports 12 ≡ 10050)
    × (slashed_world.ledger.lamports vault_key ≡ 10151)
unfolding then
slashed_balances = (refl, refl, refl)

-- The accounts of the history.
abbrev pub busy_agent : AgentProfile
busy_agent = record (new_agent platform operator_context 501) { vrf_nonce = 1; active_thoughts = 1 }

abbrev pub pending_thought : ThoughtRecord
pending_thought = new_thought platform submit_context 100 thought_args 110

abbrev pub the_policy : Policy
the_policy = new_policy platform policy_args

abbrev pub open_dispute : Challenge
open_dispute = new_challenge platform challenge_context 100 inconsistent_commitments 205 99
