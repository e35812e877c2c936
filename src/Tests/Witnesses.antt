-- ===== src/Tests/Witnesses.antt =====
-- The theorems on the program, applied on the histories of `Scenario`.
use proof_of_thought.Prelude.{◌+◌, ◌-◌, ◌*◌, ◌/◌, ◌≤◌, ◌<◌, ◌≡◌, ◌≢◌, inl, refl, some, arith}
use proof_of_thought.Prelude.Dict.{lookup, insert, total}
use proof_of_thought.Program.Error.{ok, err, pot, cooldown_active}
use proof_of_thought.Program.State.{AgentProfile, agent_profile, ThoughtRecord, thought_record}
use proof_of_thought.Program.Runtime.{moved, vrf_seeds}
use proof_of_thought.Program.Addresses.{address, vault, bond_vault}
use proof_of_thought.Program.Agent.{new_agent, withdraw_stake}
use proof_of_thought.Program.Consume.{consume_thought}
use proof_of_thought.Program.Resolve.{resolve_unchallenged}
use proof_of_thought.Program.Execute.{here}
use proof_of_thought.Program.Effect.{Effect}
use proof_of_thought.Program.Refine.All.{execute-Effect}
use proof_of_thought.Program.Invariant.Counts.{active_of, in_flight, disputed_of, open_on}
use proof_of_thought.Program.Invariant.Randomness.{spent_seed}
use proof_of_thought.Program.Invariant.Reached.{
  stake_covered, bond_covered, active_thoughts_counted, one_dispute_each, randomness_single_use,
}
use proof_of_thought.Program.History.Step.{Frozen}
use proof_of_thought.Program.History.Reached.{Later, thought_persists}
use proof_of_thought.Program.Behaviour.Withdrawal.{
  withdraw_blocked, withdraw_never_cools, withdraw_idle,
}
use proof_of_thought.Program.Behaviour.Finalization.{after_finalization, finalize_unchallenged}
use proof_of_thought.Program.Behaviour.Verdict.{guilty_verdict_pays, innocent_verdict_pays}
use proof_of_thought.Program.Behaviour.Burn.{burnt_forever}
use proof_of_thought.Tests.Platform.{platform, platform_laws, wallet}
use proof_of_thought.Tests.Scenario.{
  then, funds, agent_key, vault_key, thought_key, challenge_key, bond_key, busy_agent,
  pending_thought, open_dispute, operator_context, registered_world, submitted_world,
  challenged_world, slashed_world, acquitted_world, waited_world, finalized_world, used_world,
  opening, verdict_context, finalizing_context, using_context, Reach-registered, Reach-submitted,
  Reach-challenged, Reach-slashed, Reach-waited,
}

-- The dispatcher refined at a submission.
execute-Effect_example : Effect platform 100 submitted_world.ledger challenged_world.ledger
unfolding then
execute-Effect_example =
    execute-Effect platform platform_laws 100 opening submitted_world.ledger challenged_world.ledger
      (wallet 2) refl

stake_covered_example : 501 ≤ submitted_world.ledger.lamports (vault platform agent_key)
unfolding then
stake_covered_example =
    stake_covered platform platform_laws funds 100 submitted_world Reach-submitted agent_key
      busy_agent refl

bond_covered_example : 205 ≤ challenged_world.ledger.lamports (bond_vault platform challenge_key)
unfolding then
bond_covered_example =
    bond_covered platform platform_laws funds 100 challenged_world Reach-challenged challenge_key
      open_dispute refl refl

active_thoughts_counted_example :
    active_of (lookup agent_key submitted_world.ledger.accounts)
    ≡ total (in_flight agent_key) submitted_world.ledger.accounts
active_thoughts_counted_example =
    active_thoughts_counted platform platform_laws funds 100 submitted_world Reach-submitted
      agent_key

one_dispute_each_example :
    disputed_of (lookup thought_key challenged_world.ledger.accounts)
    ≡ total (open_on thought_key) challenged_world.ledger.accounts
one_dispute_each_example =
    one_dispute_each platform platform_laws funds 100 challenged_world Reach-challenged thought_key

randomness_single_use_example :
    (thought_key ≡ thought_key)
    × (spent_seed
          (lookup (address platform (vrf_seeds agent_key 0)) submitted_world.ledger.accounts)
        ≡ some 77)
unfolding then
randomness_single_use_example =
    randomness_single_use platform platform_laws funds 100 submitted_world Reach-submitted
      thought_key thought_key pending_thought pending_thought refl refl refl refl

thought_persists_example :
    (t' : ThoughtRecord) × (lookup thought_key slashed_world.ledger.accounts
      ≡ some (thought_record t'))
    × Frozen (record pending_thought { status = 1 }) t'
    × Later (record pending_thought { status = 1 }) t'
unfolding then
thought_persists_example =
    thought_persists platform platform_laws thought_key challenged_world slashed_world
      (record pending_thought { status = 1 }) Reach-slashed refl

burnt_forever_example :
    (a' : AgentProfile) × (lookup agent_key slashed_world.ledger.accounts ≡ some (agent_profile a'))
    × (a'.stake_amount + 501 * 30 / 100 ≤ slashed_world.ledger.lamports (vault platform agent_key))
unfolding then
burnt_forever_example =
    burnt_forever platform platform_laws funds 100 challenged_world Reach-challenged verdict_context
      busy_agent slashed_world.ledger slashed_world refl refl here

it_consumes :
    consume_thought platform using_context 110 finalized_world.ledger ≡ ok used_world.ledger
unfolding then
it_consumes = refl

withdraw_blocked_example :
    withdraw_stake platform operator_context 100 1 submitted_world.ledger
    ≢ ok submitted_world.ledger
unfolding then
withdraw_blocked_example =
    withdraw_blocked platform platform_laws funds 100 submitted_world Reach-submitted
      operator_context 1 thought_key pending_thought submitted_world.ledger refl refl (inl refl)

withdraw_never_cools_example :
    withdraw_stake platform operator_context 100 1 registered_world.ledger
    ≢ err (pot cooldown_active)
unfolding then
withdraw_never_cools_example =
    withdraw_never_cools platform platform_laws funds 100 registered_world Reach-registered
      operator_context 1

finalize_unchallenged_example :
    (a : AgentProfile) × (lookup agent_key waited_world.ledger.accounts ≡ some (agent_profile a))
    × (0 < a.active_thoughts)
    × (resolve_unchallenged platform finalizing_context 110 waited_world.ledger
        ≡ ok (after_finalization finalizing_context 110 pending_thought a waited_world.ledger))
unfolding then
finalize_unchallenged_example =
    finalize_unchallenged platform platform_laws funds 100 waited_world Reach-waited
      finalizing_context pending_thought refl refl refl (omega arith)

guilty_verdict_pays_example :
    let s = challenged_world.ledger in
    let s' = slashed_world.ledger in
    (s'.lamports 6 ≡ s.lamports 6 + 501 * 60 / 100 + 205)
    × (s'.lamports 12 ≡ s.lamports 12 + 501 * 10 / 100)
    × (s'.lamports vault_key + 501 * 60 / 100 + 501 * 10 / 100 ≡ s.lamports vault_key)
    × (s'.lamports bond_key + 205 ≡ s.lamports bond_key)
unfolding then
guilty_verdict_pays_example =
    guilty_verdict_pays platform platform_laws verdict_context busy_agent open_dispute
      challenged_world.ledger slashed_world.ledger refl refl (omega arith) (omega arith)
      (omega arith) (omega arith) refl

innocent_verdict_pays_example :
    let s = challenged_world.ledger in
    let s' = acquitted_world.ledger in
    (s'.lamports 3 ≡ s.lamports 3 + 205 * 90 / 100)
    × (s'.lamports 12 ≡ s.lamports 12 + (205 - 205 * 90 / 100))
    × (s'.lamports bond_key + 205 ≡ s.lamports bond_key)
unfolding then
innocent_verdict_pays_example =
    innocent_verdict_pays platform platform_laws verdict_context open_dispute
      challenged_world.ledger acquitted_world.ledger refl (omega arith) (omega arith) (omega arith)
      (omega arith) refl

withdraw_idle_example :
    withdraw_stake platform operator_context 100 1 registered_world.ledger
    ≡ ok (record (registered_world.ledger) {
      accounts =
          insert agent_key
            (agent_profile (new_agent platform operator_context 500))
            registered_world.ledger.accounts;
      lamports = moved vault_key 3 1 registered_world.ledger.lamports;
    })
unfolding then
withdraw_idle_example =
    withdraw_idle platform platform_laws funds 100 registered_world Reach-registered
      operator_context 1 (new_agent platform operator_context 501)
      (moved vault_key 3 1 registered_world.ledger.lamports) refl refl refl refl (omega arith) refl
